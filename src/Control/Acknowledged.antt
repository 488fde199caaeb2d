-- ===== src/Control/Acknowledged.antt =====
-- A request from the handler to its acknowledgement: `update_device_control` of app/api/devices.py,
-- `get_control_status` of app/services/xml_control.py and `reconcile` of
-- app/services/control_requests.py.
use amplifier_panel.Base.{
  ◌≡◌, refl, sym, subst, ℕ, Bool, true, false, ◌&&◌, not, String, Option, none, some, List, arith,
  ◌==◌, string_eq, eq_refl, if_elim, if_true, Bool-cases, inl, inr,
}
use amplifier_panel.Base.Dict
use amplifier_panel.Base.Dict.{Dict, NodupKeys}
use amplifier_panel.Base.Result
use amplifier_panel.Base.Result.{Result, ok, err}
use amplifier_panel.Base.Text.{is_empty, strip}
use amplifier_panel.Device.{Floats}
use amplifier_panel.Statistics.{Json, Shown, object}
use amplifier_panel.Database.{ControlRequest, Store}
use amplifier_panel.Database.Requests.{
  record_control_request, update_control_request_status, update_found, with_status, reconcile,
}
use amplifier_panel.Database.Newest.{new_request, add_request_kept}
use amplifier_panel.Inventory.{is_active_device}
use amplifier_panel.Syslog.{Sent}
use amplifier_panel.Runtime.{Panel}
use amplifier_panel.Control.{Document, Tools}
use amplifier_panel.Control.Write.{document, no_temporary, write_control}
use amplifier_panel.Control.Status.{AckFile, read_acknowledgement, get_control_status, device_of}
use amplifier_panel.Control.Handler.{
  ControlPanel, Call, Moment, to_members, recorded, update_device_control, reconcile_files,
}
use amplifier_panel.Control.Valid.{build_valid}
use amplifier_panel.Control.Atomic.{write-IsAtomic}

module _ (fl : Floats) (sh : Shown fl.Float) where
  -- A request of the history, with all but its times.
  abbrev pub IsRequest :
      String → String → Json fl.Float → String → String → ControlRequest fl sh → Type 0
  IsRequest device_id username values state message q =
      (q.device_id ≡ device_id)
      × (q.username ≡ username)
      × (q.request_values ≡ values)
      × (q.request_state ≡ state)
      × (q.message ≡ message)

  abbrev pub Listed :
      String → String → String → Json fl.Float → String → String → Store fl sh → Type 0
  Listed id device_id username values state message s =
      (q : ControlRequest fl sh) × (Dict.lookup id s.requests ≡ some q)
      × IsRequest device_id username values state message q

  recorded-Listed :
      (id device_id username : String) (values : Json fl.Float) (now : ℕ) (s : Store fl sh)
      → s.connected ≡ true
      → NodupKeys s.requests
      → let s' =
          (record_control_request fl sh id device_id username (some values) "" now none s).1 in
        Listed id device_id username values "pending" "awaiting acknowledgement" s'
        × (s'.connected ≡ true)
  unfolding record_control_request
  recorded-Listed id device_id username values now s c u =
      rw (c, record_control_request)
        (
          (
            new_request fl sh device_id username values now s.requests,
            (add_request_kept fl sh id device_id username values now s.requests u).0,
            (refl, refl, refl, refl, refl),
          ),
          refl,
        )

  update-Listed :
      (id device_id username state message state' message' : String) (values : Json fl.Float)
      (now : ℕ) (s : Store fl sh)
      → s.connected ≡ true
      → is_empty id ≡ false
      → Listed id device_id username values state message s
      → Listed id device_id username values state' message'
          (update_control_request_status fl sh id state' message' now none s).1
  unfolding update_control_request_status update_found
  update-Listed id device_id username state message state' message' values now s c e
        (q, found, (d, n, v, _, _)) =
      rw (c, e, update_control_request_status, found, update_found)
        (if_elim
          (λ (r : Bool × Store fl sh). Listed id device_id username values state' message' r.1)
          (q.request_state == state' && q.message == message')
          (λ same. (q, found, (d, n, v, ground (arith, same), ground (arith, same))))
          (λ _. (
            with_status fl sh state' message' now q,
            ground (
              arith,
              Dict.lookup-insert id id (with_status fl sh state' message' now q) s.requests,
              eq_refl id,
            ),
            (d, n, v, refl, refl),
          )))

  -- The status of a request that the acknowledgement names.
  acknowledged_status :
      (read_time : String → Option ℕ) (timeout now : ℕ) (f : Option AckFile) (d : Document)
      (id : String)
      → is_empty id ≡ false
      → d.identifier ≡ some id
      → (read_acknowledgement fl sh f).request_id ≡ some id
      → get_control_status fl sh read_time timeout now f (document d) ≡ record {
        request_id = some id;
        request_device_id = device_of fl sh d.device_id;
        status_state = (read_acknowledgement fl sh f).state;
        message = (read_acknowledgement fl sh f).message;
      }
  unfolding get_control_status
  acknowledged_status read_time timeout now f d id e i a =
      rw (i, a) (if_true (not (is_empty id) && id == id) _ _ (ground (arith, e, eq_refl id)))

  -- What a request leaves that the handler accepts.
  accepted_request :
      (tools : Tools fl) (c : Call fl sh) (device_id username r : String)
      (values : Dict String (Json fl.Float)) (s : ControlPanel fl sh)
      → s.files.temporary ≡ no_temporary
      → (update_device_control fl sh tools c device_id username values s).0 ≡ ok r
      → let after = (update_device_control fl sh tools c device_id username values s).1 in
        (d : Document) × (after.files.control_file ≡ document d)
        × (d.identifier ≡ some c.identifier)
        × (d.device_id ≡ some (some device_id))
        × (after.panel ≡ recorded fl sh c device_id username values c.identifier s.panel)
  unfolding update_device_control
  accepted_request tools c device_id username r values s t h =
      elim (Bool-cases (is_active_device fl device_id s.panel.inventory)) [
        | inr e ↦ absurd (ground (arith, e, h))
        | inl e ↦
            let atomic =
              write-IsAtomic fl tools c.mapping c.failure device_id c.identifier c.created_at values
                s.files t in
            elim (Result.Result-cases
              (write_control fl tools c.mapping c.failure device_id values c.identifier c.created_at
                s.files).0) [
                  | inr (x, w) ↦ absurd (ground (arith, e, w, h))
                  | inl (id, w) ↦
                      let (d, b, same, file, _) = rw w at atomic in
                      let (_, _, _, _, _, _, _, identifier, _, _, device, _) =
                        build_valid fl tools c.mapping device_id c.identifier c.created_at values d
                          b in
                      rw (e, update_device_control, w, same) (d, file, identifier, device, refl)
                ]
      ]

  reconciled-Listed :
      (id device_id username state message dev state' message' : String) (values : Json fl.Float)
      (now : ℕ) (enabled : Bool) (quoted : String → String) (s : Store fl sh) (sent : List Sent)
      → s.connected ≡ true
      → is_empty id ≡ false
      → is_empty dev ≡ false
      → Listed id device_id username values state message s
      → Listed id device_id username values state' message'
          (reconcile fl sh enabled quoted
            (record {
              request_id = some id;
              request_device_id = some dev;
              status_state = state';
              message = message';
            })
            now
            none
            (s, sent)).0
  unfolding reconcile
  reconciled-Listed id device_id username state message dev state' message' values now enabled
        quoted s sent c e k listed =
      rw (e, k, reconcile)
        (update-Listed id device_id username state message state' message' values now s c e listed)

  reconcile_files-Listed :
      (id device_id username state message : String) (values : Json fl.Float) (d : Document)
      (read_time : String → Option ℕ) (timeout : ℕ) (enabled : Bool) (quoted : String → String)
      (m : Moment fl sh) (s : ControlPanel fl sh)
      → s.files.control_file ≡ document d
      → d.identifier ≡ some id
      → d.device_id ≡ some (some device_id)
      → s.panel.store.connected ≡ true
      → m.database_fault ≡ none
      → is_empty id ≡ false
      → is_empty (strip device_id) ≡ false
      → (read_acknowledgement fl sh m.acknowledgement).request_id ≡ some id
      → Listed id device_id username values state message s.panel.store
      → Listed id device_id username values
          (read_acknowledgement fl sh m.acknowledgement).state
          (read_acknowledgement fl sh m.acknowledgement).message
          (reconcile_files fl sh read_time timeout enabled quoted m s).panel.store
  unfolding reconcile_files
  reconcile_files-Listed id device_id username state message values d read_time timeout enabled
        quoted m s file i dev c g e k a listed =
      let status = acknowledged_status read_time timeout m.now_us m.acknowledgement d id e i a in
      rw (file, status, dev, g)
        (reconciled-Listed id device_id username state message (strip device_id)
          (read_acknowledgement fl sh m.acknowledgement).state
          (read_acknowledgement fl sh m.acknowledgement).message values m.now_ms enabled quoted
          s.panel.store s.panel.sent c e k listed)

  -- A control request from end to end: when the handler has accepted it, with SQLite at work, and a
  -- later reconciliation finds an acknowledgement of it in the status file, then the history lists
  -- the request with its device, its user and its values, and with the state and the message of the
  -- acknowledgement. The identifier and the id of the device are taken to be no blank texts, the history to
  -- have each request once, and no
  -- temporary file to be there before.
  pub acknowledged_request :
      (tools : Tools fl) (c : Call fl sh) (device_id username r : String)
      (values : Dict String (Json fl.Float)) (s : ControlPanel fl sh)
      (read_time : String → Option ℕ) (timeout : ℕ) (enabled : Bool) (quoted : String → String)
      (m : Moment fl sh)
      → s.files.temporary ≡ no_temporary
      → s.panel.store.connected ≡ true
      → NodupKeys s.panel.store.requests
      → c.database_fault ≡ none
      → m.database_fault ≡ none
      → is_empty c.identifier ≡ false
      → is_empty (strip device_id) ≡ false
      → (update_device_control fl sh tools c device_id username values s).0 ≡ ok r
      → (read_acknowledgement fl sh m.acknowledgement).request_id ≡ some c.identifier
      → let accepted = (update_device_control fl sh tools c device_id username values s).1 in
        Listed c.identifier device_id username
          (object (to_members fl sh values))
          (read_acknowledgement fl sh m.acknowledgement).state
          (read_acknowledgement fl sh m.acknowledgement).message
          (reconcile_files fl sh read_time timeout enabled quoted m accepted).panel.store
  unfolding recorded
  acknowledged_request tools c device_id username r values s read_time timeout enabled quoted m t
        connected u f g e k h a =
      let document_values = object (to_members fl sh values) in
      let (d, file, i, dev, same) = accepted_request tools c device_id username r values s t h in
      let (listed, open_after) =
        recorded-Listed c.identifier device_id username document_values c.now_ms s.panel.store
          connected u in
      let after = (update_device_control fl sh tools c device_id username values s).1 in
      reconcile_files-Listed c.identifier device_id username "pending" "awaiting acknowledgement"
        document_values d read_time timeout enabled quoted m after file i dev
        (subst (λ (p : Panel fl sh). p.store.connected ≡ true) (sym same) (rw f open_after)) g e k a
        (subst
          (λ (p : Panel fl sh).
            Listed c.identifier device_id username document_values "pending"
              "awaiting acknowledgement" p.store)
          (sym same) (rw f listed))
