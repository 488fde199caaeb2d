-- ===== src/Database/History.antt =====
-- What the history of control requests keeps, in app/services/database.py, and that each change of a
-- status is audited once, in app/services/control_requests.py.
use amplifier_panel.Base.{
  ℕ, ◌≡◌, refl, ap, Bool, true, false, ◌&&◌, not, String, Option, none, some, List, ◌==◌, string_eq,
  arith, if◌then◌else◌, if_elim, eq_refl, if_true, if_false,
}
use amplifier_panel.Base.Dict
use amplifier_panel.Base.Dict.{Dict, NodupKeys}
use amplifier_panel.Base.Text.{is_empty}
use amplifier_panel.Device.{Floats}
use amplifier_panel.Syslog.{Sent, send_audit}
use amplifier_panel.Statistics.{Shown}
use amplifier_panel.Database.{ControlRequest, Store}
use amplifier_panel.Database.Requests.{
  update_found, with_status, update_control_request_status, ControlStatus, present, reconcile,
  status_details,
}

module _ (fl : Floats) (sh : Shown fl.Float) where
  -- A request that has a status already is not changed by it.
  abbrev settled : String → String → Option (ControlRequest fl sh) → Bool
  settled status message none = true
  settled status message (some q) = q.request_state == status && q.message == message

  update_settled :
      (id status message : String) (now : ℕ) (o : Option (ControlRequest fl sh)) (s : Store fl sh)
      → settled status message o ≡ true
      → update_found fl sh id status message now o s ≡ (false, s)
  unfolding update_found
  update_settled id status message now none s w = refl
  update_settled id status message now (some q) s w =
      if_true (q.request_state == status && q.message == message) _ _ w

  update_settles :
      (id status message : String) (now : ℕ) (o : Option (ControlRequest fl sh)) (s : Store fl sh)
      → Dict.lookup id s.requests ≡ o
      → settled status message
          (Dict.lookup id (update_found fl sh id status message now o s).1.requests)
        ≡ true
  unfolding update_found
  update_settles id status message now none s w = rw w refl
  update_settles id status message now (some q) s w =
      if_elim
        (λ (r : Bool × Store fl sh). settled status message (Dict.lookup id r.1.requests) ≡ true)
        (q.request_state == status && q.message == message) (λ e. rw w e)
        (λ _. ground (
          arith,
          Dict.lookup-insert id id (with_status fl sh status message now q) s.requests,
          eq_refl id,
          eq_refl status,
          eq_refl message,
        ))

  -- A status that was stored is not a change when it is stored again, whatever happens then.
  update_again :
      (id status message : String) (now later : ℕ) (fault : Option String) (s : Store fl sh)
      → let s' = (update_control_request_status fl sh id status message now none s).1 in
        (update_control_request_status fl sh id status message later fault s').0 ≡ false
  unfolding update_control_request_status
  update_again id status message now later (some e) s = ground arith
  update_again id status message now later none s =
      if_elim
        (λ (r : Bool × Store fl sh).
          (if r.1.connected && not (is_empty id)
            then update_found fl sh id status message later (Dict.lookup id r.1.requests) r.1
            else (false, r.1)).0
          ≡ false)
        (s.connected && not (is_empty id))
        (λ _.
          let o = Dict.lookup id s.requests in
          let s' = (update_found fl sh id status message now o s).1 in
          if_elim (λ (r : Bool × Store fl sh). r.0 ≡ false) (s'.connected && not (is_empty id))
            (λ _.
              ap (λ (r : Bool × Store fl sh). r.0)
                (update_settled id status message later (Dict.lookup id s'.requests) s'
                  (update_settles id status message now o s refl)))
            (λ _. refl))
        (λ e.
          ap (λ (r : Bool × Store fl sh). r.0)
            (if_false (s.connected && not (is_empty id)) _ (false, s) e))

  -- Reconciling twice with the same device status audits once: when SQLite took the first status, the
  -- second `reconcile` sends nothing, whatever the clock reads and whether or not SQLite fails then.
  pub reconcile_audits_once :
      (enabled : Bool) (quoted : String → String) (status : ControlStatus fl sh) (now later : ℕ)
      (fault : Option String) (s : Store fl sh) (sent : List Sent)
      → let first = reconcile fl sh enabled quoted status now none (s, sent) in
        (reconcile fl sh enabled quoted status later fault first).1 ≡ first.1
  unfolding reconcile
  reconcile_audits_once enabled quoted status now later fault s sent =
      if_elim
        (λ (r : Store fl sh × List Sent).
          (if known
            then (
              (update_control_request_status fl sh id status.status_state status.message later fault
                  r.0).1,
              if (update_control_request_status fl sh id status.status_state status.message later
                    fault r.0).0
                  then send_audit enabled "device_control_status_changed" "system" "local"
                      (status_details fl sh quoted status) r.1
                  else r.1,
            )
            else r).1
          ≡ r.1)
        known
        (λ _.
          if_elim (λ (r : Store fl sh × List Sent). r.1 ≡ sent1) known
            (λ _.
              if_false _ _ _ (update_again id status.status_state status.message now later fault s))
            (λ _. refl))
        (λ e. ap (λ (r : Store fl sh × List Sent). r.1) (if_false known _ (s, sent) e))
    where
      id : String
      id = present fl sh status.request_id

      sent1 : List Sent
      sent1 =
          if (update_control_request_status fl sh id status.status_state status.message now none
            s).0
          then send_audit enabled "device_control_status_changed" "system" "local"
              (status_details fl sh quoted status) sent
          else sent

      known : Bool
      known =
          not (is_empty (present fl sh status.request_id))
          && not (is_empty (present fl sh status.request_device_id))
