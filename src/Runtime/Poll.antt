-- ===== src/Runtime/Poll.antt =====
-- `poll_once` and the loop of app/services/xml_status.py: one reading of the status document, through the
-- inventory, the control requests, the alarms, the database and the live state.
use amplifier_panel.Base.{
  ℕ, ◌+◌, ◌-◌, Bool, String, Option, none, some, List, [], ◌∷◌, ◌++◌, string_eq, ltb, min, map,
  if◌then◌else◌,
}
use amplifier_panel.Base.Dict
use amplifier_panel.Base.Dict.{Dict}
use amplifier_panel.Base.Result.{Result, ok, err, ◌>>=◌, ◌>>◌, reject_if}
use amplifier_panel.Base.Text.{◌<>◌, join}
use amplifier_panel.Device.{Floats, Profile, Snapshot}
use amplifier_panel.Alarms.{Alarm, evaluate}
use amplifier_panel.Inventory.{
  Live, Inventory, active_device_ids, set_device_inventory, snapshot_device_live,
  update_device_live,
}
use amplifier_panel.Statistics.{Shown}
use amplifier_panel.Database.Requests.{ControlStatus, reconcile}
use amplifier_panel.Status.{Root, Mapping}
use amplifier_panel.Status.Parse.{Results, max_xml_bytes, parse_status}
use amplifier_panel.Runtime.{
  Notice, warning_event, trap, Panel, World, no_update, observed_update, publish_snapshot,
  report_failure, same_values, set_inventory,
}

module _ (fl : Floats) (sh : Shown fl.Float) where
  open fl use {Float}

  -- The status file: its modification time with the text of it, its size, and what its bytes are.
  pub record StatusFile : Type 0 where
    pub modified : ℕ
    pub modified_at : String
    pub bytes : ℕ
    pub has_declaration : Bool
    pub root : Option Root

  -- What one poll finds: the mapping and the file or why they cannot be read, the clock, the largest
  -- age (in milliseconds), and the control status with the outcome of its write.
  pub record Reading : Type 0 where
    pub mapping : Result String (Mapping Float)
    pub file : Result String StatusFile
    pub now : ℕ
    pub stale_ms : ℕ
    pub syslog_enabled : Bool
    pub quoted : String → String
    pub control_status : ControlStatus fl sh
    pub control_fault : Option String

  unfoldable pub parse_file : Reading → Mapping Float → StatusFile → Result String (Results fl)
  parse_file r mapping f =
      reject_if (ltb r.stale_ms (r.now - f.modified))
        "XML file is stale: producer has not refreshed it"
      >> parse_status fl (min f.bytes (max_xml_bytes fl + 1)) f.has_declaration f.root mapping

  -- The `try` block: the results with the time of the file.
  unfoldable pub read_results : Reading → Result String (ℕ × String × Results fl)
  read_results r = r.mapping >>= λ mapping.
      r.file >>= λ f. parse_file r mapping f >>= λ results. ok (f.modified, f.modified_at, results)

  -- `first; rest`, where an exception of the first ends both.
  abbrev pub after_ok :
      {S : Type 0}
      → Result String (Unit {0}) × S
      → (S → Result String (Unit {0}) × S)
      → Result String (Unit {0}) × S
  after_ok (ok _, s) rest = rest s
  after_ok (err e, s) rest = (err e, s)

  -- `for key in state.active_device_ids(): runtime.report_failure(key, …)`
  unfoldable pub report_all :
      List String → String → Inventory fl → Result String (Unit {0}) × Inventory fl
  report_all [] error s = (ok tt, s)
  report_all (device_id ∷ ids) error s =
      after_ok (report_failure fl sh device_id error s) (report_all ids error)

  abbrev pub opened_notices : List (Alarm fl) → List (Notice fl sh)
  opened_notices [] = []
  opened_notices (a ∷ l) = warning_event a ∷ trap a ∷ opened_notices l

  abbrev pub cleared_notices : List (Alarm fl) → List (Notice fl sh)
  cleared_notices l = map warning_event l

  -- `alarms.evaluate` with what it sends.
  unfoldable pub evaluate_device : String → Snapshot Float → String → Panel fl sh → Panel fl sh
  evaluate_device key snapshot at s =
      let e = evaluate fl key snapshot at s.inventory.active_alarms in
      record s {
        inventory = record s.inventory { active_alarms = e.alarms };
        notices = s.notices ++ (opened_notices e.opened_list ++ cleared_notices e.cleared_list);
      }

  abbrev pub forget :
      {A : Type 0} → Result String A × Panel fl sh → Result String (Unit {0}) × Panel fl sh
  forget (ok _, s) = (ok tt, s)
  forget (err e, s) = (err e, s)

  -- New values are published, and the same values only refresh the live entry.
  unfoldable pub refresh_device :
      World fl sh
      → ℕ
      → String
      → String
      → Snapshot Float
      → Live fl
      → Panel fl sh
      → Result String (Unit {0}) × Panel fl sh
  refresh_device w t at key snapshot previous s =
      if same_values fl sh previous.snapshot snapshot
      then (
        ok tt,
        set_inventory fl sh
            (update_device_live fl key (observed_update fl sh at snapshot) s.inventory) s,
      )
      else forget (publish_snapshot fl sh w key snapshot (some (t, at)) s)

  abbrev pub report_issues : String → List String → Panel fl sh → Panel fl sh
  report_issues key [] s = s
  report_issues key (issue ∷ issues) s =
      set_inventory fl sh
        (update_device_live fl key
          (record (no_update fl sh) { error = some (some (join "; " (issue ∷ issues))) })
          s.inventory)
        s

  abbrev pub with_issues :
      String
      → Snapshot Float
      → Result String (Unit {0}) × Panel fl sh
      → Result String (Unit {0}) × Panel fl sh
  with_issues key snapshot (ok _, s) = (ok tt, report_issues key snapshot.issues s)
  with_issues key snapshot (err e, s) = (err e, s)

  -- One turn of the last loop of `poll_once`.
  unfoldable pub poll_device :
      World fl sh
      → ℕ
      → String
      → String
      → Snapshot Float
      → Panel fl sh
      → Result String (Unit {0}) × Panel fl sh
  poll_device w t at key snapshot s =
      let s1 = evaluate_device key snapshot at s in
      elim (snapshot_device_live fl key s1.inventory) [
        | none ↦ (err ("KeyError: " <> key), s1)
        | some previous ↦ with_issues key snapshot (refresh_device w t at key snapshot previous s1)
      ]

  unfoldable pub poll_devices :
      World fl sh → ℕ → String → Results fl → Panel fl sh → Result String (Unit {0}) × Panel fl sh
  poll_devices w t at [] s = (ok tt, s)
  poll_devices w t at ((key, snapshot) ∷ results) s =
      after_ok (poll_device w t at key snapshot s) (poll_devices w t at results)

  abbrev pub profiles_of : Results fl → List Profile
  profiles_of results = map (λ (p : Snapshot Float). p.profile) (Dict.values results)

  -- The part of `poll_once` before its last loop: the inventory, then the control requests.
  unfoldable pub start_poll : Reading → Results fl → Panel fl sh → Panel fl sh
  start_poll r results s =
      let (store, sent) =
        reconcile fl sh r.syslog_enabled r.quoted r.control_status r.now r.control_fault
          (s.store, s.sent) in
      record s {
        inventory = set_device_inventory fl (profiles_of results) s.inventory;
        store = store;
        sent = sent;
      }

  unfoldable pub poll_once :
      World fl sh → Reading → Panel fl sh → Result String (Unit {0}) × Panel fl sh
  poll_once w r s = elim (read_results r) [
    | err e ↦
        let (answer, inventory) =
          report_all (active_device_ids fl s.inventory) ("XML: " <> e) s.inventory in
        (answer, record s { inventory = inventory })
    | ok (t, at, results) ↦ poll_devices w t at results (start_poll r results s)
  ]

  -- `xml_reader_loop` over the readings until the stop event: an exception of `poll_once` ends it.
  unfoldable pub xml_reader_loop :
      World fl sh → List Reading → Panel fl sh → Result String (Unit {0}) × Panel fl sh
  xml_reader_loop w [] s = (ok tt, s)
  xml_reader_loop w (r ∷ readings) s = after_ok (poll_once w r s) (xml_reader_loop w readings)
