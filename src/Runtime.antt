-- ===== src/Runtime.antt =====
-- app/devices/runtime.py over the live state and the database, with what leaves the panel. The panel's
-- state joins that of the parts. An exception is an `err` with its text; what was changed before it
-- stays changed.
pub mod Poll
pub mod Failed
pub mod Polled
pub mod Document
pub mod Raises
pub mod Stops
use amplifier_panel.Base.{
  ℕ, Bool, true, false, not, ◌&&◌, String, Option, none, some, List, [], ◌∷◌, ◌++◌, ◌==◌, string_eq,
  option_eq, leb, eqb, length, map, if◌then◌else◌,
}
use amplifier_panel.Base.Dict
use amplifier_panel.Base.Dict.{Dict}
use amplifier_panel.Base.Result.{Result, ok, err}
use amplifier_panel.Base.Text.{◌<>◌}
use amplifier_panel.Device.{Floats, Value, missing, numeric, truth, words, Snapshot}
use amplifier_panel.Alarms.{Alarm, Alarms, as_number}
use amplifier_panel.Inventory.{
  Live, Inventory, Update, is_active_device, snapshot_device_live, update_device_live,
}
use amplifier_panel.Statistics.{
  Json, Members, Shown, null, number, boolean, text, object, no_members, member,
}
use amplifier_panel.Database.{Store}
use amplifier_panel.Database.Snapshots.{Fault, write_device_snapshot}
use amplifier_panel.Syslog.{Sent}

module _ (fl : Floats) (sh : Shown fl.Float) where
  open fl use {Float, lt}

  -- `send_warning_event` and `send_trap` for one alarm.
  pub data Notice : Type 0 where
    warning_event : Alarm fl → Notice
    trap : Alarm fl → Notice

  pub record Panel : Type 0 where
    pub inventory : Inventory fl
    pub store : Store fl sh
    pub sent : List Sent
    pub notices : List Notice

  -- What the panel's surroundings answer: the length of `json.dumps(snapshot, allow_nan=False)`, `none`
  -- where it raises; how the write of a device to SQLite fails; and the setting of the record cap.
  pub record World : Type 0 where
    pub json_length : Snapshot Float → Option ℕ
    pub fault : String → Option (Fault × String)
    pub max_records : ℕ

  abbrev pub value_json : Value Float → Json Float
  value_json missing = null
  value_json (numeric x) = number x
  value_json (truth b) = boolean b
  value_json (words w) = text w

  unfoldable pub values_json : Dict String (Value Float) → Members Float
  values_json [] = no_members
  values_json ((k, v) ∷ d) = member k (value_json v) (values_json d)

  unfoldable pub sections_json : Dict String (Dict String (Value Float)) → Members Float
  sections_json [] = no_members
  sections_json ((k, d) ∷ sections) = member k (object (values_json d)) (sections_json sections)

  -- `{"values": snapshot["values"]}`
  abbrev pub history_snapshot : Snapshot Float → Json Float
  history_snapshot snapshot =
      object (member "values" (object (sections_json snapshot.values)) no_members)

  abbrev pub max_snapshot_characters : ℕ
  max_snapshot_characters = 1000000

  abbrev pub no_update : Update fl
  no_update = record { connected = none; error = none; last_update = none; snapshot = none }

  -- The update after an observation.
  abbrev pub observed_update : String → Snapshot Float → Update fl
  observed_update at snapshot = record {
    connected = some true;
    error = some none;
    last_update = some at;
    snapshot = some snapshot;
  }

  abbrev pub set_inventory : Inventory fl → Panel → Panel
  set_inventory i s = record s { inventory = i }

  -- The last part of `publish_snapshot`, with the entry of the device before.
  unfoldable pub publish_observed :
      World → String → Snapshot Float → ℕ → String → Live fl → Panel → Result String Bool × Panel
  publish_observed w device_id snapshot t at previous s =
      let (stored, store) =
        if previous.last_update == some at
        then (false, s.store)
        else write_device_snapshot fl sh w.max_records device_id
            (some (t, history_snapshot snapshot)) "" (w.fault device_id) s.store in
      (
        ok stored,
        record s {
          store = store;
          inventory = update_device_live fl device_id (observed_update at snapshot) s.inventory;
        },
      )

  unfoldable pub publish_checked :
      World → String → Snapshot Float → Option (ℕ × String) → Panel → Result String Bool × Panel
  publish_checked w device_id snapshot none s = (err "Invalid device observation timestamp", s)
  publish_checked w device_id snapshot (some (t, at)) s =
      elim (snapshot_device_live fl device_id s.inventory) [
        | none ↦ (err ("KeyError: " <> device_id), s)
        | some previous ↦ publish_observed w device_id snapshot t at previous s
      ]

  -- `publish_snapshot`. The time is the parsed one with its text in UTC, and `none` where the text of
  -- the caller is no time.
  unfoldable pub publish_snapshot :
      World → String → Snapshot Float → Option (ℕ × String) → Panel → Result String Bool × Panel
  publish_snapshot w device_id snapshot observed_at s =
      if is_active_device fl device_id s.inventory
      then elim (w.json_length snapshot) [
        | none ↦ (err "Device snapshot must be JSON-compatible and finite", s)
        | some n ↦
            if leb n max_snapshot_characters
            then publish_checked w device_id snapshot observed_at s
            else (err "Device snapshot exceeds the 1 MB safety limit", s)
      ]
      else (err ("Device is not present in status.xml: " <> device_id), s)

  -- `report_failure`
  unfoldable pub report_failure :
      String → String → Inventory fl → Result String (Unit {0}) × Inventory fl
  report_failure device_id error s =
      if is_active_device fl device_id s
      then (
        ok tt,
        update_device_live fl device_id
            (record no_update { connected = some false; error = some (some error) }) s,
      )
      else (err ("Device is not present in status.xml: " <> device_id), s)

  -- `==` of values of fields: a truth value is a number too.
  abbrev pub number_eq : Option Float → Option Float → Bool
  number_eq (some x) (some y) = not (lt x y) && not (lt y x)
  number_eq none _ = false
  number_eq (some x) none = false

  abbrev pub value_eq : Value Float → Value Float → Bool
  value_eq missing missing = true
  value_eq missing _ = false
  value_eq (words v) (words w) = v == w
  value_eq (words v) _ = false
  value_eq (numeric x) w = number_eq (some x) (as_number fl w)
  value_eq (truth b) w = number_eq (as_number fl (truth b)) (as_number fl w)

  -- `==` of dicts, by an equality of their values.
  abbrev pub entry_eq : {V : Type 0} → (V → V → Bool) → V → Option V → Bool
  entry_eq eq v none = false
  entry_eq eq v (some w) = eq v w

  unfoldable pub entries_in : {V : Type 0} → (V → V → Bool) → Dict String V → Dict String V → Bool
  entries_in eq [] e = true
  entries_in eq ((k, v) ∷ d) e = entry_eq eq v (Dict.lookup k e) && entries_in eq d e

  unfoldable pub dict_eq : {V : Type 0} → (V → V → Bool) → Dict String V → Dict String V → Bool
  unfolding entries_in
  dict_eq eq d e = eqb (length d) (length e) && entries_in eq d e

  -- `previous.get("data", {}).get("values") == snapshot["values"]`
  unfoldable pub same_values : Option (Snapshot Float) → Snapshot Float → Bool
  unfolding dict_eq
  same_values none snapshot = false
  same_values (some old) snapshot = dict_eq (dict_eq value_eq) old.values snapshot.values
