-- ===== src/Alarms.antt =====
-- app/services/alarms.py: the limits of a snapshot, and the latched alarms of `active_alarms`.
pub mod Lookup
pub mod Latch
pub mod Notices
pub mod Limits
pub mod Sound
use amplifier_panel.Base.{
  Bool, true, false, ◌&&◌, not, String, Option, none, some, List, [], ◌∷◌, ◌++◌, ◌==◌, string_eq,
  select, if◌then◌else◌,
}
use amplifier_panel.Base.Dict
use amplifier_panel.Base.Dict.{Dict}
use amplifier_panel.Base.Result.{Result, ok, err}
use amplifier_panel.Base.Text.{◌<>◌}
use amplifier_panel.Device.{
  Floats, Value, missing, numeric, truth, words, AlarmLimits, Field, Section, Snapshot,
}

pub data Kind : Type 0 where
  below_minimum above_maximum : Kind

abbrev pub kind_name : Kind → String
kind_name below_minimum = "minimum"
kind_name above_maximum = "maximum"

unfoldable pub alarm_key : String → String → String → Kind → String
alarm_key device_id section field kind =
    device_id <> ":" <> section <> ":" <> field <> ":" <> kind_name kind

pub data Event : Type 0 where
  opened cleared : Event

module _ (fl : Floats) where
  open fl use {Float, lt, of_bool, show}

  -- What is known of a limit that the snapshot passes.
  pub record Violation : Type 0 where
    pub key : String
    pub device_id : String
    pub section : String
    pub field : String
    pub label : String
    pub unit : String
    pub kind : Kind
    pub value : Value Float
    pub target : Float
    pub message : String

  -- A latched alarm: its violation, and when it opened and returned.
  pub record Alarm : Type 0 where
    pub violation : Violation
    pub event : Event
    pub event_time : String
    pub opened_at : String
    pub returned_to_normal_at : Option String
    pub condition_active : Bool
    pub acknowledged : Bool

  -- `isinstance(value, (int, float))`: a truth value is an `int` too.
  abbrev pub as_number : Value Float → Option Float
  as_number missing = none
  as_number (numeric x) = some x
  as_number (truth b) = some (of_bool b)
  as_number (words _) = none

  abbrev pub violates : Kind → Float → Float → Bool
  violates below_minimum value boundary = lt value boundary
  violates above_maximum value boundary = lt boundary value

  abbrev pub kind_phrase : Kind → String
  kind_phrase below_minimum = "below minimum"
  kind_phrase above_maximum = "above maximum"

  unfoldable pub violation :
      String → Section Float → Field Float → Kind → Value Float → Float → Violation
  violation device_id section field kind value boundary = record {
    key = alarm_key device_id section.key field.key kind;
    device_id = device_id;
    section = section.key;
    field = field.key;
    label = field.label;
    unit = field.unit;
    kind = kind;
    value = value;
    target = boundary;
    message = field.label <> " " <> kind_phrase kind <> " " <> show boundary;
  }

  abbrev pub Violations : Type 0
  Violations = Dict String Violation

  -- One turn of the loop over the two boundaries.
  unfoldable pub check_boundary :
      String
      → Section Float
      → Field Float
      → Value Float
      → Float
      → Kind
      → Option Float
      → Violations
      → Violations
  check_boundary device_id section field value x kind none current = current
  check_boundary device_id section field value x kind (some boundary) current =
      if violates kind x boundary
      then Dict.insert (alarm_key device_id section.key field.key kind)
          (violation device_id section field kind value boundary) current
      else current

  unfoldable pub check_number :
      String → Section Float → Field Float → Value Float → Option Float → Violations → Violations
  check_number device_id section field value none current = current
  check_number device_id section field value (some x) current =
      check_boundary device_id section field value x above_maximum field.alarm.maximum
        (check_boundary device_id section field value x below_minimum field.alarm.minimum current)

  -- `values.get(field["key"])`
  abbrev pub value_or_missing : Option (Value Float) → Value Float
  value_or_missing none = missing
  value_or_missing (some v) = v

  abbrev pub section_values : Snapshot Float → Section Float → Dict String (Value Float)
  section_values snapshot section = elim (Dict.lookup section.key snapshot.values) [
    | none ↦ []
    | some values ↦ values
  ]

  abbrev pub field_value : Snapshot Float → Section Float → Field Float → Value Float
  field_value snapshot section field =
      value_or_missing (Dict.lookup field.key (section_values snapshot section))

  unfoldable pub check_field :
      String → Snapshot Float → Section Float → Field Float → Violations → Violations
  check_field device_id snapshot section field current =
      let value = field_value snapshot section field in
      if field.alarm.enabled
      then check_number device_id section field value (as_number value) current
      else current

  unfoldable pub check_fields :
      String → Snapshot Float → Section Float → List (Field Float) → Violations → Violations
  check_fields device_id snapshot section [] current = current
  check_fields device_id snapshot section (field ∷ fields) current =
      check_fields device_id snapshot section fields
        (check_field device_id snapshot section field current)

  unfoldable pub check_sections :
      String → Snapshot Float → List (Section Float) → Violations → Violations
  check_sections device_id snapshot [] current = current
  check_sections device_id snapshot (section ∷ sections) current =
      check_sections device_id snapshot sections
        (check_fields device_id snapshot section section.fields current)

  -- The dict `current`: the limits that the snapshot passes.
  abbrev pub violations : String → Snapshot Float → Violations
  violations device_id snapshot = check_sections device_id snapshot snapshot.sections []

  -- The dict `observed`, by section and field, as a search: the last value written for the two keys.
  unfoldable pub observed_in :
      Snapshot Float → Section Float → List (Field Float) → String → Option (Value Float)
  observed_in snapshot section [] field = none
  observed_in snapshot section (f ∷ fields) field =
      let rest = observed_in snapshot section fields field in
      elim rest [
        | some v ↦ some v
        | none ↦ if f.key == field then some (field_value snapshot section f) else none
      ]

  unfoldable pub observed :
      Snapshot Float → List (Section Float) → String → String → Option (Value Float)
  observed snapshot [] section field = none
  observed snapshot (s ∷ sections) section field =
      let rest = observed snapshot sections section field in
      elim rest [
        | some v ↦ some v
        | none ↦ if s.key == section then observed_in snapshot s s.fields field else none
      ]

  abbrev pub Alarms : Type 0
  Alarms = Dict String Alarm

  -- `observed.get((section, field), alarm["value"])`
  abbrev pub value_or : Option (Value Float) → Value Float → Value Float
  value_or none old = old
  value_or (some v) old = v

  abbrev pub returned : Snapshot Float → String → Alarm → Alarm
  returned snapshot observed_at a =
      let v = a.violation in
      record a {
        condition_active = false;
        returned_to_normal_at = some observed_at;
        violation = record v {
          value = value_or (observed snapshot snapshot.sections v.section v.field) v.value;
        };
      }

  -- What is sent when a condition ends.
  abbrev pub cleared_notice : String → Alarm → Alarm
  cleared_notice observed_at a = record a { event = cleared; event_time = observed_at }

  -- One turn of the loop over the keys whose condition has ended, with the list `cleared`.
  unfoldable pub clear_alarm :
      Snapshot Float → String → String → Option Alarm → Alarms × List Alarm → Alarms × List Alarm
  clear_alarm snapshot observed_at key none (alarms, sent) = (alarms, sent)
  clear_alarm snapshot observed_at key (some a) (alarms, sent) =
      let b = returned snapshot observed_at a in
      if a.condition_active
      then (
        (if a.acknowledged then Dict.erase key alarms else Dict.insert key b alarms),
        sent ++ cleared_notice observed_at b ∷ [],
      )
      else (alarms, sent)

  unfoldable pub clear_loop :
      Snapshot Float → String → List String → Alarms × List Alarm → Alarms × List Alarm
  clear_loop snapshot observed_at [] st = st
  clear_loop snapshot observed_at (key ∷ keys) st =
      clear_loop snapshot observed_at keys
        (clear_alarm snapshot observed_at key (Dict.lookup key st.0) st)

  abbrev pub fresh_alarm : String → Violation → Alarm
  fresh_alarm observed_at v = record {
    violation = v;
    event = opened;
    event_time = observed_at;
    opened_at = observed_at;
    returned_to_normal_at = none;
    condition_active = true;
    acknowledged = false;
  }

  -- An alarm that is latched already takes the new value and message.
  abbrev pub still_active : Violation → Alarm → Alarm
  still_active v a =
      let w = a.violation in
      record a {
        violation = record w { value = v.value; message = v.message };
        condition_active = true;
        returned_to_normal_at = none;
      }

  abbrev pub reopened : String → Violation → Alarm → Alarm
  reopened observed_at v a =
      let b = still_active v a in
      record b { acknowledged = false; opened_at = observed_at; event_time = observed_at }

  -- One turn of the loop over `current`, with the list `opened`.
  unfoldable pub open_alarm :
      String → String → Violation → Option Alarm → Alarms × List Alarm → Alarms × List Alarm
  open_alarm observed_at key v none (alarms, sent) =
      (Dict.insert key (fresh_alarm observed_at v) alarms, sent ++ fresh_alarm observed_at v ∷ [])
  open_alarm observed_at key v (some a) (alarms, sent) =
      if a.condition_active then (Dict.insert key (still_active v a) alarms, sent) else (
        Dict.insert key (reopened observed_at v a) alarms,
        sent ++ reopened observed_at v a ∷ [],
      )

  unfoldable pub open_loop : String → Violations → Alarms × List Alarm → Alarms × List Alarm
  open_loop observed_at [] st = st
  open_loop observed_at ((key, v) ∷ current) st =
      open_loop observed_at current (open_alarm observed_at key v (Dict.lookup key st.0) st)

  -- `previous_keys - set(current)`
  abbrev pub ended_keys : String → Violations → Alarms → List String
  ended_keys device_id current alarms =
      Dict.keys (
        Dict.keep (λ key a. a.violation.device_id == device_id && not (Dict.has key current))
          alarms)

  pub record Evaluated : Type 0 where
    pub alarms : Alarms
    pub opened_list : List Alarm
    pub cleared_list : List Alarm

  -- The new alarms, and the alarms that are sent as opened and as cleared.
  unfoldable pub evaluate : String → Snapshot Float → String → Alarms → Evaluated
  evaluate device_id snapshot observed_at alarms =
      let current = violations device_id snapshot in
      let (alarms1, cleared_list) =
        clear_loop snapshot observed_at (ended_keys device_id current alarms) (alarms, []) in
      let (alarms2, opened_list) = open_loop observed_at current (alarms1, []) in
      record { alarms = alarms2; opened_list = opened_list; cleared_list = cleared_list }

  -- `active(device_id)`
  unfoldable pub active : String → Alarms → List Alarm
  active device_id alarms = select (λ a. a.violation.device_id == device_id) (Dict.values alarms)

  unfoldable pub acknowledge_found : String → String → Alarm → Alarms → Result String Alarm × Alarms
  acknowledge_found device_id key a alarms =
      let b = record a { acknowledged = true } in
      if a.violation.device_id == device_id
      then (ok b, if a.condition_active then Dict.insert key b alarms else Dict.erase key alarms)
      else (err "Alarm no longer exists", alarms)

  unfoldable pub acknowledge : String → String → Alarms → Result String Alarm × Alarms
  acknowledge device_id key alarms = elim (Dict.lookup key alarms) [
    | none ↦ (err "Alarm no longer exists", alarms)
    | some a ↦ acknowledge_found device_id key a alarms
  ]
