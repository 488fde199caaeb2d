-- ===== src/Alarms/Lookup.antt =====
-- What `evaluate` does to the alarm of one key: the loops of app/services/alarms.py, read pointwise.
use amplifier_panel.Base.{
  ◌≡◌, refl, true, false, ◌&&◌, not, String, Option, none, some, List, [], ◌∷◌, arith, contains,
  ◌==◌, string_eq, if◌then◌else◌,
}
use amplifier_panel.Base.Dict
use amplifier_panel.Base.Dict.{Dict, NodupKeys}
use amplifier_panel.Device.{Floats, Field, Section, Snapshot, Value}
use amplifier_panel.Alarms.{
  Violation, Violations, Alarm, Alarms, Kind, check_boundary, check_number, check_field,
  check_fields, check_sections, violations, returned, fresh_alarm, still_active, reopened,
  clear_alarm, clear_loop, open_alarm, open_loop, ended_keys, evaluate, as_number, field_value,
  alarm_key, violation, below_minimum, above_maximum,
}

module _ (fl : Floats) where
  -- An alarm after its condition has ended.
  abbrev pub ended : Snapshot fl.Float → String → Option (Alarm fl) → Option (Alarm fl)
  ended snapshot at none = none
  ended snapshot at (some a) =
      if a.condition_active
      then (if a.acknowledged then none else some (returned fl snapshot at a))
      else some a

  -- An alarm after its limit was found passed.
  abbrev pub started : String → Violation fl → Option (Alarm fl) → Alarm fl
  started at v none = fresh_alarm fl at v
  started at v (some a) = if a.condition_active then still_active fl v a else reopened fl at v a

  -- An alarm after an evaluation, from what the snapshot says of its key and what it was before.
  abbrev pub evaluated :
      String
      → Snapshot fl.Float
      → String
      → Option (Violation fl)
      → Option (Alarm fl)
      → Option (Alarm fl)
  evaluated device_id snapshot at (some v) o = some (started at v o)
  evaluated device_id snapshot at none none = none
  evaluated device_id snapshot at none (some a) =
      if a.violation.device_id == device_id then ended snapshot at (some a) else some a

  module _ (snapshot : Snapshot fl.Float) (at : String) where
    ended_idem :
        (o : Option (Alarm fl)) → ended snapshot at (ended snapshot at o) ≡ ended snapshot at o
    ended_idem o = ground arith

    lookup-clear_alarm :
        (j key : String) (o : Option (Alarm fl)) (alarms : Alarms fl) (sent : List (Alarm fl))
        → Dict.lookup key alarms ≡ o
        → Dict.lookup j (clear_alarm fl snapshot at key o (alarms, sent)).0
          ≡ (if j == key then ended snapshot at o else Dict.lookup j alarms)
    unfolding clear_alarm
    lookup-clear_alarm j key none alarms sent h = ground (arith, h)
    lookup-clear_alarm j key (some a) alarms sent h = ground (
      arith,
      h,
      Dict.lookup-erase j key alarms,
      Dict.lookup-insert j key (returned fl snapshot at a) alarms,
    )

    lookup-clear_loop :
        (j : String) (keys : List String) (st : Alarms fl × List (Alarm fl))
        → Dict.lookup j (clear_loop fl snapshot at keys st).0
          ≡ (if contains keys j then ended snapshot at (Dict.lookup j st.0) else Dict.lookup j st.0)
    unfolding clear_loop
    lookup-clear_loop j [] st = refl
    lookup-clear_loop j (key ∷ keys) (alarms, sent) = ground (
      arith,
      lookup-clear_loop j keys
          (clear_alarm fl snapshot at key (Dict.lookup key alarms) (alarms, sent)),
      lookup-clear_alarm j key (Dict.lookup key alarms) alarms sent refl,
      ended_idem (Dict.lookup key alarms),
    )

    lookup-open_alarm :
        (j key : String) (v : Violation fl) (o : Option (Alarm fl)) (alarms : Alarms fl)
        (sent : List (Alarm fl))
        → Dict.lookup j (open_alarm fl at key v o (alarms, sent)).0
          ≡ (if j == key then some (started at v o) else Dict.lookup j alarms)
    unfolding open_alarm
    lookup-open_alarm j key v none alarms sent =
        Dict.lookup-insert j key (fresh_alarm fl at v) alarms
    lookup-open_alarm j key v (some a) alarms sent = ground (
      arith,
      Dict.lookup-insert j key (still_active fl v a) alarms,
      Dict.lookup-insert j key (reopened fl at v a) alarms,
    )

    abbrev opened_by : Option (Violation fl) → Option (Alarm fl) → Option (Alarm fl)
    opened_by none o = o
    opened_by (some v) o = some (started at v o)

    lookup-open_loop :
        (j : String) (current : Violations fl) (st : Alarms fl × List (Alarm fl))
        → NodupKeys current
        → Dict.lookup j (open_loop fl at current st).0
          ≡ opened_by (Dict.lookup j current) (Dict.lookup j st.0)
    unfolding open_loop Dict.lookup
    lookup-open_loop j [] st u = refl
    lookup-open_loop j ((key, v) ∷ current) (alarms, sent) (new, u) = ground (
      arith,
      new,
      lookup-open_loop j current (open_alarm fl at key v (Dict.lookup key alarms) (alarms, sent)) u,
      lookup-open_alarm j key v (Dict.lookup key alarms) alarms sent,
    )

  -- The dict of the violations has each key once.
  module _ (device_id : String) (snapshot : Snapshot fl.Float) where
    check_boundary-NodupKeys :
        (s : Section fl.Float) (f : Field fl.Float) (value : Value fl.Float) (x : fl.Float)
        (k : Kind) (b : Option fl.Float) (current : Violations fl)
        → NodupKeys current
        → NodupKeys (check_boundary fl device_id s f value x k b current)
    unfolding check_boundary
    check_boundary-NodupKeys s f value x k none current u = u
    check_boundary-NodupKeys s f value x k (some b) current u = ground (
      arith,
      Dict.insert-NodupKeys (alarm_key device_id s.key f.key k)
          (violation fl device_id s f k value b) current u,
    )

    check_number-NodupKeys :
        (s : Section fl.Float) (f : Field fl.Float) (value : Value fl.Float) (x : Option fl.Float)
        (current : Violations fl)
        → NodupKeys current
        → NodupKeys (check_number fl device_id s f value x current)
    unfolding check_number
    check_number-NodupKeys s f value none current u = u
    check_number-NodupKeys s f value (some x) current u =
        check_boundary-NodupKeys s f value x above_maximum f.alarm.maximum _
          (check_boundary-NodupKeys s f value x below_minimum f.alarm.minimum current u)

    check_field-NodupKeys :
        (s : Section fl.Float) (f : Field fl.Float) (current : Violations fl)
        → NodupKeys current
        → NodupKeys (check_field fl device_id snapshot s f current)
    unfolding check_field
    check_field-NodupKeys s f current u =
        let value = field_value fl snapshot s f in
        ground (arith, check_number-NodupKeys s f value (as_number fl value) current u)

    check_fields-NodupKeys :
        (s : Section fl.Float) (fields : List (Field fl.Float)) (current : Violations fl)
        → NodupKeys current
        → NodupKeys (check_fields fl device_id snapshot s fields current)
    unfolding check_fields
    check_fields-NodupKeys s [] current u = u
    check_fields-NodupKeys s (f ∷ fields) current u =
        check_fields-NodupKeys s fields _ (check_field-NodupKeys s f current u)

    pub check_sections-NodupKeys :
        (sections : List (Section fl.Float)) (current : Violations fl)
        → NodupKeys current
        → NodupKeys (check_sections fl device_id snapshot sections current)
    unfolding check_sections
    check_sections-NodupKeys [] current u = u
    check_sections-NodupKeys (s ∷ sections) current u =
        check_sections-NodupKeys sections _ (check_fields-NodupKeys s s.fields current u)

  module _ (device_id : String) (snapshot : Snapshot fl.Float) (at : String)
      (alarms : Alarms fl) where
    pub contains-ended_keys :
        (j : String) (current : Violations fl)
        → NodupKeys alarms
        → contains (ended_keys fl device_id current alarms) j
          ≡ elim (Dict.kept
              (λ key (a : Alarm fl).
                a.violation.device_id == device_id && not (Dict.has key current))
              j
              (Dict.lookup j alarms)) [ none ↦ false | some _ ↦ true ]
    contains-ended_keys j current u = Dict.contains-keys-keep _ j alarms u

    -- After an evaluation the alarm of a key follows from the limits that the snapshot passes and
    -- from the alarm before: a passed limit is latched, an alarm of the device whose limit is kept
    -- ends, and the alarms of other devices are untouched.
    pub lookup-evaluate :
        (j : String)
        → NodupKeys alarms
        → Dict.lookup j (evaluate fl device_id snapshot at alarms).alarms
          ≡ evaluated device_id snapshot at
              (Dict.lookup j (violations fl device_id snapshot))
              (Dict.lookup j alarms)
    unfolding evaluate
    lookup-evaluate j u =
        let current = violations fl device_id snapshot in
        let keys = ended_keys fl device_id current alarms in
        let cleared = clear_loop fl snapshot at keys (alarms, []) in
        ground (
          arith,
          lookup-open_loop snapshot at j current (cleared.0, [])
              (check_sections-NodupKeys device_id snapshot snapshot.sections [] tt),
          lookup-clear_loop snapshot at j keys (alarms, []),
          contains-ended_keys j current u,
        )
