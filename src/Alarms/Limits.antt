-- ===== src/Alarms/Limits.antt =====
-- The limits that the loops of `evaluate` over the sections, fields and boundaries find.
use amplifier_panel.Base.{
  ◌≡◌, sym, subst, true, String, Option, none, some, List, [], ◌∷◌, ◌++◌, arith, string_eq, eq_refl,
}
use amplifier_panel.Base.Dict
use amplifier_panel.Device.{Floats, Field, Section, Snapshot, Value}
use amplifier_panel.Alarms.{
  Violation, Violations, Kind, below_minimum, above_maximum, violates, as_number, field_value,
  alarm_key, violation, check_boundary, check_number, check_field, check_fields, check_sections,
  violations,
}

module _ (fl : Floats) (device_id : String) where
  module _ (snapshot : Snapshot fl.Float) where
    abbrev pub limit : Kind → Field fl.Float → Option fl.Float
    limit below_minimum f = f.alarm.minimum
    limit above_maximum f = f.alarm.maximum

    -- A field whose alarm is on and whose number passes the limit of a kind.
    pub record PassesLimit (s : Section fl.Float) (f : Field fl.Float) (k : Kind) : Type 0 where
      pub number : fl.Float
      pub boundary : fl.Float
      pub enabled : f.alarm.enabled ≡ true
      pub reads : as_number fl (field_value fl snapshot s f) ≡ some number
      pub limited : limit k f ≡ some boundary
      pub passes : violates fl k number boundary ≡ true

    has-insert :
        (j key : String) (v : Violation fl) (current : Violations fl)
        → Dict.has j current ≡ true
        → Dict.has j (Dict.insert key v current) ≡ true
    has-insert j key v current h = ground (arith, h, Dict.lookup-insert j key v current)

    has-check_boundary :
        (j : String) (s : Section fl.Float) (f : Field fl.Float) (value : Value fl.Float)
        (x : fl.Float) (k : Kind) (b : Option fl.Float) (current : Violations fl)
        → Dict.has j current ≡ true
        → Dict.has j (check_boundary fl device_id s f value x k b current) ≡ true
    unfolding check_boundary
    has-check_boundary j s f value x k none current h = h
    has-check_boundary j s f value x k (some b) current h = ground (
      arith,
      h,
      has-insert j (alarm_key device_id s.key f.key k) (violation fl device_id s f k value b)
          current,
    )

    has-check_number :
        (j : String) (s : Section fl.Float) (f : Field fl.Float) (value : Value fl.Float)
        (n : Option fl.Float) (current : Violations fl)
        → Dict.has j current ≡ true
        → Dict.has j (check_number fl device_id s f value n current) ≡ true
    unfolding check_number
    has-check_number j s f value none current h = h
    has-check_number j s f value (some x) current h =
        has-check_boundary j s f value x above_maximum f.alarm.maximum _
          (has-check_boundary j s f value x below_minimum f.alarm.minimum current h)

    has-check_field :
        (j : String) (s : Section fl.Float) (f : Field fl.Float) (current : Violations fl)
        → Dict.has j current ≡ true
        → Dict.has j (check_field fl device_id snapshot s f current) ≡ true
    unfolding check_field
    has-check_field j s f current h =
        let value = field_value fl snapshot s f in
        ground (arith, h, has-check_number j s f value (as_number fl value) current h)

    has-check_fields :
        (j : String) (s : Section fl.Float) (fields : List (Field fl.Float))
        (current : Violations fl)
        → Dict.has j current ≡ true
        → Dict.has j (check_fields fl device_id snapshot s fields current) ≡ true
    unfolding check_fields
    has-check_fields j s [] current h = h
    has-check_fields j s (f ∷ fields) current h =
        has-check_fields j s fields _ (has-check_field j s f current h)

    has-check_sections :
        (j : String) (sections : List (Section fl.Float)) (current : Violations fl)
        → Dict.has j current ≡ true
        → Dict.has j (check_sections fl device_id snapshot sections current) ≡ true
    unfolding check_sections
    has-check_sections j [] current h = h
    has-check_sections j (s ∷ sections) current h =
        has-check_sections j sections _ (has-check_fields j s s.fields current h)

    has-own_boundary :
        (s : Section fl.Float) (f : Field fl.Float) (value : Value fl.Float) (x b : fl.Float)
        (k : Kind) (current : Violations fl)
        → violates fl k x b ≡ true
        → Dict.has
            (alarm_key device_id s.key f.key k)
            (check_boundary fl device_id s f value x k (some b) current)
          ≡ true
    unfolding check_boundary
    has-own_boundary s f value x b k current p =
        let key = alarm_key device_id s.key f.key k in
        ground (
          arith,
          p,
          eq_refl key,
          Dict.lookup-insert key key (violation fl device_id s f k value b) current,
        )

    has-own_number :
        (s : Section fl.Float) (f : Field fl.Float) (k : Kind) (value : Value fl.Float)
        (x b : fl.Float) (current : Violations fl)
        → limit k f ≡ some b
        → violates fl k x b ≡ true
        → Dict.has
            (alarm_key device_id s.key f.key k)
            (check_number fl device_id s f value (some x) current)
          ≡ true
    unfolding check_number
    has-own_number s f above_maximum value x b current l p =
        simp l (has-own_boundary s f value x b above_maximum _ p)
    has-own_number s f below_minimum value x b current l p =
        has-check_boundary _ s f value x above_maximum f.alarm.maximum _
          (simp l (has-own_boundary s f value x b below_minimum current p))

    has-own_field :
        (s : Section fl.Float) (f : Field fl.Float) (k : Kind) (current : Violations fl)
        → PassesLimit s f k
        → Dict.has
            (alarm_key device_id s.key f.key k)
            (check_field fl device_id snapshot s f current)
          ≡ true
    unfolding check_field
    has-own_field s f k current p = ground (
      arith,
      p.enabled,
      p.reads,
      has-own_number s f k (field_value fl snapshot s f) p.number p.boundary current p.limited
          p.passes,
    )

    has-own_fields :
        (s : Section fl.Float) (before : List (Field fl.Float)) (f : Field fl.Float)
        (after : List (Field fl.Float)) (k : Kind) (current : Violations fl)
        → PassesLimit s f k
        → Dict.has
            (alarm_key device_id s.key f.key k)
            (check_fields fl device_id snapshot s (before ++ f ∷ after) current)
          ≡ true
    unfolding check_fields
    has-own_fields s [] f after k current p =
        has-check_fields _ s after _ (has-own_field s f k current p)
    has-own_fields s (g ∷ before) f after k current p = has-own_fields s before f after k _ p

    has-own_sections :
        (s : Section fl.Float) (f : Field fl.Float) (k : Kind)
        (before after : List (Section fl.Float))
        (fields_before fields_after : List (Field fl.Float)) (current : Violations fl)
        → s.fields ≡ fields_before ++ f ∷ fields_after
        → PassesLimit s f k
        → Dict.has
            (alarm_key device_id s.key f.key k)
            (check_sections fl device_id snapshot (before ++ s ∷ after) current)
          ≡ true
    unfolding check_sections
    has-own_sections s f k [] after fields_before fields_after current g p =
        has-check_sections _ after _ (
          subst
            (λ l.
              Dict.has (alarm_key device_id s.key f.key k)
                (check_fields fl device_id snapshot s l current)
              ≡ true)
            (sym g) (has-own_fields s fields_before f fields_after k current p))
    has-own_sections s f k (t ∷ before) after fields_before fields_after current g p =
        has-own_sections s f k before after fields_before fields_after _ g p

    -- Every limit that a snapshot passes is among its violations under the key of its section, field and
    -- kind, whichever section and field of the snapshot it is of.
    pub violations_complete :
        (s : Section fl.Float) (f : Field fl.Float) (k : Kind)
        (sections_before sections_after : List (Section fl.Float))
        (fields_before fields_after : List (Field fl.Float))
        → snapshot.sections ≡ sections_before ++ s ∷ sections_after
        → s.fields ≡ fields_before ++ f ∷ fields_after
        → PassesLimit s f k
        → Dict.has (alarm_key device_id s.key f.key k) (violations fl device_id snapshot) ≡ true
    violations_complete s f k sections_before sections_after fields_before fields_after e g p =
        subst
          (λ l.
            Dict.has (alarm_key device_id s.key f.key k) (check_sections fl device_id snapshot l [])
            ≡ true)
          (sym e)
          (has-own_sections s f k sections_before sections_after fields_before fields_after [] g p)
