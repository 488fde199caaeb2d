-- ===== src/Alarms/Sound.antt =====
-- What the dict `current` of `evaluate` holds: only limits that the snapshot passes.
use amplifier_panel.Base.{
  ◌≡◌, refl, sym, subst, true, String, Option, none, some, List, [], ◌∷◌, arith, IsIn, Bool-cases,
  inl, inr, string_eq, if_elim,
}
use amplifier_panel.Base.Dict
use amplifier_panel.Device.{Floats, Field, Section, Snapshot}
use amplifier_panel.Alarms.{
  Violation, Violations, Kind, below_minimum, above_maximum, violates, as_number, field_value,
  alarm_key, violation, check_boundary, check_number, check_field, check_fields, check_sections,
  violations,
}
use amplifier_panel.Alarms.Limits.{limit, PassesLimit}

module _ (fl : Floats) (device_id : String) (snapshot : Snapshot fl.Float) where
  open fl use {Float}

  -- A limit of a field of a section of the snapshot that is passed, with what is known of it.
  pub record IsPassed (key : String) (v : Violation fl) : Type 0 where
    pub section : Section Float
    pub field : Field Float
    pub kind : Kind
    pub in_snapshot : IsIn section snapshot.sections
    pub in_section : IsIn field section.fields
    pub passed : PassesLimit fl device_id snapshot section field kind
    pub keyed : key ≡ alarm_key device_id section.key field.key kind
    pub told :
        v
        ≡ violation fl device_id section field kind
            (field_value fl snapshot section field)
            passed.boundary

  abbrev Sound : Violations fl → Type 0
  Sound current = (j : String) (v : Violation fl) → Dict.lookup j current ≡ some v → IsPassed j v

  nothing-Sound : Sound []
  unfolding Dict.lookup
  nothing-Sound j v e = absurd (ground arith)

  insert-Sound :
      (key : String) (v : Violation fl) (current : Violations fl)
      → IsPassed key v
      → Sound current
      → Sound (Dict.insert key v current)
  insert-Sound key v current p h j w e = elim (string_eq.dec j key) [
    | yes same ↦
        let is_v : v ≡ w = ground (arith, Dict.lookup-insert j key v current, e, same) in
        subst (λ x. IsPassed x w) (sym same) (subst (λ x. IsPassed key x) is_v p)
    | no other ↦ h j w (ground (arith, Dict.lookup-insert j key v current, e, other))
  ]

  -- A field of the snapshot whose alarm is on.
  module _ (s : Section Float) (f : Field Float) (listed : IsIn s snapshot.sections)
      (member : IsIn f s.fields) (enabled : f.alarm.enabled ≡ true) where
    check_boundary-Sound :
        (x : Float) (k : Kind) (b : Option Float) (current : Violations fl)
        → as_number fl (field_value fl snapshot s f) ≡ some x
        → limit fl device_id snapshot k f ≡ b
        → Sound current
        → Sound (check_boundary fl device_id s f (field_value fl snapshot s f) x k b current)
    unfolding check_boundary
    check_boundary-Sound x k none current r l h = h
    check_boundary-Sound x k (some b) current r l h = elim (Bool-cases (violates fl k x b)) [
      | inr quiet ↦ rw quiet h
      | inl passed ↦ rw passed (
          insert-Sound (alarm_key device_id s.key f.key k)
            (violation fl device_id s f k (field_value fl snapshot s f) b) current
            (record {
              section = s;
              field = f;
              kind = k;
              in_snapshot = listed;
              in_section = member;
              passed = record {
                number = x;
                boundary = b;
                enabled = enabled;
                reads = r;
                limited = l;
                passes = passed;
              };
              keyed = refl;
              told = refl;
            })
            h)
    ]

    check_number-Sound :
        (n : Option Float) (current : Violations fl)
        → as_number fl (field_value fl snapshot s f) ≡ n
        → Sound current
        → Sound (check_number fl device_id s f (field_value fl snapshot s f) n current)
    unfolding check_number
    check_number-Sound none current r h = h
    check_number-Sound (some x) current r h =
        check_boundary-Sound x above_maximum f.alarm.maximum _ r refl
          (check_boundary-Sound x below_minimum f.alarm.minimum current r refl h)

  check_field-Sound :
      (s : Section Float) (f : Field Float) (current : Violations fl)
      → IsIn s snapshot.sections
      → IsIn f s.fields
      → Sound current
      → Sound (check_field fl device_id snapshot s f current)
  unfolding check_field
  check_field-Sound s f current i m h =
      if_elim Sound f.alarm.enabled (λ enabled. check_number-Sound s f i m enabled _ current refl h)
        (λ _. h)

  check_fields-Sound :
      (s : Section Float) (fields : List (Field Float)) (current : Violations fl)
      → IsIn s snapshot.sections
      → ((f : Field Float) → IsIn f fields → IsIn f s.fields)
      → Sound current
      → Sound (check_fields fl device_id snapshot s fields current)
  unfolding check_fields
  check_fields-Sound s [] current i sub h = h
  check_fields-Sound s (f ∷ fields) current i sub h =
      check_fields-Sound s fields _ i (λ g m. sub g (inr m))
        (check_field-Sound s f current i (sub f (inl refl)) h)

  check_sections-Sound :
      (sections : List (Section Float)) (current : Violations fl)
      → ((s : Section Float) → IsIn s sections → IsIn s snapshot.sections)
      → Sound current
      → Sound (check_sections fl device_id snapshot sections current)
  unfolding check_sections
  check_sections-Sound [] current sub h = h
  check_sections-Sound (s ∷ sections) current sub h =
      check_sections-Sound sections _ (λ t m. sub t (inr m))
        (check_fields-Sound s s.fields current (sub s (inl refl)) (λ f m. m) h)

  -- Every violation of a snapshot is of some section of the snapshot, field of that section and kind: the
  -- alarm of the field is on, the snapshot's value of the field is a number, and the number is on
  -- the wrong side of the limit that the field has for the kind. It stands under the key of the
  -- device, section, field and kind, and tells just them, that value and that limit.
  pub violations_sound :
      (j : String) (v : Violation fl)
      → Dict.lookup j (violations fl device_id snapshot) ≡ some v
      → IsPassed j v
  violations_sound = check_sections-Sound snapshot.sections [] (λ s m. m) nothing-Sound
