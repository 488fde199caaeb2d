-- ===== src/Examples/Alarms.antt =====
-- Runs of the alarms.
use amplifier_panel.Base.{ℕ, ◌≡◌, ◌≢◌, refl, true, false, none, some, [], ◌∷◌, arith, string_eq}
use amplifier_panel.Base.Dict
use amplifier_panel.Base.Dict.{Dict, NodupKeys}
use amplifier_panel.Base.Int.{pos}
use amplifier_panel.Base.Text.{◌<>◌}
use amplifier_panel.Device.{number, numeric, Field, Section, Profile, Snapshot}
use amplifier_panel.Examples.Numbers.{numbers}
use amplifier_panel.Alarms.{
  above_maximum, alarm_key, Violation, Alarm, Alarms, violations, evaluate, check_sections,
  check_fields, check_field, check_number, check_boundary, violation, clear_loop, clear_alarm,
  open_loop, open_alarm, opened, observed, observed_in,
}
use amplifier_panel.Alarms.Limits.{violations_complete}
use amplifier_panel.Alarms.Sound.{IsPassed, violations_sound}
use amplifier_panel.Alarms.Latch.{
  IsLatched, evaluate-IsLatched, unacknowledged_stays, condition_active-evaluate,
}
use amplifier_panel.Alarms.Notices.{evaluate_twice}

abbrev temperature : Field ℕ
temperature = record {
  key = "t";
  id = "";
  name = "Temp";
  label = "Temp";
  unit = "C";
  group = "";
  role = "";
  field_type = number;
  writable = false;
  automatic = false;
  alarm = record { enabled = true; minimum = some 5; maximum = some 60 };
  minimum = none;
  maximum = none;
}

abbrev panel : Section ℕ
panel = record { key = "oba"; label = "OBA"; fields = temperature ∷ [] }

abbrev profile : Profile
profile = record {
  id = "oba";
  label = "OBA";
  view_profile = "amplifier";
  display_group = "";
  order = pos 1;
  snmp_index = none;
}

abbrev reading : ℕ → Snapshot ℕ
reading t = record {
  values = ("oba", ("t", numeric t) ∷ []) ∷ [];
  sections = panel ∷ [];
  module_info = [];
  label = "OBA";
  issues = [];
  profile = profile;
}

abbrev hot : Alarms numbers
hot = (evaluate numbers "oba" (reading 70) "10:00" []).alarms

abbrev too_hot : Violation numbers
too_hot = violation numbers "oba" panel temperature above_maximum (numeric 70) 60

abbrev hot_alarm : Alarm numbers
hot_alarm = record {
  violation = too_hot;
  event = opened;
  event_time = "10:00";
  opened_at = "10:00";
  returned_to_normal_at = none;
  condition_active = true;
  acknowledged = false;
}

violations_sound_example : IsPassed numbers "oba" (reading 70) "oba:oba:t:maximum" too_hot
unfolding check_sections check_fields check_field check_number check_boundary violation Dict.insert
    Dict.lookup string_eq alarm_key ◌<>◌
violations_sound_example =
    violations_sound numbers "oba" (reading 70) "oba:oba:t:maximum" too_hot refl

violations_complete_example :
    Dict.has (alarm_key "oba" "oba" "t" above_maximum) (violations numbers "oba" (reading 70))
    ≡ true
unfolding Dict.lookup string_eq
violations_complete_example =
    violations_complete numbers "oba" (reading 70) panel temperature above_maximum [] [] [] [] refl
      refl
      (record {
        number = 70;
        boundary = 60;
        enabled = refl;
        reads = refl;
        limited = refl;
        passes = refl;
      })

abbrev latched : Alarms numbers
latched = ("oba:oba:t:maximum", hot_alarm) ∷ []

evaluate_twice_example :
    ((evaluate numbers "oba"
        (reading 40)
        "10:02"
        (evaluate numbers "oba" (reading 40) "10:01" latched).alarms).opened_list
      ≡ [])
    × ((evaluate numbers "oba"
          (reading 40)
          "10:02"
          (evaluate numbers "oba" (reading 40) "10:01" latched).alarms).cleared_list
        ≡ [])
unfolding Dict.lookup
evaluate_twice_example =
    evaluate_twice numbers "oba" (reading 40) latched "10:01" (refl, tt) "10:02"

unacknowledged_stays_example :
    Dict.lookup "oba:oba:t:maximum" (evaluate numbers "oba" (reading 40) "10:01" latched).alarms
    ≢ none
unfolding Dict.lookup string_eq
unacknowledged_stays_example =
    unacknowledged_stays numbers "oba" (reading 40) "10:01" latched "oba:oba:t:maximum" hot_alarm
      (refl, tt) refl refl

latched-IsLatched : IsLatched numbers latched
unfolding Dict.lookup
latched-IsLatched j a w k = ground (arith, w, k)

evaluate-IsLatched_example :
    IsLatched numbers (evaluate numbers "oba" (reading 40) "10:01" latched).alarms
unfolding Dict.lookup
evaluate-IsLatched_example =
    evaluate-IsLatched numbers "oba" (reading 40) "10:01" latched (refl, tt) latched-IsLatched

-- The same alarm, after an evaluation of a reading that is below the limit again.
abbrev returned_alarm : Alarm numbers
returned_alarm = record {
  violation = violation numbers "oba" panel temperature above_maximum (numeric 40) 60;
  event = opened;
  event_time = "10:00";
  opened_at = "10:00";
  returned_to_normal_at = some "10:01";
  condition_active = false;
  acknowledged = false;
}

condition_active-evaluate_example :
    false ≡ Dict.has "oba:oba:t:maximum" (violations numbers "oba" (reading 40))
unfolding evaluate clear_loop clear_alarm open_loop open_alarm observed observed_in check_sections
    check_fields check_field check_number check_boundary violation Dict.lookup Dict.insert
    Dict.erase Dict.keep string_eq alarm_key ◌<>◌
condition_active-evaluate_example =
    condition_active-evaluate numbers "oba" (reading 40) "10:01" latched "oba:oba:t:maximum"
      returned_alarm (refl, tt) refl refl
