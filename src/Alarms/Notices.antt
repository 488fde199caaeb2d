-- ===== src/Alarms/Notices.antt =====
-- Each opening and each end of a condition is announced once.
use amplifier_panel.Base.{
  ◌≡◌, refl, ◌∙◌, sym, Bool, true, false, String, Option, none, some, List, [], ◌∷◌, arith,
  contains, All, eq_refl, string_eq,
}
use amplifier_panel.Base.Dict
use amplifier_panel.Base.Dict.{Dict, NodupKeys}
use amplifier_panel.Device.{Floats, Snapshot}
use amplifier_panel.Alarms.{
  Violation, Violations, Alarm, Alarms, violations, evaluate, clear_alarm, clear_loop, open_alarm,
  open_loop, still_active, ended_keys,
}
use amplifier_panel.Alarms.Lookup.{lookup-evaluate, contains-ended_keys}
use amplifier_panel.Alarms.Latch.{evaluate-NodupKeys, condition_active-evaluate}

All-of_contains :
    (P : String → Type 0) (xs : List String)
    → ((x : String) → contains xs x ≡ true → P x)
    → All P xs
All-of_contains P [] h = tt
All-of_contains P (x ∷ xs) h =
    (h x (ground (arith, eq_refl x)), All-of_contains P xs (λ y m. h y (ground (arith, m))))

module _ (fl : Floats) where
  abbrev is_active : Option (Alarm fl) → Bool
  is_active none = false
  is_active (some a) = a.condition_active

  module _ (snapshot : Snapshot fl.Float) (at : String) where
    clear_alarm_quiet :
        (key : String) (o : Option (Alarm fl)) (st : Alarms fl × List (Alarm fl))
        → is_active o ≡ false
        → clear_alarm fl snapshot at key o st ≡ st
    unfolding clear_alarm
    clear_alarm_quiet key none (alarms, sent) h = refl
    clear_alarm_quiet key (some a) (alarms, sent) h = ground (arith, h)

    clear_loop_quiet :
        (keys : List String) (st : Alarms fl × List (Alarm fl))
        → All (λ key. is_active (Dict.lookup key st.0) ≡ false) keys
        → clear_loop fl snapshot at keys st ≡ st
    unfolding clear_loop
    clear_loop_quiet [] st h = refl
    clear_loop_quiet (key ∷ keys) st h =
        rw (clear_alarm_quiet key (Dict.lookup key st.0) st h.0) (clear_loop_quiet keys st h.1)

  module _ (at : String) where
    is_active-insert :
        (key j : String) (a : Alarm fl) (alarms : Alarms fl)
        → a.condition_active ≡ true
        → is_active (Dict.lookup j alarms) ≡ true
        → is_active (Dict.lookup j (Dict.insert key a alarms)) ≡ true
    is_active-insert key j a alarms h k = ground (arith, h, k, Dict.lookup-insert j key a alarms)

    All-stay_active :
        (keys : List String) (key : String) (a : Alarm fl) (alarms : Alarms fl)
        → a.condition_active ≡ true
        → All (λ j. is_active (Dict.lookup j alarms) ≡ true) keys
        → All (λ j. is_active (Dict.lookup j (Dict.insert key a alarms)) ≡ true) keys
    All-stay_active [] key a alarms h k = tt
    All-stay_active (j ∷ keys) key a alarms h k =
        (is_active-insert key j a alarms h k.0, All-stay_active keys key a alarms h k.1)

    open_alarm_quiet :
        (key : String) (v : Violation fl) (o : Option (Alarm fl)) (alarms : Alarms fl)
        (sent : List (Alarm fl)) (keys : List String)
        → is_active o ≡ true
        → All (λ j. is_active (Dict.lookup j alarms) ≡ true) keys
        → ((open_alarm fl at key v o (alarms, sent)).1 ≡ sent)
          × All
              (λ j. is_active (Dict.lookup j (open_alarm fl at key v o (alarms, sent)).0) ≡ true)
              keys
    unfolding open_alarm
    open_alarm_quiet key v none alarms sent keys h k = absurd (ground arith)
    open_alarm_quiet key v (some a) alarms sent keys h k =
        rw h (refl, All-stay_active keys key (still_active fl v a) alarms refl k)

    open_loop_quiet :
        (current : Violations fl) (alarms : Alarms fl) (sent : List (Alarm fl))
        → All (λ j. is_active (Dict.lookup j alarms) ≡ true) (Dict.keys current)
        → (open_loop fl at current (alarms, sent)).1 ≡ sent
    unfolding open_loop
    open_loop_quiet [] alarms sent h = refl
    open_loop_quiet ((key, v) ∷ current) alarms sent h =
        let step =
          open_alarm_quiet key v (Dict.lookup key alarms) alarms sent (Dict.keys current) h.0 h.1 in
        open_loop_quiet current _ _ step.1 ∙ step.0

  -- Where the ended alarms are inactive and the passed limits are active, nothing is announced.
  evaluate_quiet :
      (device_id : String) (snapshot : Snapshot fl.Float) (at : String) (b : Alarms fl)
      → All
          (λ j. is_active (Dict.lookup j b) ≡ false)
          (ended_keys fl device_id (violations fl device_id snapshot) b)
      → All (λ j. is_active (Dict.lookup j b) ≡ true) (Dict.keys (violations fl device_id snapshot))
      → ((evaluate fl device_id snapshot at b).opened_list ≡ [])
        × ((evaluate fl device_id snapshot at b).cleared_list ≡ [])
  unfolding evaluate
  evaluate_quiet device_id snapshot at b ended_quiet passed_active =
      let current = violations fl device_id snapshot in
      rw (clear_loop_quiet snapshot at (ended_keys fl device_id current b) (b, []) ended_quiet)
        (open_loop_quiet at current b [] passed_active, refl)

  module _ (device_id : String) (snapshot : Snapshot fl.Float) (alarms : Alarms fl) (at : String)
      (u : NodupKeys alarms) where
    abbrev first : Alarms fl
    first = (evaluate fl device_id snapshot at alarms).alarms

    is_active-first :
        (j : String)
        → Dict.has j (violations fl device_id snapshot) ≡ true
        → is_active (Dict.lookup j first) ≡ true
    is_active-first j h =
        rw (lookup-evaluate fl device_id snapshot at alarms j u) (ground (arith, h))

    quiet_when_ended :
        (j : String)
        → contains (ended_keys fl device_id (violations fl device_id snapshot) first) j ≡ true
        → is_active (Dict.lookup j first) ≡ false
    quiet_when_ended j m = quiet (Dict.lookup j first) refl
      where
        v : NodupKeys first
        v = evaluate-NodupKeys fl device_id snapshot at alarms u

        quiet : (o : Option (Alarm fl)) → Dict.lookup j first ≡ o → is_active o ≡ false
        quiet none e = refl
        quiet (some a) e = ground (
          arith,
          e,
          contains-ended_keys fl device_id snapshot at first j (violations fl device_id snapshot) v,
          condition_active-evaluate fl device_id snapshot at alarms j a u e,
        )

    -- A second evaluation of the same snapshot announces nothing, when each key was latched once
    -- before the first: no alarm is opened again, and none is cleared again.
    pub evaluate_twice :
        (later : String)
        → ((evaluate fl device_id snapshot later first).opened_list ≡ [])
          × ((evaluate fl device_id snapshot later first).cleared_list ≡ [])
    evaluate_twice later =
        evaluate_quiet device_id snapshot later first
          (All-of_contains (λ j. is_active (Dict.lookup j first) ≡ false) _ quiet_when_ended)
          (All-of_contains (λ j. is_active (Dict.lookup j first) ≡ true) _
            (λ j m.
              is_active-first j
                (sym (Dict.contains-keys j (violations fl device_id snapshot)) ∙ m)))
