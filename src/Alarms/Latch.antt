-- ===== src/Alarms/Latch.antt =====
-- Alarms stay until they are acknowledged and their condition has ended.
use amplifier_panel.Base.{
  ◌≡◌, refl, ◌∙◌, ◌≢◌, sym, true, false, String, Option, none, some, List, [], ◌∷◌, arith,
  Option-cases, inl, inr, ◌==◌, string_eq, if◌then◌else◌,
}
use amplifier_panel.Base.Dict
use amplifier_panel.Base.Dict.{Dict, NodupKeys}
use amplifier_panel.Device.{Floats, Snapshot}
use amplifier_panel.Alarms.{
  Violation, Violations, Alarm, Alarms, violations, evaluate, acknowledge, acknowledge_found,
  clear_alarm, clear_loop, open_alarm, open_loop, returned, fresh_alarm, still_active, reopened,
  ended_keys,
}
use amplifier_panel.Alarms.Lookup.{evaluated, lookup-evaluate}

module _ (fl : Floats) where
  -- Only alarms whose condition is active are kept after their acknowledgement.
  abbrev pub IsLatched : Alarms fl → Type 0
  IsLatched alarms =
      (j : String) (a : Alarm fl)
      → Dict.lookup j alarms ≡ some a
      → a.acknowledged ≡ true
      → a.condition_active ≡ true

  evaluated-latched :
      (device_id : String) (snapshot : Snapshot fl.Float) (at : String) (v : Option (Violation fl))
      (o : Option (Alarm fl)) (a : Alarm fl)
      → ((b : Alarm fl) → o ≡ some b → b.acknowledged ≡ true → b.condition_active ≡ true)
      → evaluated fl device_id snapshot at v o ≡ some a
      → a.acknowledged ≡ true
      → a.condition_active ≡ true
  evaluated-latched device_id snapshot at (some v) o a h e k = ground arith
  evaluated-latched device_id snapshot at none none a h e k = ground arith
  evaluated-latched device_id snapshot at none (some b) a h e k = ground (arith, h b refl)

  -- An evaluation of any snapshot keeps every alarm latched when each key is latched once: an
  -- acknowledged alarm is still active, whatever the snapshot holds.
  pub evaluate-IsLatched :
      (device_id : String) (snapshot : Snapshot fl.Float) (at : String) (alarms : Alarms fl)
      → NodupKeys alarms
      → IsLatched alarms
      → IsLatched (evaluate fl device_id snapshot at alarms).alarms
  evaluate-IsLatched device_id snapshot at alarms u h j a e =
      evaluated-latched device_id snapshot at (Dict.lookup j (violations fl device_id snapshot))
        (Dict.lookup j alarms) a (h j)
        (sym (lookup-evaluate fl device_id snapshot at alarms j u) ∙ e)

  -- So does an acknowledgement, of any key and for any device.
  pub acknowledge-IsLatched :
      (device_id key : String) (alarms : Alarms fl)
      → IsLatched alarms
      → IsLatched (acknowledge fl device_id key alarms).1
  unfolding acknowledge acknowledge_found
  acknowledge-IsLatched device_id key alarms h j a e k =
      elim (Option-cases (Dict.lookup key alarms)) [
        | inl missing ↦ ground (arith, h j a)
        | inr (b, found) ↦ ground (
          arith,
          h j a,
          Dict.lookup-insert j key (record b { acknowledged = true }) alarms,
          Dict.lookup-erase j key alarms,
        )
      ]

  -- An alarm that nobody has acknowledged is not lost by an evaluation, when each key is latched once.
  pub unacknowledged_stays :
      (device_id : String) (snapshot : Snapshot fl.Float) (at : String) (alarms : Alarms fl)
      (j : String) (a : Alarm fl)
      → NodupKeys alarms
      → Dict.lookup j alarms ≡ some a
      → a.acknowledged ≡ false
      → Dict.lookup j (evaluate fl device_id snapshot at alarms).alarms ≢ none
  unacknowledged_stays device_id snapshot at alarms j a u e k gone =
      stays (Dict.lookup j (violations fl device_id snapshot))
        (sym (lookup-evaluate fl device_id snapshot at alarms j u) ∙ gone)
    where
      stays :
          (v : Option (Violation fl))
          → evaluated fl device_id snapshot at v (Dict.lookup j alarms) ≡ none
          → ⊥
      stays none p = ground (arith, e, k)
      stays (some v) p = ground arith

  -- After an evaluation a latched alarm of the device is marked active exactly while the snapshot
  -- passes its limit, when each key was latched once before.
  pub condition_active-evaluate :
      (device_id : String) (snapshot : Snapshot fl.Float) (at : String) (alarms : Alarms fl)
      (j : String) (a : Alarm fl)
      → NodupKeys alarms
      → Dict.lookup j (evaluate fl device_id snapshot at alarms).alarms ≡ some a
      → a.violation.device_id ≡ device_id
      → a.condition_active ≡ Dict.has j (violations fl device_id snapshot)
  condition_active-evaluate device_id snapshot at alarms j a u e k =
      exact (Dict.lookup j (violations fl device_id snapshot)) (Dict.lookup j alarms)
        (sym (lookup-evaluate fl device_id snapshot at alarms j u) ∙ e)
    where
      exact :
          (v : Option (Violation fl)) (o : Option (Alarm fl))
          → evaluated fl device_id snapshot at v o ≡ some a
          → a.condition_active ≡ elim v [ none ↦ false | some _ ↦ true ]
      exact (some v) o p = ground arith
      exact none none p = ground arith
      exact none (some b) p = ground (arith, k)

  -- The alarms of other devices are left alone, unless the snapshot passes a limit of their key.
  pub other_device_untouched :
      (device_id : String) (snapshot : Snapshot fl.Float) (at : String) (alarms : Alarms fl)
      (j : String) (a : Alarm fl)
      → NodupKeys alarms
      → Dict.lookup j alarms ≡ some a
      → a.violation.device_id ≢ device_id
      → Dict.lookup j (violations fl device_id snapshot) ≡ none
      → Dict.lookup j (evaluate fl device_id snapshot at alarms).alarms ≡ some a
  other_device_untouched device_id snapshot at alarms j a u e other quiet =
      lookup-evaluate fl device_id snapshot at alarms j u ∙ ground (arith, e, other, quiet)

  -- Acknowledging one's own alarm removes it exactly if its condition has ended; else it is marked.
  pub lookup-acknowledge :
      (device_id key : String) (alarms : Alarms fl) (a : Alarm fl) (j : String)
      → Dict.lookup key alarms ≡ some a
      → a.violation.device_id ≡ device_id
      → Dict.lookup j (acknowledge fl device_id key alarms).1 ≡ (
          if j == key
          then (if a.condition_active then some (record a { acknowledged = true }) else none)
          else Dict.lookup j alarms)
  unfolding acknowledge acknowledge_found
  lookup-acknowledge device_id key alarms a j e k = ground (
    arith,
    e,
    k,
    Dict.lookup-insert j key (record a { acknowledged = true }) alarms,
    Dict.lookup-erase j key alarms,
  )

  -- A dict stays a dict: the loops keep each key once.
  clear_alarm-NodupKeys :
      (snapshot : Snapshot fl.Float) (at key : String) (o : Option (Alarm fl))
      (st : Alarms fl × List (Alarm fl))
      → NodupKeys st.0
      → NodupKeys (clear_alarm fl snapshot at key o st).0
  unfolding clear_alarm
  clear_alarm-NodupKeys snapshot at key none (alarms, sent) u = u
  clear_alarm-NodupKeys snapshot at key (some a) (alarms, sent) u = ground (
    arith,
    Dict.erase-NodupKeys key alarms u,
    Dict.insert-NodupKeys key (returned fl snapshot at a) alarms u,
  )

  clear_loop-NodupKeys :
      (snapshot : Snapshot fl.Float) (at : String) (keys : List String)
      (st : Alarms fl × List (Alarm fl))
      → NodupKeys st.0
      → NodupKeys (clear_loop fl snapshot at keys st).0
  unfolding clear_loop
  clear_loop-NodupKeys snapshot at [] st u = u
  clear_loop-NodupKeys snapshot at (key ∷ keys) st u =
      clear_loop-NodupKeys snapshot at keys _ (clear_alarm-NodupKeys snapshot at key _ st u)

  open_alarm-NodupKeys :
      (at key : String) (v : Violation fl) (o : Option (Alarm fl))
      (st : Alarms fl × List (Alarm fl))
      → NodupKeys st.0
      → NodupKeys (open_alarm fl at key v o st).0
  unfolding open_alarm
  open_alarm-NodupKeys at key v none (alarms, sent) u =
      Dict.insert-NodupKeys key (fresh_alarm fl at v) alarms u
  open_alarm-NodupKeys at key v (some a) (alarms, sent) u = ground (
    arith,
    Dict.insert-NodupKeys key (still_active fl v a) alarms u,
    Dict.insert-NodupKeys key (reopened fl at v a) alarms u,
  )

  open_loop-NodupKeys :
      (at : String) (current : Violations fl) (st : Alarms fl × List (Alarm fl))
      → NodupKeys st.0
      → NodupKeys (open_loop fl at current st).0
  unfolding open_loop
  open_loop-NodupKeys at [] st u = u
  open_loop-NodupKeys at ((key, v) ∷ current) st u =
      open_loop-NodupKeys at current _ (open_alarm-NodupKeys at key v _ st u)

  pub evaluate-NodupKeys :
      (device_id : String) (snapshot : Snapshot fl.Float) (at : String) (alarms : Alarms fl)
      → NodupKeys alarms
      → NodupKeys (evaluate fl device_id snapshot at alarms).alarms
  unfolding evaluate
  evaluate-NodupKeys device_id snapshot at alarms u =
      open_loop-NodupKeys at (violations fl device_id snapshot) (_, [])
        (clear_loop-NodupKeys snapshot at
          (ended_keys fl device_id (violations fl device_id snapshot) alarms) (alarms, []) u)
