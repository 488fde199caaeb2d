-- ===== src/Runtime/Raises.antt =====
-- When `poll_once` of app/services/xml_status.py ends with no exception, and what the loop does when it
-- does not.
use amplifier_panel.Base.{
  ◌≡◌, refl, subst, ◌∙◌, ℕ, ◌≤◌, true, String, Option, none, some, List, [], ◌∷◌, string_eq, arith,
  Option-cases, inl, inr,
}
use amplifier_panel.Base.Dict
use amplifier_panel.Base.Dict.{Dict, NodupKeys}
use amplifier_panel.Base.Result
use amplifier_panel.Base.Result.{Result, ok, err, is_ok}
use amplifier_panel.Device.{Floats, Snapshot}
use amplifier_panel.Inventory.{
  Live, is_active_device, snapshot_device_live, update_device_live, Update,
}
use amplifier_panel.Statistics.{Shown}
use amplifier_panel.Status.Parse.{Results}
use amplifier_panel.Runtime.{
  Panel, World, publish_snapshot, publish_checked, publish_observed, set_inventory, observed_update,
}
use amplifier_panel.Inventory.Devices.{lookup-set_device_inventory, active-set_device_inventory}
use amplifier_panel.Runtime.Document.{OwnProfiles, contains-profiles_of, read_results-IsOwn}
use amplifier_panel.Runtime.Polled.{observed_live}
use amplifier_panel.Runtime.Poll.{
  Reading, read_results, poll_once, poll_device, poll_devices, refresh_device, evaluate_device,
  with_issues, start_poll, report_issues, profiles_of,
}

module _ (fl : Floats) (sh : Shown fl.Float) (w : World fl sh) where
  open fl use {Float}

  -- The snapshot is finite, and its JSON has at most a million characters.
  abbrev pub Fits : Option ℕ → Type 0
  Fits none = ⊥
  Fits (some n) = n ≤ 1000000

  -- The device is defined and has a live entry.
  abbrev Present : String → Panel fl sh → Type 0
  Present k s =
      (Dict.has k s.inventory.device_definitions ≡ true)
      × (Dict.has k s.inventory.device_live ≡ true)

  has_entry :
      (k : String) (d : Dict String (Live fl))
      → Dict.has k d ≡ true
      → (l : Live fl) × (Dict.lookup k d ≡ some l)
  has_entry k d h = elim (Option-cases (Dict.lookup k d)) [
    | inl e ↦ absurd (ground (arith, e, h))
    | inr found ↦ found
  ]

  publish_total :
      (k : String) (snapshot : Snapshot Float) (t : ℕ) (at : String) (s : Panel fl sh)
      → Fits (w.json_length snapshot)
      → Present k s
      → is_ok (publish_snapshot fl sh w k snapshot (some (t, at)) s).0 ≡ true
  unfolding publish_snapshot publish_checked publish_observed is_active_device snapshot_device_live
  publish_total k snapshot t at s f (active, entry) =
      let (live, e) = has_entry k s.inventory.device_live entry in
      elim (Option-cases (w.json_length snapshot)) [
        | inl o ↦ absurd (subst Fits o f)
        | inr (n, o) ↦
            let small : n ≤ 1000000 = subst Fits o f in ground (arith, active, e, o, small)
      ]

  has-insert :
      (j k : String) (v : Live fl) (d : Dict String (Live fl))
      → Dict.has j d ≡ true
      → Dict.has j (Dict.insert k v d) ≡ true
  has-insert j k v d h = ground (arith, h, Dict.lookup-insert j k v d)

  update-Present :
      (j k : String) (u : Update fl) (s : Panel fl sh)
      → Present j s
      → Present j (set_inventory fl sh (update_device_live fl k u s.inventory) s)
  unfolding update_device_live
  update-Present j k u s (d, l) = (d, has-insert j k _ s.inventory.device_live l)

  publish-Present :
      (j k : String) (snapshot : Snapshot Float) (t : ℕ) (at : String) (s : Panel fl sh)
      → Present j s
      → Present j (publish_snapshot fl sh w k snapshot (some (t, at)) s).1
  unfolding publish_snapshot publish_checked publish_observed is_active_device snapshot_device_live
      update_device_live
  publish-Present j k snapshot t at s (d, l) =
      ground (arith, d, l, has-insert j k (observed_live fl sh at snapshot) s.inventory.device_live)

  refresh_total :
      (t : ℕ) (at k : String) (snapshot : Snapshot Float) (previous : Live fl) (s : Panel fl sh)
      → Fits (w.json_length snapshot)
      → Present k s
      → is_ok (refresh_device fl sh w t at k snapshot previous s).0 ≡ true
  unfolding refresh_device
  refresh_total t at k snapshot previous s f p = ground (arith, publish_total k snapshot t at s f p)

  refresh-Present :
      (j : String) (t : ℕ) (at k : String) (snapshot : Snapshot Float) (previous : Live fl)
      (s : Panel fl sh)
      → Present j s
      → Present j (refresh_device fl sh w t at k snapshot previous s).1
  unfolding refresh_device
  refresh-Present j t at k snapshot previous s p = ground (
    arith,
    publish-Present j k snapshot t at s p,
    update-Present j k (observed_update fl sh at snapshot) s p,
  )

  issues-Present :
      (j k : String) (issues : List String) (s : Panel fl sh)
      → Present j s
      → Present j (report_issues fl sh k issues s)
  issues-Present j k [] s p = p
  issues-Present j k (i ∷ issues) s p = update-Present j k _ s p

  with_issues-Present :
      (j k : String) (snapshot : Snapshot Float) (r : Result String (Unit {0}) × Panel fl sh)
      → Present j r.1
      → Present j (with_issues fl sh k snapshot r).1
  with_issues-Present j k snapshot (ok _, s) p = issues-Present j k snapshot.issues s p
  with_issues-Present j k snapshot (err e, s) p = p

  with_issues_total :
      (k : String) (snapshot : Snapshot Float) (r : Result String (Unit {0}) × Panel fl sh)
      → is_ok r.0 ≡ true
      → is_ok (with_issues fl sh k snapshot r).0 ≡ true
  with_issues_total k snapshot (ok _, s) h = refl
  with_issues_total k snapshot (err e, s) h = h

  poll_device-Present :
      (j : String) (t : ℕ) (at k : String) (snapshot : Snapshot Float) (s : Panel fl sh)
      → Present j s
      → Present j (poll_device fl sh w t at k snapshot s).1
  unfolding poll_device evaluate_device
  poll_device-Present j t at k snapshot s p =
      let s1 = evaluate_device fl sh k snapshot at s in
      elim (Option-cases (snapshot_device_live fl k s1.inventory)) [
        | inl e ↦ rw (e, poll_device) p
        | inr (live, e) ↦
            rw (e, poll_device)
              (with_issues-Present j k snapshot (refresh_device fl sh w t at k snapshot live s1)
                (refresh-Present j t at k snapshot live s1 p))
      ]

  poll_device_total :
      (t : ℕ) (at k : String) (snapshot : Snapshot Float) (s : Panel fl sh)
      → Fits (w.json_length snapshot)
      → Present k s
      → is_ok (poll_device fl sh w t at k snapshot s).0 ≡ true
  unfolding poll_device evaluate_device snapshot_device_live
  poll_device_total t at k snapshot s f p =
      let s1 = evaluate_device fl sh k snapshot at s in
      let (live, e) = has_entry k s.inventory.device_live p.1 in
      rw (e, poll_device)
        (with_issues_total k snapshot (refresh_device fl sh w t at k snapshot live s1)
          (refresh_total t at k snapshot live s1 f p))

  abbrev pub AllFit : Results fl → Type 0
  AllFit [] = Unit
  AllFit ((k, snapshot) ∷ results) = Fits (w.json_length snapshot) × AllFit results

  abbrev AllPresent : Results fl → Panel fl sh → Type 0
  AllPresent [] s = Unit
  AllPresent ((k, _) ∷ results) s = Present k s × AllPresent results s

  keep-AllPresent :
      (results : Results fl) (s s' : Panel fl sh)
      → ((j : String) → Present j s → Present j s')
      → AllPresent results s
      → AllPresent results s'
  keep-AllPresent [] s s' keep h = tt
  keep-AllPresent ((k, _) ∷ results) s s' keep h =
      (keep k h.0, keep-AllPresent results s s' keep h.1)

  poll_devices_total :
      (t : ℕ) (at : String) (results : Results fl) (s : Panel fl sh)
      → AllFit results
      → AllPresent results s
      → is_ok (poll_devices fl sh w t at results s).0 ≡ true
  unfolding poll_devices
  poll_devices_total t at [] s f p = refl
  poll_devices_total t at ((k, snapshot) ∷ results) s f p =
      let first = poll_device fl sh w t at k snapshot s in
      elim (Result.Result-cases first.0) [
        | inr (x, o) ↦ absurd (ground (arith, o, poll_device_total t at k snapshot s f.0 p.0))
        | inl (x, o) ↦ rw o (
            poll_devices_total t at results first.1 f.1 (
              keep-AllPresent results s first.1 (λ j. poll_device-Present j t at k snapshot s) p.1))
      ]

  pub start-Present :
      (r : Reading fl sh) (results : Results fl) (s : Panel fl sh) (k : String)
      → NodupKeys s.inventory.device_live
      → NodupKeys s.inventory.active_alarms
      → OwnProfiles fl results
      → Dict.has k results ≡ true
      → Present k (start_poll fl sh r results s)
  unfolding start_poll is_active_device
  start-Present r results s k u v own h =
      let profiles = profiles_of fl sh results in
      let listed = contains-profiles_of fl sh results k own ∙ h in
      (
        (active-set_device_inventory fl profiles s.inventory k v).0 ∙ listed,
        ground (arith, listed, lookup-set_device_inventory fl profiles s.inventory k u),
      )

  all-AllPresent :
      (results : Results fl) (s : Panel fl sh)
      → ((k : String) → Dict.has k results ≡ true → Present k s)
      → AllPresent results s
  unfolding Dict.lookup
  all-AllPresent [] s h = tt
  all-AllPresent ((k, snapshot) ∷ results) s h =
      (h k (ground arith), all-AllPresent results s (λ j e. h j (ground (arith, e))))

  -- A poll that has read the status document ends with no exception, when the JSON of each snapshot is
  -- finite and has at most a million characters, whatever SQLite answers. The live state and the alarms are
  -- taken to have each key once.
  pub poll_total :
      (r : Reading fl sh) (s : Panel fl sh) (t : ℕ) (at : String) (results : Results fl)
      → NodupKeys s.inventory.device_live
      → NodupKeys s.inventory.active_alarms
      → read_results fl sh r ≡ ok (t, at, results)
      → AllFit results
      → is_ok (poll_once fl sh w r s).0 ≡ true
  unfolding poll_once
  poll_total r s t at results u v read f =
      let (_, own) = read_results-IsOwn fl sh r t at results read in
      rw (read, poll_once)
        (poll_devices_total t at results (start_poll fl sh r results s) f (
          all-AllPresent results (start_poll fl sh r results s)
            (λ k h. start-Present r results s k u v own h)))
