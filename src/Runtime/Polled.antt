-- ===== src/Runtime/Polled.antt =====
-- What a poll leaves that has read the status document: `poll_once` of app/services/xml_status.py.
use amplifier_panel.Base.{
  ◌≡◌, refl, ℕ, Bool, true, String, Option, none, some, List, [], ◌∷◌, ◌==◌, string_eq, arith,
  if◌then◌else◌, Option-cases, inl, inr, Bool-cases,
}
use amplifier_panel.Base.Dict
use amplifier_panel.Base.Dict.{Dict, NodupKeys}
use amplifier_panel.Base.Result
use amplifier_panel.Base.Result.{Result, ok, err}
use amplifier_panel.Base.Text.{join}
use amplifier_panel.Device.{Floats, Snapshot}
use amplifier_panel.Inventory.{Live, update_device_live, snapshot_device_live}
use amplifier_panel.Statistics.{Shown}
use amplifier_panel.Status.Parse.{Results}
use amplifier_panel.Runtime.{
  Panel, World, publish_snapshot, publish_checked, publish_observed, same_values,
}
use amplifier_panel.Runtime.Poll.{
  poll_device, poll_devices, refresh_device, evaluate_device, with_issues, report_issues,
}

module _ (fl : Floats) (sh : Shown fl.Float) where
  -- The entry of a device that has been read.
  abbrev pub observed_live : String → Snapshot fl.Float → Live fl
  observed_live at snapshot = record {
    connected = true;
    error = none;
    last_update = some at;
    snapshot = some snapshot;
  }

  abbrev issues_error : List String → Option String
  issues_error [] = none
  issues_error (issue ∷ issues) = some (join "; " (issue ∷ issues))

  abbrev pub polled_live : String → Snapshot fl.Float → Live fl
  polled_live at snapshot = record (observed_live at snapshot) {
    error = issues_error snapshot.issues;
  }

  abbrev live_of : Panel fl sh → Dict String (Live fl)
  live_of s = s.inventory.device_live

  publish_observed-live :
      (w : World fl sh) (k : String) (snapshot : Snapshot fl.Float) (t : ℕ) (at : String)
      (previous : Live fl) (s : Panel fl sh) (j : String)
      → Dict.lookup j (live_of (publish_observed fl sh w k snapshot t at previous s).1)
        ≡ (if j == k then some (observed_live at snapshot) else Dict.lookup j (live_of s))
  unfolding publish_observed update_device_live
  publish_observed-live w k snapshot t at previous s j =
      Dict.lookup-insert j k (observed_live at snapshot) (live_of s)

  publish-live :
      (w : World fl sh) (k : String) (snapshot : Snapshot fl.Float) (t : ℕ) (at : String)
      (s : Panel fl sh) (j : String) (b : Bool)
      → (publish_snapshot fl sh w k snapshot (some (t, at)) s).0 ≡ ok b
      → Dict.lookup j (live_of (publish_snapshot fl sh w k snapshot (some (t, at)) s).1)
        ≡ (if j == k then some (observed_live at snapshot) else Dict.lookup j (live_of s))
  unfolding publish_snapshot publish_checked
  publish-live w k snapshot t at s j b h =
      elim (Option-cases (snapshot_device_live fl k s.inventory)) [
        | inl e ↦ ground (arith, e, h)
        | inr (p, e) ↦ ground (arith, e, h, publish_observed-live w k snapshot t at p s j)
      ]

  refresh-live :
      (w : World fl sh) (t : ℕ) (at k : String) (snapshot : Snapshot fl.Float) (previous : Live fl)
      (s : Panel fl sh) (j : String)
      → (refresh_device fl sh w t at k snapshot previous s).0 ≡ ok tt
      → Dict.lookup j (live_of (refresh_device fl sh w t at k snapshot previous s).1)
        ≡ (if j == k then some (observed_live at snapshot) else Dict.lookup j (live_of s))
  unfolding refresh_device update_device_live
  refresh-live w t at k snapshot previous s j h =
      elim (Bool-cases (same_values fl sh previous.snapshot snapshot)) [
        | inl e ↦ rw e (Dict.lookup-insert j k (observed_live at snapshot) (live_of s))
        | inr e ↦
            elim (Result.Result-cases (publish_snapshot fl sh w k snapshot (some (t, at)) s).0) [
              | inl (b, o) ↦ ground (arith, e, o, h, publish-live w k snapshot t at s j b)
              | inr (x, o) ↦ ground (arith, e, o, h)
            ]
      ]

  -- The new entry of the device `k`, and the old ones of all others.
  abbrev IsUpdated : String → Live fl → Dict String (Live fl) → Dict String (Live fl) → Type 0
  IsUpdated k v old new =
      (j : String) → Dict.lookup j new ≡ (if j == k then some v else Dict.lookup j old)

  report_issues-live :
      (at k : String) (snapshot : Snapshot fl.Float) (issues : List String) (s : Panel fl sh)
      (old : Dict String (Live fl))
      → IsUpdated k (observed_live at snapshot) old (live_of s)
      → IsUpdated k
          (record (observed_live at snapshot) { error = issues_error issues })
          old
          (live_of (report_issues fl sh k issues s))
  unfolding update_device_live
  report_issues-live at k snapshot [] s old u j = u j
  report_issues-live at k snapshot (issue ∷ issues) s old u j =
      let v : Live fl = record (observed_live at snapshot) {
        error = issues_error (issue ∷ issues);
      } in
      let here : Dict.lookup k (live_of s) ≡ some (observed_live at snapshot) =
        ground (arith, u k) in
      rw (update_device_live, here) (ground (arith, u j, Dict.lookup-insert j k v (live_of s)))

  with_issues-live :
      (at k : String) (snapshot : Snapshot fl.Float) (r : Result String (Unit {0}) × Panel fl sh)
      (old : Dict String (Live fl))
      → (with_issues fl sh k snapshot r).0 ≡ ok tt
      → (r.0 ≡ ok tt → IsUpdated k (observed_live at snapshot) old (live_of r.1))
      → IsUpdated k (polled_live at snapshot) old (live_of (with_issues fl sh k snapshot r).1)
  with_issues-live at k snapshot (ok _, s) old h u j =
      report_issues-live at k snapshot snapshot.issues s old (u refl) j
  with_issues-live at k snapshot (err e, s) old h u j = absurd (ground (arith, h))

  -- `poll_device` that ends with no exception leaves the new entry of its device.
  poll_device-live :
      (w : World fl sh) (t : ℕ) (at k : String) (snapshot : Snapshot fl.Float) (s : Panel fl sh)
      → (poll_device fl sh w t at k snapshot s).0 ≡ ok tt
      → IsUpdated k
          (polled_live at snapshot)
          (live_of s)
          (live_of (poll_device fl sh w t at k snapshot s).1)
  unfolding poll_device evaluate_device
  poll_device-live w t at k snapshot s h j =
      let s1 = evaluate_device fl sh k snapshot at s in
      elim (Option-cases (snapshot_device_live fl k s1.inventory)) [
        | inl e ↦ absurd (ground (arith, e, h))
        | inr (p, e) ↦
            rw (e, poll_device)
              (with_issues-live at k snapshot (refresh_device fl sh w t at k snapshot p s1)
                (live_of s) (rw (e, poll_device) at h)
                (λ o i. refresh-live w t at k snapshot p s1 i o) j)
      ]

  unfoldable pub after_poll : Results fl → String → String → Option (Live fl) → Option (Live fl)
  after_poll results at j old = elim (Dict.lookup j results) [
    | none ↦ old
    | some snapshot ↦ some (polled_live at snapshot)
  ]

  pub poll_devices-live :
      (w : World fl sh) (t : ℕ) (at : String) (results : Results fl) (s : Panel fl sh) (j : String)
      → NodupKeys results
      → (poll_devices fl sh w t at results s).0 ≡ ok tt
      → Dict.lookup j (live_of (poll_devices fl sh w t at results s).1)
        ≡ after_poll results at j (Dict.lookup j (live_of s))
  unfolding poll_devices after_poll Dict.lookup
  poll_devices-live w t at [] s j u h = refl
  poll_devices-live w t at ((k, snapshot) ∷ results) s j u h =
      elim (Result.Result-cases (poll_device fl sh w t at k snapshot s).0) [
        | inr (x, o) ↦ absurd (ground (arith, o, h))
        | inl (x, o) ↦
            let s1 = (poll_device fl sh w t at k snapshot s).1 in
            let rest = poll_devices-live w t at results s1 j u.1 (rw o at h) in
            let first = poll_device-live w t at k snapshot s o j in
            rw o (ground (arith, u.0, rest, first))
      ]
