-- ===== src/Runtime/Failed.antt =====
-- What a poll leaves that cannot read the status document: `poll_once` of app/services/xml_status.py.
use amplifier_panel.Base.{
  ◌≡◌, refl, true, false, String, some, List, [], ◌∷◌, string_eq, contains, arith, All,
  if◌then◌else◌,
}
use amplifier_panel.Base.Dict
use amplifier_panel.Base.Dict.{Dict}
use amplifier_panel.Base.Result.{ok, err}
use amplifier_panel.Base.Text.{◌<>◌}
use amplifier_panel.Device.{Floats, Profile}
use amplifier_panel.Inventory.{Live, Inventory, is_active_device, update_device_live, live_or_blank}
use amplifier_panel.Statistics.{Shown}
use amplifier_panel.Runtime.{Panel, World, report_failure}
use amplifier_panel.Runtime.Poll.{Reading, read_results, report_all, poll_once}

module _ (fl : Floats) (sh : Shown fl.Float) where
  -- The entry of a device that could not be read.
  abbrev pub failed_live : String → Live fl → Live fl
  failed_live error live = record live { connected = false; error = some error }

  abbrev pub AllActive : List String → Dict String Profile → Type 0
  AllActive ids definitions = All (λ j. Dict.has j definitions ≡ true) ids

  report_failure_active :
      (j error : String) (s : Inventory fl)
      → Dict.has j s.device_definitions ≡ true
      → report_failure fl sh j error s ≡ (
        ok tt,
        record s {
          device_live =
              Dict.insert j
                (failed_live error (live_or_blank fl (Dict.lookup j s.device_live)))
                s.device_live;
        },
      )
  unfolding report_failure is_active_device update_device_live
  report_failure_active j error s h = rw h

  marked_ids : String → List String → Dict String (Live fl) → Dict String (Live fl)
  marked_ids error [] live = live
  marked_ids error (j ∷ ids) live =
      marked_ids error ids
        (Dict.insert j (failed_live error (live_or_blank fl (Dict.lookup j live))) live)

  report_all_active :
      (ids : List String) (error : String) (s : Inventory fl)
      → AllActive ids s.device_definitions
      → report_all fl sh ids error s
        ≡ (ok tt, record s { device_live = marked_ids error ids s.device_live })
  unfolding report_all marked_ids
  report_all_active [] error s h = refl
  report_all_active (j ∷ ids) error s h =
      rw (report_failure_active j error s h.0) (report_all_active ids error _ h.1)

  lookup-marked_ids :
      (error : String) (ids : List String) (live : Dict String (Live fl)) (j : String)
      → Dict.lookup j (marked_ids error ids live) ≡ (
          if contains ids j
          then some (failed_live error (live_or_blank fl (Dict.lookup j live)))
          else Dict.lookup j live)
  unfolding marked_ids
  lookup-marked_ids error [] live j = refl
  lookup-marked_ids error (k ∷ ids) live j = ground (
    arith,
    lookup-marked_ids error ids
        (Dict.insert k (failed_live error (live_or_blank fl (Dict.lookup k live))) live) j,
    Dict.lookup-insert j k (failed_live error (live_or_blank fl (Dict.lookup k live))) live,
  )

  -- A poll that cannot read the status document, for whatever reason, answers without an exception. Every
  -- active device is then shown as disconnected with that reason and keeps its last values; no other
  -- device, alarm, stored observation or control request changes, and nothing is sent. The active
  -- devices are taken to be those that are defined.
  pub poll_failed :
      (w : World fl sh) (r : Reading fl sh) (s : Panel fl sh) (e j : String)
      → read_results fl sh r ≡ err e
      → AllActive s.inventory.active_device_order s.inventory.device_definitions
      → let after = (poll_once fl sh w r s).1 in
        ((poll_once fl sh w r s).0 ≡ ok tt)
        × (Dict.lookup j after.inventory.device_live ≡ (
            if contains s.inventory.active_device_order j
            then some (
                failed_live
                  ("XML: " <> e)
                  (live_or_blank fl (Dict.lookup j s.inventory.device_live)))
            else Dict.lookup j s.inventory.device_live))
        × (after.inventory.active_alarms ≡ s.inventory.active_alarms)
        × (after.inventory.device_definitions ≡ s.inventory.device_definitions)
        × (after.store ≡ s.store)
        × (after.sent ≡ s.sent)
        × (after.notices ≡ s.notices)
  unfolding poll_once
  poll_failed w r s e j f h =
      rw
        (
          f,
          poll_once,
          report_all_active s.inventory.active_device_order ("XML: " <> e) s.inventory h,
        )
        (
          refl,
          lookup-marked_ids ("XML: " <> e) s.inventory.active_device_order s.inventory.device_live
              j,
          refl,
          refl,
          refl,
          refl,
          refl,
        )
