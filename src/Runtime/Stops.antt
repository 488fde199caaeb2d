-- ===== src/Runtime/Stops.antt =====
-- What ends the loop `xml_reader_loop` of app/services/xml_status.py for good: a snapshot that
-- `publish_snapshot` of app/devices/runtime.py refuses.
use amplifier_panel.Base.{
  ◌≡◌, refl, ◌∙◌, ℕ, ◌<◌, true, String, none, some, List, ◌∷◌, string_eq, arith,
}
use amplifier_panel.Base.Dict
use amplifier_panel.Base.Dict.{Dict, NodupKeys}
use amplifier_panel.Base.Result.{ok, err}
use amplifier_panel.Device.{Floats, Snapshot}
use amplifier_panel.Inventory.{Live, live_or_blank, is_active_device, snapshot_device_live}
use amplifier_panel.Statistics.{Shown}
use amplifier_panel.Status.Parse.{Results}
use amplifier_panel.Runtime.{Panel, World, publish_snapshot, same_values}
use amplifier_panel.Inventory.Devices.{lookup-set_device_inventory}
use amplifier_panel.Runtime.Raises.{start-Present}
use amplifier_panel.Runtime.Document.{contains-profiles_of, read_results-IsOwn}
use amplifier_panel.Runtime.Poll.{
  Reading, read_results, poll_once, poll_device, poll_devices, refresh_device, evaluate_device,
  start_poll, xml_reader_loop, profiles_of,
}

module _ (fl : Floats) (sh : Shown fl.Float) (w : World fl sh) where
  open fl use {Float}

  -- The first device of the document, new to the panel, with a snapshot that is too large.
  poll_device_large :
      (t : ℕ) (at k : String) (snapshot : Snapshot Float) (live : Live fl) (n : ℕ) (s : Panel fl sh)
      → Dict.has k s.inventory.device_definitions ≡ true
      → Dict.lookup k s.inventory.device_live ≡ some live
      → live.snapshot ≡ none
      → w.json_length snapshot ≡ some n
      → 1000000 < n
      → (poll_device fl sh w t at k snapshot s).0
        ≡ err "Device snapshot exceeds the 1 MB safety limit"
  unfolding poll_device evaluate_device snapshot_device_live refresh_device publish_snapshot
      is_active_device same_values
  poll_device_large t at k snapshot live n s active e blank length large =
      rw (e, poll_device, blank, active, length) (ground (arith, large))

  -- The loop over the devices ends with the first exception, and so does the loop over the readings.
  stops_loops :
      (r : Reading fl sh) (readings : List (Reading fl sh)) (s : Panel fl sh) (t : ℕ)
      (at k e : String) (snapshot : Snapshot Float) (results : Results fl)
      → read_results fl sh r ≡ ok (t, at, (k, snapshot) ∷ results)
      → (poll_device fl sh w t at k snapshot (start_poll fl sh r ((k, snapshot) ∷ results) s)).0
        ≡ err e
      → xml_reader_loop fl sh w (r ∷ readings) s ≡ (err e, (poll_once fl sh w r s).1)
  unfolding xml_reader_loop poll_once poll_devices
  stops_loops r readings s t at k e snapshot results read raised =
      rw (read, xml_reader_loop, poll_once, poll_devices, raised) refl

  -- One snapshot above a million characters ends the reader for good: where the first device of the
  -- document was not shown before and its snapshot is too large, the poll raises, and the loop stops
  -- with that exception, whatever the later readings are. The live state and the alarms are taken to have
  -- each key once.
  pub large_snapshot_stops_reader :
      (r : Reading fl sh) (readings : List (Reading fl sh)) (s : Panel fl sh) (t : ℕ)
      (at k : String) (snapshot : Snapshot Float) (results : Results fl) (n : ℕ)
      → NodupKeys s.inventory.device_live
      → NodupKeys s.inventory.active_alarms
      → read_results fl sh r ≡ ok (t, at, (k, snapshot) ∷ results)
      → Dict.lookup k s.inventory.device_live ≡ none
      → w.json_length snapshot ≡ some n
      → 1000000 < n
      → xml_reader_loop fl sh w (r ∷ readings) s
        ≡ (err "Device snapshot exceeds the 1 MB safety limit", (poll_once fl sh w r s).1)
  unfolding start_poll Dict.lookup
  large_snapshot_stops_reader r readings s t at k snapshot results n u v read new length large =
      let all = (k, snapshot) ∷ results in
      let (_, own) = read_results-IsOwn fl sh r t at all read in
      let here : Dict.has k all ≡ true = ground (arith) in
      let profiles = profiles_of fl sh all in
      let listed = contains-profiles_of fl sh all k own ∙ here in
      let present = start-Present fl sh w r all s k u v own here in
      let blank : Dict.lookup k (start_poll fl sh r all s).inventory.device_live
          ≡ some (live_or_blank fl none) =
        lookup-set_device_inventory fl profiles s.inventory k u ∙ rw (listed, new) refl in
      stops_loops r readings s t at k _ snapshot results read (
        poll_device_large t at k snapshot (live_or_blank fl none) n (start_poll fl sh r all s)
          present.0 blank refl length large)
