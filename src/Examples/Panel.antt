-- ===== src/Examples/Panel.antt =====
-- Runs of the poll.
use amplifier_panel.Base.{
  ℕ, ◌≡◌, refl, true, false, String, none, some, [], ◌∷◌, contains, string_eq, arith, if◌then◌else◌,
}
use amplifier_panel.Base.Dict
use amplifier_panel.Base.Dict.{Dict}
use amplifier_panel.Base.Result.{Result, ok, err, is_ok}
use amplifier_panel.Base.Text.{◌<>◌, after_prefix}
use amplifier_panel.Device.{Snapshot}
use amplifier_panel.Examples.Numbers.{numbers, shown}
use amplifier_panel.Examples.Devices.{profile, section, mapping, params, old_live}
use amplifier_panel.Examples.Records.{empty}
use amplifier_panel.Inventory.{Inventory, live_or_blank}
use amplifier_panel.Status.{Root, MappedDevice}
use amplifier_panel.Status.Parse.{
  parse_status, parse_nodes, parse_node, add_node, mapped_section, find_xml_section, snapshot_of,
  Results,
}
use amplifier_panel.Runtime.{Panel, World}
use amplifier_panel.Runtime.Poll.{
  StatusFile, Reading, read_results, parse_file, poll_once, xml_reader_loop,
}
use amplifier_panel.Runtime.Failed.{failed_live, poll_failed}
use amplifier_panel.Runtime.Polled.{polled_live}
use amplifier_panel.Runtime.Document.{poll_shows_document}
use amplifier_panel.Runtime.Raises.{poll_total}
use amplifier_panel.Runtime.Stops.{large_snapshot_stops_reader}

abbrev shown_inventory : Inventory numbers
shown_inventory = record {
  active_alarms = [];
  device_live = ("gone", old_live) ∷ [];
  active_device_order = "gone" ∷ [];
  device_definitions = ("gone", profile "gone" 1) ∷ [];
}

abbrev pub panel : Panel numbers shown
panel = record { inventory = shown_inventory; store = empty; sent = []; notices = [] }

abbrev world : ℕ → World numbers shown
world n = record { json_length = λ _. some n; fault = λ _. none; max_records = 0 }

-- A document with one device.
abbrev one_device : Root
one_device = record {
  tag = "status";
  module_info = [];
  nodes = record { tag = some "params_oba"; params = params } ∷ [];
}

abbrev file : StatusFile numbers shown
file = record {
  modified = 1000;
  modified_at = "10:00";
  bytes = 5000;
  has_declaration = false;
  root = some one_device;
}

abbrev reading : Reading numbers shown
reading = record {
  mapping = ok mapping;
  file = ok file;
  now = 2000;
  stale_ms = 60000;
  syslog_enabled = true;
  quoted = λ s. s;
  control_status = record {
    request_id = none;
    request_device_id = none;
    status_state = "idle";
    message = "no control request";
  };
  control_fault = none;
}

abbrev unmapped : Reading numbers shown
unmapped = record reading { mapping = err "no mapping" }

poll_failed_example :
    let after = (poll_once numbers shown (world 100) unmapped panel).1 in
    ((poll_once numbers shown (world 100) unmapped panel).0 ≡ ok tt)
    × (Dict.lookup "gone" after.inventory.device_live ≡ (
        if contains panel.inventory.active_device_order "gone"
        then some (
            failed_live numbers shown "XML: no mapping"
              (live_or_blank numbers (Dict.lookup "gone" panel.inventory.device_live)))
        else Dict.lookup "gone" panel.inventory.device_live))
    × (after.inventory.active_alarms ≡ panel.inventory.active_alarms)
    × (after.inventory.device_definitions ≡ panel.inventory.device_definitions)
    × (after.store ≡ panel.store)
    × (after.sent ≡ panel.sent)
    × (after.notices ≡ panel.notices)
unfolding read_results Dict.lookup string_eq ◌<>◌
poll_failed_example =
    poll_failed numbers shown (world 100) unmapped panel "no mapping" "gone" refl (refl, tt)

abbrev device : MappedDevice ℕ
device = record {
  label = "OBA";
  presentation = record {
    profile_label = none;
    view_profile = none;
    display_group = none;
    order = none;
    snmp_index = none;
  };
  boolean_fields = [];
  sections = section ∷ [];
}

abbrev snapshot : Snapshot ℕ
snapshot = snapshot_of numbers [] (some device) section params

abbrev results : Results numbers
results = ("oba", snapshot) ∷ []

results_read : read_results numbers shown reading ≡ ok (1000, "10:00", results)
unfolding read_results parse_file parse_status parse_nodes parse_node add_node mapped_section
    find_xml_section string_eq after_prefix Dict.lookup Dict.insert
results_read = refl

-- A result without an error is `ok`.
no_error : (r : Result String (Unit {0})) → is_ok r ≡ true → r ≡ ok tt
no_error (ok _) h = refl
no_error (err e) h = absurd (ground (arith, h))

poll_total_example : is_ok (poll_once numbers shown (world 100) reading panel).0 ≡ true
unfolding Dict.lookup
poll_total_example =
    poll_total numbers shown (world 100) reading panel 1000 "10:00" results (refl, tt) tt
      results_read (omega arith, tt)

poll_shows_document_example :
    Dict.lookup "oba" (poll_once numbers shown (world 100) reading panel).1.inventory.device_live
    ≡ elim (Dict.lookup "oba" results) [
      | none ↦ none
      | some s ↦ some (polled_live numbers shown "10:00" s)
    ]
unfolding Dict.lookup
poll_shows_document_example =
    poll_shows_document numbers shown (world 100) reading panel 1000 "10:00" results "oba"
      (refl, tt) results_read
      (no_error (poll_once numbers shown (world 100) reading panel).0 poll_total_example)

large_snapshot_stops_reader_example :
    xml_reader_loop numbers shown (world 2000000) (reading ∷ unmapped ∷ []) panel ≡ (
      err "Device snapshot exceeds the 1 MB safety limit",
      (poll_once numbers shown (world 2000000) reading panel).1,
    )
unfolding Dict.lookup string_eq
large_snapshot_stops_reader_example =
    large_snapshot_stops_reader numbers shown (world 2000000) reading (unmapped ∷ []) panel 1000
      "10:00" "oba" snapshot [] 2000000 (refl, tt) tt results_read refl refl (omega arith)
