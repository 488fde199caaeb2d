-- ===== src/Examples/Devices.antt =====
-- Runs of the inventory and of the status document.
use amplifier_panel.Base.{
  ℕ, ◌≡◌, ◌≤◌, refl, true, false, String, none, some, List, [], ◌∷◌, contains, string_eq,
  if◌then◌else◌,
}
use amplifier_panel.Base.Dict
use amplifier_panel.Base.Dict.{Dict, NodupKeys}
use amplifier_panel.Base.Int.{pos}
use amplifier_panel.Base.Result.{ok, err}
use amplifier_panel.Base.Text.{after_prefix}
use amplifier_panel.Device.{number, numeric, Field, Profile}
use amplifier_panel.Examples.Numbers.{numbers}
use amplifier_panel.Inventory.{Live, Inventory, live_or_blank, set_device_inventory}
use amplifier_panel.Inventory.Order.{ids}
use amplifier_panel.Inventory.Devices.{lookup-set_device_inventory}
use amplifier_panel.Status.{Param, Root, Presentation, MappedSection, Mapping}
use amplifier_panel.Status.Parse.{
  Scan, scan_section, parse_status, parse_nodes, parse_node, add_node, mapped_section,
  find_xml_section, snapshot_of, Results,
}
use amplifier_panel.Status.Results.{Complete, parse_status_results}
use amplifier_panel.Status.Values.{AllFinite, scan_section-Finite}

abbrev pub profile : String → ℕ → Profile
profile id order = record {
  id = id;
  label = id;
  view_profile = "amplifier";
  display_group = "";
  order = pos order;
  snmp_index = none;
}

abbrev three : List Profile
three = profile "oba3" 2 ∷ profile "oba" 1 ∷ profile "edfa" 2 ∷ []

abbrev pub old_live : Live numbers
old_live = record { connected = true; error = none; last_update = some "10:00"; snapshot = none }

abbrev pub before : Inventory numbers
before = record {
  active_alarms = [];
  device_live = ("gone", old_live) ∷ ("oba", old_live) ∷ [];
  active_device_order = "gone" ∷ "oba" ∷ [];
  device_definitions = [];
}

lookup-set_device_inventory_example :
    Dict.lookup "gone" (set_device_inventory numbers three before).device_live ≡ (
      if contains (ids three) "gone"
      then some (live_or_blank numbers (Dict.lookup "gone" before.device_live))
      else none)
unfolding Dict.lookup string_eq
lookup-set_device_inventory_example =
    lookup-set_device_inventory numbers three before "gone" (refl, (refl, tt))

abbrev pub gain : Field ℕ
gain = record {
  key = "gain";
  id = "7";
  name = "Gain";
  label = "Gain";
  unit = "dB";
  group = "Measurements";
  role = "";
  field_type = number;
  writable = true;
  automatic = false;
  alarm = record { enabled = false; minimum = none; maximum = none };
  minimum = none;
  maximum = none;
}

abbrev pub no_presentation : Presentation
no_presentation = record {
  profile_label = none;
  view_profile = none;
  display_group = none;
  order = none;
  snmp_index = none;
}

abbrev pub section : MappedSection ℕ
section = record {
  key = "oba";
  xml_section = "params_oba";
  label = "OBA";
  presentation = no_presentation;
  discover_unmapped = true;
  fields = gain ∷ [];
}

abbrev pub mapping : Mapping ℕ
mapping =
    (
      "oba",
      record {
        label = "OBA";
        presentation = no_presentation;
        boolean_fields = [];
        sections = section ∷ [];
      },
    )
    ∷ []

-- The gain, a parameter that is not mapped, and one whose key would be that of the second.
abbrev pub params : List Param
params =
    record { id = some "7"; name = some "Gain"; value = some "21" }
    ∷ record { id = some "8"; name = some "Temp"; value = some "40" }
    ∷ record { id = some "8"; name = some "Other"; value = some "2" }
    ∷ []

abbrev pub root : Root
root = record {
  tag = "status";
  module_info = [];
  nodes =
      record { tag = some "module"; params = [] }
      ∷ record { tag = some "params_oba"; params = params }
      ∷ record { tag = some "params_edfa_2"; params = [] }
      ∷ [];
}

scan_section-Finite_example :
    AllFinite numbers (scan_section numbers "oba" section [] params).values
scan_section-Finite_example = scan_section-Finite numbers "oba" section [] params

abbrev scanned : Scan numbers
scanned = record { values = ("auto:8", numeric 40) ∷ []; fields = []; issues = [] }

abbrev parsed : Results numbers
parsed = elim (parse_status numbers 5000 false (some root) mapping) [
  | ok results ↦ results
  | err _ ↦ []
]

parse_status_results_example :
    (5000 ≤ 1000000)
    × (false ≡ false)
    × ((r : Root) × (some root ≡ some r) × Complete numbers r parsed)
unfolding parse_status parse_nodes parse_node add_node mapped_section find_xml_section snapshot_of
    string_eq after_prefix Dict.lookup Dict.insert
parse_status_results_example =
    parse_status_results numbers 5000 false (some root) mapping parsed refl
