-- ===== src/Examples/Requests.antt =====
-- Runs of the control requests, the SNMP agent, the saved settings and the environment file.
use amplifier_panel.Base.{
  ℕ, ◌≡◌, ◌≤◌, refl, true, false, String, none, some, List, [], ◌∷◌, contains, string_eq, arith,
  inr, sort_by, put_by, if◌then◌else◌,
}
use amplifier_panel.Base.Dict
use amplifier_panel.Base.Dict.{Dict, AllValues}
use amplifier_panel.Base.Int.{pos, parse_int}
use amplifier_panel.Base.Result.{Result, ok}
use amplifier_panel.Base.Text.{◌<>◌, strip, lower, pieces}
use amplifier_panel.Statistics.{
  Json, number, text, array, object, item, no_items, member, no_members,
}
use amplifier_panel.Examples.Numbers.{numbers, shown}
use amplifier_panel.Examples.Devices.{mapping, profile}
use amplifier_panel.Examples.Panel.{panel}
use amplifier_panel.Status.{MappedSection, MappedDevice, Mapping}
use amplifier_panel.Inventory.{is_active_device}
use amplifier_panel.Auth.{User, radius_mode}
use amplifier_panel.Settings.{
  InitialAdmin, merge_access_users, with_initial, merge_users, merge_user, users_json,
}
use amplifier_panel.Settings.Accounts.{IsUsableList, merge-IsUsableList}
use amplifier_panel.Settings.Restart.{restart_keeps_accounts}
use amplifier_panel.Settings.Fields.{whole, merge_device_live_fields}
use amplifier_panel.Settings.Fields.Selected.{AreSelections, merge-AreSelections}
use amplifier_panel.Snmp.{
  next_binding, following, requested_parts, oid_parts, with_parts, next_after, parts_lt, Keyed,
  may_precede,
}
use amplifier_panel.Snmp.Next.{IsNext, next_binding-IsNext}
use amplifier_panel.Snmp.Walk.{walk, walk_ends, names, above}
use amplifier_panel.Status.Profiles.{find_mapping_profile, find_section}
use amplifier_panel.Control.{
  Fault, Document, Tools, add_writable, writable_fields, validated_number, validated_as,
  build_parameter, build_parameters, max_control_bytes, build_control_xml,
}
use amplifier_panel.Control.Permitted.{ArePermitted}
use amplifier_panel.Control.Valid.{build_valid}
use amplifier_panel.Control.Write.{
  Files, without_request, no_temporary, no_failure, removed, replace_file, replace_control,
  write_control,
}
use amplifier_panel.Control.Atomic.{IsAtomic, write-IsAtomic}
use amplifier_panel.Control.Status.{read_acknowledgement}
use amplifier_panel.Control.Handler.{
  ControlPanel, Call, Moment, to_members, update_device_control, reconcile_files,
}
use amplifier_panel.Control.Acknowledged.{Listed, acknowledged_request}
use amplifier_panel.EnvFile.{all_codes, env_content, read_env_file}
use amplifier_panel.EnvFile.Keys.{config_keys, config_sections, config_help}
use amplifier_panel.EnvFile.RoundTrip.{read-write_env_file}

abbrev admin : InitialAdmin
admin = record {
  auth_mode = radius_mode;
  username = "admin";
  password_hash = "";
  password_salt = "";
}

-- Neither a list of accounts, nor fields without repetition.
abbrev saved : Json ℕ
saved =
    object (
      member "oba" (array (item (text "a") (item (text "") (item (text "a") no_items)))) no_members)

abbrev first_admin : List User
first_admin =
    record {
      username = "admin";
      role = "Administrator";
      active = true;
      password_hash = none;
      password_salt = none;
    }
    ∷ []

merge-IsUsableList_example : IsUsableList admin first_admin
unfolding merge_access_users with_initial merge_users merge_user
merge-IsUsableList_example = merge-IsUsableList numbers shown admin (some saved) first_admin refl

abbrev viewer : User
viewer = record {
  username = "eve";
  role = "Viewer";
  active = true;
  password_hash = none;
  password_salt = none;
}

restart_keeps_accounts_example :
    merge_access_users numbers shown admin (some (array (users_json numbers shown (viewer ∷ []))))
    ≡ ok (viewer ∷ [])
unfolding strip
restart_keeps_accounts_example =
    restart_keeps_accounts numbers shown admin viewer []
      ((refl, refl, refl, refl, inr (refl, refl)), tt) (refl, tt) (λ e. absurd (ground (arith, e)))

merge-AreSelections_example :
    AreSelections (merge_device_live_fields numbers (λ _. whole (pos 1)) (some saved) none)
merge-AreSelections_example = merge-AreSelections numbers (λ _. whole (pos 1)) (some saved) none

abbrev tree : Dict String String
tree = ("1.10.0", "b") ∷ ("1.9.0", "a") ∷ []

next_binding-IsNext_example :
    IsNext tree (requested_parts (oid_parts "1.9")) (following "1.9.0" "a")
unfolding next_binding with_parts oid_parts pieces parse_int next_after parts_lt Dict.lookup
    string_eq sort_by put_by
next_binding-IsNext_example = next_binding-IsNext tree "1.9" (following "1.9.0" "a") refl

abbrev keyed : List Keyed
keyed = (pos 1 ∷ pos 10 ∷ pos 0 ∷ [], "1.10.0") ∷ (pos 1 ∷ pos 9 ∷ pos 0 ∷ [], "1.9.0") ∷ []

abbrev now : String
now = "2026-01-01"

abbrev values : Dict String String
values = ("RADIUS_SECRET", "a \"b\\c\"") ∷ ("DEVICE_NAME", "panel") ∷ []

read-write_env_file_example :
    (content : String) × (result : Dict String String) × (env_content config_sections config_help
        config_keys now values
      ≡ ok content)
    × (read_env_file (λ _. "n") "amp-panel.env" content ≡ ok result)
    × (Dict.lookup "RADIUS_SECRET" result ≡ (
        if contains config_keys "RADIUS_SECRET" then Dict.lookup "RADIUS_SECRET" values else none))
unfolding all_codes
read-write_env_file_example =
    read-write_env_file (λ _. "n") "amp-panel.env" now values "RADIUS_SECRET" refl
      (refl, (refl, tt))

walk_ends_example :
    walk 3 tree "1.9"
    ≡ some (names (above (requested_parts (oid_parts "1.9")) (sort_by may_precede keyed)))
unfolding with_parts oid_parts pieces parse_int parts_lt
walk_ends_example = walk_ends tree keyed "1.9" refl ((refl, tt), (tt, tt))

abbrev tools : Tools numbers
tools = record { format_number = λ _. "n"; is_uuid = λ _. true; document_bytes = λ _. 500 }

abbrev wanted : Dict String (Json ℕ)
wanted = ("oba:gain", number 20) ∷ []

abbrev sent_document : Document
sent_document = record {
  identifier = some "id-1";
  created_at = some "10:00";
  device_id = some (some "oba");
  parameters =
      record {
        section = "oba";
        key = "gain";
        value_type = "number";
        id = some "7";
        name = some "Gain";
        value = "n";
      }
      ∷ [];
}

abbrev no_fault : Mapping ℕ → Result Fault (Mapping ℕ)
no_fault m = ok m

build_valid_example :
    (m : Mapping ℕ) × (owner : String) × (definition : MappedDevice ℕ) × (s : MappedSection ℕ)
    × (no_fault mapping ≡ ok m)
    × (find_mapping_profile "oba" m ≡ some (owner, definition, s))
    × ArePermitted numbers tools s wanted sent_document.parameters
    × (sent_document.identifier ≡ some "id-1")
    × (tools.is_uuid "id-1" ≡ true)
    × (sent_document.created_at ≡ some "10:00")
    × (sent_document.device_id ≡ some (some "oba"))
    × (tools.document_bytes sent_document ≤ max_control_bytes)
unfolding build_control_xml writable_fields find_mapping_profile find_section add_writable
    build_parameters build_parameter validated_as validated_number ◌<>◌ Dict.lookup Dict.insert
    string_eq sort_by
build_valid_example =
    build_valid numbers tools (no_fault mapping) "oba" "id-1" "10:00" wanted sent_document refl

abbrev files : Files
files = record { control_file = without_request; temporary = no_temporary }

write-IsAtomic_example :
    IsAtomic numbers tools
      (replace_file removed)
      files
      "id-1"
      (build_control_xml numbers tools (ok mapping) "oba" wanted "id-1" "10:00")
      (write_control numbers tools
        (ok mapping)
        (replace_file removed)
        "oba"
        wanted
        "id-1"
        "10:00"
        files)
write-IsAtomic_example =
    write-IsAtomic numbers tools (ok mapping) (replace_file removed) "oba" "id-1" "10:00" wanted
      files refl

abbrev call : Call numbers shown
call = record {
  mapping = ok mapping;
  failure = no_failure;
  identifier = "id-1";
  created_at = "10:00";
  now_ms = 5000;
  database_fault = none;
  syslog_enabled = true;
  client_ip = "10.0.0.9";
  dumps = λ _. "{}";
}

abbrev control_panel : ControlPanel numbers shown
control_panel = record {
  panel = record panel {
    inventory = record panel.inventory {
      active_device_order = "oba" ∷ [];
      device_definitions = ("oba", profile "oba" 1) ∷ [];
    };
  };
  files = files;
}

-- The acknowledgement, as the device writes it.
abbrev moment : Moment numbers shown
moment = record {
  acknowledgement = some (record {
    bytes = 5000;
    has_declaration = ok false;
    element = ok (
        some (record {
          last_request_id = some " id-1 ";
          state = some "APPLIED";
          message = some "done";
        }));
  });
  now_us = 9000000;
  now_ms = 9000;
  database_fault = none;
}

acknowledged_request_example :
    let accepted =
      (update_device_control numbers shown tools call "oba" "eve" wanted control_panel).1 in
    Listed numbers shown "id-1" "oba" "eve"
      (object (to_members numbers shown wanted))
      (read_acknowledgement numbers shown moment.acknowledgement).state
      (read_acknowledgement numbers shown moment.acknowledgement).message
      (reconcile_files numbers shown
        (λ _. some 5)
        15000000
        true
        (λ s. s)
        moment
        accepted).panel.store
unfolding update_device_control write_control replace_control read_acknowledgement strip lower
    is_active_device build_control_xml writable_fields find_mapping_profile find_section
    add_writable build_parameters build_parameter validated_as validated_number ◌<>◌ Dict.lookup
    Dict.insert string_eq sort_by
acknowledged_request_example =
    acknowledged_request numbers shown tools call "oba" "eve" "id-1" wanted control_panel
      (λ _. some 5) 15000000 true (λ s. s) moment refl refl tt refl refl refl refl refl refl
