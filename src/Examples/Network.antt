-- ===== src/Examples/Network.antt =====
-- Runs of the network agent.
use amplifier_panel.Base.{
  ◌+◌, ◌≡◌, refl, ◌<◌, true, false, String, none, some, List, [], ◌∷◌, ◌++◌, arith, string_eq, ◌==◌,
  contains, if◌then◌else◌,
}
use amplifier_panel.Base.Dict
use amplifier_panel.Base.Result.{is_ok}
use amplifier_panel.Base.Text.{◌<>◌, strip, lstrip, rstrip, lower, join, after_prefix}
use amplifier_panel.Network.Host.{
  Host, Reply, finished, Interface, NetworkState, Checkpoint, Agent, agent_error, run,
}
use amplifier_panel.Network.Commands.{
  checkpoint_call, route_interface, route_of_address, route_of, get_network_state, list_interfaces,
  interface_of, named_interface, create_checkpoint, device_dbus_path,
}
use amplifier_panel.Network.Apply.{
  Payload, one_text, Printing, Plan, change, add_connection, guarded, settle,
  apply_network_settings, confirm_network_settings, prune_expired, ensure_no_pending, confirm_found,
  destroy, plan, plan_known, plan_for, mode_options, ethernet_name, register_checkpoint,
}
use amplifier_panel.Network.Rollback.{checkpoint_command, change_rolled_back}
use amplifier_panel.Network.Pending.{one_change_at_a_time, apply-pending, confirm_commits}

abbrev broken_host : Host
broken_host = record {
  respond = λ _ _. finished 4 "" "no carrier";
  addresses = λ _. some [];
  routes = λ _. some [];
  shlex_split = λ _. some ("o" ∷ "\"/checkpoint/1\"" ∷ []);
  client_address = λ _. none;
  hostname = "panel";
  nmcli_available = true;
}

abbrev answer : List String → Reply
answer command =
    if contains command "GetDeviceByIpIface"
    then finished 0 "device" ""
    else if contains command "CheckpointCreate"
    then finished 0 "checkpoint" ""
    else finished 0 "ethernet" ""

abbrev path_of : String → String
path_of text =
    if text == "device"
    then "/org/freedesktop/NetworkManager/Devices/3"
    else "/org/freedesktop/NetworkManager/Checkpoint/9"

-- A host on which every command works.
abbrev quiet_host : Host
quiet_host = record {
  respond = λ _ command. answer command;
  addresses = λ _. some (record { name = "eth0"; mac = ""; operstate = "UP"; ipv4 = none } ∷ []);
  routes = λ _. some [];
  shlex_split = λ text. some ("o" ∷ path_of text ∷ []);
  client_address = λ _. some (true, "127.0.0.1");
  hostname = "panel";
  nmcli_available = false;
}

abbrev printing : Printing
printing = record { show_address = λ _. "10.0.0.2"; show_prefix = λ _. "24" }

abbrev idle : Agent
idle = record { trace = []; pending = [] }

abbrev shown : NetworkState
shown = record {
  hostname = "panel";
  supported = true;
  selected_interface = "eth0";
  access_interface = "eth0";
  interfaces = [];
}

abbrev change_of_eth0 : Checkpoint
change_of_eth0 = record {
  path = "/checkpoint/7";
  interface = "eth0";
  expires_at = 160;
  state = shown;
}

abbrev waiting : Agent
waiting = record { trace = []; pending = ("t1", change_of_eth0) ∷ [] }

abbrev dhcp : Payload
dhcp = record {
  interface = "eth0";
  requester_ip = "";
  mode = "dhcp";
  dns = one_text "";
  ip_address = "";
  netmask = "";
  gateway = "";
}

abbrev plan_of_eth0 : Plan
plan_of_eth0 = record {
  interface = "eth0";
  requester_ip = "";
  connection = "wired";
  create_connection = false;
  command = "nmcli" ∷ "connection" ∷ "modify" ∷ "wired" ∷ "ipv4.method" ∷ "auto" ∷ [];
}

change_rolled_back_example :
    ((guarded broken_host printing plan_of_eth0 "/checkpoint/1" "t2" 100 idle).1.trace
      ≡ (change broken_host printing plan_of_eth0 idle).1.trace
        ++ checkpoint_command "CheckpointRollback" "/checkpoint/1" ∷ [])
    × ((guarded broken_host printing plan_of_eth0 "/checkpoint/1" "t2" 100 idle).1.pending ≡ [])
    × (is_ok (guarded broken_host printing plan_of_eth0 "/checkpoint/1" "t2" 100 idle).0 ≡ false)
unfolding change add_connection run strip lstrip rstrip
change_rolled_back_example =
    change_rolled_back broken_host printing plan_of_eth0 "/checkpoint/1" "t2" 100 idle
      (agent_error "no carrier") refl

one_change_at_a_time_example :
    (is_ok (apply_network_settings quiet_host printing dhcp "t2" 120 121 waiting).0 ≡ false)
    × ((apply_network_settings quiet_host printing dhcp "t2" 120 121 waiting).1.trace ≡ [])
    × (Dict.lookup "t1"
          (apply_network_settings quiet_host printing dhcp "t2" 120 121 waiting).1.pending
        ≡ some change_of_eth0)
unfolding Dict.lookup string_eq
one_change_at_a_time_example =
    one_change_at_a_time quiet_host printing dhcp "t2" "t1" 120 121 change_of_eth0 waiting
      (refl, tt) refl (omega arith)

abbrev eth0 : Interface
eth0 = record {
  name = "eth0";
  mac = "";
  state = "up";
  ip_address = "";
  prefix = none;
  gateway = "";
  connection = "";
  mode = "unknown";
  dns = [];
}

abbrev shown_after : NetworkState
shown_after = record {
  hostname = "panel";
  supported = false;
  selected_interface = "eth0";
  access_interface = "";
  interfaces = eth0 ∷ [];
}

apply-pending_example :
    (path : String) × (interface : String) × ((apply_network_settings quiet_host printing dhcp "t2"
        200 201 waiting).1.pending
      ≡ (
        "t2",
        record { path = path; interface = interface; expires_at = 201 + 60; state = shown_after },
      )
        ∷ [])
unfolding apply_network_settings ensure_no_pending prune_expired Dict.keep plan plan_known plan_for
    get_network_state list_interfaces interface_of named_interface route_interface route_of_address
    route_of mode_options ethernet_name create_checkpoint device_dbus_path guarded settle change
    add_connection register_checkpoint run strip lstrip rstrip lower join Dict.insert string_eq ◌<>◌
    after_prefix
apply-pending_example = apply-pending quiet_host printing dhcp "t2" 200 201 waiting shown_after refl

confirm_commits_example :
    (c : Checkpoint) × (Dict.lookup "t1" waiting.pending ≡ some c)
    × (120 < c.expires_at)
    × (shown ≡ c.state)
    × ((confirm_network_settings quiet_host printing "t1" "" 120 waiting).1.pending
        ≡ Dict.erase "t1" (prune_expired 120 waiting).pending)
    × ((before : List (List String)) × ((confirm_network_settings quiet_host printing "t1" "" 120
            waiting).1.trace
          ≡ before ++ checkpoint_command "CheckpointDestroy" c.path ∷ []))
unfolding confirm_network_settings confirm_found destroy checkpoint_call route_interface
    route_of_address route_of prune_expired Dict.keep Dict.lookup Dict.erase run strip lstrip rstrip
    string_eq
confirm_commits_example =
    confirm_commits quiet_host printing "t1" "" 120 waiting shown (refl, tt) refl
