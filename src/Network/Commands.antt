-- ===== src/Network/Commands.antt =====
-- The reading commands and the checkpoint calls of tools/network_agent.py.
use amplifier_panel.Base.{
  ℕ, Bool, true, false, not, ◌||◌, String, Option, none, some, List, [], ◌∷◌, ◌==◌, string_eq,
  select, if◌then◌else◌,
}
use amplifier_panel.Base.Text.{
  strip, is_empty, or_text, after_prefix, lower, pieces, stripped_words, ends_line,
}
use amplifier_panel.Network.Host.{
  Host, Address, Route, Interface, NetworkState, M, ◌>>=◌, ◌>>◌, pure, fail, or_else,
  or_other_error, run, nmcli, busctl,
}

abbrev pub starts : String → String → Bool
starts prefix s = elim (after_prefix prefix s) [ none ↦ false | some _ ↦ true ]

-- The object path in busctl's answer `o "path"`, if it lies below a prefix.
abbrev pub object_path : String → String → Option (List String) → M String
object_path prefix message none = or_other_error none
object_path prefix message (some (kind ∷ path ∷ [])) =
    if kind == "o" then (if starts prefix path then pure path else fail message) else fail message
object_path prefix message (some _) = fail message

-- One `nmcli` connection's details, `_connection_details`.
pub record Details : Type 0 where
  pub connection : String
  pub mode : String
  pub dns : List String

abbrev pub unknown_details : Details
unknown_details = record { connection = ""; mode = "unknown"; dns = [] }

abbrev pub mode_of : String → String
mode_of method =
    if method == "auto" then "dhcp" else if method == "manual" then "static" else method

abbrev pub default_routes : List Route → List Route
default_routes routes = select (λ r. not (is_empty r.dev)) routes

-- A later route of the same interface replaces the earlier in the dict.
abbrev pub last_route : String → List Route → Option Route
last_route name [] = none
last_route name (r ∷ routes) = elim (last_route name routes) [
  | some later ↦ some later
  | none ↦ if r.dev == name then some r else none
]

abbrev pub gateway_of : Option Route → String
gateway_of none = ""
gateway_of (some r) = r.gateway

abbrev pub first_dev : List Route → String
first_dev [] = ""
first_dev (r ∷ _) = r.dev

abbrev pub first_name : List Interface → String
first_name [] = ""
first_name (i ∷ _) = i.name

abbrev pub ip_of : Option (String × ℕ) → String
ip_of none = ""
ip_of (some (ip, _)) = ip

abbrev pub prefix_of : Option (String × ℕ) → Option ℕ
prefix_of none = none
prefix_of (some (_, p)) = some p

module _ (h : Host) where
  unfoldable pub device_dbus_path : String → M String
  device_dbus_path interface = do
    output ← busctl h "GetDeviceByIpIface" "s" (interface ∷ [])
    object_path "/org/freedesktop/NetworkManager/Devices/"
        "NetworkManager did not return a valid device path." (h.shlex_split output)

  -- A checkpoint of 60 seconds that also deletes new connections (flag 2).
  unfoldable pub create_checkpoint : String → M String
  create_checkpoint interface = do
    device_path ← device_dbus_path interface
    output ← busctl h "CheckpointCreate" "aouu" ("1" ∷ device_path ∷ "60" ∷ "2" ∷ [])
    object_path "/org/freedesktop/NetworkManager/Checkpoint/"
        "NetworkManager returned an invalid checkpoint." (h.shlex_split output)

  unfoldable pub checkpoint_call : String → String → M (Unit {0})
  checkpoint_call method checkpoint_path = do busctl h method "o" (checkpoint_path ∷ []); pure tt

  unfoldable pub details_of : String → String → M Details
  details_of interface connection =
      if is_empty connection || connection == "--" then pure unknown_details else do
        method ← nmcli h ("-g" ∷ "ipv4.method" ∷ "connection" ∷ "show" ∷ connection ∷ [])
        dns_text ← nmcli h ("-g" ∷ "IP4.DNS" ∷ "device" ∷ "show" ∷ interface ∷ [])
        pure (record {
          connection = connection;
          mode = mode_of method;
          dns = stripped_words (pieces ends_line dns_text);
        })

  -- A `NetworkAgentError` on the way gives the unknown details.
  unfoldable pub connection_details : String → M Details
  connection_details interface s = or_else unknown_details (
      (do
        connection ← nmcli h ("-g" ∷ "GENERAL.CONNECTION" ∷ "device" ∷ "show" ∷ interface ∷ [])
        details_of interface connection)
        s)

  unfoldable pub named_interface : List Route → M String
  named_interface [] =
      fail "Could not determine which interface carries the administrator connection."
  named_interface (r ∷ _) =
      let interface = strip r.dev in
      if interface == "lo"
      then pure ""
      else if is_empty interface
      then fail "Could not determine which interface carries the administrator connection."
      else pure interface

  unfoldable pub route_of : Bool → String → M String
  route_of true address = pure ""
  route_of false address = do
    output ← run h ("ip" ∷ "-j" ∷ "route" ∷ "get" ∷ address ∷ [])
    routes ← or_other_error (h.routes (or_text output "[]"))
    named_interface routes

  unfoldable pub route_of_address : Option (Bool × String) → M String
  route_of_address none = fail "Could not determine the administrator connection address."
  route_of_address (some (is_loopback, address)) = route_of is_loopback address

  unfoldable pub route_interface : String → M String
  route_interface client_ip = route_of_address (h.client_address (strip client_ip))

  unfoldable pub interface_of : List Route → Address → Details → Interface
  interface_of routes a d = record {
    name = a.name;
    mac = a.mac;
    state = lower a.operstate;
    ip_address = ip_of a.ipv4;
    prefix = prefix_of a.ipv4;
    gateway = gateway_of (last_route a.name (default_routes routes));
    connection = d.connection;
    mode = d.mode;
    dns = d.dns;
  }

  -- The loop over the addresses; a nameless interface and `lo` are passed over.
  unfoldable pub list_interfaces : List Route → List Address → M (List Interface)
  list_interfaces routes [] = pure []
  list_interfaces routes (a ∷ addresses) =
      let rest = list_interfaces routes addresses in
      if is_empty a.name || a.name == "lo" then rest else do
        d ← if h.nmcli_available then connection_details a.name else pure unknown_details
        interfaces ← rest
        pure (interface_of routes a d ∷ interfaces)

  unfoldable pub get_network_state : String → M NetworkState
  get_network_state client_ip = do
    address_text ← run h ("ip" ∷ "-j" ∷ "address" ∷ "show" ∷ [])
    addresses ← or_other_error (h.addresses (or_text address_text "[]"))
    route_text ← run h ("ip" ∷ "-j" ∷ "route" ∷ "show" ∷ "default" ∷ [])
    routes ← or_other_error (h.routes (or_text route_text "[]"))
    interfaces ← list_interfaces routes addresses
    access_interface ← if is_empty client_ip then pure "" else route_interface client_ip
    pure (record {
      hostname = h.hostname;
      supported = h.nmcli_available;
      selected_interface = or_text (first_dev (default_routes routes)) (first_name interfaces);
      access_interface = access_interface;
      interfaces = interfaces;
    })
