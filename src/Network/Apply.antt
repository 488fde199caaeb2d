-- ===== src/Network/Apply.antt =====
-- `apply_network_settings` and `confirm_network_settings` of tools/network_agent.py.
use amplifier_panel.Base.{
  ℕ, ◌+◌, Bool, true, false, not, ◌||◌, ◌&&◌, String, Option, none, some, List, [], ◌∷◌, ◌==◌,
  string_eq, leb, map, if◌then◌else◌,
}
use amplifier_panel.Base.Dict
use amplifier_panel.Base.Dict.{Dict}
use amplifier_panel.Base.Result.{Result, ok, err}
use amplifier_panel.Base.Text.{◌<>◌, strip, is_empty, is_space, lower, pieces, stripped_words, join}
use amplifier_panel.Network.Address.{ipv4_address, prefix, same_network}
use amplifier_panel.Network.Host.{
  Host, Interface, NetworkState, Checkpoint, Agent, Failure, agent_error, other_error, M, ◌>>=◌,
  ◌>>◌, pure, fail, run, nmcli,
}
use amplifier_panel.Network.Commands.{
  create_checkpoint, checkpoint_call, route_interface, get_network_state,
}

-- `payload.get("dns", [])`: a text, or a list of texts.
pub data Dns : Type 0 where
  one_text : String → Dns
  items : List String → Dns

-- The payload's fields, as `str(payload.get(…, ""))`.
pub record Payload : Type 0 where
  pub interface : String
  pub requester_ip : String
  pub mode : String
  pub dns : Dns
  pub ip_address : String
  pub netmask : String
  pub gateway : String

-- `str(ipaddress.IPv4Address(n))` and `str` of a prefix length are parameters.
pub record Printing : Type 0 where
  pub show_address : ℕ → String
  pub show_prefix : ℕ → String

abbrev pub checkpoint_timeout : ℕ
checkpoint_timeout = 60

-- `_prune_expired_checkpoints`
unfoldable pub prune_expired : ℕ → Agent → Agent
prune_expired now s = record s {
  pending = Dict.keep (λ _ (c : Checkpoint). not (leb c.expires_at now)) s.pending;
}

abbrev pub is_nil : Dict String Checkpoint → Bool
is_nil [] = true
is_nil (_ ∷ _) = false

unfoldable pub ensure_no_pending : ℕ → M (Unit {0})
ensure_no_pending now s =
    let s' = prune_expired now s in
    if is_nil s'.pending then (ok tt, s') else (
      err (
          agent_error
            "A network change is already awaiting confirmation. Confirm it or wait for automatic rollback."),
      s',
    )

-- `_register_checkpoint`
unfoldable pub register_checkpoint : String → ℕ → String → String → NetworkState → Agent → Agent
register_checkpoint token now path interface snapshot s = record s {
  pending =
      Dict.insert token
        (record {
          path = path;
          interface = interface;
          expires_at = now + checkpoint_timeout;
          state = snapshot;
        })
        s.pending;
}

abbrev pub dns_values : Dns → List String
dns_values (one_text s) = stripped_words (pieces (λ c. is_space c || leb c 44 && leb 44 c) s)
dns_values (items vs) = stripped_words vs

unfoldable pub parse_all : List String → Option (List ℕ)
parse_all [] = some []
parse_all (v ∷ vs) = elim (ipv4_address v) [
  | none ↦ none
  | some n ↦ elim (parse_all vs) [ none ↦ none | some ns ↦ some (n ∷ ns) ]
]

abbrev pub bad_format : String
bad_format = "The IP address, gateway, or DNS has an invalid format."

module _ (p : Printing) where
  unfoldable pub static_options : ℕ → ℕ → ℕ → List ℕ → List String
  static_options address length gateway dns =
      "ipv4.method"
      ∷ "manual"
      ∷ "ipv4.addresses"
      ∷ (p.show_address address <> "/" <> p.show_prefix length)
      ∷ "ipv4.gateway"
      ∷ p.show_address gateway
      ∷ "ipv4.dns"
      ∷ join "," (map p.show_address dns)
      ∷ []

  unfoldable pub checked_options : ℕ → ℕ → ℕ → List ℕ → Result String (List String)
  checked_options length address gateway dns =
      if same_network length address gateway
      then ok (static_options address length gateway dns)
      else err "The gateway must be in the same subnet as the IP address."

  -- The options of `nmcli connection modify` for a static address, or the error's text.
  unfoldable pub static_command : Payload → Result String (List String)
  static_command b = elim (prefix b.netmask) [
    | err message ↦ err message
    | ok length ↦ elim (ipv4_address (strip b.ip_address)) [
      | none ↦ err bad_format
      | some address ↦ elim (ipv4_address (strip b.gateway)) [
        | none ↦ err bad_format
        | some gateway ↦ elim (parse_all (dns_values b.dns)) [
          | none ↦ err bad_format
          | some dns ↦ checked_options length address gateway dns
        ]
      ]
    ]
  ]

  -- The options for the mode; the modes have been checked.
  unfoldable pub mode_options : String → Payload → Result String (List String)
  mode_options mode b =
      if mode == "dhcp"
      then ok (
          "ipv4.method" ∷ "auto" ∷ "ipv4.addresses" ∷ "" ∷ "ipv4.gateway" ∷ "" ∷ "ipv4.dns" ∷ ""
          ∷ [])
      else static_command b

abbrev pub lift : {A : Type 0} → Result String A → M A
lift (ok a) s = (ok a, s)
lift (err message) s = (err (agent_error message), s)

abbrev pub check : Bool → String → M (Unit {0})
check true message s = (ok tt, s)
check false message s = (err (agent_error message), s)

-- Why a change may not be asked for: the interface, the session's route and the mode.
pub record Plan : Type 0 where
  pub interface : String
  pub requester_ip : String
  pub connection : String
  pub create_connection : Bool
  pub command : List String

-- `{item["name"]: item …}[interface]`: the last of that name.
abbrev pub last_interface : String → List Interface → Option Interface
last_interface name [] = none
last_interface name (i ∷ interfaces) = elim (last_interface name interfaces) [
  | some later ↦ some later
  | none ↦ if i.name == name then some i else none
]

module _ (h : Host) (p : Printing) where
  unfoldable pub ethernet_name : String → M String
  ethernet_name interface = do
    kind ← nmcli h ("-g" ∷ "GENERAL.TYPE" ∷ "device" ∷ "show" ∷ interface ∷ [])
    check (kind == "ethernet") "Only host Ethernet interfaces can be configured."
    pure ("amp-" <> interface)

  unfoldable pub plan_for : Payload → String → String → String → Interface → M Plan
  plan_for b interface requester_ip mode known = do
    access_interface ← route_interface h requester_ip
    check (is_empty access_interface || interface == access_interface) (
        "This Amp Panel connection uses interface " <> access_interface <> ". Changing "
        <> interface <> " from this session cannot safely validate reachability.")
    check (mode == "dhcp" || mode == "static") "Select DHCP or static configuration."
    connection ←
        if is_empty known.connection then ethernet_name interface else pure known.connection
    options ← lift (mode_options p mode b)
    pure (record {
      interface = interface;
      requester_ip = requester_ip;
      connection = connection;
      create_connection = is_empty known.connection;
      command = "nmcli" ∷ "connection" ∷ "modify" ∷ connection ∷ options;
    })

  unfoldable pub plan_known : Payload → String → Option Interface → M Plan
  plan_known b interface none = fail "The selected host interface does not exist."
  plan_known b interface (some known) =
      plan_for b interface (strip b.requester_ip) (lower (strip b.mode)) known

  -- All that is read and checked before the checkpoint is made.
  unfoldable pub plan : Payload → M Plan
  plan b = do
    current ← get_network_state h ""
    plan_known b (strip b.interface) (last_interface (strip b.interface) current.interfaces)

  unfoldable pub add_connection : Plan → M (Unit {0})
  add_connection q =
      if q.create_connection
      then (do
        run h (
            "nmcli" ∷ "connection" ∷ "add" ∷ "type" ∷ "ethernet" ∷ "ifname" ∷ q.interface
            ∷ "con-name" ∷ q.connection ∷ [])
        pure tt)
      else pure tt

  -- What runs under the checkpoint.
  unfoldable pub change : Plan → M NetworkState
  change q = do
    add_connection q
    run h q.command
    run h ("nmcli" ∷ "connection" ∷ "up" ∷ q.connection ∷ [])
    get_network_state h q.requester_ip

  -- The rollback: its own `NetworkAgentError` is dropped, and the first error is raised again.
  abbrev pub after_rollback :
      Failure → Result Failure (Unit {0}) × Agent → Result Failure NetworkState × Agent
  after_rollback e (ok _, s) = (err e, s)
  after_rollback e (err (agent_error _), s) = (err e, s)
  after_rollback e (err other_error, s) = (err other_error, s)

  unfoldable pub settle :
      Plan
      → String
      → String
      → ℕ
      → Result Failure NetworkState × Agent
      → Result Failure NetworkState × Agent
  settle q checkpoint_path token later (ok result, s) =
      (ok result, register_checkpoint token later checkpoint_path q.interface result s)
  settle q checkpoint_path token later (err e, s) =
      after_rollback e (checkpoint_call h "CheckpointRollback" checkpoint_path s)

  -- The change, under its checkpoint.
  unfoldable pub guarded : Plan → String → String → ℕ → M NetworkState
  guarded q checkpoint_path token later s = settle q checkpoint_path token later (change q s)

  -- `now` and `later` are readings of the monotonic clock, in seconds; `token` is the new token, which
  -- the answer carries beside the state.
  unfoldable pub apply_network_settings : Payload → String → ℕ → ℕ → M NetworkState
  apply_network_settings b token now later = do
    ensure_no_pending now
    q ← plan b
    checkpoint_path ← create_checkpoint h q.interface
    guarded q checkpoint_path token later

  unfoldable pub destroy : String → Checkpoint → M NetworkState
  destroy token c = do
    checkpoint_call h "CheckpointDestroy" c.path
    (λ s. (ok tt, record s { pending = Dict.erase token s.pending }))
    pure c.state

  unfoldable pub confirm_found : String → String → Option Checkpoint → M NetworkState
  confirm_found token client_ip none =
      fail "The network confirmation token is invalid or has expired."
  confirm_found token client_ip (some c) = do
    access_interface ← route_interface h client_ip
    check (is_empty access_interface || access_interface == c.interface)
        "The confirmation did not arrive through the changed interface. The previous settings will be restored automatically."
    destroy token c

  unfoldable pub confirm_network_settings : String → String → ℕ → M NetworkState
  confirm_network_settings token client_ip now s =
      let s' = prune_expired now s in
      confirm_found token client_ip (Dict.lookup token s'.pending) s'
