-- ===== src/Network/Keeps.antt =====
-- What the commands of tools/network_agent.py leave alone: the pending checkpoints.
use amplifier_panel.Base.{
  ◌≡◌, refl, ◌∙◌, Bool, true, false, String, Option, none, some, List, [], ◌∷◌, string_eq,
  if◌then◌else◌,
}
use amplifier_panel.Base.Result.{Result, ok, err}
use amplifier_panel.Base.Text.{is_empty, strip}
use amplifier_panel.Network.Host.{
  Host, Address, Route, Interface, Agent, Failure, agent_error, other_error, M, continue, ◌>>=◌,
  pure, fail, run, or_else, or_other_error,
}
use amplifier_panel.Network.Commands.{
  create_checkpoint, device_dbus_path, checkpoint_call, object_path, connection_details, details_of,
  route_interface, route_of, route_of_address, named_interface, list_interfaces, get_network_state,
  unknown_details,
}
use amplifier_panel.Network.Apply.{
  Payload, Printing, Plan, lift, check, ethernet_name, plan_for, plan_known, plan, add_connection,
  change,
}

-- `m` leaves the pending checkpoints alone, whether it returns or raises.
pub record Keeps {A : Type 0} (m : M A) : Type 0 where
  pub at : (s : Agent) → (m s).1.pending ≡ s.pending

module _ {A : Type 0} where
  Keeps-pure : (a : A) → Keeps (pure a)
  Keeps-pure a = record { at = λ s. refl }

  Keeps-fail : (message : String) → Keeps (fail {A = A} message)
  Keeps-fail message = record { at = λ s. refl }

  Keeps-or_other_error : (o : Option A) → Keeps (or_other_error o)
  Keeps-or_other_error none = record { at = λ s. refl }
  Keeps-or_other_error (some a) = record { at = λ s. refl }

  Keeps-lift : (r : Result String A) → Keeps (lift r)
  Keeps-lift (ok a) = record { at = λ s. refl }
  Keeps-lift (err e) = record { at = λ s. refl }

  Keeps-if : (b : Bool) (m n : M A) → Keeps m → Keeps n → Keeps (if b then m else n)
  Keeps-if true m n km kn = km
  Keeps-if false m n km kn = kn

  pending-or_else : (a : A) (r : Result Failure A × Agent) → (or_else a r).1.pending ≡ r.1.pending
  pending-or_else a (ok b, s) = refl
  pending-or_else a (err (agent_error e), s) = refl
  pending-or_else a (err other_error, s) = refl

  Keeps-or_else : (a : A) (m : M A) → Keeps m → Keeps (λ s. or_else a (m s))
  Keeps-or_else a m km = record { at = λ s. pending-or_else a (m s) ∙ km.at s }

module _ {A B : Type 0} where
  pending-continue :
      (r : Result Failure A) (f : A → M B) (s : Agent)
      → ((a : A) → Keeps (f a))
      → (continue r f s).1.pending ≡ s.pending
  pending-continue (ok a) f s kf = (kf a).at s
  pending-continue (err e) f s kf = refl

  Keeps-bind : (m : M A) (f : A → M B) → Keeps m → ((a : A) → Keeps (f a)) → Keeps (m >>= f)
  Keeps-bind m f km kf = record { at = λ s. pending-continue (m s).0 f (m s).1 kf ∙ km.at s }

  Keeps-then : (m : M A) (n : M B) → Keeps m → Keeps n → Keeps (m >>= λ _. n)
  Keeps-then m n km kn = Keeps-bind m (λ _. n) km (λ _. kn)

Keeps-check : (b : Bool) (message : String) → Keeps (check b message)
Keeps-check true message = record { at = λ s. refl }
Keeps-check false message = record { at = λ s. refl }

ruleset keeps_rules =
    (Keeps-pure, Keeps-fail, Keeps-or_other_error, Keeps-lift, Keeps-if, Keeps-bind, Keeps-check)

module _ (h : Host) where
  Keeps-run : (command : List String) → Keeps (run h command)
  unfolding run
  Keeps-run command = record { at = λ s. refl }

  Keeps-object_path :
      (prefix message : String) (words : Option (List String))
      → Keeps (object_path prefix message words)
  Keeps-object_path prefix message none = record { at = λ s. refl }
  Keeps-object_path prefix message (some []) = record { at = λ s. refl }
  Keeps-object_path prefix message (some (a ∷ [])) = record { at = λ s. refl }
  Keeps-object_path prefix message (some (a ∷ b ∷ [])) = search keeps_rules
  Keeps-object_path prefix message (some (a ∷ b ∷ c ∷ l)) = record { at = λ s. refl }

  pub Keeps-create_checkpoint : (interface : String) → Keeps (create_checkpoint h interface)
  unfolding create_checkpoint device_dbus_path
  Keeps-create_checkpoint interface = search (keeps_rules, Keeps-run, Keeps-object_path)

  pub Keeps-checkpoint_call : (method path : String) → Keeps (checkpoint_call h method path)
  unfolding checkpoint_call
  Keeps-checkpoint_call method path = search (keeps_rules, Keeps-run)

  Keeps-details_of : (interface connection : String) → Keeps (details_of h interface connection)
  unfolding details_of
  Keeps-details_of interface connection = search (keeps_rules, Keeps-run)

  Keeps-connection_details : (interface : String) → Keeps (connection_details h interface)
  unfolding connection_details
  Keeps-connection_details interface =
      Keeps-or_else unknown_details _
        (Keeps-bind _ _ (Keeps-run _) (λ connection. Keeps-details_of interface connection))

  Keeps-named_interface : (routes : List Route) → Keeps (named_interface h routes)
  unfolding named_interface
  Keeps-named_interface [] = search keeps_rules
  Keeps-named_interface (r ∷ routes) = search keeps_rules

  Keeps-route_of : (is_loopback : Bool) (address : String) → Keeps (route_of h is_loopback address)
  unfolding route_of
  Keeps-route_of true address = search keeps_rules
  Keeps-route_of false address = search (keeps_rules, Keeps-run, Keeps-named_interface)

  Keeps-route_of_address : (o : Option (Bool × String)) → Keeps (route_of_address h o)
  unfolding route_of_address
  Keeps-route_of_address none = search keeps_rules
  Keeps-route_of_address (some (loopback, address)) = Keeps-route_of loopback address

  pub Keeps-route_interface : (client_ip : String) → Keeps (route_interface h client_ip)
  unfolding route_interface
  Keeps-route_interface client_ip = Keeps-route_of_address (h.client_address (strip client_ip))

  Keeps-details :
      (interface : String)
      → Keeps (if h.nmcli_available then connection_details h interface else pure unknown_details)
  Keeps-details interface = search (keeps_rules, Keeps-connection_details)

  Keeps-list_interfaces :
      (routes : List Route) (addresses : List Address) → Keeps (list_interfaces h routes addresses)
  unfolding list_interfaces
  Keeps-list_interfaces routes [] = search keeps_rules
  Keeps-list_interfaces routes (a ∷ addresses) =
      let rest = Keeps-list_interfaces routes addresses in
      Keeps-if _ _ _ rest
        (Keeps-bind _ _ (Keeps-details a.name) (λ d. Keeps-bind _ _ rest (λ l. Keeps-pure _)))

  Keeps-access :
      (client_ip : String)
      → Keeps (if is_empty client_ip then pure "" else route_interface h client_ip)
  Keeps-access client_ip = search (keeps_rules, Keeps-route_interface)

  Keeps-get_network_state : (client_ip : String) → Keeps (get_network_state h client_ip)
  unfolding get_network_state
  Keeps-get_network_state client_ip =
      search (keeps_rules, Keeps-run, Keeps-list_interfaces, Keeps-access) depth 14

  module _ (p : Printing) where
    Keeps-ethernet_name : (interface : String) → Keeps (ethernet_name h p interface)
    unfolding ethernet_name
    Keeps-ethernet_name interface = search (keeps_rules, Keeps-run) depth 8

    Keeps-connection :
        (known : Interface) (interface : String)
        → Keeps (
            if is_empty known.connection
            then ethernet_name h p interface
            else pure known.connection)
    Keeps-connection known interface = search (keeps_rules, Keeps-ethernet_name)

    Keeps-plan_for :
        (b : Payload) (interface requester_ip mode : String) (known : Interface)
        → Keeps (plan_for h p b interface requester_ip mode known)
    unfolding plan_for
    Keeps-plan_for b interface requester_ip mode known =
        search (keeps_rules, Keeps-route_interface, Keeps-connection) depth 14

    Keeps-plan_known :
        (b : Payload) (interface : String) (o : Option Interface)
        → Keeps (plan_known h p b interface o)
    unfolding plan_known
    Keeps-plan_known b interface none = search keeps_rules
    Keeps-plan_known b interface (some known) = Keeps-plan_for b interface _ _ known

    pub Keeps-plan : (b : Payload) → Keeps (plan h p b)
    unfolding plan
    Keeps-plan b = Keeps-bind _ _ (Keeps-get_network_state "") (λ current. Keeps-plan_known b _ _)

    Keeps-add_connection : (q : Plan) → Keeps (add_connection h p q)
    unfolding add_connection
    Keeps-add_connection q = search (keeps_rules, Keeps-run)

    pub Keeps-change : (q : Plan) → Keeps (change h p q)
    unfolding change
    Keeps-change q =
        search (keeps_rules, Keeps-add_connection, Keeps-run, Keeps-get_network_state) depth 10
