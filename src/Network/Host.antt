-- ===== src/Network/Host.antt =====
-- The host as the agent of tools/network_agent.py sees it: commands that are run one after the other,
-- and the pending checkpoints of the module. What the host answers may depend on every command that
-- it was given before, so `respond` takes that history.
use amplifier_panel.Base.{
  ℕ, Bool, String, Option, none, some, List, [], ◌∷◌, ◌++◌, eqb, if◌then◌else◌,
}
use amplifier_panel.Base.Dict.{Dict}
use amplifier_panel.Base.Result.{Result, ok, err}
use amplifier_panel.Base.Text.{◌<>◌, strip, or_text}

-- What a command gives: its exit status and output, or an `OSError` or a timeout with its text.
pub data Reply : Type 0 where
  finished : ℕ → String → String → Reply
  raised : String → Reply

pub record Address : Type 0 where
  pub name : String
  pub mac : String
  pub operstate : String
  pub ipv4 : Option (String × ℕ)

pub record Route : Type 0 where
  pub dev : String
  pub gateway : String

-- Python's library, and the host. `addresses` and `routes` are `json.loads` of the output of `ip -j`
-- (the fields that the agent reads), `shlex_split` is `shlex.split`, and `client_address` is
-- `ipaddress.ip_address`, with the flag `is_loopback` and the text of the address; `none` stands for
-- the exception. The state of the host is what has been run so far.
pub record Host : Type 0 where
  pub respond : List (List String) → List String → Reply
  pub addresses : String → Option (List Address)
  pub routes : String → Option (List Route)
  pub shlex_split : String → Option (List String)
  pub client_address : String → Option (Bool × String)
  pub hostname : String
  pub nmcli_available : Bool

pub record Interface : Type 0 where
  pub name : String
  pub mac : String
  pub state : String
  pub ip_address : String
  pub prefix : Option ℕ
  pub gateway : String
  pub connection : String
  pub mode : String
  pub dns : List String

pub record NetworkState : Type 0 where
  pub hostname : String
  pub supported : Bool
  pub selected_interface : String
  pub access_interface : String
  pub interfaces : List Interface

pub record Checkpoint : Type 0 where
  pub path : String
  pub interface : String
  pub expires_at : ℕ
  pub state : NetworkState

pub record Agent : Type 0 where
  pub trace : List (List String)
  pub pending : Dict String Checkpoint

-- A `NetworkAgentError` with its text, or another exception.
pub data Failure : Type 0 where
  agent_error : String → Failure
  other_error : Failure

abbrev pub or_else : {A : Type 0} → A → Result Failure A × Agent → Result Failure A × Agent
or_else a (ok b, s) = (ok b, s)
or_else a (err (agent_error _), s) = (ok a, s)
or_else a (err other_error, s) = (err other_error, s)

abbrev pub M : Type 0 → Type 0
M A = Agent → Result Failure A × Agent

abbrev pub continue : {A B : Type 0} → Result Failure A → (A → M B) → M B
continue (ok a) f s = f a s
continue (err e) f s = (err e, s)

infixl 10 ◌>>=◌ ◌>>◌
abbrev pub ◌>>=◌ : {A B : Type 0} → M A → (A → M B) → M B
◌>>=◌ m f s = let (r, s') = m s in continue r f s'

abbrev pub ◌>>◌ : {A B : Type 0} → M A → M B → M B
m >> k = m >>= λ _. k

abbrev pub pure : {A : Type 0} → A → M A
pure a s = (ok a, s)

abbrev pub fail : {A : Type 0} → String → M A
fail message s = (err (agent_error message), s)

-- `json.loads` and the like, whose exception is not a `NetworkAgentError`.
abbrev pub or_other_error : {A : Type 0} → Option A → M A
or_other_error none s = (err other_error, s)
or_other_error (some a) s = (ok a, s)

abbrev first_word : List String → String
first_word [] = ""
first_word (w ∷ _) = w

abbrev output_of : List String → Reply → Result Failure String
output_of command (raised text) =
    err (agent_error ("Could not run " <> first_word command <> ": " <> text))
output_of command (finished code out error) =
    if eqb code 0
    then ok (strip out)
    else err (agent_error (or_text (strip error) (or_text (strip out) "Unknown command error")))

module _ (h : Host) where
  -- `_run`
  unfoldable pub run : List String → M String
  run command s =
      (output_of command (h.respond s.trace command), record s { trace = s.trace ++ command ∷ [] })

  -- `_nmcli`
  abbrev pub nmcli : List String → M String
  nmcli arguments = run ("nmcli" ∷ arguments)

  -- `_busctl`
  abbrev pub busctl : String → String → List String → M String
  busctl method signature arguments = run (
      "busctl" ∷ "call" ∷ "org.freedesktop.NetworkManager" ∷ "/org/freedesktop/NetworkManager"
      ∷ "org.freedesktop.NetworkManager" ∷ method ∷ signature ∷ arguments)
