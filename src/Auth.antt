-- ===== src/Auth.antt =====
-- app/api/security.py, and the part of app/core/state.py that it works on: the access users, the
-- sessions and the login failures. A time is a number of microseconds. A handler takes the state and
-- returns its result and the new state; what was written before a raise stays written.
pub mod Radius
pub mod Login
pub mod Users
pub mod Access
use amplifier_panel.Base.{
  ℕ, ◌+◌, ◌*◌, Bool, true, false, ◌&&◌, String, Option, none, some, List, [], ◌∷◌, ◌++◌, contains,
  find, count, ltb, ◌==◌, string_eq, if◌then◌else◌,
}
use amplifier_panel.Base.Dict
use amplifier_panel.Base.Dict.{Dict}
use amplifier_panel.Base.Result.{Result, ok, err}
use amplifier_panel.Base.Text.{◌<>◌, strip, before, is_empty, join}
use amplifier_panel.Passwords.{password_is_usable}
use amplifier_panel.Syslog.{Sent, send_audit}

pub data AuthMode : Type 0 where
  local_mode radius_mode : AuthMode

-- The settings of app/core/config.py that the handlers read, the port as its decimal text.
pub record Config : Type 0 where
  pub auth_mode : AuthMode
  pub login_max_attempts : ℕ
  pub login_window_seconds : ℕ
  pub session_max_age_seconds : ℕ
  pub trust_proxy_headers : Bool
  pub syslog_enabled : Bool
  pub radius_server : String
  pub radius_port : String

abbrev pub microseconds : ℕ → ℕ
microseconds seconds = seconds * 1000000

pub record User : Type 0 where
  pub username : String
  pub role : String
  pub active : Bool
  pub password_hash : Option String
  pub password_salt : Option String

pub record PublicUser : Type 0 where
  pub username : String
  pub role : String
  pub active : Bool
  pub password_set : Bool

pub record Session : Type 0 where
  pub username : String
  pub created_at : ℕ

pub record State : Type 0 where
  pub access_users : List User
  pub saved_users : List User
  pub auth_sessions : Dict String Session
  pub login_failures : Dict String (List ℕ)
  pub sent : List Sent

-- A `fastapi.HTTPException`, or an `OSError` of the file that holds the settings.
pub data Raised : Type 0 where
  http : ℕ → String → Raised
  os_error : Raised

pub record Request : Type 0 where
  pub forwarded_for : Option String
  pub client_host : Option String

unfoldable pub access_user_public : User → PublicUser
access_user_public u = record {
  username = u.username;
  role = u.role;
  active = u.active;
  password_set = password_is_usable u.password_hash u.password_salt;
}

-- The first record with exactly this name.
abbrev pub find_access_user : String → State → Option User
find_access_user username s = find (λ u. u.username == username) s.access_users

unfoldable pub normalize_username : String → Result Raised String
normalize_username username =
    let value = strip username in
    if is_empty value then err (http 400 "Username is required") else ok value

abbrev pub administrator : String
administrator = "Administrator"

abbrev pub is_administrator : User → Bool
is_administrator u = u.role == administrator && u.active

abbrev pub count_active_administrators : State → ℕ
count_active_administrators s = count is_administrator s.access_users

abbrev pub or_unknown : Option String → String
or_unknown none = "unknown"
or_unknown (some host) = host

unfoldable pub get_client_ip : Config → Request → String
get_client_ip cfg r =
    if cfg.trust_proxy_headers
    then elim r.forwarded_for [
      | none ↦ or_unknown r.client_host
      | some text ↦ if is_empty text then or_unknown r.client_host else strip (before b',' text)
    ]
    else or_unknown r.client_host

abbrev pub audit_event : Config → Request → String → String → String → State → State
audit_event cfg r action username details s = record s {
  sent = send_audit cfg.syslog_enabled action username (get_client_ip cfg r) details s.sent;
}

-- `json.dumps` of a bool.
abbrev json_bool : Bool → String
json_bool true = "true"
json_bool false = "false"

-- One turn of the loop of `audit_changes`, with the two values as JSON.
abbrev changed_value : String → Bool → String → String → List String
changed_value key same old new =
    if same then [] else (key <> ".before=" <> old <> "; " <> key <> ".after=" <> new) ∷ []

-- What `audit_changes` returns of the list of its details.
abbrev described : List String → String
described [] = "no_effective_changes=true"
described (change ∷ rest) = join "; " (change ∷ rest)

-- `audit_changes` on the public records of an account, whose keys stand in the order of `sorted`;
-- `quoted` is `json.dumps` of a text.
unfoldable pub audit_changes : (String → String) → PublicUser → PublicUser → String
audit_changes quoted old new = described (
    changed_value "active" (json_bool old.active == json_bool new.active) (json_bool old.active)
      (json_bool new.active)
    ++ changed_value "password_set" (json_bool old.password_set == json_bool new.password_set)
        (json_bool old.password_set) (json_bool new.password_set)
    ++ changed_value "role" (old.role == new.role) (quoted old.role) (quoted new.role)
    ++ changed_value "username" (old.username == new.username) (quoted old.username)
        (quoted new.username))

-- The token is the random text that `secrets.token_urlsafe` returns.
unfoldable pub create_session : String → String → ℕ → State → State
create_session username token now s = record s {
  auth_sessions =
      Dict.insert token (record { username = username; created_at = now }) s.auth_sessions;
}

-- `now - created_at > max_age`
abbrev pub is_expired : Config → ℕ → Session → Bool
is_expired cfg now session = ltb (session.created_at + microseconds cfg.session_max_age_seconds) now

unfoldable pub drop_session : String → String → State → Result Raised PublicUser × State
drop_session token detail s =
    (err (http 401 detail), record s { auth_sessions = Dict.erase token s.auth_sessions })

unfoldable pub session_user :
    Config → ℕ → String → Session → State → Result Raised PublicUser × State
session_user cfg now token session s =
    if is_expired cfg now session
    then drop_session token "Session expired" s
    else elim (find_access_user session.username s) [
      | none ↦ drop_session token "Not authenticated" s
      | some u ↦
          if u.active
          then (ok (access_user_public u), s)
          else drop_session token "Not authenticated" s
    ]

unfoldable pub get_current_user :
    Config → ℕ → Option String → State → Result Raised PublicUser × State
get_current_user cfg now none s = (err (http 401 "Not authenticated"), s)
get_current_user cfg now (some token) s =
    if is_empty token
    then (err (http 401 "Not authenticated"), s)
    else elim (Dict.lookup token s.auth_sessions) [
      | none ↦ (err (http 401 "Not authenticated"), s)
      | some session ↦ session_user cfg now token session s
    ]

-- The dependency that `require_roles` makes, after the current user was resolved.
abbrev pub allow : List String → PublicUser → Result Raised PublicUser
allow allowed u = if contains allowed u.role then ok u else err (http 403 "Not allowed")

abbrev pub allow_result : List String → Result Raised PublicUser → Result Raised PublicUser
allow_result allowed (ok u) = allow allowed u
allow_result allowed (err e) = err e

unfoldable pub require_roles :
    Config → List String → ℕ → Option String → State → Result Raised PublicUser × State
require_roles cfg allowed now token s =
    let (r, s') = get_current_user cfg now token s in (allow_result allowed r, s')
