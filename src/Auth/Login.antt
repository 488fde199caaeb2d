-- ===== src/Auth/Login.antt =====
-- The `login` and `logout` handlers of app/api/auth.py. The lock is released while the backend
-- checks the password, so a login is two steps, with other threads' work between them.
pub mod Limits
pub mod Sessions
use amplifier_panel.Base.{
  ℕ, ◌+◌, Bool, true, false, String, Option, none, some, List, [], ◌∷◌, ◌++◌, length, select, any,
  leb, ◌==◌, string_eq, not, if◌then◌else◌,
}
use amplifier_panel.Base.Dict
use amplifier_panel.Base.Dict.{Dict}
use amplifier_panel.Base.Result.{Result, ok, err}
use amplifier_panel.Base.Text.{◌<>◌, is_empty}
use amplifier_panel.Passwords.{verify_password}
use amplifier_panel.Auth.{
  Config, AuthMode, local_mode, radius_mode, User, PublicUser, Session, State, Raised, http,
  Request, access_user_public, find_access_user, normalize_username, get_client_ip, audit_event,
  create_session, is_expired, microseconds,
}
use amplifier_panel.Auth.Radius.{Reply, authenticate}

pub record LoginRequest : Type 0 where
  pub username : String
  pub password : String

abbrev pub or_empty : Option (List ℕ) → List ℕ
or_empty none = []
or_empty (some xs) = xs

-- The failures of an address that are still in the window, `timestamp >= now - window`.
abbrev pub recent_failures : Config → ℕ → String → State → List ℕ
recent_failures cfg now ip s =
    select (λ timestamp. leb now (timestamp + microseconds cfg.login_window_seconds))
      (or_empty (Dict.lookup ip s.login_failures))

abbrev pub set_failures : String → List ℕ → State → State
set_failures ip failures s = record s { login_failures = Dict.insert ip failures s.login_failures }

-- The first locked part: the rate limit, and the look-up of the account.
unfoldable pub login_begin : Config → Request → String → ℕ → State → Result Raised User × State
login_begin cfg r username now s =
    let ip = get_client_ip cfg r in
    let failures = recent_failures cfg now ip s in
    let s1 = set_failures ip failures s in
    let refused : Result Raised User × State = (
      err (http 401 "Invalid username or password"),
      audit_event cfg r "login_failed" username "unknown_or_inactive_user"
          (set_failures ip (failures ++ now ∷ []) s),
    ) in
    if leb cfg.login_max_attempts (length failures)
    then (
      err (http 429 "Too many login attempts. Try again later"),
      audit_event cfg r "login_rate_limited" username "" s1,
    )
    else elim (find_access_user username s) [
      | none ↦ refused
      | some u ↦ if u.active then (ok u, s1) else refused
    ]

abbrev pub mode_name : AuthMode → String
mode_name local_mode = "local"
mode_name radius_mode = "radius"

-- The check of the password, outside the lock.
unfoldable pub check_password :
    (String → List ℕ → ℕ → List ℕ) → Config → AuthMode → Reply → User → String → Result String Bool
check_password pbkdf2 cfg local_mode reply u password =
    ok (verify_password pbkdf2 password u.password_hash u.password_salt)
check_password pbkdf2 cfg radius_mode reply u password = authenticate cfg reply

-- The loop that drops the sessions which have expired.
abbrev pub drop_expired : Config → ℕ → Dict String Session → Dict String Session
drop_expired cfg now sessions = Dict.keep (λ _ session. not (is_expired cfg now session)) sessions

abbrev pub has_session : String → Dict String Session → Bool
has_session username sessions =
    any (λ (session : Session). session.username == username) (Dict.values sessions)

-- The second locked part: a failure is of the time `now` at which the login began, and a session of the
-- time `session_now` that is read under the lock.
unfoldable pub login_finish :
    Config
    → Request
    → String
    → User
    → Bool
    → String
    → ℕ
    → ℕ
    → State
    → Result Raised PublicUser × State
login_finish cfg r username u false token now session_now s =
    let ip = get_client_ip cfg r in
    (
      err (http 401 "Invalid username or password"),
      audit_event cfg r "login_failed" username (mode_name cfg.auth_mode <> "_reject")
          (set_failures ip (or_empty (Dict.lookup ip s.login_failures) ++ now ∷ []) s),
    )
login_finish cfg r username u true token now session_now s =
    let ip = get_client_ip cfg r in
    let sessions = drop_expired cfg session_now s.auth_sessions in
    let s1 = record s {
      auth_sessions = sessions;
      login_failures = Dict.erase ip s.login_failures;
    } in
    let public_user = access_user_public u in
    if has_session username sessions
    then (
      err (
          http 409
            "This account is already logged in. Log out of the existing session or wait for it to expire."),
      audit_event cfg r "login_session_conflict" username "" s1,
    )
    else (
      ok public_user,
      audit_event cfg r "login_success" username ("role=" <> public_user.role)
          (create_session username token session_now s1),
    )

unfoldable pub login_check :
    (String → List ℕ → ℕ → List ℕ)
    → Config
    → Request
    → String
    → String
    → Reply
    → String
    → ℕ
    → ℕ
    → (State → State)
    → (User → User)
    → Result Raised User × State
    → Result Raised PublicUser × State
login_check pbkdf2 cfg r username password reply token now session_now between edit (err e, s) =
    (err e, s)
login_check pbkdf2 cfg r username password reply token now session_now between edit (ok found, s) =
    let u = edit found in
    elim (check_password pbkdf2 cfg cfg.auth_mode reply u password) [
      | err message ↦ (
        err (http 503 "Authentication server (RADIUS) is unavailable. Try again later."),
        audit_event cfg r "login_radius_unavailable" username message (between s),
      )
      | ok authenticated ↦
          login_finish cfg r username u authenticated token now session_now (between s)
    ]

-- The whole handler. `between` is what other threads do to the state while the lock is released and
-- `edit` what they do to the record that was found, which the handler holds by reference;
-- `now` and `session_now` are the two readings of the clock, and `token` is the new session's token.
unfoldable pub login :
    (String → List ℕ → ℕ → List ℕ)
    → Config
    → Request
    → LoginRequest
    → Reply
    → String
    → ℕ
    → ℕ
    → (State → State)
    → (User → User)
    → State
    → Result Raised PublicUser × State
login pbkdf2 cfg r body reply token now session_now between edit s =
    elim (normalize_username body.username) [
      | err e ↦ (err e, s)
      | ok username ↦
          login_check pbkdf2 cfg r username body.password reply token now session_now between edit
            (login_begin cfg r username now s)
    ]

-- `logout`, for a user that the session dependency has resolved.
unfoldable pub logout : Config → Request → PublicUser → Option String → State → State
logout cfg r user none s = audit_event cfg r "logout" user.username "" s
logout cfg r user (some token) s =
    audit_event cfg r "logout" user.username ""
      (if is_empty token then s else record s { auth_sessions = Dict.erase token s.auth_sessions })
