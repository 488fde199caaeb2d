-- ===== src/Examples/Accounts.antt =====
-- Runs of the accounts, the sessions and the passwords.
use amplifier_panel.Base.{
  ℕ, ◌≡◌, ◌≤◌, ◌↔◌, refl, true, false, String, none, some, List, [], ◌∷◌, arith, string_eq,
}
use amplifier_panel.Base.Dict
use amplifier_panel.Base.Dict.{Dict}
use amplifier_panel.Base.Result.{ok, err}
use amplifier_panel.Base.Text.{strip, lstrip, rstrip}
use amplifier_panel.Passwords.{hash_password, verify_password}
use amplifier_panel.Passwords.RoundTrip.{verify_password-hash_password}
use amplifier_panel.Auth.{
  Config, radius_mode, User, State, http, Request, normalize_username, get_client_ip,
  get_current_user, access_user_public, count_active_administrators,
}
use amplifier_panel.Auth.Access.{IsLoggedIn, get_current_user_iff}
use amplifier_panel.Auth.Radius.{reply_code}
use amplifier_panel.Auth.Login.{LoginRequest, login, login_finish, logout, recent_failures}
use amplifier_panel.Auth.Login.Limits.{IsLimited, failures_of, login_limited}
use amplifier_panel.Auth.Login.Sessions.{
  finish, leave, here, next, OnePerAccount, one_session_per_account,
}
use amplifier_panel.Auth.Users.{
  CreateRequest, UpdateRequest, Host, update_access_user, managed_elsewhere, set_user, with_active,
  with_role,
}
use amplifier_panel.Auth.Users.Administrators.{
  update_keeps_administrator, update_rejected_after_write,
}

abbrev settings : Config
settings = record {
  auth_mode = radius_mode;
  login_max_attempts = 2;
  login_window_seconds = 60;
  session_max_age_seconds = 3600;
  trust_proxy_headers = false;
  syslog_enabled = true;
  radius_server = "radius.local";
  radius_port = "1812";
}

abbrev request : Request
request = record { forwarded_for = none; client_host = some "10.0.0.9" }

abbrev digest : String → List ℕ → ℕ → List ℕ
digest password salt rounds = 7 ∷ 9 ∷ []

abbrev root : User
root = record {
  username = "root";
  role = "Administrator";
  active = true;
  password_hash = none;
  password_salt = none;
}

abbrev guest : User
guest = record {
  username = "guest";
  role = "Operator";
  active = true;
  password_hash = none;
  password_salt = none;
}

abbrev panel : State
panel = record {
  access_users = root ∷ guest ∷ [];
  saved_users = root ∷ guest ∷ [];
  auth_sessions = ("token", record { username = "root"; created_at = 1000 }) ∷ [];
  login_failures = ("10.0.0.9", 2000 ∷ 3000 ∷ []) ∷ [];
  sent = [];
}

abbrev disk : Host
disk = record { pbkdf2 = digest; salt_bytes = 1 ∷ 2 ∷ []; writable = true }

abbrev body : LoginRequest
body = record { username = " root "; password = "secret" }

login_limited_example :
    let result =
      login digest settings request body (reply_code 2) "t2" 5000 6000 (λ t. t) (λ u. u) panel in
    (result.0 ≡ err (http 429 "Too many login attempts. Try again later"))
    × (result.1.auth_sessions ≡ panel.auth_sessions)
    × (failures_of (get_client_ip settings request) result.1
        ≡ recent_failures settings 5000 (get_client_ip settings request) panel)
unfolding normalize_username strip lstrip rstrip get_client_ip Dict.lookup string_eq
login_limited_example =
    login_limited digest settings request body (reply_code 2) "t2" 5000 6000 (λ t. t) (λ u. u) panel
      {username = "root"} refl (omega arith)

panel-IsLimited : IsLimited settings panel
unfolding Dict.lookup
panel-IsLimited ip = ground arith

one_session_per_account_example :
    OnePerAccount
      (logout settings request
        (access_user_public root)
        (some "token")
        (login_finish settings request "guest" guest true "t2" 5000 6000 panel).1).auth_sessions
one_session_per_account_example =
    one_session_per_account settings (refl, tt)
      (next (next here (finish request "guest" guest true "t2" 5000 6000 panel)) (
        leave request (access_user_public root) (some "token")
          (login_finish settings request "guest" guest true "t2" 5000 6000 panel).1))

get_current_user_iff_example :
    (get_current_user settings 5000 (some "token") panel ≡ (ok (access_user_public root), panel))
    ↔ IsLoggedIn settings 5000 "token" panel (access_user_public root)
get_current_user_iff_example =
    get_current_user_iff settings 5000 "token" panel (access_user_public root)

abbrev demotion : UpdateRequest
demotion = record { role = some "Operator"; active = none; password = none }

update_keeps_administrator_example :
    1
    ≤ count_active_administrators
        (update_access_user disk settings request "root" (λ s. s) "root" demotion panel).1
unfolding string_eq
update_keeps_administrator_example =
    update_keeps_administrator disk settings request "root" (λ s. s) "root" demotion panel
      (omega arith)

abbrev addition : CreateRequest
addition = record { username = "guest"; role = "Operator"; active = true; password = none }

update_rejected_after_write_example :
    let result =
      update_access_user disk settings request "root"
        (λ s. s)
        "guest"
        (record { role = some "Administrator"; active = none; password = some "new" })
        panel in
    (result.0 ≡ err managed_elsewhere)
    × (result.1.access_users
        ≡ set_user "guest"
            (with_active none (with_role (some "Administrator") guest))
            panel.access_users)
    × (result.1.saved_users ≡ panel.saved_users)
unfolding normalize_username strip lstrip rstrip string_eq
update_rejected_after_write_example =
    update_rejected_after_write disk settings request "root" (λ s. s) "guest" "Administrator" "new"
      none panel {username = "guest"} {u = guest} refl refl refl refl

verify_password-hash_password_example :
    let (hash, salt) = hash_password digest "secret" (1 ∷ 2 ∷ []) in
    verify_password digest "secret" (some hash) (some salt) ≡ true
verify_password-hash_password_example =
    verify_password-hash_password digest "secret" (1 ∷ 2 ∷ []) {b = 7} {bs = 9 ∷ []}
      (omega arith, (omega arith, tt)) refl (omega arith, (omega arith, tt))
