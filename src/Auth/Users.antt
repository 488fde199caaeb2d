-- ===== src/Auth/Users.antt =====
-- The handlers of app/api/auth.py that change the access users. `writable` says whether the file of
-- the settings could be written; if not, `save_persisted_access_users` raises an `OSError`.
pub mod Administrators
pub mod Names
use amplifier_panel.Base.{
  ℕ, Bool, true, false, ◌&&◌, not, ◌||◌, String, Option, none, some, List, [], ◌∷◌, ◌++◌, length,
  leb, eqb, ◌==◌, string_eq, if◌then◌else◌,
}
use amplifier_panel.Base.Result.{Result, ok, err}
use amplifier_panel.Base.Text.{◌<>◌, strip, or_text}
use amplifier_panel.Passwords.{validate_password, hash_password}
use amplifier_panel.Auth.{
  Config, AuthMode, local_mode, radius_mode, User, PublicUser, State, Raised, http, os_error,
  Request, administrator, is_administrator, count_active_administrators, access_user_public,
  find_access_user, normalize_username, audit_event, audit_changes,
}

pub record CreateRequest : Type 0 where
  pub username : String
  pub role : String
  pub active : Bool
  pub password : Option String

pub record UpdateRequest : Type 0 where
  pub role : Option String
  pub active : Option Bool
  pub password : Option String

-- The password function, the salt of a new password, and whether the file can be written.
pub record Host : Type 0 where
  pub pbkdf2 : String → List ℕ → ℕ → List ℕ
  pub salt_bytes : List ℕ
  pub writable : Bool

unfoldable pub save_persisted_access_users : Host → State → Result Raised (Unit {0}) × State
save_persisted_access_users h s =
    if h.writable then (ok tt, record s { saved_users = s.access_users }) else (err os_error, s)

-- Save, audit and answer.
unfoldable pub conclude :
    Host
    → Config
    → Request
    → String
    → String
    → String
    → PublicUser
    → State
    → Result Raised PublicUser × State
conclude h cfg r action actor details answer s =
    if h.writable
    then (ok answer, audit_event cfg r action actor details (save_persisted_access_users h s).1)
    else (err os_error, s)

abbrev pub with_password : Host → String → User → User
with_password h password u =
    let (hash, salt) = hash_password h.pbkdf2 password h.salt_bytes in
    record u { password_hash = some hash; password_salt = some salt }

abbrev pub managed_elsewhere : Raised
managed_elsewhere = http 400 "Passwords are managed by the RADIUS server"

-- The password part of `create_access_user`.
unfoldable pub new_password : Host → AuthMode → Option String → User → Result Raised User
new_password h local_mode none u = err (http 400 "Password is required")
new_password h local_mode (some password) u = elim (validate_password password) [
  | err detail ↦ err (http 400 detail)
  | ok valid ↦ ok (with_password h valid u)
]
new_password h radius_mode none u = ok u
new_password h radius_mode (some password) u = err managed_elsewhere

abbrev pub bool_text : Bool → String
bool_text true = "True"
bool_text false = "False"

-- The record of a new account, before its password.
abbrev pub fresh_user : String → CreateRequest → User
fresh_user username body = record {
  username = username;
  role = or_text (strip body.role) "Operator";
  active = body.active;
  password_hash = none;
  password_salt = none;
}

unfoldable pub create_named :
    Host
    → Config
    → Request
    → String
    → CreateRequest
    → String
    → State
    → Result Raised PublicUser × State
create_named h cfg r actor body username s = elim (find_access_user username s) [
  | some _ ↦ (err (http 409 "User already exists"), s)
  | none ↦ elim (new_password h cfg.auth_mode body.password (fresh_user username body)) [
    | err e ↦ (err e, s)
    | ok u ↦
        conclude h cfg r "access_user_created" actor
          ("target=" <> username <> "; role=" <> u.role <> "; active=" <> bool_text u.active)
          (access_user_public u) (record s { access_users = s.access_users ++ u ∷ [] })
  ]
]

unfoldable pub create_access_user :
    Host → Config → Request → String → CreateRequest → State → Result Raised PublicUser × State
create_access_user h cfg r actor body s = elim (normalize_username body.username) [
  | err e ↦ (err e, s)
  | ok username ↦ create_named h cfg r actor body username s
]

-- A write to the record that `find_access_user` returned: the first of that name.
unfoldable pub set_user : String → User → List User → List User
set_user username v [] = []
set_user username v (u ∷ us) =
    let rest = set_user username v us in if u.username == username then v ∷ us else u ∷ rest

-- `access_users.remove(user)`
unfoldable pub remove_user : String → List User → List User
remove_user username [] = []
remove_user username (u ∷ us) =
    let rest = remove_user username us in if u.username == username then us else u ∷ rest

abbrev pub write_user : String → User → State → State
write_user username u s = record s { access_users = set_user username u s.access_users }

abbrev pub or_role : Option String → User → String
or_role none u = u.role
or_role (some role) u = strip role

abbrev pub or_active : Option Bool → User → Bool
or_active none u = u.active
or_active (some active) u = active

-- The writes of the role and of the active state.
abbrev pub with_role : Option String → User → User
with_role none u = u
with_role (some role) u = record u { role = or_text (strip role) "Operator" }

abbrev pub with_active : Option Bool → User → User
with_active none u = u
with_active (some active) u = record u { active = active }

-- The password part of `update_access_user`; it follows the writes of the role and the state.
unfoldable pub changed_password : Host → AuthMode → Option String → User → Result Raised User
changed_password h mode none u = ok u
changed_password h radius_mode (some password) u = err managed_elsewhere
changed_password h local_mode (some password) u = elim (validate_password password) [
  | err detail ↦ err (http 400 detail)
  | ok valid ↦ ok (with_password h valid u)
]

-- `quoted` is `json.dumps` of a text, for `audit_changes`.
unfoldable pub update_found :
    Host
    → Config
    → Request
    → String
    → (String → String)
    → UpdateRequest
    → String
    → User
    → State
    → Result Raised PublicUser × State
update_found h cfg r actor quoted body username u s =
    let next_role = or_role body.role u in
    let next_active = or_active body.active u in
    let removing_last_admin = not (next_role == administrator) || not next_active in
    let v = with_active body.active (with_role body.role u) in
    let written = write_user username v s in
    if is_administrator u && (removing_last_admin && leb (count_active_administrators s) 1)
    then (err (http 400 "At least one active administrator is required"), s)
    else elim (changed_password h cfg.auth_mode body.password v) [
      | err e ↦ (err e, written)
      | ok w ↦
          conclude h cfg r "access_user_updated" actor
            ("target="
              <> username
              <> "; "
              <> audit_changes quoted (access_user_public u) (access_user_public w))
            (access_user_public w) (write_user username w s)
    ]

unfoldable pub update_access_user :
    Host
    → Config
    → Request
    → String
    → (String → String)
    → String
    → UpdateRequest
    → State
    → Result Raised PublicUser × State
update_access_user h cfg r actor quoted name body s = elim (normalize_username name) [
  | err e ↦ (err e, s)
  | ok username ↦ elim (find_access_user username s) [
    | none ↦ (err (http 404 "User not found"), s)
    | some u ↦ update_found h cfg r actor quoted body username u s
  ]
]

-- The removal is saved under the lock, and audited after it.
unfoldable pub delete_found :
    Host → Config → Request → String → String → User → State → Result Raised (Unit {0}) × State
delete_found h cfg r actor username u s =
    let removed = record s { access_users = remove_user username s.access_users } in
    if eqb (length s.access_users) 1
    then (err (http 400 "At least one user is required"), s)
    else if is_administrator u && leb (count_active_administrators s) 1
    then (err (http 400 "At least one active administrator is required"), s)
    else if h.writable
    then (
      ok tt,
      audit_event cfg r "access_user_deleted" actor ("target=" <> username)
          (save_persisted_access_users h removed).1,
    )
    else (err os_error, removed)

unfoldable pub delete_access_user :
    Host → Config → Request → String → String → State → Result Raised (Unit {0}) × State
delete_access_user h cfg r actor name s = elim (normalize_username name) [
  | err e ↦ (err e, s)
  | ok username ↦ elim (find_access_user username s) [
    | none ↦ (err (http 404 "User not found"), s)
    | some u ↦ delete_found h cfg r actor username u s
  ]
]
