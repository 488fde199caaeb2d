-- ===== src/Settings.antt =====
-- The merges of app/core/state.py, which make the settings of the process of what the file of the
-- settings holds. The saved values are JSON documents.
pub mod Fields
pub mod Accounts
pub mod Restart
use amplifier_panel.Base.{
  Bool, true, false, not, ◌&&◌, ◌||◌, String, Option, none, some, List, [], ◌∷◌, ◌++◌, contains,
  any, ◌==◌, string_eq, if◌then◌else◌,
}
use amplifier_panel.Base.Result.{Result, ok, err, ◌>>=◌}
use amplifier_panel.Base.Text.{strip, is_empty, or_text}
use amplifier_panel.Device.{Floats}
use amplifier_panel.Statistics.{
  Json, Items, Members, Shown, null, number, boolean, text, array, object, no_items, item,
  no_members, member, member_of, truthy,
}
use amplifier_panel.Passwords.{password_is_usable}
use amplifier_panel.Auth.{AuthMode, local_mode, radius_mode, User, administrator}

-- The settings of app/core/config.py for the first administrator.
pub record InitialAdmin : Type 0 where
  pub auth_mode : AuthMode
  pub username : String
  pub password_hash : String
  pub password_salt : String

-- A field that is no text is as good as missing for `password_is_usable`.
abbrev pub text_of : {F : Type 0} → Option (Json F) → Option String
text_of (some (text s)) = some s
text_of (some _) = none
text_of none = none

abbrev pub is_usable : User → Bool
is_usable u = password_is_usable u.password_hash u.password_salt

abbrev pub is_local : AuthMode → Bool
is_local local_mode = true
is_local radius_mode = false

abbrev pub initial_user : InitialAdmin → User
initial_user c = record {
  username = c.username;
  role = administrator;
  active = true;
  password_hash = none;
  password_salt = none;
}

-- `apply_initial_local_password`; the error is the text of the `RuntimeError`.
unfoldable pub apply_initial_local_password : InitialAdmin → Result String User
apply_initial_local_password c =
    if password_is_usable (some c.password_hash) (some c.password_salt)
    then ok (record (initial_user c) {
      password_hash = some c.password_hash;
      password_salt = some c.password_salt;
    })
    else err
        "Local authentication requires an initial administrator password. Run 'sudo amp-panel configure'."

-- The account of that name becomes the initial one, or the initial one is added.
unfoldable pub put_initial : User → List User → List User
put_initial initial [] = initial ∷ []
put_initial initial (u ∷ us) =
    let rest = put_initial initial us in
    if u.username == initial.username then initial ∷ us else u ∷ rest

-- The part of `merge_access_users` after its loop.
unfoldable pub with_initial : InitialAdmin → List User → Result String (List User)
with_initial c [] =
    if is_local c.auth_mode
    then (apply_initial_local_password c >>= λ initial. ok (initial ∷ []))
    else ok (initial_user c ∷ [])
with_initial c (u ∷ us) =
    if is_local c.auth_mode && not (any is_usable (u ∷ us))
    then (apply_initial_local_password c >>= λ initial. ok (put_initial initial (u ∷ us)))
    else ok (u ∷ us)

module _ (fl : Floats) (sh : Shown fl.Float) where
  open fl use {Float}

  -- `str(user.get(key, default))`
  abbrev pub str_or : String → Option (Json Float) → String
  str_or default none = default
  str_or default (some (text s)) = s
  str_or default (some j) = sh.show_json j

  -- `bool(user.get("active", True))`
  abbrev pub active_or_true : Option (Json Float) → Bool
  active_or_true none = true
  active_or_true (some j) = truthy fl sh j

  -- The password of a saved record, where it is usable.
  unfoldable pub with_saved_password : Members Float → User → User
  with_saved_password saved u =
      let hash = text_of (member_of "password_hash" saved) in
      let salt = text_of (member_of "password_salt" saved) in
      if password_is_usable hash salt
      then record u { password_hash = hash; password_salt = salt }
      else u

  unfoldable pub merged_user : String → Members Float → User
  unfolding with_saved_password
  merged_user username saved = with_saved_password saved (record {
    username = username;
    role = or_text (strip (str_or "Operator" (member_of "role" saved))) "Operator";
    active = active_or_true (member_of "active" saved);
    password_hash = none;
    password_salt = none;
  })

  -- One turn of the loop, with the accounts and the names so far.
  unfoldable pub merge_user : Json Float → List User × List String → List User × List String
  merge_user (object saved) (users, seen) =
      let username = strip (str_or "" (member_of "username" saved)) in
      if is_empty username || contains seen username
      then (users, seen)
      else (users ++ merged_user username saved ∷ [], username ∷ seen)
  merge_user null s = s
  merge_user (number _) s = s
  merge_user (boolean _) s = s
  merge_user (text _) s = s
  merge_user (array _) s = s

  unfoldable pub merge_users : Items Float → List User × List String → List User × List String
  merge_users no_items s = s
  merge_users (item j l) s = merge_users l (merge_user j s)

  -- `saved_users if isinstance(saved_users, list) else []`
  abbrev pub saved_items : Option (Json Float) → Items Float
  saved_items (some (array l)) = l
  saved_items (some _) = no_items
  saved_items none = no_items

  unfoldable pub merge_access_users : InitialAdmin → Option (Json Float) → Result String (List User)
  merge_access_users c saved = with_initial c (merge_users (saved_items saved) ([], [])).0

  -- What `save_persisted_state` writes of the accounts.
  abbrev pub text_member : String → Option String → Members Float → Members Float
  text_member key none ms = ms
  text_member key (some s) ms = member key (text s) ms

  unfoldable pub user_json : User → Json Float
  user_json u = object (
      member "username" (text u.username) (
        member "role" (text u.role) (
          member "active" (boolean u.active) (
            text_member "password_hash" u.password_hash
              (text_member "password_salt" u.password_salt no_members)))))

  unfoldable pub users_json : List User → Items Float
  users_json [] = no_items
  users_json (u ∷ us) = item (user_json u) (users_json us)
