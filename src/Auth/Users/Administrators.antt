-- ===== src/Auth/Users/Administrators.antt =====
-- The panel keeps an active administrator.
use amplifier_panel.Base.{
  ℕ, ◌+◌, ◌≤◌, ◌≡◌, refl, Bool, true, false, not, ◌||◌, Bool-cases, inl, inr, String, Option, none,
  some, List, [], ◌∷◌, arith, find, count, leb, ◌==◌, string_eq, eq_refl, ◌&&◌, count-append,
  Option-cases, if◌then◌else◌,
}
use amplifier_panel.Base.Text.{strip, or_text}
use amplifier_panel.Base.Result.{Result-cases, ok, err}
use amplifier_panel.Auth.{
  AuthMode, radius_mode, Config, User, PublicUser, State, Request, is_administrator, administrator,
  count_active_administrators, normalize_username, find_access_user,
}
use amplifier_panel.Auth.Users.{
  fresh_user, managed_elsewhere, with_password, save_persisted_access_users, or_role, or_active,
  Host, CreateRequest, UpdateRequest, set_user, remove_user, with_role, with_active,
  create_access_user, update_access_user, delete_access_user, update_found, delete_found,
  create_named, conclude, changed_password, new_password,
}

abbrev weight : User → ℕ
weight u = if is_administrator u then 1 else 0

abbrev named : String → User → Bool
named username u = u.username == username

count-set_user :
    (username : String) (v u : User) (us : List User)
    → find (named username) us ≡ some u
    → count is_administrator (set_user username v us) + weight u
      ≡ count is_administrator us + weight v
unfolding set_user
count-set_user username v u [] h = cc
count-set_user username v u (w ∷ us) h = ground (arith, count-set_user username v u us)

count-remove_user :
    (username : String) (u : User) (us : List User)
    → find (named username) us ≡ some u
    → count is_administrator (remove_user username us) + weight u ≡ count is_administrator us
unfolding remove_user
count-remove_user username u [] h = cc
count-remove_user username u (w ∷ us) h = ground (arith, count-remove_user username u us)

-- What the handlers write keeps the record's standing: the new password does not touch it.
weight-with_password :
    (h : Host) (password : String) (u : User) → weight (with_password h password u) ≡ weight u
weight-with_password h password u = refl

weight-changed_password :
    (h : Host) (mode : AuthMode) (password : Option String) (v w : User)
    → changed_password h mode password v ≡ ok w
    → weight w ≡ weight v
unfolding changed_password
weight-changed_password h mode password v w e = ground arith

-- An administrator whose request keeps the role and the activity stays one.
or_text-administrator : (t : String) → t ≡ administrator → or_text t "Operator" ≡ administrator
or_text-administrator t e = rw e

role-kept :
    (role : Option String) (u : User)
    → is_administrator u ≡ true
    → (or_role role u == administrator) ≡ true
    → (with_role role u).role ≡ administrator
role-kept none u a k = ground arith
role-kept (some role) u a k = or_text-administrator (strip role) (ground arith)

active-kept :
    (active : Option Bool) (u v : User)
    → v.active ≡ u.active
    → or_active active u ≡ true
    → (with_active active v).active ≡ true
active-kept none u v e k = ground arith
active-kept (some active) u v e k = k

active-with_role : (role : Option String) (u : User) → (with_role role u).active ≡ u.active
active-with_role none u = refl
active-with_role (some role) u = refl

role-with_active : (active : Option Bool) (u : User) → (with_active active u).role ≡ u.role
role-with_active none u = refl
role-with_active (some active) u = refl

weight-kept :
    (role : Option String) (active : Option Bool) (u : User)
    → is_administrator u ≡ true
    → (not (or_role role u == administrator) || not (or_active active u)) ≡ false
    → weight (with_active active (with_role role u)) ≡ 1
weight-kept role active u a k = rw (
  role-with_active active (with_role role u),
  role-kept role u a (ground arith),
  active-kept active u (with_role role u) (active-with_role role u) (ground arith),
  eq_refl administrator,
)

access_users-conclude :
    (h : Host) (cfg : Config) (r : Request) (action actor details : String) (answer : PublicUser)
    (s : State)
    → (conclude h cfg r action actor details answer s).1.access_users ≡ s.access_users
unfolding conclude save_persisted_access_users
access_users-conclude h cfg r action actor details answer s = ground arith

abbrev removing_last : UpdateRequest → User → State → Bool
removing_last body u s =
    is_administrator u
    && ((not (or_role body.role u == administrator) || not (or_active body.active u))
        && leb (count_active_administrators s) 1)

-- Past the guard, whatever is written in place of the record leaves an administrator.
written_keeps_administrator :
    (body : UpdateRequest) (username : String) (u w : User) (s : State)
    → find_access_user username s ≡ some u
    → 1 ≤ count_active_administrators s
    → removing_last body u s ≡ false
    → weight w ≡ weight (with_active body.active (with_role body.role u))
    → 1 ≤ count is_administrator (set_user username w s.access_users)
written_keeps_administrator body username u w s found some_admin guard same =
    ground
      (arith, weight-kept body.role body.active u, count-set_user username w u s.access_users found)

module _ (h : Host) (cfg : Config) (r : Request) (actor : String) where
  update_found_keeps_administrator :
      (quoted : String → String) (body : UpdateRequest) (username : String) (u : User) (s : State)
      → find_access_user username s ≡ some u
      → 1 ≤ count_active_administrators s
      → 1 ≤ count_active_administrators (update_found h cfg r actor quoted body username u s).1
  unfolding update_found
  update_found_keeps_administrator quoted body username u s found some_admin =
      let v = with_active body.active (with_role body.role u) in
      elim (Bool-cases (removing_last body u s)) [
        | inl guard ↦ rw guard some_admin
        | inr guard ↦ elim (Result-cases (changed_password h cfg.auth_mode body.password v)) [
          | inl (w, e) ↦
              rw (guard, e, access_users-conclude)
                (written_keeps_administrator body username u w s found some_admin guard
                  (weight-changed_password h cfg.auth_mode body.password v w e))
          | inr (x, e) ↦
              rw (guard, e)
                (written_keeps_administrator body username u v s found some_admin guard refl)
        ]
      ]

  delete_found_keeps_administrator :
      (username : String) (u : User) (s : State)
      → find_access_user username s ≡ some u
      → 1 ≤ count_active_administrators s
      → 1 ≤ count_active_administrators (delete_found h cfg r actor username u s).1
  unfolding delete_found save_persisted_access_users
  delete_found_keeps_administrator username u s found some_admin =
      ground (arith, count-remove_user username u s.access_users)

  create_named_keeps_administrator :
      (body : CreateRequest) (username : String) (s : State)
      → 1 ≤ count_active_administrators s
      → 1 ≤ count_active_administrators (create_named h cfg r actor body username s).1
  unfolding create_named
  create_named_keeps_administrator body username s some_admin =
      elim (Option-cases (find_access_user username s)) [
        | inr (u, found) ↦ rw (found, create_named) some_admin
        | inl missing ↦
            elim (Result-cases
              (new_password h cfg.auth_mode body.password (fresh_user username body))) [
                | inr (x, e) ↦ rw (missing, create_named, e) some_admin
                | inl (u, e) ↦
                    rw (missing, create_named, e, access_users-conclude, count-append) (omega arith)
              ]
      ]

  -- An update of an account leaves at least one active administrator if there was one, also where it
  -- fails after the first writes.
  pub update_keeps_administrator :
      (quoted : String → String) (name : String) (body : UpdateRequest) (s : State)
      → 1 ≤ count_active_administrators s
      → 1 ≤ count_active_administrators (update_access_user h cfg r actor quoted name body s).1
  unfolding update_access_user
  update_keeps_administrator quoted name body s some_admin =
      elim (Result-cases (normalize_username name)) [
        | inr (x, e) ↦ rw (e, update_access_user) some_admin
        | inl (username, e) ↦ elim (Option-cases (find_access_user username s)) [
          | inl missing ↦ rw (e, update_access_user, missing) some_admin
          | inr (u, found) ↦
              rw (e, update_access_user, found)
                (update_found_keeps_administrator quoted body username u s found some_admin)
        ]
      ]

  -- A deletion leaves at least one active administrator if there was one.
  pub delete_keeps_administrator :
      (name : String) (s : State)
      → 1 ≤ count_active_administrators s
      → 1 ≤ count_active_administrators (delete_access_user h cfg r actor name s).1
  unfolding delete_access_user
  delete_keeps_administrator name s some_admin = elim (Result-cases (normalize_username name)) [
    | inr (x, e) ↦ rw (e, delete_access_user) some_admin
    | inl (username, e) ↦ elim (Option-cases (find_access_user username s)) [
      | inl missing ↦ rw (e, delete_access_user, missing) some_admin
      | inr (u, found) ↦
          rw (e, delete_access_user, found)
            (delete_found_keeps_administrator username u s found some_admin)
    ]
  ]

  -- Nor does a creation take the last one away.
  pub create_keeps_administrator :
      (body : CreateRequest) (s : State)
      → 1 ≤ count_active_administrators s
      → 1 ≤ count_active_administrators (create_access_user h cfg r actor body s).1
  unfolding create_access_user
  create_keeps_administrator body s some_admin =
      elim (Result-cases (normalize_username body.username)) [
        | inr (x, e) ↦ rw (e, create_access_user) some_admin
        | inl (username, e) ↦
            rw (e, create_access_user) (create_named_keeps_administrator body username s some_admin)
      ]

  -- A rejected change of the password does not undo the rest of the request: with RADIUS, an update
  -- that names a password and a new role answers 400, and still the account has the new role in
  -- memory, while the saved accounts are as before.
  pub update_rejected_after_write :
      (quoted : String → String) (name role password : String) (active : Option Bool) (s : State)
      {username : String} {u : User}
      → cfg.auth_mode ≡ radius_mode
      → normalize_username name ≡ ok username
      → find_access_user username s ≡ some u
      → is_administrator u ≡ false
      → let body : UpdateRequest = record {
        role = some role;
        active = active;
        password = some password;
      } in
        let result = update_access_user h cfg r actor quoted name body s in
        (result.0 ≡ err managed_elsewhere)
        × (result.1.access_users
            ≡ set_user username (with_active active (with_role (some role) u)) s.access_users)
        × (result.1.saved_users ≡ s.saved_users)
  unfolding update_access_user update_found changed_password
  update_rejected_after_write quoted name role password active s m e f a =
      ground (arith, m, e, f, a)
