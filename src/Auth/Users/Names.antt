-- ===== src/Auth/Users/Names.antt =====
-- No two accounts have one name, and what a handler answers it has saved.
use amplifier_panel.Base.{
  ◌≡◌, refl, Bool, false, String, Option, none, some, List, [], ◌∷◌, ◌++◌, arith, find, any,
  Option-cases, inl, inr, ◌==◌, string_eq,
}
use amplifier_panel.Base.Result.{Result-cases, ok}
use amplifier_panel.Auth.{
  AuthMode, Config, User, PublicUser, State, Request, normalize_username, find_access_user,
}
use amplifier_panel.Auth.Users.{
  Host, CreateRequest, UpdateRequest, set_user, remove_user, with_role, with_active, fresh_user,
  new_password, changed_password, conclude, save_persisted_access_users, create_named,
  create_access_user, update_found, update_access_user, delete_found, delete_access_user,
}

abbrev pub has_name : String → List User → Bool
has_name n us = any (λ u. u.username == n) us

abbrev pub DistinctNames : List User → Type 0
DistinctNames [] = Unit
DistinctNames (u ∷ us) = (has_name u.username us ≡ false) × DistinctNames us

pub has_name-append :
    (n : String) (us : List User) (v : User)
    → has_name n us ≡ false
    → (v.username == n) ≡ false
    → has_name n (us ++ v ∷ []) ≡ false
has_name-append n [] v h e = ground arith
has_name-append n (u ∷ us) v h e = ground (arith, has_name-append n us v)

pub append-DistinctNames :
    (us : List User) (v : User)
    → find (λ u. u.username == v.username) us ≡ none
    → DistinctNames us
    → DistinctNames (us ++ v ∷ [])
append-DistinctNames [] v f h = (refl, tt)
append-DistinctNames (u ∷ us) v f h =
    ground (arith, append-DistinctNames us v, has_name-append u.username us v)

has_name-set_user :
    (n username : String) (v : User) (us : List User)
    → v.username ≡ username
    → has_name n us ≡ false
    → has_name n (set_user username v us) ≡ false
unfolding set_user
has_name-set_user n username v [] e h = h
has_name-set_user n username v (u ∷ us) e h = ground (arith, has_name-set_user n username v us e)

set_user-DistinctNames :
    (username : String) (v : User) (us : List User)
    → v.username ≡ username
    → DistinctNames us
    → DistinctNames (set_user username v us)
unfolding set_user
set_user-DistinctNames username v [] e h = h
set_user-DistinctNames username v (u ∷ us) e h =
    ground
      (arith, set_user-DistinctNames username v us e, has_name-set_user u.username username v us e)

has_name-remove_user :
    (n username : String) (us : List User)
    → has_name n us ≡ false
    → has_name n (remove_user username us) ≡ false
unfolding remove_user
has_name-remove_user n username [] h = h
has_name-remove_user n username (u ∷ us) h = ground (arith, has_name-remove_user n username us)

remove_user-DistinctNames :
    (username : String) (us : List User)
    → DistinctNames us
    → DistinctNames (remove_user username us)
unfolding remove_user
remove_user-DistinctNames username [] h = h
remove_user-DistinctNames username (u ∷ us) h =
    ground
      (arith, remove_user-DistinctNames username us, has_name-remove_user u.username username us)

pub find-has_name :
    (n : String) (vs : List User) → has_name n vs ≡ false → find (λ u. u.username == n) vs ≡ none
find-has_name n [] k = refl
find-has_name n (v ∷ vs) k = ground (arith, find-has_name n vs)

-- With distinct names, an account that was removed is not found again.
find-remove_user :
    (username : String) (us : List User)
    → DistinctNames us
    → find (λ u. u.username == username) (remove_user username us) ≡ none
unfolding remove_user
find-remove_user username [] h = refl
find-remove_user username (u ∷ us) h =
    ground (arith, find-remove_user username us, find-has_name username us)

find-username :
    (username : String) (us : List User) (u : User)
    → find (λ v. v.username == username) us ≡ some u
    → u.username ≡ username
find-username username [] u h = absurd (cc)
find-username username (v ∷ vs) u h = ground (arith, find-username username vs u)

username-written :
    (role : Option String) (active : Option Bool) (u : User)
    → (with_active active (with_role role u)).username ≡ u.username
username-written role active u = ground arith

username-changed_password :
    (h : Host) (mode : AuthMode) (password : Option String) (v w : User)
    → changed_password h mode password v ≡ ok w
    → w.username ≡ v.username
unfolding changed_password
username-changed_password h mode password v w e = ground arith

username-new_password :
    (h : Host) (mode : AuthMode) (password : Option String) (v w : User)
    → new_password h mode password v ≡ ok w
    → w.username ≡ v.username
unfolding new_password
username-new_password h mode password v w e = ground arith

access_users-conclude :
    (h : Host) (cfg : Config) (r : Request) (action actor details : String) (answer : PublicUser)
    (s : State)
    → (conclude h cfg r action actor details answer s).1.access_users ≡ s.access_users
unfolding conclude save_persisted_access_users
access_users-conclude h cfg r action actor details answer s = ground arith

module _ (h : Host) (cfg : Config) (r : Request) (actor : String) where
  updated :
      (quoted : String → String) (body : UpdateRequest) (username : String) (u : User) (s : State)
      → DistinctNames s.access_users
      → u.username ≡ username
      → DistinctNames (update_found h cfg r actor quoted body username u s).1.access_users
  unfolding update_found conclude save_persisted_access_users
  updated quoted body username u s d same =
      let v = with_active body.active (with_role body.role u) in
      let named = username-written body.role body.active u in
      let kept = set_user-DistinctNames username v s.access_users in
      elim (Result-cases (changed_password h cfg.auth_mode body.password v)) [
        | inl (w, p) ↦ ground (
          arith,
          p,
          d,
          named,
          same,
          username-changed_password h cfg.auth_mode body.password v w,
          set_user-DistinctNames username w s.access_users,
        )
        | inr (x, p) ↦ ground (arith, p, d, named, same, kept)
      ]

  -- A creation of an account, whatever it answers, leaves the names of the accounts distinct if they
  -- were.
  pub create-DistinctNames :
      (body : CreateRequest) (s : State)
      → DistinctNames s.access_users
      → DistinctNames (create_access_user h cfg r actor body s).1.access_users
  unfolding create_access_user create_named
  create-DistinctNames body s d = elim (Result-cases (normalize_username body.username)) [
    | inr (x, e) ↦ rw (e, create_access_user) d
    | inl (username, e) ↦ elim (Option-cases (find_access_user username s)) [
      | inr (u, found) ↦ rw (e, create_access_user, found, create_named) d
      | inl missing ↦
          elim (Result-cases
            (new_password h cfg.auth_mode body.password (fresh_user username body))) [
              | inr (x, p) ↦ rw (e, create_access_user, missing, create_named, p) d
              | inl (u, p) ↦
                  let name =
                    username-new_password h cfg.auth_mode body.password (fresh_user username body) u
                      p in
                  rw (e, create_access_user, missing, create_named, p, access_users-conclude)
                    (append-DistinctNames s.access_users u (rw name missing) d)
            ]
    ]
  ]

  -- An update leaves the names as they are, also where it fails after its first writes.
  pub update-DistinctNames :
      (quoted : String → String) (name : String) (body : UpdateRequest) (s : State)
      → DistinctNames s.access_users
      → DistinctNames (update_access_user h cfg r actor quoted name body s).1.access_users
  unfolding update_access_user
  update-DistinctNames quoted name body s d = elim (Result-cases (normalize_username name)) [
    | inr (x, e) ↦ rw (e, update_access_user) d
    | inl (username, e) ↦ elim (Option-cases (find_access_user username s)) [
      | inl missing ↦ rw (e, update_access_user, missing) d
      | inr (u, found) ↦
          rw (e, update_access_user, found)
            (updated quoted body username u s d (find-username username s.access_users u found))
    ]
  ]

  -- After a deletion that is answered with success the account is not found, and the accounts that
  -- are left are saved, when the names were distinct before.
  pub delete_then_find :
      (name : String) (s : State) {username : String}
      → DistinctNames s.access_users
      → normalize_username name ≡ ok username
      → (delete_access_user h cfg r actor name s).0 ≡ ok tt
      → let result = delete_access_user h cfg r actor name s in
        (find_access_user username result.1 ≡ none) × (result.1.saved_users ≡ result.1.access_users)
  unfolding delete_access_user delete_found save_persisted_access_users
  delete_then_find name s {username} d e k =
      ground (arith, e, k, find-remove_user username s.access_users d)
