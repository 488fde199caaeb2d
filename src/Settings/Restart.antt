-- ===== src/Settings/Restart.antt =====
-- A restart: what `save_persisted_state` of app/core/state.py writes of the accounts is what
-- `merge_access_users` reads back.
use amplifier_panel.Base.{
  ◌≡◌, refl, ap, ◌∙◌, sym, ◌⊎◌, true, false, String, Option, none, some, List, [], ◌∷◌, ◌++◌,
  contains, any, All, arith, string_eq, eq_comm, append_nil,
}
use amplifier_panel.Base.Text.{is_empty, strip}
use amplifier_panel.Base.Result.{ok}
use amplifier_panel.Device.{Floats}
use amplifier_panel.Statistics.{Members, Shown, boolean, text, array, no_members, member, member_of}
use amplifier_panel.Passwords.{password_is_usable}
use amplifier_panel.Auth.{User}
use amplifier_panel.Auth.Users.Names.{has_name, DistinctNames}
use amplifier_panel.Settings.{
  InitialAdmin, is_usable, is_local, with_initial, with_saved_password, merged_user, merge_user,
  merge_users, merge_access_users, user_json, users_json, text_member,
}

-- An account as the handlers leave it: a name and a role with no white space around them, and a usable
-- password or none.
abbrev pub IsKept : User → Type 0
IsKept u =
    (strip u.username ≡ u.username)
    × (is_empty u.username ≡ false)
    × (strip u.role ≡ u.role)
    × (is_empty u.role ≡ false)
    × ((is_usable u ≡ true) ⊎ ((u.password_hash ≡ none) × (u.password_salt ≡ none)))

module _ (fl : Floats) (sh : Shown fl.Float) where
  open fl use {Float}

  abbrev fields_of : User → Members Float
  fields_of u = member "username" (text u.username) (
      member "role" (text u.role) (
        member "active" (boolean u.active) (
          text_member fl sh "password_hash" u.password_hash
            (text_member fl sh "password_salt" u.password_salt no_members))))

  -- The record is written with the role that is read: `strip` leaves it as it is.
  read_same :
      (u : User) (h g : Option String)
      → u.password_hash ≡ h
      → u.password_salt ≡ g
      → IsKept u
      → merged_user fl sh u.username (fields_of u) ≡ u
  unfolding merged_user with_saved_password member_of password_is_usable string_eq
  read_same u none none e f (n, m, r, k, p) = rw (e, f, r) (ground (arith, e, f, r, k))
  read_same u none (some g) e f (n, m, r, k, p) = absurd (ground (arith, e, f, p))
  read_same u (some h) none e f (n, m, r, k, p) = absurd (ground (arith, e, f, p))
  read_same u (some h) (some g) e f (n, m, r, k, p) =
      let usable : password_is_usable (some h) (some g) ≡ true = ground (arith, e, f, p) in
      rw (e, f, r) (ground (arith, e, f, r, k, usable))

  abbrev AreNew : List String → List User → Type 0
  AreNew seen us = All (λ u. contains seen u.username ≡ false) us

  still_new :
      (n : String) (seen : List String) (us : List User)
      → has_name n us ≡ false
      → AreNew seen us
      → AreNew (n ∷ seen) us
  still_new n seen [] h a = tt
  still_new n seen (u ∷ us) h a =
      (ground (arith, h, a.0, eq_comm n u.username), still_new n seen us (ground (arith, h)) a.1)

  read_name :
      (u : User) (h g : Option String)
      → u.password_hash ≡ h
      → u.password_salt ≡ g
      → member_of "username" (fields_of u) ≡ some (text u.username)
  unfolding member_of string_eq
  read_name u none none e f = rw (e, f) refl
  read_name u none (some g) e f = rw (e, f) refl
  read_name u (some h) none e f = rw (e, f) refl
  read_name u (some h) (some g) e f = rw (e, f) refl

  merge_same :
      (u : User) (users : List User) (seen : List String)
      → IsKept u
      → contains seen u.username ≡ false
      → merge_user fl sh (user_json fl sh u) (users, seen) ≡ (users ++ u ∷ [], u.username ∷ seen)
  unfolding merge_user user_json
  merge_same u users seen k new =
      rw
        (
          read_name u u.password_hash u.password_salt refl refl,
          k.0,
          k.1,
          new,
          read_same u u.password_hash u.password_salt refl refl k,
        )
        refl

  append_one : {A : Type 0} (l : List A) (x : A) (m : List A) → (l ++ x ∷ []) ++ m ≡ l ++ x ∷ m
  append_one [] x m = refl
  append_one (y ∷ l) x m = ap (λ r. y ∷ r) (append_one l x m)

  merge_users_same :
      (us users : List User) (seen : List String)
      → All IsKept us
      → DistinctNames us
      → AreNew seen us
      → (merge_users fl sh (users_json fl sh us) (users, seen)).0 ≡ users ++ us
  unfolding merge_users users_json
  merge_users_same [] users seen k d a = sym (append_nil users)
  merge_users_same (u ∷ us) users seen k d a =
      rw (merge_same u users seen k.0 a.0, merge_users)
        (merge_users_same us (users ++ u ∷ []) (u.username ∷ seen) k.1 d.1
            (still_new u.username seen us d.0 a.1)
          ∙ append_one users u us)

  all_new : (us : List User) → AreNew [] us
  all_new [] = tt
  all_new (u ∷ us) = (refl, all_new us)

  -- A restart keeps the accounts: when each has a name and a role with no white space around them and a
  -- usable password or none, the names differ, there is an account, and in local mode one has a
  -- usable password, then the accounts that are read back are those that were saved.
  pub restart_keeps_accounts :
      (c : InitialAdmin) (u : User) (us : List User)
      → All IsKept (u ∷ us)
      → DistinctNames (u ∷ us)
      → (is_local c.auth_mode ≡ true → any is_usable (u ∷ us) ≡ true)
      → merge_access_users fl sh c (some (array (users_json fl sh (u ∷ us)))) ≡ ok (u ∷ us)
  unfolding merge_access_users with_initial
  restart_keeps_accounts c u us k d usable =
      rw (merge_users_same (u ∷ us) [] [] k d (all_new (u ∷ us))) (ground (arith, usable))
