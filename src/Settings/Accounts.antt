-- ===== src/Settings/Accounts.antt =====
-- The accounts that `merge_access_users` of app/core/state.py makes.
use amplifier_panel.Base.{
  ◌≡◌, ◌≢◌, refl, true, false, ◌||◌, not, ◌&&◌, String, Option, some, List, [], ◌∷◌, ◌++◌, contains,
  any, arith, ◌==◌, string_eq, eq_comm, if_elim, Bool-cases, inl, inr,
}
use amplifier_panel.Base.Text.{is_empty, strip}
use amplifier_panel.Base.Result.{ok, Ensures, Ensures-ok, Ensures-bind}
use amplifier_panel.Device.{Floats}
use amplifier_panel.Statistics.{
  Json, Items, Members, Shown, null, number, boolean, text, array, object, no_items, item,
  member_of,
}
use amplifier_panel.Passwords.{password_is_usable}
use amplifier_panel.Auth.{User}
use amplifier_panel.Auth.Users.Names.{has_name, DistinctNames, append-DistinctNames, find-has_name}
use amplifier_panel.Settings.{
  InitialAdmin, is_usable, is_local, apply_initial_local_password, put_initial, with_initial,
  str_or, with_saved_password, merged_user, merge_user, merge_users, saved_items,
  merge_access_users,
}

-- What the loop of `merge_access_users` keeps: distinct names, and `seen` holds them.
abbrev IsTracked : List User × List String → Type 0
IsTracked (users, seen) = DistinctNames users × ((j : String) → contains seen j ≡ has_name j users)

has_name-last :
    (j : String) (us : List User) (v : User)
    → has_name j (us ++ v ∷ []) ≡ (has_name j us || v.username == j)
has_name-last j [] v = ground arith
has_name-last j (u ∷ us) v = ground (arith, has_name-last j us v)

add-IsTracked :
    (users : List User) (seen : List String) (v : User) (n : String)
    → v.username ≡ n
    → contains seen n ≡ false
    → IsTracked (users, seen)
    → IsTracked (users ++ v ∷ [], n ∷ seen)
add-IsTracked users seen v n named new (d, t) = (
  append-DistinctNames users v (find-has_name v.username users (ground (arith, t n, named, new))) d,
  λ j. ground (arith, named, t j, has_name-last j users v, eq_comm n j),
)

module _ (fl : Floats) (sh : Shown fl.Float) where
  open fl use {Float}

  username-merged_user :
      (username : String) (saved : Members Float)
      → (merged_user fl sh username saved).username ≡ username
  unfolding merged_user with_saved_password
  username-merged_user username saved = ground arith

  merge_user-IsTracked :
      (j : Json Float) (s : List User × List String)
      → IsTracked s
      → IsTracked (merge_user fl sh j s)
  unfolding merge_user
  merge_user-IsTracked (object saved) (users, seen) h =
      let username = strip (str_or fl sh "" (member_of "username" saved)) in
      let v = merged_user fl sh username saved in
      if_elim IsTracked (is_empty username || contains seen username) (λ _. h)
        (λ e.
          add-IsTracked users seen v username (username-merged_user username saved)
            (ground (arith, e)) h)
  merge_user-IsTracked null s h = h
  merge_user-IsTracked (number _) s h = h
  merge_user-IsTracked (boolean _) s h = h
  merge_user-IsTracked (text _) s h = h
  merge_user-IsTracked (array _) s h = h

  merge_users-IsTracked :
      (l : Items Float) (s : List User × List String)
      → IsTracked s
      → IsTracked (merge_users fl sh l s)
  unfolding merge_users
  merge_users-IsTracked no_items s h = h
  merge_users-IsTracked (item j l) s h =
      merge_users-IsTracked l (merge_user fl sh j s) (merge_user-IsTracked j s h)

has_name-put_initial :
    (j : String) (v : User) (us : List User)
    → (v.username == j) ≡ false
    → has_name j (put_initial v us) ≡ has_name j us
unfolding put_initial
has_name-put_initial j v [] e = ground arith
has_name-put_initial j v (u ∷ us) e = ground (arith, has_name-put_initial j v us e)

put_initial-DistinctNames :
    (v : User) (us : List User) → DistinctNames us → DistinctNames (put_initial v us)
unfolding put_initial
put_initial-DistinctNames v [] h = (refl, tt)
put_initial-DistinctNames v (u ∷ us) h = ground (
  arith,
  put_initial-DistinctNames v us,
  has_name-put_initial u.username v us,
  eq_comm u.username v.username,
)

put_initial_usable :
    (v : User) (us : List User) → is_usable v ≡ true → any is_usable (put_initial v us) ≡ true
unfolding put_initial
put_initial_usable v [] h = ground (arith, h)
put_initial_usable v (u ∷ us) h = ground (arith, h, put_initial_usable v us h)

-- What `merge_access_users` promises: accounts with names of their own, and one at least.
abbrev pub IsUsableList : InitialAdmin → List User → Type 0
IsUsableList c users =
    DistinctNames users × (users ≢ []) × (is_local c.auth_mode ≡ true → any is_usable users ≡ true)

initial_usable :
    (c : InitialAdmin) (v : User) → apply_initial_local_password c ≡ ok v → is_usable v ≡ true
unfolding apply_initial_local_password
initial_usable c v h =
    elim (Bool-cases (password_is_usable (some c.password_hash) (some c.password_salt))) [
      | inl e ↦ ground (arith, e, h)
      | inr e ↦ absurd (ground (arith, e, h))
    ]

put_initial-not_nil : (v : User) (us : List User) → put_initial v us ≢ []
unfolding put_initial
put_initial-not_nil v [] h = absurd (ground (arith, h))
put_initial-not_nil v (u ∷ us) h = absurd (ground (arith, h))

added :
    (c : InitialAdmin) (us : List User) (v : User)
    → is_usable v ≡ true
    → DistinctNames us
    → IsUsableList c (put_initial v us)
added c us v e d =
    (put_initial-DistinctNames v us d, put_initial-not_nil v us, λ _. put_initial_usable v us e)

with_initial-IsUsableList :
    (c : InitialAdmin) (us : List User)
    → DistinctNames us
    → Ensures (IsUsableList c) (with_initial c us)
unfolding with_initial put_initial
with_initial-IsUsableList c [] d =
    if_elim (Ensures (IsUsableList c)) (is_local c.auth_mode)
      (λ l.
        Ensures-bind (IsUsableList c) (apply_initial_local_password c) _
          (λ v e. added c [] v (initial_usable c v e) tt))
      (λ l. ((refl, tt), λ k. absurd (ground (arith, k)), λ k. absurd (ground (arith, k, l))))
with_initial-IsUsableList c (u ∷ us) d =
    if_elim (Ensures (IsUsableList c)) (is_local c.auth_mode && not (any is_usable (u ∷ us)))
      (λ l.
        Ensures-bind (IsUsableList c) (apply_initial_local_password c) _
          (λ v e. added c (u ∷ us) v (initial_usable c v e) d))
      (λ l. (d, λ k. absurd (ground (arith, k)), λ k. ground (arith, k, l)))

module _ (fl : Floats) (sh : Shown fl.Float) where
  -- Whatever the file of the settings holds, the accounts that a start of the panel makes of it have
  -- names of their own, there is one at least, and in local mode one at least has a usable password.
  pub merge-IsUsableList :
      (c : InitialAdmin) (saved : Option (Json fl.Float)) (users : List User)
      → merge_access_users fl sh c saved ≡ ok users
      → IsUsableList c users
  unfolding merge_access_users
  merge-IsUsableList c saved users h =
      let s = merge_users fl sh (saved_items fl sh saved) ([], []) in
      let tracked =
        merge_users-IsTracked fl sh (saved_items fl sh saved) ([], []) (tt, λ j. refl) in
      Ensures-ok (IsUsableList c) (with_initial c s.0) (with_initial-IsUsableList c s.0 tracked.0) h
