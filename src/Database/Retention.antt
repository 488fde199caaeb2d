-- ===== src/Database/Retention.antt =====
-- Which observations stay: the cap on the records of one device in app/services/database.py.
use amplifier_panel.Base.{
  ℕ, zero, suc, ◌+◌, ◌-◌, ◌≤◌, ◌≡◌, ◌≢◌, refl, ap, sym, ◌∙◌, Bool, true, false, String, Option,
  none, some, List, [], ◌∷◌, ◌++◌, string_eq, select, count, length, drop, arith, eq_refl, eq_of,
  select-append, length-select, length-drop, length-append, append_nil, if_true,
}
use amplifier_panel.Device.{Floats}
use amplifier_panel.Statistics.{Json, Shown}
use amplifier_panel.Database.{Row, Store}
use amplifier_panel.Database.Snapshots.{
  Fault, in_statements, at_commit, of_profile, drop_oldest, prune, insert_row, limit_profile,
  transact, write_device_snapshot,
}

module _ (fl : Floats) (sh : Shown fl.Float) where
  -- The rows of one profile, from the oldest id to the newest.
  abbrev pub rows_of : String → List (Row fl sh) → List (Row fl sh)
  rows_of profile rows = select (of_profile fl sh profile) rows

  pub rows_of-drop_oldest :
      (profile : String) (n : ℕ) (rows : List (Row fl sh))
      → rows_of profile (drop_oldest fl sh profile n rows) ≡ drop n (rows_of profile rows)
  unfolding drop_oldest
  rows_of-drop_oldest profile zero [] = refl
  rows_of-drop_oldest profile (suc n) [] = refl
  rows_of-drop_oldest profile zero (r ∷ rows) = refl
  rows_of-drop_oldest profile (suc n) (r ∷ rows) =
      ground (arith, rows_of-drop_oldest profile n rows, rows_of-drop_oldest profile (suc n) rows)

  -- A test that no row of the profile passes sees the same rows.
  pub select-drop_oldest :
      (test : Row fl sh → Bool) (profile : String)
      → ((r : Row fl sh) → of_profile fl sh profile r ≡ true → test r ≡ false)
      → (n : ℕ) (rows : List (Row fl sh))
      → select test (drop_oldest fl sh profile n rows) ≡ select test rows
  unfolding drop_oldest
  select-drop_oldest test profile h zero [] = refl
  select-drop_oldest test profile h (suc n) [] = refl
  select-drop_oldest test profile h zero (r ∷ rows) = refl
  select-drop_oldest test profile h (suc n) (r ∷ rows) = ground (
    arith,
    h r,
    select-drop_oldest test profile h n rows,
    select-drop_oldest test profile h (suc n) rows,
  )

  pub other_profile :
      (p q : String)
      → p ≢ q
      → (r : Row fl sh) → of_profile fl sh p r ≡ true
      → of_profile fl sh q r ≡ false
  other_profile p q d r w = ground (arith, eq_of r.profile p w)

  drop_oldest_zero : (p : String) (rows : List (Row fl sh)) → drop_oldest fl sh p 0 rows ≡ rows
  unfolding drop_oldest
  drop_oldest_zero p [] = refl
  drop_oldest_zero p (r ∷ rows) = refl

  -- How many rows of a profile are above the cap.
  abbrev pub surplus : ℕ → String → List (Row fl sh) → ℕ
  surplus m p rows = count (of_profile fl sh p) rows - m

  pub prune-rows :
      (m : ℕ) (p : String) (s : Store fl sh)
      → (prune fl sh m p s).0.rows ≡ drop_oldest fl sh p (surplus m p s.rows) s.rows
  unfolding prune
  prune-rows m p s = ground (arith, drop_oldest_zero p s.rows)

  length-drop_oldest :
      (p : String) (n : ℕ) (rows : List (Row fl sh))
      → n ≤ count (of_profile fl sh p) rows
      → length (drop_oldest fl sh p n rows) + n ≡ length rows
  unfolding drop_oldest
  length-drop_oldest p zero [] l = omega arith
  length-drop_oldest p (suc n) [] l = absurd (omega arith)
  length-drop_oldest p zero (r ∷ rows) l = omega arith
  length-drop_oldest p (suc n) (r ∷ rows) l =
      ground (arith, length-drop_oldest p n rows, length-drop_oldest p (suc n) rows)

  pub prune-snapshot_count :
      (m : ℕ) (p : String) (s : Store fl sh)
      → s.snapshot_count ≡ length s.rows
      → (prune fl sh m p s).0.snapshot_count ≡ length (prune fl sh m p s).0.rows
  unfolding prune
  prune-snapshot_count m p s w = ground (arith, length-drop_oldest p (surplus m p s.rows) s.rows)

  pub limit-snapshot_count :
      (m : ℕ) (p : String) (s : Store fl sh)
      → s.snapshot_count ≡ length s.rows
      → (limit_profile fl sh m p s).snapshot_count ≡ length (limit_profile fl sh m p s).rows
  unfolding limit_profile
  limit-snapshot_count zero p s w = w
  limit-snapshot_count (suc m) p s w = prune-snapshot_count (suc m) p s w

  pub insert-snapshot_count :
      (p : String) (t : ℕ) (document : Json fl.Float) (s : Store fl sh)
      → s.snapshot_count ≡ length s.rows
      → (insert_row fl sh p t document s).snapshot_count
        ≡ length (insert_row fl sh p t document s).rows
  unfolding insert_row
  insert-snapshot_count p t document s w = ground (
    arith,
    length-append s.rows (record { timestamp_ms = t; profile = p; document = document } ∷ []),
  )

  abbrev pub new_row : String → ℕ → Json fl.Float → Row fl sh
  new_row p t document = record { timestamp_ms = t; profile = p; document = document }

  pub write-rows :
      (m : ℕ) (p reason : String) (t : ℕ) (document : Json fl.Float) (s : Store fl sh)
      → s.connected ≡ true
      → (write_device_snapshot fl sh (suc m) p (some (t, document)) reason none s).1.rows
        ≡ drop_oldest fl sh p
            (surplus (suc m) p (s.rows ++ new_row p t document ∷ []))
            (s.rows ++ new_row p t document ∷ [])
  unfolding write_device_snapshot transact limit_profile insert_row
  write-rows m p reason t document s c =
      ap (λ (r : Bool × Store fl sh). r.1.rows) (if_true s.connected _ _ c)
      ∙ prune-rows (suc m) p (insert_row fl sh p t document s)

  rows_of-new :
      (p : String) (t : ℕ) (document : Json fl.Float) (rows : List (Row fl sh))
      → rows_of p (rows ++ new_row p t document ∷ []) ≡ rows_of p rows ++ new_row p t document ∷ []
  rows_of-new p t document rows =
      rw (select-append (of_profile fl sh p) rows (new_row p t document ∷ []), eq_refl p) refl

  rows_of_other-new :
      (p q : String) (t : ℕ) (document : Json fl.Float) (rows : List (Row fl sh))
      → p ≢ q
      → rows_of q (rows ++ new_row p t document ∷ []) ≡ rows_of q rows
  rows_of_other-new p q t document rows d = ground (
    arith,
    select-append (of_profile fl sh q) rows (new_row p t document ∷ []),
    append_nil (rows_of q rows),
  )

  -- A write that is reported as done, with a cap above zero, leaves for its profile the newest of the
  -- stored observations with the new one, and no more than the cap; every other profile keeps its own.
  pub write_keeps_newest :
      (m : ℕ) (p q reason : String) (t : ℕ) (document : Json fl.Float) (s : Store fl sh)
      → s.connected ≡ true
      → p ≢ q
      → let after = (write_device_snapshot fl sh (suc m) p (some (t, document)) reason none s).1 in
        let stored = rows_of p s.rows ++ new_row p t document ∷ [] in
        (rows_of p after.rows ≡ drop (length stored - suc m) stored)
        × (length (rows_of p after.rows) ≤ suc m)
        × (rows_of q after.rows ≡ rows_of q s.rows)
  write_keeps_newest m p q reason t document s c d =
      let rows = s.rows ++ new_row p t document ∷ [] in
      let stored = rows_of p s.rows ++ new_row p t document ∷ [] in
      let n = surplus (suc m) p rows in
      let kept : rows_of p
            (write_device_snapshot fl sh (suc m) p (some (t, document)) reason none s).1.rows
          ≡ drop (length stored - suc m) stored =
        rw (
          write-rows m p reason t document s c,
          rows_of-drop_oldest p n rows,
          sym (length-select (of_profile fl sh p) rows),
          rows_of-new p t document s.rows,
        ) in
      (
        kept,
        omega (arith, ap length kept, length-drop (length stored - suc m) stored),
        rw (write-rows m p reason t document s c) (
            select-drop_oldest (of_profile fl sh q) p (other_profile p q d) n rows
            ∙ rows_of_other-new p q t document s.rows d),
      )

  -- The count that the triggers keep is the number of stored observations, after a write that was
  -- done, that failed in its statements or at the commit, or that never began.
  pub write_counts :
      (m : ℕ) (p reason : String) (o : Option (ℕ × Json fl.Float)) (fault : Option (Fault × String))
      (s : Store fl sh)
      → s.snapshot_count ≡ length s.rows
      → (write_device_snapshot fl sh m p o reason fault s).1.snapshot_count
        ≡ length (write_device_snapshot fl sh m p o reason fault s).1.rows
  unfolding write_device_snapshot transact
  write_counts m p reason none fault s w = w
  write_counts m p reason (some (t, document)) none s w = ground (
    arith,
    limit-snapshot_count m p (insert_row fl sh p t document s)
        (insert-snapshot_count p t document s w),
  )
  write_counts m p reason (some (t, document)) (some (in_statements, e)) s w = ground arith
  write_counts m p reason (some (t, document)) (some (at_commit, e)) s w = ground arith
