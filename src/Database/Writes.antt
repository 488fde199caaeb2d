-- ===== src/Database/Writes.antt =====
-- A write keeps the tables well formed: `write_device_snapshot` of app/services/database.py.
use amplifier_panel.Base.{
  ℕ, zero, suc, ◌≤◌, ◌≡◌, refl, sym, subst, Bool, true, String, Option, none, some, List, [], ◌∷◌,
  ◌++◌, string_eq, nat_eq, pair_eq, length, arith, Option-cases, inl, inr, eq_of, length-append,
  if_elim,
}
use amplifier_panel.Device.{Floats}
use amplifier_panel.Statistics.{Json, Shown}
use amplifier_panel.Database.{Row, Store}
use amplifier_panel.Database.Snapshots.{
  Fault, in_statements, at_commit, of_profile, last_time, prune, prune_each, apply_record_limit,
  insert_row, limit_profile, transact, write_device_snapshot,
}
use amplifier_panel.Database.Retention.{surplus, prune-rows, new_row}
use amplifier_panel.Database.Summaries.{IsConsistent}
use amplifier_panel.Base.{All}
use amplifier_panel.Database.Refresh.{IsConsistent-refresh}
use amplifier_panel.Database.Pruning.{
  AtLeast, Increasing, Increasing-drop_oldest, IsConsistent-prune,
}
use amplifier_panel.Database.Retention.{prune-snapshot_count}

module _ (fl : Floats) (sh : Shown fl.Float) where
  -- The tables agree with one another: the summaries with the observations, the observations of each
  -- profile with the order of their times, and the count of the triggers with their number.
  pub record IsWellFormed (s : Store fl sh) : Type 0 where
    pub consistent : IsConsistent fl sh s.rows s.hourly
    pub increasing : (q : String) → Increasing fl sh q s.rows
    pub counted : s.snapshot_count ≡ length s.rows

  -- The time is not before the last one that is stored.
  abbrev pub NotBefore : Option ℕ → ℕ → Type 0
  NotBefore none t = Unit
  NotBefore (some u) t = u ≤ t

  AtMost : ℕ → String → List (Row fl sh) → Type 0
  AtMost t p rows = All (λ (r : Row fl sh). of_profile fl sh p r ≡ true → r.timestamp_ms ≤ t) rows

  last_time-AtMost :
      (p : String) (t : ℕ) (rows : List (Row fl sh))
      → NotBefore (last_time fl sh p rows) t
      → AtMost t p rows
  unfolding AtMost last_time
  last_time-AtMost p t [] n = tt
  last_time-AtMost p t (r ∷ rows) n = (
    λ w. elim (Option-cases (last_time fl sh p rows)) [
      | inl e ↦ ground (arith, n, e, w)
      | inr (u, e) ↦ ground (arith, n, e, w)
    ],
    last_time-AtMost p t rows (elim (Option-cases (last_time fl sh p rows)) [
      | inl e ↦ rw e tt
      | inr (u, e) ↦ rw e (ground (arith, n, e))
    ]),
  )

  AtLeast-append :
      (t : ℕ) (q : String) (r : Row fl sh) (rows : List (Row fl sh))
      → AtLeast fl sh t q rows
      → (of_profile fl sh q r ≡ true → t ≤ r.timestamp_ms)
      → AtLeast fl sh t q (rows ++ r ∷ [])
  AtLeast-append t q r [] a l = (l, tt)
  AtLeast-append t q r (x ∷ rows) a l = (a.0, AtLeast-append t q r rows a.1 l)

  Increasing-append :
      (p : String) (t : ℕ) (document : Json fl.Float) (q : String) (rows : List (Row fl sh))
      → AtMost t p rows
      → Increasing fl sh q rows
      → Increasing fl sh q (rows ++ new_row fl sh p t document ∷ [])
  unfolding AtMost
  Increasing-append p t document q [] m a = (λ _. tt, tt)
  Increasing-append p t document q (x ∷ rows) m a = (
    λ w.
        AtLeast-append x.timestamp_ms q (new_row fl sh p t document) rows (a.0 w)
          (λ e. m.0 (subst (λ y. of_profile fl sh y x ≡ true) (sym (eq_of p q e)) w)),
    Increasing-append p t document q rows m.1 a.1,
  )

  insert-IsWellFormed :
      (p : String) (t : ℕ) (document : Json fl.Float) (s : Store fl sh)
      → IsWellFormed s
      → NotBefore (last_time fl sh p s.rows) t
      → IsWellFormed (insert_row fl sh p t document s)
  unfolding insert_row
  insert-IsWellFormed p t document s i n = record {
    consistent =
        IsConsistent-refresh fl sh p t document s.rows s.hourly (last_time fl sh p s.rows)
          i.consistent refl;
    increasing = λ q.
        Increasing-append p t document q s.rows (last_time-AtMost p t s.rows n) (i.increasing q);
    counted = ground (arith, i.counted, length-append s.rows (new_row fl sh p t document ∷ []));
  }

  prune-IsWellFormed :
      (m : ℕ) (p : String) (s : Store fl sh) → IsWellFormed s → IsWellFormed (prune fl sh m p s).0
  prune-IsWellFormed m p s i = record {
    consistent = IsConsistent-prune fl sh m p s i.consistent (i.increasing p);
    increasing = λ q.
        rw (prune-rows fl sh m p s)
          (Increasing-drop_oldest fl sh q p (surplus fl sh m p s.rows) s.rows (i.increasing q));
    counted = prune-snapshot_count fl sh m p s i.counted;
  }

  limit-IsWellFormed :
      (m : ℕ) (p : String) (s : Store fl sh)
      → IsWellFormed s
      → IsWellFormed (limit_profile fl sh m p s)
  unfolding limit_profile
  limit-IsWellFormed zero p s i = i
  limit-IsWellFormed (suc m) p s i = prune-IsWellFormed (suc m) p s i

  IsWellFormed-transact :
      (m : ℕ) (p : String) (t : ℕ) (document : Json fl.Float) (fault : Option (Fault × String))
      (s : Store fl sh)
      → IsWellFormed s
      → NotBefore (last_time fl sh p s.rows) t
      → IsWellFormed (transact fl sh m p t document fault s).1
  unfolding transact
  IsWellFormed-transact m p t document none s i n =
      let j = limit-IsWellFormed m p _ (insert-IsWellFormed p t document s i n) in
      record { consistent = j.consistent; increasing = j.increasing; counted = j.counted }
  IsWellFormed-transact m p t document (some (in_statements, e)) s i n = record {
    consistent = i.consistent;
    increasing = i.increasing;
    counted = i.counted;
  }
  IsWellFormed-transact m p t document (some (at_commit, e)) s i n = record {
    consistent = i.consistent;
    increasing = i.increasing;
    counted = i.counted;
  }

  -- A write keeps the tables well formed, whether it is done, fails at SQLite or is refused, when the
  -- observation is not older than the last one that is stored for its profile: every hourly summary is
  -- still the summary of the observations of its hour, with any cap on the records.
  pub write-IsWellFormed :
      (m : ℕ) (p reason : String) (t : ℕ) (document : Json fl.Float)
      (fault : Option (Fault × String)) (s : Store fl sh)
      → IsWellFormed s
      → NotBefore (last_time fl sh p s.rows) t
      → IsWellFormed (write_device_snapshot fl sh m p (some (t, document)) reason fault s).1
  unfolding write_device_snapshot
  write-IsWellFormed m p reason t document fault s i n =
      if_elim (λ (r : Bool × Store fl sh). IsWellFormed r.1) s.connected
        (λ _. IsWellFormed-transact m p t document fault s i n) (λ _. i)

  prune_each-IsWellFormed :
      (m : ℕ) (l : List String) (s : Store fl sh) (n : ℕ)
      → IsWellFormed s
      → IsWellFormed (prune_each fl sh m l (s, n)).0
  unfolding prune_each
  prune_each-IsWellFormed m [] s n i = i
  prune_each-IsWellFormed m (p ∷ l) s n i =
      prune_each-IsWellFormed m l _ _ (prune-IsWellFormed m p s i)

  -- A new cap on the records keeps the tables well formed.
  pub apply_record_limit-IsWellFormed :
      (m : ℕ) (s : Store fl sh) → IsWellFormed s → IsWellFormed (apply_record_limit fl sh m s).1
  unfolding apply_record_limit
  apply_record_limit-IsWellFormed zero s i = i
  apply_record_limit-IsWellFormed (suc m) s i =
      if_elim (λ (r : ℕ × Store fl sh). IsWellFormed r.1) s.connected
        (λ _. prune_each-IsWellFormed (suc m) _ s 0 i) (λ _. i)
