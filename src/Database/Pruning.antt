-- ===== src/Database/Pruning.antt =====
-- The cap on the observations keeps the summaries true: `_prune_device_snapshots` of
-- app/services/database.py.
use amplifier_panel.Base.{
  ℕ, zero, suc, ◌≤◌, ◌<◌, ◌≡◌, ◌≢◌, refl, sym, ◌∙◌, subst, Bool, true, false, not, String, Option,
  none, some, List, [], ◌∷◌, ◌==◌, string_eq, nat_eq, pair_eq, select, eqb, arith, Bool-cases,
  Option-cases, inl, inr, eq_of, ne_of, if_elim,
}
use amplifier_panel.Base.Dict
use amplifier_panel.Base.Dict.{Dict, NodupKeys}
use amplifier_panel.Device.{Floats}
use amplifier_panel.Statistics.{Shown}
use amplifier_panel.Database.{Row, Store, Summary}
use amplifier_panel.Database.Snapshots.{
  of_profile, in_bucket, bucket_of, first_time, drop_oldest, prune, outdated, Hourly,
}
use amplifier_panel.Database.Retention.{other_profile, surplus, select-drop_oldest}
use amplifier_panel.Database.Summaries.{IsConsistent, summarize-rows}
use amplifier_panel.Base.{All}

module _ (fl : Floats) (sh : Shown fl.Float) where
  abbrev pub AtLeast : ℕ → String → List (Row fl sh) → Type 0
  AtLeast t p rows = All (λ (r : Row fl sh). of_profile fl sh p r ≡ true → t ≤ r.timestamp_ms) rows

  -- The observations of a profile were stored in the order of their times.
  abbrev pub Increasing : String → List (Row fl sh) → Type 0
  Increasing p [] = Unit
  Increasing p (r ∷ rows) =
      (of_profile fl sh p r ≡ true → AtLeast r.timestamp_ms p rows) × Increasing p rows

  first_time-AtLeast :
      (t : ℕ) (p : String) (rows : List (Row fl sh)) (f : ℕ)
      → AtLeast t p rows
      → first_time fl sh p rows ≡ some f
      → t ≤ f
  unfolding first_time
  first_time-AtLeast t p [] f a w = ground arith
  first_time-AtLeast t p (r ∷ rows) f a w = elim (Option-cases (first_time fl sh p rows)) [
    | inl n ↦ ground (arith, a.0)
    | inr (g, n) ↦ ground (arith, a.0, first_time-AtLeast t p rows g a.1 n)
  ]

  AtLeast-drop_oldest :
      (t : ℕ) (p q : String) (n : ℕ) (rows : List (Row fl sh))
      → AtLeast t p rows
      → AtLeast t p (drop_oldest fl sh q n rows)
  unfolding drop_oldest
  AtLeast-drop_oldest t p q zero [] a = tt
  AtLeast-drop_oldest t p q (suc n) [] a = tt
  AtLeast-drop_oldest t p q zero (r ∷ rows) a = a
  AtLeast-drop_oldest t p q (suc n) (r ∷ rows) a =
      if_elim (AtLeast t p) (of_profile fl sh q r) (λ _. AtLeast-drop_oldest t p q n rows a.1)
        (λ _. (a.0, AtLeast-drop_oldest t p q (suc n) rows a.1))

  pub Increasing-drop_oldest :
      (p q : String) (n : ℕ) (rows : List (Row fl sh))
      → Increasing p rows
      → Increasing p (drop_oldest fl sh q n rows)
  unfolding drop_oldest
  Increasing-drop_oldest p q zero [] a = tt
  Increasing-drop_oldest p q (suc n) [] a = tt
  Increasing-drop_oldest p q zero (r ∷ rows) a = a
  Increasing-drop_oldest p q (suc n) (r ∷ rows) a =
      if_elim (Increasing p) (of_profile fl sh q r) (λ _. Increasing-drop_oldest p q n rows a.1)
        (λ _. (
          λ w. AtLeast-drop_oldest r.timestamp_ms p q (suc n) rows (a.0 w),
          Increasing-drop_oldest p q (suc n) rows a.1,
        ))

  -- The rows that go are in none of the hours after the first row that stays.
  select_bucket-drop_oldest :
      (p : String) (b f n : ℕ) (rows : List (Row fl sh))
      → Increasing p rows
      → first_time fl sh p (drop_oldest fl sh p n rows) ≡ some f
      → f < b
      → select (in_bucket fl sh p b) (drop_oldest fl sh p n rows)
        ≡ select (in_bucket fl sh p b) rows
  unfolding drop_oldest first_time
  select_bucket-drop_oldest p b f zero [] a w l = refl
  select_bucket-drop_oldest p b f (suc n) [] a w l = refl
  select_bucket-drop_oldest p b f zero (r ∷ rows) a w l = refl
  select_bucket-drop_oldest p b f (suc n) (r ∷ rows) a w l =
      elim (Bool-cases (of_profile fl sh p r)) [
        | inl e ↦
            let w' : first_time fl sh p (drop_oldest fl sh p n rows) ≡ some f =
              ground (arith, w, e) in
            let r_le =
              first_time-AtLeast r.timestamp_ms p (drop_oldest fl sh p n rows) f
                (AtLeast-drop_oldest r.timestamp_ms p p n rows (a.0 e)) w' in
            ground (arith, e, r_le, select_bucket-drop_oldest p b f n rows a.1 w' l)
        | inr e ↦
            let w' : first_time fl sh p (drop_oldest fl sh p (suc n) rows) ≡ some f =
              ground (arith, w, e) in
            ground (arith, e, select_bucket-drop_oldest p b f (suc n) rows a.1 w' l)
      ]

  bucket-apart :
      (p q : String)
      → p ≢ q
      → (b : ℕ) (r : Row fl sh) → of_profile fl sh p r ≡ true
      → in_bucket fl sh q b r ≡ false
  bucket-apart p q d b r w = ground (arith, other_profile fl sh p q d r w)

  -- A summary that stays is of another profile, or of a later hour than the first row that stays.
  select-prune :
      (p q : String) (b n : ℕ) (rows : List (Row fl sh)) (o : Option ℕ)
      → Increasing p rows
      → first_time fl sh p (drop_oldest fl sh p n rows) ≡ o
      → outdated fl sh p o (q, b) ≡ false
      → bucket_of b ≡ b
      → select (in_bucket fl sh q b) (drop_oldest fl sh p n rows)
        ≡ select (in_bucket fl sh q b) rows
  select-prune p q b n rows none a w k l =
      select-drop_oldest fl sh (in_bucket fl sh q b) p
        (bucket-apart p q (λ e. ne_of q p k (sym e)) b) n rows
  select-prune p q b n rows (some f) a w k l = elim (Bool-cases (q == p)) [
    | inl e ↦
        subst
          (λ x.
            select (in_bucket fl sh x b) (drop_oldest fl sh p n rows)
            ≡ select (in_bucket fl sh x b) rows)
          (sym (eq_of q p e)) (select_bucket-drop_oldest p b f n rows a w (ground (arith, e, k)))
    | inr e ↦
        select-drop_oldest fl sh (in_bucket fl sh q b) p
          (bucket-apart p q (λ x. ne_of q p e (sym x)) b) n rows
  ]

  IsConsistent-drop :
      (p : String) (n : ℕ) (rows : List (Row fl sh)) (hourly : Hourly fl sh)
      → IsConsistent fl sh rows hourly
      → Increasing p rows
      → IsConsistent fl sh (drop_oldest fl sh p n rows) (
          Dict.keep
            (λ k _. not (outdated fl sh p (first_time fl sh p (drop_oldest fl sh p n rows)) k))
            hourly)
  IsConsistent-drop p n rows hourly i a =
      let rows' = drop_oldest fl sh p n rows in
      let test : String × ℕ → Summary fl sh → Bool =
        λ k _. not (outdated fl sh p (first_time fl sh p rows') k) in
      record {
        nodup = Dict.keep-NodupKeys test hourly i.nodup;
        agrees = λ q b found w.
            let (old, stays) =
              Dict.kept-some test (q, b) (Dict.lookup (q, b) hourly) found
                (sym (Dict.lookup-keep test (q, b) hourly i.nodup) ∙ w) in
            let (same, aligned) = i.agrees q b found old in
            (
              summarize-rows fl sh q b rows' rows (
                    select-prune p q b n rows (first_time fl sh p rows') a refl
                      (ground (arith, stays)) aligned)
                  ∙ same,
              aligned,
            );
      }

  pub IsConsistent-prune :
      (m : ℕ) (p : String) (s : Store fl sh)
      → IsConsistent fl sh s.rows s.hourly
      → Increasing p s.rows
      → IsConsistent fl sh (prune fl sh m p s).0.rows (prune fl sh m p s).0.hourly
  unfolding prune
  IsConsistent-prune m p s i a =
      if_elim (λ (st : Store fl sh × ℕ). IsConsistent fl sh st.0.rows st.0.hourly)
        (eqb (surplus fl sh m p s.rows) 0) (λ _. i)
        (λ _. IsConsistent-drop p (surplus fl sh m p s.rows) s.rows s.hourly i a)
