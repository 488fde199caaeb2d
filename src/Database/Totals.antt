-- ===== src/Database/Totals.antt =====
-- The summaries and the rest of the observations together count every observation of a range once:
-- `query_device_statistics` of app/services/database.py.
use amplifier_panel.Base.{
  ℕ, ◌+◌, ◌≡◌, refl, ap, sym, ◌∙◌, subst, Bool, false, not, ◌&&◌, String, some, List, [], ◌∷◌, ◌==◌,
  string_eq, nat_eq, pair_eq, select, count, length, leb, ltb, arith, Bool-cases, inl, inr, eq_refl,
  eq_of, if◌then◌else◌, if_elim, eq-pair, eq_comm,
}
use amplifier_panel.Base.Dict
use amplifier_panel.Base.Dict.{Dict, NodupKeys}
use amplifier_panel.Device.{Floats}
use amplifier_panel.Statistics.{Shown, Stats, merge_stats}
use amplifier_panel.Database.{Row, Store, Summary, hour_ms}
use amplifier_panel.Database.Snapshots.{in_bucket, bucket_of, summarize, Hourly}
use amplifier_panel.Base.{All, length-sort_by, length-select}
use amplifier_panel.Database.Summaries.{IsConsistent}
use amplifier_panel.Database.Queries.{
  in_range, full_hour, first_full, add_summaries, covered, raw_rows, statistics_from,
}

module _ (fl : Floats) (sh : Shown fl.Float) where
  -- What consistency says of one entry.
  abbrev Entry : List (Row fl sh) → (String × ℕ) × Summary fl sh → Type 0
  Entry rows ((p, b), found) =
      (found.sample_count ≡ count (in_bucket fl sh p b) rows) × (bucket_of b ≡ b)

  summarize-count :
      (p : String) (b : ℕ) (rows : List (Row fl sh)) (found : Summary fl sh)
      → summarize fl sh p b rows ≡ some found
      → found.sample_count ≡ count (in_bucket fl sh p b) rows
  unfolding summarize
  summarize-count p b rows found w = ground (
    arith,
    w,
    length-sort_by (λ (x y : Row fl sh). leb x.timestamp_ms y.timestamp_ms)
        (select (in_bucket fl sh p b) rows),
    length-select (in_bucket fl sh p b) rows,
  )

  All-entries :
      (rows : List (Row fl sh)) (hourly : Hourly fl sh)
      → NodupKeys hourly
      → ((p : String) (b : ℕ) (found : Summary fl sh)
          → Dict.lookup (p, b) hourly ≡ some found
          → (summarize fl sh p b rows ≡ some found) × (bucket_of b ≡ b))
      → All (Entry rows) hourly
  All-entries rows [] u h = tt
  All-entries rows (((p, b), found) ∷ hourly) u h =
      let (same, aligned) = h p b found (Dict.lookup-head (p, b) found hourly) in
      (
        (summarize-count p b rows found same, aligned),
        All-entries rows hourly u.1
            (λ q c x w. h q c x (Dict.lookup-tail (q, c) (p, b) found x hourly u.0 w)),
      )

  -- The counts of the summaries that are chosen.
  abbrev chosen_count : (String × ℕ → Bool) → Hourly fl sh → ℕ
  chosen_count chosen [] = 0
  chosen_count chosen ((k, found) ∷ hourly) =
      (if chosen k then found.sample_count else 0) + chosen_count chosen hourly

  count-add_summaries :
      (chosen : String × ℕ → Bool) (hourly : Hourly fl sh) (n : ℕ) (stats : Stats fl sh)
      → (add_summaries fl sh chosen hourly (n, stats)).0 ≡ n + chosen_count chosen hourly
  unfolding add_summaries
  count-add_summaries chosen [] n stats = omega arith
  count-add_summaries chosen ((k, found) ∷ hourly) n stats =
      if_elim
        (λ acc.
          (add_summaries fl sh chosen hourly acc).0 ≡ n + chosen_count chosen ((k, found) ∷ hourly))
        (chosen k)
        (λ e. ground (
          arith,
          e,
          count-add_summaries chosen hourly (n + found.sample_count)
              (merge_stats fl sh found.statistics stats),
        ))
        (λ e. ground (arith, e, count-add_summaries chosen hourly n stats))

  abbrev key_of : Row fl sh → String × ℕ
  key_of r = (r.profile, bucket_of r.timestamp_ms)

  same_bucket : (b t : ℕ) → bucket_of b ≡ b → (leb b t && ltb t (b + hour_ms)) ≡ (b == bucket_of t)
  same_bucket b t a = ground (arith, a)

  in_own_bucket :
      (p : String) (b : ℕ) (r : Row fl sh)
      → bucket_of b ≡ b
      → in_bucket fl sh p b r ≡ ◌==◌ {A = String × ℕ} (p, b) (key_of r)
  in_own_bucket p b r a =
      ground
        (arith, same_bucket b r.timestamp_ms a, eq-pair p r.profile b (bucket_of r.timestamp_ms))

  has_nothing : (k : String × ℕ) → Dict.has {V = Summary fl sh} k [] ≡ false
  unfolding Dict.lookup
  has_nothing k = refl

  -- The entries that are chosen and have the row in their hour.
  abbrev hits : (String × ℕ → Bool) → Row fl sh → Hourly fl sh → ℕ
  hits chosen r [] = 0
  hits chosen r ((k, found) ∷ hourly) =
      (if chosen k && in_bucket fl sh k.0 k.1 r then 1 else 0) + hits chosen r hourly

  abbrev picked : (String × ℕ → Bool) → List (Row fl sh) → Hourly fl sh → ℕ
  picked chosen rows [] = 0
  picked chosen rows ((k, found) ∷ hourly) =
      (if chosen k then count (in_bucket fl sh k.0 k.1) rows else 0) + picked chosen rows hourly

  chosen_count-picked :
      (chosen : String × ℕ → Bool) (rows : List (Row fl sh)) (hourly : Hourly fl sh)
      → All (Entry rows) hourly
      → chosen_count chosen hourly ≡ picked chosen rows hourly
  chosen_count-picked chosen rows [] a = refl
  chosen_count-picked chosen rows (((p, b), found) ∷ hourly) a =
      ground (arith, a.0, chosen_count-picked chosen rows hourly a.1)

  picked_none : (chosen : String × ℕ → Bool) (hourly : Hourly fl sh) → picked chosen [] hourly ≡ 0
  picked_none chosen [] = refl
  picked_none chosen (((p, b), found) ∷ hourly) = ground (arith, picked_none chosen hourly)

  picked_row :
      (chosen : String × ℕ → Bool) (r : Row fl sh) (rows : List (Row fl sh)) (hourly : Hourly fl sh)
      → picked chosen (r ∷ rows) hourly ≡ hits chosen r hourly + picked chosen rows hourly
  picked_row chosen r rows [] = omega arith
  picked_row chosen r rows (((p, b), found) ∷ hourly) =
      ground (arith, picked_row chosen r rows hourly)

  abbrev summarized : (String × ℕ → Bool) → Hourly fl sh → Row fl sh → Bool
  summarized chosen hourly r = chosen (key_of r) && Dict.has (key_of r) hourly

  hits_once :
      (chosen : String × ℕ → Bool) (r : Row fl sh) (rows : List (Row fl sh)) (hourly : Hourly fl sh)
      → All (Entry rows) hourly
      → NodupKeys hourly
      → hits chosen r hourly ≡ (if summarized chosen hourly r then 1 else 0)
  hits_once chosen r rows [] a u = ground (arith, has_nothing (key_of r))
  hits_once chosen r rows (((p, b), found) ∷ hourly) a u =
      let own = in_own_bucket p b r a.0.1 in
      let rest = hits_once chosen r rows hourly a.1 u.1 in
      elim (Bool-cases (key_of r == (p, b))) [
        | inl e ↦
            let same : key_of r ≡ (p, b) = eq_of {A = String × ℕ} (key_of r) (p, b) e in
            let gone : Dict.has (key_of r) hourly ≡ false =
              subst (λ k. Dict.has k hourly ≡ false) (sym same)
                (Dict.has-absent (p, b) hourly u.0) in
            let chosen_same : chosen (key_of r) ≡ chosen (p, b) = ap chosen same in
            ground (
              arith,
              own,
              rest,
              e,
              gone,
              chosen_same,
              eq_comm {A = String × ℕ} (key_of r) (p, b),
              Dict.has-cons (key_of r) (p, b) found hourly,
            )
        | inr e ↦ ground (
          arith,
          own,
          rest,
          e,
          eq_comm {A = String × ℕ} (key_of r) (p, b),
          Dict.has-cons (key_of r) (p, b) found hourly,
        )
      ]

  picked-All :
      (chosen : String × ℕ → Bool) (full rows : List (Row fl sh)) (hourly : Hourly fl sh)
      → All (Entry full) hourly
      → NodupKeys hourly
      → picked chosen rows hourly ≡ count (summarized chosen hourly) rows
  picked-All chosen full [] hourly a u = picked_none chosen hourly
  picked-All chosen full (r ∷ rows) hourly a u = ground (
    arith,
    picked_row chosen r rows hourly,
    hits_once chosen r full hourly a u,
    picked-All chosen full rows hourly a u,
  )

  abbrev in_total : String → ℕ → ℕ → Row fl sh → Bool
  in_total device_id start end = in_range fl sh device_id (some start) (some end)

  abbrev is_raw : String → ℕ → ℕ → Hourly fl sh → Row fl sh → Bool
  is_raw device_id start end hourly r =
      in_total device_id start end r
      && not (covered fl sh device_id (first_full fl sh start) (bucket_of end) hourly r)

  abbrev full : String → ℕ → ℕ → String × ℕ → Bool
  full device_id start end = full_hour fl sh device_id (first_full fl sh start) (bucket_of end)

  -- A row of the range is in a summary that is used, or is read itself; a row outside is neither.
  row_once :
      (device_id : String) (start end : ℕ) (hourly : Hourly fl sh) (r : Row fl sh)
      → (if summarized (full device_id start end) hourly r then 1 else 0)
          + (if is_raw device_id start end hourly r then 1 else 0)
        ≡ (if in_total device_id start end r then 1 else 0)
  row_once device_id start end hourly r = elim (Bool-cases (r.profile == device_id)) [
    | inl e ↦ ground (
      arith,
      e,
      eq_refl device_id,
      ap (λ p. Dict.has (p, bucket_of r.timestamp_ms) hourly) (eq_of r.profile device_id e),
      Bool-cases (Dict.has (device_id, bucket_of r.timestamp_ms) hourly),
    )
    | inr e ↦ ground (arith, e)
  ]

  rows_once :
      (device_id : String) (start end : ℕ) (hourly : Hourly fl sh) (rows : List (Row fl sh))
      → count (summarized (full device_id start end) hourly) rows
          + count (is_raw device_id start end hourly) rows
        ≡ count (in_total device_id start end) rows
  rows_once device_id start end hourly [] = omega arith
  rows_once device_id start end hourly (r ∷ rows) =
      omega
        (arith, row_once device_id start end hourly r, rows_once device_id start end hourly rows)

  length-raw_rows :
      (device_id : String) (start end : ℕ) (s : Store fl sh)
      → length (raw_rows fl sh device_id start end s)
        ≡ count (is_raw device_id start end s.hourly) s.rows
  length-raw_rows device_id start end s =
      length-sort_by (λ (x y : Row fl sh). leb x.timestamp_ms y.timestamp_ms)
        (select (is_raw device_id start end s.hourly) s.rows)
      ∙ length-select (is_raw device_id start end s.hourly) s.rows

  -- The sample count of the statistics of a range is the number of the observations of the device in
  -- the range, both ends included, however many of its hours come from saved summaries, when the
  -- summaries are consistent with the observations.
  pub sample_count_exact :
      (device_id : String) (start end : ℕ) (s : Store fl sh)
      → IsConsistent fl sh s.rows s.hourly
      → (statistics_from fl sh device_id start end s).0
        ≡ count (in_range fl sh device_id (some start) (some end)) s.rows
  unfolding statistics_from
  sample_count_exact device_id start end s i =
      let entries = All-entries s.rows s.hourly i.nodup i.agrees in
      let chosen = full device_id start end in
      omega (
        arith,
        count-add_summaries chosen s.hourly 0 [],
        chosen_count-picked chosen s.rows s.hourly entries,
        picked-All chosen s.rows s.rows s.hourly entries i.nodup,
        length-raw_rows device_id start end s,
        rows_once device_id start end s.hourly s.rows,
      )
