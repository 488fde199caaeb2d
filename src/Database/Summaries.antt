-- ===== src/Database/Summaries.antt =====
-- The hourly summaries agree with the stored observations: how `write_device_snapshot` of
-- app/services/database.py makes them, makes them again and drops them.
use amplifier_panel.Base.{
  ℕ, ◌<◌, ◌≡◌, refl, sym, ◌∙◌, subst, Bool, true, false, String, Option, none, some, List, [], ◌∷◌,
  ◌++◌, ◌==◌, string_eq, nat_eq, pair_eq, select, arith, Bool-cases, Option-cases, inl, inr, eq_of,
  if◌then◌else◌, select-append, append_nil, sort_by, if_true, if_false,
}
use amplifier_panel.Base.Dict
use amplifier_panel.Base.Dict.{Dict, NodupKeys}
use amplifier_panel.Device.{Floats}
use amplifier_panel.Statistics.{Json, Shown}
use amplifier_panel.Database.{Row, Summary}
use amplifier_panel.Database.Snapshots.{
  in_bucket, bucket_of, summarize, store_summary, rebuild_hour, last_time, Hourly,
}
use amplifier_panel.Database.Retention.{new_row}

pub bucket_of_idem : (t : ℕ) → bucket_of (bucket_of t) ≡ bucket_of t
bucket_of_idem t = omega arith

module _ (fl : Floats) (sh : Shown fl.Float) where
  -- Each summary is the summary of the rows that are stored for its hour.
  pub record IsConsistent (rows : List (Row fl sh)) (hourly : Hourly fl sh) : Type 0 where
    pub nodup : NodupKeys hourly
    pub agrees :
        (p : String) (bucket : ℕ) (found : Summary fl sh)
        → Dict.lookup (p, bucket) hourly ≡ some found
        → (summarize fl sh p bucket rows ≡ some found) × (bucket_of bucket ≡ bucket)

  abbrev pub same_key : String × ℕ → String × ℕ → Bool
  same_key k l = k == l

  -- The summary depends on the rows of its hour alone.
  pub summarize-rows :
      (p : String) (bucket : ℕ) (rows rows' : List (Row fl sh))
      → select (in_bucket fl sh p bucket) rows ≡ select (in_bucket fl sh p bucket) rows'
      → summarize fl sh p bucket rows ≡ summarize fl sh p bucket rows'
  unfolding summarize
  summarize-rows p bucket rows rows' w = rw w refl

  pub select-new :
      (p : String) (bucket : ℕ) (r : Row fl sh) (rows : List (Row fl sh))
      → in_bucket fl sh p bucket r ≡ false
      → select (in_bucket fl sh p bucket) (rows ++ r ∷ []) ≡ select (in_bucket fl sh p bucket) rows
  select-new p bucket r rows w = ground (
    arith,
    w,
    select-append (in_bucket fl sh p bucket) rows (r ∷ []),
    append_nil (select (in_bucket fl sh p bucket) rows),
  )

  -- Without a row that passes the test there is no summary.
  summarize-none :
      (p : String) (bucket : ℕ) (rows : List (Row fl sh))
      → select (in_bucket fl sh p bucket) rows ≡ []
      → summarize fl sh p bucket rows ≡ none
  unfolding summarize sort_by
  summarize-none p bucket rows w = rw w refl

  store_summary-NodupKeys :
      (p : String) (bucket : ℕ) (o : Option (Summary fl sh)) (hourly : Hourly fl sh)
      → NodupKeys hourly
      → NodupKeys (store_summary fl sh p bucket o hourly)
  store_summary-NodupKeys p bucket none hourly u = Dict.erase-NodupKeys (p, bucket) hourly u
  store_summary-NodupKeys p bucket (some found) hourly u =
      Dict.insert-NodupKeys (p, bucket) found hourly u

  lookup-store_summary :
      (k : String × ℕ) (p : String) (bucket : ℕ) (o : Option (Summary fl sh))
      (hourly : Hourly fl sh)
      → Dict.lookup k (store_summary fl sh p bucket o hourly)
        ≡ (if same_key k (p, bucket) then o else Dict.lookup k hourly)
  lookup-store_summary k p bucket none hourly = Dict.lookup-erase k (p, bucket) hourly
  lookup-store_summary k p bucket (some found) hourly =
      Dict.lookup-insert k (p, bucket) found hourly

  pub IsConsistent-rebuild :
      (p : String) (bucket : ℕ) (rows rows' : List (Row fl sh)) (hourly : Hourly fl sh)
      → bucket_of bucket ≡ bucket
      → IsConsistent rows hourly
      → ((q : String) (b : ℕ) (found : Summary fl sh)
          → same_key (q, b) (p, bucket) ≡ false
          → Dict.lookup (q, b) hourly ≡ some found
          → select (in_bucket fl sh q b) rows' ≡ select (in_bucket fl sh q b) rows)
      → IsConsistent rows' (rebuild_hour fl sh p bucket rows' hourly)
  unfolding rebuild_hour
  IsConsistent-rebuild p bucket rows rows' hourly a i same =
      let o = summarize fl sh p bucket rows' in
      record {
        nodup = store_summary-NodupKeys p bucket o hourly i.nodup;
        agrees = λ q b found w.
            let looked = sym (lookup-store_summary (q, b) p bucket o hourly) ∙ w in
            elim (Bool-cases (same_key (q, b) (p, bucket))) [
              | inl e ↦
                  subst
                    (λ (k : String × ℕ).
                      (summarize fl sh k.0 k.1 rows' ≡ some found) × (bucket_of k.1 ≡ k.1))
                    (sym (eq_of (q, b) (p, bucket) e))
                    (
                      sym (if_true (same_key (q, b) (p, bucket)) o (Dict.lookup (q, b) hourly) e)
                          ∙ looked,
                      a,
                    )
              | inr e ↦
                  let old =
                    sym (if_false (same_key (q, b) (p, bucket)) o (Dict.lookup (q, b) hourly) e)
                    ∙ looked in
                  (
                    summarize-rows q b rows' rows (same q b found e old)
                        ∙ (i.agrees q b found old).0,
                    (i.agrees q b found old).1,
                  )
            ];
      }

  pub IsConsistent-keep :
      (rows rows' : List (Row fl sh)) (hourly : Hourly fl sh)
      → IsConsistent rows hourly
      → ((q : String) (b : ℕ) (found : Summary fl sh)
          → Dict.lookup (q, b) hourly ≡ some found
          → select (in_bucket fl sh q b) rows' ≡ select (in_bucket fl sh q b) rows)
      → IsConsistent rows' hourly
  IsConsistent-keep rows rows' hourly i same = record {
    nodup = i.nodup;
    agrees = λ q b found w. (
      summarize-rows q b rows' rows (same q b found w) ∙ (i.agrees q b found w).0,
      (i.agrees q b found w).1,
    );
  }

  pub last_time-none :
      (p : String) (b : ℕ) (rows : List (Row fl sh))
      → last_time fl sh p rows ≡ none
      → select (in_bucket fl sh p b) rows ≡ []
  unfolding last_time
  last_time-none p b [] w = refl
  last_time-none p b (r ∷ rows) w = ground (arith, last_time-none p b rows)

  pub last_time-some :
      (p : String) (b u : ℕ) (rows : List (Row fl sh))
      → last_time fl sh p rows ≡ some u
      → u < b
      → select (in_bucket fl sh p b) rows ≡ []
  unfolding last_time
  last_time-some p b u [] w l = ground arith
  last_time-some p b u (r ∷ rows) w l = elim (Option-cases (last_time fl sh p rows)) [
    | inl n ↦ ground (arith, last_time-none p b rows n)
    | inr (v, n) ↦ ground (arith, last_time-some p b v rows n)
  ]

  pub in_bucket-new :
      (p q : String) (t b : ℕ) (document : Json fl.Float)
      → in_bucket fl sh q b (new_row fl sh p t document) ≡ true
      → bucket_of b ≡ b
      → (p ≡ q) × (b ≡ bucket_of t)
  in_bucket-new p q t b document w a = ground arith

  pub summary_has_row :
      (q : String) (b : ℕ) (found : Summary fl sh) (rows : List (Row fl sh)) (hourly : Hourly fl sh)
      → IsConsistent rows hourly
      → Dict.lookup (q, b) hourly ≡ some found
      → select (in_bucket fl sh q b) rows ≡ []
      → ⊥
  summary_has_row q b found rows hourly i w n =
      ground (arith, (i.agrees q b found w).0, summarize-none q b rows n)
