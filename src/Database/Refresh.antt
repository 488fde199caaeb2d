-- ===== src/Database/Refresh.antt =====
-- What the insert of an observation does to the hourly summaries, in app/services/database.py.
use amplifier_panel.Base.{
  ℕ, ◌<◌, ◌≡◌, ap, sym, ◌∙◌, subst, false, String, Option, none, some, List, [], ◌∷◌, ◌++◌,
  string_eq, nat_eq, pair_eq, select, ltb, arith, Bool-cases, inl, inr, ne_of, if_elim,
}
use amplifier_panel.Base.Dict
use amplifier_panel.Base.Dict.{Dict, NodupKeys}
use amplifier_panel.Device.{Floats}
use amplifier_panel.Statistics.{Json, Shown}
use amplifier_panel.Database.{Row, Summary}
use amplifier_panel.Database.Snapshots.{
  in_bucket, bucket_of, rebuild_hour, refresh_hourly, last_time, Hourly,
}
use amplifier_panel.Database.Retention.{new_row}
use amplifier_panel.Database.Summaries.{
  bucket_of_idem, IsConsistent, IsConsistent-rebuild, IsConsistent-keep, last_time-none,
  last_time-some, in_bucket-new, summary_has_row, select-new, same_key,
}

module _ (fl : Floats) (sh : Shown fl.Float) where
  module _ (p : String) (t : ℕ) (document : Json fl.Float) where
    -- The new row is in the hour of a summary only where that hour is the row's own.
    unchanged :
        (q : String) (b : ℕ) (found : Summary fl sh) (rows : List (Row fl sh))
        (hourly : Hourly fl sh)
        → IsConsistent fl sh rows hourly
        → Dict.lookup (q, b) hourly ≡ some found
        → ((p ≡ q) → (b ≡ bucket_of t) → ⊥)
        → select (in_bucket fl sh q b) (rows ++ new_row fl sh p t document ∷ [])
          ≡ select (in_bucket fl sh q b) rows
    unchanged q b found rows hourly i w apart =
        elim (Bool-cases (in_bucket fl sh q b (new_row fl sh p t document))) [
          | inl e ↦
              let (same, own) = in_bucket-new fl sh p q t b document e (i.agrees q b found w).1 in
              absurd (apart same own)
          | inr e ↦ select-new fl sh q b (new_row fl sh p t document) rows e
        ]

    refresh_none :
        (rows : List (Row fl sh)) (hourly : Hourly fl sh)
        → IsConsistent fl sh rows hourly
        → last_time fl sh p rows ≡ none
        → IsConsistent fl sh (rows ++ new_row fl sh p t document ∷ []) hourly
    refresh_none rows hourly i n = IsConsistent-keep fl sh rows _ hourly i (λ q b found w.
        unchanged q b found rows hourly i w (λ same _.
          summary_has_row fl sh q b found rows hourly i w (
            subst (λ x. select (in_bucket fl sh x b) rows ≡ []) same
              (last_time-none fl sh p b rows n))))

    refresh_next :
        (rows : List (Row fl sh)) (hourly : Hourly fl sh) (u : ℕ)
        → IsConsistent fl sh rows hourly
        → last_time fl sh p rows ≡ some u
        → bucket_of u < bucket_of t
        → IsConsistent fl sh
            (rows ++ new_row fl sh p t document ∷ [])
            (rebuild_hour fl sh p (bucket_of u) (rows ++ new_row fl sh p t document ∷ []) hourly)
    refresh_next rows hourly u i n l =
        IsConsistent-rebuild fl sh p (bucket_of u) rows _ hourly (bucket_of_idem u) i
          (λ q b found _ w. unchanged q b found rows hourly i w (λ same own.
            summary_has_row fl sh q b found rows hourly i w (
              subst (λ x. select (in_bucket fl sh x b) rows ≡ []) same
                (last_time-some fl sh p b u rows n (ground (arith, own))))))

    refresh_own :
        (rows : List (Row fl sh)) (hourly : Hourly fl sh)
        → IsConsistent fl sh rows hourly
        → IsConsistent fl sh
            (rows ++ new_row fl sh p t document ∷ [])
            (rebuild_hour fl sh p (bucket_of t) (rows ++ new_row fl sh p t document ∷ []) hourly)
    refresh_own rows hourly i =
        IsConsistent-rebuild fl sh p (bucket_of t) rows _ hourly (bucket_of_idem t) i
          (λ q b found e w.
            unchanged q b found rows hourly i w (λ same own. other_key q b e same own))
      where
        other_key :
            (q : String) (b : ℕ)
            → same_key fl sh (q, b) (p, bucket_of t) ≡ false
            → p ≡ q
            → b ≡ bucket_of t
            → ⊥
        other_key q b e same own =
            ne_of {A = String × ℕ} (q, b) (p, bucket_of t) e
              (ap (λ x. (x, b)) (sym same) ∙ ap (λ y. (p, y)) own)

    refresh_empty :
        (rows : List (Row fl sh)) (hourly : Hourly fl sh)
        → IsConsistent fl sh rows hourly
        → Dict.has (p, bucket_of t) hourly ≡ false
        → IsConsistent fl sh (rows ++ new_row fl sh p t document ∷ []) hourly
    refresh_empty rows hourly i n = IsConsistent-keep fl sh rows _ hourly i (λ q b found w.
        unchanged q b found rows hourly i w (λ same own. has_it q b found same own w))
      where
        has_it :
            (q : String) (b : ℕ) (found : Summary fl sh)
            → p ≡ q
            → b ≡ bucket_of t
            → Dict.lookup (q, b) hourly ≡ some found
            → ⊥
        has_it q b found same own w = ground (
          arith,
          n,
          subst (λ (k : String × ℕ). Dict.lookup k hourly ≡ some found)
              (ap (λ x. (x, b)) (sym same) ∙ ap (λ y. (p, y)) own) w,
        )

    pub IsConsistent-refresh :
        (rows : List (Row fl sh)) (hourly : Hourly fl sh) (o : Option ℕ)
        → IsConsistent fl sh rows hourly
        → last_time fl sh p rows ≡ o
        → IsConsistent fl sh
            (rows ++ new_row fl sh p t document ∷ [])
            (refresh_hourly fl sh p t o (rows ++ new_row fl sh p t document ∷ []) hourly)
    unfolding refresh_hourly
    IsConsistent-refresh rows hourly none i n = refresh_none rows hourly i n
    IsConsistent-refresh rows hourly (some u) i n =
        let rows' = rows ++ new_row fl sh p t document ∷ [] in
        if_elim (IsConsistent fl sh rows') (ltb (bucket_of u) (bucket_of t))
          (λ l. refresh_next rows hourly u i n (ground arith))
          (λ _.
            if_elim (IsConsistent fl sh rows') (Dict.has (p, bucket_of t) hourly)
              (λ _. refresh_own rows hourly i) (λ absent. refresh_empty rows hourly i absent))
