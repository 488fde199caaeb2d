-- ===== src/Statistics/Bounds.antt =====
-- The bounds that the accumulators of app/services/device_statistics.py keep.
use amplifier_panel.Base.{
  ◌≡◌, true, false, String, Option, none, some, List, [], ◌∷◌, ◌==◌, string_eq, arith, inl, inr,
  ◌⊎◌, subst, if_elim, eq_of, eq_refl, sym,
}
use amplifier_panel.Base.Dict
use amplifier_panel.Base.Dict.{Dict, NodupKeys}
use amplifier_panel.Device.{Floats}
use amplifier_panel.Statistics.{
  Json, Shown, numeric_fields, Metric, Stats, observe, metric_or_empty, add_fields, add_snapshot,
  add_snapshots,
}

module _ (fl : Floats) (sh : Shown fl.Float) where
  open fl use {Float, lt}

  -- Neither bound of the accumulator excludes the value.
  abbrev pub Bounds : Float → Option (Metric fl sh) → Type 0
  Bounds v none = ⊥
  Bounds v (some m) = (lt v m.min ≡ false) × (lt m.max v ≡ false)

  -- The observation `j` has the value `v` at `key`, and is one of the list.
  abbrev pub Observed : String → Float → List (Json Float) → Type 0
  Observed key v [] = ⊥
  Observed key v (j ∷ l) = (Dict.lookup key (numeric_fields fl sh j) ≡ some v) ⊎ Observed key v l

  module _ (irrefl : (a : Float) → lt a a ≡ false)
      (trans : (a b c : Float) → lt a b ≡ true → lt b c ≡ true → lt a c ≡ true) where
    Bounds-observe_old :
        (v w : Float) (m : Metric fl sh) → Bounds v (some m) → Bounds v (some (observe fl sh w m))
    Bounds-observe_old v w m b = (ground (arith, trans v w m.min), ground (arith, trans m.max w v))

    Bounds-observe_new : (v : Float) (m : Metric fl sh) → Bounds v (some (observe fl sh v m))
    Bounds-observe_new v m = ground (arith, irrefl v)

    Bounds-observe_first :
        (v w : Float) (o : Option (Metric fl sh))
        → Bounds v o
        → Bounds v (some (observe fl sh w (metric_or_empty fl sh w o)))
    Bounds-observe_first v w none b = absurd b
    Bounds-observe_first v w (some m) b = Bounds-observe_old v w m b

    Bounds-insert :
        (key k : String) (v w : Float) (stats : Stats fl sh)
        → Bounds v (Dict.lookup key stats)
        → Bounds v (
            Dict.lookup key (
              Dict.insert k
                (observe fl sh w (metric_or_empty fl sh w (Dict.lookup k stats)))
                stats))
    Bounds-insert key k v w stats b =
        rw
          (Dict.lookup-insert key k
            (observe fl sh w (metric_or_empty fl sh w (Dict.lookup k stats))) stats)
          (if_elim (Bounds v) (key == k)
            (λ e.
              subst
                (λ x.
                  Bounds v (some (observe fl sh w (metric_or_empty fl sh w (Dict.lookup x stats)))))
                (eq_of key k e) (Bounds-observe_first v w (Dict.lookup key stats) b))
            (λ _. b))

    Bounds-add_fields :
        (key : String) (v : Float) (fields : Dict String Float) (stats : Stats fl sh)
        → Bounds v (Dict.lookup key stats)
        → Bounds v (Dict.lookup key (add_fields fl sh fields stats))
    unfolding add_fields
    Bounds-add_fields key v [] stats b = b
    Bounds-add_fields key v ((k, w) ∷ fields) stats b =
        Bounds-add_fields key v fields _ (Bounds-insert key k v w stats b)

    nothing_in : (key : String) (v : Float) → Dict.lookup key [] ≡ some v → ⊥
    unfolding Dict.lookup
    nothing_in key v w = ground arith

    found_in :
        (key k : String) (v x : Float) (fields : Dict String Float)
        → Dict.lookup key ((k, x) ∷ fields) ≡ some v
        → ((key ≡ k) × (v ≡ x)) ⊎ (Dict.lookup key fields ≡ some v)
    unfolding Dict.lookup
    found_in key k v x fields w = ground arith

    Bounds-put :
        (key : String) (x : Float) (stats : Stats fl sh)
        → Bounds x (
            Dict.lookup key (
              Dict.insert key
                (observe fl sh x (metric_or_empty fl sh x (Dict.lookup key stats)))
                stats))
    Bounds-put key x stats =
        let m = metric_or_empty fl sh x (Dict.lookup key stats) in
        rw (Dict.lookup-insert key key (observe fl sh x m) stats, eq_refl key)
          (Bounds-observe_new x m)

    Bounds-new_field :
        (key : String) (v : Float) (fields : Dict String Float) (stats : Stats fl sh)
        → Dict.lookup key fields ≡ some v
        → Bounds v (Dict.lookup key (add_fields fl sh fields stats))
    unfolding add_fields
    Bounds-new_field key v [] stats w = absurd (nothing_in key v w)
    Bounds-new_field key v ((k, x) ∷ fields) stats w = elim (found_in key k v x fields w) [
      | inl (p, q) ↦ Bounds-add_fields key v fields _ (
          subst
            (λ j. Bounds v (
              Dict.lookup j (
                Dict.insert k (observe fl sh x (metric_or_empty fl sh x (Dict.lookup k stats)))
                  stats)))
            (sym p)
            (subst
              (λ y. Bounds y (
                Dict.lookup k (
                  Dict.insert k (observe fl sh x (metric_or_empty fl sh x (Dict.lookup k stats)))
                    stats)))
              (sym q) (Bounds-put k x stats)))
      | inr l ↦ Bounds-new_field key v fields _ l
    ]

    Bounds-add_snapshots :
        (key : String) (v : Float) (l : List (Json Float)) (stats : Stats fl sh)
        → Bounds v (Dict.lookup key stats)
        → Bounds v (Dict.lookup key (add_snapshots fl sh l stats))
    unfolding add_snapshots add_snapshot
    Bounds-add_snapshots key v [] stats b = b
    Bounds-add_snapshots key v (j ∷ l) stats b =
        Bounds-add_snapshots key v l _ (Bounds-add_fields key v (numeric_fields fl sh j) stats b)

    -- Every finite number that was observed at a key lies between the minimum and the maximum that are
    -- kept for the key, when `<` is irreflexive and transitive.
    pub add_snapshots_bound :
        (key : String) (v : Float) (l : List (Json Float)) (stats : Stats fl sh)
        → Observed key v l
        → Bounds v (Dict.lookup key (add_snapshots fl sh l stats))
    unfolding add_snapshots add_snapshot
    add_snapshots_bound key v [] stats o = absurd o
    add_snapshots_bound key v (j ∷ l) stats (inl w) =
        Bounds-add_snapshots key v l _ (Bounds-new_field key v (numeric_fields fl sh j) stats w)
    add_snapshots_bound key v (j ∷ l) stats (inr o) = add_snapshots_bound key v l _ o
