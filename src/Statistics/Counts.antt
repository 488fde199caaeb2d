-- ===== src/Statistics/Counts.antt =====
-- What the accumulators of app/services/device_statistics.py keep: the number of observations of each
-- key, and bounds of their values.
use amplifier_panel.Base.{
  ℕ, suc, ◌+◌, ◌≡◌, refl, false, ◌||◌, String, none, some, List, [], ◌∷◌, ◌==◌, string_eq, count,
  arith, Bool-cases, inl, inr, if◌then◌else◌,
}
use amplifier_panel.Base.Dict
use amplifier_panel.Base.Dict.{Dict, NodupKeys}
use amplifier_panel.Device.{Floats}
use amplifier_panel.Statistics.{
  Json, null, number, boolean, text, array, object, Items, no_items, item, Members, no_members,
  member, Shown, put_leaf, visit_numbers, visit_number_items, visit_number_members, numeric_fields,
  Metric, Stats, observe, metric_or_empty, add_fields, add_snapshot, add_snapshots, combined,
  merge_stats, segment, path,
}

module _ (fl : Floats) (sh : Shown fl.Float) where
  open fl use {Float}

  -- How often a key was observed.
  abbrev pub count_of : String → Stats fl sh → ℕ
  count_of key stats = elim (Dict.lookup key stats) [ none ↦ 0 | some m ↦ m.count ]

  put_leaf-NodupKeys :
      (prefix : String) (x : Float) (d : Dict String Float)
      → NodupKeys d
      → NodupKeys (put_leaf fl sh prefix x d)
  put_leaf-NodupKeys prefix x d u = ground (arith, Dict.insert-NodupKeys prefix x d u)

  mutual
    unfolding visit_numbers

    visit_numbers-NodupKeys :
        (j : Json Float) (prefix : String) (d : Dict String Float)
        → NodupKeys d
        → NodupKeys (visit_numbers fl sh j prefix d)
    visit_numbers-NodupKeys (object ms) prefix d u = members-NodupKeys ms prefix d u
    visit_numbers-NodupKeys (array l) prefix d u = items-NodupKeys l 0 prefix d u
    visit_numbers-NodupKeys (number x) prefix d u = ground (arith, put_leaf-NodupKeys prefix x d u)
    visit_numbers-NodupKeys null prefix d u = u
    visit_numbers-NodupKeys (boolean b) prefix d u = u
    visit_numbers-NodupKeys (text s) prefix d u = u

    items-NodupKeys :
        (l : Items Float) (index : ℕ) (prefix : String) (d : Dict String Float)
        → NodupKeys d
        → NodupKeys (visit_number_items fl sh l index prefix d)
    items-NodupKeys no_items index prefix d u = u
    items-NodupKeys (item j l) index prefix d u =
        items-NodupKeys l (suc index) prefix _
          (visit_numbers-NodupKeys j (path prefix (segment fl sh j index)) d u)

    members-NodupKeys :
        (ms : Members Float) (prefix : String) (d : Dict String Float)
        → NodupKeys d
        → NodupKeys (visit_number_members fl sh ms prefix d)
    members-NodupKeys no_members prefix d u = u
    members-NodupKeys (member k j ms) prefix d u =
        elim (Bool-cases (k == "connectors" || k == "last_command")) [
          | inl b ↦ rw b (members-NodupKeys ms prefix d u)
          | inr b ↦
              rw b (members-NodupKeys ms prefix _ (visit_numbers-NodupKeys j (path prefix k) d u))
        ]

  numeric_fields-NodupKeys : (j : Json Float) → NodupKeys (numeric_fields fl sh j)
  numeric_fields-NodupKeys j = visit_numbers-NodupKeys j "" [] tt

  count_of-insert :
      (key k : String) (m : Metric fl sh) (stats : Stats fl sh)
      → count_of key (Dict.insert k m stats) ≡ (if key == k then m.count else count_of key stats)
  count_of-insert key k m stats = ground (arith, Dict.lookup-insert key k m stats)

  count_of-seen :
      (key : String) (v : Float) (stats : Stats fl sh)
      → (metric_or_empty fl sh v (Dict.lookup key stats)).count ≡ count_of key stats
  count_of-seen key v stats = ground arith

  lookup_empty : (key : String) → Dict.has {V = Float} key [] ≡ false
  unfolding Dict.lookup
  lookup_empty key = refl

  has-cons :
      (key k : String) (v : Float) (fields : Dict String Float)
      → Dict.has key ((k, v) ∷ fields) ≡ (key == k || Dict.has key fields)
  unfolding Dict.lookup
  has-cons key k v fields = ground arith

  count-add_fields :
      (key : String) (fields : Dict String Float) (stats : Stats fl sh)
      → NodupKeys fields
      → count_of key (add_fields fl sh fields stats)
        ≡ (if Dict.has key fields then 1 else 0) + count_of key stats
  unfolding add_fields
  count-add_fields key [] stats u = ground (arith, lookup_empty key)
  count-add_fields key ((k, v) ∷ fields) stats u =
      let m = observe fl sh v (metric_or_empty fl sh v (Dict.lookup k stats)) in
      elim (Bool-cases (key == k)) [
        | inl b ↦ ground (
          arith,
          has-cons key k v fields,
          count_of-insert key k m stats,
          count_of-seen k v stats,
          count-add_fields key fields (Dict.insert k m stats) u.1,
        )
        | inr b ↦ ground (
          arith,
          has-cons key k v fields,
          count_of-insert key k m stats,
          count-add_fields key fields (Dict.insert k m stats) u.1,
        )
      ]

  -- The count of a key grows by one for each observation that has the key as a finite number.
  pub count-add_snapshots :
      (key : String) (l : List (Json Float)) (stats : Stats fl sh)
      → count_of key (add_snapshots fl sh l stats)
        ≡ count (λ j. Dict.has key (numeric_fields fl sh j)) l + count_of key stats
  unfolding add_snapshots add_snapshot
  count-add_snapshots key [] stats = omega arith
  count-add_snapshots key (j ∷ l) stats = ground (
    arith,
    count-add_snapshots key l (add_snapshot fl sh j stats),
    count-add_fields key (numeric_fields fl sh j) stats (numeric_fields-NodupKeys j),
  )

  count_of-cons :
      (key k : String) (m : Metric fl sh) (source : Stats fl sh)
      → count_of key ((k, m) ∷ source) ≡ (if key == k then m.count else count_of key source)
  unfolding Dict.lookup
  count_of-cons key k m source = ground arith

  count-combined :
      (key : String) (m : Metric fl sh) (target : Stats fl sh)
      → (combined fl sh (Dict.lookup key target) m).count ≡ count_of key target + m.count
  count-combined key m target = ground arith

  count_of-absent : (key : String) (d : Stats fl sh) → Dict.lookup key d ≡ none → count_of key d ≡ 0
  count_of-absent key d w = rw (w, count_of)

  count_of_empty : (key : String) → count_of key [] ≡ 0
  unfolding Dict.lookup
  count_of_empty key = refl

  -- Merged accumulators count as many observations as the two together.
  pub count-merge_stats :
      (key : String) (source target : Stats fl sh)
      → NodupKeys source
      → count_of key (merge_stats fl sh source target) ≡ count_of key source + count_of key target
  unfolding merge_stats
  count-merge_stats key [] target u = ground (arith, count_of_empty key)
  count-merge_stats key ((k, m) ∷ source) target u =
      let merged = combined fl sh (Dict.lookup k target) m in
      elim (Bool-cases (key == k)) [
        | inl b ↦ ground (
          arith,
          count_of-cons key k m source,
          count_of-insert key k merged target,
          count-combined k m target,
          count_of-absent k source u.0,
          count-merge_stats key source (Dict.insert k merged target) u.1,
        )
        | inr b ↦ ground (
          arith,
          count_of-cons key k m source,
          count_of-insert key k merged target,
          count-merge_stats key source (Dict.insert k merged target) u.1,
        )
      ]
