-- ===== src/Base/Dict.antt =====
-- Python's dicts in insertion order. `d[k] = v` keeps the place of a key that is there.
use amplifier_panel.Base.{
  ◌≡◌, refl, ◌∙◌, ap, contains, true, false, Bool, Option, none, some, List, [], ◌∷◌, arith, Eq,
  ◌==◌, if◌then◌else◌, if_elim,
}

abbrev pub Dict {ℓ κ} : Type ℓ → Type κ → Type (ℓ ⊔ κ)
Dict K V = List (K × V)

module _ {ℓ κ} {K : Type ℓ} {V : Type κ} where
  -- `list(d)`
  abbrev pub keys : Dict K V → List K
  keys [] = []
  keys ((k, _) ∷ d) = k ∷ keys d

  -- `list(d.values())`
  abbrev pub values : Dict K V → List V
  values [] = []
  values ((_, v) ∷ d) = v ∷ values d

module _ {ℓ κ} {K : Type ℓ} {V : Type κ} ⦃e : Eq K⦄ where
  -- `d.get(k)`
  unfoldable pub lookup : K → Dict K V → Option V
  lookup k [] = none
  lookup k ((j, w) ∷ d) = let rest = lookup k d in if k == j then some w else rest

  -- `k in d`
  abbrev pub has : K → Dict K V → Bool
  has k d = elim (lookup k d) [ none ↦ false | some _ ↦ true ]

  -- `d[k] = v`
  unfoldable pub insert : K → V → Dict K V → Dict K V
  insert k v [] = (k, v) ∷ []
  insert k v ((j, w) ∷ d) = let rest = insert k v d in if k == j then (j, v) ∷ d else (j, w) ∷ rest

  -- `d.pop(k, None)`
  unfoldable pub erase : K → Dict K V → Dict K V
  erase k [] = []
  erase k ((j, w) ∷ d) = let rest = erase k d in if k == j then rest else (j, w) ∷ rest

  -- The entries that pass a test, in their order.
  unfoldable pub keep : (K → V → Bool) → Dict K V → Dict K V
  keep test [] = []
  keep test ((j, w) ∷ d) = let rest = keep test d in if test j w then (j, w) ∷ rest else rest

  pub lookup-head : (k : K) (v : V) (d : Dict K V) → lookup k ((k, v) ∷ d) ≡ some v
  unfolding lookup
  lookup-head k v d = ground arith

  pub lookup-tail :
      (j k : K) (v w : V) (d : Dict K V)
      → lookup k d ≡ none
      → lookup j d ≡ some w
      → lookup j ((k, v) ∷ d) ≡ some w
  unfolding lookup
  lookup-tail j k v w d h found = ground arith

  pub has-cons :
      (j k : K) (v : V) (d : Dict K V) → has j ((k, v) ∷ d) ≡ (if j == k then true else has j d)
  unfolding lookup
  has-cons j k v d = ground arith

  pub has-absent : (k : K) (d : Dict K V) → lookup k d ≡ none → has k d ≡ false
  has-absent k d h = ap (elim [ none ↦ false | some _ ↦ true ]) h

  pub lookup-insert :
      (j k : K) (v : V) (d : Dict K V)
      → lookup j (insert k v d) ≡ (if j == k then some v else lookup j d)
  unfolding insert lookup
  lookup-insert j k v [] = ground arith
  lookup-insert j k v (_ ∷ d) = ground (arith, lookup-insert j k v d)

  pub lookup-erase :
      (j k : K) (d : Dict K V) → lookup j (erase k d) ≡ (if j == k then none else lookup j d)
  unfolding erase lookup
  lookup-erase j k [] = ground arith
  lookup-erase j k (_ ∷ d) = ground (arith, lookup-erase j k d)

  -- A Python dict has each key once.
  abbrev pub NodupKeys : Dict K V → Type κ
  NodupKeys [] = Unit
  NodupKeys ((k, _) ∷ d) = (lookup k d ≡ none) × NodupKeys d

  pub insert-NodupKeys : (k : K) (v : V) (d : Dict K V) → NodupKeys d → NodupKeys (insert k v d)
  unfolding insert lookup
  insert-NodupKeys k v [] u = (refl, tt)
  insert-NodupKeys k v ((j, w) ∷ d) u =
      ground (arith, insert-NodupKeys k v d u.1, lookup-insert j k v d)

  pub erase-NodupKeys : (k : K) (d : Dict K V) → NodupKeys d → NodupKeys (erase k d)
  unfolding erase
  erase-NodupKeys k [] u = u
  erase-NodupKeys k ((j, w) ∷ d) u = ground (arith, erase-NodupKeys k d u.1, lookup-erase j k d)

  lookup-keep_absent :
      (test : K → V → Bool) (k : K) (d : Dict K V)
      → lookup k d ≡ none
      → lookup k (keep test d) ≡ none
  unfolding lookup keep
  lookup-keep_absent test k [] h = refl
  lookup-keep_absent test k ((j, w) ∷ d) h = ground (arith, lookup-keep_absent test k d)

  abbrev pub kept : (K → V → Bool) → K → Option V → Option V
  kept test k none = none
  kept test k (some v) = if test k v then some v else none

  pub lookup-keep :
      (test : K → V → Bool) (k : K) (d : Dict K V)
      → NodupKeys d
      → lookup k (keep test d) ≡ kept test k (lookup k d)
  unfolding lookup keep
  lookup-keep test k [] u = refl
  lookup-keep test k ((j, w) ∷ d) u =
      ground (arith, lookup-keep test k d u.1, lookup-keep_absent test k d)

  pub kept-some :
      (test : K → V → Bool) (k : K) (o : Option V) (v : V)
      → kept test k o ≡ some v
      → (o ≡ some v) × (test k v ≡ true)
  kept-some test k none v h = ground arith
  kept-some test k (some w) v h = ground arith

  pub keep-NodupKeys : (test : K → V → Bool) (d : Dict K V) → NodupKeys d → NodupKeys (keep test d)
  unfolding keep
  keep-NodupKeys test [] u = u
  keep-NodupKeys test ((j, w) ∷ d) u =
      ground (arith, keep-NodupKeys test d u.1, lookup-keep_absent test j d u.0)

  pub contains-keys : (k : K) (d : Dict K V) → contains (keys d) k ≡ has k d
  unfolding lookup
  contains-keys k [] = refl
  contains-keys k ((j, w) ∷ d) = ground (arith, contains-keys k d)

  -- The keys of the entries that pass a test.
  pub contains-keys-keep :
      (test : K → V → Bool) (k : K) (d : Dict K V)
      → NodupKeys d
      → contains (keys (keep test d)) k
        ≡ elim (kept test k (lookup k d)) [ none ↦ false | some _ ↦ true ]
  contains-keys-keep test k d u =
      contains-keys k (keep test d)
      ∙ ap (elim [ none ↦ false | some _ ↦ true ]) (lookup-keep test k d u)

pub ruleset dict_laws = (lookup-insert, lookup-erase)

-- A property of all values of a dict.
abbrev pub AllValues {ℓ κ ν} : {K : Type ℓ} {V : Type κ} → (V → Type ν) → Dict K V → Type ν
AllValues P [] = Unit
AllValues P ((_, v) ∷ d) = P v × AllValues P d

abbrev pub HoldsSome {κ ν} : {V : Type κ} → (V → Type ν) → Option V → Type ν
HoldsSome P none = Unit
HoldsSome P (some v) = P v

module _ {ℓ κ ν} {K : Type ℓ} {V : Type κ} (P : V → Type ν) ⦃e : Eq K⦄ where
  pub insert-AllValues :
      (k : K) (v : V) (d : Dict K V) → P v → AllValues P d → AllValues P (insert k v d)
  unfolding insert
  insert-AllValues k v [] h a = (h, tt)
  insert-AllValues k v ((j, w) ∷ d) h a =
      if_elim (AllValues P) (k == j) (λ _. (h, a.1)) (λ _. (a.0, insert-AllValues k v d h a.1))

  pub lookup-AllValues : (k : K) (d : Dict K V) → AllValues P d → HoldsSome P (lookup k d)
  unfolding lookup
  lookup-AllValues k [] a = tt
  lookup-AllValues k ((j, w) ∷ d) a =
      if_elim (HoldsSome P) (k == j) (λ _. a.0) (λ _. lookup-AllValues k d a.1)
