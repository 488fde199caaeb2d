-- ===== src/Database/Ranking.antt =====
-- Counting the entries of a dict by their keys, and the first entry of a list that is sorted from the
-- greatest down.
use amplifier_panel.Base.{
  ℕ, ◌+◌, ◌≤◌, ◌<◌, ◌≡◌, ◌⊎◌, refl, ap, sym, subst, Bool, false, String, none, List, [], ◌∷◌, ◌==◌,
  string_eq, contains, leb, sort_by, put_by, length, count, All, arith, Bool-cases, inl, inr,
  if_elim, eq_of, eq_comm,
}
use amplifier_panel.Base.Dict
use amplifier_panel.Base.Dict.{Dict, NodupKeys}

module _ {V : Type 0} where
  abbrev pub listed : List String → String × V → Bool
  listed ks (k, _) = contains ks k

  pub count_key_none :
      (x : String) (d : Dict String V)
      → Dict.lookup x d ≡ none
      → count (λ (e : String × V). e.0 == x) d ≡ 0
  unfolding Dict.lookup
  count_key_none x [] u = refl
  count_key_none x ((k, v) ∷ d) u = ground (arith, count_key_none x d, eq_comm x k)

  pub count_key :
      (x : String) (d : Dict String V) → NodupKeys d → count (λ (e : String × V). e.0 == x) d ≤ 1
  count_key x [] u = omega arith
  count_key x ((k, v) ∷ d) u = elim (Bool-cases (k == x)) [
    | inl e ↦
        ground
          (arith, e, count_key_none x d (subst (λ y. Dict.lookup y d ≡ none) (eq_of k x e) u.0))
    | inr e ↦ ground (arith, e, count_key x d u.1)
  ]

  pub count_nothing : (d : Dict String V) → count (listed []) d ≡ 0
  count_nothing [] = refl
  count_nothing ((k, v) ∷ d) = omega (arith, count_nothing d)

  pub count_listed_cons :
      (x : String) (ks : List String) (d : Dict String V)
      → count (listed (x ∷ ks)) d ≤ count (λ (e : String × V). e.0 == x) d + count (listed ks) d
  count_listed_cons x ks [] = omega arith
  count_listed_cons x ks ((k, v) ∷ d) = ground (arith, count_listed_cons x ks d, eq_comm k x)

  pub count-listed :
      (ks : List String) (d : Dict String V) → NodupKeys d → count (listed ks) d ≤ length ks
  count-listed [] d u = omega (arith, count_nothing d)
  count-listed (x ∷ ks) d u =
      omega (arith, count_listed_cons x ks d, count_key x d u, count-listed ks d u)

  pub length-keys : (d : Dict String V) → length (Dict.keys d) ≡ length d
  length-keys [] = refl
  length-keys ((k, v) ∷ d) = omega (arith, length-keys d)

  -- An entry that stands before all others is the first of a sorted list.
  abbrev pub Beats : (V → ℕ) → String × V → List (String × V) → Type 0
  Beats f e l = All (λ (x : String × V). (x ≡ e) ⊎ (f x.1 < f e.1)) l

  abbrev pub descending : (V → ℕ) → String × V → String × V → Bool
  descending f a b = leb (f b.1) (f a.1)

  abbrev pub Has : String × V → List (String × V) → Type 0
  Has e [] = ⊥
  Has e (x ∷ l) = (x ≡ e) ⊎ Has e l

  pub Beats-put_by :
      (f : V → ℕ) (e a : String × V) (l : List (String × V))
      → (a ≡ e) ⊎ (f a.1 < f e.1)
      → Beats f e l
      → Beats f e (put_by (descending f) a l)
  unfolding put_by
  Beats-put_by f e a [] h b = (h, tt)
  Beats-put_by f e a (x ∷ l) h b =
      if_elim (Beats f e) (descending f a x) (λ _. (h, b)) (λ _. (b.0, Beats-put_by f e a l h b.1))

  pub Beats-sort_by :
      (f : V → ℕ) (e : String × V) (l : List (String × V))
      → Beats f e l
      → Beats f e (sort_by (descending f) l)
  unfolding sort_by
  Beats-sort_by f e [] b = tt
  Beats-sort_by f e (a ∷ l) b =
      Beats-put_by f e a (sort_by (descending f) l) b.0 (Beats-sort_by f e l b.1)

  abbrev pub StartsWith : String × V → List (String × V) → Type 0
  StartsWith e [] = ⊥
  StartsWith e (x ∷ l) = x ≡ e

  pub put_first :
      (f : V → ℕ) (e : String × V) (l : List (String × V))
      → Beats f e l
      → StartsWith e (put_by (descending f) e l)
  unfolding put_by
  put_first f e [] b = refl
  put_first f e (x ∷ l) b =
      if_elim (StartsWith e) (descending f e x) (λ _. refl) (λ n. first_or_behind b.0 n)
    where
      first_or_behind : (x ≡ e) ⊎ (f x.1 < f e.1) → descending f e x ≡ false → x ≡ e
      first_or_behind (inl s) n = s
      first_or_behind (inr l) n = ground (arith, l, n)

  pub put_behind :
      (f : V → ℕ) (e a : String × V) (l : List (String × V))
      → (a ≡ e) ⊎ (f a.1 < f e.1)
      → StartsWith e l
      → StartsWith e (put_by (descending f) a l)
  unfolding put_by
  put_behind f e a [] h w = absurd w
  put_behind f e a (x ∷ l) (inl s) w = if_elim (StartsWith e) (descending f a x) (λ _. s) (λ _. w)
  put_behind f e a (x ∷ l) (inr b) w =
      if_elim (StartsWith e) (descending f a x)
        (λ n. ground (arith, n, b, ap (λ (y : String × V). f y.1) w)) (λ _. w)

  pub sort_first :
      (f : V → ℕ) (e : String × V) (l : List (String × V))
      → Has e l
      → Beats f e l
      → StartsWith e (sort_by (descending f) l)
  unfolding sort_by
  sort_first f e [] h b = h
  sort_first f e (a ∷ l) (inl s) b =
      subst (λ x. StartsWith e (put_by (descending f) x (sort_by (descending f) l))) (sym s)
        (put_first f e (sort_by (descending f) l) (Beats-sort_by f e l b.1))
  sort_first f e (a ∷ l) (inr h) b =
      put_behind f e a (sort_by (descending f) l) b.0 (sort_first f e l h b.1)
