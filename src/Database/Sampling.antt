-- ===== src/Database/Sampling.antt =====
-- The points of a chart: the even sample of `query_device_snapshots` in app/services/database.py.
use amplifier_panel.Base.{
  ℕ, zero, suc, ◌+◌, ◌-◌, ◌*◌, ◌/◌, ◌%◌, ◌≤◌, ◌<◌, max, ◌≡◌, refl, ap, sym, ◌∙◌, true, false, ◌||◌,
  Option, none, some, List, [], ◌∷◌, length, take, leb, eqb, arith, ◌⊎◌, if_elim, Bool-cases, inl,
  inr, if◌then◌else◌,
}
use native.Mathlib.Nat.{
  suc-mod, mod-eq_of_lt, mod_self, zero-mod, lt-div-mul-add, mul-le-mul_left, mul-le-mul_right,
}
use amplifier_panel.Database.Queries.{stride, pick, last_only, sample}

mul-suc : (s n : ℕ) → s * suc n ≡ s + s * n
mul-suc s n = omega arith

times_one : (s x p : ℕ) → x ≤ 1 → s * x ≤ 0 + p + s
times_one s zero p l = omega arith
times_one s (suc zero) p l = omega arith
times_one s (suc (suc x)) p l = absurd (omega arith)

residue_step : (s p i : ℕ) → p < s → suc p % s ≡ i % s → suc (i % s) % s ≡ suc i % s
residue_step s p i l w = sym (suc-mod i s)

residue_cases :
    (s p i : ℕ)
    → p < s
    → suc p % s ≡ i % s
    → ((eqb (i % s) 0 ≡ true) × (i % s ≡ 0) × (suc p ≡ s))
      ⊎ ((eqb (i % s) 0 ≡ false) × (i % s ≡ suc p) × (suc p < s))
residue_cases s p i l w = elim (Bool-cases (eqb (suc p) s)) [
  | inl e ↦
      let q : suc p ≡ s = ground (arith, e) in
      let r : i % s ≡ 0 = sym w ∙ ap (λ x. x % s) q ∙ mod_self s in inl (ground (arith, r), r, q)
  | inr e ↦
      let q : suc p < s = ground (arith, e) in
      let r : i % s ≡ suc p = sym w ∙ mod-eq_of_lt q in inr (ground (arith, r), r, q)
]

-- The stride is wide enough for all rows but the first.
stride-covers : (limit total : ℕ) → 2 ≤ limit → total - 1 ≤ stride limit total * (limit - 1)
unfolding stride
stride-covers limit total l =
    let b = limit - 1 in
    let q = (total - 1 + (limit - 2)) / b in
    let wide : total - 1 + (limit - 2) < q * b + b = lt-div-mul-add (omega (arith, l)) in
    let wider : q * b ≤ max 1 q * b = mul-le-mul_right b (omega arith) in
    omega (arith, wide, wider, l)

stride-positive : (limit total : ℕ) → 0 < stride limit total
unfolding stride
stride-positive limit total = omega arith

bounded : (S k n x : ℕ) → 0 < S → n ≤ S * k → S * x ≤ n + (S - 1) + S → x ≤ suc k
bounded S k n x pos covers total = elim (Bool-cases (leb x (suc k))) [
  | inl e ↦ ground (arith, e)
  | inr e ↦
      let more : S * suc (suc k) ≤ S * x = mul-le-mul_left S (ground (arith, e)) in
      absurd (omega (arith, more, mul-suc S (suc k), mul-suc S k, pos, covers, total))
]

last_residue : (S : ℕ) → 0 < S → suc (S - 1) % S ≡ 0 % S
last_residue S pos =
    let q : suc (S - 1) ≡ S = omega (arith, pos) in
    ap (λ x. x % S) q ∙ mod_self S ∙ sym (zero-mod S)

length-pick_nothing :
    (A : Type 0) (limit : ℕ) → length (pick {A = A} (stride limit 0) 0 0 []) ≤ limit
unfolding pick
length-pick_nothing A limit = omega arith

module _ {A : Type 0} where
  length-pick_one : (s n i : ℕ) (a : A) → length (pick s n i (a ∷ [])) ≤ 1
  unfolding pick
  length-pick_one s n i a = ground arith

  length-pick_cons :
      (s n i : ℕ) (a : A) (l : List A)
      → suc i < n
      → length (pick s n i (a ∷ l)) ≡ (if eqb (i % s) 0 then 1 else 0) + length (pick s n (suc i) l)
  unfolding pick
  length-pick_cons s n i a l e = ground arith

  length-pick :
      (s n p i : ℕ) (a : A) (l : List A)
      → p < s
      → suc p % s ≡ i % s
      → i + suc (length l) ≡ n
      → s * length (pick s n i (a ∷ l)) ≤ length l + p + s
  length-pick s n p i a [] lp w e =
      times_one s (length (pick s n i (a ∷ []))) p (length-pick_one s n i a)
  length-pick s n p i a (b ∷ l) lp w e =
      let cons = length-pick_cons s n i a (b ∷ l) (omega (arith, e)) in
      elim (residue_cases s p i lp w) [
        | inl (z, r, q) ↦
            let rest =
              length-pick s n 0 (suc i) b l (omega arith)
                (ap (λ x. suc x % s) (sym r) ∙ residue_step s p i lp w) (omega (arith, e)) in
            ground (arith, cons, z, q, rest, mul-suc s (length (pick s n (suc i) (b ∷ l))))
        | inr (z, r, q) ↦
            let rest =
              length-pick s n (suc p) (suc i) b l q
                (ap (λ x. suc x % s) (sym r) ∙ residue_step s p i lp w) (omega (arith, e)) in
            ground (arith, cons, z, rest)
      ]

  length-pick_all :
      (limit : ℕ) (l : List A)
      → 2 ≤ limit
      → length (pick (stride limit (length l)) (length l) 0 l) ≤ limit
  length-pick_all limit [] two = length-pick_nothing A limit
  length-pick_all limit (a ∷ l) two =
      let n = length (a ∷ l) in
      let S = stride limit n in
      let pos = stride-positive limit n in
      let all =
        length-pick S n (S - 1) 0 a l (omega (arith, pos)) (last_residue S pos) (omega arith) in
      let few =
        bounded S (limit - 1) (length l) (length (pick S n 0 (a ∷ l))) pos
          (omega (arith, stride-covers limit n two)) all in
      omega (arith, few, two)

  take-all : (n : ℕ) (l : List A) → length l ≤ n → take n l ≡ l
  take-all zero [] h = refl
  take-all zero (a ∷ l) h = absurd (omega (arith, h))
  take-all (suc n) [] h = refl
  take-all (suc n) (a ∷ l) h = ap (λ x. a ∷ x) (take-all n l (omega (arith, h)))

  abbrev pub last_of : List A → Option A
  last_of [] = none
  last_of (a ∷ []) = some a
  last_of (a ∷ b ∷ l) = last_of (b ∷ l)

  abbrev pub first_of : List A → Option A
  first_of [] = none
  first_of (a ∷ _) = some a

  last_of-last_only : (l : List A) → last_of (last_only l) ≡ last_of l
  last_of-last_only [] = refl
  last_of-last_only (a ∷ []) = refl
  last_of-last_only (a ∷ b ∷ l) = last_of-last_only (b ∷ l)

  length-last_only : (l : List A) → length (last_only l) ≤ 1
  length-last_only [] = omega arith
  length-last_only (a ∷ []) = omega arith
  length-last_only (a ∷ b ∷ l) = length-last_only (b ∷ l)

  last_of-cons : (a b : A) (l : List A) → last_of l ≡ some b → last_of (a ∷ l) ≡ some b
  last_of-cons a b [] h = ground arith
  last_of-cons a b (c ∷ l) h = h

  last_of-some : (a : A) (l : List A) → (b : A) × (last_of (a ∷ l) ≡ some b)
  last_of-some a [] = (a, refl)
  last_of-some a (b ∷ l) = last_of-some b l

  last_of-pick :
      (s n i : ℕ) (a b : A) (l : List A)
      → i + suc (length l) ≡ n
      → last_of (a ∷ l) ≡ some b
      → last_of (pick s n i (a ∷ l)) ≡ some b
  unfolding pick
  last_of-pick s n i a b [] e w = ground arith
  last_of-pick s n i a b (c ∷ l) e w =
      let rest = last_of-pick s n (suc i) c b l (omega (arith, e)) w in
      if_elim (λ r. last_of r ≡ some b) (eqb (i % s) 0 || eqb (suc i) n)
        (λ _. last_of-cons a b (pick s n (suc i) (c ∷ l)) rest) (λ _. rest)

  first_of-pick : (s n : ℕ) (a : A) (l : List A) → first_of (pick s n 0 (a ∷ l)) ≡ some a
  unfolding pick
  first_of-pick s n a l = ground (arith, zero-mod s)

  sample-pick :
      (limit : ℕ) (l : List A)
      → 2 ≤ limit
      → sample limit l ≡ pick (stride limit (length l)) (length l) 0 l
  unfolding sample
  sample-pick limit l two = ground (
    arith,
    take-all limit (pick (stride limit (length l)) (length l) 0 l) (length-pick_all limit l two),
  )

  sample-one : (l : List A) → sample 1 l ≡ last_only l
  unfolding sample
  sample-one l = refl

  first_of-last_only : (l : List A) → first_of (last_only l) ≡ last_of l
  first_of-last_only [] = refl
  first_of-last_only (a ∷ []) = refl
  first_of-last_only (a ∷ b ∷ l) = first_of-last_only (b ∷ l)

  -- The sample of a query that asks for at least one point, of a range that is not empty, has at most
  -- as many points as are asked for, ends with the newest observation of the range, and begins with
  -- the oldest where two points or more are asked for: `LIMIT` cuts nothing that the stride has picked.
  pub sample_bounded :
      (limit : ℕ) (a : A) (l : List A)
      → 1 ≤ limit
      → (length (sample limit (a ∷ l)) ≤ limit)
        × (last_of (sample limit (a ∷ l)) ≡ last_of (a ∷ l))
        × (first_of (sample limit (a ∷ l)) ≡ (if leb 2 limit then some a else last_of (a ∷ l)))
  sample_bounded zero a l one = absurd (omega (arith, one))
  sample_bounded (suc zero) a l one =
      rw (sample-one (a ∷ l))
        (length-last_only (a ∷ l), last_of-last_only (a ∷ l), first_of-last_only (a ∷ l))
  sample_bounded (suc (suc k)) a l one =
      let n = length (a ∷ l) in
      let s = stride (suc (suc k)) n in
      let (b, w) = last_of-some a l in
      rw (sample-pick (suc (suc k)) (a ∷ l) (omega arith)) (
        length-pick_all (suc (suc k)) (a ∷ l) (omega arith),
        last_of-pick s n 0 a b l (omega arith) w ∙ sym w,
        ground (arith, first_of-pick s n a l),
      )
