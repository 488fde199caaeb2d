-- ===== src/Snmp/Order.antt =====
-- The order of OIDs, by which `sorted` and GETNEXT of app/services/snmp.py go.
use amplifier_panel.Base.{
  ◌≡◌, refl, true, false, List, [], ◌∷◌, arith, All, sort_by, put_by, Bool-cases, inl, inr,
}
use amplifier_panel.Base.Int.{ℤ, pos, negsuc, leb_int}
use amplifier_panel.Snmp.{parts_lt, Keyed, may_precede}

leb_int_total : (a b : ℤ) → leb_int a b ≡ false → leb_int b a ≡ true
leb_int_total (pos a) (pos b) h = ground arith
leb_int_total (pos a) (negsuc b) h = refl
leb_int_total (negsuc a) (pos b) h = ground arith
leb_int_total (negsuc a) (negsuc b) h = ground arith

leb_int_trans : (a b c : ℤ) → leb_int a b ≡ true → leb_int b c ≡ true → leb_int a c ≡ true
leb_int_trans (pos a) (pos b) (pos c) h k = ground arith
leb_int_trans (pos a) (pos b) (negsuc c) h k = ground arith
leb_int_trans (pos a) (negsuc b) c h k = ground arith
leb_int_trans (negsuc a) b (pos c) h k = refl
leb_int_trans (negsuc a) (pos b) (negsuc c) h k = ground arith
leb_int_trans (negsuc a) (negsuc b) (negsuc c) h k = ground arith

-- What is not above something below is below: `x <= y < z` and `x < y <= z`.
pub lt_of_le_of_lt :
    (x y z : List ℤ) → parts_lt y x ≡ false → parts_lt y z ≡ true → parts_lt x z ≡ true
unfolding parts_lt
lt_of_le_of_lt [] y [] h k = absurd (ground arith)
lt_of_le_of_lt [] y (c ∷ z) h k = refl
lt_of_le_of_lt (a ∷ x) [] z h k = ground arith
lt_of_le_of_lt (a ∷ x) (b ∷ y) [] h k = ground arith
lt_of_le_of_lt (a ∷ x) (b ∷ y) (c ∷ z) h k = ground (
  arith,
  lt_of_le_of_lt x y z,
  leb_int_trans a b c,
  leb_int_trans c b a,
  leb_int_trans c a b,
  leb_int_trans b c a,
  leb_int_total a b,
  leb_int_total b c,
  leb_int_total a c,
  leb_int_total b a,
)

pub lt_irrefl : (x : List ℤ) → parts_lt x x ≡ false
unfolding parts_lt
lt_irrefl [] = refl
lt_irrefl (a ∷ x) = ground (arith, lt_irrefl x)

pub lt_asym : (x y : List ℤ) → parts_lt x y ≡ true → parts_lt y x ≡ false
unfolding parts_lt
lt_asym [] [] h = refl
lt_asym [] (b ∷ y) h = refl
lt_asym (a ∷ x) [] h = ground arith
lt_asym (a ∷ x) (b ∷ y) h = ground (arith, lt_asym x y)

pub le_trans : (x y z : List ℤ) → parts_lt y x ≡ false → parts_lt z y ≡ false → parts_lt z x ≡ false
le_trans x y z h k = elim (Bool-cases (parts_lt z x)) [
  | inr e ↦ e
  | inl e ↦ ground (arith, lt_of_le_of_lt y z x k e, h)
]

-- The OIDs of the list are not below the first.
abbrev pub Bounds : Keyed → List Keyed → Type 0
Bounds k l = All (λ (y : Keyed). parts_lt y.0 k.0 ≡ false) l

abbrev pub IsAscending : List Keyed → Type 0
IsAscending [] = Unit
IsAscending (k ∷ l) = Bounds k l × IsAscending l

module _ (P : Keyed → Type 0) where
  pub All-put_by : (a : Keyed) (l : List Keyed) → P a → All P l → All P (put_by may_precede a l)
  unfolding put_by
  All-put_by a [] p h = (p, tt)
  All-put_by a (b ∷ l) p h = ground (arith, All-put_by a l p h.1)

  pub All-sort_by : (l : List Keyed) → All P l → All P (sort_by may_precede l)
  unfolding sort_by
  All-sort_by [] h = tt
  All-sort_by (a ∷ l) h = All-put_by a (sort_by may_precede l) h.0 (All-sort_by l h.1)

  put_by-All : (a : Keyed) (l : List Keyed) → All P (put_by may_precede a l) → P a × All P l
  unfolding put_by
  put_by-All a [] h = h
  put_by-All a (b ∷ l) h = elim (Bool-cases (may_precede a b)) [
    | inl e ↦ ground (arith, e, h)
    | inr e ↦ ground (arith, e, h, put_by-All a l)
  ]

  pub sort_by-All : (l : List Keyed) → All P (sort_by may_precede l) → All P l
  unfolding sort_by
  sort_by-All [] h = tt
  sort_by-All (a ∷ l) h = let r = put_by-All a (sort_by may_precede l) h in (r.0, sort_by-All l r.1)

Bounds-le : (k b : Keyed) (l : List Keyed) → parts_lt b.0 k.0 ≡ false → Bounds b l → Bounds k l
Bounds-le k b [] h u = tt
Bounds-le k b (y ∷ l) h u = (le_trans k.0 b.0 y.0 h u.0, Bounds-le k b l h u.1)

put_by-IsAscending :
    (a : Keyed) (l : List Keyed) → IsAscending l → IsAscending (put_by may_precede a l)
unfolding put_by
put_by-IsAscending a [] h = (tt, tt)
put_by-IsAscending a (b ∷ l) h = elim (Bool-cases (parts_lt b.0 a.0)) [
  | inr e ↦ rw e ((e, Bounds-le a b l e h.0), h)
  | inl e ↦ rw e (
    All-put_by (λ (y : Keyed). parts_lt y.0 b.0 ≡ false) a l (lt_asym b.0 a.0 e) h.0,
    put_by-IsAscending a l h.1,
  )
]

pub sort_by-IsAscending : (l : List Keyed) → IsAscending (sort_by may_precede l)
unfolding sort_by
sort_by-IsAscending [] = tt
sort_by-IsAscending (a ∷ l) = put_by-IsAscending a (sort_by may_precede l) (sort_by-IsAscending l)
