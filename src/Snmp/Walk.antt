-- ===== src/Snmp/Walk.antt =====
-- A client that repeats GETNEXT with the last answer, as `snmpwalk` does, over the handlers of
-- app/services/snmp.py.
use amplifier_panel.Base.{
  ℕ, zero, suc, ◌≤◌, ◌<◌, ◌≡◌, refl, ap, sym, ◌∙◌, Bool, true, false, ◌||◌, String, Option, none,
  some, List, [], ◌∷◌, arith, All, find, sort_by, put_by, select, length, map, Bool-cases,
  Option-cases, inl, inr, string_eq, length-sort_by,
}
use mathlib.Core.Option.{some-injective}
use amplifier_panel.Base.Dict
use amplifier_panel.Base.Dict.{Dict}
use amplifier_panel.Base.Int.{ℤ}
use amplifier_panel.Snmp.{
  oid_parts, parts_lt, Keyed, may_precede, with_parts, next_after, following, end_of_mib,
  requested_parts, answer, next_binding,
}
use amplifier_panel.Snmp.Order.{lt_irrefl, lt_asym, lt_of_le_of_lt, All-put_by, All-sort_by}
use amplifier_panel.Snmp.Next.{Listed, with_parts-Listed, find-All}

-- The OIDs that are answered until the end of the MIB; `none` where the requests run out or a handler
-- raises.
pub walk : ℕ → Dict String String → String → Option (List String)
walk zero values oid = none
walk (suc n) values oid = elim (next_binding values oid) [
  | none ↦ none
  | some end_of_mib ↦ some []
  | some (following next value) ↦ elim (walk n values next) [
    | none ↦ none
    | some l ↦ some (next ∷ l)
  ]
]

abbrev differ : Keyed → Keyed → Bool
differ a b = parts_lt a.0 b.0 || parts_lt b.0 a.0

-- No two OIDs of the list are equal as numbers.
abbrev pub AllDiffer : List Keyed → Type 0
AllDiffer [] = Unit
AllDiffer (k ∷ l) = All (λ y. differ k y ≡ true) l × AllDiffer l

abbrev IsStrict : List Keyed → Type 0
IsStrict [] = Unit
IsStrict (k ∷ l) = All (λ (y : Keyed). parts_lt k.0 y.0 ≡ true) l × IsStrict l

-- The OIDs above `o` in a list.
abbrev pub above : List ℤ → List Keyed → List Keyed
above o l = select (λ (k : Keyed). parts_lt o k.0) l

lt_trans : (x y z : List ℤ) → parts_lt x y ≡ true → parts_lt y z ≡ true → parts_lt x z ≡ true
lt_trans x y z h k = lt_of_le_of_lt x y z (lt_asym x y h) k

All-lt_trans :
    (a b : Keyed) (l : List Keyed)
    → parts_lt a.0 b.0 ≡ true
    → All (λ (y : Keyed). parts_lt b.0 y.0 ≡ true) l
    → All (λ (y : Keyed). parts_lt a.0 y.0 ≡ true) l
All-lt_trans a b [] h u = tt
All-lt_trans a b (y ∷ l) h u = (lt_trans a.0 b.0 y.0 h u.0, All-lt_trans a b l h u.1)

put_by-IsStrict :
    (a : Keyed) (l : List Keyed)
    → All (λ y. differ a y ≡ true) l
    → IsStrict l
    → IsStrict (put_by may_precede a l)
unfolding put_by
put_by-IsStrict a [] d s = (tt, tt)
put_by-IsStrict a (b ∷ l) d s = elim (Bool-cases (parts_lt b.0 a.0)) [
  | inr e ↦
      let below : parts_lt a.0 b.0 ≡ true = ground (arith, e, d.0) in
      rw e ((below, All-lt_trans a b l below s.0), s)
  | inl e ↦
      rw e
        (All-put_by (λ (y : Keyed). parts_lt b.0 y.0 ≡ true) a l e s.0, put_by-IsStrict a l d.1 s.1)
]

sort_by-IsStrict : (l : List Keyed) → AllDiffer l → IsStrict (sort_by may_precede l)
unfolding sort_by
sort_by-IsStrict [] d = tt
sort_by-IsStrict (a ∷ l) d =
    put_by-IsStrict a (sort_by may_precede l) (All-sort_by (λ y. differ a y ≡ true) l d.0)
      (sort_by-IsStrict l d.1)

-- In a strictly ascending list, the OIDs above `o` are the first that is found and those above it.
above-All :
    (o : List ℤ) (l : List Keyed) → All (λ (y : Keyed). parts_lt o y.0 ≡ true) l → above o l ≡ l
above-All o [] h = refl
above-All o (y ∷ l) h = ground (arith, h.0, above-All o l h.1)

abbrev rest_above : List Keyed → Option Keyed → List Keyed
rest_above l none = []
rest_above l (some k) = k ∷ above k.0 l

skip_below :
    (k : Keyed) (l : List Keyed) (o : List ℤ) (found : Option Keyed)
    → found ≡ find (λ (y : Keyed). parts_lt o y.0) l
    → parts_lt o k.0 ≡ false
    → rest_above l found ≡ rest_above (k ∷ l) found
skip_below k l o none f e = refl
skip_below k l o (some x) f e =
    let (tt, above_o) =
      find-All (λ _. Unit {0}) (λ (y : Keyed). parts_lt o y.0) l x (sym f) (all_unit l) in
    ground (arith, lt_trans o x.0 k.0 above_o, e)
  where
    all_unit : (l : List Keyed) → All (λ _. Unit {0}) l
    all_unit [] = tt
    all_unit (y ∷ l) = (tt, all_unit l)

above-find :
    (o : List ℤ) (l : List Keyed)
    → IsStrict l
    → above o l ≡ rest_above l (find (λ (y : Keyed). parts_lt o y.0) l)
above-find o [] s = refl
above-find o (k ∷ l) s = elim (Bool-cases (parts_lt o k.0)) [
  | inl e ↦
      ground (
        arith,
        e,
        lt_irrefl k.0,
        above-All k.0 l s.0,
        above-All o l (All-lt_trans (o, "") k l e s.0),
      )
  | inr e ↦ rw e (above-find o l s.1 ∙ skip_below k l o _ refl e)
]

abbrev pub names : List Keyed → List String
names l = map (λ (k : Keyed). k.1) l

length-above : (o : List ℤ) (l : List Keyed) → length (above o l) ≤ length l
length-above o [] = omega arith
length-above o (k ∷ l) = ground (arith, length-above o l)

length-with_parts :
    (oids : List String) (l : List Keyed) → with_parts oids ≡ some l → length l ≡ length oids
unfolding with_parts
length-with_parts [] l w = ap length (sym (some-injective [] l w))
length-with_parts (oid ∷ oids) l w = elim (Option-cases (oid_parts oid)) [
  | inl e ↦ absurd (ground (arith, e, w))
  | inr (q, e) ↦ elim (Option-cases (with_parts oids)) [
    | inl e' ↦ absurd (ground (arith, e, e', w))
    | inr (rest, e') ↦
        ap length (sym (some-injective ((q, oid) ∷ rest) l (ground (arith, e, e', w))))
        ∙ ap suc (length-with_parts oids rest e')
  ]
]

length-keys : (values : Dict String String) → length (Dict.keys values) ≡ length values
length-keys [] = refl
length-keys ((k, v) ∷ values) = ap suc (length-keys values)

module _ (values : Dict String String) (l : List Keyed) (w : with_parts (Dict.keys values) ≡ some l)
    (strict : IsStrict (sort_by may_precede l)) where
  abbrev ascending : List Keyed
  ascending = sort_by may_precede l

  next_binding_found :
      (oid : String)
      → next_binding values oid
        ≡ some (
            answer values
              (find (λ (k : Keyed). parts_lt (requested_parts (oid_parts oid)) k.0) ascending))
  unfolding next_binding next_after
  next_binding_found oid = ground (arith, w)

  walk_from :
      (n : ℕ) (oid : String)
      → length (above (requested_parts (oid_parts oid)) ascending) < n
      → walk n values oid ≡ some (names (above (requested_parts (oid_parts oid)) ascending))
  unfolding walk
  walk_from zero oid h = absurd (omega arith)
  walk_from (suc n) oid h =
      let o = requested_parts (oid_parts oid) in
      let split = above-find o ascending strict in
      elim (Option-cases (find (λ (k : Keyed). parts_lt o k.0) ascending)) [
        | inl e ↦
            let nb : next_binding values oid ≡ some end_of_mib =
              next_binding_found oid ∙ ap (λ f. some (answer values f)) e in
            let empty : above o ascending ≡ [] = split ∙ ap (rest_above ascending) e in
            rw (nb, walk) (ap (λ x. some (names x)) (sym empty))
        | inr (k, e) ↦
            let (listed, _) =
              find-All (Listed (Dict.keys values)) (λ (y : Keyed). parts_lt o y.0) ascending k e
                (All-sort_by (Listed (Dict.keys values)) l
                  (with_parts-Listed (Dict.keys values) l w)) in
            let nb = next_binding_found oid ∙ ap (λ f. some (answer values f)) e in
            let more : above o ascending ≡ k ∷ above k.0 ascending =
              split ∙ ap (rest_above ascending) e in
            let known : requested_parts (oid_parts k.1) ≡ k.0 = ap requested_parts listed.0 in
            let fewer : length (above (requested_parts (oid_parts k.1)) ascending) < n =
              rw known (omega (arith, h, ap length more)) in
            let rest = walk_from n k.1 fewer ∙ ap (λ x. some (names (above x ascending))) known in
            rw (nb, walk, rest) (ap (λ x. some (names x)) (sym more))
      ]

-- A client that asks for the OID after `oid`, then for the one after each answer, gets to the end of the
-- MIB with one request more than there are OIDs, when all of them are numeric and no two are equal as
-- numbers and the tree does not change meanwhile. It is answered each OID above `oid` once, in the
-- order of the numbers.
pub walk_ends :
    (values : Dict String String) (l : List Keyed) (oid : String)
    → with_parts (Dict.keys values) ≡ some l
    → AllDiffer l
    → walk (suc (length values)) values oid
      ≡ some (names (above (requested_parts (oid_parts oid)) (sort_by may_precede l)))
walk_ends values l oid w d = walk_from values l w (sort_by-IsStrict l d) (suc (length values)) oid (
    omega (
      arith,
      length-above (requested_parts (oid_parts oid)) (sort_by may_precede l),
      length-sort_by may_precede l,
      length-with_parts (Dict.keys values) l w,
      length-keys values,
    ))
