-- ===== src/Snmp/Next.antt =====
-- GETNEXT answers the least OID above the requested one: `next_binding` of app/services/snmp.py.
use amplifier_panel.Base.{
  ◌≡◌, refl, sym, subst, Bool, true, false, ◌&&◌, String, Option, none, some, List, [], ◌∷◌, arith,
  All, find, sort_by, if_true, if_false, Bool-cases, Option-cases, inl, inr, string_eq, contains,
}
use mathlib.Core.Option.{some-injective}
use amplifier_panel.Base.Dict
use amplifier_panel.Base.Dict.{Dict}
use amplifier_panel.Base.Int.{ℤ}
use amplifier_panel.Snmp.{
  oid_parts, parts_lt, Keyed, may_precede, with_parts, next_after, Binding, following, end_of_mib,
  requested_parts, value_of, answer, next_binding,
}
use amplifier_panel.Snmp.Order.{
  IsAscending, Bounds, sort_by-IsAscending, sort_by-All, lt_irrefl, All-sort_by,
}

-- Where the search of an ascending list has found `k`, what is above `o` is not below `k`; where it has
-- found nothing, nothing is above `o`.
abbrev IsLeast : List ℤ → Option Keyed → Keyed → Type 0
IsLeast o none y = parts_lt o y.0 ≡ false
IsLeast o (some k) y = parts_lt o y.0 ≡ true → parts_lt y.0 k.0 ≡ false

Bounds-IsLeast : (o : List ℤ) (k : Keyed) (l : List Keyed) → Bounds k l → All (IsLeast o (some k)) l
Bounds-IsLeast o k [] h = tt
Bounds-IsLeast o k (y ∷ l) h = (λ _. h.0, Bounds-IsLeast o k l h.1)

not_above-IsLeast :
    (o : List ℤ) (found : Option Keyed) (k : Keyed) → parts_lt o k.0 ≡ false → IsLeast o found k
not_above-IsLeast o none k e = e
not_above-IsLeast o (some f) k e = λ w. ground (arith, e, w)

find-IsLeast :
    (o : List ℤ) (l : List Keyed)
    → IsAscending l
    → All (IsLeast o (find (λ (k : Keyed). parts_lt o k.0) l)) l
find-IsLeast o [] h = tt
find-IsLeast o (k ∷ l) h =
    let later = find (λ (y : Keyed). parts_lt o y.0) l in
    elim (Bool-cases (parts_lt o k.0)) [
      | inl e ↦
          subst (λ f. All (IsLeast o f) (k ∷ l)) (sym (if_true (parts_lt o k.0) (some k) later e))
            ((λ _. lt_irrefl k.0), Bounds-IsLeast o k l h.0)
      | inr e ↦
          subst (λ f. All (IsLeast o f) (k ∷ l)) (sym (if_false (parts_lt o k.0) (some k) later e))
            (not_above-IsLeast o later k e, find-IsLeast o l h.1)
    ]

pub find-All :
    (P : Keyed → Type 0) (test : Keyed → Bool) (l : List Keyed) (k : Keyed)
    → find test l ≡ some k
    → All P l
    → P k × (test k ≡ true)
find-All P test [] k f h = absurd (cc)
find-All P test (y ∷ l) k f h = elim (Bool-cases (test y)) [
  | inl e ↦ subst (λ x. P x × (test x ≡ true)) (some-injective y k (rw e at f)) (h.0, e)
  | inr e ↦ let later : find test l ≡ some k = rw e at f in find-All P test l k later h.1
]

-- The list of the parts is about the OIDs of the dict, in their order.
with_parts-All :
    (P : Keyed → Type 0) (R : String → Type 0)
    → ((k : String) (q : List ℤ) → oid_parts k ≡ some q → P (q, k) → R k)
    → (oids : List String) (l : List Keyed) → with_parts oids ≡ some l
    → All P l
    → All R oids
unfolding with_parts
with_parts-All P R step [] l w h = tt
with_parts-All P R step (oid ∷ oids) l w h = elim (Option-cases (oid_parts oid)) [
  | inl e ↦ absurd (ground (arith, e, w))
  | inr (q, e) ↦ elim (Option-cases (with_parts oids)) [
    | inl e' ↦ absurd (ground (arith, e, e', w))
    | inr (rest, e') ↦
        let same : some ((q, oid) ∷ rest) ≡ some l = ground (arith, e, e', w) in
        let h' : All P ((q, oid) ∷ rest) = subst (All P) (sym (some-injective _ _ same)) h in
        (step oid q e h'.0, with_parts-All P R step oids rest e' h'.1)
  ]
]

-- Each of the list has its own parts and is a key of the dict.
abbrev pub Listed : List String → Keyed → Type 0
Listed oids k = (oid_parts k.1 ≡ some k.0) × (contains oids k.1 ≡ true)

Listed-cons :
    (oid : String) (oids : List String) (l : List Keyed)
    → All (Listed oids) l
    → All (Listed (oid ∷ oids)) l
Listed-cons oid oids [] h = tt
Listed-cons oid oids (k ∷ l) h = ((h.0.0, ground (arith, h.0.1)), Listed-cons oid oids l h.1)

pub with_parts-Listed :
    (oids : List String) (l : List Keyed) → with_parts oids ≡ some l → All (Listed oids) l
unfolding with_parts
with_parts-Listed [] l w = subst (All (Listed [])) (some-injective [] l w) tt
with_parts-Listed (oid ∷ oids) l w = elim (Option-cases (oid_parts oid)) [
  | inl e ↦ absurd (ground (arith, e, w))
  | inr (q, e) ↦ elim (Option-cases (with_parts oids)) [
    | inl e' ↦ absurd (ground (arith, e, e', w))
    | inr (rest, e') ↦
        subst (All (Listed (oid ∷ oids)))
          (some-injective ((q, oid) ∷ rest) l (ground (arith, e, e', w)))
          ((e, ground arith), Listed-cons oid oids rest (with_parts-Listed oids rest e'))
  ]
]

-- Whether an OID lies above `o`, and whether it lies above `o` and below `p`.
abbrev pub lies_above : List ℤ → Option (List ℤ) → Bool
lies_above o none = false
lies_above o (some q) = parts_lt o q

abbrev pub lies_between : List ℤ → List ℤ → Option (List ℤ) → Bool
lies_between o p none = false
lies_between o p (some q) = parts_lt o q && parts_lt q p

-- An answer is the next one: an OID of the dict above `o`, with its value and with no OID of the dict in
-- between, or the end where no OID of the dict is above `o`.
abbrev pub IsNext : Dict String String → List ℤ → Binding → Type 0
IsNext values o end_of_mib = All (λ k. lies_above o (oid_parts k) ≡ false) (Dict.keys values)
IsNext values o (following next value) =
    (p : List ℤ) × (oid_parts next ≡ some p)
    × (parts_lt o p ≡ true)
    × (Dict.lookup next values ≡ some value)
    × All (λ k. lies_between o p (oid_parts k) ≡ false) (Dict.keys values)

has_value :
    (k : String) (values : Dict String String)
    → contains (Dict.keys values) k ≡ true
    → Dict.lookup k values ≡ some (value_of (Dict.lookup k values))
has_value k values h = elim (Option-cases (Dict.lookup k values)) [
  | inl e ↦ absurd (ground (arith, e, h, Dict.contains-keys k values))
  | inr (v, e) ↦ rw e
]

found-IsNext :
    (values : Dict String String) (o : List ℤ) (l : List Keyed) (found : Option Keyed)
    → with_parts (Dict.keys values) ≡ some l
    → All (IsLeast o found) l
    → ((k : Keyed) → found ≡ some k → Listed (Dict.keys values) k × (parts_lt o k.0 ≡ true))
    → IsNext values o (answer values found)
found-IsNext values o l none w least here =
    with_parts-All (IsLeast o none) _ (λ k q e h. rw e h) (Dict.keys values) l w least
found-IsNext values o l (some k) w least here =
    let (listed, above) = here k refl in
    (
      k.0,
      listed.0,
      above,
      has_value k.1 values listed.1,
      with_parts-All (IsLeast o (some k)) _ (λ r q e h. rw e (between q h)) (Dict.keys values) l w
          least,
    )
  where
    between :
        (q : List ℤ)
        → (parts_lt o q ≡ true → parts_lt q k.0 ≡ false)
        → (parts_lt o q && parts_lt q k.0) ≡ false
    between q h = elim (Bool-cases (parts_lt o q)) [ inl e ↦ rw (e, h e) | inr e ↦ rw e ]

-- Every answer to GETNEXT is the next one: the answered OID is among those that are shown, above the
-- requested one, with its own value, and no shown OID lies between the two; and the end is answered
-- only where no shown OID is above the requested one.
pub next_binding-IsNext :
    (values : Dict String String) (oid : String) (b : Binding)
    → next_binding values oid ≡ some b
    → IsNext values (requested_parts (oid_parts oid)) b
unfolding next_binding next_after
next_binding-IsNext values oid b w = elim (Option-cases (with_parts (Dict.keys values))) [
  | inl e ↦ absurd (ground (arith, e, w))
  | inr (l, e) ↦
      let o = requested_parts (oid_parts oid) in
      let found = next_after o l in
      let listed =
        All-sort_by (Listed (Dict.keys values)) l (with_parts-Listed (Dict.keys values) l e) in
      let least =
        sort_by-All (IsLeast o found) l
          (find-IsLeast o (sort_by may_precede l) (sort_by-IsAscending l)) in
      subst (IsNext values o) (some-injective (answer values found) b (ground (arith, e, w))) (
        found-IsNext values o l found e least (λ k f.
          find-All (Listed (Dict.keys values)) (λ (y : Keyed). parts_lt o y.0)
            (sort_by may_precede l) k f listed))
]
