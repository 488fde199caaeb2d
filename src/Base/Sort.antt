-- ===== src/Base/Sort.antt =====
-- `sorted` of Python and `ORDER BY` of SQL, by a test that says which item may stand first. The sort is
-- stable: an item is put in front of those that it does not come after.
use mathlib.Core.Path.{◌≡◌, refl}
use mathlib.Core.Bool.{Bool}
use mathlib.Core.List.{List, [], ◌∷◌}
use native.Mathlib.Omega.{arith}
use amplifier_panel.Base.Tests.{if◌then◌else◌}
use amplifier_panel.Base.Lists.{length, count}

module _ {ℓ} {A : Type ℓ} (first : A → A → Bool) where
  unfoldable pub put_by : A → List A → List A
  put_by a [] = a ∷ []
  put_by a (b ∷ l) = let rest = put_by a l in if first a b then a ∷ b ∷ l else b ∷ rest

  unfoldable pub sort_by : List A → List A
  sort_by [] = []
  sort_by (a ∷ l) = put_by a (sort_by l)

  count-put_by :
      (test : A → Bool) (a : A) (l : List A) → count test (put_by a l) ≡ count test (a ∷ l)
  unfolding put_by
  count-put_by test a [] = refl
  count-put_by test a (b ∷ l) = ground (arith, count-put_by test a l)

  pub count-sort_by : (test : A → Bool) (l : List A) → count test (sort_by l) ≡ count test l
  unfolding sort_by
  count-sort_by test [] = refl
  count-sort_by test (a ∷ l) = ground (arith, count-put_by test a (sort_by l), count-sort_by test l)

  length-put_by : (a : A) (l : List A) → length (put_by a l) ≡ length (a ∷ l)
  unfolding put_by
  length-put_by a [] = refl
  length-put_by a (b ∷ l) = ground (arith, length-put_by a l)

  pub length-sort_by : (l : List A) → length (sort_by l) ≡ length l
  unfolding sort_by
  length-sort_by [] = refl
  length-sort_by (a ∷ l) = ground (arith, length-put_by a (sort_by l), length-sort_by l)
