-- ===== src/Inventory/Order.antt =====
-- The order of the devices: `sorted` in `set_device_inventory` of app/core/state.py.
use amplifier_panel.Base.{
  ◌≡◌, refl, Bool, true, false, ◌||◌, String, List, [], ◌∷◌, ◌==◌, string_eq, map, contains, count,
  arith,
}
use amplifier_panel.Base.Int.{ℤ, pos, negsuc, leb_int}
use amplifier_panel.Base.Text.{text_le}
use amplifier_panel.Device.{Profile}
use amplifier_panel.Inventory.{comes_first, put_in_order, sorted}

leb_int_total : (a b : ℤ) → leb_int a b ≡ false → leb_int b a ≡ true
leb_int_total (pos a) (pos b) h = ground arith
leb_int_total (pos a) (negsuc b) h = refl
leb_int_total (negsuc a) (pos b) h = ground arith
leb_int_total (negsuc a) (negsuc b) h = ground arith

text_le_total : (s t : String) → text_le s t ≡ false → text_le t s ≡ true
unfolding text_le
text_le_total String.[] t h = ground arith
text_le_total (String.◌∷◌ c s) String.[] h = refl
text_le_total (String.◌∷◌ c s) (String.◌∷◌ d t) h = ground (arith, text_le_total s t)

comes_first_total : (a b : Profile) → comes_first a b ≡ false → comes_first b a ≡ true
unfolding comes_first
comes_first_total a b h = ground (arith, leb_int_total a.order b.order, text_le_total a.id b.id)

-- Each item may stand before the next.
abbrev pub IsOrdered : List Profile → Type 0
IsOrdered [] = Unit
IsOrdered (a ∷ []) = Unit
IsOrdered (a ∷ b ∷ l) = (comes_first a b ≡ true) × IsOrdered (b ∷ l)

put_in_order-IsOrdered :
    (a : Profile) (l : List Profile) → IsOrdered l → IsOrdered (put_in_order a l)
unfolding put_in_order
put_in_order-IsOrdered a [] o = tt
put_in_order-IsOrdered a (b ∷ []) o = ground (arith, comes_first_total a b)
put_in_order-IsOrdered a (b ∷ c ∷ l) o =
    ground (arith, comes_first_total a b, put_in_order-IsOrdered a (c ∷ l))

-- The active devices stand in the order of their `order` and, where that is the same, of their id:
-- each of `sorted` may stand before the next.
pub sorted-IsOrdered : (l : List Profile) → IsOrdered (sorted l)
unfolding sorted
sorted-IsOrdered [] = tt
sorted-IsOrdered (a ∷ l) = put_in_order-IsOrdered a (sorted l) (sorted-IsOrdered l)

count-put_in_order :
    (test : Profile → Bool) (a : Profile) (l : List Profile)
    → count test (put_in_order a l) ≡ count test (a ∷ l)
unfolding put_in_order
count-put_in_order test a [] = refl
count-put_in_order test a (b ∷ l) = ground (arith, count-put_in_order test a l)

-- `sorted` keeps every item as often as it was there: every test counts the same in both lists.
pub count-sorted : (test : Profile → Bool) (l : List Profile) → count test (sorted l) ≡ count test l
unfolding sorted
count-sorted test [] = refl
count-sorted test (a ∷ l) =
    ground (arith, count-put_in_order test a (sorted l), count-sorted test l)

abbrev pub ids : List Profile → List String
ids l = map (λ (p : Profile). p.id) l

contains-put_in_order :
    (a : Profile) (l : List Profile) (k : String)
    → contains (ids (put_in_order a l)) k ≡ (k == a.id || contains (ids l) k)
unfolding put_in_order
contains-put_in_order a [] k = ground arith
contains-put_in_order a (b ∷ l) k = ground (arith, contains-put_in_order a l k)

pub contains-sorted :
    (l : List Profile) (k : String) → contains (ids (sorted l)) k ≡ contains (ids l) k
unfolding sorted
contains-sorted [] k = refl
contains-sorted (a ∷ l) k =
    ground (arith, contains-put_in_order a (sorted l) k, contains-sorted l k)
