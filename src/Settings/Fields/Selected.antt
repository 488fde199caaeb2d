-- ===== src/Settings/Fields/Selected.antt =====
-- The live fields that `merge_device_live_fields` of app/core/state.py selects.
use amplifier_panel.Base.{
  ◌≡◌, refl, ℕ, ◌≤◌, zero, suc, Bool, true, false, ◌||◌, String, Option, none, some, List, [], ◌∷◌,
  contains, take, length, length-take-le, arith, ◌==◌, string_eq, eq_comm, if◌then◌else◌, if_elim,
}
use amplifier_panel.Base.Dict
use amplifier_panel.Base.Dict.{Dict, AllValues, insert-AllValues}
use amplifier_panel.Base.Text.{is_empty}
use amplifier_panel.Device.{Floats}
use amplifier_panel.Statistics.{
  Json, Items, Members, null, number, boolean, text, array, object, no_items, item, no_members,
  member,
}
use amplifier_panel.Settings.Fields.{
  Truncated, unique_fields, with_gain, selected_fields, merge_fields, merge_all_fields,
  merge_device_live_fields, default_device_live_fields, members_or_none,
}

-- No field twice, and none is empty.
abbrev pub AreDistinct : List String → Type 0
AreDistinct [] = Unit
AreDistinct (f ∷ l) = (is_empty f ≡ false) × (contains l f ≡ false) × AreDistinct l

-- At most 65 fields: the 64 that are kept of the file, and the gain of an older one.
abbrev pub IsSelection : List String → Type 0
IsSelection l = AreDistinct l × (length l ≤ 65)

abbrev pub AreSelections : Dict String (List String) → Type 0
AreSelections d = AllValues IsSelection d

contains-take :
    (n : ℕ) (f : String) (l : List String) → contains l f ≡ false → contains (take n l) f ≡ false
contains-take zero f l h = refl
contains-take (suc n) f [] h = refl
contains-take (suc n) f (g ∷ l) h = ground (arith, h, contains-take n f l)

take-AreDistinct : (n : ℕ) (l : List String) → AreDistinct l → AreDistinct (take n l)
take-AreDistinct zero l d = tt
take-AreDistinct (suc n) [] d = tt
take-AreDistinct (suc n) (f ∷ l) (e, c, d) = (e, contains-take n f l c, take-AreDistinct n l d)

abbrev HasGain : Option (List String) → Type 0
HasGain none = Unit
HasGain (some []) = Unit
HasGain (some (gain ∷ _)) = is_empty gain ≡ false

default_gain : (k : String) → HasGain (Dict.lookup k default_device_live_fields)
unfolding Dict.lookup
default_gain k =
    if_elim HasGain (k == "oba") (λ _. refl)
      (λ _. if_elim HasGain (k == "oba3") (λ _. refl) (λ _. tt))

module _ (fl : Floats) (truncate : fl.Float → Truncated) where
  open fl use {Float}

  with_gain-IsSelection :
      (is_current : Bool) (o : Option (List String)) (fields : List String)
      → HasGain o
      → AreDistinct fields
      → length fields ≤ 64
      → IsSelection (with_gain fl truncate is_current o fields)
  with_gain-IsSelection true o fields g d n = (d, omega (arith, n))
  with_gain-IsSelection false none fields g d n = (d, omega (arith, n))
  with_gain-IsSelection false (some []) fields g d n = (d, omega (arith, n))
  with_gain-IsSelection false (some (gain ∷ _)) fields g d n =
      if_elim IsSelection (contains fields gain) (λ _. (d, omega (arith, n)))
        (λ e. ((g, e, d), omega (arith, n)))

  not_seen :
      (l : Items Float) (seen : List String) (f : String)
      → contains seen f ≡ true
      → contains (unique_fields fl truncate l seen) f ≡ false
  unfolding unique_fields
  not_seen no_items seen f h = refl
  not_seen (item (text s) l) seen f h =
      let skipped = is_empty s || contains seen s in
      let rest = not_seen l (if skipped then seen else s ∷ seen) f (ground (arith, h)) in
      ground (arith, h, rest, eq_comm f s)
  not_seen (item null l) seen f h = not_seen l seen f h
  not_seen (item (number _) l) seen f h = not_seen l seen f h
  not_seen (item (boolean _) l) seen f h = not_seen l seen f h
  not_seen (item (array _) l) seen f h = not_seen l seen f h
  not_seen (item (object _) l) seen f h = not_seen l seen f h

  fields-AreDistinct :
      (l : Items Float) (seen : List String) → AreDistinct (unique_fields fl truncate l seen)
  unfolding unique_fields
  fields-AreDistinct no_items seen = tt
  fields-AreDistinct (item (text s) l) seen =
      let skipped = is_empty s || contains seen s in
      let next = if skipped then seen else s ∷ seen in
      let rest = fields-AreDistinct l next in
      if_elim AreDistinct skipped (λ _. rest)
        (λ e. (ground (arith, e), not_seen l next s (ground (arith, e)), rest))
  fields-AreDistinct (item null l) seen = fields-AreDistinct l seen
  fields-AreDistinct (item (number _) l) seen = fields-AreDistinct l seen
  fields-AreDistinct (item (boolean _) l) seen = fields-AreDistinct l seen
  fields-AreDistinct (item (array _) l) seen = fields-AreDistinct l seen
  fields-AreDistinct (item (object _) l) seen = fields-AreDistinct l seen

  selected-IsSelection :
      (is_current : Bool) (k : String) (l : Items Float)
      → IsSelection (selected_fields fl truncate is_current k l)
  selected-IsSelection is_current k l =
      let fields = unique_fields fl truncate l [] in
      with_gain-IsSelection is_current (Dict.lookup k default_device_live_fields) (take 64 fields)
        (default_gain k) (take-AreDistinct 64 fields (fields-AreDistinct l []))
        (length-take-le 64 fields)

  merge_fields-AreSelections :
      (is_current : Bool) (k : String) (j : Json Float) (d : Dict String (List String))
      → AreSelections d
      → AreSelections (merge_fields fl truncate is_current k j d)
  merge_fields-AreSelections is_current k (array l) d a =
      if_elim AreSelections (is_empty k) (λ _. a)
        (λ _.
          insert-AllValues IsSelection k (selected_fields fl truncate is_current k l) d
            (selected-IsSelection is_current k l) a)
  merge_fields-AreSelections is_current k null d a = a
  merge_fields-AreSelections is_current k (number _) d a = a
  merge_fields-AreSelections is_current k (boolean _) d a = a
  merge_fields-AreSelections is_current k (text _) d a = a
  merge_fields-AreSelections is_current k (object _) d a = a

  merge_all-AreSelections :
      (is_current : Bool) (ms : Members Float) (d : Dict String (List String))
      → AreSelections d
      → AreSelections (merge_all_fields fl truncate is_current ms d)
  unfolding merge_all_fields
  merge_all-AreSelections is_current no_members d a = a
  merge_all-AreSelections is_current (member k j ms) d a =
      merge_all-AreSelections is_current ms (merge_fields fl truncate is_current k j d)
        (merge_fields-AreSelections is_current k j d a)

  -- Whatever the file of the settings holds, each device's live fields are non-empty texts with none
  -- twice, and they are at most 65.
  pub merge-AreSelections :
      (saved : Option (Json Float)) (version : Option ℕ)
      → AreSelections (merge_device_live_fields fl truncate saved version)
  unfolding merge_device_live_fields string_eq
  merge-AreSelections saved version =
      merge_all-AreSelections _ (members_or_none fl truncate saved) default_device_live_fields (
        ((refl, refl, (refl, refl, tt)), omega arith),
        (((refl, refl, (refl, refl, tt)), omega arith), tt),
      )
