-- ===== src/Snmp.antt =====
-- The read-only agent of app/services/snmp.py: the tree of OIDs that is made of the live snapshots, the
-- answers to GET and GETNEXT, and the view that the dashboard shows. pysnmp hands over the requested
-- OIDs as texts. `none` is an exception that the handler does not catch.
pub mod Order
pub mod Next
pub mod Walk
use amplifier_panel.Base.{
  ℕ, Bool, true, false, not, ◌&&◌, ◌||◌, String, Option, none, some, List, [], ◌∷◌, ◌++◌, code, eqb,
  find, any, sort_by, ◌==◌, string_eq, if◌then◌else◌,
}
use amplifier_panel.Base.Dict
use amplifier_panel.Base.Dict.{Dict}
use amplifier_panel.Base.Int.{ℤ, leb_int, parse_int}
use amplifier_panel.Base.Text.{◌<>◌, pieces, is_empty}
use amplifier_panel.Statistics.{Shown}
use amplifier_panel.Device.{
  Floats, Value, missing, numeric, truth, words, Field, Section, Profile, Snapshot,
}
use amplifier_panel.Alarms.{field_value}
use amplifier_panel.Inventory.{Live, Inventory, active_device_ids, snapshot_device_live}

abbrev pub oid_base : String
oid_base = "1.3.6.1.4.1.99999"

abbrev pub is_dot : ℕ → Bool
is_dot c = eqb c b'.'

unfoldable pub drop_dots : String → String
drop_dots String.[] = String.[]
drop_dots (String.◌∷◌ c s) =
    let rest = drop_dots s in if is_dot (code c) then rest else String.◌∷◌ c s

unfoldable pub drop_last_dots : String → String
drop_last_dots String.[] = String.[]
drop_last_dots (String.◌∷◌ c s) =
    let rest = drop_last_dots s in
    if is_dot (code c) && is_empty rest then String.[] else String.◌∷◌ c rest

unfoldable pub all_ints : List String → Option (List ℤ)
all_ints [] = some []
all_ints (part ∷ parts) = elim (parse_int part) [
  | none ↦ none
  | some n ↦ elim (all_ints parts) [ none ↦ none | some l ↦ some (n ∷ l) ]
]

-- `_oid_parts`; `none` is the `ValueError`.
unfoldable pub oid_parts : String → Option (List ℤ)
unfolding drop_dots drop_last_dots all_ints
oid_parts oid = all_ints (pieces is_dot (drop_last_dots (drop_dots oid)))

-- `a < b` of tuples of ints.
unfoldable pub parts_lt : List ℤ → List ℤ → Bool
parts_lt [] [] = false
parts_lt [] (b ∷ m) = true
parts_lt (a ∷ l) [] = false
parts_lt (a ∷ l) (b ∷ m) =
    let rest = parts_lt l m in if leb_int a b then (if leb_int b a then rest else true) else false

-- An OID with its parts.
abbrev pub Keyed : Type 0
Keyed = List ℤ × String

abbrev pub may_precede : Keyed → Keyed → Bool
may_precede a b = not (parts_lt b.0 a.0)

unfoldable pub with_parts : List String → Option (List Keyed)
with_parts [] = some []
with_parts (oid ∷ oids) = elim (oid_parts oid) [
  | none ↦ none
  | some p ↦ elim (with_parts oids) [ none ↦ none | some l ↦ some ((p, oid) ∷ l) ]
]

-- The first of `sorted(values, key=_oid_parts)` that is above the requested OID.
unfoldable pub next_after : List ℤ → List Keyed → Option Keyed
next_after parts l = find (λ (k : Keyed). parts_lt parts k.0) (sort_by may_precede l)

pub data Binding : Type 0 where
  following : String → String → Binding
  end_of_mib : Binding

-- `oid_parts = ()` where the requested OID is not numeric.
abbrev pub requested_parts : Option (List ℤ) → List ℤ
requested_parts none = []
requested_parts (some p) = p

abbrev pub value_of : Option String → String
value_of none = "--"
value_of (some v) = v

abbrev pub answer : Dict String String → Option Keyed → Binding
answer values none = end_of_mib
answer values (some k) = following k.1 (value_of (Dict.lookup k.1 values))

-- One turn of the loop of `read_next_variables`, with the values of that moment.
unfoldable pub next_binding : Dict String String → String → Option Binding
next_binding values oid = elim (with_parts (Dict.keys values)) [
  | none ↦ none
  | some l ↦ some (answer values (next_after (requested_parts (oid_parts oid)) l))
]

unfoldable pub read_next_variables : List (String × Dict String String) → Option (List Binding)
read_next_variables [] = some []
read_next_variables ((oid, values) ∷ bindings) = elim (next_binding values oid) [
  | none ↦ none
  | some b ↦ elim (read_next_variables bindings) [ none ↦ none | some l ↦ some (b ∷ l) ]
]

-- `read_variables`: the value, or `NoSuchObject`.
unfoldable pub read_variables : List (String × Dict String String) → List (String × Option String)
read_variables [] = []
read_variables ((oid, values) ∷ bindings) = (oid, Dict.lookup oid values) ∷ read_variables bindings

module _ (fl : Floats) (sh : Shown fl.Float) where
  open fl use {Float}

  abbrev pub format_value : Value Float → String
  format_value missing = "--"
  format_value (truth true) = "true"
  format_value (truth false) = "false"
  format_value (numeric x) = fl.show x
  format_value (words w) = w

  abbrev pub connection_text : Bool → String
  connection_text true = "CONNECTED"
  connection_text false = "DISCONNECTED"

  abbrev pub field_oid : Field Float → String
  field_oid f = oid_base <> "." <> f.id <> ".0"

  abbrev pub is_oid : Option (List ℤ) → Bool
  is_oid none = false
  is_oid (some _) = true

  unfoldable pub put_fields :
      Snapshot Float → Section Float → List (Field Float) → Dict String String → Dict String String
  put_fields snapshot section [] result = result
  put_fields snapshot section (f ∷ fields) result = put_fields snapshot section fields (
      if is_oid (oid_parts f.id)
      then Dict.insert (field_oid f) (format_value (field_value fl snapshot section f)) result
      else result)

  unfoldable pub put_sections :
      Snapshot Float → List (Section Float) → Dict String String → Dict String String
  put_sections snapshot [] result = result
  put_sections snapshot (s ∷ sections) result =
      put_sections snapshot sections (put_fields snapshot s s.fields result)

  abbrev pub put_snapshot : Option (Snapshot Float) → Dict String String → Dict String String
  put_snapshot none result = result
  put_snapshot (some snapshot) result = put_sections snapshot snapshot.sections result

  abbrev pub put_index : Option ℕ → Live fl → Dict String String → Dict String String
  put_index none live result = result
  put_index (some index) live result =
      Dict.insert (oid_base <> ".1." <> sh.show_index index <> ".0")
        (connection_text live.connected) result

  unfoldable pub put_device :
      Option (Live fl) → Option Profile → Dict String String → Option (Dict String String)
  put_device none profile result = none
  put_device (some live) none result = none
  put_device (some live) (some profile) result =
      some (put_snapshot live.snapshot (put_index profile.snmp_index live result))

  unfoldable pub put_devices :
      Inventory fl → List String → Dict String String → Option (Dict String String)
  put_devices s [] result = some result
  put_devices s (device_id ∷ ids) result =
      elim (put_device (snapshot_device_live fl device_id s)
        (Dict.lookup device_id s.device_definitions) result) [
          | none ↦ none
          | some r ↦ put_devices s ids r
        ]

  -- `_live_oid_values`; `none` is the `KeyError` for a device without an entry.
  unfoldable pub live_oid_values : Inventory fl → Option (Dict String String)
  live_oid_values s = put_devices s (active_device_ids fl s) []
