-- ===== src/Statistics.antt =====
-- app/services/device_statistics.py: the numbers of an observation, and their accumulators.
pub mod Counts
pub mod Bounds
use amplifier_panel.Base.{
  ℕ, suc, ◌+◌, Bool, true, false, ◌&&◌, ◌||◌, not, String, Option, none, some, List, [], ◌∷◌, ◌==◌,
  string_eq, bool_eq, option_eq, eqb, if◌then◌else◌,
}
use amplifier_panel.Base.Dict
use amplifier_panel.Base.Dict.{Dict}
use amplifier_panel.Base.Text.{◌<>◌, is_empty}
use amplifier_panel.Device.{Floats}

-- A JSON document; its integers stand as their floats.
mutual
  pub data Json (F : Type 0) : Type 0 where
    null : Json F
    number : F → Json F
    boolean : Bool → Json F
    text : String → Json F
    array : Items F → Json F
    object : Members F → Json F

  pub data Items (F : Type 0) : Type 0 where
    no_items : Items F
    item : Json F → Items F → Items F

  pub data Members (F : Type 0) : Type 0 where
    no_members : Members F
    member : String → Json F → Members F → Members F

-- `str` of an index and of a JSON value.
pub record Shown (F : Type 0) : Type 0 where
  pub show_index : ℕ → String
  pub show_json : Json F → String

-- `f"{prefix}.{name}" if prefix else name`
unfoldable pub path : String → String → String
path prefix name = if is_empty prefix then name else prefix <> "." <> name

unfoldable pub member_of : {F : Type 0} → String → Members F → Option (Json F)
member_of key no_members = none
member_of key (member k v ms) =
    let rest = member_of key ms in
    elim rest [ some w ↦ some w | none ↦ if k == key then some v else none ]

module _ (fl : Floats) (sh : Shown fl.Float) where
  open fl use {Float}

  abbrev pub truthy : Json Float → Bool
  truthy null = false
  truthy (number x) = not (fl.as_bool x == some false)
  truthy (boolean b) = b
  truthy (text s) = not (is_empty s)
  truthy (array no_items) = false
  truthy (array (item _ _)) = true
  truthy (object no_members) = false
  truthy (object (member _ _ _)) = true

  abbrev pub name_or_index : Option (Json Float) → ℕ → String
  name_or_index none index = sh.show_index index
  name_or_index (some name) index = if truthy name then sh.show_json name else sh.show_index index

  -- The segment of one item of a list: its name, or its index.
  unfoldable pub segment : Json Float → ℕ → String
  segment (object ms) index = name_or_index (member_of "name" ms) index
  segment null index = sh.show_index index
  segment (number _) index = sh.show_index index
  segment (boolean _) index = sh.show_index index
  segment (text _) index = sh.show_index index
  segment (array _) index = sh.show_index index

  abbrev pub put_leaf {ℓ} : {A : Type ℓ} → String → A → Dict String A → Dict String A
  put_leaf prefix a fields = if is_empty prefix then fields else Dict.insert prefix a fields

  -- `visit` of `scalar_fields`
  unfoldable mutual
    pub visit_scalars : Json Float → String → Dict String (Json Float) → Dict String (Json Float)
    visit_scalars (object ms) prefix fields = visit_scalar_members ms prefix fields
    visit_scalars (array l) prefix fields = visit_scalar_items l 0 prefix fields
    visit_scalars null prefix fields = put_leaf prefix null fields
    visit_scalars (number x) prefix fields = put_leaf prefix (number x) fields
    visit_scalars (boolean b) prefix fields = put_leaf prefix (boolean b) fields
    visit_scalars (text s) prefix fields = put_leaf prefix (text s) fields

    pub visit_scalar_items :
        Items Float → ℕ → String → Dict String (Json Float) → Dict String (Json Float)
    visit_scalar_items no_items index prefix fields = fields
    visit_scalar_items (item j l) index prefix fields =
        visit_scalar_items l (suc index) prefix
          (visit_scalars j (path prefix (segment j index)) fields)

    pub visit_scalar_members :
        Members Float → String → Dict String (Json Float) → Dict String (Json Float)
    visit_scalar_members no_members prefix fields = fields
    visit_scalar_members (member k j ms) prefix fields =
        visit_scalar_members ms prefix (visit_scalars j (path prefix k) fields)

  abbrev pub scalar_fields : Json Float → Dict String (Json Float)
  scalar_fields snapshot = visit_scalars snapshot "" []

  -- `visit` of `numeric_fields`
  unfoldable mutual
    pub visit_numbers : Json Float → String → Dict String Float → Dict String Float
    visit_numbers (object ms) prefix fields = visit_number_members ms prefix fields
    visit_numbers (array l) prefix fields = visit_number_items l 0 prefix fields
    visit_numbers (number x) prefix fields =
        if fl.is_finite x then put_leaf prefix x fields else fields
    visit_numbers null prefix fields = fields
    visit_numbers (boolean b) prefix fields = fields
    visit_numbers (text s) prefix fields = fields

    pub visit_number_items : Items Float → ℕ → String → Dict String Float → Dict String Float
    visit_number_items no_items index prefix fields = fields
    visit_number_items (item j l) index prefix fields =
        visit_number_items l (suc index) prefix
          (visit_numbers j (path prefix (segment j index)) fields)

    pub visit_number_members : Members Float → String → Dict String Float → Dict String Float
    visit_number_members no_members prefix fields = fields
    visit_number_members (member k j ms) prefix fields =
        let fields' = visit_numbers j (path prefix k) fields in
        visit_number_members ms prefix
          (if k == "connectors" || k == "last_command" then fields else fields')

  abbrev pub numeric_fields : Json Float → Dict String Float
  numeric_fields snapshot = visit_numbers snapshot "" []

  pub record Metric : Type 0 where
    pub count : ℕ
    pub sum : Float
    pub sum_squares : Float
    pub min : Float
    pub max : Float

  abbrev pub Stats : Type 0
  Stats = Dict String Metric

  -- Python's `min` and `max` of two floats.
  abbrev pub min_of : Float → Float → Float
  min_of a b = if fl.lt b a then b else a

  abbrev pub max_of : Float → Float → Float
  max_of a b = if fl.lt a b then b else a

  abbrev pub empty_metric : Float → Metric
  empty_metric value = record {
    count = 0;
    sum = fl.zero_float;
    sum_squares = fl.zero_float;
    min = value;
    max = value;
  }

  abbrev pub metric_or_empty : Float → Option Metric → Metric
  metric_or_empty value none = empty_metric value
  metric_or_empty value (some m) = m

  abbrev pub observe : Float → Metric → Metric
  observe value m = record {
    count = suc m.count;
    sum = fl.add m.sum value;
    sum_squares = fl.add m.sum_squares (fl.mul value value);
    min = min_of m.min value;
    max = max_of m.max value;
  }

  -- The loop of `add_snapshot`.
  unfoldable pub add_fields : Dict String Float → Stats → Stats
  add_fields [] stats = stats
  add_fields ((key, value) ∷ fields) stats =
      add_fields fields
        (Dict.insert key (observe value (metric_or_empty value (Dict.lookup key stats))) stats)

  unfoldable pub add_snapshot : Json Float → Stats → Stats
  add_snapshot snapshot stats = add_fields (numeric_fields snapshot) stats

  unfoldable pub add_snapshots : List (Json Float) → Stats → Stats
  add_snapshots [] stats = stats
  add_snapshots (j ∷ l) stats = add_snapshots l (add_snapshot j stats)

  abbrev pub combine : Metric → Metric → Metric
  combine a b = record {
    count = a.count + b.count;
    sum = fl.add a.sum b.sum;
    sum_squares = fl.add a.sum_squares b.sum_squares;
    min = min_of a.min b.min;
    max = max_of a.max b.max;
  }

  abbrev pub combined : Option Metric → Metric → Metric
  combined none b = b
  combined (some a) b = combine a b

  -- `merge_stats`, with the source first.
  unfoldable pub merge_stats : Stats → Stats → Stats
  merge_stats [] target = target
  merge_stats ((key, metric) ∷ source) target =
      merge_stats source (Dict.insert key (combined (Dict.lookup key target) metric) target)

  pub record Summarized : Type 0 where
    pub count : ℕ
    pub min : Float
    pub max : Float
    pub average : Float
    pub standard_deviation : Float

  abbrev pub summarize_metric : Metric → Summarized
  summarize_metric m =
      let average = fl.div_count m.sum m.count in
      record {
        count = m.count;
        min = m.min;
        max = m.max;
        average = average;
        standard_deviation = fl.sqrt (
            max_of fl.zero_float
              (fl.sub (fl.div_count m.sum_squares m.count) (fl.mul average average)));
      }

  unfoldable pub finalize : Stats → Dict String Summarized
  finalize [] = []
  finalize ((key, m) ∷ stats) =
      let rest = finalize stats in if eqb m.count 0 then rest else (key, summarize_metric m) ∷ rest
