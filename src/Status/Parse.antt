-- ===== src/Status/Parse.antt =====
-- `parse_status` of app/services/xml_status.py.
use amplifier_panel.Base.{
  ℕ, Bool, true, false, not, ◌&&◌, ◌||◌, String, Option, none, some, List, [], ◌∷◌, ◌++◌, ◌==◌,
  string_eq, option_eq, leb, select, contains, map, if◌then◌else◌,
}
use amplifier_panel.Base.Dict
use amplifier_panel.Base.Dict.{Dict}
use amplifier_panel.Base.Result.{Result, ok, err, ◌>>=◌, ◌>>◌, reject_if}
use amplifier_panel.Base.Text.{◌<>◌, strip, is_empty, or_text, after_prefix}
use amplifier_panel.Device.{
  Floats, FieldType, number, text, boolean, Value, missing, numeric, truth, words, Field, Snapshot,
}
use amplifier_panel.Status.{Param, Node, Root, MappedSection, MappedDevice, Mapping}
use amplifier_panel.Status.Profiles.{
  profile_definition, title_from, underscores_to_spaces, source_presentation,
}

-- `(s or "").strip()`
abbrev pub stripped : Option String → String
stripped none = ""
stripped (some s) = strip s

module _ (fl : Floats) where
  open fl use {Float}

  abbrev pub finite_number : FieldType → Float → Option (Value Float)
  finite_number boolean x = elim (fl.as_bool x) [ none ↦ none | some b ↦ some (truth b) ]
  finite_number number x = some (numeric x)
  finite_number text x = some (numeric x)

  abbrev pub parsed_number : FieldType → Option Float → Option (Value Float)
  parsed_number field_type none = none
  parsed_number field_type (some x) = if fl.is_finite x then finite_number field_type x else none

  abbrev pub parsed_text : FieldType → String → Option (Value Float)
  parsed_text text raw = some (words raw)
  parsed_text number raw = parsed_number number (fl.of_text raw)
  parsed_text boolean raw = parsed_number boolean (fl.of_text raw)

  -- `_parse_field_value`; `none` is the `ValueError`.
  unfoldable pub parse_field_value : Option String → FieldType → Option (Value Float)
  parse_field_value none field_type = none
  parse_field_value (some raw) field_type =
      if is_empty (strip raw) then none else parsed_text field_type raw

  -- The fields, their values and the issues that have been read so far.
  pub record Scan : Type 0 where
    pub values : Dict String (Value Float)
    pub fields : List (Field Float)
    pub issues : List String

  abbrev pub matching : Field Float → Param → Bool
  matching f p = if is_empty f.id then p.name == some f.name else p.id == some f.id

  abbrev pub effective_type : List String → Field Float → FieldType
  effective_type boolean_fields f = if contains boolean_fields f.key then boolean else f.field_type

  -- The value of one field, and the issue with it.
  unfoldable pub read_field :
      String → Field Float → FieldType → List Param → Value Float × Option String
  read_field profile_id f field_type [] =
      (missing, some ("Missing or duplicate field: " <> profile_id <> "." <> f.key))
  read_field profile_id f field_type (p ∷ []) = elim (parse_field_value p.value field_type) [
    | none ↦ (missing, some ("Invalid value: " <> profile_id <> "." <> f.key))
    | some v ↦ (v, none)
  ]
  read_field profile_id f field_type (_ ∷ _ ∷ _) =
      (missing, some ("Missing or duplicate field: " <> profile_id <> "." <> f.key))

  abbrev pub with_issue : Option String → List String → List String
  with_issue none issues = issues
  with_issue (some e) issues = issues ++ e ∷ []

  -- One turn of the loop over the mapped fields.
  unfoldable pub scan_field : String → List String → List Param → Field Float → Scan → Scan
  scan_field profile_id boolean_fields params f s =
      let field_type = effective_type boolean_fields f in
      let (value, issue) = read_field profile_id f field_type (select (matching f) params) in
      record {
        values = Dict.insert f.key value s.values;
        fields = s.fields ++ record f { field_type = field_type; automatic = false } ∷ [];
        issues = with_issue issue s.issues;
      }

  unfoldable pub scan_fields : String → List String → List Param → List (Field Float) → Scan → Scan
  scan_fields profile_id boolean_fields params [] s = s
  scan_fields profile_id boolean_fields params (f ∷ fields) s =
      scan_fields profile_id boolean_fields params fields
        (scan_field profile_id boolean_fields params f s)

  -- The value of an automatic field: a finite number, or a text that is no number.
  abbrev pub automatic_value : String → Option (FieldType × Value Float)
  automatic_value raw = elim (fl.of_text raw) [
    | none ↦ some (text, words raw)
    | some x ↦ if fl.is_finite x then some (number, numeric x) else none
  ]

  abbrev pub automatic_descriptor : String → String → String → FieldType → Field Float
  automatic_descriptor key identifier name field_type = record {
    key = key;
    id = identifier;
    name = name;
    label = or_text name identifier;
    unit = "";
    group = or_text name identifier;
    role = "";
    field_type = field_type;
    writable = false;
    automatic = true;
    alarm = record { enabled = false; minimum = none; maximum = none };
    minimum = none;
    maximum = none;
  }

  -- `_automatic_field`; the keys that are used are those of the values.
  unfoldable pub automatic_field :
      String → String → String → List String → Option (Field Float × Value Float)
  automatic_field identifier name raw used_keys =
      let key = "auto:" <> or_text identifier name in
      if is_empty raw || (is_empty identifier && is_empty name) || contains used_keys key
      then none
      else elim (automatic_value raw) [
        | none ↦ none
        | some (field_type, value) ↦
            some (automatic_descriptor key identifier name field_type, value)
      ]

  abbrev pub keep_automatic : String → String → Option (Field Float × Value Float) → Scan → Scan
  keep_automatic profile_id shown none s = record s {
    issues = s.issues ++ ("Invalid automatic field: " <> profile_id <> "." <> shown) ∷ [];
  }
  keep_automatic profile_id shown (some (f, value)) s = record {
    values = Dict.insert f.key value s.values;
    fields = s.fields ++ f ∷ [];
    issues = s.issues;
  }

  -- `mapped_ids` and `mapped_names`: the texts that are not empty.
  abbrev pub mapped_ids : List (Field Float) → List String
  mapped_ids fields = select (λ s. not (is_empty s)) (map (λ (f : Field Float). f.id) fields)

  abbrev pub mapped_names : List (Field Float) → List String
  mapped_names fields = select (λ s. not (is_empty s)) (map (λ (f : Field Float). f.name) fields)

  unfoldable pub scan_param : String → List (Field Float) → Param → Scan → Scan
  scan_param profile_id mapped p s =
      let identifier = stripped p.id in
      let name = stripped p.name in
      if contains (mapped_ids mapped) identifier || contains (mapped_names mapped) name
      then s
      else keep_automatic profile_id (or_text name identifier)
          (automatic_field identifier name (stripped p.value) (Dict.keys s.values)) s

  unfoldable pub scan_params : String → List (Field Float) → List Param → Scan → Scan
  scan_params profile_id mapped [] s = s
  scan_params profile_id mapped (p ∷ params) s =
      scan_params profile_id mapped params (scan_param profile_id mapped p s)

  abbrev pub nothing_read : Scan
  nothing_read = record { values = []; fields = []; issues = [] }

  abbrev pub Mapped : Type 0
  Mapped = Option (MappedDevice Float × MappedSection Float)

  -- `mapped_sections.get(node.tag)`: the last section of the mapping with that tag.
  unfoldable pub find_xml_section :
      String → List (MappedSection Float) → Option (MappedSection Float)
  find_xml_section tag [] = none
  find_xml_section tag (s ∷ sections) = elim (find_xml_section tag sections) [
    | some later ↦ some later
    | none ↦ if s.xml_section == tag then some s else none
  ]

  unfoldable pub mapped_section : String → Mapping Float → Mapped
  mapped_section tag [] = none
  mapped_section tag ((_, d) ∷ mapping) = elim (mapped_section tag mapping) [
    | some later ↦ some later
    | none ↦ elim (find_xml_section tag d.sections) [ none ↦ none | some s ↦ some (d, s) ]
  ]

  -- The section that a tag without a mapping gets.
  abbrev pub discovered_section : String → String → MappedSection Float
  discovered_section tag profile_id = record {
    key = profile_id;
    xml_section = tag;
    label = title_from false (underscores_to_spaces profile_id);
    presentation = source_presentation {F = Float} none;
    discover_unmapped = true;
    fields = [];
  }

  unfoldable pub scan_section : String → MappedSection Float → List String → List Param → Scan
  scan_section profile_id section boolean_fields params =
      let s = scan_fields profile_id boolean_fields params section.fields nothing_read in
      if section.discover_unmapped then scan_params profile_id section.fields params s else s

  unfoldable pub snapshot_of :
      Dict String (Option String)
      → Option (MappedDevice Float)
      → MappedSection Float
      → List Param
      → Snapshot Float
  snapshot_of module_info definition section params =
      let boolean_fields : List String = elim definition [
        | none ↦ []
        | some d ↦ d.boolean_fields
      ] in
      let s = scan_section section.key section boolean_fields params in
      let profile = profile_definition section.key definition section.presentation in
      record {
        values = (section.key, s.values) ∷ [];
        sections = record { key = section.key; label = section.label; fields = s.fields } ∷ [];
        module_info = module_info;
        label = profile.label;
        issues = s.issues;
        profile = profile;
      }

  abbrev pub Results : Type 0
  Results = Dict String (Snapshot Float)

  -- The device and the section of one node: those of the mapping, or a section of its own.
  abbrev pub section_of :
      String → String → Mapped → Option (MappedDevice Float) × MappedSection Float
  section_of tag suffix none = (none, discovered_section tag suffix)
  section_of tag suffix (some (d, s)) = (some d, s)

  unfoldable pub add_node :
      Dict String (Option String)
      → String
      → List Param
      → Option (MappedDevice Float) × MappedSection Float
      → Results
      → Result String Results
  add_node module_info tag params (definition, section) results =
      if is_empty section.key || Dict.has section.key results
      then err ("Duplicate or invalid XML profile: " <> or_text section.key tag)
      else ok (Dict.insert section.key (snapshot_of module_info definition section params) results)

  -- What stands after `params_` in the tag of a node that is a profile.
  abbrev pub profile_suffix : Option String → Option (String × String)
  profile_suffix none = none
  profile_suffix (some tag) = elim (after_prefix "params_" tag) [
    | none ↦ none
    | some suffix ↦ some (tag, suffix)
  ]

  unfoldable pub parse_node :
      Dict String (Option String)
      → Mapping Float
      → Option (String × String)
      → List Param
      → Results
      → Result String Results
  parse_node module_info mapping none params results = ok results
  parse_node module_info mapping (some (tag, suffix)) params results =
      add_node module_info tag params (section_of tag suffix (mapped_section tag mapping)) results

  unfoldable pub parse_nodes :
      Dict String (Option String) → Mapping Float → List Node → Results → Result String Results
  parse_nodes module_info mapping [] results = ok results
  parse_nodes module_info mapping (n ∷ nodes) results =
      parse_node module_info mapping (profile_suffix n.tag) n.params results
      >>= parse_nodes module_info mapping nodes

  abbrev pub max_xml_bytes : ℕ
  max_xml_bytes = 1000000

  abbrev pub parse_root : Mapping Float → Option Root → Result String Results
  parse_root mapping none = err "not well-formed"
  parse_root mapping (some root) =
      if root.tag == "status"
      then parse_nodes root.module_info mapping root.nodes []
      else err "Expected <status> root"

  -- `parse_status`, of a document with its number of bytes, whether its text has a DTD or an entity
  -- declaration, and what the XML parser makes of it.
  unfoldable pub parse_status : ℕ → Bool → Option Root → Mapping Float → Result String Results
  parse_status bytes has_declaration root mapping =
      reject_if (not (leb bytes max_xml_bytes)) "XML exceeds 1 MB"
      >> (reject_if has_declaration "DTD and entity declarations are not supported"
          >> parse_root mapping root)
