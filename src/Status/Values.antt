-- ===== src/Status/Values.antt =====
-- The values that `parse_status` of app/services/xml_status.py reads.
use amplifier_panel.Base.{
  ◌≡◌, subst, true, ◌&&◌, ◌||◌, String, Option, none, some, List, [], ◌∷◌, ◌==◌, string_eq, select,
  contains, All, if_elim, option_elim,
}
use amplifier_panel.Base.Dict
use amplifier_panel.Base.Dict.{Dict, NodupKeys}
use amplifier_panel.Base.Text.{◌<>◌, strip, is_empty, or_text}
use amplifier_panel.Device.{
  Floats, FieldType, number, text, boolean, Value, missing, numeric, truth, words, Field,
}
use amplifier_panel.Status.{Param, MappedSection}
use amplifier_panel.Status.Parse.{
  parse_field_value, parsed_text, parsed_number, finite_number, Scan, matching, effective_type,
  read_field, scan_field, scan_fields, automatic_value, automatic_field, keep_automatic, scan_param,
  scan_params, scan_section, nothing_read, stripped, mapped_ids, mapped_names,
}

module _ (fl : Floats) where
  open fl use {Float}

  -- A number is finite.
  abbrev pub Finite : Value Float → Type 0
  Finite missing = Unit
  Finite (numeric x) = fl.is_finite x ≡ true
  Finite (truth b) = Unit
  Finite (words s) = Unit

  abbrev pub AllFinite : Dict String (Value Float) → Type 0
  AllFinite d = All (λ (e : String × Value Float). Finite e.1) d

  AllFinite-insert :
      (k : String) (v : Value Float) (d : Dict String (Value Float))
      → Finite v
      → AllFinite d
      → AllFinite (Dict.insert k v d)
  unfolding Dict.insert
  AllFinite-insert k v [] f a = (f, tt)
  AllFinite-insert k v ((j, w) ∷ d) f a =
      if_elim AllFinite (k == j) (λ _. (f, a.1)) (λ _. (a.0, AllFinite-insert k v d f a.1))

  abbrev FiniteOption : Option (Value Float) → Type 0
  FiniteOption none = Unit
  FiniteOption (some v) = Finite v

  finite_number-Finite :
      (t : FieldType) (x : Float) → fl.is_finite x ≡ true → FiniteOption (finite_number fl t x)
  finite_number-Finite number x h = h
  finite_number-Finite text x h = h
  finite_number-Finite boolean x h = option_elim FiniteOption (fl.as_bool x) (λ _. tt) (λ b _. tt)

  parsed_number-Finite : (t : FieldType) (o : Option Float) → FiniteOption (parsed_number fl t o)
  parsed_number-Finite t none = tt
  parsed_number-Finite t (some x) =
      if_elim FiniteOption (fl.is_finite x) (finite_number-Finite t x) (λ _. tt)

  parsed_text-Finite : (t : FieldType) (raw : String) → FiniteOption (parsed_text fl t raw)
  parsed_text-Finite text raw = tt
  parsed_text-Finite number raw = parsed_number-Finite number (fl.of_text raw)
  parsed_text-Finite boolean raw = parsed_number-Finite boolean (fl.of_text raw)

  parse_field_value-Finite :
      (o : Option String) (t : FieldType) → FiniteOption (parse_field_value fl o t)
  unfolding parse_field_value
  parse_field_value-Finite none t = tt
  parse_field_value-Finite (some raw) t =
      if_elim FiniteOption (is_empty (strip raw)) (λ _. tt) (λ _. parsed_text-Finite t raw)

  read_field-Finite :
      (id : String) (f : Field Float) (t : FieldType) (params : List Param)
      → Finite (read_field fl id f t params).0
  unfolding read_field
  read_field-Finite id f t [] = tt
  read_field-Finite id f t (p ∷ []) =
      option_elim (λ (r : Value Float × Option String). Finite r.0) (parse_field_value fl p.value t)
        (λ _. tt) (λ v e. subst FiniteOption e (parse_field_value-Finite p.value t))
  read_field-Finite id f t (p ∷ q ∷ l) = tt

  scan_fields-Finite :
      (id : String) (bs : List String) (params : List Param) (fields : List (Field Float))
      (s : Scan fl)
      → AllFinite s.values
      → AllFinite (scan_fields fl id bs params fields s).values
  unfolding scan_fields scan_field
  scan_fields-Finite id bs params [] s a = a
  scan_fields-Finite id bs params (f ∷ fields) s a =
      scan_fields-Finite id bs params fields (scan_field fl id bs params f s) (
        AllFinite-insert f.key _ s.values
          (read_field-Finite id f (effective_type fl bs f) (select (matching fl f) params)) a)

  abbrev FiniteAutomatic : Option (Field Float × Value Float) → Type 0
  FiniteAutomatic none = Unit
  FiniteAutomatic (some (f, v)) = Finite v

  abbrev FiniteTyped : Option (FieldType × Value Float) → Type 0
  FiniteTyped none = Unit
  FiniteTyped (some (t, v)) = Finite v

  automatic_value-Finite : (raw : String) → FiniteTyped (automatic_value fl raw)
  automatic_value-Finite raw =
      option_elim FiniteTyped (fl.of_text raw) (λ _. tt)
        (λ x _. if_elim FiniteTyped (fl.is_finite x) (λ e. e) (λ _. tt))

  automatic_field-Finite :
      (identifier name raw : String) (used : List String)
      → FiniteAutomatic (automatic_field fl identifier name raw used)
  unfolding automatic_field
  automatic_field-Finite identifier name raw used =
      if_elim FiniteAutomatic
        (is_empty raw
          || (is_empty identifier && is_empty name)
          || contains used ("auto:" <> or_text identifier name))
        (λ _. tt)
        (λ _.
          option_elim FiniteAutomatic (automatic_value fl raw) (λ _. tt)
            (λ v e. subst FiniteTyped e (automatic_value-Finite raw)))

  keep_automatic-Finite :
      (id shown : String) (o : Option (Field Float × Value Float)) (s : Scan fl)
      → FiniteAutomatic o
      → AllFinite s.values
      → AllFinite (keep_automatic fl id shown o s).values
  keep_automatic-Finite id shown none s f a = a
  keep_automatic-Finite id shown (some (d, v)) s f a = AllFinite-insert d.key v s.values f a

  scan_params-Finite :
      (id : String) (mapped : List (Field Float)) (params : List Param) (s : Scan fl)
      → AllFinite s.values
      → AllFinite (scan_params fl id mapped params s).values
  unfolding scan_params scan_param
  scan_params-Finite id mapped [] s a = a
  scan_params-Finite id mapped (p ∷ params) s a = scan_params-Finite id mapped params _ (
      if_elim (λ (x : Scan fl). AllFinite x.values)
        (contains (mapped_ids fl mapped) (stripped p.id)
          || contains (mapped_names fl mapped) (stripped p.name))
        (λ _. a)
        (λ _.
          keep_automatic-Finite id _ _ s
            (automatic_field-Finite (stripped p.id) (stripped p.name) (stripped p.value)
              (Dict.keys s.values))
            a))

  -- Every number that is read from one section of a status document is finite, of a mapped field as of
  -- an automatic one.
  pub scan_section-Finite :
      (id : String) (section : MappedSection Float) (bs : List String) (params : List Param)
      → AllFinite (scan_section fl id section bs params).values
  unfolding scan_section
  scan_section-Finite id section bs params =
      let mapped = scan_fields-Finite id bs params section.fields (nothing_read fl) tt in
      if_elim (λ (x : Scan fl). AllFinite x.values) section.discover_unmapped
        (λ _. scan_params-Finite id section.fields params _ mapped) (λ _. mapped)
