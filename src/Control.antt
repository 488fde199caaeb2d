-- ===== src/Control.antt =====
-- app/services/xml_control.py: the control document that the device reads, how it is built of the
-- values of a request and written, and the status that is made of it and of the acknowledgement.
-- ElementTree is outside: a document is the tree that is written, and a parser gives that tree back.
pub mod Write
pub mod Status
pub mod Handler
pub mod Permitted
pub mod Valid
pub mod Atomic
pub mod Acknowledged
use amplifier_panel.Base.{
  ℕ, Bool, true, false, not, ◌&&◌, ◌||◌, Char, code, String, Option, none, some, List, [], ◌∷◌,
  ◌++◌, length, leb, ltb, select, any, contains, sort_by, ◌==◌, string_eq, if◌then◌else◌,
}
use amplifier_panel.Base.Dict
use amplifier_panel.Base.Dict.{Dict}
use amplifier_panel.Base.Result.{Result, ok, err, ◌>>=◌, ◌>>◌, reject_if, or_raise}
use amplifier_panel.Base.Text.{◌<>◌, codes, is_empty, join, text_le}
use amplifier_panel.Device.{Floats, FieldType, Field}
use amplifier_panel.Statistics.{Json, null, number, boolean, text, array, object}
use amplifier_panel.Status.Profiles.{find_mapping_profile}
use amplifier_panel.Status.{MappedSection, MappedDevice, Mapping}

-- An exception: a `ValueError` with its text, an `OSError` or a `KeyError`.
pub data Fault : Type 0 where
  value_error : String → Fault
  os_error : Fault
  key_error : Fault

abbrev pub max_control_bytes : ℕ
max_control_bytes = 256000

-- One `<parameter>` with the text of its `<value>`; an absent attribute is `none`.
pub record Parameter : Type 0 where
  pub section : String
  pub key : String
  pub value_type : String
  pub id : Option String
  pub name : Option String
  pub value : String

-- The `<request>` of a document, with the attribute of its `<device>`.
pub record Document : Type 0 where
  pub identifier : Option String
  pub created_at : Option String
  pub device_id : Option (Option String)
  pub parameters : List Parameter

module _ (fl : Floats) where
  open fl use {Float}

  -- The process around the module: `format(number, ".15g")`, the test of `uuid.UUID`, and the number of
  -- bytes of a serialized document.
  pub record Tools : Type 0 where
    pub format_number : Float → String
    pub is_uuid : String → Bool
    pub document_bytes : Document → ℕ

  abbrev pub Writable : Type 0
  Writable = Dict String (MappedSection Float × Field Float)

  -- `f"{section['key']}:{field['key']}"`
  abbrev pub field_key : MappedSection Float → Field Float → String
  field_key section f = section.key <> ":" <> f.key

  unfoldable pub add_writable : MappedSection Float → List (Field Float) → Writable → Writable
  add_writable section [] result = result
  add_writable section (f ∷ fields) result =
      add_writable section fields
        (if f.writable then Dict.insert (field_key section f) (section, f) result else result)

  -- `_writable_fields`
  unfoldable pub writable_fields : Result Fault (Mapping Float) → String → Result Fault Writable
  writable_fields mapping device_id = mapping >>= λ m.
      or_raise (find_mapping_profile device_id m) (value_error ("Unknown device: " <> device_id))
      >>= λ (located : String × MappedDevice Float × MappedSection Float).
          ok (add_writable located.2 located.2.fields [])

  -- `float(value)`; `none` is the exception.
  abbrev pub to_float : Json Float → Option Float
  to_float (number x) = some x
  to_float (text s) = fl.of_text s
  to_float (boolean b) = some (fl.of_bool b)
  to_float null = none
  to_float (array _) = none
  to_float (object _) = none

  abbrev pub is_boolean : Json Float → Bool
  is_boolean (boolean _) = true
  is_boolean null = false
  is_boolean (number _) = false
  is_boolean (text _) = false
  is_boolean (array _) = false
  is_boolean (object _) = false

  -- `minimum is not None and number < minimum`, and the other limit.
  abbrev pub is_below : Option Float → Float → Bool
  is_below none x = false
  is_below (some minimum) x = fl.lt x minimum

  abbrev pub is_above : Option Float → Float → Bool
  is_above none x = false
  is_above (some maximum) x = fl.lt maximum x

  abbrev pub shown_limit : Option Float → String
  shown_limit none = "None"
  shown_limit (some x) = fl.show x

  unfoldable pub validated_number : Field Float → Json Float → Result Fault Float
  validated_number f value =
      reject_if (is_boolean value) (value_error "Boolean is not a numeric control value")
      >> (or_raise (to_float value) (value_error "Control value must be numeric") >>= λ x.
          reject_if (not (fl.is_finite x)) (value_error "Control value must be finite")
          >> (reject_if (is_below f.minimum x)
                (value_error ("Control value must be at least " <> shown_limit f.minimum))
              >> (reject_if (is_above f.maximum x)
                    (value_error ("Control value must be at most " <> shown_limit f.maximum))
                  >> ok x)))

  abbrev pub has_control_character : String → Bool
  has_control_character s = any (λ c. ltb c 32) (codes s)

  abbrev pub validated_text : Json Float → Result Fault String
  validated_text (text s) =
      reject_if (ltb 1024 (length (codes s)) || has_control_character s)
        (value_error "Control text is invalid or too long")
      >> ok s
  validated_text null = err (value_error "Control value must be text")
  validated_text (number _) = err (value_error "Control value must be text")
  validated_text (boolean _) = err (value_error "Control value must be text")
  validated_text (array _) = err (value_error "Control value must be text")
  validated_text (object _) = err (value_error "Control value must be text")

  -- `_validated_value` by the type of the field: the type and the serialized value.
  unfoldable pub validated_as :
      Tools → FieldType → Field Float → Json Float → Result Fault (String × String)
  validated_as tools FieldType.number f value =
      validated_number f value >>= λ x. ok ("number", tools.format_number x)
  validated_as tools FieldType.text f value = validated_text value >>= λ s. ok ("text", s)
  validated_as tools FieldType.boolean f value = validated_text value >>= λ s. ok ("text", s)

  abbrev pub validated_value : Tools → Field Float → Json Float → Result Fault (String × String)
  validated_value tools f value = validated_as tools f.field_type f value

  abbrev pub attribute : String → Option String
  attribute s = if is_empty s then none else some s

  abbrev pub parameter_of : MappedSection Float → Field Float → String × String → Parameter
  parameter_of section f (value_type, serialized) = record {
    section = section.key;
    key = f.key;
    value_type = value_type;
    id = attribute f.id;
    name = attribute f.name;
    value = serialized;
  }

  -- One turn of the loop over the values; `none` is the `KeyError` of `writable[field_key]`.
  unfoldable pub build_parameter :
      Tools → Option (MappedSection Float × Field Float) → Json Float → Result Fault Parameter
  build_parameter tools none value = err key_error
  build_parameter tools (some (section, f)) value =
      validated_value tools f value >>= λ v. ok (parameter_of section f v)

  unfoldable pub build_parameters :
      Tools → Writable → Dict String (Json Float) → Result Fault (List Parameter)
  build_parameters tools writable [] = ok []
  build_parameters tools writable ((key, value) ∷ values) =
      build_parameter tools (Dict.lookup key writable) value >>= λ p.
      build_parameters tools writable values >>= λ l. ok (p ∷ l)

  abbrev pub unknown_keys : Writable → Dict String (Json Float) → List String
  unknown_keys writable values =
      sort_by text_le (select (λ k. not (Dict.has k writable)) (Dict.keys values))

  abbrev pub is_nil : {A : Type 0} → List A → Bool
  is_nil [] = true
  is_nil (_ ∷ _) = false

  -- The last part of `build_control_xml`.
  abbrev pub within_size : Tools → Document → Result Fault Document
  within_size tools d =
      reject_if (ltb max_control_bytes (tools.document_bytes d))
        (value_error "Control XML exceeds 256 KB")
      >> ok d

  -- `build_control_xml` with an identifier that is given or was made by `uuid.uuid4`.
  unfoldable pub build_control_xml :
      Tools
      → Result Fault (Mapping Float)
      → String
      → Dict String (Json Float)
      → String
      → String
      → Result Fault Document
  build_control_xml tools mapping device_id values identifier created_at =
      reject_if (is_nil values) (value_error "At least one control value is required")
      >> (writable_fields mapping device_id >>= λ writable.
          reject_if (not (is_nil (unknown_keys writable values))) (
            value_error
              ("Fields are unknown or read-only: " <> join ", " (unknown_keys writable values)))
          >> (reject_if (not (tools.is_uuid identifier)) (value_error "Invalid request identifier")
              >> (build_parameters tools writable values >>= λ parameters.
                  within_size tools (record {
                    identifier = some identifier;
                    created_at = some created_at;
                    device_id = some (some device_id);
                    parameters = parameters;
                  }))))
