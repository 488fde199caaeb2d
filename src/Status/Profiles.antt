-- ===== src/Status/Profiles.antt =====
-- The presentation of a profile: app/devices/registry.py, and `find_mapping_profile` and
-- `_profile_definition` of app/services/xml_status.py.
use Prim.Native.String.{char_at}
use amplifier_panel.Base.{
  ℕ, ◌-◌, Char, code, Bool, false, ◌&&◌, ◌||◌, String, Option, none, some, List, [], ◌∷◌, ◌==◌,
  string_eq, leb, eqb, length, if◌then◌else◌,
}
use amplifier_panel.Base.Int.{pos}
use amplifier_panel.Base.Text.{strip, is_empty, or_text}
use amplifier_panel.Device.{Profile}
use amplifier_panel.Status.{Presentation, MappedSection, MappedDevice, Mapping}

abbrev pub is_upper : ℕ → Bool
is_upper c = leb b'A' c && leb c b'Z'

abbrev pub is_lower : ℕ → Bool
is_lower c = leb b'a' c && leb c b'z'

abbrev pub to_upper : Char → Char
to_upper c = if is_lower (code c) then char_at "ABCDEFGHIJKLMNOPQRSTUVWXYZ" (code c - 97) else c

abbrev pub to_lower : Char → Char
to_lower c = if is_upper (code c) then char_at "abcdefghijklmnopqrstuvwxyz" (code c - 65) else c

-- `s.title()`, of the ASCII letters; the flag says that a letter stands before.
unfoldable pub title_from : Bool → String → String
title_from after_letter String.[] = String.[]
title_from after_letter (String.◌∷◌ c s) =
    let is_letter = is_upper (code c) || is_lower (code c) in
    String.◌∷◌ (if after_letter then to_lower c else to_upper c) (title_from is_letter s)

-- `s.replace("_", " ")`
unfoldable pub underscores_to_spaces : String → String
underscores_to_spaces String.[] = String.[]
underscores_to_spaces (String.◌∷◌ c s) =
    let rest = underscores_to_spaces s in
    if eqb (code c) 95 then String.◌∷◌ (char_at " " 0) rest else String.◌∷◌ c rest

-- `label or device_id.replace("_", " ").strip().title() or device_id`
unfoldable pub generated_label : String → String
generated_label device_id =
    or_text (title_from false (strip (underscores_to_spaces device_id))) device_id

abbrev pub given {ℓ} : {A : Type ℓ} → Option A → A → A
given none default = default
given (some a) default = a

-- `definition_dict`, where each override replaces the default unless it is `None`.
unfoldable pub definition_dict : String → Option String → Presentation → Profile
definition_dict device_id label p = record {
  id = device_id;
  label = given label (generated_label device_id);
  view_profile = given p.view_profile "station";
  display_group = given p.display_group "Other devices";
  order = given p.order (pos 1000);
  snmp_index = p.snmp_index;
}

-- `a or b` of texts that may be `None`.
abbrev pub or_option : Option String → Option String → Option String
or_option none b = b
or_option (some a) b = if is_empty a then b else some a

abbrev pub first_given {ℓ} : {A : Type ℓ} → Option A → Option A → Option A
first_given none b = b
first_given (some a) b = some a

module _ {F : Type 0} where
  -- The sections of one device, searched for a key.
  unfoldable pub find_section : String → List (MappedSection F) → Option (MappedSection F)
  find_section profile_id [] = none
  find_section profile_id (s ∷ sections) =
      let rest = find_section profile_id sections in if s.key == profile_id then some s else rest

  -- `find_mapping_profile`
  unfoldable pub find_mapping_profile :
      String → Mapping F → Option (String × MappedDevice F × MappedSection F)
  find_mapping_profile profile_id [] = none
  find_mapping_profile profile_id ((owner_id, d) ∷ mapping) =
      let rest = find_mapping_profile profile_id mapping in
      elim (find_section profile_id d.sections) [ none ↦ rest | some s ↦ some (owner_id, d, s) ]

  abbrev pub source_presentation : Option (MappedDevice F) → Presentation
  source_presentation none = record {
    profile_label = none;
    view_profile = none;
    display_group = none;
    order = none;
    snmp_index = none;
  }
  source_presentation (some d) = d.presentation

  abbrev pub single_profile_label : Option (MappedDevice F) → Option String
  single_profile_label none = none
  single_profile_label (some d) = if eqb (length d.sections) 1 then some d.label else none

  -- `_profile_definition`
  unfoldable pub profile_definition : String → Option (MappedDevice F) → Presentation → Profile
  profile_definition profile_id definition own =
      let source = source_presentation definition in
      definition_dict profile_id
        (or_option own.profile_label
          (or_option source.profile_label (single_profile_label definition)))
        (record {
          profile_label = none;
          view_profile = or_option own.view_profile source.view_profile;
          display_group = or_option own.display_group source.display_group;
          order = first_given own.order source.order;
          snmp_index = first_given own.snmp_index source.snmp_index;
        })
