-- ===== src/Status.antt =====
-- app/services/xml_status.py: the status document and its mapping, as the parser and the validation
-- give them, and the data that `parse_status` reads of them.
pub mod Profiles
pub mod Parse
pub mod Values
pub mod Results
use amplifier_panel.Base.{ℕ, Bool, String, Option, List}
use amplifier_panel.Base.Dict.{Dict}
use amplifier_panel.Base.Int.{ℤ}
use amplifier_panel.Device.{Field}

-- One `<param>`: its attribute `id` and the texts of `<name>` and `<value>`.
pub record Param : Type 0 where
  pub id : Option String
  pub name : Option String
  pub value : Option String

-- A child of `<status>`; a comment has no tag that is a text.
pub record Node : Type 0 where
  pub tag : Option String
  pub params : List Param

-- The root, with the children of `<module>` that have no children themselves.
pub record Root : Type 0 where
  pub tag : String
  pub module_info : Dict String (Option String)
  pub nodes : List Node

-- The presentation metadata that a device or a section of the mapping may give.
pub record Presentation : Type 0 where
  pub profile_label : Option String
  pub view_profile : Option String
  pub display_group : Option String
  pub order : Option ℤ
  pub snmp_index : Option ℕ

-- A mapped field is a `Field` whose absent texts are empty; `label` is its key where it has none.
pub record MappedSection (F : Type 0) : Type 0 where
  pub key : String
  pub xml_section : String
  pub label : String
  pub presentation : Presentation
  pub discover_unmapped : Bool
  pub fields : List (Field F)

pub record MappedDevice (F : Type 0) : Type 0 where
  pub label : String
  pub presentation : Presentation
  pub boolean_fields : List String
  pub sections : List (MappedSection F)

abbrev pub Mapping : Type 0 → Type 0
Mapping F = Dict String (MappedDevice F)
