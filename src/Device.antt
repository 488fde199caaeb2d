-- ===== src/Device.antt =====
-- The data that the parts of the panel hand to one another: the snapshot of one device, as
-- `parse_status` of app/services/xml_status.py makes it, and Python's floats as a parameter.
use amplifier_panel.Base.{ℕ, Bool, String, Option, List}
use amplifier_panel.Base.Dict.{Dict}
use amplifier_panel.Base.Int.{ℤ}

-- Python's `float`: the order, `float(True)`, `float(text)`, `math.isfinite`, `str` and the test
-- `x in (0, 1)` with its truth value, `0.0`, `+`, `*`, `-`,
-- `/` by an `int`, and `math.sqrt`. `of_text` is `none` where `float` raises a `ValueError`.
pub record Floats : Type 1 where
  pub Float : Type 0
  pub lt : Float → Float → Bool
  pub of_bool : Bool → Float
  pub of_text : String → Option Float
  pub is_finite : Float → Bool
  pub show : Float → String
  pub as_bool : Float → Option Bool
  pub zero_float : Float
  pub add : Float → Float → Float
  pub mul : Float → Float → Float
  pub sub : Float → Float → Float
  pub div_count : Float → ℕ → Float
  pub sqrt : Float → Float

pub data FieldType : Type 0 where
  number text boolean : FieldType

-- A value of a field: `None`, a number, a truth value or a text.
pub data Value (F : Type 0) : Type 0 where
  missing : Value F
  numeric : F → Value F
  truth : Bool → Value F
  words : String → Value F

pub record AlarmLimits (F : Type 0) : Type 0 where
  pub enabled : Bool
  pub minimum : Option F
  pub maximum : Option F

pub record Field (F : Type 0) : Type 0 where
  pub key : String
  pub id : String
  pub name : String
  pub label : String
  pub unit : String
  pub group : String
  pub role : String
  pub field_type : FieldType
  pub writable : Bool
  pub automatic : Bool
  pub alarm : AlarmLimits F
  pub minimum : Option F
  pub maximum : Option F

pub record Section (F : Type 0) : Type 0 where
  pub key : String
  pub label : String
  pub fields : List (Field F)

-- The presentation metadata of one profile (`DeviceDefinition` of app/devices/registry.py).
pub record Profile : Type 0 where
  pub id : String
  pub label : String
  pub view_profile : String
  pub display_group : String
  pub order : ℤ
  pub snmp_index : Option ℕ

pub record Snapshot (F : Type 0) : Type 0 where
  pub values : Dict String (Dict String (Value F))
  pub sections : List (Section F)
  pub module_info : Dict String (Option String)
  pub label : String
  pub issues : List String
  pub profile : Profile
