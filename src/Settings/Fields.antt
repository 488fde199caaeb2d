-- ===== src/Settings/Fields.antt =====
-- `merge_snmp_settings`, `merge_service_settings` and `merge_device_live_fields` of app/core/state.py.
pub mod Selected
use amplifier_panel.Base.{
  ℕ, suc, Bool, true, false, not, ◌&&◌, ◌||◌, String, Option, none, some, List, [], ◌∷◌, contains,
  take, eqb, option_eq, ◌==◌, string_eq, if◌then◌else◌,
}
use amplifier_panel.Base.Dict
use amplifier_panel.Base.Dict.{Dict}
use amplifier_panel.Base.Int.{ℤ, pos, negsuc, parse_int}
use amplifier_panel.Base.Text.{is_empty}
use amplifier_panel.Device.{Floats}
use amplifier_panel.Statistics.{
  Json, Items, Members, null, number, boolean, text, array, object, no_items, item, no_members,
  member, member_of,
}

-- What `int(x)` of a float is: a number, a `ValueError` (NaN) or an `OverflowError` (infinity).
pub data Truncated : Type 0 where
  whole : ℤ → Truncated
  value_error : Truncated
  overflow_error : Truncated

abbrev pub kept_int : ℤ → Option ℤ → ℤ
kept_int default none = default
kept_int default (some n) = n

-- `max(0, n)`
abbrev pub at_least_zero : ℤ → ℕ
at_least_zero (pos n) = n
at_least_zero (negsuc n) = 0

pub record ServiceSettings : Type 0 where
  pub syslog_heartbeat_seconds : ℕ
  pub database_max_records : ℕ

-- The keys of `DEFAULT_SNMP_SETTINGS`.
abbrev pub snmp_keys : List String
snmp_keys = "enabled" ∷ "port" ∷ "community" ∷ "trap_host" ∷ "trap_port" ∷ []

abbrev pub device_live_fields_version : ℕ
device_live_fields_version = 2

-- `version == DEVICE_LIVE_FIELDS_VERSION`; `none` is a version that is no whole number.
abbrev pub is_current_version : Option ℕ → Bool
is_current_version none = false
is_current_version (some version) = eqb version device_live_fields_version

abbrev pub default_device_live_fields : Dict String (List String)
default_device_live_fields =
    ("oba", "oba:gain" ∷ "oba:temperature" ∷ []) ∷ ("oba3", "oba3:Gain" ∷ "oba3:Temp" ∷ []) ∷ []

module _ (fl : Floats) (truncate : fl.Float → Truncated) where
  open fl use {Float}

  -- `settings[key] = int(saved_settings[key])`, where a `TypeError` or a `ValueError` keeps the default;
  -- the outer `none` is the `OverflowError`.
  abbrev pub saved_int : Option (Json Float) → Option (Option ℤ)
  saved_int none = some none
  saved_int (some null) = some none
  saved_int (some (number x)) = elim (truncate x) [
    | whole n ↦ some (some n)
    | value_error ↦ some none
    | overflow_error ↦ none
  ]
  saved_int (some (boolean true)) = some (some (pos 1))
  saved_int (some (boolean false)) = some (some (pos 0))
  saved_int (some (text s)) = some (parse_int s)
  saved_int (some (array _)) = some none
  saved_int (some (object _)) = some none

  -- `saved_settings if isinstance(saved_settings, dict)`
  abbrev pub members_or_none : Option (Json Float) → Members Float
  members_or_none (some (object ms)) = ms
  members_or_none (some _) = no_members
  members_or_none none = no_members

  unfoldable pub merge_service_settings :
      ServiceSettings → Option (Json Float) → Option ServiceSettings
  merge_service_settings default saved =
      let ms = members_or_none saved in
      elim (saved_int (member_of "syslog_heartbeat_seconds" ms)) [
        | none ↦ none
        | some seconds ↦ elim (saved_int (member_of "database_max_records" ms)) [
          | none ↦ none
          | some records ↦ some (record {
            syslog_heartbeat_seconds =
                at_least_zero (kept_int (pos default.syslog_heartbeat_seconds) seconds);
            database_max_records =
                at_least_zero (kept_int (pos default.database_max_records) records);
          })
        ]
      ]

  -- `settings.update({key: saved_settings[key] for key in settings if key in saved_settings})`
  unfoldable pub take_saved :
      List String → Members Float → Dict String (Json Float) → Dict String (Json Float)
  take_saved [] ms settings = settings
  take_saved (key ∷ keys) ms settings =
      take_saved keys ms
        (elim (member_of key ms) [ none ↦ settings | some j ↦ Dict.insert key j settings ])

  -- `settings.get("community") in {"", "public"}`; a list or an object has no hash (a `TypeError`), and
  -- then nothing is merged.
  abbrev pub is_open_community : Option (Json Float) → Option Bool
  is_open_community (some (text s)) = some (s == "" || s == "public")
  is_open_community (some (array _)) = none
  is_open_community (some (object _)) = none
  is_open_community (some null) = some false
  is_open_community (some (number _)) = some false
  is_open_community (some (boolean _)) = some false
  is_open_community none = some false

  -- `none` is the `TypeError`.
  unfoldable pub merge_snmp_settings :
      Float
      → String
      → Dict String (Json Float)
      → Option (Json Float)
      → Option (Dict String (Json Float))
  merge_snmp_settings port community default saved =
      let taken = take_saved snmp_keys (members_or_none saved) default in
      let settings = Dict.insert "port" (number port) taken in
      elim (is_open_community (Dict.lookup "community" settings)) [
        | none ↦ none
        | some true ↦ some (Dict.insert "community" (text community) settings)
        | some false ↦ some settings
      ]

  -- `list(dict.fromkeys(field for field in fields if isinstance(field, str) and field))`, with the fields so
  -- far.
  unfoldable pub unique_fields : Items Float → List String → List String
  unique_fields no_items seen = []
  unique_fields (item (text s) l) seen =
      let skipped = is_empty s || contains seen s in
      let rest = unique_fields l (if skipped then seen else s ∷ seen) in
      if skipped then rest else s ∷ rest
  unique_fields (item null l) seen = unique_fields l seen
  unique_fields (item (number _) l) seen = unique_fields l seen
  unique_fields (item (boolean _) l) seen = unique_fields l seen
  unique_fields (item (array _) l) seen = unique_fields l seen
  unique_fields (item (object _) l) seen = unique_fields l seen

  -- The first of the default fields stands in front for a file of an older version.
  abbrev pub with_gain : Bool → Option (List String) → List String → List String
  with_gain true default fields = fields
  with_gain false none fields = fields
  with_gain false (some []) fields = fields
  with_gain false (some (gain ∷ _)) fields = if contains fields gain then fields else gain ∷ fields

  abbrev pub selected_fields : Bool → String → Items Float → List String
  selected_fields is_current device_id l =
      with_gain is_current (Dict.lookup device_id default_device_live_fields)
        (take 64 (unique_fields l []))

  abbrev pub merge_fields :
      Bool → String → Json Float → Dict String (List String) → Dict String (List String)
  merge_fields is_current device_id (array l) result =
      if is_empty device_id
      then result
      else Dict.insert device_id (selected_fields is_current device_id l) result
  merge_fields is_current device_id null result = result
  merge_fields is_current device_id (number _) result = result
  merge_fields is_current device_id (boolean _) result = result
  merge_fields is_current device_id (text _) result = result
  merge_fields is_current device_id (object _) result = result

  unfoldable pub merge_all_fields :
      Bool → Members Float → Dict String (List String) → Dict String (List String)
  merge_all_fields is_current no_members result = result
  merge_all_fields is_current (member device_id j ms) result =
      merge_all_fields is_current ms (merge_fields is_current device_id j result)

  unfoldable pub merge_device_live_fields :
      Option (Json Float) → Option ℕ → Dict String (List String)
  merge_device_live_fields saved version =
      merge_all_fields (is_current_version version) (members_or_none saved)
        default_device_live_fields
