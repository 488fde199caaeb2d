-- ===== src/Inventory.antt =====
-- app/core/state.py: the active devices, their live entries and their alarms, and what is published
-- of one device. The lock around each function makes it one step.
pub mod Order
pub mod Devices
use amplifier_panel.Base.{
  ℕ, Bool, true, false, ◌&&◌, ◌||◌, not, String, Option, none, some, List, [], ◌∷◌, ◌==◌, string_eq,
  map, contains, if◌then◌else◌,
}
use amplifier_panel.Base.Dict
use amplifier_panel.Base.Dict.{Dict}
use amplifier_panel.Base.Int.{ℤ, pos, negsuc, leb_int}
use amplifier_panel.Base.Text.{text_le}
use amplifier_panel.Device.{Floats, Profile, Snapshot}
use amplifier_panel.Alarms.{Alarm, Alarms}

-- The key `(item.get("order", 1000), item["id"])` of `sorted`: whether `a` may stand before `b`.
abbrev pub order_le : ℤ → ℤ → Bool → Bool
order_le a b rest = if leb_int a b then (if leb_int b a then rest else true) else false

unfoldable pub comes_first : Profile → Profile → Bool
comes_first a b = order_le a.order b.order (text_le a.id b.id)

-- `sorted`, which is stable: an item is put in front of those that it does not come after.
unfoldable pub put_in_order : Profile → List Profile → List Profile
put_in_order a [] = a ∷ []
put_in_order a (b ∷ l) =
    let rest = put_in_order a l in if comes_first a b then a ∷ b ∷ l else b ∷ rest

unfoldable pub sorted : List Profile → List Profile
sorted [] = []
sorted (a ∷ l) = put_in_order a (sorted l)

-- `{item["id"]: item for item in ordered}`, from a dict.
unfoldable pub define_all : List Profile → Dict String Profile → Dict String Profile
define_all [] d = d
define_all (a ∷ l) d = define_all l (Dict.insert a.id a d)

-- `d.setdefault(k, v)`
unfoldable pub set_default {ℓ} : {V : Type ℓ} → String → V → Dict String V → Dict String V
set_default k v d = if Dict.has k d then d else Dict.insert k v d

unfoldable pub set_defaults {ℓ} : {V : Type ℓ} → List String → V → Dict String V → Dict String V
set_defaults [] v d = d
set_defaults (k ∷ ks) v d = set_defaults ks v (set_default k v d)

module _ (fl : Floats) where
  -- One entry of `device_live`; `none` is the empty dict.
  pub record Live : Type 0 where
    pub connected : Bool
    pub error : Option String
    pub last_update : Option String
    pub snapshot : Option (Snapshot fl.Float)

  pub record Inventory : Type 0 where
    pub active_alarms : Alarms fl
    pub device_live : Dict String Live
    pub active_device_order : List String
    pub device_definitions : Dict String Profile

  abbrev pub blank_live : Live
  blank_live = record { connected = false; error = none; last_update = none; snapshot = none }

  unfoldable pub set_device_inventory : List Profile → Inventory → Inventory
  set_device_inventory definitions s =
      let ordered = sorted definitions in
      let active_ids = map (λ (p : Profile). p.id) ordered in
      record {
        active_device_order = active_ids;
        device_definitions = define_all ordered [];
        device_live =
            set_defaults active_ids blank_live
              (Dict.keep (λ device_id _. contains active_ids device_id) s.device_live);
        active_alarms =
            Dict.keep (λ _ (a : Alarm fl). contains active_ids a.violation.device_id)
              s.active_alarms;
      }

  -- `active_device_ids`
  abbrev pub active_device_ids : Inventory → List String
  active_device_ids s = s.active_device_order

  unfoldable pub is_active_device : String → Inventory → Bool
  is_active_device device_id s = Dict.has device_id s.device_definitions

  -- The arguments of `update_device_live`: `none` where the caller leaves one out. The error alone can
  -- be set to `None`.
  pub record Update : Type 0 where
    pub connected : Option Bool
    pub error : Option (Option String)
    pub last_update : Option String
    pub snapshot : Option (Snapshot fl.Float)

  abbrev pub or_old : {A : Type 0} → Option A → A → A
  or_old none old = old
  or_old (some a) old = a

  abbrev pub or_kept : {A : Type 0} → Option A → Option A → Option A
  or_kept none old = old
  or_kept (some a) old = some a

  abbrev pub updated : Update → Live → Live
  updated u live = record {
    connected = or_old u.connected live.connected;
    error = or_old u.error live.error;
    last_update = or_kept u.last_update live.last_update;
    snapshot = or_kept u.snapshot live.snapshot;
  }

  abbrev pub live_or_blank : Option Live → Live
  live_or_blank none = blank_live
  live_or_blank (some live) = live

  unfoldable pub update_device_live : String → Update → Inventory → Inventory
  update_device_live device_id u s = record s {
    device_live =
        Dict.insert device_id (updated u (live_or_blank (Dict.lookup device_id s.device_live)))
          s.device_live;
  }

  -- `none` is the `KeyError`.
  unfoldable pub snapshot_device_live : String → Inventory → Option Live
  snapshot_device_live device_id s = Dict.lookup device_id s.device_live
