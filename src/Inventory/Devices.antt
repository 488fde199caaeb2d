-- ===== src/Inventory/Devices.antt =====
-- What a new inventory keeps and what it removes: `set_device_inventory` of app/core/state.py.
use amplifier_panel.Base.{
  ◌≡◌, refl, ◌∙◌, Bool, true, false, ◌||◌, String, Option, none, some, List, [], ◌∷◌, ◌==◌,
  string_eq, contains, arith, if◌then◌else◌,
}
use amplifier_panel.Base.Dict
use amplifier_panel.Base.Dict.{Dict, NodupKeys}
use amplifier_panel.Device.{Floats, Profile}
use amplifier_panel.Alarms.{Alarm}
use amplifier_panel.Inventory.{
  sorted, define_all, set_default, set_defaults, Inventory, live_or_blank, blank_live,
  set_device_inventory, active_device_ids, is_active_device,
}
use amplifier_panel.Inventory.Order.{ids, contains-sorted}

has-define_all :
    (l : List Profile) (d : Dict String Profile) (k : String)
    → Dict.has k (define_all l d) ≡ (contains (ids l) k || Dict.has k d)
unfolding define_all
has-define_all [] d k = refl
has-define_all (a ∷ l) d k =
    ground (arith, has-define_all l (Dict.insert a.id a d) k, Dict.lookup-insert k a.id a d)

module _ {V : Type 0} where
  abbrev defaulted : Bool → V → Option V → Option V
  defaulted listed v (some w) = some w
  defaulted listed v none = if listed then some v else none

  lookup-set_default :
      (k : String) (v : V) (d : Dict String V) (j : String)
      → Dict.lookup j (set_default k v d) ≡ defaulted (k == j) v (Dict.lookup j d)
  unfolding set_default
  lookup-set_default k v d j = ground (arith, Dict.lookup-insert j k v d)

  lookup-set_defaults :
      (ks : List String) (v : V) (d : Dict String V) (j : String)
      → Dict.lookup j (set_defaults ks v d) ≡ defaulted (contains ks j) v (Dict.lookup j d)
  unfolding set_defaults
  lookup-set_defaults [] v d j = ground arith
  lookup-set_defaults (k ∷ ks) v d j =
      ground (arith, lookup-set_defaults ks v (set_default k v d) j, lookup-set_default k v d j)

or_false : (b : Bool) → (b || false) ≡ b
or_false true = refl
or_false false = refl

module _ (fl : Floats) where
  -- After a new inventory exactly the devices of its definitions have a live entry: one that was live
  -- keeps its entry as it is, and a new one has the blank entry.
  pub lookup-set_device_inventory :
      (definitions : List Profile) (s : Inventory fl) (j : String)
      → NodupKeys s.device_live
      → Dict.lookup j (set_device_inventory fl definitions s).device_live ≡ (
          if contains (ids definitions) j
          then some (live_or_blank fl (Dict.lookup j s.device_live))
          else none)
  unfolding set_device_inventory
  lookup-set_device_inventory definitions s j u =
      let active_ids = ids (sorted definitions) in
      ground (
        arith,
        lookup-set_defaults active_ids (blank_live fl)
            (Dict.keep (λ k _. contains active_ids k) s.device_live) j,
        Dict.lookup-keep (λ k _. contains active_ids k) j s.device_live u,
        contains-sorted definitions j,
      )

  has_definition :
      (definitions : List Profile) (j : String)
      → Dict.has j (define_all (sorted definitions) []) ≡ contains (ids definitions) j
  unfolding Dict.lookup
  has_definition definitions j =
      has-define_all (sorted definitions) [] j
      ∙ or_false (contains (ids (sorted definitions)) j)
      ∙ contains-sorted definitions j

  same_kept :
      (definitions : List Profile) (j : String) (o : Option (Alarm fl))
      → Dict.kept
          (λ _ (a : Alarm fl). contains (ids (sorted definitions)) a.violation.device_id)
          j
          o
        ≡ Dict.kept (λ _ (a : Alarm fl). contains (ids definitions) a.violation.device_id) j o
  same_kept definitions j none = refl
  same_kept definitions j (some a) = rw (contains-sorted definitions a.violation.device_id)

  -- After a new inventory a device is active when it is listed, and when a definition is for it, and
  -- the alarms that are left are those of active devices, as they were.
  pub active-set_device_inventory :
      (definitions : List Profile) (s : Inventory fl) (j : String)
      → NodupKeys s.active_alarms
      → (is_active_device fl j (set_device_inventory fl definitions s)
          ≡ contains (ids definitions) j)
        × (contains (active_device_ids fl (set_device_inventory fl definitions s)) j
            ≡ contains (ids definitions) j)
        × (Dict.lookup j (set_device_inventory fl definitions s).active_alarms
            ≡ Dict.kept
                (λ _ (a : Alarm fl). contains (ids definitions) a.violation.device_id)
                j
                (Dict.lookup j s.active_alarms))
  unfolding set_device_inventory is_active_device
  active-set_device_inventory definitions s j u = (
    has_definition definitions j,
    contains-sorted definitions j,
    Dict.lookup-keep (λ _ (a : Alarm fl). contains (ids (sorted definitions)) a.violation.device_id)
          j s.active_alarms u
        ∙ same_kept definitions j (Dict.lookup j s.active_alarms),
  )
