-- ===== src/Control/Permitted.antt =====
-- The parameters that `build_control_xml` of app/services/xml_control.py makes of the values.
use amplifier_panel.Base.{
  ◌≡◌, refl, ap, subst, ◌≤◌, true, false, String, Option, none, some, List, [], ◌∷◌, length, IsIn,
  inl, inr, arith, string_eq, if_elim, Option-cases,
}
use amplifier_panel.Base.Dict
use amplifier_panel.Base.Dict.{Dict}
use amplifier_panel.Base.Result.{ok, Ensures, Ensures-ok, Ensures-bind}
use amplifier_panel.Base.Text.{codes}
use amplifier_panel.Device.{Floats, FieldType, Field}
use amplifier_panel.Statistics.{Json, null, number, boolean, text, array, object}
use amplifier_panel.Status.{MappedSection}
use amplifier_panel.Control.{
  Parameter, Tools, is_boolean, to_float, Writable, add_writable, is_below, is_above,
  validated_number, validated_text, has_control_character, validated_as, validated_value, field_key,
  attribute, build_parameter, build_parameters,
}

module _ (fl : Floats) (tools : Tools fl) where
  open fl use {Float}

  abbrev IsAcceptedText : Json Float → String → String → Type 0
  IsAcceptedText value value_type serialized =
      (value ≡ text serialized)
      × (value_type ≡ "text")
      × (length (codes serialized) ≤ 1024)
      × (has_control_character fl serialized ≡ false)

  -- What a value of the request may become for a field, by the type of the field. For a number: the
  -- finite number that the value, which is no Boolean, is read as, within the limits of the field. For
  -- any other type: the same text, of at most 1024 characters with none below the space.
  abbrev pub IsAcceptedAs : FieldType → Field Float → Json Float → String × String → Type 0
  IsAcceptedAs FieldType.number f value (value_type, serialized) =
      (x : Float) × (is_boolean fl value ≡ false)
      × (to_float fl value ≡ some x)
      × (value_type ≡ "number")
      × (serialized ≡ tools.format_number x)
      × (fl.is_finite x ≡ true)
      × (is_below fl f.minimum x ≡ false)
      × (is_above fl f.maximum x ≡ false)
  IsAcceptedAs FieldType.text f value (value_type, serialized) =
      IsAcceptedText value value_type serialized
  IsAcceptedAs FieldType.boolean f value (value_type, serialized) =
      IsAcceptedText value value_type serialized

  number_read :
      (f : Field Float) (value : Json Float) (x : Float)
      → validated_number fl f value ≡ ok x
      → (is_boolean fl value ≡ false)
        × (to_float fl value ≡ some x)
        × (fl.is_finite x ≡ true)
        × (is_below fl f.minimum x ≡ false)
        × (is_above fl f.maximum x ≡ false)
  unfolding validated_number
  number_read f value x h = elim (Option-cases (to_float fl value)) [
    | inl e ↦ absurd (ground (arith, e, h))
    | inr (y, e) ↦ ground (arith, e, h)
  ]

  text_read :
      (value : Json Float) (s : String)
      → validated_text fl value ≡ ok s
      → (value ≡ text s) × (length (codes s) ≤ 1024) × (has_control_character fl s ≡ false)
  text_read (text t) s h = ground (arith, h)
  text_read null s h = absurd (ground (arith, h))
  text_read (number _) s h = absurd (ground (arith, h))
  text_read (boolean _) s h = absurd (ground (arith, h))
  text_read (array _) s h = absurd (ground (arith, h))
  text_read (object _) s h = absurd (ground (arith, h))

  value-IsAcceptedAs :
      (t : FieldType) (f : Field Float) (value : Json Float)
      → Ensures (IsAcceptedAs t f value) (validated_as fl tools t f value)
  unfolding validated_as
  value-IsAcceptedAs FieldType.number f value =
      Ensures-bind (IsAcceptedAs FieldType.number f value) (validated_number fl f value) _
        (λ x e. let (n, r, a, b, c) = number_read f value x e in (x, n, r, refl, refl, a, b, c))
  value-IsAcceptedAs FieldType.text f value =
      Ensures-bind (IsAcceptedAs FieldType.text f value) (validated_text fl value) _
        (λ s e. let (r, a, b) = text_read value s e in (r, refl, a, b))
  value-IsAcceptedAs FieldType.boolean f value =
      Ensures-bind (IsAcceptedAs FieldType.boolean f value) (validated_text fl value) _
        (λ s e. let (r, a, b) = text_read value s e in (r, refl, a, b))

  abbrev IsEntry : MappedSection Float → String → MappedSection Float × Field Float → Type 0
  IsEntry section key (s, f) =
      (s ≡ section) × (f.writable ≡ true) × IsIn f section.fields × (key ≡ field_key fl section f)

  -- Every key of the table finds a writable field of the section, and is the key of that field.
  abbrev pub IsTable : MappedSection Float → Writable fl → Type 0
  IsTable section writable =
      (key : String) (e : MappedSection Float × Field Float)
      → Dict.lookup key writable ≡ some e
      → IsEntry section key e

  pub nothing-IsTable : (section : MappedSection Float) → IsTable section []
  unfolding Dict.lookup
  nothing-IsTable section key e h = absurd (ground arith)

  insert-IsTable :
      (section : MappedSection Float) (f : Field Float) (result : Writable fl)
      → f.writable ≡ true
      → IsIn f section.fields
      → IsTable section result
      → IsTable section (Dict.insert (field_key fl section f) (section, f) result)
  insert-IsTable section f result w i h key e found =
      elim (string_eq.dec key (field_key fl section f)) [
        | yes same ↦
            let is_e : (section, f) ≡ e = ground (
              arith,
              Dict.lookup-insert key (field_key fl section f) (section, f) result,
              found,
              same,
            ) in
            subst (IsEntry section key) is_e (refl, w, i, same)
        | no other ↦ h key e (
            ground (
              arith,
              Dict.lookup-insert key (field_key fl section f) (section, f) result,
              found,
              other,
            ))
      ]

  pub add_writable-IsTable :
      (section : MappedSection Float) (fields : List (Field Float)) (result : Writable fl)
      → ((f : Field Float) → IsIn f fields → IsIn f section.fields)
      → IsTable section result
      → IsTable section (add_writable fl section fields result)
  unfolding add_writable
  add_writable-IsTable section [] result sub a = a
  add_writable-IsTable section (f ∷ fields) result sub a =
      add_writable-IsTable section fields _ (λ g i. sub g (inr i))
        (if_elim (IsTable section) f.writable
          (λ e. insert-IsTable section f result e (sub f (inl refl)) a) (λ _. a))

  -- The parameter that stands for a value of the request, under the key of a writable field of the section.
  abbrev pub IsPermitted : MappedSection Float → String → Json Float → Parameter → Type 0
  IsPermitted section key value p =
      (f : Field Float) × IsIn f section.fields
      × (f.writable ≡ true)
      × (key ≡ field_key fl section f)
      × (p.section ≡ section.key)
      × (p.key ≡ f.key)
      × (p.id ≡ attribute fl f.id)
      × (p.name ≡ attribute fl f.name)
      × IsAcceptedAs f.field_type f value (p.value_type, p.value)

  parameter-IsPermitted :
      (section : MappedSection Float) (key : String)
      (o : Option (MappedSection Float × Field Float)) (value : Json Float)
      → ((e : MappedSection Float × Field Float) → o ≡ some e → IsEntry section key e)
      → Ensures (IsPermitted section key value) (build_parameter fl tools o value)
  unfolding build_parameter
  parameter-IsPermitted section key none value h = tt
  parameter-IsPermitted section key (some (s, f)) value h =
      let (same, w, i, named) = h (s, f) refl in
      Ensures-bind (IsPermitted section key value) (validated_value fl tools f value) _ (λ v e. (
        f,
        i,
        w,
        named,
        ap (λ (x : MappedSection Float). x.key) same,
        refl,
        refl,
        refl,
        Ensures-ok (IsAcceptedAs f.field_type f value) (validated_value fl tools f value)
            (value-IsAcceptedAs f.field_type f value) e,
      ))

  -- One parameter for each value of the request, in the order of the values.
  abbrev pub ArePermitted : MappedSection Float → Dict String (Json Float) → List Parameter → Type 0
  ArePermitted section [] [] = Unit
  ArePermitted section [] (_ ∷ _) = ⊥
  ArePermitted section (_ ∷ _) [] = ⊥
  ArePermitted section ((key, value) ∷ values) (p ∷ parameters) =
      IsPermitted section key value p × ArePermitted section values parameters

  pub parameters-ArePermitted :
      (section : MappedSection Float) (writable : Writable fl) (values : Dict String (Json Float))
      → IsTable section writable
      → Ensures (ArePermitted section values) (build_parameters fl tools writable values)
  unfolding build_parameters
  parameters-ArePermitted section writable [] a = tt
  parameters-ArePermitted section writable ((key, value) ∷ values) a =
      let first = build_parameter fl tools (Dict.lookup key writable) value in
      let goal = ArePermitted section ((key, value) ∷ values) in
      Ensures-bind goal first _ (λ p e.
        Ensures-bind goal (build_parameters fl tools writable values) _ (λ l k. (
          Ensures-ok (IsPermitted section key value) first
              (parameter-IsPermitted section key (Dict.lookup key writable) value (a key)) e,
          Ensures-ok (ArePermitted section values) (build_parameters fl tools writable values)
              (parameters-ArePermitted section writable values a) k,
        )))
