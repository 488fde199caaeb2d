-- ===== src/Control/Valid.antt =====
-- What the documents hold that `build_control_xml` of app/services/xml_control.py makes.
use amplifier_panel.Base.{
  ◌≡◌, refl, true, subst, ◌≤◌, String, some, List, [], inl, inr, arith, string_eq, Option-cases,
}
use amplifier_panel.Base.Dict.{Dict}
use amplifier_panel.Base.Result
use amplifier_panel.Base.Result.{
  Result, ok, err, ◌>>=◌, ◌>>◌, reject_if, or_raise, Ensures, Ensures-ok, Ensures-bind,
}
use amplifier_panel.Device.{Floats}
use amplifier_panel.Statistics.{Json}
use amplifier_panel.Status.{MappedSection, MappedDevice, Mapping}
use amplifier_panel.Control.Permitted.{
  IsTable, ArePermitted, nothing-IsTable, add_writable-IsTable, parameters-ArePermitted,
}
use amplifier_panel.Status.Profiles.{find_mapping_profile}
use amplifier_panel.Control.{
  Fault, Parameter, Document, Tools, Writable, add_writable, writable_fields, build_parameters,
  build_control_xml, max_control_bytes,
}

module _ (fl : Floats) (tools : Tools fl) where
  open fl use {Float}

  abbrev document_of : String → String → String → List Parameter → Document
  document_of identifier created_at device_id parameters = record {
    identifier = some identifier;
    created_at = some created_at;
    device_id = some (some device_id);
    parameters = parameters;
  }

  built :
      (mapping : Result Fault (Mapping Float)) (device_id identifier created_at : String)
      (values : Dict String (Json Float)) (writable : Writable fl) (d : Document)
      → writable_fields fl mapping device_id ≡ ok writable
      → build_control_xml fl tools mapping device_id values identifier created_at ≡ ok d
      → (l : List Parameter) × (build_parameters fl tools writable values ≡ ok l)
        × (d ≡ document_of identifier created_at device_id l)
        × (tools.is_uuid identifier ≡ true)
        × (tools.document_bytes d ≤ max_control_bytes)
  unfolding build_control_xml
  built mapping device_id identifier created_at values writable d w h =
      elim (Result.Result-cases (build_parameters fl tools writable values)) [
        | inr (x, e) ↦ absurd (ground (arith, w, e, h))
        | inl (l, e) ↦
            (l, e, ground (arith, w, e, h), ground (arith, w, e, h), ground (arith, w, e, h))
      ]

  -- The fields that may be written are those of the section of the device.
  located :
      (mapping : Result Fault (Mapping Float)) (device_id : String) (w : Writable fl)
      → writable_fields fl mapping device_id ≡ ok w
      → (m : Mapping Float) × (owner : String) × (definition : MappedDevice Float)
        × (section : MappedSection Float) × (mapping ≡ ok m)
        × (find_mapping_profile device_id m ≡ some (owner, definition, section))
        × IsTable fl tools section w
  unfolding writable_fields
  located mapping device_id w h = elim (Result.Result-cases mapping) [
    | inr (x, e) ↦ absurd (ground (arith, e, h))
    | inl (m, e) ↦ elim (Option-cases (find_mapping_profile device_id m)) [
      | inl f ↦ absurd (ground (arith, e, f, h))
      | inr ((owner, definition, section), f) ↦
          let same : add_writable fl section section.fields [] ≡ w = ground (arith, e, f, h) in
          let table =
            add_writable-IsTable fl tools section section.fields [] (λ g i. i)
              (nothing-IsTable fl tools section) in
          (m, owner, definition, section, e, f, subst (IsTable fl tools section) same table)
    ]
  ]

  writable_first :
      (mapping : Result Fault (Mapping Float)) (device_id identifier created_at : String)
      (values : Dict String (Json Float)) (d : Document)
      → build_control_xml fl tools mapping device_id values identifier created_at ≡ ok d
      → (w : Writable fl) × (writable_fields fl mapping device_id ≡ ok w)
  unfolding build_control_xml
  writable_first mapping device_id identifier created_at values d h =
      elim (Result.Result-cases (writable_fields fl mapping device_id)) [
        | inl found ↦ found
        | inr (x, e) ↦ absurd (ground (arith, e, h))
      ]

  -- A document that is built has one parameter for each value of the request, in the same order. The key
  -- of the value is that of a writable field of the section that the mapping has for the device, and
  -- the parameter has that section and field. Where the type of the field is number, the parameter
  -- is the finite number that the value, which is no Boolean, is read as, within the minimum and
  -- maximum of the field; where it is another type, the value is a text of at most 1024 characters
  -- with none below the space, and the parameter is that text. The document names the device, the
  -- time and the request, whose identifier is a UUID, and it has at most 256000 bytes.
  pub build_valid :
      (mapping : Result Fault (Mapping Float)) (device_id identifier created_at : String)
      (values : Dict String (Json Float)) (d : Document)
      → build_control_xml fl tools mapping device_id values identifier created_at ≡ ok d
      → (m : Mapping Float) × (owner : String) × (definition : MappedDevice Float)
        × (section : MappedSection Float) × (mapping ≡ ok m)
        × (find_mapping_profile device_id m ≡ some (owner, definition, section))
        × ArePermitted fl tools section values d.parameters
        × (d.identifier ≡ some identifier)
        × (tools.is_uuid identifier ≡ true)
        × (d.created_at ≡ some created_at)
        × (d.device_id ≡ some (some device_id))
        × (tools.document_bytes d ≤ max_control_bytes)
  build_valid mapping device_id identifier created_at values d h =
      let (w, found) = writable_first mapping device_id identifier created_at values d h in
      let (m, owner, definition, section, e, f, table) = located mapping device_id w found in
      let (l, k, same, uuid, bytes) =
        built mapping device_id identifier created_at values w d found h in
      let permitted =
        Ensures-ok (ArePermitted fl tools section values) (build_parameters fl tools w values)
          (parameters-ArePermitted fl tools section w values table) k in
      (
        m,
        owner,
        definition,
        section,
        e,
        f,
        rw same permitted,
        rw same refl,
        uuid,
        rw same refl,
        rw same refl,
        bytes,
      )
