-- ===== src/Control/Atomic.antt =====
-- `write_control` of app/services/xml_control.py replaces the control file as a whole or not at all.
use amplifier_panel.Base.{◌≡◌, refl, ◌⊎◌, inl, inr, String}
use amplifier_panel.Base.Dict.{Dict}
use amplifier_panel.Base.Result
use amplifier_panel.Base.Result.{Result, ok, err}
use amplifier_panel.Device.{Floats}
use amplifier_panel.Statistics.{Json}
use amplifier_panel.Status.{Mapping}
use amplifier_panel.Control.{Fault, Document, Tools, build_control_xml}
use amplifier_panel.Control.Write.{
  document, no_temporary, Files, removed, not_removed, Failure, no_failure, make_directory,
  open_temporary, write_temporary, change_mode, replace_file, replace_control, write_control,
}

-- The removal of the temporary file that follows a failure was itself refused.
abbrev pub IsStuck : Failure → Type 0
IsStuck no_failure = ⊥
IsStuck make_directory = ⊥
IsStuck (open_temporary r) = r ≡ not_removed
IsStuck (write_temporary r) = r ≡ not_removed
IsStuck (change_mode r) = r ≡ not_removed
IsStuck (replace_file r) = r ≡ not_removed

-- What a write leaves: the old file, and a temporary file only where its removal was refused; or the new
-- document in place of the old file, and no temporary file.
abbrev IsReplaced : Failure → Files → Document → Result Fault (Unit {0}) × Files → Type 0
IsReplaced step s d (err e, s') =
    (s'.control_file ≡ s.control_file) × ((s'.temporary ≡ no_temporary) ⊎ IsStuck step)
IsReplaced step s d (ok _, s') = (s'.control_file ≡ document d) × (s'.temporary ≡ no_temporary)

replace-IsReplaced :
    (step : Failure) (d : Document) (s : Files)
    → s.temporary ≡ no_temporary
    → IsReplaced step s d (replace_control step d s)
unfolding replace_control
replace-IsReplaced no_failure d s t = (refl, refl)
replace-IsReplaced make_directory d s t = (refl, inl t)
replace-IsReplaced (open_temporary removed) d s t = (refl, inl refl)
replace-IsReplaced (open_temporary not_removed) d s t = (refl, inr refl)
replace-IsReplaced (write_temporary removed) d s t = (refl, inl refl)
replace-IsReplaced (write_temporary not_removed) d s t = (refl, inr refl)
replace-IsReplaced (change_mode removed) d s t = (refl, inl refl)
replace-IsReplaced (change_mode not_removed) d s t = (refl, inr refl)
replace-IsReplaced (replace_file removed) d s t = (refl, inl refl)
replace-IsReplaced (replace_file not_removed) d s t = (refl, inr refl)

module _ (fl : Floats) (tools : Tools fl) where
  abbrev pub IsAtomic :
      Failure → Files → String → Result Fault Document → Result Fault String × Files → Type 0
  IsAtomic step s identifier built (err e, s') =
      (s'.control_file ≡ s.control_file) × ((s'.temporary ≡ no_temporary) ⊎ IsStuck step)
  IsAtomic step s identifier built (ok answer, s') =
      (d : Document) × (built ≡ ok d)
      × (answer ≡ identifier)
      × (s'.control_file ≡ document d)
      × (s'.temporary ≡ no_temporary)

  -- Wherever a write of the control file fails, the file keeps what it held; and where it answers with
  -- success, the answer is the identifier and the file holds the document that was built. No
  -- temporary file is left, if there was none before, except where a step under the `try` failed and the
  -- removal of the temporary file then failed too.
  pub write-IsAtomic :
      (mapping : Result Fault (Mapping fl.Float)) (failure : Failure)
      (device_id identifier created_at : String) (values : Dict String (Json fl.Float)) (s : Files)
      → s.temporary ≡ no_temporary
      → IsAtomic failure s identifier
          (build_control_xml fl tools mapping device_id values identifier created_at)
          (write_control fl tools mapping failure device_id values identifier created_at s)
  unfolding write_control
  write-IsAtomic mapping failure device_id identifier created_at values s t =
      elim (Result.Result-cases
        (build_control_xml fl tools mapping device_id values identifier created_at)) [
          | inr (e, b) ↦ rw (b, write_control) (refl, inl t)
          | inl (d, b) ↦
              let replaced = replace-IsReplaced failure d s t in
              elim (Result.Result-cases (replace_control failure d s).0) [
                | inr (e, r) ↦ rw (b, write_control, r) (rw r at replaced)
                | inl (u, r) ↦
                    let (file, temporary) = rw r at replaced in
                    rw (b, write_control, r) (d, refl, refl, file, temporary)
              ]
        ]
