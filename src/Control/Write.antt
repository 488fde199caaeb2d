-- ===== src/Control/Write.antt =====
-- `write_control` of app/services/xml_control.py over the two files it touches.
use amplifier_panel.Base.{String}
use amplifier_panel.Base.Dict.{Dict}
use amplifier_panel.Base.Result.{Result, ok, err}
use amplifier_panel.Device.{Floats}
use amplifier_panel.Statistics.{Json}
use amplifier_panel.Status.{Mapping}
use amplifier_panel.Control.{Fault, os_error, Document, Tools, build_control_xml}

-- What the control file holds: nothing that can be read, with the text of the error, a document with
-- no request, or a document.
pub data ControlFile : Type 0 where
  unreadable : String → ControlFile
  without_request : ControlFile
  document : Document → ControlFile

-- The temporary file: not there, not complete, or complete.
pub data Temporary : Type 0 where
  no_temporary : Temporary
  incomplete : Temporary
  complete : Document → Temporary

pub record Files : Type 0 where
  pub control_file : ControlFile
  pub temporary : Temporary

-- What `temporary.unlink(missing_ok=True)` does: the file is gone, or an `OSError` is raised.
pub data Removal : Type 0 where
  removed not_removed : Removal

-- The step of `write_control` that raises an `OSError`; under the `try`, with the removal that follows.
pub data Failure : Type 0 where
  no_failure make_directory : Failure
  open_temporary write_temporary change_mode replace_file : Removal → Failure

-- The removal of the temporary file and the exception again, or that of the removal in its place.
abbrev pub clean_up : Removal → Files → Result Fault (Unit {0}) × Files
clean_up removed s = (err os_error, record s { temporary = no_temporary })
clean_up not_removed s = (err os_error, s)

-- `temporary.replace(path)` moves the file.
abbrev pub moved : Temporary → Files → Files
moved no_temporary s = s
moved incomplete s = record { control_file = unreadable ""; temporary = no_temporary }
moved (complete d) s = record { control_file = document d; temporary = no_temporary }

-- The part of `write_control` under the lock.
unfoldable pub replace_control : Failure → Document → Files → Result Fault (Unit {0}) × Files
replace_control make_directory d s = (err os_error, s)
replace_control (open_temporary r) d s = clean_up r s
replace_control (write_temporary r) d s = clean_up r (record s { temporary = incomplete })
replace_control (change_mode r) d s = clean_up r (record s { temporary = complete d })
replace_control (replace_file r) d s = clean_up r (record s { temporary = complete d })
replace_control no_failure d s =
    let written = record s { temporary = complete d } in (ok tt, moved written.temporary written)

module _ (fl : Floats) where
  -- `write_control`, whose answer is the identifier; the other fields of it are constants.
  unfoldable pub write_control :
      Tools fl
      → Result Fault (Mapping fl.Float)
      → Failure
      → String
      → Dict String (Json fl.Float)
      → String
      → String
      → Files
      → Result Fault String × Files
  write_control tools mapping failure device_id values identifier created_at s =
      elim (build_control_xml fl tools mapping device_id values identifier created_at) [
        | err e ↦ (err e, s)
        | ok d ↦
            let (done, s') = replace_control failure d s in
            elim done [ err e ↦ (err e, s') | ok _ ↦ (ok identifier, s') ]
      ]
