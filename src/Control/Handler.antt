-- ===== src/Control/Handler.antt =====
-- The handler `update_device_control` of app/api/devices.py: the control document, the audit log and
-- the history of requests; and `reconcile` of app/services/control_requests.py after it.
use amplifier_panel.Base.{ℕ, Bool, String, Option, some, [], ◌∷◌, if◌then◌else◌}
use amplifier_panel.Base.Dict.{Dict}
use amplifier_panel.Base.Result.{Result, ok, err}
use amplifier_panel.Base.Text.{◌<>◌}
use amplifier_panel.Device.{Floats}
use amplifier_panel.Statistics.{Json, Members, Shown, object, no_members, member}
use amplifier_panel.Status.{Mapping}
use amplifier_panel.Syslog.{send_audit}
use amplifier_panel.Inventory.{is_active_device}
use amplifier_panel.Auth.{Raised, http}
use amplifier_panel.Database.Requests.{record_control_request, reconcile}
use amplifier_panel.Runtime.{Panel}
use amplifier_panel.Control.{Fault, value_error, os_error, key_error, Tools}
use amplifier_panel.Control.Write.{Files, Failure, write_control}
use amplifier_panel.Control.Status.{AckFile, get_control_status}

module _ (fl : Floats) (sh : Shown fl.Float) where
  open fl use {Float}

  pub record ControlPanel : Type 0 where
    pub panel : Panel fl sh
    pub files : Files

  -- What the handler finds: the mapping, the failure of the write, the new identifier, the clock as a
  -- text and in milliseconds, SQLite's error, and the settings of the audit log; `dumps` is
  -- `json.dumps` of the values.
  pub record Call : Type 0 where
    pub mapping : Result Fault (Mapping Float)
    pub failure : Failure
    pub identifier : String
    pub created_at : String
    pub now_ms : ℕ
    pub database_fault : Option String
    pub syslog_enabled : Bool
    pub client_ip : String
    pub dumps : Dict String (Json Float) → String

  unfoldable pub to_members : Dict String (Json Float) → Members Float
  to_members [] = no_members
  to_members ((k, j) ∷ values) = member k j (to_members values)

  -- The exception that the handler raises; a `KeyError` is not caught.
  abbrev pub raised_by : Fault → Raised
  raised_by (value_error message) = http 422 message
  raised_by os_error = http 503 "Could not write control XML"
  raised_by key_error = http 500 "Internal Server Error"

  -- The part of the handler after the write.
  unfoldable pub recorded :
      Call → String → String → Dict String (Json Float) → String → Panel fl sh → Panel fl sh
  recorded c device_id username values request_id s = record s {
    sent =
        send_audit c.syslog_enabled "device_control_requested" username c.client_ip
          ("device=" <> device_id <> "; request_id=" <> request_id <> "; values=" <> c.dumps values)
          s.sent;
    store =
        (record_control_request fl sh request_id device_id username
          (some (object (to_members values))) "" c.now_ms c.database_fault s.store).1;
  }

  unfoldable pub update_device_control :
      Tools fl
      → Call
      → String
      → String
      → Dict String (Json Float)
      → ControlPanel
      → Result Raised String × ControlPanel
  update_device_control tools c device_id username values s =
      if is_active_device fl device_id s.panel.inventory
      then (let (answer, files) =
            write_control fl tools c.mapping c.failure device_id values c.identifier c.created_at
              s.files in
          elim answer [
            | err e ↦ (err (raised_by e), record s { files = files })
            | ok request_id ↦ (
              ok request_id,
              record {
                panel = recorded c device_id username values request_id s.panel;
                files = files;
              },
            )
          ])
      else (err (http 404 "Device is not present in status.xml"), s)

  -- `control_requests.reconcile()` with the status of the files: what it finds is the acknowledgement,
  -- the clock in microseconds and in milliseconds, and SQLite's error.
  pub record Moment : Type 0 where
    pub acknowledgement : Option AckFile
    pub now_us : ℕ
    pub now_ms : ℕ
    pub database_fault : Option String

  unfoldable pub reconcile_files :
      (String → Option ℕ) → ℕ → Bool → (String → String) → Moment → ControlPanel → ControlPanel
  reconcile_files read_time timeout enabled quoted m s =
      let status =
        get_control_status fl sh read_time timeout m.now_us m.acknowledgement
          s.files.control_file in
      let (store, sent) =
        reconcile fl sh enabled quoted status m.now_ms m.database_fault
          (s.panel.store, s.panel.sent) in
      record s { panel = record s.panel { store = store; sent = sent } }
