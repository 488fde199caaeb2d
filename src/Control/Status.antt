-- ===== src/Control/Status.antt =====
-- `read_acknowledgement` and `get_control_status` of app/services/xml_control.py.
use amplifier_panel.Base.{
  ℕ, ◌+◌, Bool, true, false, not, ◌&&◌, String, Option, none, some, List, [], ◌∷◌, contains, ltb,
  ◌==◌, string_eq, if◌then◌else◌,
}
use amplifier_panel.Base.Result.{Result, ok, err}
use amplifier_panel.Base.Text.{is_empty, lower}
use amplifier_panel.Device.{Floats}
use amplifier_panel.Statistics.{Shown}
use amplifier_panel.Status.Parse.{max_xml_bytes, stripped}
use amplifier_panel.Database.Requests.{ControlStatus}
use amplifier_panel.Control.{Document}
use amplifier_panel.Control.Write.{ControlFile, unreadable, without_request, document}

-- `CONTROL_STATES`
abbrev pub control_states : List String
control_states = "pending" ∷ "applied" ∷ "rejected" ∷ "failed" ∷ []

-- The texts of the children of `<control_status>`.
pub record AckElement : Type 0 where
  pub last_request_id : Option String
  pub state : Option String
  pub message : Option String

-- The status file: its size, the decoded text with the test for declarations, and the child
-- `<control_status>` of the parsed root. An `err` is the text of the exception.
pub record AckFile : Type 0 where
  pub bytes : ℕ
  pub has_declaration : Result String Bool
  pub element : Result String (Option AckElement)

pub record Acknowledgement : Type 0 where
  pub request_id : Option String
  pub state : String
  pub message : String

abbrev pub no_id : String → String → Acknowledgement
no_id state message = record { request_id = none; state = state; message = message }

-- `text or None`
abbrev pub or_none : String → Option String
or_none s = if is_empty s then none else some s

abbrev pub known_state : String → String
known_state state = if contains control_states state then state else "invalid"

abbrev pub read_element : Option AckElement → Acknowledgement
read_element none = no_id "unsupported" "no acknowledgement"
read_element (some e) = record {
  request_id = or_none (stripped e.last_request_id);
  state = known_state (lower (stripped e.state));
  message = stripped e.message;
}

abbrev pub read_parsed : Result String (Option AckElement) → Acknowledgement
read_parsed (err message) = no_id "invalid" message
read_parsed (ok element) = read_element element

abbrev pub read_decoded : Result String Bool → Result String (Option AckElement) → Acknowledgement
read_decoded (err message) parsed = no_id "invalid" message
read_decoded (ok true) parsed = no_id "invalid" "unsafe XML"
read_decoded (ok false) parsed = read_parsed parsed

module _ (fl : Floats) (sh : Shown fl.Float) where
  -- `read_acknowledgement`; `none` is the `OSError`.
  unfoldable pub read_acknowledgement : Option AckFile → Acknowledgement
  read_acknowledgement none = no_id "unavailable" "status.xml unavailable"
  read_acknowledgement (some f) =
      if ltb (max_xml_bytes fl) f.bytes
      then no_id "invalid" "status.xml is too large"
      else read_decoded f.has_declaration f.element

  abbrev pub plain_status : Option String → String → String → ControlStatus fl sh
  plain_status request_id state message = record {
    request_id = request_id;
    request_device_id = none;
    status_state = state;
    message = message;
  }

  abbrev pub device_of : Option (Option String) → Option String
  device_of none = none
  device_of (some id) = some (stripped id)

  -- `request_id and acknowledgement.get("request_id") == request_id`
  abbrev pub same_request : Option String → Option String → Bool
  same_request none acknowledged = false
  same_request (some id) none = false
  same_request (some id) (some other) = not (is_empty id) && other == id

  abbrev pub present_text : Option String → String
  present_text none = ""
  present_text (some s) = s

  -- The status of a request that is not acknowledged, at a time; `none` is a time that cannot be read.
  abbrev pub unacknowledged : Document → ℕ → ℕ → Option ℕ → ControlStatus fl sh
  unacknowledged d timeout now none = plain_status d.identifier "invalid" "invalid timestamp"
  unacknowledged d timeout now (some created) =
      let timed_out = ltb (created + timeout) now in
      record {
        request_id = d.identifier;
        request_device_id = device_of d.device_id;
        status_state = if timed_out then "timeout" else "pending";
        message =
            if timed_out then "device acknowledgement timed out" else "awaiting acknowledgement";
      }

  -- `get_control_status` over the two files, with the time limit and the clock in microseconds;
  -- `read_time` reads an ISO time as UTC.
  unfoldable pub get_control_status :
      (String → Option ℕ) → ℕ → ℕ → Option AckFile → ControlFile → ControlStatus fl sh
  get_control_status read_time timeout now acknowledgement (unreadable message) =
      plain_status none "unavailable" message
  get_control_status read_time timeout now acknowledgement without_request =
      plain_status none "idle" "no control request"
  get_control_status read_time timeout now acknowledgement (document d) =
      let a = read_acknowledgement acknowledgement in
      if same_request d.identifier a.request_id
      then record {
        request_id = a.request_id;
        request_device_id = device_of d.device_id;
        status_state = a.state;
        message = a.message;
      }
      else unacknowledged d timeout now (read_time (present_text d.created_at))
