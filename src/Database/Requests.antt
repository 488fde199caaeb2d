-- ===== src/Database/Requests.antt =====
-- The history of control requests: `record_control_request`, `update_control_request_status` and
-- `get_control_requests` of app/services/database.py, and `reconcile` of
-- app/services/control_requests.py.
use amplifier_panel.Base.{
  ℕ, suc, max, min, Bool, true, false, ◌&&◌, ◌||◌, not, String, Option, none, some, List, [], ◌∷◌,
  ◌==◌, string_eq, select, take, contains, leb, sort_by, if◌then◌else◌,
}
use amplifier_panel.Base.Dict
use amplifier_panel.Base.Dict.{Dict}
use amplifier_panel.Base.Text.{◌<>◌, is_empty}
use amplifier_panel.Device.{Floats}
use amplifier_panel.Syslog.{Sent, send_audit}
use amplifier_panel.Statistics.{Json, Shown}
use amplifier_panel.Database.{ControlRequest, Store}

module _ (fl : Floats) (sh : Shown fl.Float) where
  abbrev pub Requests : Type 0
  Requests = Dict String (ControlRequest fl sh)

  abbrev pub for_device : String → String × ControlRequest fl sh → Bool
  for_device device_id (_, q) = q.device_id == device_id

  abbrev pub latest_of : Option ℕ → ℕ → Option ℕ
  latest_of none t = some t
  latest_of (some u) t = some (max u t)

  -- `SELECT MAX(created_ms) … WHERE device_id = ?`
  unfoldable pub latest : String → Requests → Option ℕ
  latest device_id [] = none
  latest device_id ((k, q) ∷ requests) =
      let rest = latest device_id requests in
      if q.device_id == device_id then latest_of rest q.created_ms else rest

  -- A time after every request of the device.
  abbrev pub after : Option ℕ → ℕ → ℕ
  after none now = now
  after (some last) now = max now (suc last)

  -- `ORDER BY created_ms DESC`
  abbrev pub newest_first : String → Requests → Requests
  newest_first device_id requests =
      sort_by (λ (a b : String × ControlRequest fl sh). leb b.1.created_ms a.1.created_ms)
        (select (for_device device_id) requests)

  -- `DELETE … WHERE device_id = ? AND request_id NOT IN (… LIMIT 100)`
  unfoldable pub trim : String → Requests → Requests
  trim device_id requests =
      let kept = Dict.keys (take 100 (newest_first device_id requests)) in
      Dict.keep (λ k (q : ControlRequest fl sh). not (q.device_id == device_id) || contains kept k)
        requests

  unfoldable pub add_request : String → String → String → Json fl.Float → ℕ → Requests → Requests
  add_request request_id device_id username values now requests =
      let created = after (latest device_id requests) now in
      trim device_id (
        Dict.insert request_id
          (record {
            created_ms = created;
            updated_ms = created;
            device_id = device_id;
            username = username;
            request_values = values;
            request_state = "pending";
            message = "awaiting acknowledgement";
          })
          requests)

  -- `record_control_request`. The document is `none` where `json.dumps` raises, with the text of the
  -- error; the fault is SQLite's error.
  unfoldable pub record_control_request :
      String
      → String
      → String
      → Option (Json fl.Float)
      → String
      → ℕ
      → Option String
      → Store fl sh
      → Bool × Store fl sh
  record_control_request request_id device_id username none reason now fault s =
      (false, record s { last_error = some ("control request serialization" <> ": " <> reason) })
  record_control_request request_id device_id username (some values) reason now none s =
      if s.connected
      then (
        true,
        record s {
          requests = add_request request_id device_id username values now s.requests;
          last_error = none;
        },
      )
      else (false, s)
  record_control_request request_id device_id username (some values) reason now (some error) s =
      if s.connected
      then (false, record s { last_error = some ("control request write" <> ": " <> error) })
      else (false, s)

  abbrev pub with_status : String → String → ℕ → ControlRequest fl sh → ControlRequest fl sh
  with_status status message now q = record q {
    request_state = status;
    message = message;
    updated_ms = now;
  }

  unfoldable pub update_found :
      String
      → String
      → String
      → ℕ
      → Option (ControlRequest fl sh)
      → Store fl sh
      → Bool × Store fl sh
  update_found request_id status message now none s = (false, s)
  update_found request_id status message now (some q) s =
      if q.request_state == status && q.message == message then (false, s) else (
        true,
        record s {
          requests = Dict.insert request_id (with_status status message now q) s.requests;
          last_error = none;
        },
      )

  -- `update_control_request_status`
  unfoldable pub update_control_request_status :
      String → String → String → ℕ → Option String → Store fl sh → Bool × Store fl sh
  update_control_request_status request_id status message now none s =
      if s.connected && not (is_empty request_id)
      then update_found request_id status message now (Dict.lookup request_id s.requests) s
      else (false, s)
  update_control_request_status request_id status message now (some error) s =
      if s.connected && not (is_empty request_id)
      then (
        false,
        record s { last_error = some ("control request status update" <> ": " <> error) },
      )
      else (false, s)

  -- `get_control_requests`, without the conversion of its columns.
  unfoldable pub get_control_requests : String → ℕ → Store fl sh → Requests
  get_control_requests device_id limit s =
      if s.connected then take (max 1 (min limit 100)) (newest_first device_id s.requests) else []

  -- What `get_control_status` of app/services/xml_control.py answers; an absent id is `none`.
  pub record ControlStatus : Type 0 where
    pub request_id : Option String
    pub request_device_id : Option String
    pub status_state : String
    pub message : String

  abbrev pub present : Option String → String
  present none = ""
  present (some s) = s

  -- `json.dumps(message, ensure_ascii=False)` is the first parameter.
  abbrev pub status_details : (String → String) → ControlStatus → String
  status_details quoted status =
      "device="
      <> present status.request_device_id
      <> "; request_id="
      <> present status.request_id
      <> "; state="
      <> status.status_state
      <> "; message="
      <> quoted status.message

  -- `reconcile`, with the switch of the syslog.
  unfoldable pub reconcile :
      Bool
      → (String → String)
      → ControlStatus
      → ℕ
      → Option String
      → Store fl sh × List Sent
      → Store fl sh × List Sent
  reconcile enabled quoted status now fault (s, sent) =
      let (changed, s') =
        update_control_request_status (present status.request_id) status.status_state status.message
          now fault s in
      if not (is_empty (present status.request_id))
        && not (is_empty (present status.request_device_id))
      then (
        s',
        if changed
            then send_audit enabled "device_control_status_changed" "system" "local"
                (status_details quoted status) sent
            else sent,
      )
      else (s, sent)
