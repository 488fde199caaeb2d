-- ===== src/Syslog.antt =====
-- app/services/syslog.py: what the panel hands to the syslog socket. A sent record is the message
-- and its severity; the priority number, the time stamp and the host name that the socket call puts
-- in front of the message are not kept.
use amplifier_panel.Base.{ℕ, Bool, String, List, [], ◌∷◌, ◌++◌, if◌then◌else◌}
use amplifier_panel.Base.Text.{◌<>◌, is_empty}

pub record Sent : Type 0 where
  pub message : String
  pub severity : ℕ

abbrev pub severity_warning : ℕ
severity_warning = 4

abbrev pub severity_info : ℕ
severity_info = 6

unfoldable pub send_syslog : Bool → String → ℕ → List Sent → List Sent
send_syslog enabled message severity sent =
    if enabled then sent ++ (record { message = message; severity = severity } ∷ []) else sent

unfoldable pub send_audit : Bool → String → String → String → String → List Sent → List Sent
unfolding send_syslog ◌<>◌
send_audit enabled action username ip_address details sent =
    let detail_text : String = if is_empty details then "" else "; details=" <> details in
    let message =
      "audit; user=" <> username <> "; ip=" <> ip_address <> "; action=" <> action <> detail_text in
    send_syslog enabled message severity_info sent
