-- ===== src/Auth/Radius.antt =====
-- app/services/radius.py. The packet exchange is pyrad's: its outcome is an argument.
use amplifier_panel.Base.{ℕ, Bool, true, false, String, eqb, if◌then◌else◌}
use amplifier_panel.Base.Result.{Result, ok, err}
use amplifier_panel.Base.Text.{◌<>◌}
use amplifier_panel.Auth.{Config}

-- What `client.SendPacket` returns or raises.
pub data Reply : Type 0 where
  timeout : Reply
  os_error : String → Reply
  reply_code : ℕ → Reply

-- RFC 2865 (pyrad.packet): Access-Accept is 2, and Access-Reject is 3.
abbrev pub access_accept : ℕ
access_accept = 2

abbrev pub access_reject : ℕ
access_reject = 3

-- The error is the text of the `RadiusUnavailableError`.
unfoldable pub authenticate : Config → Reply → Result String Bool
authenticate cfg timeout =
    err ("RADIUS server did not respond (" <> cfg.radius_server <> ":" <> cfg.radius_port <> ")")
authenticate cfg (os_error message) = err ("RADIUS communication error: " <> message)
authenticate cfg (reply_code c) =
    if eqb c access_accept then ok true else if eqb c access_reject then ok false else ok false
