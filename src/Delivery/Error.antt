-- ===== src/Delivery/Error.antt =====
-- src/delivery/error.rs: errors of a delivery, and which of them are final.
use my_mta.Prelude.{◌++◌, ℕ, List, Bool, true, false, not, ◌&&◌, Option, none, some, leb, ltb}
use my_mta.Prelude.Text.{Text, codes}
use my_mta.Prelude.Text.Numbers.{decimal}

pub data SmtpStage : Type 0 where
  connect tls ehlo mail_from rcpt_to data_command body quit : SmtpStage

-- `Display` of a stage
unfoldable pub stage_name : SmtpStage → Text
stage_name connect = codes "CONNECT"
stage_name tls = codes "TLS"
stage_name ehlo = codes "EHLO"
stage_name mail_from = codes "MAIL FROM"
stage_name rcpt_to = codes "RCPT TO"
stage_name data_command = codes "DATA"
stage_name body = codes "BODY"
stage_name quit = codes "QUIT"

pub data DeliveryError : Type 0 where
  dns_resolution_failed : (domain reason : Text) → DeliveryError
  connection_failed : (attempted : List Text) (reason : Text) → DeliveryError
  tls_failed : (stage : SmtpStage) (reason : Text) → DeliveryError
  smtp_rejected : (code : ℕ) (message : Text) (stage : SmtpStage) → DeliveryError
  protocol_error : (stage : SmtpStage) (expected received : Text) → DeliveryError
  io_error : (stage : SmtpStage) (message : Text) → DeliveryError
  timeout : (stage : SmtpStage) (duration_secs : ℕ) → DeliveryError
  content_error : (reason : Text) → DeliveryError

unfoldable pub is_permanent : DeliveryError → Bool
is_permanent (smtp_rejected code message stage) = leb 500 code && ltb code 600
is_permanent (protocol_error stage expected received) = true
is_permanent (content_error reason) = true
is_permanent _ = false

unfoldable pub is_transient : DeliveryError → Bool
unfolding is_permanent
is_transient e = not (is_permanent e)

unfoldable pub stage_of : DeliveryError → Option SmtpStage
stage_of (tls_failed stage reason) = some stage
stage_of (smtp_rejected code message stage) = some stage
stage_of (protocol_error stage expected received) = some stage
stage_of (io_error stage message) = some stage
stage_of (timeout stage duration_secs) = some stage
stage_of _ = none

unfoldable pub from_smtp_response : ℕ → Text → SmtpStage → DeliveryError
from_smtp_response code message stage = smtp_rejected code message stage

-- `Display`; `debug` is the `Debug` text of a list of strings.
unfoldable pub display : (List Text → Text) → DeliveryError → Text
unfolding stage_name
display debug (dns_resolution_failed domain reason) =
    codes "DNS resolution failed for '" ++ domain ++ codes "': " ++ reason
display debug (connection_failed attempted reason) =
    codes "Connection failed (tried " ++ debug attempted ++ codes "): " ++ reason
display debug (tls_failed stage reason) =
    codes "TLS failed at " ++ stage_name stage ++ codes ": " ++ reason
display debug (smtp_rejected code message stage) =
    codes "SMTP error at " ++ stage_name stage ++ codes ": " ++ decimal code ++ codes " " ++ message
display debug (protocol_error stage expected received) =
    codes "Protocol error at "
    ++ stage_name stage
    ++ codes ": expected '"
    ++ expected
    ++ codes "', got '"
    ++ received
    ++ codes "'"
display debug (io_error stage message) =
    codes "I/O error at " ++ stage_name stage ++ codes ": " ++ message
display debug (timeout stage duration_secs) =
    codes "Timeout at " ++ stage_name stage ++ codes " after " ++ decimal duration_secs ++ codes "s"
display debug (content_error reason) = codes "Content error: " ++ reason
