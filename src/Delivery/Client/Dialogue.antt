-- ===== src/Delivery/Client/Dialogue.antt =====
-- One conversation with a remote server: `try_deliver_to` of src/delivery/client.rs and the commands
-- that it sends. The TLS parts are not compiled, since the crate declares no such feature.
pub mod Reports
use my_mta.Prelude.{
  ℕ, List, [], ◌∷◌, ◌++◌, map, true, not, ◌==◌, none, if◌then◌else◌, is_empty, length,
}
use my_mta.Prelude.Text.{Text, codes, as_bytes}
use my_mta.Prelude.Text.Numbers.{decimal}
use my_mta.Delivery.Error
use my_mta.Delivery.Error.{DeliveryError, SmtpStage, timeout, io_error, from_smtp_response}
use my_mta.Delivery.Outcome
use my_mta.Delivery.Outcome.{
  RecipientResult, success, permanent_failure, transient_failure, DeliveryResult, is_success,
  successful_recipients,
}
use my_mta.Delivery.Connector.{
  ConnectionConfig, as_secs, SmtpConnection, Attempt, gives, fails, panics, WriteOutcome,
  all_written, out_of_time, write_error, write_all, flush,
}
use my_mta.Delivery.Client.Capabilities
use my_mta.Delivery.Client.Capabilities.{SmtpCapabilities, no_capabilities}
use my_mta.Delivery.Client.Reading
use my_mta.Delivery.Client.Reading.{SmtpClientResponse, message, read_response}
use my_mta.Delivery.Client.Body.{body_on_wire}

-- An operation on a connection.
abbrev pub Talk : Type 0 → Type 0
Talk A = SmtpConnection → SmtpConnection × Attempt A

infixl 5 ◌>>=◌ ◌>>◌
abbrev pub ◌>>=◌ : {A B : Type 0} → Talk A → (A → Talk B) → Talk B
(m >>= f) conn = elim (m conn).1 [
  | gives a ↦ f a (m conn).0
  | fails e ↦ ((m conn).0, fails e)
  | panics ↦ ((m conn).0, panics)
]

abbrev pub ◌>>◌ : {B : Type 0} → Talk (Unit {0}) → Talk B → Talk B
m >> k = m >>= λ _. k

abbrev pub give : {A : Type 0} → A → Talk A
give a conn = (conn, gives a)

abbrev pub raise : {A : Type 0} → DeliveryError → Talk A
raise e conn = (conn, fails e)

-- A write or a flush with a timeout.
unfoldable pub timed :
    SmtpStage → ℕ → SmtpConnection × WriteOutcome → SmtpConnection × Attempt (Unit {0})
timed stage limit (conn, all_written) = (conn, gives tt)
timed stage limit (conn, out_of_time) = (conn, fails (timeout stage (as_secs limit)))
timed stage limit (conn, write_error text) = (conn, fails (io_error stage text))

-- A flush with no timeout waits until it is done.
unfoldable pub untimed :
    SmtpStage → SmtpConnection × WriteOutcome → SmtpConnection × Attempt (Unit {0})
untimed stage (conn, write_error text) = (conn, fails (io_error stage text))
untimed stage (conn, _) = (conn, gives tt)

unfoldable pub require_success : SmtpStage → SmtpClientResponse → Talk (Unit {0})
require_success stage response =
    if not (Reading.is_success response)
    then raise (from_smtp_response response.code (message response) stage)
    else give tt

unfoldable pub require_354 : SmtpClientResponse → Talk (Unit {0})
require_354 response =
    if response.code == 354
    then give tt
    else raise (from_smtp_response response.code (message response) SmtpStage.data_command)

-- The failure of one recipient.
unfoldable pub failure_of : DeliveryError → RecipientResult
failure_of e = if Error.is_permanent e then permanent_failure e else transient_failure e

-- The recipients that were accepted fail with the message.
unfoldable pub fail_accepted : DeliveryError → Text × RecipientResult → Text × RecipientResult
unfolding failure_of
fail_accepted e (address, res) = (address, if is_success res then failure_of e else res)

-- The results after the final reply.
unfoldable pub settle : DeliveryResult → SmtpClientResponse → DeliveryResult
unfolding fail_accepted
settle result final =
    if not (Reading.is_success final)
    then record result {
      recipients =
          map (fail_accepted (from_smtp_response final.code (message final) SmtpStage.body))
            result.recipients;
    }
    else result

-- `.ok()`: an error is dropped.
unfoldable pub ignore_error : Talk (Unit {0}) → Talk (Unit {0})
ignore_error m conn = elim (m conn).1 [
  | gives u ↦ ((m conn).0, gives tt)
  | fails e ↦ ((m conn).0, gives tt)
  | panics ↦ ((m conn).0, panics)
]

-- `let _ = self.read_response(..).await`
unfoldable pub forget_reply : Talk SmtpClientResponse → Talk (Unit {0})
forget_reply m conn = elim (m conn).1 [
  | gives response ↦ ((m conn).0, gives tt)
  | fails e ↦ ((m conn).0, gives tt)
  | panics ↦ ((m conn).0, panics)
]

module _ (lossy : List ℕ → Text) (config : ConnectionConfig) where
  unfoldable pub write_line : Text → Talk (Unit {0})
  unfolding timed
  write_line line conn =
      timed SmtpStage.data_command config.command_timeout (write_all (as_bytes line) conn)

  unfoldable pub flush_line : Talk (Unit {0})
  unfolding timed
  flush_line conn = timed SmtpStage.data_command config.command_timeout (flush conn)

  unfoldable pub send_line : Text → Talk (Unit {0})
  unfolding write_line flush_line
  send_line line = do write_line line; flush_line

  unfoldable pub receive : Talk SmtpClientResponse
  receive = read_response lossy config

  -- HELO, where EHLO is refused.
  unfoldable pub helo : Talk SmtpCapabilities
  unfolding require_success
  helo = do
    send_line (codes "HELO " ++ config.local_hostname ++ codes "\r\n")
    response ← receive
    require_success SmtpStage.ehlo response
    give no_capabilities

  unfoldable pub ehlo : Talk SmtpCapabilities
  unfolding helo
  ehlo = do
    send_line (codes "EHLO " ++ config.local_hostname ++ codes "\r\n")
    response ← receive
    if not (Reading.is_success response) then helo else give (Capabilities.parse response.lines)

  unfoldable pub mail_from : Text → ℕ → Talk (Unit {0})
  unfolding require_success
  mail_from sender size = do
    send_line (codes "MAIL FROM:<" ++ sender ++ codes "> SIZE=" ++ decimal size ++ codes "\r\n")
    response ← receive
    require_success SmtpStage.mail_from response

  unfoldable pub rcpt_to : Text → Talk (Unit {0})
  unfolding require_success
  rcpt_to recipient = do
    send_line (codes "RCPT TO:<" ++ recipient ++ codes ">\r\n")
    response ← receive
    require_success SmtpStage.rcpt_to response

  unfoldable pub start_data : Talk (Unit {0})
  unfolding require_354
  start_data = do send_line (codes "DATA\r\n"); response ← receive; require_354 response

  unfoldable pub write_body : List ℕ → Talk (Unit {0})
  unfolding timed
  write_body body conn =
      timed SmtpStage.body config.data_timeout (write_all (body_on_wire body) conn)

  unfoldable pub flush_body : Talk (Unit {0})
  unfolding untimed
  flush_body conn = untimed SmtpStage.body (flush conn)

  unfoldable pub send_body : List ℕ → Talk (Unit {0})
  unfolding write_body flush_body
  send_body body = do write_body body; flush_body

  unfoldable pub quit : Talk (Unit {0})
  unfolding forget_reply
  quit = do send_line (codes "QUIT\r\n"); forget_reply receive

  -- The result of one RCPT: an error of any kind is the recipient's.
  unfoldable pub one_recipient : Text → Talk RecipientResult
  unfolding rcpt_to failure_of
  one_recipient recipient conn = elim (rcpt_to recipient conn).1 [
    | gives u ↦ ((rcpt_to recipient conn).0, gives (success (codes "Accepted")))
    | fails e ↦ ((rcpt_to recipient conn).0, gives (failure_of e))
    | panics ↦ ((rcpt_to recipient conn).0, panics)
  ]

  -- The loop over the recipients.
  unfoldable pub each_recipient : DeliveryResult → List Text → Talk DeliveryResult
  unfolding one_recipient
  each_recipient result [] = give result
  each_recipient result (recipient ∷ recipients) = do
    res ← one_recipient recipient
    each_recipient (Outcome.add_recipient result recipient res) recipients

  -- From DATA on, for a message with a recipient that was accepted.
  unfoldable pub transfer : DeliveryResult → List ℕ → Talk DeliveryResult
  unfolding start_data send_body settle ignore_error quit
  transfer result body = do
    start_data
    send_body body
    final ← receive
    ignore_error quit
    give (settle result final)

  unfoldable pub finish : DeliveryResult → List ℕ → Talk DeliveryResult
  unfolding transfer ignore_error quit
  finish result body =
      if is_empty (successful_recipients result)
      then (do ignore_error quit; give result)
      else transfer result body

  -- `try_deliver_to` behind the connection.
  unfoldable pub converse : Text → List Text → List ℕ → Talk DeliveryResult
  unfolding require_success ehlo mail_from each_recipient finish
  converse sender recipients body = do
    greeting ← receive
    require_success SmtpStage.connect greeting
    capabilities ← ehlo
    mail_from sender (length body)
    result ← each_recipient (record (Outcome.new none) { connected = true }) recipients
    finish result body
