-- ===== src/Smtp/Session.antt =====
-- src/smtp/session.rs: the state machine of one SMTP connection. A method returns the new session
-- and its reply. What the source takes from the operating system, the bytes of a fresh UUID and the
-- time, is the argument `Fresh`.
pub mod State
pub mod QueueId
pub mod Invariant
pub mod Protocol
pub mod DataPhase
pub mod Transaction
use Prim.Native.Nat.{ℕ}
use mathlib.Core.Bool.{Bool, true, false, ◌||◌}
use mathlib.Core.Option.{Option, none, some}
use mathlib.Core.List.{List, [], ◌∷◌, ◌++◌}
use my_mta.Prelude.{ltb, leb, ◌==◌, if◌then◌else◌, drop, length, is_empty, Result, ok, err}
use my_mta.Prelude.Text.{Text, codes, ◌=ₜ◌, starts_with, trim_end_matches, as_bytes}
use my_mta.Prelude.Text.Numbers.{parse_uint, usize_max}
use my_mta.Message.Envelope
use my_mta.Message.Envelope.{Envelope, reset, set_sender, add_recipient, stamp, set_connection_info}
use my_mta.Smtp.Response
use my_mta.Smtp.Response.{
  SmtpResponse, accepted, ok_queued, bad_sequence, message_too_large, too_many_recipients,
  command_unrecognized, syntax_error, vrfy_ambiguous, crlf,
}
use my_mta.Smtp.Command.{SmtpCommand, ehlo, helo, start_data, quit, rset, noop, vrfy, help, parse}
use my_mta.Smtp.Command.Address.{
  ParseError, empty_command, unrecognized_command, invalid_syntax, invalid_address,
}
use State.{SessionState, connected, ready, mail_from, rcpt_to, receiving_data, closing}
use State.{is_connected, is_receiving}
use QueueId.{generate_queue_id}

pub record Fresh : Type 0 where
  pub uuid : List ℕ
  pub now : ℕ

pub data DataResult : Type 0 where
  continue : DataResult
  done error : SmtpResponse → DataResult

pub record SmtpSession : Type 0 where
  pub state : SessionState
  pub envelope : Envelope
  pub hostname : Text
  pub max_message_size : ℕ
  pub max_recipients : ℕ
  pub data_buffer : List ℕ
  pub is_closing : Bool

unfoldable pub new : Text → Text → ℕ → ℕ → ℕ → SmtpSession
unfolding Envelope.new set_connection_info
new peer hostname max_message_size max_recipients now = record {
  state = connected;
  envelope = set_connection_info (Envelope.new now) peer none;
  hostname = hostname;
  max_message_size = max_message_size;
  max_recipients = max_recipients;
  data_buffer = [];
  is_closing = false;
}

unfoldable pub is_receiving_data : SmtpSession → Bool
unfolding is_receiving
is_receiving_data s = is_receiving s.state

unfoldable pub take_message_data : SmtpSession → SmtpSession × Option (List ℕ)
take_message_data s =
    if is_empty s.data_buffer
    then (s, none)
    else (record s { data_buffer = [] }, some s.data_buffer)

-- `handle_ehlo` and `handle_helo` change the session alike.
unfoldable pub greet : SmtpSession → Text → SmtpSession
unfolding reset
greet s client_host = record s {
  envelope = record (reset s.envelope) { client_hostname = some client_host };
  state = ready;
}

handle_ehlo : SmtpSession → Text → SmtpSession × SmtpResponse
unfolding greet
handle_ehlo s client_host =
    (greet s client_host, Response.ehlo s.hostname client_host s.max_message_size)

handle_helo : SmtpSession → Text → SmtpSession × SmtpResponse
unfolding greet
handle_helo s client_host =
    (greet s client_host, Response.new 250 (s.hostname ++ codes " greets " ++ client_host))

-- What `SIZE=` announces, where the parameter is a number.
announced_size : Text → Option ℕ
announced_size param =
    if starts_with param (codes "SIZE=") then parse_uint usize_max (drop 5 param) else none

-- The loop over the parameters: does it return the refusal?
size_exceeds : ℕ → List Text → Bool
unfolding announced_size
size_exceeds max [] = false
size_exceeds max (param ∷ params) =
    (elim (announced_size param) [ none ↦ false | some size ↦ ltb max size ])
    || size_exceeds max params

accept_mail_from : SmtpSession → Text → List Text → SmtpSession × SmtpResponse
unfolding size_exceeds set_sender
accept_mail_from s address parameters =
    if size_exceeds s.max_message_size parameters
    then (s, message_too_large s.max_message_size)
    else (
      record s { envelope = set_sender s.envelope address parameters; state = mail_from },
      accepted,
    )

handle_mail_from : SmtpSession → Text → List Text → SmtpSession × SmtpResponse
unfolding accept_mail_from
handle_mail_from s address parameters = elim s.state [
  | ready ↦ accept_mail_from s address parameters
  | _ ↦ (s, bad_sequence (codes "MAIL FROM requires EHLO/HELO first"))
]

accept_rcpt_to : SmtpSession → Text → SmtpSession × SmtpResponse
unfolding add_recipient
accept_rcpt_to s address =
    if leb s.max_recipients (length s.envelope.recipients)
    then (s, too_many_recipients s.max_recipients)
    else (record s { envelope = add_recipient s.envelope address; state = rcpt_to }, accepted)

handle_rcpt_to : SmtpSession → Text → SmtpSession × SmtpResponse
unfolding accept_rcpt_to
handle_rcpt_to s address = elim s.state [
  | mail_from ↦ accept_rcpt_to s address
  | rcpt_to ↦ accept_rcpt_to s address
  | _ ↦ (s, bad_sequence (codes "RCPT TO requires MAIL FROM first"))
]

handle_data : SmtpSession → Fresh → SmtpSession × SmtpResponse
unfolding stamp
handle_data s fresh = elim s.state [
  | rcpt_to ↦ (
    record s {
      envelope = stamp s.envelope (generate_queue_id fresh.uuid) fresh.now;
      data_buffer = [];
      state = receiving_data;
    },
    Response.start_data,
  )
  | mail_from ↦ (s, bad_sequence (codes "DATA requires at least one RCPT TO"))
  | _ ↦ (s, bad_sequence (codes "DATA requires MAIL FROM and RCPT TO first"))
]

handle_quit : SmtpSession → SmtpSession × SmtpResponse
handle_quit s = (record s { is_closing = true; state = closing }, Response.closing s.hostname)

handle_rset : SmtpSession → SmtpSession × SmtpResponse
unfolding reset is_connected
handle_rset s = (
  record s {
    envelope = reset s.envelope;
    data_buffer = [];
    state = if is_connected s.state then s.state else ready;
  },
  accepted,
)

unfoldable pub handle_command : SmtpSession → Fresh → SmtpCommand → SmtpSession × SmtpResponse
unfolding handle_ehlo handle_helo handle_mail_from handle_rcpt_to handle_data handle_quit
    handle_rset Response.ehlo Response.new accepted bad_sequence message_too_large
    too_many_recipients Response.start_data Response.closing vrfy_ambiguous Response.help
handle_command s fresh (ehlo host) = handle_ehlo s host
handle_command s fresh (helo host) = handle_helo s host
handle_command s fresh (SmtpCommand.mail_from address parameters) =
    handle_mail_from s address parameters
handle_command s fresh (SmtpCommand.rcpt_to address parameters) = handle_rcpt_to s address
handle_command s fresh start_data = handle_data s fresh
handle_command s fresh quit = handle_quit s
handle_command s fresh rset = handle_rset s
handle_command s fresh noop = (s, accepted)
handle_command s fresh (vrfy argument) = (s, vrfy_ambiguous)
handle_command s fresh (help topic) = (s, Response.help)

-- The reply to a line that does not parse.
refusal : ParseError → SmtpResponse
unfolding Response.new command_unrecognized syntax_error Response.invalid_address
refusal empty_command = Response.new 500 (codes "5.5.2 Error: bad syntax")
refusal (unrecognized_command verb) = command_unrecognized verb
refusal (invalid_syntax message) = syntax_error message
refusal (invalid_address message) = Response.invalid_address message

unfoldable pub process_command : SmtpSession → Fresh → Text → SmtpSession × SmtpResponse
unfolding handle_command refusal
process_command s fresh line = elim (parse line) [
  | ok command ↦ handle_command s fresh command
  | err e ↦ (s, refusal e)
]

abbrev pub is_line_end : ℕ → Bool
is_line_end c = c == 13 || c == 10

-- A leading `..` loses one dot.
unfoldable pub unstuff : Text → Text
unstuff line = if starts_with line (codes "..") then drop 1 line else line

pub append_line : SmtpSession → Text → SmtpSession × DataResult
unfolding reset
append_line s line =
    let buffer = s.data_buffer ++ (as_bytes line ++ crlf) in
    if ltb s.max_message_size (length buffer)
    then (
      record s { data_buffer = []; state = ready; envelope = reset s.envelope },
      error (message_too_large s.max_message_size),
    )
    else (record s { data_buffer = buffer }, continue)

unfoldable pub feed_data_line : SmtpSession → Text → SmtpSession × DataResult
unfolding unstuff append_line trim_end_matches
feed_data_line s line =
    let trimmed = trim_end_matches is_line_end line in
    if trimmed =ₜ codes "."
    then (record s { state = ready }, done (ok_queued s.envelope.id))
    else append_line s (unstuff trimmed)
