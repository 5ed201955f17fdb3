-- ===== src/Smtp/Session/Invariant.antt =====
-- The invariant of a session, and that each operation keeps it.
use Prim.Native.Nat.{ℕ, ◌≤◌, ◌<◌}
use mathlib.Core.Path.{◌≡◌, refl}
use mathlib.Core.Logic.{inl, inr}
use mathlib.Core.Bool.{Bool, true}
use mathlib.Core.List.{List, [], ◌∷◌}
use native.Mathlib.Omega.{arith}
use my_mta.Prelude.{length, length-append, All, All-append, ok, Result-cases}
use my_mta.Prelude.Text.{Text}
use my_mta.Smtp.Command.{SmtpCommand, ehlo, helo, start_data, quit, rset, parse}
use my_mta.Smtp.Command.Address.{validate_email_address}
use my_mta.Smtp.Command.Checked.{IsAddress, IsChecked, parse-IsChecked}
use my_mta.Smtp.Session.State.{SessionState, rcpt_to, receiving_data, closing}
use my_mta.Smtp.Session.{
  Fresh, SmtpSession, new, handle_command, process_command, feed_data_line, take_message_data,
  greet, accept_mail_from, accept_rcpt_to,
}

-- In which states a recipient has been accepted.
abbrev pub HasRecipient : SessionState → List Text → Type 0
HasRecipient rcpt_to recipients = 0 < length recipients
HasRecipient receiving_data recipients = 0 < length recipients
HasRecipient _ recipients = Unit {0}

abbrev pub IsOpen : SessionState → Bool → Type 0
IsOpen closing flag = flag ≡ true
IsOpen _ flag = Unit {0}

pub record IsValid (s : SmtpSession) : Type 0 where
  pub bounded : length s.envelope.recipients ≤ s.max_recipients
  pub small : length s.data_buffer ≤ s.max_message_size
  pub nonempty : HasRecipient s.state s.envelope.recipients
  pub sender : validate_email_address s.envelope.sender ≡ ok tt
  pub recipients : All IsAddress s.envelope.recipients
  pub flagged : IsOpen s.state s.is_closing

pub new-IsValid :
    (peer hostname : Text) (max_message_size max_recipients now : ℕ)
    → IsValid (new peer hostname max_message_size max_recipients now)
unfolding new validate_email_address
new-IsValid peer hostname max_message_size max_recipients now = record {
  bounded = omega arith;
  small = omega arith;
  nonempty = tt;
  sender = refl;
  recipients = tt;
  flagged = tt;
}

empty_sender : validate_email_address [] ≡ ok tt
unfolding validate_email_address
empty_sender = refl

greet-IsValid : (s : SmtpSession) (host : Text) → IsValid s → IsValid (greet s host)
unfolding greet
greet-IsValid s host v = record {
  bounded = omega arith;
  small = v.small;
  nonempty = tt;
  sender = empty_sender;
  recipients = tt;
  flagged = tt;
}

accept_mail_from-IsValid :
    (s : SmtpSession) (address : Text) (parameters : List Text)
    → IsValid s
    → validate_email_address address ≡ ok tt
    → IsValid (accept_mail_from s address parameters).0
unfolding accept_mail_from
accept_mail_from-IsValid s address parameters v e = ground arith

accept_rcpt_to-IsValid :
    (s : SmtpSession) (address : Text)
    → IsValid s
    → IsAddress address
    → IsValid (accept_rcpt_to s address).0
unfolding accept_rcpt_to
accept_rcpt_to-IsValid s address v h = ground (
  arith,
  length-append s.envelope.recipients (address ∷ []),
  All-append IsAddress s.envelope.recipients (address ∷ []) v.recipients (h, tt),
)

handle_command-IsValid :
    (s : SmtpSession) (fresh : Fresh) (c : SmtpCommand)
    → IsValid s
    → IsChecked c
    → IsValid (handle_command s fresh c).0
unfolding handle_command
handle_command-IsValid s fresh (ehlo host) v h = greet-IsValid s host v
handle_command-IsValid s fresh (helo host) v h = greet-IsValid s host v
handle_command-IsValid s fresh (SmtpCommand.mail_from address parameters) v h =
    ground (arith, accept_mail_from-IsValid s address parameters v h)
handle_command-IsValid s fresh (SmtpCommand.rcpt_to address parameters) v h =
    ground (arith, accept_rcpt_to-IsValid s address v h)
handle_command-IsValid s fresh start_data v h = ground arith
handle_command-IsValid s fresh quit v h = record {
  bounded = v.bounded;
  small = v.small;
  nonempty = tt;
  sender = v.sender;
  recipients = v.recipients;
  flagged = refl;
}
handle_command-IsValid s fresh rset v h = ground (arith, empty_sender)
handle_command-IsValid s fresh _ v h = v

-- A command line, accepted or refused, keeps the invariant.
pub process_command-IsValid :
    (s : SmtpSession) (fresh : Fresh) (line : Text)
    → IsValid s
    → IsValid (process_command s fresh line).0
unfolding process_command
process_command-IsValid s fresh line v = elim (Result-cases (parse line)) [
  | inl (c, e) ↦
      rw (e, process_command) (handle_command-IsValid s fresh c v (parse-IsChecked line c e))
  | inr (x, e) ↦ rw (e, process_command) v
]

pub feed_data_line-IsValid :
    (s : SmtpSession) (line : Text) → IsValid s → IsValid (feed_data_line s line).0
unfolding feed_data_line
feed_data_line-IsValid s line v = ground (arith, empty_sender)

pub take_message_data-IsValid : (s : SmtpSession) → IsValid s → IsValid (take_message_data s).0
unfolding take_message_data
take_message_data-IsValid s v = ground arith
