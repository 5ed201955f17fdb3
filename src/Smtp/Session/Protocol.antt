-- ===== src/Smtp/Session/Protocol.antt =====
-- Which commands the state machine accepts, and what a refusal leaves.
use Prim.Native.Nat.{◌≤◌, ◌<◌}
use mathlib.Core.Path.{◌≡◌, refl}
use mathlib.Core.Logic.{◌↔◌, inl, inr}
use mathlib.Core.List.{[], ◌∷◌, ◌++◌}
use native.Mathlib.Omega.{arith}
use my_mta.Prelude.{length, Result-cases, ok}
use my_mta.Prelude.Text.{Text, codes, ◌=ₜ◌}
use my_mta.Smtp.Command.Address.{ParseError, empty_command}
use my_mta.Smtp.Command.{SmtpCommand, start_data, parse}
use my_mta.Smtp.Session.State.{rcpt_to}
use my_mta.Smtp.Session.{
  Fresh, SmtpSession, handle_command, process_command, feed_data_line, refusal,
}

handled_code :
    (s : SmtpSession) (fresh : Fresh) (c : SmtpCommand)
    → ((handle_command s fresh c).1.code ≡ 354) ↔ ((c ≡ start_data) × (s.state ≡ rcpt_to))
unfolding handle_command
handled_code s fresh start_data = ground arith
handled_code s fresh (SmtpCommand.mail_from a ps) = ground arith
handled_code s fresh (SmtpCommand.rcpt_to a ps) = ground arith
handled_code s fresh _ = ground arith

handled_refusal :
    (s : SmtpSession) (fresh : Fresh) (c : SmtpCommand)
    → 400 ≤ (handle_command s fresh c).1.code
    → (handle_command s fresh c).0 ≡ s
unfolding handle_command
handled_refusal s fresh start_data h = ground arith
handled_refusal s fresh _ h = ground arith

refusal_code : (e : ParseError) → (500 ≤ (refusal e).code) × ((refusal e).code ≤ 553)
unfolding refusal
refusal_code empty_command = omega arith
refusal_code _ = omega arith

-- A command line is answered 354 exactly if it is DATA and a recipient has been accepted.
pub start_data_iff :
    (s : SmtpSession) (fresh : Fresh) (line : Text)
    → ((process_command s fresh line).1.code ≡ 354)
      ↔ ((parse line ≡ ok start_data) × (s.state ≡ rcpt_to))
unfolding process_command
start_data_iff s fresh line = elim (Result-cases (parse line)) [
  | inl (c, e) ↦ rw (e, process_command) (ground (arith, handled_code s fresh c))
  | inr (x, e) ↦ rw (e, process_command) (ground (arith, refusal_code x))
]

-- A command line that is answered with a code from 400 up leaves the whole session as it was.
pub refused_keeps_session :
    (s : SmtpSession) (fresh : Fresh) (line : Text)
    → 400 ≤ (process_command s fresh line).1.code
    → (process_command s fresh line).0 ≡ s
unfolding process_command
refused_keeps_session s fresh line = elim (Result-cases (parse line)) [
  | inl (c, e) ↦ rw (e, process_command) (handled_refusal s fresh c)
  | inr (x, e) ↦ rw (e, process_command) (λ h. refl)
]

-- Once a message is complete, the recipients stay in the envelope: where the limit leaves room,
-- MAIL and RCPT on the same connection add the new recipient to those of the message before.
pub second_transaction :
    (s : SmtpSession) (f g : Fresh) (sender rcpt : Text)
    → length s.envelope.recipients < s.max_recipients
    → let s1 = (feed_data_line s (codes ".\r\n")).0 in
      let s2 = (handle_command s1 f (SmtpCommand.mail_from sender [])).0 in
      (handle_command s2 g (SmtpCommand.rcpt_to rcpt [])).0.envelope.recipients
      ≡ s.envelope.recipients ++ rcpt ∷ []
unfolding handle_command feed_data_line ◌=ₜ◌
second_transaction s f g sender rcpt h = ground arith
