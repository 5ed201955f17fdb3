-- ===== src/Smtp/Session/Transaction.antt =====
-- One transaction with a client: what the session makes of the lines EHLO, MAIL FROM, RCPT TO and DATA
-- as src/delivery/client.rs writes them.
use my_mta.Prelude.{
  ℕ, ◌≤◌, ◌<◌, [], ◌∷◌, is_empty, length, false, ◌==◌, ◌≡◌, refl, ◌⊎◌, inl, inr, arith, ok,
}
use my_mta.Prelude.Text.{Text, codes, trim, is_whitespace, starts_with}
use my_mta.Prelude.Text.Laws.{Lacks}
use my_mta.Prelude.Text.Numbers.{usize_max}
use my_mta.Prelude.Text.Numbers.Decimal.{parse_uint-decimal}
use my_mta.Message.Envelope.{set_sender, add_recipient, stamp}
use my_mta.Smtp.Response
use my_mta.Smtp.Response.{SmtpResponse, accepted}
use my_mta.Smtp.Command.Address.{validate_email_address}
use my_mta.Smtp.Command.Sent.{
  ehlo_line, mail_from_line, rcpt_to_line, size_text, parse-ehlo_line, parse-mail_from_line,
  parse-rcpt_to_line, parse_data_line, parse-trim,
}
use my_mta.Smtp.Session.State.{ready, mail_from, rcpt_to, receiving_data}
use my_mta.Smtp.Session.QueueId.{generate_queue_id}
use my_mta.Smtp.Session.{
  Fresh, SmtpSession, greet, process_command, handle_command, size_exceeds, announced_size,
}

pub process-ehlo_line :
    (s : SmtpSession) (fresh : Fresh) (host : Text)
    → is_empty host ≡ false
    → Lacks is_whitespace host
    → process_command s fresh (trim (ehlo_line host))
      ≡ (greet s host, Response.ehlo s.hostname host s.max_message_size)
unfolding process_command handle_command
process-ehlo_line s fresh host n k =
    rw (process_command, parse-trim (ehlo_line host), parse-ehlo_line host n k) refl

-- The announced size is read as it was written, and is refused only beyond the limit.
size_exceeds-size_text :
    (max size : ℕ) → size ≤ max → size ≤ usize_max → size_exceeds max (size_text size ∷ []) ≡ false
unfolding size_exceeds announced_size starts_with
size_exceeds-size_text max size fits top =
    rw (size_exceeds, announced_size, parse_uint-decimal usize_max size top) (ground arith)

pub process-mail_from_line :
    (s : SmtpSession) (fresh : Fresh) (sender : Text) (size : ℕ)
    → s.state ≡ ready
    → validate_email_address sender ≡ ok tt
    → Lacks (λ c. c == b'>') sender
    → size ≤ s.max_message_size
    → size ≤ usize_max
    → process_command s fresh (trim (mail_from_line sender size)) ≡ (
      record s { envelope = set_sender s.envelope sender (size_text size ∷ []); state = mail_from },
      accepted,
    )
unfolding process_command handle_command
process-mail_from_line s fresh sender size e valid k fits top =
    rw
      (
        process_command,
        parse-trim (mail_from_line sender size),
        parse-mail_from_line sender size valid k,
        handle_command,
        e,
        size_exceeds-size_text s.max_message_size size fits top,
      )
      refl

pub process-rcpt_to_line :
    (s : SmtpSession) (fresh : Fresh) (recipient : Text)
    → (s.state ≡ mail_from) ⊎ (s.state ≡ rcpt_to)
    → is_empty recipient ≡ false
    → validate_email_address recipient ≡ ok tt
    → Lacks (λ c. c == b'>') recipient
    → length s.envelope.recipients < s.max_recipients
    → process_command s fresh (trim (rcpt_to_line recipient))
      ≡ (record s { envelope = add_recipient s.envelope recipient; state = rcpt_to }, accepted)
unfolding process_command handle_command
process-rcpt_to_line s fresh recipient e n valid k room =
    rw
      (process_command, parse-trim (rcpt_to_line recipient), parse-rcpt_to_line recipient valid n k)
      (elim e [
        | inl e1 ↦ rw (handle_command, e1) (ground arith)
        | inr e2 ↦ rw (handle_command, e2) (ground arith)
      ])

pub process-data_line :
    (s : SmtpSession) (fresh : Fresh)
    → s.state ≡ rcpt_to
    → process_command s fresh (trim (codes "DATA\r\n")) ≡ (
      record s {
        envelope = stamp s.envelope (generate_queue_id fresh.uuid) fresh.now;
        data_buffer = [];
        state = receiving_data;
      },
      Response.start_data,
    )
unfolding process_command handle_command
process-data_line s fresh e =
    rw (process_command, parse-trim (codes "DATA\r\n"), parse_data_line, handle_command, e) refl
