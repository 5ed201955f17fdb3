-- ===== src/Smtp/Server/Transaction/Phases.antt =====
-- The commands and the data of one message, as `handle_connection` of src/smtp/server.rs serves them.
use my_mta.Prelude.{
  ok, ◌==◌, ◌+◌, ℕ, ◌≤◌, ◌<◌, List, [], ◌∷◌, ◌++◌, append_assoc, append-nil, map, is_empty, length,
  length-append, false, ◌≡◌, refl, sym, ap, ◌∙◌, ◌⊎◌, inl, inr, arith, All,
}
use my_mta.Prelude.Text.{Text, codes, is_whitespace}
use my_mta.Message.Envelope.{reset, set_sender, add_recipient, stamp}
use my_mta.Smtp.Response
use my_mta.Smtp.Response.{SmtpResponse, accepted, crlf, ok_queued}
use my_mta.Smtp.Session.{Fresh, SmtpSession, is_receiving_data, greet}
use my_mta.Smtp.Session.State.{is_receiving, ready, mail_from, rcpt_to, receiving_data}
use my_mta.Smtp.Session.QueueId.{generate_queue_id}
use my_mta.Prelude.Text.Laws.{Lacks}
use my_mta.Smtp.Command.Address.{validate_email_address}
use my_mta.Smtp.Command.Sent.{ehlo_line, mail_from_line, rcpt_to_line, size_text}
use my_mta.Smtp.Session.Transaction.{
  process-ehlo_line, process-mail_from_line, process-rcpt_to_line, process-data_line,
}
use my_mta.Smtp.Session.DataPhase.{IsLine, stored, on_wire, stored_ne_nil}
use my_mta.Smtp.Server.{Input, final_data, handle_connection}
use my_mta.Prelude.Text.Numbers.{usize_max}
use my_mta.Smtp.Server.Transaction.{waiting, awaited, serve_command, serve_body, serve_dot}

-- A recipient that the server and its parser take.
abbrev pub IsRecipient : Text → Type 0
IsRecipient recipient =
    (is_empty recipient ≡ false)
    × (validate_email_address recipient ≡ ok tt)
    × Lacks (λ c. c == b'>') recipient

abbrev pub mailed : SmtpSession → Text → ℕ → SmtpSession
mailed s sender size = record s {
  envelope = set_sender s.envelope sender (size_text size ∷ []);
  state = mail_from;
}

abbrev pub addressed : SmtpSession → Text → SmtpSession
addressed s recipient = record s { envelope = add_recipient s.envelope recipient; state = rcpt_to }

-- `t` is `s` with these recipients.
abbrev pub Took : SmtpSession → List Text → SmtpSession → Type 0
Took s recipients t =
    (t.state ≡ rcpt_to)
    × (t.is_closing ≡ false)
    × (t.max_message_size ≡ s.max_message_size)
    × (t.envelope.sender ≡ s.envelope.sender)
    × (t.envelope.recipients ≡ s.envelope.recipients ++ recipients)

module _ (lossy : List ℕ → Text) (date : ℕ → Text) (fresh : Fresh) (uuid : Text) where
  serve_recipient :
      (s : SmtpSession) (recipient : Text) (replies : List SmtpResponse) (rest : List Input)
      → (s.state ≡ mail_from) ⊎ (s.state ≡ rcpt_to)
      → s.is_closing ≡ false
      → IsRecipient recipient
      → length s.envelope.recipients < s.max_recipients
      → handle_connection lossy date
          (waiting s replies)
          (awaited fresh uuid (rcpt_to_line recipient) ∷ rest)
        ≡ handle_connection lossy date
            (waiting (addressed s recipient) (replies ++ accepted ∷ []))
            rest
  unfolding is_receiving_data is_receiving
  serve_recipient s recipient replies rest e opened (n, valid, k) room =
      serve_command lossy date fresh uuid s (addressed s recipient) replies (rcpt_to_line recipient)
        accepted rest (elim e [ inl e1 ↦ rw e1 refl | inr e2 ↦ rw e2 refl ]) opened
        (process-rcpt_to_line s fresh recipient e n valid k room)

  -- More recipients, where there is room.
  pub serve_recipients :
      (recipients : List Text) (s : SmtpSession) (replies : List SmtpResponse) (rest : List Input)
      → s.state ≡ rcpt_to
      → s.is_closing ≡ false
      → All IsRecipient recipients
      → length s.envelope.recipients + length recipients ≤ s.max_recipients
      → (t : SmtpSession) × Took s recipients t
        × (handle_connection lossy date
              (waiting s replies)
              (map (awaited fresh uuid) (map rcpt_to_line recipients) ++ rest)
            ≡ handle_connection lossy date
                (waiting t (replies ++ map (λ r. accepted) recipients))
                rest)
  unfolding add_recipient
  serve_recipients [] s replies rest e opened _ room =
      (s, (e, opened, refl, refl, sym (append-nil s.envelope.recipients)), rw append-nil refl)
  serve_recipients (r ∷ rs) s replies rest e opened (h, hs) room =
      let (t, (e1, opened1, max1, sender1, rcpts1), served) =
        serve_recipients rs (addressed s r) (replies ++ accepted ∷ []) rest refl opened hs
          (omega (arith, length-append s.envelope.recipients (r ∷ []))) in
      (
        t,
        (e1, opened1, max1, sender1, rcpts1 ∙ append_assoc s.envelope.recipients (r ∷ []) rs),
        serve_recipient s r replies _ (inr e) opened h (omega arith)
            ∙ served
            ∙ ap (λ l. handle_connection lossy date (waiting t l) rest)
                (append_assoc replies (accepted ∷ []) (map (λ x. accepted) rs)),
      )

  -- The data phase of a session that has its recipients.
  pub serve_data :
      (t : SmtpSession) (line : Text) (lines : List Text) (replies : List SmtpResponse)
      → t.state ≡ rcpt_to
      → t.is_closing ≡ false
      → All IsLine (line ∷ lines)
      → length (stored (line ∷ lines)) ≤ t.max_message_size
      → let c = handle_connection lossy date (waiting t replies) (
          awaited fresh uuid (codes "DATA\r\n")
          ∷ (map (awaited fresh uuid) (on_wire (line ∷ lines))
              ++ awaited fresh uuid (codes ".\r\n") ∷ [])) in
        (c.sent ≡ replies ++ Response.start_data ∷ [])
        × (c.buffered ≡ ok_queued (generate_queue_id fresh.uuid) ∷ [])
        × (u : SmtpSession) × (u.envelope
            ≡ stamp t.envelope (generate_queue_id fresh.uuid) fresh.now)
        × (c.spooled
            ≡ (
              u.envelope,
              final_data lossy date u (awaited fresh uuid (codes ".\r\n")) (stored (line ∷ lines)),
            )
              ∷ [])
  unfolding is_receiving_data is_receiving stamp
  serve_data t line lines replies e opened are_lines fits =
      let started : SmtpSession = record t {
        envelope = stamp t.envelope (generate_queue_id fresh.uuid) fresh.now;
        data_buffer = [];
        state = receiving_data;
      } in
      let filled : SmtpSession = record started { data_buffer = stored (line ∷ lines) } in
      let replies' = replies ++ Response.start_data ∷ [] in
      let served =
        serve_command lossy date fresh uuid t started replies (codes "DATA\r\n") Response.start_data
          (map (awaited fresh uuid) (on_wire (line ∷ lines))
            ++ awaited fresh uuid (codes ".\r\n") ∷ [])
          (rw e refl) opened (process-data_line t fresh e)
        ∙ serve_body lossy date fresh uuid (line ∷ lines) started replies'
            (awaited fresh uuid (codes ".\r\n") ∷ []) refl are_lines fits
        ∙ serve_dot lossy date fresh uuid filled replies' refl (stored_ne_nil line lines) in
      (
        ap (λ c. c.sent) served,
        ap (λ c. c.buffered) served,
        record filled { state = ready; data_buffer = [] },
        refl,
        ap (λ c. c.spooled) served,
      )

  -- Up to the first recipient.
  pub serve_opening :
      (s : SmtpSession) (replies : List SmtpResponse) (host sender first : Text) (size : ℕ)
      (rest : List Input)
      → is_receiving_data s ≡ false
      → s.is_closing ≡ false
      → is_empty host ≡ false
      → Lacks is_whitespace host
      → validate_email_address sender ≡ ok tt
      → Lacks (λ c. c == b'>') sender
      → IsRecipient first
      → 1 ≤ s.max_recipients
      → size ≤ s.max_message_size
      → s.max_message_size ≤ usize_max
      → handle_connection lossy date (waiting s replies) (
          awaited fresh uuid (ehlo_line host)
          ∷ awaited fresh uuid (mail_from_line sender size)
          ∷ awaited fresh uuid (rcpt_to_line first)
          ∷ rest)
        ≡ handle_connection lossy date
            (waiting (addressed (mailed (greet s host) sender size) first) (
              replies
              ++ Response.ehlo s.hostname host s.max_message_size ∷ []
              ++ accepted ∷ []
              ++ accepted ∷ []))
            rest
  unfolding is_receiving_data is_receiving greet reset set_sender
  serve_opening s replies host sender first size rest e opened hn hw valid k r room fits top =
      let greeted = greet s host in
      let replies1 = replies ++ Response.ehlo s.hostname host s.max_message_size ∷ [] in
      serve_command lossy date fresh uuid s greeted replies (ehlo_line host)
        (Response.ehlo s.hostname host s.max_message_size) _ e opened
        (process-ehlo_line s fresh host hn hw)
      ∙ serve_command lossy date fresh uuid greeted (mailed greeted sender size) replies1
          (mail_from_line sender size) accepted _ refl opened
          (process-mail_from_line greeted fresh sender size refl valid k fits (omega arith))
      ∙ serve_recipient (mailed greeted sender size) first (replies1 ++ accepted ∷ []) rest
          (inl refl) opened r (omega arith)
