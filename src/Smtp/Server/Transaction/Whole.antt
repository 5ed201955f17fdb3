-- ===== src/Smtp/Server/Transaction/Whole.antt =====
-- A whole message of a client that waits for each reply, as `handle_connection` of src/smtp/server.rs
-- serves it.
use my_mta.Prelude.{
  ok, ◌==◌, ℕ, ◌≤◌, List, [], ◌∷◌, ◌++◌, append_assoc, map, is_empty, length, false, ◌≡◌, refl, ap,
  ◌∙◌, arith, All,
}
use my_mta.Prelude.Text.{Text, codes, is_whitespace}
use my_mta.Message.Envelope.{reset, set_sender, add_recipient, stamp}
use my_mta.Smtp.Response
use my_mta.Smtp.Response.{SmtpResponse, accepted, crlf, ok_queued}
use my_mta.Smtp.Session.{Fresh, SmtpSession, is_receiving_data, greet}
use my_mta.Smtp.Session.State.{is_receiving}
use my_mta.Smtp.Session.QueueId.{generate_queue_id}
use my_mta.Prelude.Text.Laws.{Lacks}
use my_mta.Smtp.Command.Address.{validate_email_address}
use my_mta.Smtp.Command.Sent.{ehlo_line, mail_from_line, rcpt_to_line}
use my_mta.Smtp.Session.DataPhase.{IsLine, stored, on_wire}
use my_mta.Smtp.Server.{final_data, handle_connection}
use mathlib.Core.List.{map-append}
use my_mta.Prelude.Text.Numbers.{usize_max}
use my_mta.Smtp.Server.Transaction.{waiting, awaited}
use my_mta.Smtp.Server.Transaction.Phases.{
  IsRecipient, mailed, addressed, serve_recipients, serve_opening, serve_data,
}

-- The lines of one message of a client.
abbrev pub transaction_lines : Text → Text → List Text → List Text → List Text
transaction_lines host sender recipients lines =
    ehlo_line host
    ∷ mail_from_line sender (length (stored lines))
    ∷ (map rcpt_to_line recipients ++ (codes "DATA\r\n" ∷ (on_wire lines ++ codes ".\r\n" ∷ [])))

-- The replies that the client gets to them.
abbrev pub transaction_replies : SmtpSession → Text → List Text → List SmtpResponse
transaction_replies s host recipients =
    Response.ehlo s.hostname host s.max_message_size
    ∷ accepted
    ∷ (map (λ r. accepted) recipients ++ Response.start_data ∷ [])

module _ (lossy : List ℕ → Text) (date : ℕ → Text) (fresh : Fresh) (uuid : Text) where
  inputs_of :
      (host sender : Text) (recipients lines : List Text)
      → map (awaited fresh uuid) (transaction_lines host sender recipients lines)
        ≡ awaited fresh uuid (ehlo_line host)
          ∷ awaited fresh uuid (mail_from_line sender (length (stored lines)))
          ∷ (map (awaited fresh uuid) (map rcpt_to_line recipients)
              ++ (awaited fresh uuid (codes "DATA\r\n")
                  ∷ (map (awaited fresh uuid) (on_wire lines)
                      ++ awaited fresh uuid (codes ".\r\n") ∷ [])))
  inputs_of host sender recipients lines =
      ap
        (λ l.
          awaited fresh uuid (ehlo_line host)
          ∷ awaited fresh uuid (mail_from_line sender (length (stored lines)))
          ∷ l)
        (map-append (awaited fresh uuid) (map rcpt_to_line recipients) _
          ∙ ap
              (λ l.
                map (awaited fresh uuid) (map rcpt_to_line recipients)
                ++ (awaited fresh uuid (codes "DATA\r\n") ∷ l))
              (map-append (awaited fresh uuid) (on_wire lines) (codes ".\r\n" ∷ [])))

  -- A whole message is served. Let a session wait for a command, with room for the recipients and for
  -- the message, let the client's host name have no white space, let the sender and the recipients be
  -- valid and have no `>`, and let there be a recipient and a line. Then the commands are answered in
  -- order, the message is spooled once, for this sender and these recipients, with the data made of
  -- exactly these lines, and the reply to its end stays in the write buffer.
  pub serve_transaction :
      (s : SmtpSession) (replies : List SmtpResponse) (host sender first : Text)
      (recipients : List Text) (line : Text) (lines : List Text)
      → is_receiving_data s ≡ false
      → s.is_closing ≡ false
      → is_empty host ≡ false
      → Lacks is_whitespace host
      → validate_email_address sender ≡ ok tt
      → Lacks (λ c. c == b'>') sender
      → All IsRecipient (first ∷ recipients)
      → length (first ∷ recipients) ≤ s.max_recipients
      → All IsLine (line ∷ lines)
      → length (stored (line ∷ lines)) ≤ s.max_message_size
      → s.max_message_size ≤ usize_max
      → let c = handle_connection lossy date (waiting s replies) (
          map
            (awaited fresh uuid)
            (transaction_lines host sender (first ∷ recipients) (line ∷ lines))) in
        (c.sent ≡ replies ++ transaction_replies s host (first ∷ recipients))
        × (c.buffered ≡ ok_queued (generate_queue_id fresh.uuid) ∷ [])
        × (u : SmtpSession) × (c.spooled
            ≡ (
              u.envelope,
              final_data lossy date u (awaited fresh uuid (codes ".\r\n")) (stored (line ∷ lines)),
            )
              ∷ [])
        × (u.envelope.sender ≡ sender)
        × (u.envelope.recipients ≡ first ∷ recipients)
  unfolding is_receiving_data is_receiving greet reset set_sender add_recipient stamp
  serve_transaction s replies host sender first recipients line lines e opened hn hw valid k rs room
        are_lines fits top =
      let size = length (stored (line ∷ lines)) in
      let addressing = addressed (mailed (greet s host) sender size) first in
      let replies' =
        replies
        ++ Response.ehlo s.hostname host s.max_message_size ∷ []
        ++ accepted ∷ []
        ++ accepted ∷ [] in
      let body_inputs =
        awaited fresh uuid (codes "DATA\r\n")
        ∷ (map (awaited fresh uuid) (on_wire (line ∷ lines))
            ++ awaited fresh uuid (codes ".\r\n") ∷ []) in
      let (t, (state_t, opened_t, max_t, sender_t, rcpts_t), served) =
        serve_recipients lossy date fresh uuid recipients addressing replies' body_inputs refl
          opened rs.1 (omega arith) in
      let (sent_t, buffered_t, u, same_u, spooled_t) =
        serve_data lossy date fresh uuid t line lines (replies' ++ map (λ r. accepted) recipients)
          state_t opened_t are_lines (rw max_t fits) in
      let all_served =
        ap (handle_connection lossy date (waiting s replies))
          (inputs_of host sender (first ∷ recipients) (line ∷ lines))
        ∙ serve_opening lossy date fresh uuid s replies host sender first size
            (map (awaited fresh uuid) (map rcpt_to_line recipients) ++ body_inputs) e opened hn hw
            valid k rs.0 (omega arith) fits top
        ∙ served in
      (
        ap (λ c. c.sent) all_served ∙ sent_t ∙ simp append_assoc,
        ap (λ c. c.buffered) all_served ∙ buffered_t,
        u,
        ap (λ c. c.spooled) all_served ∙ spooled_t,
        ap (λ e. e.sender) same_u ∙ sender_t,
        ap (λ e. e.recipients) same_u ∙ rcpts_t,
      )
