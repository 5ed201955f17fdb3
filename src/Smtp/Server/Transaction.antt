-- ===== src/Smtp/Server/Transaction.antt =====
-- One transaction of a client that waits for each reply, as `handle_connection` of
-- src/smtp/server.rs serves it.
pub mod Phases
pub mod Whole
use my_mta.Prelude.{
  ok, ◌==◌, ◌+◌, ℕ, ◌≤◌, ◌<◌, List, [], ◌∷◌, ◌++◌, append_assoc, append-nil, map, is_empty, length,
  length-append, Bool, true, false, some, ◌≡◌, refl, sym, ap, ◌∙◌, ◌⊎◌, inl, inr, arith, All,
  if◌then◌else◌,
}
use my_mta.Prelude.Text.{Text, codes, trim, as_bytes, ◌=ₜ◌}
use my_mta.Message.Envelope.{Envelope, add_recipient, stamp}
use my_mta.Smtp.Response
use my_mta.Smtp.Response.{SmtpResponse, accepted, crlf, ok_queued}
use my_mta.Smtp.Session.{
  Fresh, SmtpSession, DataResult, continue, process_command, feed_data_line, is_receiving_data,
  take_message_data,
}
use my_mta.Smtp.Session.State.{is_receiving, ready, mail_from, rcpt_to, receiving_data}
use my_mta.Smtp.Session.QueueId.{generate_queue_id}
use my_mta.Prelude.Text.Laws.{Lacks}
use my_mta.Smtp.Command.Address.{validate_email_address}
use my_mta.Smtp.Command.Sent.{ehlo_line, mail_from_line, rcpt_to_line}
use my_mta.Smtp.Session.Transaction.{
  process-ehlo_line, process-mail_from_line, process-rcpt_to_line, process-data_line,
}
use my_mta.Smtp.Session.DataPhase.{
  IsLine, stuff, stored, on_wire, feed_fits, rest_fits, stored_ne_nil,
}
use my_mta.Smtp.Server.{
  Connection, Input, receive, data_reply, command_reply, flush_if, stop_if, spool_message,
  final_data, handle_connection,
}

-- A connection that has answered every line, and has spooled nothing.
abbrev pub waiting : SmtpSession → List SmtpResponse → Connection
waiting s replies = record {
  session = s;
  pending = [];
  buffered = [];
  sent = replies;
  spooled = [];
  is_running = true;
}

-- A line behind which no further input is buffered.
abbrev pub awaited : Fresh → Text → Text → Input
awaited fresh uuid line = record {
  line = line;
  buffer_is_empty = true;
  fresh = fresh;
  message_uuid = uuid;
}

take_message :
    (s : SmtpSession)
    → is_empty s.data_buffer ≡ false
    → take_message_data s ≡ (record s { data_buffer = [] }, some s.data_buffer)
unfolding take_message_data
take_message s n = rw (take_message_data, n) refl

module _ (lossy : List ℕ → Text) (date : ℕ → Text) (fresh : Fresh) (uuid : Text) where
  -- A command that is answered while the session stays open.
  pub serve_command :
      (s t : SmtpSession) (replies : List SmtpResponse) (line : Text) (reply : SmtpResponse)
      (rest : List Input)
      → is_receiving_data s ≡ false
      → t.is_closing ≡ false
      → process_command s fresh (trim line) ≡ (t, reply)
      → handle_connection lossy date (waiting s replies) (awaited fresh uuid line ∷ rest)
        ≡ handle_connection lossy date (waiting t (replies ++ reply ∷ [])) rest
  unfolding handle_connection receive command_reply flush_if stop_if
  serve_command s t replies line reply rest e opened h =
      rw (handle_connection, receive, e, h, command_reply, opened) refl

  receive_data :
      (s : SmtpSession) (replies : List SmtpResponse) (line : Text)
      → is_receiving_data s ≡ true
      → receive lossy date (waiting s replies) (awaited fresh uuid line)
        ≡ data_reply lossy date
            (waiting s replies)
            (awaited fresh uuid line)
            (feed_data_line s line)
  unfolding receive
  receive_data s replies line e = rw (receive, e) refl

  -- The lines of a message that fits.
  pub serve_body :
      (lines : List Text) (s : SmtpSession) (replies : List SmtpResponse) (rest : List Input)
      → is_receiving_data s ≡ true
      → All IsLine lines
      → length (s.data_buffer ++ stored lines) ≤ s.max_message_size
      → handle_connection lossy date
          (waiting s replies)
          (map (awaited fresh uuid) (on_wire lines) ++ rest)
        ≡ handle_connection lossy date
            (waiting (record s { data_buffer = s.data_buffer ++ stored lines }) replies)
            rest
  unfolding handle_connection receive data_reply stored on_wire is_receiving_data
  serve_body [] s replies rest e _ fits = rw append-nil
  serve_body (line ∷ lines) s replies rest e (is_line, are_lines) fits =
      let grown = record s { data_buffer = s.data_buffer ++ (as_bytes line ++ crlf) } in
      let step : receive lossy date (waiting s replies) (awaited fresh uuid (stuff line ++ crlf))
          ≡ waiting grown replies =
        receive_data s replies (stuff line ++ crlf) e
        ∙ ap (data_reply lossy date (waiting s replies) (awaited fresh uuid (stuff line ++ crlf)))
            (feed_fits s line lines is_line fits) in
      ap (λ c. handle_connection lossy date c (map (awaited fresh uuid) (on_wire lines) ++ rest))
        step
      ∙ serve_body lines grown replies rest e are_lines
          (rest_fits s.max_message_size s.data_buffer line lines fits)
      ∙ ap (λ b. handle_connection lossy date (waiting (record s { data_buffer = b }) replies) rest)
          (append_assoc s.data_buffer _ (stored lines))

  -- The final dot.
  pub serve_dot :
      (s : SmtpSession) (replies : List SmtpResponse)
      → is_receiving_data s ≡ true
      → is_empty s.data_buffer ≡ false
      → handle_connection lossy date (waiting s replies) (awaited fresh uuid (codes ".\r\n") ∷ [])
        ≡ record (waiting (record s { state = ready; data_buffer = [] }) replies) {
          buffered = ok_queued s.envelope.id ∷ [];
          spooled =
              (
                s.envelope,
                final_data lossy date
                    (record s { state = ready; data_buffer = [] })
                    (awaited fresh uuid (codes ".\r\n"))
                    s.data_buffer,
              )
              ∷ [];
        }
  unfolding handle_connection data_reply spool_message feed_data_line ◌=ₜ◌
  serve_dot s replies e n =
      let input = awaited fresh uuid (codes ".\r\n") in
      receive_data s replies (codes ".\r\n") e
      ∙ ap
          (λ r.
            let c = spool_message lossy date (waiting s replies) input r in
            record c { buffered = c.buffered ++ ok_queued s.envelope.id ∷ [] })
          (take_message (record s { state = ready }) n)
