-- ===== src/Interop.antt =====
-- src/delivery/client.rs and src/smtp/server.rs together: a message from one instance of the program
-- to another.
pub mod Smuggled
use my_mta.Prelude.{
  ℕ, ◌≤◌, List, [], ◌∷◌, ◌++◌, map, is_empty, length, false, ◌==◌, ◌≡◌, refl, sym, ap, ◌∙◌, arith,
  append_assoc, All, All-append, any, ok,
}
use my_mta.Prelude.Text.{Text, codes, as_bytes, is_whitespace}
use my_mta.Prelude.Text.Bytes.{as_bytes-append}
use my_mta.Delivery.Client.Body.{body_on_wire}
use my_mta.Smtp.Session.{is_receiving_data}
use my_mta.Smtp.Session.State.{is_receiving}
use my_mta.Smtp.Command.Sent.{ehlo_line, mail_from_line, rcpt_to_line}
use my_mta.Prelude.Text.Laws.{Lacks, Lacks-any}
use my_mta.Prelude.Text.Numbers.{usize_max, decimal}
use my_mta.Prelude.Text.Numbers.Decimal.{IsDigit, decimal-IsDigit}
use my_mta.Smtp.Response
use my_mta.Smtp.Response.{SmtpResponse, greeting, ok_queued}
use my_mta.Smtp.Command.Address.{validate_email_address}
use my_mta.Smtp.Session
use my_mta.Smtp.Session.{Fresh, SmtpSession}
use my_mta.Smtp.Session.QueueId.{generate_queue_id}
use my_mta.Smtp.Session.DataPhase.{IsLine, stored, on_wire}
use my_mta.Smtp.Server.{accept, handle_connection, final_data}
use my_mta.Smtp.Server.Transaction.{awaited}
use my_mta.Smtp.Server.Transaction.Phases.{IsRecipient}
use my_mta.Smtp.Server.Transaction.Whole.{transaction_lines, serve_transaction}
use my_mta.Delivery.Error.{data_command, timeout}
use my_mta.Delivery.Connector.{ConnectionConfig, as_secs, read_times_out, fails}
use my_mta.Delivery.Client.Body.Relay.{flat, body_on_wire-stored}
use my_mta.Delivery.Client.Dialogue.{converse}
use my_mta.Delivery.Client.Exchange.{peer, heard_all, IsReply}
use my_mta.Delivery.Client.Exchange.Silence.{commands, converse-silence}
use my_mta.Delivery.Client.Exchange.Opening.{flat-append}

-- A host name, as it stands in a command and in a reply.
abbrev pub IsHost : Text → Type 0
IsHost host = (is_empty host ≡ false) × Lacks is_whitespace host

abbrev NoFeed : Text → Type 0
NoFeed = Lacks (λ c. c == 10)

word-NoFeed : (s : Text) → Lacks is_whitespace s → NoFeed s
unfolding is_whitespace
word-NoFeed [] h = tt
word-NoFeed (c ∷ s) (h, hs) = (ground arith, word-NoFeed s hs)

digits-NoFeed : (s : Text) → All IsDigit s → NoFeed s
digits-NoFeed [] h = tt
digits-NoFeed (c ∷ s) (h, hs) = (ground arith, digits-NoFeed s hs)

literal : (s : Text) → any (λ c. c == 10) s ≡ false → NoFeed s
literal s = Lacks-any (λ c. c == 10) s

joined : (s t : Text) → NoFeed s → NoFeed t → NoFeed (s ++ t)
joined = All-append (λ c. (c == 10) ≡ false)

greeting-IsReply : (host : Text) → IsHost host → IsReply (greeting host)
unfolding greeting Response.new
greeting-IsReply host (n, k) = (
  omega arith,
  omega arith,
  refl,
  (
    joined host (codes " ESMTP MyMTA Service ready") (word-NoFeed host k)
        (literal (codes " ESMTP MyMTA Service ready") refl),
    tt,
  ),
)

ehlo-IsReply :
    (hostname host : Text) (max : ℕ)
    → IsHost hostname
    → IsHost host
    → IsReply (Response.ehlo hostname host max)
unfolding Response.ehlo Response.multiline
ehlo-IsReply hostname host max (n, k) (n', k') = (
  omega arith,
  omega arith,
  refl,
  (
    joined (hostname ++ codes " greets ") host
        (joined hostname (codes " greets ") (word-NoFeed hostname k)
          (literal (codes " greets ") refl))
        (word-NoFeed host k'),
    (
      literal (codes "PIPELINING") refl,
      (
        joined (codes "SIZE ") (decimal max) (literal (codes "SIZE ") refl)
            (digits-NoFeed _ (decimal-IsDigit max)),
        (
          literal (codes "8BITMIME") refl,
          (literal (codes "ENHANCEDSTATUSCODES") refl, (literal (codes "HELP") refl, tt)),
        ),
      ),
    ),
  ),
)

-- What the client sends for a stored message is what the server reads.
sent_is_read :
    (config : ConnectionConfig) (sender : Text) (recipients lines : List Text)
    → All IsLine lines
    → as_bytes (flat (commands config sender recipients (stored lines)))
        ++ body_on_wire (stored lines)
      ≡ as_bytes (flat (transaction_lines config.local_hostname sender recipients lines))
sent_is_read config sender recipients lines are_lines =
    let front = commands config sender recipients (stored lines) in
    let wire = on_wire lines ++ codes ".\r\n" ∷ [] in
    ap (λ b. as_bytes (flat front) ++ b)
      (body_on_wire-stored lines are_lines
        ∙ ap as_bytes (sym (flat-append (on_wire lines) (codes ".\r\n" ∷ []))))
    ∙ sym (as_bytes-append (flat front) (flat wire))
    ∙ ap as_bytes (sym (flat-append front wire))
    ∙ ap
        (λ l. as_bytes (
          flat
            (ehlo_line config.local_hostname ∷ mail_from_line sender (length (stored lines)) ∷ l)))
        (append_assoc (map rcpt_to_line recipients) (codes "DATA\r\n" ∷ []) wire)

module _ (lossy : List ℕ → Text) (faithful : (t : Text) → lossy (as_bytes t) ≡ t) (date : ℕ → Text)
    (fresh : Fresh) (uuid : Text) (config : ConnectionConfig) where
  -- A delivery from one instance of the program to another fails although it succeeds. Let the host
  -- names have no white space, the sender and the recipients be valid and have no `>`, let there be at
  -- least one recipient and no more than the server takes, and a message of at least one line within
  -- the server's limit. Let the server serve what the client sends, and let the client hear every
  -- reply that the server has flushed, and wait for the next. Then the client sends the commands and
  -- the whole message, and its delivery fails with a timeout, while the server has spooled the
  -- message, with its sender, its recipients and its lines, and holds the final reply in its write
  -- buffer.
  pub delivery_stalls :
      (address hostname : Text) (max_message_size max_recipients now : ℕ) (sender first : Text)
      (recipients : List Text) (line : Text) (lines : List Text)
      → IsHost hostname
      → IsHost config.local_hostname
      → validate_email_address sender ≡ ok tt
      → Lacks (λ c. c == b'>') sender
      → All IsRecipient (first ∷ recipients)
      → length (first ∷ recipients) ≤ max_recipients
      → All IsLine (line ∷ lines)
      → length (stored (line ∷ lines)) ≤ max_message_size
      → max_message_size ≤ usize_max
      → let sent =
          transaction_lines config.local_hostname sender (first ∷ recipients) (line ∷ lines) in
        let server =
          handle_connection lossy date
            (accept address hostname max_message_size max_recipients now)
            (map (awaited fresh uuid) sent) in
        (converse lossy config sender
            (first ∷ recipients)
            (stored (line ∷ lines))
            (peer (heard_all server.sent (read_times_out ∷ [])) [])
          ≡ (
            peer [] (as_bytes (flat sent)),
            fails (timeout data_command (as_secs config.command_timeout)),
          ))
        × (server.buffered ≡ ok_queued (generate_queue_id fresh.uuid) ∷ [])
        × (u : SmtpSession) × (server.spooled
            ≡ (
              u.envelope,
              final_data lossy date u (awaited fresh uuid (codes ".\r\n")) (stored (line ∷ lines)),
            )
              ∷ [])
        × (u.envelope.sender ≡ sender)
        × (u.envelope.recipients ≡ first ∷ recipients)
  unfolding accept Session.new is_receiving_data is_receiving greeting Response.ehlo
  delivery_stalls address hostname max_message_size max_recipients now sender first recipients line
        lines host1 host2 valid k rs room are_lines fits top =
      let (sent, buffered, u, spooled, from, to) =
        serve_transaction lossy date fresh uuid
          (Session.new address hostname max_message_size max_recipients now)
          (greeting hostname ∷ []) config.local_hostname sender first recipients line lines refl
          refl host2.0 host2.1 valid k rs room are_lines fits top in
      (
        ap
              (λ replies.
                converse lossy config sender (first ∷ recipients) (stored (line ∷ lines))
                  (peer (heard_all replies (read_times_out ∷ [])) []))
              sent
            ∙ converse-silence lossy faithful config (greeting hostname)
                (Response.ehlo hostname config.local_hostname max_message_size) sender first
                recipients (stored (line ∷ lines)) [] (greeting-IsReply hostname host1) refl
                (ehlo-IsReply hostname config.local_hostname max_message_size host1 host2) refl
            ∙ ap (λ b. (peer [] b, fails (timeout data_command (as_secs config.command_timeout))))
                (sent_is_read config sender (first ∷ recipients) (line ∷ lines) are_lines),
        buffered,
        u,
        spooled,
        from,
        to,
      )
