-- ===== src/Tests/Interop.antt =====
-- A message of two lines for two recipients, from src/delivery/client.rs to src/smtp/server.rs.
use my_mta.Prelude.{◌++◌, true, false, none, ℕ, List, [], ◌∷◌, map, refl, arith, All, ◌≡◌, ◌==◌}
use my_mta.Prelude.Text.{
  Text, codes, as_bytes, is_whitespace, rsplit_once, len, split, ends_with_char,
  is_ascii_alphanumeric, starts_with,
}
use my_mta.Prelude.Text.Laws.{Lacks, Lacks-any}
use my_mta.Delivery.Client.Reading
use my_mta.Delivery.Client.Body.{body_on_wire}
use my_mta.Delivery.Client.Exchange.Silence.{commands}
use my_mta.Delivery.Client.Exchange.Completion.{taken, converse-completes}
use my_mta.Smtp.Response.{SmtpResponse, greeting, ok_queued}
use my_mta.Smtp.Command.Address.{validate_email_address}
use my_mta.Smtp.Session
use my_mta.Smtp.Session.{Fresh, SmtpSession}
use my_mta.Smtp.Session.State.{is_receiving}
use my_mta.Smtp.Session.QueueId.{generate_queue_id}
use my_mta.Smtp.Session.DataPhase.{stored}
use my_mta.Smtp.Server.{accept, handle_connection, final_data}
use my_mta.Smtp.Server.Transaction.{waiting, awaited}
use my_mta.Smtp.Server.Transaction.Phases.{IsRecipient}
use my_mta.Smtp.Server.Transaction.Whole.{transaction_lines, transaction_replies, serve_transaction}
use my_mta.Delivery.Error.{data_command, timeout}
use my_mta.Delivery.Connector.{gives, default_config, read_times_out, fails}
use my_mta.Delivery.Client.Body.Relay.{flat}
use my_mta.Delivery.Client.Dialogue.{converse}
use my_mta.Delivery.Client.Exchange.{peer, heard_all, IsTaken}
use my_mta.Interop.{IsHost, delivery_stalls}
use my_mta.Tests.Utf8.{decode, decode-as_bytes}

abbrev date : ℕ → Text
date n = codes "today"

abbrev fresh : Fresh
fresh = record { uuid = 1 ∷ 2 ∷ 3 ∷ []; now = 7 }

abbrev sender : Text
sender = codes "a@b.com"

abbrev recipients : List Text
recipients = codes "c@d.org" ∷ codes "e@d.org" ∷ []

abbrev lines : List Text
lines = codes ".Hi" ∷ codes "x" ∷ []

abbrev session : SmtpSession
session = Session.new (codes "p") (codes "mx") 100 2 0

mx-IsHost : IsHost (codes "mx")
unfolding is_whitespace
mx-IsHost = (refl, Lacks-any is_whitespace (codes "mx") refl)

localhost-IsHost : IsHost (codes "localhost")
unfolding is_whitespace
localhost-IsHost = (refl, Lacks-any is_whitespace (codes "localhost") refl)

recipients-IsRecipient : All IsRecipient recipients
unfolding validate_email_address rsplit_once len split ends_with_char is_ascii_alphanumeric
    starts_with
recipients-IsRecipient = (
  (refl, refl, Lacks-any (λ c. c == b'>') (codes "c@d.org") refl),
  ((refl, refl, Lacks-any (λ c. c == b'>') (codes "e@d.org") refl), tt),
)

serve_transaction_example :
    let c = handle_connection decode date (waiting session (greeting (codes "mx") ∷ [])) (
      map
        (awaited fresh (codes "u"))
        (transaction_lines (codes "localhost") sender recipients lines)) in
    (c.sent ≡ greeting (codes "mx") ∷ transaction_replies session (codes "localhost") recipients)
    × (c.buffered ≡ ok_queued (generate_queue_id fresh.uuid) ∷ [])
    × (u : SmtpSession) × (c.spooled
        ≡ (
          u.envelope,
          final_data decode date u (awaited fresh (codes "u") (codes ".\r\n")) (stored lines),
        )
          ∷ [])
    × (u.envelope.sender ≡ sender)
    × (u.envelope.recipients ≡ recipients)
unfolding Session.new Session.is_receiving_data is_receiving validate_email_address rsplit_once len
    split ends_with_char is_ascii_alphanumeric starts_with stored as_bytes is_whitespace
serve_transaction_example =
    serve_transaction decode date fresh (codes "u") session (greeting (codes "mx") ∷ [])
      (codes "localhost") sender (codes "c@d.org") (codes "e@d.org" ∷ []) (codes ".Hi")
      (codes "x" ∷ []) refl refl refl localhost-IsHost.1 refl
      (Lacks-any (λ c. c == b'>') sender refl) recipients-IsRecipient (omega arith) (ground arith)
      (omega arith) (omega arith)

delivery_stalls_example :
    let sent = transaction_lines (codes "localhost") sender recipients lines in
    let server =
      handle_connection decode date
        (accept (codes "p") (codes "mx") 100 2 0)
        (map (awaited fresh (codes "u")) sent) in
    (converse decode default_config sender recipients
        (stored lines)
        (peer (heard_all server.sent (read_times_out ∷ [])) [])
      ≡ (peer [] (as_bytes (flat sent)), fails (timeout data_command 60)))
    × (server.buffered ≡ ok_queued (generate_queue_id fresh.uuid) ∷ [])
    × (u : SmtpSession) × (server.spooled
        ≡ (
          u.envelope,
          final_data decode date u (awaited fresh (codes "u") (codes ".\r\n")) (stored lines),
        )
          ∷ [])
    × (u.envelope.sender ≡ sender)
    × (u.envelope.recipients ≡ recipients)
unfolding validate_email_address rsplit_once len split ends_with_char is_ascii_alphanumeric
    starts_with stored as_bytes
delivery_stalls_example =
    delivery_stalls decode decode-as_bytes date fresh (codes "u") default_config (codes "p")
      (codes "mx") 100 2 0 sender (codes "c@d.org") (codes "e@d.org" ∷ []) (codes ".Hi")
      (codes "x" ∷ []) mx-IsHost localhost-IsHost refl (Lacks-any (λ c. c == b'>') sender refl)
      recipients-IsRecipient (omega arith) (ground arith) (omega arith) (omega arith)

abbrev reply : ℕ → SmtpResponse
reply code = record { code = code; messages = codes "x" ∷ [] }

x-IsLine : Lacks (λ c. c == 10) (codes "x")
x-IsLine = Lacks-any (λ c. c == 10) (codes "x") refl

reply_250-IsTaken : IsTaken (reply 250)
reply_250-IsTaken = ((omega arith, omega arith, refl, (x-IsLine, tt)), refl)

converse-completes_example :
    converse decode default_config sender recipients (codes "Hi\r\n") (
      peer
        (heard_all
          (reply 220
            ∷ reply 250
            ∷ reply 250
            ∷ reply 250
            ∷ reply 250
            ∷ reply 354
            ∷ reply 250
            ∷ reply 221
            ∷ [])
          [])
        [])
    ≡ (
      peer [] (
          as_bytes (flat (commands default_config sender recipients (codes "Hi\r\n")))
          ++ body_on_wire (codes "Hi\r\n")
          ++ as_bytes (codes "QUIT\r\n")),
      gives (record {
        recipients = taken recipients;
        connected = true;
        tls_used = false;
        mx_server = none;
      }),
    )
unfolding Reading.is_success
converse-completes_example =
    converse-completes decode decode-as_bytes default_config (reply 220) (reply 250) (reply 250)
      (reply 250 ∷ reply 250 ∷ []) (reply 354) (reply 250) (reply 221) sender (codes "c@d.org")
      (codes "e@d.org" ∷ []) (codes "Hi\r\n") [] (omega arith, omega arith, refl, (x-IsLine, tt))
      refl (omega arith, omega arith, refl, (x-IsLine, tt)) refl reply_250-IsTaken
      (reply_250-IsTaken, (reply_250-IsTaken, tt)) (omega arith, omega arith, refl, (x-IsLine, tt))
      refl (omega arith, omega arith, refl, (x-IsLine, tt)) refl
      (omega arith, omega arith, refl, (x-IsLine, tt))
