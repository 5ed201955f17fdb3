-- ===== src/Tests/Session.antt =====
-- Sessions of src/smtp/session.rs on concrete lines.
use mathlib.Core.Path.{◌≡◌, refl}
use mathlib.Core.Logic.{◌↔◌}
use mathlib.Core.Option.{some}
use mathlib.Core.List.{[], ◌∷◌, ◌++◌}
use native.Mathlib.Omega.{arith}
use my_mta.Prelude.{ok}
use my_mta.Prelude.Text.{codes, trim, ◌=ₜ◌, to_ascii_uppercase, split_once, as_bytes}
use my_mta.Message.Envelope
use my_mta.Smtp.Response.{ok_queued}
use my_mta.Smtp.Command.{SmtpCommand, parse}
use my_mta.Smtp.Session.State.{ready, rcpt_to, receiving_data}
use my_mta.Smtp.Session
use my_mta.Smtp.Session.{
  SmtpSession, Fresh, done, process_command, handle_command, feed_data_line, take_message_data,
}
use my_mta.Smtp.Session.DataPhase.{feed_all, on_wire, stored, message_roundtrip}
use my_mta.Smtp.Session.Protocol.{start_data_iff, refused_keeps_session, second_transaction}

abbrev fresh : Fresh
fresh = record { uuid = 1 ∷ 2 ∷ 3 ∷ 4 ∷ 5 ∷ 6 ∷ []; now = 7 }

abbrev connected : SmtpSession
connected = Session.new (codes "p") (codes "mx") 100 2 0

abbrev receiving : SmtpSession
receiving = record connected { state = receiving_data }

message_roundtrip_example :
    let t =
      feed_data_line
        (feed_all receiving (on_wire (codes ".dot" ∷ codes "x" ∷ [])))
        (codes ".\r\n") in
    (t.1 ≡ done (ok_queued receiving.envelope.id))
    × (t.0.state ≡ ready)
    × (t.0.envelope ≡ receiving.envelope)
    × ((take_message_data t.0).1 ≡ some (stored (codes ".dot" ∷ codes "x" ∷ [])))
unfolding Session.new Envelope.new stored as_bytes
message_roundtrip_example =
    message_roundtrip receiving (codes ".dot") (codes "x" ∷ []) refl
      ((refl, (refl, (refl, (refl, tt)))), ((refl, tt), tt)) (omega arith)

start_data_iff_example :
    ((process_command connected fresh (codes "DATA")).1.code ≡ 354)
    ↔ ((parse (codes "DATA") ≡ ok SmtpCommand.start_data) × (connected.state ≡ rcpt_to))
start_data_iff_example = start_data_iff connected fresh (codes "DATA")

refused_keeps_session_example : (process_command connected fresh (codes "DATA")).0 ≡ connected
unfolding Session.new Envelope.new process_command handle_command parse trim ◌=ₜ◌ to_ascii_uppercase
    split_once
refused_keeps_session_example = refused_keeps_session connected fresh (codes "DATA") (omega arith)

second_transaction_example :
    let s1 = (feed_data_line receiving (codes ".\r\n")).0 in
    let s2 = (handle_command s1 fresh (SmtpCommand.mail_from (codes "a@b") [])).0 in
    (handle_command s2 fresh (SmtpCommand.rcpt_to (codes "c@d") [])).0.envelope.recipients
    ≡ receiving.envelope.recipients ++ codes "c@d" ∷ []
unfolding Session.new Envelope.new
second_transaction_example =
    second_transaction receiving fresh fresh (codes "a@b") (codes "c@d") (omega arith)
