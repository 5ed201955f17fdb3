-- ===== src/Smtp/Response.antt =====
-- src/smtp/response.rs: the replies of the server and their wire format.
use Prim.Native.Nat.{ℕ, suc, ◌-◌}
use mathlib.Core.Path.{◌≡◌, refl}
use mathlib.Core.Bool.{false}
use mathlib.Core.List.{List, [], ◌∷◌, ◌++◌}
use my_mta.Prelude.{ltb, if◌then◌else◌, length, is_empty}
use my_mta.Prelude.Text.{Text, codes}
use my_mta.Prelude.Text.Numbers.{decimal}

pub record SmtpResponse : Type 0 where
  pub code : ℕ
  pub messages : List Text

abbrev pub crlf : Text
crlf = 13 ∷ 10 ∷ []

unfoldable pub new : ℕ → Text → SmtpResponse
new code message = record { code = code; messages = message ∷ [] }

-- The assertion of the source is the premise: a call proves that it has a line.
unfoldable pub multiline : ℕ → (lines : List Text) → is_empty lines ≡ false → SmtpResponse
multiline code lines asserted = record { code = code; messages = lines }

-- The loop of `to_wire`; `last` is the index of the last line.
unfoldable pub wire_lines : ℕ → ℕ → ℕ → List Text → Text
wire_lines code last i [] = []
wire_lines code last i (line ∷ lines) =
    (decimal code ++ ((if ltb i last then b'-' else b' ') ∷ (line ++ crlf)))
    ++ wire_lines code last (suc i) lines

-- With no line at all `len() - 1` overflows in the source (a panic where overflow is checked); every
-- constructor below gives a line.
unfoldable pub to_wire : SmtpResponse → Text
unfolding wire_lines
to_wire r = wire_lines r.code (length r.messages - 1) 0 r.messages

unfoldable pub greeting : Text → SmtpResponse
unfolding new
greeting hostname = new 220 (hostname ++ codes " ESMTP MyMTA Service ready")

unfoldable pub closing : Text → SmtpResponse
unfolding new
closing hostname = new 221 (codes "2.0.0 " ++ hostname ++ codes " closing connection")

unfoldable pub accepted : SmtpResponse
unfolding new
accepted = new 250 (codes "2.0.0 OK")

unfoldable pub ok_queued : Text → SmtpResponse
unfolding new
ok_queued queue_id = new 250 (codes "2.0.0 OK queued as " ++ queue_id)

unfoldable pub ehlo : Text → Text → ℕ → SmtpResponse
unfolding multiline
ehlo hostname client_name max_size =
    multiline 250
      ((hostname ++ codes " greets " ++ client_name)
        ∷ codes "PIPELINING"
        ∷ (codes "SIZE " ++ decimal max_size)
        ∷ codes "8BITMIME"
        ∷ codes "ENHANCEDSTATUSCODES"
        ∷ codes "HELP"
        ∷ [])
      refl

unfoldable pub start_data : SmtpResponse
unfolding new
start_data = new 354 (codes "Start mail input; end with <CRLF>.<CRLF>")

unfoldable pub command_unrecognized : Text → SmtpResponse
unfolding new
command_unrecognized detail = new 500 (codes "5.5.2 Error: command not recognized: " ++ detail)

unfoldable pub syntax_error : Text → SmtpResponse
unfolding new
syntax_error detail = new 501 (codes "5.5.4 " ++ detail)

unfoldable pub bad_sequence : Text → SmtpResponse
unfolding new
bad_sequence detail = new 503 (codes "5.5.1 " ++ detail)

unfoldable pub mailbox_unavailable : Text → SmtpResponse
unfolding new
mailbox_unavailable detail = new 550 (codes "5.1.1 " ++ detail)

unfoldable pub message_too_large : ℕ → SmtpResponse
unfolding new
message_too_large max =
    new 552 (codes "5.3.4 Message size exceeds maximum of " ++ decimal max ++ codes " bytes")

unfoldable pub too_many_recipients : ℕ → SmtpResponse
unfolding new
too_many_recipients max =
    new 452 (codes "4.5.3 Too many recipients (max " ++ decimal max ++ codes ")")

unfoldable pub invalid_address : Text → SmtpResponse
unfolding new
invalid_address detail = new 553 (codes "5.1.3 " ++ detail)

unfoldable pub help : SmtpResponse
unfolding multiline
help =
    multiline 214
      (codes "Commands supported:"
        ∷ codes "  EHLO HELO MAIL RCPT DATA QUIT RSET NOOP VRFY HELP"
        ∷ codes "For more info see RFC 5321"
        ∷ [])
      refl

unfoldable pub vrfy_ambiguous : SmtpResponse
unfolding new
vrfy_ambiguous = new 252 (codes "2.5.2 Cannot VRFY user; will accept message and attempt delivery")
