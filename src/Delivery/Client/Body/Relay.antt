-- ===== src/Delivery/Client/Body/Relay.antt =====
-- From the client of src/delivery/client.rs to the session of src/smtp/session.rs: a message passes
-- unchanged.
use mathlib.Core.List.{reverse_aux}
use my_mta.Prelude.{
  ℕ, ◌≤◌, List, [], ◌∷◌, ◌++◌, append_assoc, length, ◌==◌, some, false, ◌≡◌, refl, sym, ap, ◌∙◌,
  arith, All, if◌then◌else◌,
}
use my_mta.Prelude.Text.{Text, codes, ◌=ₜ◌, starts_with, utf8, as_bytes}
use my_mta.Prelude.Text.Bytes.{as_bytes-append, as_bytes-Lacks_feed}
use my_mta.Prelude.Text.Laws.{Lacks}
use my_mta.Smtp.Response.{crlf}
use my_mta.Smtp.Session.{SmtpSession, is_line_end, feed_data_line, take_message_data}
use my_mta.Smtp.Session.DataPhase.{
  stuff, IsLine, stuff-IsLine, stuff-ne-dot, stored, on_wire, feed_all, message_roundtrip,
}
use my_mta.Delivery.Client.Body.{content, wire_line, wire_from, body_on_wire}

-- The texts one after another.
abbrev pub flat : List Text → Text
flat [] = []
flat (s ∷ ss) = s ++ flat ss

abbrev NoFeed : List ℕ → Type 0
NoFeed = Lacks (λ b. b == 10)

IsLine-NoFeed : (line : Text) → IsLine line → NoFeed line
unfolding is_line_end
IsLine-NoFeed [] h = tt
IsLine-NoFeed (c ∷ s) (h, hs) = (ground arith, IsLine-NoFeed s hs)

-- A dot is put in front of the bytes where it is put in front of the text.
bytes_dotted :
    (line : Text)
    → as_bytes (stuff line)
      ≡ (if starts_with (as_bytes line) (codes ".") then b'.' ∷ as_bytes line else as_bytes line)
unfolding as_bytes stuff starts_with utf8
bytes_dotted [] = refl
bytes_dotted (c ∷ s) = ground arith

wire_from-line :
    (cur line rest : List ℕ)
    → NoFeed line
    → wire_from cur (line ++ (crlf ++ rest)) ≡ wire_line (reverse_aux cur line) ++ wire_from [] rest
unfolding wire_from content
wire_from-line [] [] rest h = refl
wire_from-line (c ∷ cur) [] rest h = refl
wire_from-line [] (b ∷ line) rest (h, hs) = rw (h, wire_from) (wire_from-line (b ∷ []) line rest hs)
wire_from-line (c ∷ cur) (b ∷ line) rest (h, hs) =
    rw (h, wire_from) (wire_from-line (b ∷ c ∷ cur) line rest hs)

-- The bytes of a stuffed line are the line of the client.
line_bytes :
    (line rest : Text)
    → as_bytes ((stuff line ++ crlf) ++ rest) ≡ wire_line (as_bytes line) ++ as_bytes rest
unfolding wire_line as_bytes utf8
line_bytes line rest =
    as_bytes-append (stuff line ++ crlf) rest
    ∙ ap (λ b. b ++ as_bytes rest)
        (as_bytes-append (stuff line) crlf
          ∙ ap (λ b. b ++ crlf) (bytes_dotted line)
          ∙ unfold as_bytes utf8 in refl)

lines_on_wire :
    (lines : List Text)
    → All IsLine lines
    → wire_from [] (stored lines) ≡ as_bytes (flat (on_wire lines))
unfolding stored on_wire wire_from as_bytes
lines_on_wire [] h = refl
lines_on_wire (line ∷ lines) (h, hs) =
    ap (wire_from []) (append_assoc (as_bytes line) crlf (stored lines))
    ∙ wire_from-line [] (as_bytes line) (stored lines)
        (as_bytes-Lacks_feed line (IsLine-NoFeed line h))
    ∙ ap (λ r. wire_line (as_bytes line) ++ r) (lines_on_wire lines hs)
    ∙ sym (line_bytes line (flat (on_wire lines)))

-- A stored message of lines without line ends goes over the wire as the stuffed lines and the
-- closing dot.
pub body_on_wire-stored :
    (lines : List Text)
    → All IsLine lines
    → body_on_wire (stored lines) ≡ as_bytes (flat (on_wire lines) ++ codes ".\r\n")
unfolding body_on_wire
body_on_wire-stored lines h =
    ap (λ b. b ++ codes ".\r\n") (lines_on_wire lines h)
    ∙ sym (as_bytes-append (flat (on_wire lines)) (codes ".\r\n") ∙ unfold as_bytes utf8 in refl)

-- A line as it stands on the wire before the closing dot: ended by CR LF and nowhere before, and not
-- the closing dot.
abbrev pub IsWireLine : Text → Type 0
IsWireLine s = (text : Text) × (s ≡ text ++ crlf) × IsLine text × (text =ₜ codes "." ≡ false)

on_wire-IsWireLine : (lines : List Text) → All IsLine lines → All IsWireLine (on_wire lines)
unfolding on_wire
on_wire-IsWireLine [] h = tt
on_wire-IsWireLine (line ∷ lines) (h, hs) =
    ((stuff line, refl, stuff-IsLine line h, stuff-ne-dot line), on_wire-IsWireLine lines hs)

-- A message that one server stored line by line is delivered and stored by the next server, byte for
-- byte: what the client sends is the bytes of lines, each ended by its only CR LF and none of them the
-- closing dot, and then the closing dot; and a session with an empty buffer and room for the message
-- that is fed these lines hands the same bytes to its spool.
pub relayed_unchanged :
    (s : SmtpSession) (first : Text) (lines : List Text)
    → s.data_buffer ≡ []
    → All IsLine (first ∷ lines)
    → length (stored (first ∷ lines)) ≤ s.max_message_size
    → (sent : List Text) × All IsWireLine sent
      × (body_on_wire (stored (first ∷ lines)) ≡ as_bytes (flat sent ++ codes ".\r\n"))
      × ((take_message_data (feed_data_line (feed_all s sent) (codes ".\r\n")).0).1
          ≡ some (stored (first ∷ lines)))
relayed_unchanged s first lines empty ok fits = (
  on_wire (first ∷ lines),
  on_wire-IsWireLine (first ∷ lines) ok,
  body_on_wire-stored (first ∷ lines) ok,
  (message_roundtrip s first lines empty ok fits).3,
)
