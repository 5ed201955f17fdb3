-- ===== src/Smtp/Session/DataPhase.antt =====
-- The lines of a message: dot-unstuffing undoes dot-stuffing, and the buffer collects the lines.
use Prim.Native.Nat.{ℕ, ◌≤◌}
use mathlib.Core.Path.{◌≡◌, refl, ap, ◌∙◌}
use mathlib.Core.Bool.{false}
use mathlib.Core.Option.{some}
use mathlib.Core.List.{List, [], ◌∷◌, ◌++◌, append_assoc, append-nil}
use native.Mathlib.Omega.{arith}
use my_mta.Prelude.{length, length-append, is_empty, All, if◌then◌else◌}
use my_mta.Prelude.Text.{Text, codes, ◌=ₜ◌, starts_with, as_bytes}
use my_mta.Prelude.Text.Laws.{Lacks, trim_end_matches-append}
use my_mta.Smtp.Response.{crlf, ok_queued}
use my_mta.Smtp.Session.State.{ready}
use my_mta.Smtp.Session.{
  SmtpSession, continue, done, is_line_end, unstuff, append_line, feed_data_line, take_message_data,
}

-- The sender's side of RFC 5321, section 4.5.2: a line that begins with a dot gets another one.
unfoldable pub stuff : Text → Text
stuff line = if starts_with line (codes ".") then b'.' ∷ line else line

abbrev pub IsLine : Text → Type 0
IsLine line = Lacks is_line_end line

unstuff-stuff : (line : Text) → unstuff (stuff line) ≡ line
unfolding unstuff stuff starts_with
unstuff-stuff [] = refl
unstuff-stuff (c ∷ []) = ground arith
unstuff-stuff (c ∷ d ∷ s) = ground arith

pub stuff-ne-dot : (line : Text) → (stuff line =ₜ codes ".") ≡ false
unfolding stuff starts_with ◌=ₜ◌
stuff-ne-dot [] = refl
stuff-ne-dot (c ∷ []) = ground arith
stuff-ne-dot (c ∷ d ∷ s) = ground arith

pub stuff-IsLine : (line : Text) → IsLine line → IsLine (stuff line)
unfolding stuff starts_with
stuff-IsLine [] h = tt
stuff-IsLine (c ∷ s) h = ground arith

-- A stuffed line on the wire is taken back as it was.
feed-stuff :
    (s : SmtpSession) (line : Text)
    → IsLine line
    → feed_data_line s (stuff line ++ crlf) ≡ append_line s line
unfolding feed_data_line
feed-stuff s line h = rw (
  trim_end_matches-append is_line_end (stuff line) crlf (stuff-IsLine line h) refl,
  stuff-ne-dot line,
  unstuff-stuff line,
)

append_line_fits :
    (s : SmtpSession) (line : Text)
    → length (s.data_buffer ++ (as_bytes line ++ crlf)) ≤ s.max_message_size
    → append_line s line
      ≡ (record s { data_buffer = s.data_buffer ++ (as_bytes line ++ crlf) }, continue)
unfolding append_line
append_line_fits s line h = ground arith

-- The bytes of a message of these lines.
unfoldable pub stored : List Text → List ℕ
stored [] = []
stored (line ∷ lines) = (as_bytes line ++ crlf) ++ stored lines

-- The lines that a sender puts on the wire.
unfoldable pub on_wire : List Text → List Text
on_wire [] = []
on_wire (line ∷ lines) = (stuff line ++ crlf) ∷ on_wire lines

-- The server feeds one line after another.
unfoldable pub feed_all : SmtpSession → List Text → SmtpSession
feed_all s [] = s
feed_all s (line ∷ lines) = feed_all (feed_data_line s line).0 lines

-- A message that fits has a first line that fits, and the other lines behind it.
first_fits :
    (max : ℕ) (buffer : List ℕ) (line : Text) (lines : List Text)
    → length (buffer ++ stored (line ∷ lines)) ≤ max
    → length (buffer ++ (as_bytes line ++ crlf)) ≤ max
unfolding stored
first_fits max buffer line lines fits = omega (
  arith,
  length-append buffer ((as_bytes line ++ crlf) ++ stored lines),
  length-append (as_bytes line ++ crlf) (stored lines),
  length-append buffer (as_bytes line ++ crlf),
)

pub rest_fits :
    (max : ℕ) (buffer : List ℕ) (line : Text) (lines : List Text)
    → length (buffer ++ stored (line ∷ lines)) ≤ max
    → length ((buffer ++ (as_bytes line ++ crlf)) ++ stored lines) ≤ max
unfolding stored
rest_fits max buffer line lines fits = rw append_assoc fits

pub feed_fits :
    (s : SmtpSession) (line : Text) (lines : List Text)
    → IsLine line
    → length (s.data_buffer ++ stored (line ∷ lines)) ≤ s.max_message_size
    → feed_data_line s (stuff line ++ crlf)
      ≡ (record s { data_buffer = s.data_buffer ++ (as_bytes line ++ crlf) }, continue)
feed_fits s line lines ok fits =
    feed-stuff s line ok
    ∙ append_line_fits s line (first_fits s.max_message_size s.data_buffer line lines fits)

pub feed_all-on_wire :
    (s : SmtpSession) (lines : List Text)
    → All IsLine lines
    → length (s.data_buffer ++ stored lines) ≤ s.max_message_size
    → feed_all s (on_wire lines) ≡ record s { data_buffer = s.data_buffer ++ stored lines }
unfolding feed_all on_wire stored
feed_all-on_wire s [] ok fits = rw append-nil
feed_all-on_wire s (line ∷ lines) ok fits =
    ap (λ r. feed_all r.0 (on_wire lines)) (feed_fits s line lines ok.0 fits)
    ∙ feed_all-on_wire (record s { data_buffer = s.data_buffer ++ (as_bytes line ++ crlf) }) lines
        ok.1 (rest_fits s.max_message_size s.data_buffer line lines fits)
    ∙ ap (λ b. record s { data_buffer = b }) (append_assoc s.data_buffer _ (stored lines))

line_ne_nil : (a t : List ℕ) → is_empty ((a ++ crlf) ++ t) ≡ false
line_ne_nil [] t = refl
line_ne_nil (c ∷ a) t = refl

pub stored_ne_nil : (first : Text) (lines : List Text) → is_empty (stored (first ∷ lines)) ≡ false
unfolding stored
stored_ne_nil first lines = line_ne_nil (as_bytes first) (stored lines)

-- With an empty buffer, a message of at least one line that the sender stuffs line by line, and
-- that fits the limit, is taken whole: the closing dot is answered with the queue id, the session
-- is ready, its envelope is unchanged, and the data handed to the spool is exactly the sender's
-- lines.
pub message_roundtrip :
    (s : SmtpSession) (first : Text) (lines : List Text)
    → s.data_buffer ≡ []
    → All IsLine (first ∷ lines)
    → length (stored (first ∷ lines)) ≤ s.max_message_size
    → let t = feed_data_line (feed_all s (on_wire (first ∷ lines))) (codes ".\r\n") in
      (t.1 ≡ done (ok_queued s.envelope.id))
      × (t.0.state ≡ ready)
      × (t.0.envelope ≡ s.envelope)
      × ((take_message_data t.0).1 ≡ some (stored (first ∷ lines)))
message_roundtrip s first lines empty ok fits =
    rw (feed_all-on_wire s (first ∷ lines) ok (rw empty fits), empty)
      (unfold feed_data_line take_message_data ◌=ₜ◌ stored in
        ground (arith, stored_ne_nil first lines))
