-- ===== src/Delivery/Client/Reading/Roundtrip.antt =====
-- From `to_wire` of src/smtp/response.rs to `read_response` of src/delivery/client.rs: the client reads
-- the reply that a server wrote.
use mathlib.Core.List.{reverse_aux}
use my_mta.Prelude.{
  ℕ, suc, ◌+◌, ◌-◌, ◌/◌, ◌%◌, ◌≤◌, ◌<◌, List, [], ◌∷◌, ◌++◌, append_assoc, reverse, length, true,
  false, ◌==◌, ltb, none, ◌≡◌, refl, sym, ap, ◌∙◌, ◌⊎◌, inl, inr, arith, All,
}
use my_mta.Prelude.Text.{Text, utf8, as_bytes}
use my_mta.Prelude.Text.Bytes.{as_bytes-append, as_bytes-Lacks_feed}
use my_mta.Prelude.Text.Laws.{Lacks}
use my_mta.Prelude.Text.Numbers.{decimal, decimal_three, parse_uint_three, u16_max}
use my_mta.Smtp.Response.{crlf, wire_lines, to_wire}
use my_mta.Delivery.Connector.{
  ConnectionConfig, ReadEvent, byte, SmtpConnection, Attempt, gives, fails, panics,
}
use my_mta.Delivery.Client.Reading.Lines.{digit_lt, code_read, last_line_read, other_line_read}
use my_mta.Delivery.Client.Reading.{
  SmtpClientResponse, Progress, LineOutcome, more, finished, invalid, line_panics, read_code,
  read_line, ended, read_from, read_response,
}

abbrev NoFeed : Text → Type 0
NoFeed = Lacks λ c. c == 10

-- These bytes arrive, and then these events.
abbrev pub arriving : List ℕ → List ReadEvent → List ReadEvent
arriving [] events = events
arriving (b ∷ bytes) events = byte b ∷ arriving bytes events

arriving-append :
    (s t : List ℕ) (events : List ReadEvent)
    → arriving (s ++ t) events ≡ arriving s (arriving t events)
arriving-append [] t events = refl
arriving-append (b ∷ s) t events = ap (λ e. byte b ∷ e) (arriving-append s t events)

not_ended : (buffer : List ℕ) (b : ℕ) → (b == 10) ≡ false → ended buffer b ≡ none
unfolding ended
not_ended [] b h = refl
not_ended (c ∷ buffer) b h = ground arith

module _ (lossy : List ℕ → Text) (config : ConnectionConfig) where
  -- What the loop does with a line that was read.
  abbrev after_line : LineOutcome → List ReadEvent → List ReadEvent × Attempt SmtpClientResponse
  after_line (more q) events = read_from lossy config q [] events
  after_line (finished q) events = (events, gives (record { code = q.code; lines = q.lines }))
  after_line (invalid e) events = (events, fails e)
  after_line line_panics events = (events, panics)

  line_end :
      (buffer : List ℕ) (p : Progress) (events : List ReadEvent) (o : LineOutcome)
      → read_line (lossy (reverse buffer)) p ≡ o
      → read_from lossy config p buffer (byte 13 ∷ byte 10 ∷ events) ≡ after_line o events
  unfolding read_from ended
  line_end buffer p events (more q) h = rw (read_from, not_ended buffer 13 refl, ended, h) refl
  line_end buffer p events (finished q) h = rw (read_from, not_ended buffer 13 refl, ended, h) refl
  line_end buffer p events (invalid e) h = rw (read_from, not_ended buffer 13 refl, ended, h) refl
  line_end buffer p events line_panics h = rw (read_from, not_ended buffer 13 refl, ended, h) refl

  read_from-line :
      (line buffer : List ℕ) (p : Progress) (events : List ReadEvent)
      → NoFeed line
      → read_from lossy config p buffer (arriving line (byte 13 ∷ byte 10 ∷ events))
        ≡ after_line (read_line (lossy (reverse_aux buffer line)) p) events
  unfolding read_from ended
  read_from-line [] buffer p events h = line_end buffer p events _ refl
  read_from-line (b ∷ line) buffer p events (h, hs) =
      rw (read_from, not_ended buffer b h) (read_from-line line (b ∷ buffer) p events hs)

-- The bytes of one line of a reply, with what comes after it.
line_bytes :
    (start line rest : Text)
    → as_bytes ((start ++ (line ++ crlf)) ++ rest)
      ≡ as_bytes (start ++ line) ++ (13 ∷ 10 ∷ as_bytes rest)
unfolding as_bytes utf8
line_bytes start line rest =
    ap as_bytes (
      append_assoc start (line ++ crlf) rest
      ∙ ap (λ t. start ++ t) (append_assoc line crlf rest)
      ∙ sym (append_assoc start line (crlf ++ rest)))
    ∙ as_bytes-append (start ++ line) (crlf ++ rest)

module _ (lossy : List ℕ → Text) (faithful : (t : Text) → lossy (as_bytes t) ≡ t)
    (config : ConnectionConfig) (code : ℕ) (low : 100 ≤ code) (high : code ≤ 999) where
  -- The start of a line of the reply.
  abbrev start : ℕ → Text
  start sep = (b'0' + code / 10 / 10 % 10) ∷ (b'0' + code / 10 % 10) ∷ (b'0' + code % 10) ∷ sep ∷ []

  one_line :
      (sep : ℕ) (line rest : Text) (p : Progress) (events : List ReadEvent)
      → sep < 0x80
      → (sep == 10) ≡ false
      → NoFeed line
      → read_from lossy config p []
          (arriving (as_bytes ((decimal code ++ (sep ∷ (line ++ crlf))) ++ rest)) events)
        ≡ after_line lossy config
            (read_line (start sep ++ line) p)
            (arriving (as_bytes rest) events)
  one_line sep line rest p events ascii no_feed h =
      ap
        (λ d.
          read_from lossy config p []
            (arriving (as_bytes ((d ++ (sep ∷ (line ++ crlf))) ++ rest)) events))
        (decimal_three code low high)
      ∙ ap (λ b. read_from lossy config p [] (arriving b events)) (line_bytes (start sep) line rest)
      ∙ ap (λ e. read_from lossy config p [] e)
          (arriving-append (as_bytes (start sep ++ line)) (13 ∷ 10 ∷ as_bytes rest) events)
      ∙ read_from-line lossy config (as_bytes (start sep ++ line)) [] p
          (arriving (as_bytes rest) events)
          (as_bytes-Lacks_feed (start sep ++ line)
            (ground arith, (ground arith, (ground arith, (no_feed, h)))))
      ∙ ap (λ t. after_line lossy config (read_line t p) (arriving (as_bytes rest) events))
          (faithful (start sep ++ line))

  start_read :
      (sep : ℕ) (line : Text) (p : Progress)
      → sep < 0x80
      → p.code ≡ 0 ⊎ p.code ≡ code
      → read_code (start sep ++ line) p ≡ more (record p { code = code })
  start_read sep line p ascii known =
      code_read (b'0' + code / 10 / 10 % 10) (b'0' + code / 10 % 10) (b'0' + code % 10) sep
        (digit_lt (code / 10 / 10)) (digit_lt (code / 10)) (digit_lt code) ascii line p code
        (parse_uint_three u16_max code low high (omega arith)) known (omega arith)

  -- The lines that are left, from the first of them.
  lines_read :
      (lines : List Text) (line : Text) (i last : ℕ) (p : Progress) (events : List ReadEvent)
      → All NoFeed (line ∷ lines)
      → last ≡ i + length lines
      → p.code ≡ 0 ⊎ p.code ≡ code
      → read_from lossy config p []
          (arriving (as_bytes (wire_lines code last i (line ∷ lines))) events)
        ≡ (events, gives (record { code = code; lines = p.lines ++ line ∷ lines }))
  unfolding wire_lines as_bytes
  lines_read [] line i last p events (h, hs) e known =
      let at_last : ltb i last ≡ false = ground arith in
      rw (wire_lines, at_last)
        (one_line b' ' line [] p events (omega arith) refl h
          ∙ ap (λ o. after_line lossy config o events)
              (last_line_read (b'0' + code / 10 / 10 % 10) (b'0' + code / 10 % 10)
                (b'0' + code % 10) b' ' (digit_lt (code / 10 / 10)) (digit_lt (code / 10))
                (digit_lt code) (omega arith) line p code refl
                (start_read b' ' line p (omega arith) known)))
  lines_read (next ∷ lines) line i last p events (h, hs) e known =
      let before_last : ltb i last ≡ true = ground arith in
      rw (wire_lines, before_last)
        (one_line b'-' line (wire_lines code last (suc i) (next ∷ lines)) p events (omega arith)
            refl h
          ∙ ap
              (λ o.
                after_line lossy config o
                  (arriving (as_bytes (wire_lines code last (suc i) (next ∷ lines))) events))
              (other_line_read (b'0' + code / 10 / 10 % 10) (b'0' + code / 10 % 10)
                (b'0' + code % 10) b'-' (digit_lt (code / 10 / 10)) (digit_lt (code / 10))
                (digit_lt code) (omega arith) line p code refl
                (start_read b'-' line p (omega arith) known))
          ∙ lines_read lines next (suc i) last
              (record { lines = p.lines ++ line ∷ []; code = code }) events hs (omega arith)
              (inr refl)
          ∙ ap (λ l. (events, gives (record { code = code; lines = l })))
              (append_assoc p.lines (line ∷ []) (next ∷ lines)))

  -- The client reads the reply that the server wrote, its code and its lines, and leaves what comes
  -- after it, for a code of three digits and lines without a line feed, where decoding UTF-8 undoes
  -- encoding it.
  pub read_response-to_wire :
      (conn : SmtpConnection) (first : Text) (lines : List Text) (events : List ReadEvent)
      → All NoFeed (first ∷ lines)
      → conn.incoming
        ≡ arriving (as_bytes (to_wire (record { code = code; messages = first ∷ lines }))) events
      → read_response lossy config conn
        ≡ (record conn { incoming = events }, gives (record { code = code; lines = first ∷ lines }))
  unfolding read_response to_wire
  read_response-to_wire conn first lines events ok arrived =
      rw
        (
          read_response,
          arrived,
          to_wire,
          lines_read lines first 0 (suc (length lines) - 1) (record { lines = []; code = 0 }) events
              ok (omega arith) (inl refl),
        )
        refl
