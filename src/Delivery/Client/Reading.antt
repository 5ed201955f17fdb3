-- ===== src/Delivery/Client/Reading.antt =====
-- Replies of the remote server: `SmtpClientResponse` and `read_response` of src/delivery/client.rs.
pub mod Lines
pub mod Roundtrip
use my_mta.Prelude.{
  ℕ, zero, suc, ◌-◌, List, [], ◌∷◌, ◌++◌, map, reverse, Bool, true, false, ◌&&◌, ◌||◌, ◌==◌, Option,
  none, some, leb, ltb, if◌then◌else◌, drop, length,
}
use my_mta.Prelude.Text.{Text, codes, len, as_bytes, ends_with}
use my_mta.Prelude.Text.Numbers.{parse_uint, u16_max}
use my_mta.Delivery.Error.{
  DeliveryError, SmtpStage, data_command, timeout, io_error, protocol_error,
}
use my_mta.Delivery.Connector.{
  ConnectionConfig, as_secs, ReadEvent, byte, read_times_out, read_fails, SmtpConnection, Attempt,
  gives, fails, panics,
}

pub record SmtpClientResponse : Type 0 where
  pub code : ℕ
  pub lines : List Text

unfoldable pub is_success : SmtpClientResponse → Bool
is_success r = leb 200 r.code && ltb r.code 300

unfoldable pub is_transient : SmtpClientResponse → Bool
is_transient r = leb 400 r.code && ltb r.code 500

unfoldable pub is_permanent : SmtpClientResponse → Bool
is_permanent r = leb 500 r.code && ltb r.code 600

-- `join(" ")`
join_words : List Text → Text
join_words [] = []
join_words (s ∷ []) = s
join_words (s ∷ t ∷ ts) = s ++ (b' ' ∷ join_words (t ∷ ts))

unfoldable pub message : SmtpClientResponse → Text
unfolding join_words
message r = join_words r.lines

-- `s[..n]` and `s[n..]` for a byte index; `none` is the panic beyond the end or inside a character.
unfoldable pub split_at : Text → ℕ → Option (Text × Text)
split_at [] n = if n == 0 then some ([], []) else none
split_at (c ∷ s) n =
    let rest = split_at s (n - len (c ∷ [])) in
    if n == 0
    then some ([], c ∷ s)
    else if ltb n (len (c ∷ []))
    then none
    else elim rest [ none ↦ none | some (a, b) ↦ some (c ∷ a, b) ]

-- What the loop keeps from line to line.
pub record Progress : Type 0 where
  pub lines : List Text
  pub code : ℕ

pub data LineOutcome : Type 0 where
  more : Progress → LineOutcome
  finished : Progress → LineOutcome
  invalid : DeliveryError → LineOutcome
  line_panics : LineOutcome

no_code : Text → DeliveryError
no_code line = protocol_error data_command (codes "3-digit response code") line

-- The code, from the first line that is long enough.
unfoldable pub read_code : Text → Progress → LineOutcome
unfolding no_code split_at
read_code line p =
    if p.code == 0 && leb 3 (len line)
    then elim (split_at line 3) [
      | none ↦ line_panics
      | some (digits, rest) ↦ elim (parse_uint u16_max digits) [
        | none ↦ invalid (no_code line)
        | some code ↦ more (record p { code = code })
      ]
    ]
    else more p

unfoldable pub push : Text → Progress → Progress
push s p = record p { lines = p.lines ++ s ∷ [] }

-- The byte behind the code, if there is one.
unfoldable pub fourth : List ℕ → Option ℕ
fourth (a ∷ b ∷ c ∷ d ∷ s) = some d
fourth _ = none

unfoldable pub push_from : ℕ → Text → Progress → (Progress → LineOutcome) → LineOutcome
unfolding split_at push
push_from n line p next = elim (split_at line n) [
  | none ↦ line_panics
  | some (before, rest) ↦ next (push rest p)
]

-- Last line or continuation.
unfoldable pub read_text : Text → LineOutcome → LineOutcome
unfolding push_from fourth
read_text line (more p) = elim (fourth (as_bytes line)) [
  | none ↦ push_from 3 line p finished
  | some d ↦
      if d == b' '
      then push_from 4 line p finished
      else if d == b'-'
      then push_from 4 line p more
      else push_from 3 line p finished
]
read_text line (finished p) = finished p
read_text line (invalid e) = invalid e
read_text line line_panics = line_panics

unfoldable pub read_line : Text → Progress → LineOutcome
unfolding read_text read_code
read_line line p = read_text line (read_code line p)

-- The buffer without the line feed, in reverse: does it end the line, and with which bytes?
unfoldable pub ended : List ℕ → ℕ → Option (List ℕ)
ended [] b = none
ended (c ∷ buffer) b = if c == 13 && b == 10 then some (reverse buffer) else none

module _ (lossy : List ℕ → Text) (config : ConnectionConfig) where
  -- The loop, byte by byte; `buffer` is `line_buffer` in reverse.
  unfoldable pub read_from :
      Progress → List ℕ → List ReadEvent → List ReadEvent × Attempt SmtpClientResponse
  unfolding ended read_line
  read_from p buffer [] =
      ([], fails (io_error data_command (codes "Connection closed unexpectedly")))
  read_from p buffer (read_times_out ∷ events) =
      (events, fails (timeout data_command (as_secs config.command_timeout)))
  read_from p buffer (read_fails message ∷ events) = (events, fails (io_error data_command message))
  read_from p buffer (byte b ∷ events) = elim (ended buffer b) [
    | none ↦ read_from p (b ∷ buffer) events
    | some line ↦ elim (read_line (lossy line) p) [
      | more q ↦ read_from q [] events
      | finished q ↦ (events, gives (record { code = q.code; lines = q.lines }))
      | invalid e ↦ (events, fails e)
      | line_panics ↦ (events, panics)
    ]
  ]

  unfoldable pub read_response : SmtpConnection → SmtpConnection × Attempt SmtpClientResponse
  unfolding read_from
  read_response conn =
      let (events, r) = read_from (record { lines = []; code = 0 }) [] conn.incoming in
      (record conn { incoming = events }, r)
