-- ===== src/Message/Parser.antt =====
-- src/message/parser.rs: header fields and body of a message. `lossy` is `String::from_utf8_lossy`.
pub mod Fields
pub mod Soundness
use Prim.Native.Nat.{ℕ, suc, ◌+◌}
use mathlib.Core.Bool.{Bool, true, false, not}
use mathlib.Core.Option.{Option, none, some}
use mathlib.Core.List.{List, [], ◌∷◌, ◌++◌}
use my_mta.Prelude.{ltb, if◌then◌else◌, drop, is_empty, any, Result, ok, err}
use my_mta.Prelude.Text.{
  Text, codes, starts_with, split_once_text, lines, trim, eq_ignore_ascii_case, as_bytes, len,
}
use my_mta.Prelude.Text.Numbers.{decimal}
use Fields.{MessageError, missing_header, line_too_long, parse_headers}

abbrev pub max_line_length : ℕ
max_line_length = 998

pub record ParsedMessage : Type 0 where
  pub headers : List (Text × Text)
  pub body : Text
  pub raw : List ℕ

-- The header block and the body, split at the first blank line.
unfoldable pub split_message : Text → Text × Text
split_message text = elim (split_once_text (codes "\r\n\r\n") text) [
  | some (block, body) ↦ (block, body)
  | none ↦ elim (split_once_text (codes "\n\n") text) [
    | some (block, body) ↦ (block, body)
    | none ↦ (text, [])
  ]
]

-- The loop over the lines; `i` is the index of the first one.
unfoldable pub long_lines : ℕ → List Text → List MessageError
long_lines i [] = []
long_lines i (line ∷ rest) =
    if ltb max_line_length (len line)
    then line_too_long (i + 1) (len line) ∷ long_lines (suc i) rest
    else long_lines (suc i) rest

unfoldable pub has : List (Text × Text) → Text → Bool
has headers name = any (λ h. eq_ignore_ascii_case h.0 name) headers

unfoldable pub required_headers : List (Text × Text) → List MessageError
unfolding has
required_headers headers =
    (if has headers (codes "From") then [] else missing_header (codes "From") ∷ [])
    ++ (if has headers (codes "Date") then [] else missing_header (codes "Date") ∷ [])

-- All errors, in the order in which the source collects them.
unfoldable pub errors_of : Text → List MessageError
unfolding split_message long_lines required_headers
errors_of text =
    let (headers, errors) = parse_headers (split_message text).0 in
    errors ++ (long_lines 0 (lines text) ++ required_headers headers)

-- The message that a successful parse returns.
unfoldable pub message_of : Text → List ℕ → ParsedMessage
message_of text raw = record {
  headers = (parse_headers (split_message text).0).0;
  body = (split_message text).1;
  raw = raw;
}

unless_errors : List MessageError → ParsedMessage → Result (List MessageError) ParsedMessage
unless_errors [] m = ok m
unless_errors (e ∷ errors) m = err (e ∷ errors)

unfoldable pub parse : (List ℕ → Text) → List ℕ → Result (List MessageError) ParsedMessage
unfolding errors_of message_of unless_errors
parse lossy raw = unless_errors (errors_of (lossy raw)) (message_of (lossy raw) raw)

find_header : List (Text × Text) → Text → Option Text
find_header [] name = none
find_header ((field, value) ∷ headers) name =
    if eq_ignore_ascii_case field name then some value else find_header headers name

unfoldable pub header : ParsedMessage → Text → Option Text
unfolding find_header
header m name = find_header m.headers name

-- `uuid` is a fresh UUID, printed, and `now` the time in seconds.
unfoldable pub ensure_message_id : ParsedMessage → Text → ℕ → Text → ParsedMessage
unfolding header
ensure_message_id m uuid now hostname = elim (header m (codes "Message-ID")) [
  | some id ↦ m
  | none ↦ record m {
    headers =
        m.headers
        ++ (
          codes "Message-ID",
          codes "<" ++ uuid ++ codes "." ++ decimal now ++ codes "@" ++ hostname ++ codes ">",
        )
          ∷ [];
  }
]

unfoldable pub prepend_received : ParsedMessage → Text → ParsedMessage
prepend_received m received_line = record m {
  headers =
      (
        codes "Received",
        if starts_with received_line (codes "Received:")
            then trim (drop 9 received_line)
            else received_line,
      )
      ∷ m.headers;
}

header_lines : List (Text × Text) → Text
header_lines [] = []
header_lines ((name, value) ∷ headers) =
    (name ++ codes ": " ++ value ++ codes "\r\n") ++ header_lines headers

unfoldable pub to_bytes : ParsedMessage → List ℕ
unfolding header_lines
to_bytes m = as_bytes (header_lines m.headers ++ (codes "\r\n" ++ m.body))
