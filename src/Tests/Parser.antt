-- ===== src/Tests/Parser.antt =====
-- A message for src/message/parser.rs.
use Prim.Native.Nat.{ℕ}
use mathlib.Core.Path.{◌≡◌, refl}
use mathlib.Core.List.{List, [], ◌∷◌}
use my_mta.Prelude.Text.{
  Text, codes, lines, split_once_text, split_once, trim, is_ascii_graphic, len,
  eq_ignore_ascii_case,
}
use my_mta.Message.Parser.Fields.{parse_headers, is_field_name}
use my_mta.Message.Parser.{ParsedMessage, parse}
use my_mta.Message.Parser.Soundness.{IsAccepted, parse-IsAccepted}

abbrev ascii : List ℕ → Text
ascii bytes = bytes

abbrev raw : List ℕ
raw = codes "From: a@b.com\r\nDate: today\r\n\r\nHello\r\n"

abbrev message : ParsedMessage
message = record {
  raw = raw;
  headers = (codes "From", codes "a@b.com") ∷ (codes "Date", codes "today") ∷ [];
  body = codes "Hello\r\n";
}

parse-IsAccepted_example : IsAccepted (ascii raw) message × (message.raw ≡ raw)
unfolding parse parse_headers lines split_once_text split_once is_field_name trim is_ascii_graphic
    len eq_ignore_ascii_case
parse-IsAccepted_example = parse-IsAccepted ascii raw message refl
