-- ===== src/Prelude/Text.antt =====
-- `&str` and `String` of Rust's standard library as lists of Unicode scalar values: the functions
-- that the source calls on them.
pub mod Numbers
pub mod Laws
pub mod Table
pub mod Bytes
pub mod Lines
pub mod Trim
use Prim.Native.Char.{code}
use Prim.Native.String.{String}
use Prim.Native.Nat.{ℕ, zero, suc, ◌+◌, ◌-◌, ◌*◌, ◌≤◌, ◌<◌, ◌/◌, ◌%◌}
use mathlib.Core.Path.{◌≡◌, refl}
use mathlib.Core.Logic.{◌↔◌, ◌≢◌}
use mathlib.Core.Bool.{Bool, true, false, ◌&&◌, ◌||◌}
use mathlib.Core.Option.{Option, none, some}
use mathlib.Core.List.{List, [], ◌∷◌, ◌++◌, map, reverse}
use native.Mathlib.Omega.{arith}
use my_mta.Prelude.Tests.{ltb, leb, ◌==◌, if◌then◌else◌}
use my_mta.Prelude.Lists.{length, drop}

abbrev pub Text : Type 0
Text = List ℕ

-- The scalar values of a literal.
abbrev pub codes : String → Text
codes String.[] = []
codes (String.◌∷◌ c s) = code c ∷ codes s

infix 50 ◌=ₜ◌
unfoldable pub ◌=ₜ◌ : Text → Text → Bool
[] =ₜ [] = true
[] =ₜ (d ∷ t) = false
(c ∷ s) =ₜ [] = false
(c ∷ s) =ₜ (d ∷ t) = c == d && s =ₜ t

pub =ₜ_iff : (s t : Text) → ((s =ₜ t) ≡ true) ↔ (s ≡ t)
unfolding ◌=ₜ◌
=ₜ_iff [] [] = ground arith
=ₜ_iff [] (d ∷ t) = ground arith
=ₜ_iff (c ∷ s) [] = ground arith
=ₜ_iff (c ∷ s) (d ∷ t) = ground (arith, =ₜ_iff s t)

pub =ₜ_refl : (s : Text) → (s =ₜ s) ≡ true
=ₜ_refl s = (=ₜ_iff s s).1 refl

-- `char::is_whitespace`: the White_Space property of Unicode.
unfoldable pub is_whitespace : ℕ → Bool
is_whitespace c =
    (leb 9 c && leb c 13)
    || c == 32
    || c == 0x85
    || c == 0xa0
    || c == 0x1680
    || (leb 0x2000 c && leb c 0x200a)
    || c == 0x2028
    || c == 0x2029
    || c == 0x202f
    || c == 0x205f
    || c == 0x3000

-- `trim_start_matches` with a test.
unfoldable pub drop_while : (ℕ → Bool) → Text → Text
drop_while p [] = []
drop_while p (c ∷ s) = elim (p c) [ true ↦ drop_while p s | false ↦ c ∷ s ]

-- `trim_end_matches` with a test: trailing characters go from the back, one pass from the front.
unfoldable pub trim_end_matches : (ℕ → Bool) → Text → Text
trim_end_matches p [] = []
trim_end_matches p (c ∷ s) = elim (trim_end_matches p s) [
  | [] ↦ elim (p c) [ true ↦ [] | false ↦ c ∷ [] ]
  | d ∷ t ↦ c ∷ d ∷ t
]

unfoldable pub trim : Text → Text
unfolding is_whitespace drop_while trim_end_matches
trim s = trim_end_matches is_whitespace (drop_while is_whitespace s)

unfoldable pub starts_with : Text → Text → Bool
starts_with s [] = true
starts_with [] (d ∷ p) = false
starts_with (c ∷ s) (d ∷ p) = c == d && starts_with s p

-- `ends_with(c)` for one character.
unfoldable pub ends_with_char : Text → ℕ → Bool
ends_with_char [] d = false
ends_with_char (c ∷ []) d = c == d
ends_with_char (c ∷ b ∷ s) d = ends_with_char (b ∷ s) d

-- `ends_with(p)` for a text.
unfoldable pub ends_with : Text → Text → Bool
unfolding starts_with
ends_with s p = starts_with (reverse s) (reverse p)

-- `find(c)` with the two slices around the place that it found, `[..pos]` and `[pos + 1..]`.
unfoldable pub split_once : ℕ → Text → Option (Text × Text)
split_once d [] = none
split_once d (c ∷ s) = elim (c == d) [
  | true ↦ some ([], s)
  | false ↦ elim (split_once d s) [ none ↦ none | some (a, b) ↦ some (c ∷ a, b) ]
]

-- `rfind(c)` with the same two slices.
unfoldable pub rsplit_once : ℕ → Text → Option (Text × Text)
rsplit_once d [] = none
rsplit_once d (c ∷ s) = elim (rsplit_once d s) [
  | some (a, b) ↦ some (c ∷ a, b)
  | none ↦ elim (c == d) [ true ↦ some ([], s) | false ↦ none ]
]

-- `split(c)`: at least one part.
split_from : ℕ → Text → Text → List Text
split_from d cur [] = reverse cur ∷ []
split_from d cur (c ∷ s) = elim (c == d) [
  | true ↦ reverse cur ∷ split_from d [] s
  | false ↦ split_from d (c ∷ cur) s
]

unfoldable pub split : ℕ → Text → List Text
unfolding split_from
split d s = split_from d [] s

-- `split_whitespace`: the maximal runs of characters that are not white space.
push_word : Text → List Text → List Text
push_word [] ws = ws
push_word (c ∷ cur) ws = reverse (c ∷ cur) ∷ ws

words_from : Text → Text → List Text
unfolding push_word
words_from cur [] = push_word cur []
words_from cur (c ∷ s) = elim (is_whitespace c) [
  | true ↦ push_word cur (words_from [] s)
  | false ↦ words_from (c ∷ cur) s
]

unfoldable pub split_whitespace : Text → List Text
unfolding words_from is_whitespace
split_whitespace s = words_from [] s

unfoldable pub to_ascii_uppercase : Text → Text
to_ascii_uppercase = map λ c. if leb b'a' c && leb c b'z' then c - 32 else c

-- `to_lowercase` on ASCII text.
unfoldable pub to_ascii_lowercase : Text → Text
to_ascii_lowercase = map λ c. if leb b'A' c && leb c b'Z' then c + 32 else c

unfoldable pub eq_ignore_ascii_case : Text → Text → Bool
unfolding to_ascii_lowercase ◌=ₜ◌
eq_ignore_ascii_case s t = to_ascii_lowercase s =ₜ to_ascii_lowercase t

unfoldable pub is_ascii_alphanumeric : ℕ → Bool
is_ascii_alphanumeric c =
    (leb b'0' c && leb c b'9') || (leb b'A' c && leb c b'Z') || (leb b'a' c && leb c b'z')

unfoldable pub is_ascii_graphic : ℕ → Bool
is_ascii_graphic c = leb 0x21 c && leb c 0x7e

-- The UTF-8 bytes of one scalar value, and of a text: `as_bytes`.
unfoldable pub utf8 : ℕ → List ℕ
utf8 c =
    if ltb c 0x80
    then c ∷ []
    else if ltb c 0x800
    then (0xc0 + c / 64) ∷ (0x80 + c % 64) ∷ []
    else if ltb c 0x10000
    then (0xe0 + c / 4096) ∷ (0x80 + c / 64 % 64) ∷ (0x80 + c % 64) ∷ []
    else (0xf0 + c / 262144) ∷ (0x80 + c / 4096 % 64) ∷ (0x80 + c / 64 % 64) ∷ (0x80 + c % 64) ∷ []

unfoldable pub as_bytes : Text → List ℕ
unfolding utf8
as_bytes [] = []
as_bytes (c ∷ s) = utf8 c ++ as_bytes s

-- `str::len`: the number of UTF-8 bytes.
unfoldable pub len : Text → ℕ
len [] = 0
len (c ∷ s) =
    (if ltb c 0x80 then 1 else if ltb c 0x800 then 2 else if ltb c 0x10000 then 3 else 4) + len s

-- `find(pat)` of a text, with the slices before it and behind it.
unfoldable pub split_once_text : Text → Text → Option (Text × Text)
unfolding starts_with
split_once_text p [] = elim (starts_with [] p) [ true ↦ some ([], []) | false ↦ none ]
split_once_text p (c ∷ s) = elim (starts_with (c ∷ s) p) [
  | true ↦ some ([], drop (length p) (c ∷ s))
  | false ↦ elim (split_once_text p s) [ none ↦ none | some (a, b) ↦ some (c ∷ a, b) ]
]

-- `lines`: the parts that end in a line feed, without it and without a carriage return before it,
-- and a last part with no line feed, if it is not empty.
end_line : Text → Text
end_line [] = []
end_line (c ∷ cur) = if c == 13 then reverse cur else reverse (c ∷ cur)

lines_from : Text → Text → List Text
unfolding end_line
lines_from [] [] = []
lines_from (c ∷ cur) [] = reverse (c ∷ cur) ∷ []
lines_from cur (c ∷ s) = elim (c == 10) [
  | true ↦ end_line cur ∷ lines_from [] s
  | false ↦ lines_from (c ∷ cur) s
]

unfoldable pub lines : Text → List Text
unfolding lines_from
lines s = lines_from [] s
