-- ===== src/Message/Parser/Soundness.antt =====
-- What a parsed message satisfies, and what the enrichment adds.
use Prim.Native.Nat.{ℕ, suc, ◌≤◌}
use mathlib.Core.Path.{◌≡◌, refl, sym, ap, subst}
use mathlib.Core.Logic.{inl, inr}
use mathlib.Core.Bool.{true}
use mathlib.Core.Option.{some}
use mathlib.Core.List.{List, [], ◌∷◌, ◌++◌}
use native.Mathlib.Omega.{arith}
use my_mta.Prelude.{All, ok, Bool-cases}
use my_mta.Prelude.Text.{Text, codes, lines, len, eq_ignore_ascii_case}
use my_mta.Message.Parser.Fields.{
  Fields, MessageError, AreFields, parse_headers, parse_headers-AreFields,
}
use my_mta.Message.Parser.{
  ParsedMessage, max_line_length, split_message, long_lines, has, required_headers, errors_of,
  parse, unless_errors, message_of, find_header, header,
}

append_eq_nil {ℓ} : {A : Type ℓ} (xs ys : List A) → xs ++ ys ≡ [] → (xs ≡ []) × (ys ≡ [])
append_eq_nil [] ys e = (refl, e)
append_eq_nil (x ∷ xs) ys e = cc

long_lines-nil :
    (i : ℕ) (ls : List Text) → long_lines i ls ≡ [] → All (λ l. len l ≤ max_line_length) ls
unfolding long_lines
long_lines-nil i [] e = tt
long_lines-nil i (l ∷ ls) e = ground (arith, long_lines-nil (suc i) ls)

required_headers-nil :
    (hs : Fields)
    → required_headers hs ≡ []
    → (has hs (codes "From") ≡ true) × (has hs (codes "Date") ≡ true)
unfolding required_headers
required_headers-nil hs e = ground arith

find_header-has :
    (hs : Fields) (name : Text) → has hs name ≡ true → (v : Text) × (find_header hs name ≡ some v)
unfolding has find_header
find_header-has [] name e = cc
find_header-has ((f, v) ∷ hs) name e = elim (Bool-cases (eq_ignore_ascii_case f name)) [
  | inl hit ↦ (v, rw hit)
  | inr miss ↦ rw miss (find_header-has hs name (rw miss at e))
]

-- What `parse` promises of a message that it accepts.
pub record IsAccepted (text : Text) (m : ParsedMessage) : Type 0 where
  pub fields : AreFields m.headers
  pub from : (v : Text) × (header m (codes "From") ≡ some v)
  pub date : (v : Text) × (header m (codes "Date") ≡ some v)
  pub short : All (λ l. len l ≤ max_line_length) (lines text)

errors-nil :
    (text : Text)
    → errors_of text ≡ []
    → (long_lines 0 (lines text) ≡ [])
      × (required_headers (parse_headers (split_message text).0).0 ≡ [])
unfolding errors_of
errors-nil text e =
    let rest = (append_eq_nil (parse_headers (split_message text).0).1 _ e).1 in
    append_eq_nil (long_lines 0 (lines text)) _ rest

unless_errors_ok :
    (es : List MessageError) (n m : ParsedMessage) → unless_errors es n ≡ ok m → (es ≡ []) × (n ≡ m)
unfolding unless_errors
unless_errors_ok [] n m e = (refl, cc)
unless_errors_ok (x ∷ es) n m e = cc

message_of-IsAccepted :
    (text : Text) (raw : List ℕ) → errors_of text ≡ [] → IsAccepted text (message_of text raw)
unfolding message_of header
message_of-IsAccepted text raw e =
    let (short, required) = errors-nil text e in
    let has_both = required_headers-nil _ required in
    record {
      fields = parse_headers-AreFields (split_message text).0;
      from = find_header-has _ _ has_both.0;
      date = find_header-has _ _ has_both.1;
      short = long_lines-nil 0 (lines text) short;
    }

-- An accepted message has well-formed field names, a From and a Date field, and no line of more
-- than 998 bytes; its raw bytes are those that were parsed.
pub parse-IsAccepted :
    (lossy : List ℕ → Text) (raw : List ℕ) (m : ParsedMessage)
    → parse lossy raw ≡ ok m
    → IsAccepted (lossy raw) m × (m.raw ≡ raw)
unfolding parse
parse-IsAccepted lossy raw m e =
    let (clean, same) = unless_errors_ok (errors_of (lossy raw)) _ m e in
    (
      subst (IsAccepted (lossy raw)) same (message_of-IsAccepted (lossy raw) raw clean),
      unfold message_of in ap (λ n. n.raw) (sym same),
    )
