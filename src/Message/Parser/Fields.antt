-- ===== src/Message/Parser/Fields.antt =====
-- `MessageError` and `parse_headers` of src/message/parser.rs.
use Prim.Native.Nat.{ℕ}
use mathlib.Core.Path.{◌≡◌}
use mathlib.Core.Bool.{Bool, true, false, not, ◌&&◌, ◌||◌}
use mathlib.Core.Option.{none, some}
use mathlib.Core.List.{List, [], ◌∷◌, ◌++◌}
use native.Mathlib.Omega.{arith}
use my_mta.Prelude.{
  ◌==◌, if◌then◌else◌, all, is_empty, All, All-append, ◌⊎◌, Bool-cases, Option-cases, inl, inr,
}
use my_mta.Prelude.Text.{Text, codes, starts_with, split_once, lines, trim, is_ascii_graphic}

pub data MessageError : Type 0 where
  missing_header invalid_header : Text → MessageError
  line_too_long : ℕ → ℕ → MessageError
  empty_message : MessageError

abbrev pub Fields : Type 0
Fields = List (Text × Text)

-- The name has a character, and only printable ASCII without the colon.
unfoldable pub is_field_name : Text → Bool
is_field_name name =
    not (is_empty name || not (all (λ c. is_ascii_graphic c && not (c == b':')) name))

-- `last_mut`, for the continuation of a folded field.
unfoldable pub fold_into_last : Fields → Text → Fields
fold_into_last [] text = []
fold_into_last ((name, value) ∷ []) text = (name, value ++ (b' ' ∷ text)) ∷ []
fold_into_last (h ∷ k ∷ headers) text = h ∷ fold_into_last (k ∷ headers) text

is_folded : Text → Bool
is_folded line = starts_with line (codes " ") || starts_with line (codes "\t")

-- A line with a colon, which stands between the two texts.
add_field : Text × Text → Fields × List MessageError → Fields × List MessageError
add_field (before, after) (headers, errors) =
    let name = trim before in
    if is_field_name name then (headers ++ (name, trim after) ∷ [], errors) else (
      headers,
      errors ++ invalid_header (codes "bad header field name: '" ++ name ++ codes "'") ∷ [],
    )

add_line : Text → Fields × List MessageError → Fields × List MessageError
unfolding add_field
add_line line (headers, errors) = elim (split_once b':' line) [
  | some parts ↦ add_field parts (headers, errors)
  | none ↦ if is_empty line then (headers, errors) else (
    headers,
    errors ++ invalid_header (codes "line is not a valid header: '" ++ line ++ codes "'") ∷ [],
  )
]

add_continuation : Text → Fields × List MessageError → Fields × List MessageError
add_continuation line (headers, errors) =
    if is_empty headers
    then (
      headers,
      errors ++ invalid_header (codes "continuation line with no preceding header") ∷ [],
    )
    else (fold_into_last headers (trim line), errors)

-- One round of the loop over the physical lines.
header_line : Text → Fields × List MessageError → Fields × List MessageError
unfolding is_folded add_line add_continuation
header_line line state = if is_folded line then add_continuation line state else add_line line state

header_loop : List Text → Fields × List MessageError → Fields × List MessageError
unfolding header_line
header_loop [] state = state
header_loop (line ∷ rest) state = header_loop rest (header_line line state)

unfoldable pub parse_headers : Text → Fields × List MessageError
unfolding header_loop
parse_headers block = header_loop (lines block) ([], [])

-- Every name in the list is a field name.
abbrev pub AreFields : Fields → Type 0
AreFields headers = All (λ h. is_field_name h.0 ≡ true) headers

fold_into_last-AreFields :
    (headers : Fields) (text : Text) → AreFields headers → AreFields (fold_into_last headers text)
unfolding fold_into_last
fold_into_last-AreFields [] text h = tt
fold_into_last-AreFields ((name, value) ∷ []) text h = h
fold_into_last-AreFields (a ∷ b ∷ headers) text h =
    (h.0, fold_into_last-AreFields (b ∷ headers) text h.1)

add_field-AreFields :
    (parts : Text × Text) (s : Fields × List MessageError)
    → AreFields s.0
    → AreFields (add_field parts s).0
unfolding add_field
add_field-AreFields (before, after) (headers, errors) h =
    elim (Bool-cases (is_field_name (trim before))) [
      | inl good ↦ rw good (All-append (λ f. is_field_name f.0 ≡ true) headers _ h (good, tt))
      | inr bad ↦ rw bad h
    ]

header_line-AreFields :
    (line : Text) (s : Fields × List MessageError)
    → AreFields s.0
    → AreFields (header_line line s).0
unfolding header_line
header_line-AreFields line (headers, errors) h = elim (Bool-cases (is_folded line)) [
  | inl folded ↦ rw folded (continued (Bool-cases (is_empty headers)))
  | inr plain ↦ rw plain (added (Option-cases (split_once b':' line)))
]
  where
    continued :
        (is_empty headers ≡ true) ⊎ (is_empty headers ≡ false)
        → AreFields (add_continuation line (headers, errors)).0
    continued (inl e) = rw (e, add_continuation) h
    continued (inr e) = rw (e, add_continuation) (fold_into_last-AreFields headers (trim line) h)

    added :
        (split_once b':' line ≡ none) ⊎ ((p : Text × Text) × (split_once b':' line ≡ some p))
        → AreFields (add_line line (headers, errors)).0
    added (inl e) = rw (e, add_line) (ground arith)
    added (inr (p, e)) = rw (e, add_line) (add_field-AreFields p (headers, errors) h)

header_loop-AreFields :
    (ls : List Text) (s : Fields × List MessageError)
    → AreFields s.0
    → AreFields (header_loop ls s).0
unfolding header_loop
header_loop-AreFields [] s h = h
header_loop-AreFields (line ∷ ls) s h =
    header_loop-AreFields ls (header_line line s) (header_line-AreFields line s h)

pub parse_headers-AreFields : (block : Text) → AreFields (parse_headers block).0
unfolding parse_headers
parse_headers-AreFields block = header_loop-AreFields (lines block) ([], []) tt
