-- ===== src/Auth/Dkim/Canon.antt =====
-- Canonical forms, the hash input and the folding of src/auth/dkim.rs. `lossy` is
-- `String::from_utf8_lossy` and `lower` is `str::to_lowercase`.
pub mod Body
pub mod Headers
pub mod Folding
use my_mta.Prelude.{
  ℕ, zero, suc, List, [], ◌∷◌, ◌++◌, length, take, drop, is_empty, select, Bool, true, false, not,
  ◌&&◌, ◌==◌, Option, none, some, leb, ltb, if◌then◌else◌,
}
use my_mta.Prelude.Text.{
  Text, codes, ◌=ₜ◌, trim, trim_end_matches, is_whitespace, ends_with, split_whitespace, as_bytes,
  lines,
}
use my_mta.Prelude.Text.Table.{get, insert}
use my_mta.Auth.Dkim.{Canonicalization, simple, relaxed}

abbrev pub crlf : List ℕ
crlf = codes "\r\n"

-- The loop that pops blank lines from the end.
unfoldable pub pop_blank : List Text → List Text
unfolding trim
pop_blank [] = []
pop_blank (line ∷ lines) = elim (pop_blank lines) [
  | [] ↦ if is_empty (trim line) then [] else line ∷ []
  | kept ∷ more ↦ line ∷ kept ∷ more
]

-- The loop over the lines that are left.
unfoldable pub lines_out : List Text → List ℕ
unfolding as_bytes trim_end_matches is_whitespace
lines_out [] = []
lines_out (line ∷ lines) =
    (as_bytes (trim_end_matches is_whitespace line) ++ crlf) ++ lines_out lines

unfoldable pub relaxed_lines : List Text → List ℕ
unfolding lines_out
relaxed_lines lines = if is_empty lines then crlf else lines_out lines

unfoldable pub canonicalize_body : (List ℕ → Text) → List ℕ → Canonicalization → List ℕ
unfolding ends_with relaxed_lines pop_blank lines
canonicalize_body lossy body simple =
    if is_empty body then crlf else if ends_with body crlf then body else body ++ crlf
canonicalize_body lossy body relaxed =
    if is_empty body then crlf else relaxed_lines (pop_blank (lines (lossy body)))

-- `replace("\r\n", "")`
without_crlf : Text → Text
without_crlf [] = []
without_crlf (c ∷ []) = c ∷ []
without_crlf (c ∷ d ∷ s) =
    let behind = without_crlf s in
    let rest = without_crlf (d ∷ s) in if c == 13 && d == 10 then behind else c ∷ rest

-- `join` with one character between the parts.
unfoldable pub join : ℕ → List Text → Text
join c [] = []
join c (s ∷ []) = s
join c (s ∷ t ∷ ts) = s ++ (c ∷ join c (t ∷ ts))

unfoldable pub canonicalize_header : (Text → Text) → Text → Text → Canonicalization → Text
unfolding without_crlf join split_whitespace
canonicalize_header lower name value simple = name ++ codes ":" ++ value
canonicalize_header lower name value relaxed =
    let value' = select (λ c. not (c == 13)) (select (λ c. not (c == 10)) (without_crlf value)) in
    lower name ++ codes ":" ++ join b' ' (split_whitespace value')

-- `entry(name).or_default().push(value)`
unfoldable pub push_value : List (Text × List Text) → Text → Text → List (Text × List Text)
unfolding get insert
push_value m name value = elim (get m name) [
  | none ↦ insert m name (value ∷ [])
  | some values ↦ insert m name (values ++ value ∷ [])
]

unfoldable pub header_map :
    (Text → Text) → List (Text × Text) → List (Text × List Text) → List (Text × List Text)
unfolding push_value
header_map lower [] m = m
header_map lower ((name, value) ∷ headers) m =
    header_map lower headers (push_value m (lower name) value)

unfoldable pub last : List Text → Option Text
last [] = none
last (s ∷ []) = some s
last (s ∷ t ∷ ts) = last (t ∷ ts)

-- A header in its canonical form, with its end.
unfoldable pub header_out : (Text → Text) → Text → Text → Canonicalization → List ℕ
unfolding canonicalize_header as_bytes
header_out lower name value canon = as_bytes (canonicalize_header lower name value canon) ++ crlf

-- One round of the loop over the signed headers.
unfoldable pub header_input :
    (Text → Text) → List (Text × List Text) → Canonicalization → Text → Text → List ℕ
unfolding header_out last get ◌=ₜ◌
header_input lower m canon dkim_header name =
    if name =ₜ codes "dkim-signature"
    then header_out lower (codes "dkim-signature") dkim_header canon
    else elim (get m name) [
      | none ↦ []
      | some values ↦ elim (last values) [
        | none ↦ []
        | some value ↦ header_out lower name value canon
      ]
    ]

unfoldable pub signed_input :
    (Text → Text) → List (Text × List Text) → List Text → Canonicalization → Text → List ℕ
unfolding header_input
signed_input lower m [] canon dkim_header = []
signed_input lower m (name ∷ names) canon dkim_header =
    header_input lower m canon dkim_header (lower name)
    ++ signed_input lower m names canon dkim_header

unfoldable pub build_header_hash_input :
    (Text → Text) → List (Text × Text) → List Text → Canonicalization → Text → List ℕ
unfolding signed_input header_map
build_header_hash_input lower headers signed_headers canon dkim_header =
    signed_input lower (header_map lower headers []) signed_headers canon dkim_header

abbrev pub max_line_len : ℕ
max_line_len = 76

-- The loop of `fold_signature`. It counts characters where the source slices bytes, which are the same
-- on ASCII such as base64; each round takes a character, so the length is fuel enough.
unfoldable pub fold_from : ℕ → Text → Text
fold_from zero sig = []
fold_from (suc fuel) sig =
    let rest = fold_from fuel (drop max_line_len sig) in
    if is_empty sig
    then []
    else if ltb max_line_len (length sig)
    then take max_line_len sig ++ (codes "\r\n " ++ rest)
    else take max_line_len sig ++ rest

unfoldable pub fold_signature : Text → Text
unfolding fold_from
fold_signature sig = if leb (length sig) max_line_len then sig else fold_from (length sig) sig
