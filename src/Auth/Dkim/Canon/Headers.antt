-- ===== src/Auth/Dkim/Canon/Headers.antt =====
-- The hash input of src/auth/dkim.rs: which headers it covers.
use my_mta.Prelude.{
  ℕ, List, [], ◌∷◌, ◌++◌, false, Option, none, some, ◌≡◌, refl, sym, ◌∙◌, arith, All, Option-cases,
  inl, inr, if◌then◌else◌,
}
use my_mta.Prelude.Text.{Text, codes, ◌=ₜ◌}
use my_mta.Prelude.Text.Table.{get, get-insert}
use my_mta.Auth.Dkim.{Canonicalization}
use my_mta.Auth.Dkim.Canon.{
  last, push_value, header_map, header_out, header_input, signed_input, build_header_hash_input,
}

-- The value that a later one replaces.
abbrev pub or_else {ℓ} : {A : Type ℓ} → Option A → Option A → Option A
or_else none old = old
or_else (some new) old = some new

-- The last value under a name.
value_of : List (Text × List Text) → Text → Option Text
unfolding last
value_of m name = elim (get m name) [ none ↦ none | some values ↦ last values ]

last-append : (values : List Text) (v : Text) → last (values ++ v ∷ []) ≡ some v
unfolding last
last-append [] v = refl
last-append (s ∷ []) v = refl
last-append (s ∷ t ∷ ts) v = last-append (t ∷ ts) v

value_of-push_value :
    (m : List (Text × List Text)) (name asked value : Text)
    → value_of (push_value m name value) asked
      ≡ (if name =ₜ asked then some value else value_of m asked)
unfolding value_of push_value
value_of-push_value m name asked value = elim (Option-cases (get m name)) [
  | inl g ↦ rw (value_of, push_value, g, get-insert m name asked (value ∷ [])) (ground arith)
  | inr (values, g) ↦
      rw (value_of, push_value, g, get-insert m name asked (values ++ value ∷ []))
        (ground (arith, last-append values value))
]

module _ (lower : Text → Text) where
  -- The value of the last header of a name.
  unfoldable pub last_named : Text → List (Text × Text) → Option Text
  unfolding ◌=ₜ◌
  last_named asked [] = none
  last_named asked ((name, value) ∷ headers) =
      or_else (last_named asked headers) (if lower name =ₜ asked then some value else none)

  value_of-header_map :
      (headers : List (Text × Text)) (m : List (Text × List Text)) (asked : Text)
      → value_of (header_map lower headers m) asked
        ≡ or_else (last_named asked headers) (value_of m asked)
  unfolding header_map last_named
  value_of-header_map [] m asked = refl
  value_of-header_map ((name, value) ∷ headers) m asked =
      value_of-header_map headers (push_value m (lower name) value) asked
      ∙ rw (value_of-push_value m (lower name) asked value) (ground arith)

  -- The part of a signed header: that of its last occurrence, or of the signature's own header.
  abbrev pub header_part : List (Text × Text) → Canonicalization → Text → Text → List ℕ
  header_part headers canon dkim_header name =
      if name =ₜ codes "dkim-signature"
      then header_out lower (codes "dkim-signature") dkim_header canon
      else elim (last_named name headers) [
        | none ↦ []
        | some value ↦ header_out lower name value canon
      ]

  unfoldable pub header_parts : List (Text × Text) → List Text → Canonicalization → Text → List ℕ
  header_parts headers [] canon dkim_header = []
  header_parts headers (name ∷ names) canon dkim_header =
      header_part headers canon dkim_header (lower name)
      ++ header_parts headers names canon dkim_header

  header_input-value :
      (m : List (Text × List Text)) (canon : Canonicalization) (dkim_header name : Text)
      → header_input lower m canon dkim_header name ≡ (
          if name =ₜ codes "dkim-signature"
          then header_out lower (codes "dkim-signature") dkim_header canon
          else elim (value_of m name) [
            | none ↦ []
            | some value ↦ header_out lower name value canon
          ])
  unfolding header_input value_of
  header_input-value m canon dkim_header name = elim (Option-cases (get m name)) [
    | inl g ↦ rw (header_input, value_of, g) refl
    | inr (values, g) ↦ rw (header_input, value_of, g) refl
  ]

  or_none : (v : Option Text) → or_else v none ≡ v
  or_none none = refl
  or_none (some v) = refl

  value_of-named :
      (headers : List (Text × Text)) (name : Text)
      → value_of (header_map lower headers []) name ≡ last_named name headers
  unfolding value_of get
  value_of-named headers name =
      value_of-header_map headers [] name ∙ or_none (last_named name headers)

  signed_input-parts :
      (headers : List (Text × Text)) (names : List Text) (canon : Canonicalization)
      (dkim_header : Text)
      → signed_input lower (header_map lower headers []) names canon dkim_header
        ≡ header_parts headers names canon dkim_header
  unfolding signed_input header_parts
  signed_input-parts headers [] canon dkim_header = refl
  signed_input-parts headers (name ∷ names) canon dkim_header =
      rw
        (
          header_input-value (header_map lower headers []) canon dkim_header (lower name),
          value_of-named headers (lower name),
          signed_input-parts headers names canon dkim_header,
        )
        refl

  -- The hash input is made of the last header of each signed name, in the order of the names, and of
  -- the signature's own header only where its name is among them.
  pub build_header_hash_input-parts :
      (headers : List (Text × Text)) (names : List Text) (canon : Canonicalization)
      (dkim_header : Text)
      → build_header_hash_input lower headers names canon dkim_header
        ≡ header_parts headers names canon dkim_header
  unfolding build_header_hash_input
  build_header_hash_input-parts = signed_input-parts

  parts_other :
      (headers : List (Text × Text)) (names : List Text) (canon : Canonicalization)
      (one other : Text)
      → All (λ name. (lower name =ₜ codes "dkim-signature") ≡ false) names
      → header_parts headers names canon one ≡ header_parts headers names canon other
  unfolding header_parts
  parts_other headers [] canon one other h = refl
  parts_other headers (name ∷ names) canon one other (h, hs) =
      rw (h, parts_other headers names canon one other hs) refl

  -- Where the name of the signature's own header is not signed, the hash input does not depend on it.
  pub build_header_hash_input_other :
      (headers : List (Text × Text)) (names : List Text) (canon : Canonicalization)
      (one other : Text)
      → All (λ name. (lower name =ₜ codes "dkim-signature") ≡ false) names
      → build_header_hash_input lower headers names canon one
        ≡ build_header_hash_input lower headers names canon other
  build_header_hash_input_other headers names canon one other h =
      build_header_hash_input-parts headers names canon one
      ∙ parts_other headers names canon one other h
      ∙ sym (build_header_hash_input-parts headers names canon other)
