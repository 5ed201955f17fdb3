-- ===== src/Smtp/Command/Address/Grammar.antt =====
-- The addresses that `validate_email_address` accepts, described by a grammar.
use Prim.Native.Nat.{ℕ, ◌≤◌}
use mathlib.Core.Path.{◌≡◌, refl, ◌∙◌}
use mathlib.Core.Logic.{◌↔◌, ◌⊎◌, inl, inr}
use mathlib.Core.Bool.{Bool, true, false, ◌&&◌, ◌||◌}
use mathlib.Core.Option.{some}
use mathlib.Core.List.{List, [], ◌∷◌, ◌++◌}
use native.Mathlib.Omega.{arith}
use my_mta.Prelude.{
  ltb, ◌==◌, if◌then◌else◌, is_empty, all, All, Result, ok, err, >>-sound, >>-complete,
  Option-cases,
}
use my_mta.Prelude.Text.{
  Text, codes, starts_with, ends_with_char, rsplit_once, split, is_ascii_alphanumeric, len,
}
use my_mta.Prelude.Text.Laws.{Lacks, rsplit_once-append, rsplit_once_sound}
use my_mta.Smtp.Command.Address.{
  ParseError, validate_label, validate_labels, validate_domain, validate_parts,
  validate_email_address,
}

-- One label of a domain: 1 to 63 letters, digits and hyphens, with no hyphen at either end.
pub record IsLabel (label : Text) : Type 0 where
  pub nonempty : is_empty label ≡ false
  pub short : len label ≤ 63
  pub start : starts_with label (codes "-") ≡ false
  pub end : ends_with_char label b'-' ≡ false
  pub letters : All (λ c. (is_ascii_alphanumeric c || c == b'-') ≡ true) label

-- `[...]`
abbrev pub IsLiteral : Text → Type 0
IsLiteral domain = (starts_with domain (codes "[") && ends_with_char domain b']') ≡ true

-- 1 to 255 bytes, a literal or labels between dots.
pub record IsDomain (domain : Text) : Type 0 where
  pub nonempty : is_empty domain ≡ false
  pub short : len domain ≤ 255
  pub parts : IsLiteral domain ⊎ All IsLabel (split b'.' domain)

pub record IsMailbox (a local domain : Text) : Type 0 where
  pub spelled : a ≡ local ++ b'@' ∷ domain
  pub last_at : Lacks (λ c. c == b'@') domain
  pub nonempty : is_empty local ≡ false
  pub short : len local ≤ 64
  pub domain_ok : IsDomain domain

-- The null sender, or `local@domain` split at the last `@`.
abbrev pub IsEmail : Text → Type 0
IsEmail a = (a ≡ []) ⊎ ((local : Text) × (domain : Text) × IsMailbox a local domain)

all_sound : (p : ℕ → Bool) (s : Text) → all p s ≡ true → All (λ c. p c ≡ true) s
all_sound p [] e = tt
all_sound p (c ∷ s) e = ground (arith, all_sound p s)

all_complete : (p : ℕ → Bool) (s : Text) → All (λ c. p c ≡ true) s → all p s ≡ true
all_complete p [] h = refl
all_complete p (c ∷ s) h = ground (arith, all_complete p s h.1)

validate_label_sound : (l : Text) → validate_label l ≡ ok tt → IsLabel l
unfolding validate_label
validate_label_sound l e = ground (arith, all_sound (λ c. is_ascii_alphanumeric c || c == b'-') l)

validate_label_complete : (l : Text) → IsLabel l → validate_label l ≡ ok tt
unfolding validate_label
validate_label_complete l h =
    ground (arith, all_complete (λ c. is_ascii_alphanumeric c || c == b'-') l h.letters)

validate_labels_sound : (ls : List Text) → validate_labels ls ≡ ok tt → All IsLabel ls
unfolding validate_labels
validate_labels_sound [] e = tt
validate_labels_sound (l ∷ ls) e =
    let (first, rest) = >>-sound (validate_label l) (validate_labels ls) tt e in
    (validate_label_sound l first, validate_labels_sound ls rest)

validate_labels_complete : (ls : List Text) → All IsLabel ls → validate_labels ls ≡ ok tt
unfolding validate_labels
validate_labels_complete [] h = refl
validate_labels_complete (l ∷ ls) h =
    >>-complete (validate_label l) (validate_labels ls) tt (validate_label_complete l h.0)
      (validate_labels_complete ls h.1)

domain_tests :
    (empty big : Bool) (literal : Bool) (m : Result ParseError (Unit {0})) (x : ParseError)
    → ◌≡◌ {A = Result ParseError (Unit {0})}
        (if empty || big then err x else if literal then ok tt else m)
        (ok tt)
    → (empty ≡ false) × (big ≡ false) × ((literal ≡ true) ⊎ (m ≡ ok tt))
domain_tests empty big literal m x e = ground arith

validate_domain_sound : (d : Text) → validate_domain d ≡ ok tt → IsDomain d
unfolding validate_domain
validate_domain_sound d e =
    let (filled, short, form) =
      domain_tests (is_empty d) (ltb 255 (len d)) _ (validate_labels (split b'.' d)) _ e in
    record {
      nonempty = filled;
      short = ground arith;
      parts = elim form [ inl lit ↦ inl lit | inr ls ↦ inr (validate_labels_sound _ ls) ];
    }

validate_domain_complete : (d : Text) → IsDomain d → validate_domain d ≡ ok tt
unfolding validate_domain
validate_domain_complete d h = elim h.parts [
  | inl lit ↦ ground arith
  | inr ls ↦ ground (arith, validate_labels_complete _ ls)
]

size_tests :
    (empty big : Bool) (m : Result ParseError (Unit {0})) (x : ParseError)
    → ◌≡◌ {A = Result ParseError (Unit {0})} (if empty || big then err x else m) (ok tt)
    → (empty ≡ false) × (big ≡ false) × (m ≡ ok tt)
size_tests empty big m x e = ground arith

validate_parts_sound :
    (l d : Text) → validate_parts l d ≡ ok tt → (is_empty l ≡ false) × (len l ≤ 64) × IsDomain d
unfolding validate_parts
validate_parts_sound l d e =
    let (filled, short, rest) = size_tests (is_empty l) (ltb 64 (len l)) (validate_domain d) _ e in
    (filled, ground arith, validate_domain_sound d rest)

validate_parts_complete :
    (l d : Text) → is_empty l ≡ false → len l ≤ 64 → IsDomain d → validate_parts l d ≡ ok tt
unfolding validate_parts
validate_parts_complete l d filled short h = ground (arith, validate_domain_complete d h)

IsEmail-sound : (a : Text) → validate_email_address a ≡ ok tt → IsEmail a
IsEmail-sound [] e = inl refl
IsEmail-sound (c ∷ a) e = elim (Option-cases (rsplit_once b'@' (c ∷ a))) [
  | inl missing ↦ unfold validate_email_address in cc (rw (missing, validate_email_address) at e)
  | inr (parts, found) ↦ inr (mailbox parts found)
]
  where
    mailbox :
        (p : Text × Text)
        → rsplit_once b'@' (c ∷ a) ≡ some p
        → (local : Text) × (domain : Text) × IsMailbox (c ∷ a) local domain
    mailbox (local, domain) found =
        let (spelled, last_at) = rsplit_once_sound b'@' (c ∷ a) local domain found in
        let (filled, short, rest) =
          validate_parts_sound local domain
            (unfold validate_email_address in rw (found, validate_email_address) at e) in
        (
          local,
          domain,
          record {
            spelled = spelled;
            last_at = last_at;
            nonempty = filled;
            short = short;
            domain_ok = rest;
          },
        )

-- `validate_email_address` where the last `@` is known.
at_last :
    (a local domain : Text)
    → rsplit_once b'@' a ≡ some (local, domain)
    → validate_email_address a ≡ validate_parts local domain
unfolding validate_email_address
at_last [] local domain found = unfold rsplit_once in cc
at_last (c ∷ a) local domain found = rw (found, validate_email_address)

IsEmail-complete : (a : Text) → IsEmail a → validate_email_address a ≡ ok tt
IsEmail-complete a (inl e) = rw e (unfold validate_email_address in refl)
IsEmail-complete a (inr (local, domain, m)) =
    at_last a local domain (rw m.spelled (rsplit_once-append b'@' local domain m.last_at))
    ∙ validate_parts_complete local domain m.nonempty m.short m.domain_ok

-- An address is accepted exactly if the grammar has it.
pub validate_iff_IsEmail : (a : Text) → (validate_email_address a ≡ ok tt) ↔ IsEmail a
validate_iff_IsEmail a = (IsEmail-sound a, IsEmail-complete a)
