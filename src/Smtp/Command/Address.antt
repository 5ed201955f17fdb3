-- ===== src/Smtp/Command/Address.antt =====
-- `ParseError` and `validate_email_address` of src/smtp/command.rs.
pub mod Grammar
use Prim.Native.Nat.{ℕ}
use mathlib.Core.Bool.{Bool, true, false, not, ◌&&◌, ◌||◌}
use mathlib.Core.Option.{Option, none, some}
use mathlib.Core.List.{List, [], ◌∷◌, ◌++◌}
use my_mta.Prelude.{ltb, ◌==◌, if◌then◌else◌, all, is_empty, Result, ok, err, ◌>>=◌, ◌>>◌}
use my_mta.Prelude.Text.{
  Text, codes, starts_with, ends_with_char, rsplit_once, split, is_ascii_alphanumeric, len,
}

pub data ParseError : Type 0 where
  empty_command : ParseError
  unrecognized_command invalid_syntax invalid_address : Text → ParseError

-- One round of the loop over the labels of the domain.
validate_label : Text → Result ParseError (Unit {0})
validate_label label =
    if is_empty label || ltb 63 (len label)
    then err (invalid_address (codes "invalid domain label: '" ++ label ++ codes "'"))
    else if starts_with label (codes "-") || ends_with_char label b'-'
    then err (
        invalid_address
          (codes "domain label cannot start/end with hyphen: '" ++ label ++ codes "'"))
    else if not (all (λ c. is_ascii_alphanumeric c || c == b'-') label)
    then err (invalid_address (codes "invalid characters in domain label: '" ++ label ++ codes "'"))
    else ok tt

validate_labels : List Text → Result ParseError (Unit {0})
unfolding validate_label
validate_labels [] = ok tt
validate_labels (label ∷ labels) = validate_label label >> validate_labels labels

validate_domain : Text → Result ParseError (Unit {0})
unfolding validate_labels
validate_domain domain =
    if is_empty domain || ltb 255 (len domain)
    then err (invalid_address (codes "domain must be 1-255 characters"))
    else if starts_with domain (codes "[") && ends_with_char domain b']'
    then ok tt
    else validate_labels (split b'.' domain)

validate_parts : Text → Text → Result ParseError (Unit {0})
unfolding validate_domain
validate_parts local domain =
    if is_empty local || ltb 64 (len local)
    then err (invalid_address (codes "local part must be 1-64 characters"))
    else validate_domain domain

unfoldable pub validate_email_address : Text → Result ParseError (Unit {0})
unfolding validate_parts
validate_email_address [] = ok tt
validate_email_address (c ∷ addr) = elim (rsplit_once b'@' (c ∷ addr)) [
  | none ↦ err (invalid_address (codes "missing '@' in address: " ++ (c ∷ addr)))
  | some (local, domain) ↦ validate_parts local domain
]
