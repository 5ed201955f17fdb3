-- ===== src/Http/Api/Checks.antt =====
-- What the checks of src/http/api.rs let through.
use my_mta.Prelude.{
  ℕ, ◌≤◌, ◌<◌, ◌≡◌, refl, arith, List, [], ◌∷◌, ◌++◌, length, not, All, Bool-cases, Result-cases,
  inl, inr, if◌then◌else◌, is_empty, ltb, ok, err, false, >>-sound, >>-complete,
}
use my_mta.Prelude.Text.{Text, codes}
use my_mta.Smtp.Command.Address.{validate_email_address}
use my_mta.Http.Api.{ErrorResponse, check_address, check_each, validate_recipients}

abbrev pub IsValidAddress : Text → Type 0
IsValidAddress a = validate_email_address a ≡ ok tt

check_address_sound :
    (prefix a : Text) (u : Unit {0}) → check_address prefix a ≡ ok u → IsValidAddress a
unfolding check_address
check_address_sound prefix a u h = elim (Result-cases (validate_email_address a)) [
  | inl (v, e) ↦ e
  | inr (x, e) ↦ cc (rw (e, check_address) at h)
]

-- The null sender needs no check.
pub raw_sender_sound :
    (prefix s : Text) (u : Unit {0})
    → (if not (is_empty s) then check_address prefix s else ok tt) ≡ ok u
    → IsValidAddress s
unfolding validate_email_address
raw_sender_sound prefix [] u h = refl
raw_sender_sound prefix (c ∷ s) u h = check_address_sound prefix (c ∷ s) u h

pub sender_sound :
    (prefix s : Text) (x : ErrorResponse) (u : Unit {0})
    → (if is_empty s then err x else check_address prefix s) ≡ ok u
    → IsValidAddress s
sender_sound prefix [] x u h = cc
sender_sound prefix (c ∷ s) x u h = check_address_sound prefix (c ∷ s) u h

check_each_sound :
    (addresses : List Text) (u : Unit {0})
    → check_each addresses ≡ ok u
    → All IsValidAddress addresses
unfolding check_each
check_each_sound [] u h = tt
check_each_sound (a ∷ addresses) u h =
    let prefix = codes "invalid recipient '" ++ a ++ codes "': " in
    let (first, rest) = >>-sound (check_address prefix a) (check_each addresses) u h in
    (check_address_sound prefix a tt first, check_each_sound addresses u rest)

pub validate_recipients_sound :
    (recipients : List Text) (max : ℕ) (u : Unit {0})
    → validate_recipients recipients max ≡ ok u
    → (0 < length recipients) × (length recipients ≤ max) × All IsValidAddress recipients
unfolding validate_recipients
validate_recipients_sound [] max u h = cc
validate_recipients_sound (a ∷ addresses) max u h =
    elim (Bool-cases (ltb max (length (a ∷ addresses)))) [
      | inl e ↦ cc (rw (e, validate_recipients) at h)
      | inr e ↦ (
        omega arith,
        ground arith,
        check_each_sound (a ∷ addresses) u (rw (e, validate_recipients) at h),
      )
    ]

check_address_complete : (prefix a : Text) → IsValidAddress a → check_address prefix a ≡ ok tt
unfolding check_address
check_address_complete prefix a h = rw (check_address, h) refl

check_each_complete :
    (addresses : List Text) → All IsValidAddress addresses → check_each addresses ≡ ok tt
unfolding check_each
check_each_complete [] h = refl
check_each_complete (a ∷ addresses) (h, hs) =
    let prefix = codes "invalid recipient '" ++ a ++ codes "': " in
    >>-complete (check_address prefix a) (check_each addresses) tt
      (check_address_complete prefix a h) (check_each_complete addresses hs)

pub validate_recipients_complete :
    (first : Text) (recipients : List Text) (max : ℕ)
    → length (first ∷ recipients) ≤ max
    → All IsValidAddress (first ∷ recipients)
    → validate_recipients (first ∷ recipients) max ≡ ok tt
unfolding validate_recipients
validate_recipients_complete first recipients max room valid =
    let fits : ltb max (length (first ∷ recipients)) ≡ false = ground arith in
    rw (validate_recipients, fits) (check_each_complete (first ∷ recipients) valid)
