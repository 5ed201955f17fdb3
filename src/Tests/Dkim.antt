-- ===== src/Tests/Dkim.antt =====
-- Signatures of src/auth/dkim.rs on concrete messages.
use my_mta.Prelude.{ℕ, List, [], ◌∷◌, ◌++◌, some, ◌≡◌, refl, arith, ok, err}
use my_mta.Prelude.Text.{Text, is_whitespace, codes, to_ascii_lowercase, ◌=ₜ◌}
use my_mta.Auth.Dkim
use my_mta.Auth.Dkim.{DkimConfig, relaxed}
use my_mta.Auth.Dkim.Canon.Body.{canonicalize_body_again}
use my_mta.Auth.Dkim.Canon.{canonicalize_body, build_header_hash_input, fold_signature}
use my_mta.Auth.Dkim.Canon.Headers.{header_parts, build_header_hash_input-parts}
use my_mta.Auth.Dkim.Canon.Folding.{unfolded, unfolded-fold_signature}
use my_mta.Auth.Dkim.Sign.{Crypto, DkimSigner, sign_data, sign}
use my_mta.Auth.Dkim.Sign.Coverage.{unsigned, sign_other_body}
use my_mta.Tests.Utf8.{decode, decode-as_bytes}

-- Bytes stand for their own hash and their own base64.
abbrev crypto : Crypto
crypto = record {
  RsaPrivateKey = ℕ;
  read = λ path. ok [];
  from_utf8 = λ bytes. ok bytes;
  from_pkcs8_pem = λ text. ok 0;
  from_pkcs8_der = λ bytes. ok 0;
  try_sign = λ key bytes. ok (key ∷ bytes);
  public_key_der = λ key. ok (key ∷ []);
  sha256 = λ bytes. bytes;
  base64 = λ bytes. bytes;
}

abbrev signer : DkimSigner crypto
signer = record { config = Dkim.new (codes "s") (codes "b.com") (codes "key"); signing_key = 65 }

abbrev headers : List (Text × Text)
headers = (codes "From", codes "a@b.com") ∷ (codes "from", codes "x@b.com") ∷ []

abbrev signature : Text
signature =
    codes
      "QUJDREVGR0hJSktMTU5PUFFSU1RVVldYWVpBQkNERUZHSElKS0xNTk9QUVJTVFVWV1hZWkFCQ0RFRkdISUpLTE1OT1A="

build_header_hash_input-parts_example :
    build_header_hash_input to_ascii_lowercase headers (codes "From" ∷ []) relaxed (codes "v=1")
    ≡ header_parts to_ascii_lowercase headers (codes "From" ∷ []) relaxed (codes "v=1")
build_header_hash_input-parts_example =
    build_header_hash_input-parts to_ascii_lowercase headers (codes "From" ∷ []) relaxed
      (codes "v=1")

unfolded-fold_signature_example : unfolded (fold_signature signature) ≡ signature
unfolding is_whitespace
unfolded-fold_signature_example = unfolded-fold_signature signature (ground arith)

abbrev made : Text
made = elim (sign crypto decode to_ascii_lowercase signer (some 5) headers (codes "Hi")) [
  | ok out ↦ out
  | err e ↦ []
]

sign_other_body_example :
    (s : Text) × (made
      ≡ unsigned crypto decode to_ascii_lowercase signer (some 5) (codes "Hi") ++ s)
    × (sign crypto decode to_ascii_lowercase signer (some 6) headers (codes "Forged")
        ≡ ok (unsigned crypto decode to_ascii_lowercase signer (some 6) (codes "Forged") ++ s))
unfolding sign sign_data ◌=ₜ◌ to_ascii_lowercase Dkim.new
sign_other_body_example =
    sign_other_body crypto decode to_ascii_lowercase signer (some 5) (some 6) headers (codes "Hi")
      (codes "Forged") made (ground arith) refl

abbrev body : List ℕ
body = codes "Hi  \n x\n\n"

canonicalize_body_again_example :
    canonicalize_body decode (canonicalize_body decode body relaxed) relaxed
    ≡ canonicalize_body decode body relaxed
canonicalize_body_again_example = canonicalize_body_again decode decode-as_bytes body relaxed
