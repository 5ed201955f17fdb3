-- ===== src/Auth/Dkim/Sign/Coverage.antt =====
-- What a signature of src/auth/dkim.rs covers.
use my_mta.Prelude.{
  ℕ, List, ◌++◌, false, Option, ◌≡◌, refl, ap, ◌∙◌, All, ok, Result-cases, inl, inr,
}
use my_mta.Prelude.Text.{Text, codes, ◌=ₜ◌}
use my_mta.Auth.Dkim.Canon.{canonicalize_body, fold_signature}
use my_mta.Auth.Dkim.Canon.Headers.{build_header_hash_input_other}
use my_mta.Auth.Dkim.Sign.{
  Crypto, DkimSigner, compute_body_hash, header_without_signature, sign_data, to_be_signed, sign,
}

module _ (crypto : Crypto) (lossy : List ℕ → Text) (lower : Text → Text)
    (signer : DkimSigner crypto) where
  -- The header of a message without its signature.
  abbrev pub unsigned : Option ℕ → List ℕ → Text
  unsigned time body =
      header_without_signature crypto signer.config time
        (compute_body_hash crypto (canonicalize_body lossy body signer.config.body_canon))

  same_data :
      (time time' : Option ℕ) (headers : List (Text × Text)) (body body' : List ℕ)
      → All (λ name. (lower name =ₜ codes "dkim-signature") ≡ false) signer.config.signed_headers
      → (to_be_signed crypto lossy lower signer time headers body).1
        ≡ (to_be_signed crypto lossy lower signer time' headers body').1
  unfolding to_be_signed
  same_data time time' headers body body' h =
      build_header_hash_input_other lower headers signer.config.signed_headers
        signer.config.header_canon (unsigned time body) (unsigned time' body') h

  -- Where the configuration does not sign the header of the signature itself, the signature that is
  -- made for one body at one time is made for every other body and time with the same headers: it
  -- covers neither the body hash nor the time.
  pub sign_other_body :
      (time time' : Option ℕ) (headers : List (Text × Text)) (body body' : List ℕ) (out : Text)
      → All (λ name. (lower name =ₜ codes "dkim-signature") ≡ false) signer.config.signed_headers
      → sign crypto lossy lower signer time headers body ≡ ok out
      → (signature : Text) × (out ≡ unsigned time body ++ signature)
        × (sign crypto lossy lower signer time' headers body'
            ≡ ok (unsigned time' body' ++ signature))
  unfolding sign to_be_signed
  sign_other_body time time' headers body body' out h signed =
      elim (Result-cases
        (sign_data crypto signer (to_be_signed crypto lossy lower signer time headers body).1)) [
          | inr (e, g) ↦ cc (rw (sign, g) at signed)
          | inl (s, g) ↦
              let same = same_data time' time headers body' body h in
              let g' = ap (sign_data crypto signer) same ∙ g in
              (fold_signature (crypto.base64 s), cc (rw (sign, g) at signed), rw (sign, g') refl)
        ]
