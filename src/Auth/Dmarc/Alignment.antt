-- ===== src/Auth/Dmarc/Alignment.antt =====
-- Which domains src/auth/dmarc.rs takes for aligned.
use my_mta.Prelude.{
  ◌≡◌, refl, sym, ap, ◌∙◌, arith, [], ◌∷◌, ◌++◌, reverse, true, ◌||◌, Bool-cases, ◌⊎◌, inl, inr,
  ◌↔◌,
}
use mathlib.Core.List.{reverse-append, reverse-reverse}
use my_mta.Prelude.Text.{Text, ◌=ₜ◌, =ₜ_iff, starts_with, ends_with}
use my_mta.Auth.Dmarc.{relaxed, check_dkim_alignment, check_spf_alignment}

starts_with_sound : (s p : Text) → starts_with s p ≡ true → (rest : Text) × (s ≡ p ++ rest)
unfolding starts_with
starts_with_sound s [] h = (s, refl)
starts_with_sound [] (d ∷ p) h = cc
starts_with_sound (c ∷ s) (d ∷ p) h =
    let (rest, e) = starts_with_sound s p (ground arith) in
    let same : c ≡ d = ground arith in (rest, rw (e, same) refl)

starts_with-append : (p rest : Text) → starts_with (p ++ rest) p ≡ true
unfolding starts_with
starts_with-append [] rest = refl
starts_with-append (c ∷ p) rest = rw (starts_with-append p rest) (ground arith)

ends_with_sound : (s p : Text) → ends_with s p ≡ true → (front : Text) × (s ≡ front ++ p)
unfolding ends_with
ends_with_sound s p h =
    let (rest, e) = starts_with_sound (reverse s) (reverse p) h in
    (
      reverse rest,
      sym (reverse-reverse s)
          ∙ ap reverse e
          ∙ reverse-append (reverse p) rest
          ∙ ap (λ q. reverse rest ++ q) (reverse-reverse p),
    )

ends_with-append : (front p : Text) → ends_with (front ++ p) p ≡ true
unfolding ends_with
ends_with-append front p =
    rw (reverse-append front p) (starts_with-append (reverse p) (reverse front))

module _ (lower : Text → Text) where
  -- In relaxed mode a domain is aligned for DKIM, and for SPF, exactly if it is the domain of the From
  -- field or below it, in lower case.
  pub relaxed_iff :
      (from_domain domain : Text)
      → ((check_dkim_alignment lower from_domain domain relaxed ≡ true) ↔ (
          (lower from_domain ≡ lower domain)
          ⊎ ((front : Text) × (lower domain ≡ front ++ b'.' ∷ lower from_domain))))
        × (check_spf_alignment lower from_domain domain relaxed
            ≡ check_dkim_alignment lower from_domain domain relaxed)
  unfolding check_dkim_alignment check_spf_alignment
  relaxed_iff from_domain domain = ((sound, complete), refl)
    where
      sound :
          (lower from_domain =ₜ lower domain || ends_with (lower domain) (b'.' ∷ lower from_domain))
            ≡ true
          → (lower from_domain ≡ lower domain)
            ⊎ ((front : Text) × (lower domain ≡ front ++ b'.' ∷ lower from_domain))
      sound h = elim (Bool-cases (lower from_domain =ₜ lower domain)) [
        | inl e ↦ inl ((=ₜ_iff _ _).0 e)
        | inr e ↦ inr (ends_with_sound _ _ (rw e at h))
      ]

      complete :
          ((lower from_domain ≡ lower domain)
            ⊎ ((front : Text) × (lower domain ≡ front ++ b'.' ∷ lower from_domain)))
          → (lower from_domain =ₜ lower domain
              || ends_with (lower domain) (b'.' ∷ lower from_domain))
            ≡ true
      complete (inl e) = rw ((=ₜ_iff _ _).1 e) refl
      complete (inr (front, e)) =
          let found : ends_with (lower domain) (b'.' ∷ lower from_domain) ≡ true =
            rw e (ends_with-append front (b'.' ∷ lower from_domain)) in
          rw found (ground arith)
