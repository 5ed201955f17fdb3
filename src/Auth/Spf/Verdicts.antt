-- ===== src/Auth/Spf/Verdicts.antt =====
-- What an evaluation of src/auth/spf.rs can say.
use my_mta.Prelude.{
  ℕ, ◌≡◌, refl, sym, ap, ◌∙◌, arith, List, [], ◌∷◌, ◌++◌, true, false, Option, some, All,
  Bool-cases, Option-cases, Result-cases, ◌⊎◌, inl, inr, ok,
}
use my_mta.Prelude.Text.{Text, codes, ◌=ₜ◌, split_whitespace}
use my_mta.Dns.Records.{IpAddr}
use my_mta.Auth.Spf.{
  SpfResult, Mechanism, SpfPolicy, matches, evaluate_from, evaluate, neutral, pass, add_term,
  add_terms, parse_terms, parse_record, settle_default, add_mechanism, default_policy,
}

-- The verdict is Pass by the first mechanism that matches, or the default if none does.
abbrev pub Verdict : SpfResult → IpAddr → List Mechanism → SpfResult → Type 0
Verdict default ip ms v =
    ((front : List Mechanism) × (m : Mechanism) × (back : List Mechanism) × (ms ≡ front ++ m ∷ back)
      × All (λ n. matches ip n ≡ some false) front
      × (matches ip m ≡ some true)
      × (v ≡ pass))
    ⊎ (All (λ n. matches ip n ≡ some false) ms × (v ≡ default))

Verdict-skip :
    (default v : SpfResult) (ip : IpAddr) (m : Mechanism) (ms : List Mechanism)
    → matches ip m ≡ some false
    → Verdict default ip ms v
    → Verdict default ip (m ∷ ms) v
Verdict-skip default v ip m ms e (inl (front, n, back, spelled, misses, hit, same)) =
    inl (m ∷ front, n, back, ap (λ l. m ∷ l) spelled, (e, misses), hit, same)
Verdict-skip default v ip m ms e (inr (misses, same)) = inr ((e, misses), same)

evaluate_from-Verdict :
    (default v : SpfResult) (ip : IpAddr) (ms : List Mechanism)
    → evaluate_from default ip ms ≡ some v
    → Verdict default ip ms v
unfolding evaluate_from
evaluate_from-Verdict default v ip [] h = inr (tt, cc)
evaluate_from-Verdict default v ip (m ∷ ms) h = elim (Option-cases (matches ip m)) [
  | inl panics ↦ cc (rw (panics, evaluate_from) at h)
  | inr (hit, e) ↦ elim (Bool-cases hit) [
    | inl is_hit ↦
        let found : matches ip m ≡ some true = cc in
        inl ([], m, ms, refl, tt, found, cc (rw (found, evaluate_from) at h))
    | inr is_miss ↦
        let missed : matches ip m ≡ some false = cc in
        Verdict-skip default v ip m ms missed
          (evaluate_from-Verdict default v ip ms (rw (missed, evaluate_from) at h))
  ]
]

-- An evaluation that does not panic says Pass by the first mechanism that matches the address, and
-- otherwise the default of the policy.
pub evaluate-Verdict :
    (policy : SpfPolicy) (ip : IpAddr) (v : SpfResult)
    → evaluate policy ip ≡ some v
    → Verdict policy.default_result ip policy.mechanisms v
unfolding evaluate
evaluate-Verdict policy ip v h =
    evaluate_from-Verdict policy.default_result v ip policy.mechanisms h

module _ (parse_ip4 : Text → Option ℕ) (parse_ip6 : Text → Option (List ℕ)) where
  add_term_default :
      (p q : SpfPolicy) (term : Text)
      → add_term parse_ip4 parse_ip6 p term ≡ ok q
      → q.default_result ≡ p.default_result
  unfolding add_term add_mechanism
  add_term_default p q term h = ground arith

  add_terms_default :
      (p q : SpfPolicy) (terms : List Text)
      → add_terms parse_ip4 parse_ip6 p terms ≡ ok q
      → q.default_result ≡ p.default_result
  unfolding add_terms
  add_terms_default p q [] h = ground arith
  add_terms_default p q (term ∷ terms) h =
      elim (Result-cases (add_term parse_ip4 parse_ip6 p term)) [
        | inl (p', e) ↦
            add_terms_default p' q terms (rw (e, add_terms) at h) ∙ add_term_default p p' term e
        | inr (x, e) ↦ cc (rw (e, add_terms) at h)
      ]

  settle_default_neutral :
      (p : SpfPolicy)
      → p.default_result ≡ neutral
      → (settle_default parse_ip4 parse_ip6 p).default_result ≡ neutral
  unfolding settle_default
  settle_default_neutral p h = ground arith

  parse_terms_default :
      (terms : List Text) (p : SpfPolicy)
      → parse_terms parse_ip4 parse_ip6 terms ≡ ok p
      → p.default_result ≡ neutral
  unfolding parse_terms
  parse_terms_default [] p h = cc
  parse_terms_default (version ∷ terms) p h = elim (Bool-cases (version =ₜ codes "v=spf1")) [
    | inr e ↦ cc (rw (e, parse_terms) at h)
    | inl e ↦ elim (Result-cases (add_terms parse_ip4 parse_ip6 default_policy terms)) [
      | inr (x, failed) ↦ cc (rw (e, failed, parse_terms) at h)
      | inl (q, added) ↦
          let same : settle_default parse_ip4 parse_ip6 q ≡ p =
            cc (rw (e, added, parse_terms) at h) in
          rw (sym same) (settle_default_neutral q (add_terms_default default_policy q terms added))
    ]
  ]

  -- No record that parses makes a sender fail: an evaluation that does not panic says Pass or
  -- Neutral.
  pub parsed_never_fails :
      (text : Text) (policy : SpfPolicy) (ip : IpAddr) (v : SpfResult)
      → parse_record parse_ip4 parse_ip6 text ≡ ok policy
      → evaluate policy ip ≡ some v
      → (v ≡ pass) ⊎ (v ≡ neutral)
  unfolding parse_record
  parsed_never_fails text policy ip v parsed evaluated =
      elim (evaluate-Verdict policy ip v evaluated) [
        | inl (front, m, back, spelled, misses, hit, same) ↦ inl same
        | inr (misses, same) ↦
            inr (same ∙ parse_terms_default (split_whitespace text) policy parsed)
      ]
