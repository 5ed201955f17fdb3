-- ===== src/Tests/Auth.antt =====
-- Records for src/auth.
use my_mta.Prelude.{ℕ, List, [], ◌∷◌, ◌++◌, true, Option, none, some, ◌≡◌, refl, ◌↔◌, ◌⊎◌}
use my_mta.Prelude.Text.{
  Text, codes, ◌=ₜ◌, to_ascii_lowercase, split_whitespace, split_once, starts_with,
}
use my_mta.Dns.Records.{v4}
use my_mta.Auth.Spf.{SpfPolicy, Mechanism, SpfResult, parse_record, evaluate}
use my_mta.Auth.Spf.Verdicts.{Verdict, evaluate-Verdict, parsed_never_fails}
use my_mta.Auth.Dmarc.{AlignmentMode, check_dkim_alignment, check_spf_alignment}
use my_mta.Auth.Dmarc.Alignment.{relaxed_iff}

abbrev only_one : Text → Option ℕ
only_one s = some 1

abbrev no_ip6 : Text → Option (List ℕ)
no_ip6 s = none

abbrev policy : SpfPolicy
policy = record {
  mechanisms = Mechanism.ip4 1 32 ∷ Mechanism.everything ∷ [];
  default_result = SpfResult.neutral;
  modifiers = [];
}

evaluate-Verdict_example :
    Verdict SpfResult.neutral (v4 2) (Mechanism.ip4 1 32 ∷ Mechanism.everything ∷ []) SpfResult.pass
unfolding evaluate
evaluate-Verdict_example = evaluate-Verdict policy (v4 2) SpfResult.pass refl

parsed_never_fails_example :
    (SpfResult.pass ≡ SpfResult.pass) ⊎ (SpfResult.pass ≡ SpfResult.neutral)
unfolding evaluate parse_record split_whitespace ◌=ₜ◌ split_once starts_with
parsed_never_fails_example =
    parsed_never_fails only_one no_ip6 (codes "v=spf1 ip4:0.0.0.1 -all") policy (v4 2)
      SpfResult.pass refl refl

relaxed_iff_example :
    ((check_dkim_alignment to_ascii_lowercase
          (codes "B.com")
          (codes "x.b.com")
          AlignmentMode.relaxed
        ≡ true)
      ↔ ((to_ascii_lowercase (codes "B.com") ≡ to_ascii_lowercase (codes "x.b.com"))
          ⊎ ((front : Text) × (to_ascii_lowercase (codes "x.b.com")
                ≡ front ++ b'.' ∷ to_ascii_lowercase (codes "B.com")))))
    × (check_spf_alignment to_ascii_lowercase
          (codes "B.com")
          (codes "x.b.com")
          AlignmentMode.relaxed
        ≡ check_dkim_alignment to_ascii_lowercase
            (codes "B.com")
            (codes "x.b.com")
            AlignmentMode.relaxed)
relaxed_iff_example = relaxed_iff to_ascii_lowercase (codes "B.com") (codes "x.b.com")
