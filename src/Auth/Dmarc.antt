-- ===== src/Auth/Dmarc.antt =====
-- src/auth/dmarc.rs: DMARC records, alignment and policies. `lower` is `str::to_lowercase`.
pub mod Verifier
pub mod Alignment
use my_mta.Prelude.{
  ℕ, List, [], ◌∷◌, ◌++◌, map, Bool, true, false, not, ◌&&◌, ◌||◌, Option, none, some,
  if◌then◌else◌, is_empty, select, Result, ok, err,
}
use my_mta.Prelude.Text.{
  Text, codes, ◌=ₜ◌, trim, starts_with, ends_with, split, split_once, eq_ignore_ascii_case,
}
use my_mta.Prelude.Text.Numbers.{parse_uint, u8_max}

pub data DmarcPolicy : Type 0 where
  monitor quarantine reject : DmarcPolicy

unfoldable pub requires_action : DmarcPolicy → Bool
requires_action monitor = false
requires_action _ = true

unfoldable pub smtp_response : DmarcPolicy → Option (ℕ × Text)
smtp_response reject = some (550, codes "Message rejected per DMARC policy")
smtp_response _ = none

-- `Display`
unfoldable pub policy_name : DmarcPolicy → Text
policy_name monitor = codes "none"
policy_name quarantine = codes "quarantine"
policy_name reject = codes "reject"

pub data AlignmentMode : Type 0 where
  relaxed strict : AlignmentMode

-- `Display`
unfoldable pub mode_name : AlignmentMode → Text
mode_name relaxed = codes "r"
mode_name strict = codes "s"

pub data DmarcResult : Type 0 where
  absent pass fail temp_error perm_error : DmarcResult

unfoldable pub is_pass : DmarcResult → Bool
is_pass pass = true
is_pass _ = false

unfoldable pub is_fail : DmarcResult → Bool
is_fail fail = true
is_fail _ = false

unfoldable pub is_error : DmarcResult → Bool
is_error temp_error = true
is_error perm_error = true
is_error _ = false

pub data DmarcError : Type 0 where
  invalid_version : DmarcError
  invalid_policy : (value : Text) → DmarcError
  invalid_alignment : (value : Text) → DmarcError

pub record DmarcRecord : Type 0 where
  pub policy : DmarcPolicy
  pub subdomain_policy : Option DmarcPolicy
  pub dkim_alignment : AlignmentMode
  pub spf_alignment : AlignmentMode
  pub percentage : ℕ
  pub report_uri_aggregate : List Text
  pub report_uri_forensic : List Text
  pub failure_options : List ℕ

abbrev pub default_record : DmarcRecord
default_record = record {
  policy = monitor;
  subdomain_policy = none;
  dkim_alignment = relaxed;
  spf_alignment = relaxed;
  percentage = 100;
  report_uri_aggregate = [];
  report_uri_forensic = [];
  failure_options = b'0' ∷ [];
}

unfoldable pub parse_uri_list : Text → List Text
parse_uri_list s = select (λ uri. not (is_empty uri)) (map trim (split b',' s))

unfoldable pub evaluate : DmarcRecord → Bool → Bool → DmarcResult
evaluate r dkim_aligned spf_aligned = if dkim_aligned || spf_aligned then pass else fail

unfoldable pub effective_policy : DmarcRecord → Bool → DmarcPolicy
effective_policy r is_subdomain = elim r.subdomain_policy [
  | some policy ↦ if is_subdomain then policy else r.policy
  | none ↦ r.policy
]

unfoldable pub dns_record_name : Text → Text
dns_record_name domain = codes "_dmarc." ++ domain

module _ (lower : Text → Text) where
  unfoldable pub parse_policy : Text → Result DmarcError DmarcPolicy
  parse_policy s =
      if lower s =ₜ codes "none"
      then ok monitor
      else if lower s =ₜ codes "quarantine"
      then ok quarantine
      else if lower s =ₜ codes "reject"
      then ok reject
      else err (invalid_policy s)

  unfoldable pub parse_alignment : Text → Result DmarcError AlignmentMode
  parse_alignment s =
      if lower s =ₜ codes "r" || lower s =ₜ codes "relaxed"
      then ok relaxed
      else if lower s =ₜ codes "s" || lower s =ₜ codes "strict"
      then ok strict
      else err (invalid_alignment s)

  with_policy : DmarcRecord → Result DmarcError DmarcPolicy → Result DmarcError DmarcRecord
  with_policy r (err e) = err e
  with_policy r (ok p) = ok (record r { policy = p })

  with_subdomain_policy :
      DmarcRecord → Result DmarcError DmarcPolicy → Result DmarcError DmarcRecord
  with_subdomain_policy r (err e) = err e
  with_subdomain_policy r (ok p) = ok (record r { subdomain_policy = some p })

  with_dkim_alignment :
      DmarcRecord → Result DmarcError AlignmentMode → Result DmarcError DmarcRecord
  with_dkim_alignment r (err e) = err e
  with_dkim_alignment r (ok m) = ok (record r { dkim_alignment = m })

  with_spf_alignment : DmarcRecord → Result DmarcError AlignmentMode → Result DmarcError DmarcRecord
  with_spf_alignment r (err e) = err e
  with_spf_alignment r (ok m) = ok (record r { spf_alignment = m })

  percentage_of : Option ℕ → ℕ
  percentage_of none = 100
  percentage_of (some n) = n

  -- The match on the key.
  unfoldable pub set_tag : DmarcRecord → Text → Text → Result DmarcError DmarcRecord
  unfolding with_policy with_subdomain_policy with_dkim_alignment with_spf_alignment percentage_of
      parse_policy parse_alignment parse_uri_list
  set_tag r key value =
      if key =ₜ codes "p"
      then with_policy r (parse_policy value)
      else if key =ₜ codes "sp"
      then with_subdomain_policy r (parse_policy value)
      else if key =ₜ codes "adkim"
      then with_dkim_alignment r (parse_alignment value)
      else if key =ₜ codes "aspf"
      then with_spf_alignment r (parse_alignment value)
      else if key =ₜ codes "pct"
      then ok (record r { percentage = percentage_of (parse_uint u8_max value) })
      else if key =ₜ codes "rua"
      then ok (record r { report_uri_aggregate = parse_uri_list value })
      else if key =ₜ codes "ruf"
      then ok (record r { report_uri_forensic = parse_uri_list value })
      else if key =ₜ codes "fo"
      then ok (record r { failure_options = value })
      else ok r

  unfoldable pub apply_tag : DmarcRecord → Text → Result DmarcError DmarcRecord
  unfolding set_tag
  apply_tag r tag =
      if is_empty tag || starts_with tag (codes "v=DMARC1")
      then ok r
      else elim (split_once b'=' tag) [
        | none ↦ ok r
        | some (key, value) ↦ set_tag r (trim key) (trim value)
      ]

  unfoldable pub apply_tags : DmarcRecord → List Text → Result DmarcError DmarcRecord
  unfolding apply_tag
  apply_tags r [] = ok r
  apply_tags r (tag ∷ tags) = elim (apply_tag r (trim tag)) [
    | err e ↦ err e
    | ok r' ↦ apply_tags r' tags
  ]

  unfoldable pub parse_record : Text → Result DmarcError DmarcRecord
  unfolding apply_tags
  parse_record text =
      if not (starts_with text (codes "v=DMARC1"))
      then err invalid_version
      else apply_tags default_record (split b';' text)

  unfoldable pub check_dkim_alignment : Text → Text → AlignmentMode → Bool
  check_dkim_alignment from_domain dkim_domain strict = eq_ignore_ascii_case from_domain dkim_domain
  check_dkim_alignment from_domain dkim_domain relaxed =
      lower from_domain =ₜ lower dkim_domain
      || ends_with (lower dkim_domain) (b'.' ∷ lower from_domain)

  unfoldable pub check_spf_alignment : Text → Text → AlignmentMode → Bool
  unfolding check_dkim_alignment
  check_spf_alignment from_domain spf_domain mode = check_dkim_alignment from_domain spf_domain mode
