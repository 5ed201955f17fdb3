-- ===== src/Auth/Dmarc/Verifier.antt =====
-- `DmarcVerifier::verify` of src/auth/dmarc.rs, which is a placeholder, the defaults and what is printed.
use my_mta.Prelude.{Option, ◌++◌}
use my_mta.Prelude.Text.{Text, codes}
use my_mta.Auth.Spf.{SpfResult}
use my_mta.Auth.Dkim.{DkimResult}
use my_mta.Auth.Dmarc.{
  DmarcPolicy, monitor, AlignmentMode, relaxed, DmarcResult, absent, pass, fail, temp_error,
  perm_error, DmarcError, invalid_version, invalid_policy, invalid_alignment,
}

unfoldable pub verify :
    Text → Option DkimResult → Option Text → SpfResult → Option Text → DmarcResult
verify from_domain dkim_result dkim_domain spf_result spf_domain = pass

abbrev pub policy_default : DmarcPolicy
policy_default = monitor

abbrev pub mode_default : AlignmentMode
mode_default = relaxed

-- `Display`
unfoldable pub dmarc_result_text : DmarcResult → Text
dmarc_result_text absent = codes "none"
dmarc_result_text pass = codes "pass"
dmarc_result_text fail = codes "fail"
dmarc_result_text temp_error = codes "temperror"
dmarc_result_text perm_error = codes "permerror"

-- `Display`
unfoldable pub dmarc_error_text : DmarcError → Text
dmarc_error_text invalid_version = codes "Invalid DMARC version"
dmarc_error_text (invalid_policy p) = codes "Invalid DMARC policy: " ++ p
dmarc_error_text (invalid_alignment a) = codes "Invalid alignment mode: " ++ a
