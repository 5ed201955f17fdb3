-- ===== src/Auth/Spf/Verifier.antt =====
-- `SpfVerifier::verify` of src/auth/spf.rs, which is a placeholder, and the printed errors.
use my_mta.Prelude.{◌++◌}
use my_mta.Prelude.Text.{Text, codes}
use my_mta.Dns.Records.{IpAddr}
use my_mta.Auth.Spf.{SpfResult, neutral, SpfError, invalid_version, invalid_mechanism}

unfoldable pub verify : IpAddr → Text → Text → SpfResult
verify ip sender_domain helo_domain = neutral

-- `Display`
unfoldable pub spf_error_text : SpfError → Text
spf_error_text invalid_version = codes "Invalid SPF version"
spf_error_text (invalid_mechanism m) = codes "Invalid SPF mechanism: " ++ m
