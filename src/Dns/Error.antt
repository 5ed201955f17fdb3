-- ===== src/Dns/Error.antt =====
-- src/dns/error.rs: why a query failed, and whether that is final.
use my_mta.Prelude.{ℕ, Bool, true, false, ◌++◌}
use my_mta.Prelude.Text.{Text, codes}
use my_mta.Prelude.Text.Numbers.{decimal}

pub data DnsFailureMode : Type 0 where
  permanent temporary : DnsFailureMode

pub data DnsError : Type 0 where
  nx_domain : (domain : Text) → DnsError
  no_data : (domain query_type : Text) → DnsError
  serv_fail : (domain message : Text) → DnsError
  refused : (domain : Text) → DnsError
  timeout : (domain : Text) → DnsError
  malformed : (domain message : Text) → DnsError
  cname_loop : (domain : Text) (max_depth : ℕ) → DnsError
  other : (domain message : Text) → DnsError

unfoldable pub failure_mode : DnsError → DnsFailureMode
failure_mode (nx_domain domain) = permanent
failure_mode (no_data domain query_type) = permanent
failure_mode (cname_loop domain max_depth) = permanent
failure_mode (serv_fail domain message) = temporary
failure_mode (refused domain) = temporary
failure_mode (timeout domain) = temporary
failure_mode (malformed domain message) = temporary
failure_mode (other domain message) = temporary

unfoldable pub is_permanent : DnsError → Bool
unfolding failure_mode
is_permanent e = elim (failure_mode e) [ permanent ↦ true | temporary ↦ false ]

unfoldable pub is_temporary : DnsError → Bool
unfolding failure_mode
is_temporary e = elim (failure_mode e) [ permanent ↦ false | temporary ↦ true ]

unfoldable pub domain : DnsError → Text
domain (nx_domain d) = d
domain (no_data d query_type) = d
domain (serv_fail d message) = d
domain (refused d) = d
domain (timeout d) = d
domain (malformed d message) = d
domain (cname_loop d max_depth) = d
domain (other d message) = d

-- `Display`
unfoldable pub display : DnsError → Text
display (nx_domain d) = codes "NXDOMAIN: " ++ d
display (no_data d query_type) =
    codes "NODATA: " ++ d ++ codes " has no " ++ query_type ++ codes " records"
display (serv_fail d message) = codes "SERVFAIL for " ++ d ++ codes ": " ++ message
display (refused d) = codes "REFUSED: " ++ d
display (timeout d) = codes "DNS timeout for " ++ d
display (malformed d message) = codes "Malformed DNS response for " ++ d ++ codes ": " ++ message
display (cname_loop d max_depth) =
    codes "CNAME loop for " ++ d ++ codes " (max depth " ++ decimal max_depth ++ codes ")"
display (other d message) = codes "DNS error for " ++ d ++ codes ": " ++ message
