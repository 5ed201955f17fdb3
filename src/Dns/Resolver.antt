-- ===== src/Dns/Resolver.antt =====
-- src/dns/resolver.rs: the tests on the answers; the resolver of the tests and that of the program
-- are the child modules.
pub mod Mock
pub mod Real
use my_mta.Prelude.{List, Bool, true, false, Result, ok, err}
use my_mta.Dns.Error.{DnsError}
use my_mta.Dns.Records.{MxRecord, MxResult, AddrResult}

unfoldable pub mx_is_ok : MxResult → Bool
mx_is_ok (MxResult.ok records) = true
mx_is_ok (MxResult.err e) = false

unfoldable pub mx_is_err : MxResult → Bool
mx_is_err (MxResult.ok records) = false
mx_is_err (MxResult.err e) = true

unfoldable pub as_ref : MxResult → Result DnsError (List MxRecord)
as_ref (MxResult.ok records) = ok records
as_ref (MxResult.err e) = err e

unfoldable pub addr_is_ok : AddrResult → Bool
addr_is_ok (AddrResult.ok ips) = true
addr_is_ok (AddrResult.err e) = false

unfoldable pub addr_is_err : AddrResult → Bool
addr_is_err (AddrResult.ok ips) = false
addr_is_err (AddrResult.err e) = true
