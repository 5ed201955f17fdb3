-- ===== src/Dns/Records.antt =====
-- The answers of src/dns/resolver.rs. An IPv4 address is its number below 2^32, an IPv6 address its
-- eight segments.
use my_mta.Prelude.{ℕ, List}
use my_mta.Prelude.Text.{Text}
use my_mta.Dns.Error.{DnsError}

pub data IpAddr : Type 0 where
  v4 : (address : ℕ) → IpAddr
  v6 : (segments : List ℕ) → IpAddr

pub record MxRecord : Type 0 where
  pub preference : ℕ
  pub exchange : Text

pub data MxResult : Type 0 where
  ok : (records : List MxRecord) → MxResult
  err : (error : DnsError) → MxResult

pub data AddrResult : Type 0 where
  ok : (addresses : List IpAddr) → AddrResult
  err : (error : DnsError) → AddrResult
