-- ===== src/Dns/Resolver/Mock.antt =====
-- `MockDnsResolver` of src/dns/resolver.rs. `lower` is `str::to_lowercase`; each lock is held for one
-- step, and nobody programs the resolver while a chain is followed.
pub mod Chain
use my_mta.Prelude.{
  ℕ, zero, suc, List, [], ◌∷◌, Bool, true, false, Option, none, some, leb, any, if◌then◌else◌,
  Result, ok, err,
}
use my_mta.Prelude.Text.{Text, ◌=ₜ◌}
use my_mta.Prelude.Text.Table.{get, insert}
use my_mta.Dns.Error.{DnsError, nx_domain, cname_loop}
use my_mta.Dns.Records.{IpAddr, MxRecord, MxResult, AddrResult}

pub data MockMx : Type 0 where
  answer : (records : List MxRecord) (ttl : ℕ) → MockMx
  failure : (error : DnsError) → MockMx

pub data MockAddr : Type 0 where
  answer : (ips : List IpAddr) (ttl : ℕ) → MockAddr
  failure : (error : DnsError) → MockAddr

pub record MockDnsResolver : Type 0 where
  pub mx : List (Text × MockMx)
  pub a : List (Text × MockAddr)
  pub aaaa : List (Text × MockAddr)
  pub cname : List (Text × Text)
  pub max_cname_depth : ℕ

unfoldable pub new : MockDnsResolver
new = record { mx = []; a = []; aaaa = []; cname = []; max_cname_depth = 8 }

unfoldable pub with_max_cname_depth : MockDnsResolver → ℕ → MockDnsResolver
with_max_cname_depth m depth = record m { max_cname_depth = depth }

unfoldable pub clear : MockDnsResolver → MockDnsResolver
clear m = record m { mx = []; a = []; aaaa = []; cname = [] }

module _ (lower : Text → Text) where
  unfoldable pub set_cname : MockDnsResolver → Text → Text → MockDnsResolver
  unfolding insert
  set_cname m alias target = record m { cname = insert m.cname (lower alias) (lower target) }

  unfoldable pub set_mx : MockDnsResolver → Text → List MxRecord → ℕ → MockDnsResolver
  unfolding insert
  set_mx m domain records ttl = record m {
    mx = insert m.mx (lower domain) (MockMx.answer records ttl);
  }

  unfoldable pub set_mx_err : MockDnsResolver → Text → DnsError → MockDnsResolver
  unfolding insert
  set_mx_err m domain e = record m { mx = insert m.mx (lower domain) (MockMx.failure e) }

  unfoldable pub set_a : MockDnsResolver → Text → List IpAddr → ℕ → MockDnsResolver
  unfolding insert
  set_a m host ips ttl = record m { a = insert m.a (lower host) (MockAddr.answer ips ttl) }

  unfoldable pub set_a_err : MockDnsResolver → Text → DnsError → MockDnsResolver
  unfolding insert
  set_a_err m host e = record m { a = insert m.a (lower host) (MockAddr.failure e) }

  unfoldable pub set_aaaa : MockDnsResolver → Text → List IpAddr → ℕ → MockDnsResolver
  unfolding insert
  set_aaaa m host ips ttl = record m { aaaa = insert m.aaaa (lower host) (MockAddr.answer ips ttl) }

  unfoldable pub set_aaaa_err : MockDnsResolver → Text → DnsError → MockDnsResolver
  unfolding insert
  set_aaaa_err m host e = record m { aaaa = insert m.aaaa (lower host) (MockAddr.failure e) }

  pub too_long : MockDnsResolver → Text → DnsError
  too_long m start = cname_loop start m.max_cname_depth

  -- The loop of `resolve_cname_chain`; `none` means that the fuel is used up.
  unfoldable pub chain_loop :
      MockDnsResolver → Text → ℕ → Text → List Text → ℕ → Option (Result DnsError Text)
  unfolding too_long ◌=ₜ◌ get
  chain_loop m start zero current visited depth = none
  chain_loop m start (suc fuel) current visited depth =
      if leb m.max_cname_depth depth
      then some (err (too_long m start))
      else if any (λ v. v =ₜ current) visited
      then some (err (too_long m start))
      else elim (get m.cname current) [
        | none ↦ some (ok current)
        | some target ↦ chain_loop m start fuel target (current ∷ visited) (suc depth)
      ]

  -- One round for each link that is allowed, and one that finds the end.
  unfoldable pub resolve_cname_chain : MockDnsResolver → Text → Option (Result DnsError Text)
  unfolding chain_loop
  resolve_cname_chain m start = chain_loop m start (suc m.max_cname_depth) (lower start) [] 0

  mx_answer : Text → Option MockMx → MxResult
  mx_answer domain none = MxResult.err (nx_domain domain)
  mx_answer domain (some (MockMx.answer records ttl)) = MxResult.ok records
  mx_answer domain (some (MockMx.failure e)) = MxResult.err e

  addr_answer : Text → Option MockAddr → AddrResult
  addr_answer host none = AddrResult.err (nx_domain host)
  addr_answer host (some (MockAddr.answer ips ttl)) = AddrResult.ok ips
  addr_answer host (some (MockAddr.failure e)) = AddrResult.err e

  unfoldable pub resolve_mx : MockDnsResolver → Text → Option MxResult
  unfolding resolve_cname_chain mx_answer
  resolve_mx m domain = elim (resolve_cname_chain m domain) [
    | none ↦ none
    | some (err e) ↦ some (MxResult.err e)
    | some (ok name) ↦ some (mx_answer domain (get m.mx name))
  ]

  resolve_addr : MockDnsResolver → List (Text × MockAddr) → Text → Option AddrResult
  unfolding resolve_cname_chain addr_answer
  resolve_addr m table host = elim (resolve_cname_chain m host) [
    | none ↦ none
    | some (err e) ↦ some (AddrResult.err e)
    | some (ok name) ↦ some (addr_answer host (get table name))
  ]

  unfoldable pub resolve_a : MockDnsResolver → Text → Option AddrResult
  unfolding resolve_addr
  resolve_a m host = resolve_addr m m.a host

  unfoldable pub resolve_aaaa : MockDnsResolver → Text → Option AddrResult
  unfolding resolve_addr
  resolve_aaaa m host = resolve_addr m m.aaaa host
