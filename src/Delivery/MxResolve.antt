-- ===== src/Delivery/MxResolve.antt =====
-- src/delivery/mx_resolve.rs: the hosts that take the mail of a domain. `resolver` is the trait
-- `DnsResolver`: what it answers while one domain is resolved. `lower` is `str::to_lowercase`.
pub mod Answers
pub mod Choice
pub mod Tried
use my_mta.Prelude.{
  ℕ, List, [], ◌∷◌, ◌++◌, map, Bool, true, false, not, ◌&&◌, ◌==◌, Option, none, some, leb, ltb,
  if◌then◌else◌, is_empty, any, Result, ok, err,
}
use my_mta.Prelude.Text.{Text, codes, trim_end_matches}
use my_mta.Dns.Records.{IpAddr, v4, v6, MxRecord, MxResult, AddrResult}
use my_mta.Delivery.Error.{DeliveryError, dns_resolution_failed}

abbrev pub smtp_port : ℕ
smtp_port = 25

pub record SocketAddr : Type 0 where
  pub ip : IpAddr
  pub port : ℕ

pub record ResolvedDestination : Type 0 where
  pub domain : Text
  pub exchange : Text
  pub addresses : List IpAddr
  pub preference : ℕ
  pub port : ℕ

unfoldable pub to_socket_addrs : ResolvedDestination → List SocketAddr
to_socket_addrs d = map (λ ip. record { ip = ip; port = d.port }) d.addresses

unfoldable pub is_resolved : ResolvedDestination → Bool
is_resolved d = not (is_empty d.addresses)

pub record DnsResolver : Type 0 where
  pub resolve_mx : Text → MxResult
  pub resolve_a : Text → AddrResult
  pub resolve_aaaa : Text → AddrResult

pub record MxResolver : Type 0 where
  pub resolver : DnsResolver
  pub port : ℕ

unfoldable pub new : DnsResolver → MxResolver
new resolver = record { resolver = resolver; port = smtp_port }

unfoldable pub with_port : DnsResolver → ℕ → MxResolver
with_port resolver port = record { resolver = resolver; port = port }

-- The addresses of an answer, none for an error.
unfoldable pub found : AddrResult → List IpAddr
found (AddrResult.ok ips) = ips
found (AddrResult.err e) = []

-- `sort_by_key`, which is stable.
unfoldable pub insert : MxRecord → List MxRecord → List MxRecord
insert r [] = r ∷ []
insert r (q ∷ qs) = if leb r.preference q.preference then r ∷ q ∷ qs else q ∷ insert r qs

unfoldable pub sort_by_preference : List MxRecord → List MxRecord
unfolding insert
sort_by_preference [] = []
sort_by_preference (r ∷ rs) = insert r (sort_by_preference rs)

module _ (lower : Text → Text) where
  unfoldable pub all_addresses : DnsResolver → Text → List IpAddr
  unfolding found
  all_addresses resolver host =
      found (resolver.resolve_aaaa host) ++ found (resolver.resolve_a host)

  unfoldable pub resolve_mx_exchange : MxResolver → Text → MxRecord → ResolvedDestination
  unfolding all_addresses
  resolve_mx_exchange r domain mx =
      let exchange = lower (trim_end_matches (λ c. c == 46) mx.exchange) in
      record {
        domain = domain;
        exchange = exchange;
        addresses = all_addresses r.resolver exchange;
        preference = mx.preference;
        port = r.port;
      }

  unfoldable pub resolve_fallback_a_aaaa :
      MxResolver → Text → Result DeliveryError (List ResolvedDestination)
  unfolding all_addresses
  resolve_fallback_a_aaaa r domain =
      let addresses = all_addresses r.resolver domain in
      if is_empty addresses
      then err (dns_resolution_failed domain (codes "No MX records and no A/AAAA records found"))
      else ok (
          (record {
            domain = domain;
            exchange = domain;
            addresses = addresses;
            preference = 0;
            port = r.port;
          })
          ∷ [])

  -- The loop over the sorted records.
  unfoldable pub resolve_each : MxResolver → Text → List MxRecord → List ResolvedDestination
  unfolding resolve_mx_exchange is_resolved
  resolve_each r domain [] = []
  resolve_each r domain (mx ∷ records) =
      let dest = resolve_mx_exchange r domain mx in
      let rest = resolve_each r domain records in if is_resolved dest then dest ∷ rest else rest

  unless_empty : Text → List ResolvedDestination → Result DeliveryError (List ResolvedDestination)
  unless_empty domain [] =
      err (dns_resolution_failed domain (codes "MX records found but none resolve to IP addresses"))
  unless_empty domain (d ∷ ds) = ok (d ∷ ds)

  resolve_answer : MxResolver → Text → MxResult → Result DeliveryError (List ResolvedDestination)
  unfolding resolve_each sort_by_preference unless_empty resolve_fallback_a_aaaa
  resolve_answer r domain (MxResult.ok (mx ∷ records)) =
      unless_empty domain (resolve_each r domain (sort_by_preference (mx ∷ records)))
  resolve_answer r domain _ = resolve_fallback_a_aaaa r domain

  unfoldable pub resolve : MxResolver → Text → Result DeliveryError (List ResolvedDestination)
  unfolding resolve_answer
  resolve r domain = resolve_answer r (lower domain) (r.resolver.resolve_mx (lower domain))

unfoldable pub same_segments : List ℕ → List ℕ → Bool
same_segments [] [] = true
same_segments (s ∷ ss) (t ∷ ts) = s == t && same_segments ss ts
same_segments _ _ = false

unfoldable pub same_ip : IpAddr → IpAddr → Bool
unfolding same_segments
same_ip (v4 x) (v4 y) = x == y
same_ip (v6 x) (v6 y) = same_segments x y
same_ip _ _ = false

unfoldable pub same_addr : SocketAddr → SocketAddr → Bool
unfolding same_ip
same_addr s t = same_ip s.ip t.ip && s.port == t.port

unfoldable pub contains : List SocketAddr → SocketAddr → Bool
unfolding same_addr
contains attempted addr = any (same_addr addr) attempted

unfoldable pub select_destination :
    List ResolvedDestination → List SocketAddr → Option ResolvedDestination
unfolding contains to_socket_addrs
select_destination [] attempted = none
select_destination (dest ∷ dests) attempted =
    if any (λ addr. not (contains attempted addr)) (to_socket_addrs dest)
    then some dest
    else select_destination dests attempted
