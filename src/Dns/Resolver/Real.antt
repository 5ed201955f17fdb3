-- ===== src/Dns/Resolver/Real.antt =====
-- `RealResolver` of src/dns/resolver.rs: the cache in front of hickory-resolver. The answers of
-- hickory-resolver are arguments; `now` is the time of the cache lookup and `later` that of the answer.
-- `lower` is `str::to_lowercase`.
pub mod Answers
use my_mta.Prelude.{
  ℕ, ◌-◌, List, [], map, Bool, true, false, Option, none, some, if◌then◌else◌, Result, ok, err,
}
use my_mta.Prelude.Text.{Text, codes}
use my_mta.Dns.Error.{DnsError, no_data, timeout, other, malformed, serv_fail, is_permanent}
use my_mta.Dns.Records.{IpAddr, v4, v6, MxRecord, MxResult, AddrResult}
use my_mta.Dns.Cache.{
  CacheConfig, DnsCache, default_config, insert_mx, get_mx, insert_a, get_a, insert_aaaa, get_aaaa,
  insert_negative, get_negative,
}

-- The kinds that `map_hickory_err` tells apart; `another` is what the wildcard takes.
pub data ResolveErrorKind : Type 0 where
  no_records_found no_connections io proto message timed_out another : ResolveErrorKind

pub record ResolveError : Type 0 where
  pub kind : ResolveErrorKind
  -- `to_string()`
  pub text : Text

pub record Lookup (R : Type 0) : Type 0 where
  pub records : List R
  pub valid_until : ℕ

-- An MX record of hickory-resolver, its exchange as `to_string()` prints it.
pub record MxData : Type 0 where
  pub preference : ℕ
  pub exchange : Text

unfoldable pub map_hickory_err : ResolveError → Text → DnsError
map_hickory_err e domain = elim e.kind [
  | no_records_found ↦ no_data domain (codes "MX/A/AAAA")
  | no_connections ↦ timeout domain
  | io ↦ other domain e.text
  | proto ↦ malformed domain e.text
  | message ↦ serv_fail domain e.text
  | timed_out ↦ timeout domain
  | another ↦ other domain e.text
]

pub record RealResolver : Type 0 where
  pub cache : DnsCache
  pub max_cname_depth : ℕ

-- The constructors never fail.
unfoldable pub new : Result DnsError RealResolver
new = ok (record { cache = record { config = default_config; store = [] }; max_cname_depth = 8 })

unfoldable pub with_cache_config : CacheConfig → Result DnsError RealResolver
with_cache_config config =
    ok (record { cache = record { config = config; store = [] }; max_cname_depth = 8 })

unfoldable pub with_cache : DnsCache → Result DnsError RealResolver
with_cache cache = ok (record { cache = cache; max_cname_depth = 8 })

unfoldable pub set_max_cname_depth : RealResolver → ℕ → RealResolver
set_max_cname_depth r depth = record r { max_cname_depth = depth }

unfoldable pub mx_from_hickory : MxData → MxRecord
mx_from_hickory mx = record { preference = mx.preference; exchange = mx.exchange }

module _ (lower : Text → Text) (now later : ℕ) where
  -- A failure, cached if it is final.
  failed : RealResolver → Text → Text → ResolveError → RealResolver × DnsError
  unfolding map_hickory_err is_permanent
  failed r domain query_type e =
      let de = map_hickory_err e domain in
      (
        if is_permanent de
            then record r { cache = insert_negative lower later r.cache domain query_type }
            else r,
        de,
      )

  mx_queried : RealResolver → Text → Result ResolveError (Lookup MxData) → RealResolver × MxResult
  unfolding failed mx_from_hickory
  mx_queried r domain (ok resp) =
      let records = map mx_from_hickory resp.records in
      (
        record r {
          cache = insert_mx lower later r.cache domain records (resp.valid_until - later);
        },
        MxResult.ok records,
      )
  mx_queried r domain (err e) =
      let (r', de) = failed r domain (codes "MX") e in (r', MxResult.err de)

  unfoldable pub resolve_mx :
      RealResolver → Text → Result ResolveError (Lookup MxData) → RealResolver × MxResult
  unfolding mx_queried
  resolve_mx r domain answer = elim (get_mx lower now r.cache domain) [
    | some cached ↦ (r, MxResult.ok cached)
    | none ↦ elim (get_negative lower now r.cache domain (codes "MX")) [
      | some remaining ↦ (r, MxResult.err (no_data domain (codes "MX")))
      | none ↦ mx_queried r domain answer
    ]
  ]

  a_queried : RealResolver → Text → Result ResolveError (Lookup ℕ) → RealResolver × AddrResult
  unfolding failed
  a_queried r host (ok resp) =
      let ips = map v4 resp.records in
      (
        record r { cache = insert_a lower later r.cache host ips (resp.valid_until - later) },
        AddrResult.ok ips,
      )
  a_queried r host (err e) = let (r', de) = failed r host (codes "A") e in (r', AddrResult.err de)

  unfoldable pub resolve_a :
      RealResolver → Text → Result ResolveError (Lookup ℕ) → RealResolver × AddrResult
  unfolding a_queried
  resolve_a r host answer = elim (get_a lower now r.cache host) [
    | some cached ↦ (r, AddrResult.ok cached)
    | none ↦ elim (get_negative lower now r.cache host (codes "A")) [
      | some remaining ↦ (r, AddrResult.err (no_data host (codes "A")))
      | none ↦ a_queried r host answer
    ]
  ]

  aaaa_queried :
      RealResolver → Text → Result ResolveError (Lookup (List ℕ)) → RealResolver × AddrResult
  unfolding failed
  aaaa_queried r host (ok resp) =
      let ips = map v6 resp.records in
      (
        record r { cache = insert_aaaa lower later r.cache host ips (resp.valid_until - later) },
        AddrResult.ok ips,
      )
  aaaa_queried r host (err e) =
      let (r', de) = failed r host (codes "AAAA") e in (r', AddrResult.err de)

  unfoldable pub resolve_aaaa :
      RealResolver → Text → Result ResolveError (Lookup (List ℕ)) → RealResolver × AddrResult
  unfolding aaaa_queried
  resolve_aaaa r host answer = elim (get_aaaa lower now r.cache host) [
    | some cached ↦ (r, AddrResult.ok cached)
    | none ↦ elim (get_negative lower now r.cache host (codes "AAAA")) [
      | some remaining ↦ (r, AddrResult.err (no_data host (codes "AAAA")))
      | none ↦ aaaa_queried r host answer
    ]
  ]
