-- ===== src/Tests/Resolver.antt =====
-- Chains of names and repeated queries of src/dns/resolver.rs.
use my_mta.Prelude.{[], ◌∷◌, some, ◌≡◌}
use my_mta.Prelude.Text.{codes, to_ascii_lowercase}
use my_mta.Dns.Cache.{default_config}
use my_mta.Dns.Resolver.Mock
use my_mta.Dns.Resolver.Mock.{MockDnsResolver, set_cname, resolve_cname_chain}
use my_mta.Dns.Resolver.Mock.Chain.{follow, chain_answer, resolve_cname_chain-follow}
use my_mta.Dns.Resolver.Real.{ResolveError, no_records_found, Lookup, MxData, RealResolver}

-- Two names that are aliases of each other.
abbrev looping : MockDnsResolver
looping =
    set_cname to_ascii_lowercase
      (set_cname to_ascii_lowercase Mock.new (codes "A.org") (codes "b.org")) (codes "b.org")
      (codes "a.org")

resolve_cname_chain-follow_example :
    resolve_cname_chain to_ascii_lowercase looping (codes "A.ORG")
    ≡ some (
        chain_answer looping
          (codes "A.ORG")
          (follow looping.cname looping.max_cname_depth (to_ascii_lowercase (codes "A.ORG"))))
resolve_cname_chain-follow_example =
    resolve_cname_chain-follow to_ascii_lowercase looping (codes "A.ORG")

abbrev answer : Lookup MxData
answer = record {
  records = record { preference = 10; exchange = codes "mx.b.com." } ∷ [];
  valid_until = 100;
}

abbrev missing : ResolveError
missing = record { kind = no_records_found; text = codes "no record" }

abbrev resolver : RealResolver
resolver = record { cache = record { config = default_config; store = [] }; max_cname_depth = 8 }
