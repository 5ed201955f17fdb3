-- ===== src/Tests/Dns.antt =====
-- A cache of src/dns/cache.rs with one domain.
use my_mta.Prelude.{◌+◌, min, List, [], ◌∷◌, none, some, ◌≡◌, ltb, if◌then◌else◌}
use my_mta.Prelude.Text.{codes, ◌=ₜ◌, to_ascii_lowercase}
use my_mta.Dns.Records.{MxRecord}
use my_mta.Dns.Cache
use my_mta.Dns.Cache.{
  DnsCache, default_config, insert_mx, get_mx, get_a, get_aaaa, insert_negative, get_negative,
}
use my_mta.Dns.Cache.Lookups.{insert_mx_lookups}

abbrev records : List MxRecord
records = record { preference = 10; exchange = codes "mx.b.com" } ∷ []

abbrev cache : DnsCache
cache = Cache.new default_config

insert_mx_lookups_example :
    let after = insert_mx to_ascii_lowercase 5 cache (codes "B.com") records 60 in
    (get_mx to_ascii_lowercase 9 after (codes "b.COM") ≡ (
      if to_ascii_lowercase (codes "B.com") =ₜ to_ascii_lowercase (codes "b.COM")
      then (if ltb 9 (5 + min 60 cache.config.max_ttl) then some records else none)
      else get_mx to_ascii_lowercase 9 cache (codes "b.COM")))
    × (get_a to_ascii_lowercase 9 after (codes "b.COM")
        ≡ get_a to_ascii_lowercase 9 cache (codes "b.COM"))
    × (get_aaaa to_ascii_lowercase 9 after (codes "b.COM")
        ≡ get_aaaa to_ascii_lowercase 9 cache (codes "b.COM"))
insert_mx_lookups_example =
    insert_mx_lookups to_ascii_lowercase 5 9 60 cache (codes "B.com") (codes "b.COM") records
