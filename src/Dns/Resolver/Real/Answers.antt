-- ===== src/Dns/Resolver/Real/Answers.antt =====
-- What a second query gets from the cache, in src/dns/resolver.rs.
use my_mta.Prelude.{
  ℕ, List, ◌∙◌, ◌+◌, ◌-◌, ◌<◌, ◌≡◌, refl, arith, min, map, true, none, some, Result, ok, err,
}
use my_mta.Prelude.Text.{Text, codes, =ₜ_refl}
use my_mta.Dns.Error.{no_data, failure_mode, is_permanent}
use my_mta.Dns.Records.{MxRecord, MxResult}
use my_mta.Dns.Cache.{get_mx, get_negative}
use my_mta.Dns.Cache.Lookups.{insert_mx_lookups, insert_negative_lookups}
use my_mta.Dns.Resolver.Real.{
  ResolveError, no_records_found, Lookup, MxData, RealResolver, map_hickory_err, mx_from_hickory,
  failed, mx_queried, resolve_mx,
}

module _ (lower : Text → Text) (r : RealResolver) (domain : Text) where
  asked :
      (now later : ℕ) (answer : Result ResolveError (Lookup MxData))
      → get_mx lower now r.cache domain ≡ none
      → get_negative lower now r.cache domain (codes "MX") ≡ none
      → resolve_mx lower now later r domain answer ≡ mx_queried lower now later r domain answer
  unfolding resolve_mx
  asked now later answer h h' = rw (resolve_mx, h, h') refl

  from_cache :
      (now : ℕ) (records : List MxRecord) (unused : Result ResolveError (Lookup MxData))
      → get_mx lower now r.cache domain ≡ some records
      → resolve_mx lower now now r domain unused ≡ (r, MxResult.ok records)
  unfolding resolve_mx
  from_cache now records unused h = rw (resolve_mx, h) refl

  from_failure :
      (now left : ℕ) (unused : Result ResolveError (Lookup MxData))
      → get_mx lower now r.cache domain ≡ none
      → get_negative lower now r.cache domain (codes "MX") ≡ some left
      → resolve_mx lower now now r domain unused ≡ (r, MxResult.err (no_data domain (codes "MX")))
  unfolding resolve_mx
  from_failure now left unused h h' = rw (resolve_mx, h, h') refl

module _ (lower : Text → Text) (r : RealResolver) (domain : Text) where
  -- After a query of a domain that is not in the cache was answered, a second query of the domain is
  -- answered the same, whatever the network would answer, and changes nothing, until the announced
  -- life time of the answer, capped, is over.
  resolve_mx_again :
      (now later again : ℕ) (resp : Lookup MxData) (unused : Result ResolveError (Lookup MxData))
      → get_mx lower now r.cache domain ≡ none
      → get_negative lower now r.cache domain (codes "MX") ≡ none
      → again < later + min (resp.valid_until - later) r.cache.config.max_ttl
      → let (r', answer) = resolve_mx lower now later r domain (ok resp) in
        (answer ≡ MxResult.ok (map mx_from_hickory resp.records))
        × (resolve_mx lower again again r' domain unused ≡ (r', answer))
  unfolding resolve_mx mx_queried
  resolve_mx_again now later again resp unused fresh fresh' live =
      let found =
        (insert_mx_lookups lower later again (resp.valid_until - later) r.cache domain domain
          (map mx_from_hickory resp.records)).0 in
      rw (asked lower r domain now later (ok resp) fresh fresh') (
        refl,
        from_cache lower (mx_queried lower now later r domain (ok resp)).0 domain again
            (map mx_from_hickory resp.records) unused
            (found ∙ ground (arith, =ₜ_refl (lower domain))),
      )

  -- After a query that found no records, a second query of the domain fails with no data and asks
  -- nobody, until the life time of a failure is over.
  resolve_mx_fails_again :
      (now later again : ℕ) (e : ResolveError) (unused : Result ResolveError (Lookup MxData))
      → get_mx lower now r.cache domain ≡ none
      → get_negative lower now r.cache domain (codes "MX") ≡ none
      → e.kind ≡ no_records_found
      → again < later + r.cache.config.negative_ttl
      → let (r', answer) = resolve_mx lower now later r domain (err e) in
        resolve_mx lower again again r' domain unused
        ≡ (r', MxResult.err (no_data domain (codes "MX")))
  unfolding resolve_mx mx_queried failed
  resolve_mx_fails_again now later again e unused fresh fresh' kind live =
      let cached = insert_negative_lookups lower later again r.cache domain domain in
      let permanent : is_permanent (map_hickory_err e domain) ≡ true =
        unfold is_permanent map_hickory_err failure_mode in rw kind refl in
      rw (asked lower r domain now later (err e) fresh fresh', permanent)
        (from_failure lower _ domain again (later + r.cache.config.negative_ttl - again) unused
          (cached.0 ∙ ground (arith, =ₜ_refl (lower domain)))
          (cached.1 ∙ ground (arith, =ₜ_refl (lower domain))))
