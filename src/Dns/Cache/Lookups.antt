-- ===== src/Dns/Cache/Lookups.antt =====
-- What the lookups of src/dns/cache.rs give after an insertion.
use my_mta.Prelude.{
  ℕ, ◌+◌, ◌-◌, min, List, [], ◌∷◌, true, none, some, ◌≡◌, refl, arith, ltb, ap, Bool-cases, inl,
  inr, if◌then◌else◌,
}
use my_mta.Prelude.Text.{Text, codes, ◌=ₜ◌, =ₜ_iff, =ₜ_refl}
use my_mta.Dns.Records.{MxRecord}
use my_mta.Dns.Cache.{
  CacheKey, mx, a, aaaa, Stored, DnsCache, same_key, find, put, insert_mx, get_mx, get_a, get_aaaa,
  insert_negative, get_negative,
}

same_key_sound : (j k : CacheKey) → same_key j k ≡ true → j ≡ k
unfolding same_key
same_key_sound (mx d) (mx e) h = ap mx ((=ₜ_iff d e).0 h)
same_key_sound (a d) (a e) h = ap a ((=ₜ_iff d e).0 h)
same_key_sound (aaaa d) (aaaa e) h = ap aaaa ((=ₜ_iff d e).0 h)
same_key_sound (mx d) (a e) h = cc
same_key_sound (mx d) (aaaa e) h = cc
same_key_sound (a d) (mx e) h = cc
same_key_sound (a d) (aaaa e) h = cc
same_key_sound (aaaa d) (mx e) h = cc
same_key_sound (aaaa d) (a e) h = cc

same_key_refl : (k : CacheKey) → same_key k k ≡ true
unfolding same_key
same_key_refl (mx d) = =ₜ_refl d
same_key_refl (a d) = =ₜ_refl d
same_key_refl (aaaa d) = =ₜ_refl d

same_key_joins :
    (i j k : CacheKey) → same_key i j ≡ true → same_key k j ≡ true → same_key i k ≡ true
same_key_joins i j k h h' = rw (same_key_sound i j h, same_key_sound k j h') (same_key_refl j)

-- A key finds what was put under it, and every other key what it found before.
find-put :
    (k j : CacheKey) (v : Stored) (s : List (CacheKey × Stored))
    → find j (put k v s) ≡ (if same_key k j then some v else find j s)
unfolding find put
find-put k j v [] = refl
find-put k j v ((i, w) ∷ s) = elim (Bool-cases (same_key i k)) [
  | inl e ↦
      let same : i ≡ k = same_key_sound i k e in
      rw (e, find) (ground (arith, ap (λ x. same_key x j) same))
  | inr e ↦ rw (e, find) (ground (arith, find-put k j v s, same_key_joins i j k))
]

module _ (lower : Text → Text) where
  -- A later lookup of MX records finds the inserted ones under each spelling of the domain that
  -- `lower` equates, until the announced time to live, capped, is over; another domain and other
  -- record types are answered as before.
  pub insert_mx_lookups :
      (now later ttl : ℕ) (c : DnsCache) (domain asked : Text) (records : List MxRecord)
      → let after = insert_mx lower now c domain records ttl in
        (get_mx lower later after asked ≡ (
          if lower domain =ₜ lower asked
          then (if ltb later (now + min ttl c.config.max_ttl) then some records else none)
          else get_mx lower later c asked))
        × (get_a lower later after asked ≡ get_a lower later c asked)
        × (get_aaaa lower later after asked ≡ get_aaaa lower later c asked)
  unfolding insert_mx get_mx get_a get_aaaa
  insert_mx_lookups now later ttl c domain asked records =
      rw
        (
          find-put (mx (lower domain)) (mx (lower asked)) _ c.store,
          find-put (mx (lower domain)) (a (lower asked)) _ c.store,
          find-put (mx (lower domain)) (aaaa (lower asked)) _ c.store,
        )
        (unfold same_key in ground arith)

  -- A cached failure of an MX query takes the place of cached records of the domain: records are no
  -- longer found, and the failure is, until its time to live is over. Other domains are answered as
  -- before.
  pub insert_negative_lookups :
      (now later : ℕ) (c : DnsCache) (domain asked : Text)
      → let after = insert_negative lower now c domain (codes "MX") in
        (get_mx lower later after asked
          ≡ (if lower domain =ₜ lower asked then none else get_mx lower later c asked))
        × (get_negative lower later after asked (codes "MX") ≡ (
            if lower domain =ₜ lower asked
            then (if ltb later (now + c.config.negative_ttl)
                then some (now + c.config.negative_ttl - later)
                else none)
            else get_negative lower later c asked (codes "MX")))
  unfolding insert_negative get_mx get_negative ◌=ₜ◌
  insert_negative_lookups now later c domain asked =
      rw (find-put (mx (lower domain)) (mx (lower asked)) _ c.store)
        (unfold same_key in ground arith)
