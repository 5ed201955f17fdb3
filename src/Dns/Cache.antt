-- ===== src/Dns/Cache.antt =====
-- src/dns/cache.rs. Times are nanoseconds and the present time is an argument; `lower` is
-- `str::to_lowercase`. A stored `Box<dyn Any>` is a sum of the three types that the code stores, and
-- `downcast_ref` is a match on it. The lock makes each method one step.
pub mod Lookups
use my_mta.Prelude.{
  ℕ, ◌+◌, ◌-◌, ◌*◌, ◌^◌, min, List, [], ◌∷◌, Bool, true, false, not, ◌&&◌, Option, none, some, leb,
  ltb, if◌then◌else◌,
}
use my_mta.Prelude.Text.{Text, codes, ◌=ₜ◌}
use my_mta.Dns.Records.{IpAddr, MxRecord}

pub record CacheEntry (V : Type 0) : Type 0 where
  pub value : V
  pub expires_at : ℕ

unfoldable pub entry_new : {V : Type 0} → ℕ → V → ℕ → CacheEntry V
entry_new now value ttl = record { value = value; expires_at = now + ttl }

unfoldable pub is_expired : {V : Type 0} → ℕ → CacheEntry V → Bool
is_expired now e = leb e.expires_at now

pub record CacheConfig : Type 0 where
  pub max_ttl : ℕ
  pub negative_ttl : ℕ

abbrev pub default_config : CacheConfig
default_config = record { max_ttl = 3600 * 10 ^ 9; negative_ttl = 300 * 10 ^ 9 }

pub data CacheKey : Type 0 where
  mx a aaaa : (domain : Text) → CacheKey

pub record NegativeMarker : Type 0 where
  pub query_type : Text

pub data Stored : Type 0 where
  mx_records : CacheEntry (List MxRecord) → Stored
  addresses : CacheEntry (List IpAddr) → Stored
  negative : CacheEntry NegativeMarker → Stored

pub record DnsCache : Type 0 where
  pub config : CacheConfig
  pub store : List (CacheKey × Stored)

unfoldable pub same_key : CacheKey → CacheKey → Bool
same_key (mx d) (mx e) = d =ₜ e
same_key (a d) (a e) = d =ₜ e
same_key (aaaa d) (aaaa e) = d =ₜ e
same_key _ _ = false

-- `HashMap::get`
unfoldable pub find : CacheKey → List (CacheKey × Stored) → Option Stored
find k [] = none
find k ((j, v) ∷ s) = if same_key j k then some v else find k s

-- `HashMap::insert`: the value of a key that is there is replaced.
unfoldable pub put : CacheKey → Stored → List (CacheKey × Stored) → List (CacheKey × Stored)
put k v [] = (k, v) ∷ []
put k v ((j, w) ∷ s) = if same_key j k then (j, v) ∷ s else (j, w) ∷ put k v s

unfoldable pub new : CacheConfig → DnsCache
new config = record { config = config; store = [] }

effective_ttl : DnsCache → ℕ → ℕ
effective_ttl c dns_ttl = min dns_ttl c.config.max_ttl

insert : DnsCache → CacheKey → Stored → DnsCache
insert c key value = record c { store = put key value c.store }

fresh_value : {V : Type 0} → ℕ → CacheEntry V → Option V
unfolding is_expired
fresh_value now e = if not (is_expired now e) then some e.value else none

mx_of : ℕ → Option Stored → Option (List MxRecord)
unfolding fresh_value
mx_of now (some (mx_records e)) = fresh_value now e
mx_of now _ = none

addresses_of : ℕ → Option Stored → Option (List IpAddr)
unfolding fresh_value
addresses_of now (some (addresses e)) = fresh_value now e
addresses_of now _ = none

-- What is left of a negative entry.
remaining_of : ℕ → Option Stored → Option ℕ
unfolding is_expired
remaining_of now (some (negative e)) =
    if not (is_expired now e) then some (e.expires_at - now) else none
remaining_of now _ = none

unfoldable pub clear : DnsCache → DnsCache
clear c = record c { store = [] }

module _ (lower : Text → Text) where
  unfoldable pub insert_mx : ℕ → DnsCache → Text → List MxRecord → ℕ → DnsCache
  unfolding effective_ttl entry_new insert
  insert_mx now c domain records dns_ttl =
      insert c (mx (lower domain)) (mx_records (entry_new now records (effective_ttl c dns_ttl)))

  unfoldable pub get_mx : ℕ → DnsCache → Text → Option (List MxRecord)
  unfolding mx_of
  get_mx now c domain = mx_of now (find (mx (lower domain)) c.store)

  unfoldable pub insert_a : ℕ → DnsCache → Text → List IpAddr → ℕ → DnsCache
  unfolding effective_ttl entry_new insert
  insert_a now c domain ips dns_ttl =
      insert c (a (lower domain)) (addresses (entry_new now ips (effective_ttl c dns_ttl)))

  unfoldable pub get_a : ℕ → DnsCache → Text → Option (List IpAddr)
  unfolding addresses_of
  get_a now c domain = addresses_of now (find (a (lower domain)) c.store)

  unfoldable pub insert_aaaa : ℕ → DnsCache → Text → List IpAddr → ℕ → DnsCache
  unfolding effective_ttl entry_new insert
  insert_aaaa now c domain ips dns_ttl =
      insert c (aaaa (lower domain)) (addresses (entry_new now ips (effective_ttl c dns_ttl)))

  unfoldable pub get_aaaa : ℕ → DnsCache → Text → Option (List IpAddr)
  unfolding addresses_of
  get_aaaa now c domain = addresses_of now (find (aaaa (lower domain)) c.store)

  -- The match on the query type; `none` is the early return.
  unfoldable pub key_of : Text → Text → Option CacheKey
  key_of query_type domain =
      if query_type =ₜ codes "MX"
      then some (mx (lower domain))
      else if query_type =ₜ codes "A"
      then some (a (lower domain))
      else if query_type =ₜ codes "AAAA"
      then some (aaaa (lower domain))
      else none

  unfoldable pub insert_negative : ℕ → DnsCache → Text → Text → DnsCache
  unfolding key_of entry_new insert
  insert_negative now c domain query_type = elim (key_of query_type domain) [
    | none ↦ c
    | some key ↦
        insert c key
          (negative (entry_new now (record { query_type = query_type }) c.config.negative_ttl))
  ]

  unfoldable pub get_negative : ℕ → DnsCache → Text → Text → Option ℕ
  unfolding key_of remaining_of
  get_negative now c domain query_type = elim (key_of query_type domain) [
    | none ↦ none
    | some key ↦ remaining_of now (find key c.store)
  ]
