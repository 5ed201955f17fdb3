-- ===== src/Auth/Spf.antt =====
-- src/auth/spf.rs: SPF records and their evaluation. `parse_ip4` and `parse_ip6` are the parsers of
-- `std::net`. A shift or an index that panics in a build with overflow checks gives `none`.
pub mod Verifier
pub mod Verdicts
pub mod Prefixes
use my_mta.Prelude.{
  ℕ, zero, suc, ◌-◌, ◌*◌, ◌/◌, ◌%◌, ◌^◌, List, [], ◌∷◌, ◌++◌, Bool, true, false, not, ◌&&◌, ◌||◌,
  ◌==◌, Option, none, some, leb, ltb, if◌then◌else◌, is_empty, any, drop, map, Result, ok, err,
}
use Prim.Native.Nat.{bit_and}
use my_mta.Prelude.Text.{Text, codes, ◌=ₜ◌, starts_with, split_once, split_whitespace}
use my_mta.Prelude.Text.Numbers.{parse_uint, u8_max}
use my_mta.Dns.Records.{IpAddr, v4, v6}

pub data SpfResult : Type 0 where
  absent neutral pass fail soft_fail temp_error perm_error : SpfResult

unfoldable pub is_pass : SpfResult → Bool
is_pass pass = true
is_pass _ = false

unfoldable pub is_fail : SpfResult → Bool
is_fail fail = true
is_fail soft_fail = true
is_fail _ = false

unfoldable pub is_error : SpfResult → Bool
is_error temp_error = true
is_error perm_error = true
is_error _ = false

unfoldable pub smtp_response : SpfResult → Option (ℕ × Text)
smtp_response fail = some (550, codes "Message rejected due to SPF fail")
smtp_response perm_error = some (550, codes "Message rejected due to SPF policy error")
smtp_response _ = none

-- `Display`
unfoldable pub result_name : SpfResult → Text
result_name absent = codes "none"
result_name neutral = codes "neutral"
result_name pass = codes "pass"
result_name fail = codes "fail"
result_name soft_fail = codes "softfail"
result_name temp_error = codes "temperror"
result_name perm_error = codes "permerror"

pub data Mechanism : Type 0 where
  everything : Mechanism
  host : (domain : Option Text) (cidr4 cidr6 : Option ℕ) → Mechanism
  mx : (domain : Option Text) (cidr4 cidr6 : Option ℕ) → Mechanism
  ptr : (domain : Option Text) → Mechanism
  ip4 : (network cidr : ℕ) → Mechanism
  ip6 : (network : List ℕ) (cidr : ℕ) → Mechanism
  exists : (domain : Text) → Mechanism
  include : (domain : Text) → Mechanism

pub record SpfPolicy : Type 0 where
  pub mechanisms : List Mechanism
  pub default_result : SpfResult
  pub modifiers : List (Text × Text)

-- `Default`
abbrev pub default_policy : SpfPolicy
default_policy = record { mechanisms = []; default_result = neutral; modifiers = [] }

pub data SpfError : Type 0 where
  invalid_version : SpfError
  invalid_mechanism : (term : Text) → SpfError

unfoldable pub parse_qualifier : Text → ℕ × Text
parse_qualifier [] = (b'+', [])
parse_qualifier (c ∷ s) =
    if c == b'+' || c == b'-' || c == b'~' || c == b'?' then (c, s) else (b'+', c ∷ s)

unfoldable pub strip_prefix : Text → Text → Option Text
strip_prefix s [] = some s
strip_prefix [] (d ∷ t) = none
strip_prefix (c ∷ s) (d ∷ t) = if c == d then strip_prefix s t else none

-- `a`, `a:domain`, with all that follows taken for the domain.
host_mechanism : Text → Mechanism
host_mechanism [] = host none none none
host_mechanism (c ∷ s) = host (some (c ∷ s)) none none

after_a : Text → Text
unfolding strip_prefix
after_a s = elim (strip_prefix s (codes "a:")) [ some rest ↦ rest | none ↦ drop 1 s ]

-- The mechanisms that name a domain.
domain_mechanism : Text → Option Mechanism
unfolding host_mechanism after_a strip_prefix
domain_mechanism s =
    if starts_with s (codes "a")
    then some (host_mechanism (after_a s))
    else if starts_with s (codes "mx:") || s =ₜ codes "mx"
    then some (mx (strip_prefix s (codes "mx:")) none none)
    else if starts_with s (codes "ptr:") || s =ₜ codes "ptr"
    then some (ptr (strip_prefix s (codes "ptr:")))
    else if starts_with s (codes "exists:")
    then some (exists (drop 7 s))
    else if starts_with s (codes "include:")
    then some (include (drop 8 s))
    else none

module _ (parse_ip4 : Text → Option ℕ) (parse_ip6 : Text → Option (List ℕ)) where
  -- An address, and a prefix length if there is a slash.
  network : {A : Type 0} → (Text → Option A) → ℕ → (A → ℕ → Mechanism) → Text → Option Mechanism
  network parse_ip whole make s = elim (split_once b'/' s) [
    | none ↦ elim (parse_ip s) [ none ↦ none | some ip ↦ some (make ip whole) ]
    | some (ip_part, cidr_part) ↦ elim (parse_ip ip_part) [
      | none ↦ none
      | some ip ↦ elim (parse_uint u8_max cidr_part) [
        | none ↦ none
        | some cidr ↦ some (make ip cidr)
      ]
    ]
  ]

  unfoldable pub parse_mechanism : Text → Option Mechanism
  unfolding network domain_mechanism
  parse_mechanism s =
      if s =ₜ codes "all"
      then some everything
      else if starts_with s (codes "ip4:")
      then network parse_ip4 32 ip4 (drop 4 s)
      else if starts_with s (codes "ip6:")
      then network parse_ip6 128 ip6 (drop 4 s)
      else domain_mechanism s

  add_mechanism : SpfPolicy → Text → Option Mechanism → Result SpfError SpfPolicy
  add_mechanism policy term none = err (invalid_mechanism term)
  add_mechanism policy term (some m) =
      ok (record policy { mechanisms = policy.mechanisms ++ m ∷ [] })

  -- One term: a modifier or a mechanism. The qualifier is read and dropped.
  unfoldable pub add_term : SpfPolicy → Text → Result SpfError SpfPolicy
  unfolding add_mechanism parse_mechanism parse_qualifier
  add_term policy term = if is_empty term then ok policy else elim (split_once b'=' term) [
    | some (name, value) ↦ ok (record policy { modifiers = policy.modifiers ++ (name, value) ∷ [] })
    | none ↦ add_mechanism policy term (parse_mechanism (parse_qualifier term).1)
  ]

  unfoldable pub add_terms : SpfPolicy → List Text → Result SpfError SpfPolicy
  unfolding add_term
  add_terms policy [] = ok policy
  add_terms policy (term ∷ terms) = elim (add_term policy term) [
    | err e ↦ err e
    | ok policy' ↦ add_terms policy' terms
  ]

  is_everything : Mechanism → Bool
  is_everything everything = true
  is_everything _ = false

  unfoldable pub settle_default : SpfPolicy → SpfPolicy
  unfolding is_everything
  settle_default policy =
      if not (any is_everything policy.mechanisms)
      then record policy { default_result = neutral }
      else policy

  parse_terms : List Text → Result SpfError SpfPolicy
  unfolding add_terms settle_default
  parse_terms [] = err invalid_version
  parse_terms (version ∷ terms) =
      if version =ₜ codes "v=spf1"
      then (elim (add_terms default_policy terms) [
        | err e ↦ err e
        | ok policy ↦ ok (settle_default policy)
      ])
      else err invalid_version

  unfoldable pub parse_record : Text → Result SpfError SpfPolicy
  unfolding parse_terms
  parse_record record_text = parse_terms (split_whitespace record_text)

-- `!0 << k` on integers of w bits, which overflows where k is w or more.
unfoldable pub high_mask : ℕ → ℕ → Option ℕ
high_mask w k = if ltb k w then some ((2 ^ w - 1) * 2 ^ k % 2 ^ w) else none

-- `(x & mask) == (y & mask)`
unfoldable pub masked_equal : Option ℕ → ℕ → ℕ → Option Bool
masked_equal none x y = none
masked_equal (some mask) x y = some (bit_and x mask == bit_and y mask)

-- `32 - cidr` overflows above 32.
unfoldable pub ip_in_cidr4 : ℕ → ℕ → ℕ → Option Bool
unfolding high_mask masked_equal
ip_in_cidr4 ip network cidr =
    masked_equal
      (if cidr == 0 then some 0 else if ltb 32 cidr then none else high_mask 32 (32 - cidr)) ip
      network

-- The loop over `full` segments and the partial one; the index beyond the last segment panics.
same_prefix : ℕ → ℕ → List ℕ → List ℕ → Option Bool
unfolding high_mask masked_equal
same_prefix zero bits (s ∷ ss) (t ∷ ts) =
    if bits == 0 then some true else masked_equal (high_mask 16 (16 - bits)) s t
same_prefix zero bits _ _ = some true
same_prefix (suc full) bits (s ∷ ss) (t ∷ ts) =
    let rest = same_prefix full bits ss ts in if s == t then rest else some false
same_prefix (suc full) bits _ _ = none

unfoldable pub ip_in_cidr6 : List ℕ → List ℕ → ℕ → Option Bool
unfolding same_prefix
ip_in_cidr6 ip network cidr = same_prefix (cidr / 16) (cidr % 16) ip network

unfoldable pub matches : IpAddr → Mechanism → Option Bool
unfolding ip_in_cidr4 ip_in_cidr6
matches ip everything = some true
matches (v4 client) (ip4 network cidr) = ip_in_cidr4 client network cidr
matches (v6 client) (ip6 network cidr) = ip_in_cidr6 client network cidr
matches ip _ = some false

unfoldable pub evaluate_from : SpfResult → IpAddr → List Mechanism → Option SpfResult
unfolding matches
evaluate_from default ip [] = some default
evaluate_from default ip (m ∷ ms) =
    let rest = evaluate_from default ip ms in
    elim (matches ip m) [ none ↦ none | some hit ↦ if hit then some pass else rest ]

unfoldable pub evaluate : SpfPolicy → IpAddr → Option SpfResult
unfolding evaluate_from
evaluate policy ip = evaluate_from policy.default_result ip policy.mechanisms
