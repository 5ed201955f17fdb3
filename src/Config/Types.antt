-- ===== src/Config/Types.antt =====
-- The integers of a configuration that `Config::load` of src/config.rs gives fit their Rust types.
use my_mta.Prelude.{
  ℕ, ◌≤◌, ◌≡◌, sym, ◌∙◌, arith, inl, inr, Option, none, some, Option-cases, Result, ok,
  Result-cases,
}
use my_mta.Prelude.Text.{Text, codes}
use my_mta.Prelude.Text.Numbers.{parse_uint, parse_uint-le, usize_max}
use my_mta.Delivery.MxResolve.{SocketAddr}
use my_mta.Config.{Floats, Config, config_default, over}
use my_mta.Config.File.{FileConfig, within, settled, apply}
use my_mta.Config.Env.{u32_max, u64_max, apply_env, read_file, load}
use my_mta.Config.Layers.{apply-settled, applied}

-- A number that may be missing fits its type.
abbrev pub Fits : ℕ → Option ℕ → Type 0
Fits top none = Unit {0}
Fits top (some n) = n ≤ top

over-Fits : (top : ℕ) (o : Option ℕ) (old : ℕ) → Fits top o → old ≤ top → over o old ≤ top
over-Fits top none old h k = k
over-Fits top (some n) old h k = h

parse_uint-Fits : (top : ℕ) (s : Text) → Fits top (parse_uint top s)
parse_uint-Fits top s = elim (Option-cases (parse_uint top s)) [
  | inl e ↦ rw e tt
  | inr (n, e) ↦ rw e (parse_uint-le top s n e)
]

-- A variable of the environment.
variable-Fits : (top : ℕ) (o : Option Text) → Fits top (within o (parse_uint top))
variable-Fits top none = tt
variable-Fits top (some s) = parse_uint-Fits top s

module _ (floats : Floats) where
  pub record IsTyped (cfg : Config floats) : Type 0 where
    pub max_message_size : cfg.max_message_size ≤ usize_max
    pub max_recipients : cfg.max_recipients ≤ usize_max
    pub queue_concurrency : cfg.queue_concurrency ≤ u32_max
    pub queue_retry_initial_delay_secs : cfg.queue_retry_initial_delay_secs ≤ u64_max
    pub queue_retry_max_delay_secs : cfg.queue_retry_max_delay_secs ≤ u64_max
    pub queue_retry_max_attempts : cfg.queue_retry_max_attempts ≤ u32_max
    pub dns_timeout_secs : cfg.dns_timeout_secs ≤ u64_max
    pub dns_cache_max_ttl_secs : cfg.dns_cache_max_ttl_secs ≤ u64_max
    pub dns_cache_neg_ttl_secs : cfg.dns_cache_neg_ttl_secs ≤ u64_max
    pub dns_max_cname_depth : cfg.dns_max_cname_depth ≤ usize_max

  default-IsTyped : IsTyped (config_default floats)
  default-IsTyped = record {
    max_message_size = omega arith;
    max_recipients = omega arith;
    queue_concurrency = omega arith;
    queue_retry_initial_delay_secs = omega arith;
    queue_retry_max_delay_secs = omega arith;
    queue_retry_max_attempts = omega arith;
    dns_timeout_secs = omega arith;
    dns_cache_max_ttl_secs = omega arith;
    dns_cache_neg_ttl_secs = omega arith;
    dns_max_cname_depth = omega arith;
  }

  module _ (parse_addr : Text → Result Text SocketAddr) where
    -- The integers of a file that serde has read.
    pub record IsFileTyped (f : FileConfig floats parse_addr) : Type 0 where
      pub max_message_size : Fits usize_max (within f.limits (λ l. l.max_message_size))
      pub max_recipients : Fits usize_max (within f.limits (λ l. l.max_recipients))
      pub concurrency : Fits u32_max (within f.queue (λ q. q.concurrency))
      pub retry_initial_delay : Fits u64_max (within f.queue (λ q. q.retry_initial_delay))
      pub retry_max_delay : Fits u64_max (within f.queue (λ q. q.retry_max_delay))
      pub retry_max_attempts : Fits u32_max (within f.queue (λ q. q.retry_max_attempts))
      pub timeout_secs : Fits u64_max (within f.dns (λ d. d.timeout_secs))
      pub cache_max_ttl_secs : Fits u64_max (within f.dns (λ d. d.cache_max_ttl_secs))
      pub cache_neg_ttl_secs : Fits u64_max (within f.dns (λ d. d.cache_neg_ttl_secs))
      pub max_cname_depth : Fits usize_max (within f.dns (λ d. d.max_cname_depth))

    settled-IsTyped :
        (f : FileConfig floats parse_addr) (listen http_listen : SocketAddr) (cfg : Config floats)
        → IsFileTyped f
        → IsTyped cfg
        → IsTyped (settled floats parse_addr f listen http_listen cfg)
    unfolding settled
    settled-IsTyped f listen http_listen cfg h k = record {
      max_message_size = over-Fits usize_max _ _ h.max_message_size k.max_message_size;
      max_recipients = over-Fits usize_max _ _ h.max_recipients k.max_recipients;
      queue_concurrency = over-Fits u32_max _ _ h.concurrency k.queue_concurrency;
      queue_retry_initial_delay_secs =
          over-Fits u64_max _ _ h.retry_initial_delay k.queue_retry_initial_delay_secs;
      queue_retry_max_delay_secs =
          over-Fits u64_max _ _ h.retry_max_delay k.queue_retry_max_delay_secs;
      queue_retry_max_attempts =
          over-Fits u32_max _ _ h.retry_max_attempts k.queue_retry_max_attempts;
      dns_timeout_secs = over-Fits u64_max _ _ h.timeout_secs k.dns_timeout_secs;
      dns_cache_max_ttl_secs = over-Fits u64_max _ _ h.cache_max_ttl_secs k.dns_cache_max_ttl_secs;
      dns_cache_neg_ttl_secs = over-Fits u64_max _ _ h.cache_neg_ttl_secs k.dns_cache_neg_ttl_secs;
      dns_max_cname_depth = over-Fits usize_max _ _ h.max_cname_depth k.dns_max_cname_depth;
    }

    module _ (env : Text → Option Text) where
      apply_env-IsTyped :
          (cfg : Config floats) → IsTyped cfg → IsTyped (apply_env floats parse_addr env cfg)
      unfolding apply_env
      apply_env-IsTyped cfg k = record {
        max_message_size =
            over-Fits usize_max _ _ (variable-Fits usize_max (env (codes "MTA_MAX_MESSAGE_SIZE")))
              k.max_message_size;
        max_recipients =
            over-Fits usize_max _ _ (variable-Fits usize_max (env (codes "MTA_MAX_RECIPIENTS")))
              k.max_recipients;
        queue_concurrency =
            over-Fits u32_max _ _ (variable-Fits u32_max (env (codes "MTA_QUEUE_CONCURRENCY")))
              k.queue_concurrency;
        queue_retry_initial_delay_secs =
            over-Fits u64_max _ _
              (variable-Fits u64_max (env (codes "MTA_QUEUE_RETRY_INITIAL_DELAY")))
              k.queue_retry_initial_delay_secs;
        queue_retry_max_delay_secs =
            over-Fits u64_max _ _ (variable-Fits u64_max (env (codes "MTA_QUEUE_RETRY_MAX_DELAY")))
              k.queue_retry_max_delay_secs;
        queue_retry_max_attempts =
            over-Fits u32_max _ _
              (variable-Fits u32_max (env (codes "MTA_QUEUE_RETRY_MAX_ATTEMPTS")))
              k.queue_retry_max_attempts;
        dns_timeout_secs =
            over-Fits u64_max _ _ (variable-Fits u64_max (env (codes "MTA_DNS_TIMEOUT")))
              k.dns_timeout_secs;
        dns_cache_max_ttl_secs =
            over-Fits u64_max _ _ (variable-Fits u64_max (env (codes "MTA_DNS_CACHE_MAX_TTL")))
              k.dns_cache_max_ttl_secs;
        dns_cache_neg_ttl_secs =
            over-Fits u64_max _ _ (variable-Fits u64_max (env (codes "MTA_DNS_CACHE_NEG_TTL")))
              k.dns_cache_neg_ttl_secs;
        dns_max_cname_depth =
            over-Fits usize_max _ _
              (variable-Fits usize_max (env (codes "MTA_DNS_MAX_CNAME_DEPTH")))
              k.dns_max_cname_depth;
      }

      module _ (read_to_string : Text → Result Text Text)
          (from_toml : Text → Result Text (FileConfig floats parse_addr)) where
        file_loaded :
            (path contents : Text) (file : FileConfig floats parse_addr) (cfg : Config floats)
            → read_to_string path ≡ ok contents
            → from_toml contents ≡ ok file
            → IsFileTyped file
            → load floats parse_addr env read_to_string from_toml (some path) ≡ ok cfg
            → IsTyped cfg
        file_loaded path contents file cfg read understood typed h =
            let e =
              applied floats parse_addr env read_to_string from_toml path contents file read
                understood in
            elim (Result-cases (apply floats parse_addr file (config_default floats))) [
              | inr (x, g) ↦ cc (rw g at (sym e ∙ h))
              | inl (new, g) ↦
                  let same : cfg ≡ apply_env floats parse_addr env new = cc (rw g at (sym e ∙ h)) in
                  rw (same, apply-settled floats parse_addr file (config_default floats) new g)
                    (apply_env-IsTyped _
                      (settled-IsTyped file _ _ (config_default floats) typed default-IsTyped))
            ]

        -- Whatever the environment holds, and whatever file is named, if serde gives only integers that
        -- fit their types, then so do all integers of a configuration that is loaded.
        pub load-IsTyped :
            ((contents : Text) (file : FileConfig floats parse_addr)
              → from_toml contents ≡ ok file
              → IsFileTyped file)
            → (path : Option Text) (cfg : Config floats)
            → load floats parse_addr env read_to_string from_toml path ≡ ok cfg
            → IsTyped cfg
        unfolding load read_file
        load-IsTyped typed none cfg h =
            let e : cfg ≡ apply_env floats parse_addr env (config_default floats) = cc in
            rw e (apply_env-IsTyped (config_default floats) default-IsTyped)
        load-IsTyped typed (some path) cfg h = elim (Result-cases (read_to_string path)) [
          | inr (e, g) ↦ cc (rw (g, load, read_file) at h)
          | inl (contents, g) ↦ elim (Result-cases (from_toml contents)) [
            | inr (e, k) ↦ cc (rw (g, k, load, read_file) at h)
            | inl (file, k) ↦ file_loaded path contents file cfg g k (typed contents file k) h
          ]
        ]
