-- ===== src/Config/Env.antt =====
-- `Config::load` of src/config.rs: the environment over the file over the defaults. The environment
-- gives `none` for a variable that is missing or not Unicode.
use my_mta.Prelude.{
  ℕ, ◌++◌, ◌-◌, ◌^◌, Bool, true, false, Option, none, some, if◌then◌else◌, Result, ok, err,
}
use my_mta.Prelude.Text.{Text, codes, ◌=ₜ◌}
use my_mta.Prelude.Text.Numbers.{parse_uint, usize_max}
use my_mta.Delivery.MxResolve.{SocketAddr}
use my_mta.Config.{Floats, Config, ConfigError, config_default, over}
use my_mta.Config.File.{FileConfig, apply, within, some_of}

abbrev pub u32_max : ℕ
u32_max = 2 ^ 32 - 1

abbrev pub u64_max : ℕ
u64_max = 2 ^ 64 - 1

-- `parse::<bool>`
unfoldable pub parse_bool : Text → Option Bool
unfolding ◌=ₜ◌
parse_bool s =
    if s =ₜ codes "true" then some true else if s =ₜ codes "false" then some false else none

-- `unwrap_or`
unfoldable pub bool_or : Bool → Text → Option Bool
unfolding parse_bool
bool_or default s = some (over (parse_bool s) default)

unfoldable pub parsed : (Text → Result Text SocketAddr) → Text → Option SocketAddr
parsed parse_addr s = elim (parse_addr s) [ ok addr ↦ some addr | err e ↦ none ]

module _ (floats : Floats) (parse_addr : Text → Result Text SocketAddr)
    (env : Text → Option Text) where
  unfoldable pub apply_env : Config floats → Config floats
  unfolding parsed bool_or
  apply_env cfg = record cfg {
    listen_addr = over (within (env (codes "MTA_LISTEN")) (parsed parse_addr)) cfg.listen_addr;
    hostname = over (env (codes "MTA_HOSTNAME")) cfg.hostname;
    max_message_size =
        over (within (env (codes "MTA_MAX_MESSAGE_SIZE")) (parse_uint usize_max))
          cfg.max_message_size;
    max_recipients =
        over (within (env (codes "MTA_MAX_RECIPIENTS")) (parse_uint usize_max)) cfg.max_recipients;
    spool_dir = over (env (codes "MTA_SPOOL_DIR")) cfg.spool_dir;
    log_level = over (env (codes "MTA_LOG_LEVEL")) cfg.log_level;
    http_listen_addr =
        over (within (env (codes "MTA_HTTP_LISTEN")) (parsed parse_addr)) cfg.http_listen_addr;
    queue_concurrency =
        over (within (env (codes "MTA_QUEUE_CONCURRENCY")) (parse_uint u32_max))
          cfg.queue_concurrency;
    queue_retry_initial_delay_secs =
        over (within (env (codes "MTA_QUEUE_RETRY_INITIAL_DELAY")) (parse_uint u64_max))
          cfg.queue_retry_initial_delay_secs;
    queue_retry_backoff_multiplier =
        over (within (env (codes "MTA_QUEUE_RETRY_BACKOFF")) floats.parse_f64)
          cfg.queue_retry_backoff_multiplier;
    queue_retry_max_delay_secs =
        over (within (env (codes "MTA_QUEUE_RETRY_MAX_DELAY")) (parse_uint u64_max))
          cfg.queue_retry_max_delay_secs;
    queue_retry_max_attempts =
        over (within (env (codes "MTA_QUEUE_RETRY_MAX_ATTEMPTS")) (parse_uint u32_max))
          cfg.queue_retry_max_attempts;
    dns_timeout_secs =
        over (within (env (codes "MTA_DNS_TIMEOUT")) (parse_uint u64_max)) cfg.dns_timeout_secs;
    dns_cache_max_ttl_secs =
        over (within (env (codes "MTA_DNS_CACHE_MAX_TTL")) (parse_uint u64_max))
          cfg.dns_cache_max_ttl_secs;
    dns_cache_neg_ttl_secs =
        over (within (env (codes "MTA_DNS_CACHE_NEG_TTL")) (parse_uint u64_max))
          cfg.dns_cache_neg_ttl_secs;
    dns_max_cname_depth =
        over (within (env (codes "MTA_DNS_MAX_CNAME_DEPTH")) (parse_uint usize_max))
          cfg.dns_max_cname_depth;
    dkim_key_dir = some_of (env (codes "MTA_DKIM_KEY_DIR")) cfg.dkim_key_dir;
    dkim_default_selector = some_of (env (codes "MTA_DKIM_SELECTOR")) cfg.dkim_default_selector;
    spf_verify_enabled =
        over (within (env (codes "MTA_SPF_VERIFY")) (bool_or true)) cfg.spf_verify_enabled;
    dmarc_verify_enabled =
        over (within (env (codes "MTA_DMARC_VERIFY")) (bool_or true)) cfg.dmarc_verify_enabled;
    spf_reject_fail =
        over (within (env (codes "MTA_SPF_REJECT_FAIL")) (bool_or false)) cfg.spf_reject_fail;
    dmarc_reject_fail =
        over (within (env (codes "MTA_DMARC_REJECT_FAIL")) (bool_or false)) cfg.dmarc_reject_fail;
  }

  -- Reading the file, with the text of an error, and serde's reading of its text.
  module _ (read_to_string : Text → Result Text Text)
      (from_toml : Text → Result Text (FileConfig floats parse_addr)) where
    unfoldable pub read_file : Text → Result ConfigError (FileConfig floats parse_addr)
    read_file path = elim (read_to_string path) [
      | err e ↦
          err (record { reason = codes "cannot read config file " ++ path ++ codes ": " ++ e })
      | ok contents ↦ elim (from_toml contents) [
        | err e ↦ err (record { reason = codes "bad TOML in " ++ path ++ codes ": " ++ e })
        | ok file ↦ ok file
      ]
    ]

    unfoldable pub load : Option Text → Result ConfigError (Config floats)
    unfolding read_file apply_env apply
    load none = ok (apply_env (config_default floats))
    load (some path) = elim (read_file path) [
      | err e ↦ err e
      | ok file ↦ elim (apply floats parse_addr file (config_default floats)) [
        | err e ↦ err e
        | ok cfg ↦ ok (apply_env cfg)
      ]
    ]

-- `from_env`; `none` is the panic of `expect`.
unfoldable pub from_env :
    (floats : Floats)
    → (Text → Result Text SocketAddr)
    → (Text → Option Text)
    → Option (Config floats)
unfolding load
from_env floats parse_addr env =
    elim (load floats parse_addr env (λ path. err path) (λ contents. err contents) none) [
      | ok cfg ↦ some cfg
      | err e ↦ none
    ]
