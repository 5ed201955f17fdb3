-- ===== src/Config.antt =====
-- src/config.rs: the configuration and its defaults. A path is its text, an `f64` a type of which the
-- program only knows how to read it and the number two.
pub mod File
pub mod Env
pub mod Selectors
pub mod Layers
pub mod Types
use my_mta.Prelude.{ℕ, ◌*◌, ◌++◌, List, [], Bool, true, false, Option, none, some}
use my_mta.Prelude.Text.{Text, codes}
use my_mta.Dns.Records.{v4}
use my_mta.Delivery.MxResolve.{SocketAddr}

pub record DkimSelectorConfig : Type 0 where
  pub domain : Text
  pub key_path : Text
  pub algorithm : Text
  pub header_canon : Text
  pub body_canon : Text
  pub signed_headers : Text

abbrev pub default_rsa_sha256 : Text
default_rsa_sha256 = codes "rsa-sha256"

abbrev pub default_relaxed : Text
default_relaxed = codes "relaxed"

abbrev pub default_signed_headers : Text
default_signed_headers =
    codes "from,to,subject,date,message-id,mime-version,content-type,content-transfer-encoding"

abbrev pub selector_default : DkimSelectorConfig
selector_default = record {
  domain = [];
  key_path = [];
  algorithm = codes "rsa-sha256";
  header_canon = codes "relaxed";
  body_canon = codes "relaxed";
  signed_headers =
      codes "from,to,subject,date,message-id,mime-version,content-type,content-transfer-encoding";
}

-- `f64`: its numbers, the one of the defaults, and `parse`.
pub record Floats : Type 1 where
  pub F64 : Type 0
  pub two : F64
  pub parse_f64 : Text → Option F64

module _ (floats : Floats) where
  pub record Config : Type 0 where
    pub listen_addr : SocketAddr
    pub hostname : Text
    pub max_message_size : ℕ
    pub max_recipients : ℕ
    pub spool_dir : Text
    pub log_level : Text
    pub http_listen_addr : SocketAddr
    pub queue_concurrency : ℕ
    pub queue_retry_initial_delay_secs : ℕ
    pub queue_retry_backoff_multiplier : floats.F64
    pub queue_retry_max_delay_secs : ℕ
    pub queue_retry_max_attempts : ℕ
    pub dns_timeout_secs : ℕ
    pub dns_cache_max_ttl_secs : ℕ
    pub dns_cache_neg_ttl_secs : ℕ
    pub dns_max_cname_depth : ℕ
    pub dkim_key_dir : Option Text
    pub dkim_default_selector : Option Text
    pub dkim_selectors : List (Text × DkimSelectorConfig)
    pub spf_verify_enabled : Bool
    pub dmarc_verify_enabled : Bool
    pub spf_reject_fail : Bool
    pub dmarc_reject_fail : Bool

  -- `Default`; the two addresses are what the literals parse to.
  abbrev pub config_default : Config
  config_default = record {
    listen_addr = record { ip = v4 0; port = 2525 };
    hostname = codes "localhost";
    max_message_size = 10 * 1024 * 1024;
    max_recipients = 100;
    spool_dir = codes "spool";
    log_level = codes "info";
    http_listen_addr = record { ip = v4 0; port = 8025 };
    queue_concurrency = 5;
    queue_retry_initial_delay_secs = 60;
    queue_retry_backoff_multiplier = floats.two;
    queue_retry_max_delay_secs = 3600;
    queue_retry_max_attempts = 10;
    dns_timeout_secs = 5;
    dns_cache_max_ttl_secs = 3600;
    dns_cache_neg_ttl_secs = 300;
    dns_max_cname_depth = 8;
    dkim_key_dir = none;
    dkim_default_selector = none;
    dkim_selectors = [];
    spf_verify_enabled = true;
    dmarc_verify_enabled = true;
    spf_reject_fail = false;
    dmarc_reject_fail = false;
  }

-- `ConfigError`
pub record ConfigError : Type 0 where
  pub reason : Text

-- `Display`
unfoldable pub config_error_text : ConfigError → Text
config_error_text e = codes "config error: " ++ e.reason

-- The value that takes a field's place, if there is one.
abbrev pub over {ℓ} : {A : Type ℓ} → Option A → A → A
over none old = old
over (some new) old = new
