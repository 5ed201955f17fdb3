-- ===== src/Config/File.antt =====
-- The configuration file: `FileConfig` of src/config.rs and its `apply`. serde reads the file, and
-- `parse_addr` is `parse::<SocketAddr>` with the text of its error.
use my_mta.Prelude.{ℕ, List, [], ◌∷◌, ◌++◌, Bool, Option, none, some, Result, ok, err}
use my_mta.Prelude.Text.{Text, codes}
use my_mta.Prelude.Text.Table.{insert}
use my_mta.Delivery.MxResolve.{SocketAddr}
use my_mta.Config.{DkimSelectorConfig, Floats, Config, ConfigError, over}

pub record ServerSection : Type 0 where
  pub listen : Option Text
  pub hostname : Option Text

pub record LimitsSection : Type 0 where
  pub max_message_size : Option ℕ
  pub max_recipients : Option ℕ

pub record SpoolSection : Type 0 where
  pub dir : Option Text

pub record LoggingSection : Type 0 where
  pub level : Option Text

pub record HttpSection : Type 0 where
  pub listen : Option Text

pub record DnsSection : Type 0 where
  pub timeout_secs : Option ℕ
  pub cache_max_ttl_secs : Option ℕ
  pub cache_neg_ttl_secs : Option ℕ
  pub max_cname_depth : Option ℕ

pub record DkimSelectorFileConfig : Type 0 where
  pub domain : Text
  pub key_path : Text
  pub algorithm : Text
  pub header_canon : Text
  pub body_canon : Text
  pub signed_headers : Text

-- The order of the selectors is the map's iteration order.
pub record DkimSection : Type 0 where
  pub selectors : List (Text × DkimSelectorFileConfig)

pub record AuthSection : Type 0 where
  pub dkim_key_dir : Option Text
  pub dkim_selector : Option Text
  pub dkim : Option DkimSection
  pub spf_verify : Option Bool
  pub dmarc_verify : Option Bool
  pub spf_reject_fail : Option Bool
  pub dmarc_reject_fail : Option Bool

-- A field of a section that may be missing.
abbrev pub within {ℓ κ} : {S : Type ℓ} {A : Type κ} → Option S → (S → Option A) → Option A
within none field = none
within (some section) field = field section

abbrev pub some_of {ℓ} : {A : Type ℓ} → Option A → Option A → Option A
some_of none old = old
some_of (some new) old = some new

selector_of : DkimSelectorFileConfig → DkimSelectorConfig
selector_of s = record {
  domain = s.domain;
  key_path = s.key_path;
  algorithm = s.algorithm;
  header_canon = s.header_canon;
  body_canon = s.body_canon;
  signed_headers = s.signed_headers;
}

-- The loop over the selectors of the file.
unfoldable pub insert_selectors :
    List (Text × DkimSelectorFileConfig)
    → List (Text × DkimSelectorConfig)
    → List (Text × DkimSelectorConfig)
unfolding insert selector_of
insert_selectors [] selectors = selectors
insert_selectors ((name, s) ∷ rest) selectors =
    insert_selectors rest (insert selectors name (selector_of s))

module _ (floats : Floats) (parse_addr : Text → Result Text SocketAddr) where
  pub record QueueSection : Type 0 where
    pub concurrency : Option ℕ
    pub retry_initial_delay : Option ℕ
    pub retry_backoff : Option floats.F64
    pub retry_max_delay : Option ℕ
    pub retry_max_attempts : Option ℕ

  pub record FileConfig : Type 0 where
    pub server : Option ServerSection
    pub limits : Option LimitsSection
    pub spool : Option SpoolSection
    pub logging : Option LoggingSection
    pub http : Option HttpSection
    pub queue : Option QueueSection
    pub dns : Option DnsSection
    pub auth : Option AuthSection

  -- An address of the file, or the one that is there.
  unfoldable pub address : Text → Option Text → SocketAddr → Result ConfigError SocketAddr
  address name none old = ok old
  address name (some listen) old = elim (parse_addr listen) [
    | ok addr ↦ ok addr
    | err e ↦
        err
          (record { reason = codes "invalid " ++ name ++ codes " '" ++ listen ++ codes "': " ++ e })
  ]

  unfoldable pub selectors_within :
      Option AuthSection → List (Text × DkimSelectorConfig) → List (Text × DkimSelectorConfig)
  unfolding insert_selectors
  selectors_within auth selectors = elim (within auth (λ a. a.dkim)) [
    | none ↦ selectors
    | some dkim ↦ insert_selectors dkim.selectors selectors
  ]

  -- The fields that cannot fail.
  unfoldable pub settled : FileConfig → SocketAddr → SocketAddr → Config floats → Config floats
  unfolding selectors_within
  settled f listen http_listen cfg = record cfg {
    listen_addr = listen;
    hostname = over (within f.server (λ s. s.hostname)) cfg.hostname;
    max_message_size = over (within f.limits (λ l. l.max_message_size)) cfg.max_message_size;
    max_recipients = over (within f.limits (λ l. l.max_recipients)) cfg.max_recipients;
    spool_dir = over (within f.spool (λ sp. sp.dir)) cfg.spool_dir;
    log_level = over (within f.logging (λ lg. lg.level)) cfg.log_level;
    http_listen_addr = http_listen;
    queue_concurrency = over (within f.queue (λ q. q.concurrency)) cfg.queue_concurrency;
    queue_retry_initial_delay_secs =
        over (within f.queue (λ q. q.retry_initial_delay)) cfg.queue_retry_initial_delay_secs;
    queue_retry_backoff_multiplier =
        over (within f.queue (λ q. q.retry_backoff)) cfg.queue_retry_backoff_multiplier;
    queue_retry_max_delay_secs =
        over (within f.queue (λ q. q.retry_max_delay)) cfg.queue_retry_max_delay_secs;
    queue_retry_max_attempts =
        over (within f.queue (λ q. q.retry_max_attempts)) cfg.queue_retry_max_attempts;
    dns_timeout_secs = over (within f.dns (λ d. d.timeout_secs)) cfg.dns_timeout_secs;
    dns_cache_max_ttl_secs =
        over (within f.dns (λ d. d.cache_max_ttl_secs)) cfg.dns_cache_max_ttl_secs;
    dns_cache_neg_ttl_secs =
        over (within f.dns (λ d. d.cache_neg_ttl_secs)) cfg.dns_cache_neg_ttl_secs;
    dns_max_cname_depth = over (within f.dns (λ d. d.max_cname_depth)) cfg.dns_max_cname_depth;
    dkim_key_dir = some_of (within f.auth (λ a. a.dkim_key_dir)) cfg.dkim_key_dir;
    dkim_default_selector =
        some_of (within f.auth (λ a. a.dkim_selector)) cfg.dkim_default_selector;
    dkim_selectors = selectors_within f.auth cfg.dkim_selectors;
    spf_verify_enabled = over (within f.auth (λ a. a.spf_verify)) cfg.spf_verify_enabled;
    dmarc_verify_enabled = over (within f.auth (λ a. a.dmarc_verify)) cfg.dmarc_verify_enabled;
    spf_reject_fail = over (within f.auth (λ a. a.spf_reject_fail)) cfg.spf_reject_fail;
    dmarc_reject_fail = over (within f.auth (λ a. a.dmarc_reject_fail)) cfg.dmarc_reject_fail;
  }

  -- The caller drops the half-written configuration of an error.
  unfoldable pub apply : FileConfig → Config floats → Result ConfigError (Config floats)
  unfolding address settled
  apply f cfg =
      elim (address (codes "server.listen") (within f.server (λ s. s.listen)) cfg.listen_addr) [
        | err e ↦ err e
        | ok listen ↦
            elim (address (codes "http.listen") (within f.http (λ h. h.listen))
              cfg.http_listen_addr) [
                | err e ↦ err e
                | ok http_listen ↦ ok (settled f listen http_listen cfg)
              ]
      ]
