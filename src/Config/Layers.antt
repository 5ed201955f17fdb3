-- ===== src/Config/Layers.antt =====
-- What `Config::load` of src/config.rs gives: the layers, field by field, and when it fails.
use my_mta.Prelude.{
  ◌≡◌, refl, sym, ◌∙◌, ◌++◌, ◌⊎◌, inl, inr, true, false, [], Option, none, some, Result, ok, err,
  Result-cases,
}
use my_mta.Prelude.Text.{Text, codes}
use my_mta.Prelude.Text.Numbers.{parse_uint, usize_max}
use my_mta.Dns.Records.{v4}
use my_mta.Delivery.MxResolve.{SocketAddr}
use my_mta.Config.{Floats, Config, config_default, over}
use my_mta.Config.File.{FileConfig, within, some_of, address, selectors_within, settled, apply}
use my_mta.Config.Env.{u32_max, u64_max, parsed, bool_or, apply_env, read_file, load}

module _ (floats : Floats) (parse_addr : Text → Result Text SocketAddr) where
  address_over :
      (name : Text) (listen : Option Text) (old addr : SocketAddr)
      → address floats parse_addr name listen old ≡ ok addr
      → addr ≡ over (within listen (parsed parse_addr)) old
  unfolding address parsed
  address_over name none old addr h = cc
  address_over name (some s) old addr h = elim (Result-cases (parse_addr s)) [
    | inl (a, g) ↦ cc (g, (rw (g, address) at h))
    | inr (e, g) ↦ cc (rw (g, address) at h)
  ]

  address_fails :
      (name s e : Text) (old : SocketAddr)
      → parse_addr s ≡ err e
      → address floats parse_addr name (some s) old
        ≡ err (record { reason = codes "invalid " ++ name ++ codes " '" ++ s ++ codes "': " ++ e })
  unfolding address
  address_fails name s e old h = rw (h, address) refl

  -- A configuration that `apply` gives is the settled one, with the addresses that it read.
  pub apply-settled :
      (f : FileConfig floats parse_addr) (old new : Config floats)
      → apply floats parse_addr f old ≡ ok new
      → new
        ≡ settled floats parse_addr f
            (over (within (within f.server (λ s. s.listen)) (parsed parse_addr)) old.listen_addr)
            (over (within (within f.http (λ h. h.listen)) (parsed parse_addr)) old.http_listen_addr)
            old
  unfolding apply
  apply-settled f old new h =
      elim (Result-cases (
        address floats parse_addr (codes "server.listen") (within f.server (λ s. s.listen))
          old.listen_addr)) [
            | inr (e, g) ↦ cc (rw (g, apply) at h)
            | inl (a, g) ↦
                elim (Result-cases (
                  address floats parse_addr (codes "http.listen") (within f.http (λ s. s.listen))
                    old.http_listen_addr)) [
                      | inr (e, k) ↦ cc (rw (g, k, apply) at h)
                      | inl (b, k) ↦
                          let e1 =
                            address_over (codes "server.listen") (within f.server (λ s. s.listen))
                              old.listen_addr a g in
                          let e2 =
                            address_over (codes "http.listen") (within f.http (λ s. s.listen))
                              old.http_listen_addr b k in
                          cc (e1, e2, (rw (g, k, apply) at h))
                    ]
          ]

-- The environment's value, or else the file's, or else the default.
abbrev pub layered {ℓ} : {A : Type ℓ} → Option A → Option A → A → A
layered env file default = over env (over file default)

module _ (floats : Floats) (parse_addr : Text → Result Text SocketAddr) (env : Text → Option Text)
    (file : FileConfig floats parse_addr) where
  -- Every field is that of the layers.
  abbrev pub IsLayered : Config floats → Type 0
  IsLayered cfg =
      (cfg.listen_addr
        ≡ layered (within (env (codes "MTA_LISTEN")) (parsed parse_addr))
            (within (within file.server (λ x. x.listen)) (parsed parse_addr))
            (record { ip = v4 0; port = 2525 }))
      × (cfg.http_listen_addr
          ≡ layered (within (env (codes "MTA_HTTP_LISTEN")) (parsed parse_addr))
              (within (within file.http (λ x. x.listen)) (parsed parse_addr))
              (record { ip = v4 0; port = 8025 }))
      × (cfg.hostname
          ≡ layered (env (codes "MTA_HOSTNAME")) (within file.server (λ x. x.hostname))
              (codes "localhost"))
      × (cfg.max_message_size
          ≡ layered (within (env (codes "MTA_MAX_MESSAGE_SIZE")) (parse_uint usize_max))
              (within file.limits (λ x. x.max_message_size)) 10485760)
      × (cfg.max_recipients
          ≡ layered (within (env (codes "MTA_MAX_RECIPIENTS")) (parse_uint usize_max))
              (within file.limits (λ x. x.max_recipients)) 100)
      × (cfg.spool_dir
          ≡ layered (env (codes "MTA_SPOOL_DIR")) (within file.spool (λ x. x.dir)) (codes "spool"))
      × (cfg.log_level
          ≡ layered (env (codes "MTA_LOG_LEVEL")) (within file.logging (λ x. x.level))
              (codes "info"))
      × (cfg.queue_concurrency
          ≡ layered (within (env (codes "MTA_QUEUE_CONCURRENCY")) (parse_uint u32_max))
              (within file.queue (λ x. x.concurrency)) 5)
      × (cfg.queue_retry_initial_delay_secs
          ≡ layered (within (env (codes "MTA_QUEUE_RETRY_INITIAL_DELAY")) (parse_uint u64_max))
              (within file.queue (λ x. x.retry_initial_delay)) 60)
      × (cfg.queue_retry_backoff_multiplier
          ≡ layered (within (env (codes "MTA_QUEUE_RETRY_BACKOFF")) (floats.parse_f64))
              (within file.queue (λ x. x.retry_backoff)) floats.two)
      × (cfg.queue_retry_max_delay_secs
          ≡ layered (within (env (codes "MTA_QUEUE_RETRY_MAX_DELAY")) (parse_uint u64_max))
              (within file.queue (λ x. x.retry_max_delay)) 3600)
      × (cfg.queue_retry_max_attempts
          ≡ layered (within (env (codes "MTA_QUEUE_RETRY_MAX_ATTEMPTS")) (parse_uint u32_max))
              (within file.queue (λ x. x.retry_max_attempts)) 10)
      × (cfg.dns_timeout_secs
          ≡ layered (within (env (codes "MTA_DNS_TIMEOUT")) (parse_uint u64_max))
              (within file.dns (λ x. x.timeout_secs)) 5)
      × (cfg.dns_cache_max_ttl_secs
          ≡ layered (within (env (codes "MTA_DNS_CACHE_MAX_TTL")) (parse_uint u64_max))
              (within file.dns (λ x. x.cache_max_ttl_secs)) 3600)
      × (cfg.dns_cache_neg_ttl_secs
          ≡ layered (within (env (codes "MTA_DNS_CACHE_NEG_TTL")) (parse_uint u64_max))
              (within file.dns (λ x. x.cache_neg_ttl_secs)) 300)
      × (cfg.dns_max_cname_depth
          ≡ layered (within (env (codes "MTA_DNS_MAX_CNAME_DEPTH")) (parse_uint usize_max))
              (within file.dns (λ x. x.max_cname_depth)) 8)
      × (cfg.dkim_key_dir
          ≡ some_of (env (codes "MTA_DKIM_KEY_DIR"))
              (some_of (within file.auth (λ x. x.dkim_key_dir)) none))
      × (cfg.dkim_default_selector
          ≡ some_of (env (codes "MTA_DKIM_SELECTOR"))
              (some_of (within file.auth (λ x. x.dkim_selector)) none))
      × (cfg.dkim_selectors ≡ selectors_within floats parse_addr file.auth [])
      × (cfg.spf_verify_enabled
          ≡ layered (within (env (codes "MTA_SPF_VERIFY")) (bool_or true))
              (within file.auth (λ x. x.spf_verify)) true)
      × (cfg.dmarc_verify_enabled
          ≡ layered (within (env (codes "MTA_DMARC_VERIFY")) (bool_or true))
              (within file.auth (λ x. x.dmarc_verify)) true)
      × (cfg.spf_reject_fail
          ≡ layered (within (env (codes "MTA_SPF_REJECT_FAIL")) (bool_or false))
              (within file.auth (λ x. x.spf_reject_fail)) false)
      × (cfg.dmarc_reject_fail
          ≡ layered (within (env (codes "MTA_DMARC_REJECT_FAIL")) (bool_or false))
              (within file.auth (λ x. x.dmarc_reject_fail)) false)

module _ (floats : Floats) (parse_addr : Text → Result Text SocketAddr) (env : Text → Option Text)
    (read_to_string : Text → Result Text Text)
    (from_toml : Text → Result Text (FileConfig floats parse_addr)) (path contents : Text)
    (file : FileConfig floats parse_addr) (read : read_to_string path ≡ ok contents)
    (understood : from_toml contents ≡ ok file) where
  pub applied :
      load floats parse_addr env read_to_string from_toml (some path)
      ≡ elim (apply floats parse_addr file (config_default floats)) [
        | err e ↦ err e
        | ok cfg ↦ ok (apply_env floats parse_addr env cfg)
      ]
  unfolding load read_file
  applied = rw (load, read_file, read, understood) refl

  -- Where the file is read and its configuration is loaded, the environment's value of each of the
  -- 22 fields that it can set goes before the file's, and the file's before the default; the DKIM
  -- selectors are those of the file. A number or an address of the environment that cannot be read
  -- is as if it were missing; a Boolean that cannot be read stands for the default.
  pub load_layers :
      (cfg : Config floats)
      → load floats parse_addr env read_to_string from_toml (some path) ≡ ok cfg
      → IsLayered floats parse_addr env file cfg
  unfolding apply_env settled
  load_layers cfg h = elim (Result-cases (apply floats parse_addr file (config_default floats))) [
    | inr (e, g) ↦ cc (rw g at (sym applied ∙ h))
    | inl (new, g) ↦
        let e1 = apply-settled floats parse_addr file (config_default floats) new g in
        let e2 : cfg ≡ apply_env floats parse_addr env new = cc (rw g at (sym applied ∙ h)) in
        rw (e2, e1)
          (
            refl, refl, refl, refl, refl, refl, refl, refl, refl, refl, refl, refl, refl, refl,
            refl, refl, refl, refl, refl, refl, refl, refl, refl,
          )
  ]

  -- A listen address of the file that cannot be read fails the load with its reason, even where the
  -- environment has another address: the server's, and the HTTP interface's where the file has none
  -- for the server.
  load_bad_address :
      (name s e : Text)
      → parse_addr s ≡ err e
      → ((name ≡ codes "server.listen") × (within file.server (λ x. x.listen) ≡ some s))
        ⊎ ((name ≡ codes "http.listen")
            × (within file.server (λ x. x.listen) ≡ none)
            × (within file.http (λ x. x.listen) ≡ some s))
      → load floats parse_addr env read_to_string from_toml (some path)
        ≡ err (record { reason = codes "invalid " ++ name ++ codes " '" ++ s ++ codes "': " ++ e })
  unfolding apply address
  load_bad_address name s e bad (inl (n, h)) = applied ∙ rw (n, h, apply, address, bad) refl
  load_bad_address name s e bad (inr (n, h, k)) = applied ∙ rw (n, h, k, apply, address, bad) refl
