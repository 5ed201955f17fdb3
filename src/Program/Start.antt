-- ===== src/Program/Start.antt =====
-- `main` of src/main.rs: from the command line and the configuration to the two servers.
use my_mta.Prelude.{
  ℕ, ◌≤◌, ◌≡◌, refl, List, inl, inr, Bool, true, Bool-cases, Option, Result, ok, err, if◌then◌else◌,
}
use my_mta.Prelude.Text.{Text}
use my_mta.Prelude.Text.Numbers.{usize_max}
use my_mta.Delivery.MxResolve.{SocketAddr}
use my_mta.Config
use my_mta.Config.{Floats, ConfigError}
use my_mta.Config.File.{FileConfig}
use my_mta.Config.Env.{load}
use my_mta.Config.Types.{IsTyped, IsFileTyped, load-IsTyped}
use my_mta.Smtp.Server.Tasks.{Limits}
use my_mta.Http.Api
use my_mta.Program.{Invocation, runs, exits, parse_args}

-- The two servers and the directory of the spool that they share.
pub record Services : Type 0 where
  pub smtp_addr : SocketAddr
  pub smtp : Limits
  pub http_addr : SocketAddr
  pub http : Api.Config
  pub spool_dir : Text

-- How `main` goes on: the process ends with a code, an error is returned, or the servers run.
pub data Outcome : Type 0 where
  ends_with : (code : ℕ) → Outcome
  config_fails : ConfigError → Outcome
  spool_fails : Outcome
  serves : Services → Outcome

-- `opens` says whether the directories of `DiskSpool::new` can be created.
module _ (floats : Floats) (parse_addr : Text → Result Text SocketAddr) (env : Text → Option Text)
    (read_to_string : Text → Result Text Text)
    (from_toml : Text → Result Text (FileConfig floats parse_addr)) (opens : Text → Bool) where
  services : Config.Config floats → Services
  services cfg = record {
    smtp_addr = cfg.listen_addr;
    smtp = record {
      hostname = cfg.hostname;
      max_message_size = cfg.max_message_size;
      max_recipients = cfg.max_recipients;
    };
    http_addr = cfg.http_listen_addr;
    http = record {
      hostname = cfg.hostname;
      max_message_size = cfg.max_message_size;
      max_recipients = cfg.max_recipients;
    };
    spool_dir = cfg.spool_dir;
  }

  started : Result ConfigError (Config.Config floats) → Outcome
  unfolding services
  started (err e) = config_fails e
  started (ok cfg) = if opens cfg.spool_dir then serves (services cfg) else spool_fails

  start_of : Invocation → Outcome
  unfolding started
  start_of (exits code) = ends_with code
  start_of (runs path) = started (load floats parse_addr env read_to_string from_toml path)

  unfoldable pub main : List Text → Outcome
  unfolding start_of
  main args = start_of (parse_args args)

  -- The limits of both servers.
  abbrev pub IsShared : Services → Type 0
  IsShared s =
      (s.smtp.hostname ≡ s.http.hostname)
      × (s.smtp.max_message_size ≡ s.http.max_message_size)
      × (s.smtp.max_recipients ≡ s.http.max_recipients)
      × (s.smtp.max_message_size ≤ usize_max)
      × (opens s.spool_dir ≡ true)

  started-IsShared :
      (s : Services) (r : Result ConfigError (Config.Config floats))
      → ((cfg : Config.Config floats) → r ≡ ok cfg → IsTyped floats cfg)
      → started r ≡ serves s
      → IsShared s
  unfolding started services
  started-IsShared s (err e) typed h = cc
  started-IsShared s (ok cfg) typed h = elim (Bool-cases (opens cfg.spool_dir)) [
    | inr e ↦ cc (rw (e, started) at h)
    | inl e ↦
        let same : s ≡ services cfg = cc (rw (e, started) at h) in
        rw same (refl, refl, refl, (typed cfg refl).max_message_size, e)
  ]

  start_of-IsShared :
      ((contents : Text) (file : FileConfig floats parse_addr)
        → from_toml contents ≡ ok file
        → IsFileTyped floats parse_addr file)
      → (i : Invocation) (s : Services) → start_of i ≡ serves s
      → IsShared s
  unfolding start_of
  start_of-IsShared typed (exits code) s h = cc
  start_of-IsShared typed (runs path) s h =
      started-IsShared s (load floats parse_addr env read_to_string from_toml path)
        (load-IsTyped floats parse_addr env read_to_string from_toml typed path) h

  -- Where the program serves, both servers have the same host name and the same limits, the size
  -- limit fits its type, and the spool's directory could be opened: whatever the command line, the
  -- environment and the file, if serde gives only integers that fit their types.
  main-IsShared :
      ((contents : Text) (file : FileConfig floats parse_addr)
        → from_toml contents ≡ ok file
        → IsFileTyped floats parse_addr file)
      → (args : List Text) (s : Services) → main args ≡ serves s
      → IsShared s
  unfolding main
  main-IsShared typed args s h = start_of-IsShared typed (parse_args args) s h
