-- ===== src/Tests/Config.antt =====
-- Configurations of src/config.rs that are loaded from a file, with and without a variable.
use my_mta.Prelude.{ℕ, Option, none, some, refl, Result, ok, err, if◌then◌else◌}
use my_mta.Prelude.Text.{Text, codes, ◌=ₜ◌}
use my_mta.Dns.Records.{v4}
use my_mta.Delivery.MxResolve.{SocketAddr}
use my_mta.Config.{Floats, Config, config_default}
use my_mta.Config.File
use my_mta.Config.File.{FileConfig, selectors_within, settled, apply}
use my_mta.Config.Env.{apply_env, read_file, load}
use my_mta.Config.Layers.{IsLayered, load_layers}

abbrev floats : Floats
floats = record { F64 = ℕ; two = 2; parse_f64 = λ s. none }

-- One address is known.
abbrev parse_addr : Text → Result Text SocketAddr
parse_addr s = if s =ₜ codes "::" then err (codes "bad") else ok (record { ip = v4 7; port = 25 })

abbrev file : Text → FileConfig floats parse_addr
file listen = record {
  server = some (record { listen = some listen; hostname = some (codes "mx") });
  limits = some (record { max_message_size = some 5; max_recipients = none });
  spool = none;
  logging = none;
  http = none;
  queue = none;
  dns = none;
  auth = none;
}

abbrev variables : Text → Option Text
variables name = if name =ₜ codes "MTA_HOSTNAME" then some (codes "env") else none

abbrev text_of : Text → Result Text Text
text_of path = ok path

abbrev toml : Text → Result Text (FileConfig floats parse_addr)
toml text = ok (file text)

abbrev loaded : Text → Config floats
loaded listen = elim (load floats parse_addr variables text_of toml (some listen)) [
  | ok cfg ↦ cfg
  | err e ↦ config_default floats
]

load_layers_example : IsLayered floats parse_addr variables (file (codes "x")) (loaded (codes "x"))
unfolding load read_file apply settled File.address apply_env selectors_within ◌=ₜ◌
load_layers_example =
    load_layers floats parse_addr variables text_of toml (codes "x") (codes "x") (file (codes "x"))
      refl refl (loaded (codes "x")) refl
