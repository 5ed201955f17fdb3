-- ===== src/Program.antt =====
-- src/main.rs: the command line, and what `main` starts.
pub mod Start
use my_mta.Prelude.{ℕ, List, [], ◌∷◌, ◌||◌, Option, none, some, if◌then◌else◌}
use my_mta.Prelude.Text.{Text, codes, ◌=ₜ◌}

-- `parse_args` gives a path or none, or ends the process with a code.
pub data Invocation : Type 0 where
  runs : (config_path : Option Text) → Invocation
  exits : (code : ℕ) → Invocation

-- The argument behind `--config`.
config_of : List Text → Invocation
config_of [] = exits 1
config_of (path ∷ args) = runs (some path)

-- The arguments behind the name of the program; each arm of the match returns or exits, so that the
-- loop has one round at most.
unfoldable pub parse_args : List Text → Invocation
unfolding config_of ◌=ₜ◌
parse_args [] = runs none
parse_args (arg ∷ args) =
    if arg =ₜ codes "--config" || arg =ₜ codes "-c"
    then config_of args
    else if arg =ₜ codes "--help" || arg =ₜ codes "-h"
    then exits 0
    else exits 1
