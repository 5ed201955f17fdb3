-- ===== src/Delivery/Client/Capabilities.antt =====
-- `SmtpCapabilities` of src/delivery/client.rs.
use my_mta.Prelude.{ℕ, List, [], ◌∷◌, Bool, true, false, Option, none, drop, if◌then◌else◌}
use my_mta.Prelude.Text.{Text, codes, starts_with, to_ascii_uppercase, split_whitespace}
use my_mta.Prelude.Text.Numbers.{parse_uint, usize_max}

pub record SmtpCapabilities : Type 0 where
  pub starttls : Bool
  pub max_size : Option ℕ
  pub eightbitmime : Bool
  pub pipelining : Bool
  pub auth_mechanisms : List Text
  pub server_hostname : Text

-- `Default`
abbrev pub no_capabilities : SmtpCapabilities
no_capabilities = record {
  starttls = false;
  max_size = none;
  eightbitmime = false;
  pipelining = false;
  auth_mechanisms = [];
  server_hostname = [];
}

-- `nth(1)` of the words, where the size stands.
with_size : SmtpCapabilities → List Text → SmtpCapabilities
with_size caps (keyword ∷ size ∷ more) = record caps { max_size = parse_uint usize_max size }
with_size caps _ = caps

-- One round of the loop.
add_line : SmtpCapabilities → Text → SmtpCapabilities
unfolding with_size
add_line caps line =
    let upper = to_ascii_uppercase line in
    if starts_with upper (codes "STARTTLS")
    then record caps { starttls = true }
    else if starts_with upper (codes "SIZE ")
    then with_size caps (split_whitespace line)
    else if starts_with upper (codes "8BITMIME")
    then record caps { eightbitmime = true }
    else if starts_with upper (codes "PIPELINING")
    then record caps { pipelining = true }
    else if starts_with upper (codes "AUTH ")
    then record caps { auth_mechanisms = split_whitespace (drop 5 line) }
    else caps

add_lines : SmtpCapabilities → List Text → SmtpCapabilities
unfolding add_line
add_lines caps [] = caps
add_lines caps (line ∷ lines) = add_lines (add_line caps line) lines

unfoldable pub parse : List Text → SmtpCapabilities
unfolding add_lines
parse lines = add_lines no_capabilities lines
