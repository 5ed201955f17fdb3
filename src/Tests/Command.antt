-- ===== src/Tests/Command.antt =====
-- Command lines of src/smtp/command.rs.
use mathlib.Core.Path.{◌≡◌}
use mathlib.Core.Logic.{◌↔◌}
use my_mta.Prelude.{ok}
use my_mta.Prelude.Text.{codes}
use my_mta.Smtp.Command.Address.{validate_email_address}
use my_mta.Smtp.Command.Address.Grammar.{IsEmail, validate_iff_IsEmail}

validate_iff_IsEmail_example :
    (validate_email_address (codes "a@b.com") ≡ ok tt) ↔ IsEmail (codes "a@b.com")
validate_iff_IsEmail_example = validate_iff_IsEmail (codes "a@b.com")
