-- ===== src/Tests/Smuggled.antt =====
-- A recipient of an HTTP injection that becomes two commands.
use my_mta.Prelude.{[], ◌∷◌, ◌++◌, ◌≡◌, refl, arith, inr, ok}
use my_mta.Prelude.Text.{
  codes, as_bytes, len, split, starts_with, ends_with_char, is_ascii_alphanumeric,
}
use my_mta.Smtp.Command.Sent.{rcpt_to_line}
use my_mta.Smtp.Command.Address.Grammar.{IsLabel, IsDomain}
use my_mta.Http.Api.{validate_recipients}
use my_mta.Delivery.Connector.{default_config}
use my_mta.Delivery.Client.Dialogue.{rcpt_to}
use my_mta.Delivery.Client.Exchange.{peer}
use my_mta.Interop.Smuggled.{smuggling, smuggled_recipient}
use my_mta.Tests.Utf8.{decode}

z-IsLabel : IsLabel (codes "z")
unfolding len starts_with ends_with_char is_ascii_alphanumeric
z-IsLabel = record {
  nonempty = refl;
  short = omega arith;
  start = refl;
  end = refl;
  letters = (refl, tt);
}

org-IsLabel : IsLabel (codes "org")
unfolding len starts_with ends_with_char is_ascii_alphanumeric
org-IsLabel = record {
  nonempty = refl;
  short = omega arith;
  start = refl;
  end = refl;
  letters = (refl, (refl, (refl, tt)));
}

z_org-IsDomain : IsDomain (codes "z.org")
unfolding len split
z_org-IsDomain = record {
  nonempty = refl;
  short = omega arith;
  parts = inr (z-IsLabel, (org-IsLabel, tt));
}

smuggled_recipient_example :
    (validate_recipients (smuggling (codes "x@b.com") (codes "y@z.org") ∷ []) 5 ≡ ok tt)
    × ((rcpt_to decode default_config
          (smuggling (codes "x@b.com") (codes "y@z.org"))
          (peer [] [])).0.sent
        ≡ as_bytes (rcpt_to_line (codes "x@b.com") ++ rcpt_to_line (codes "y@z.org")))
unfolding len
smuggled_recipient_example =
    smuggled_recipient decode default_config (codes "x@b.com") (codes "y") (codes "z.org") 5 [] []
      (omega arith) (refl, (refl, (refl, (refl, (refl, tt))))) z_org-IsDomain (omega arith)
