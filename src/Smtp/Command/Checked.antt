-- ===== src/Smtp/Command/Checked.antt =====
-- What `parse` has checked of the addresses in a command.
use mathlib.Core.Path.{◌≡◌, refl, subst}
use mathlib.Core.Bool.{Bool, true, false}
use mathlib.Core.Option.{Option, none, some}
use mathlib.Core.List.{List, [], ◌∷◌}
use my_mta.Prelude.{is_empty, if◌then◌else◌, Result, ok, err, ◌>>=◌, ◌>>◌}
use my_mta.Prelude.Text.{Text, trim}
use my_mta.Smtp.Command.{
  SmtpCommand, Verb, ehlo, helo, mail_from, rcpt_to, start_data, quit, rset, noop, vrfy, help,
  parse, parse_mail_from, parse_rcpt_to, parse_verb, mail_from_parts, rcpt_to_parts, required,
  optional,
}
use my_mta.Smtp.Command.Address.{ParseError, empty_command, validate_email_address}

-- A forward path: not empty, and accepted by `validate_email_address`.
abbrev pub IsAddress : Text → Type 0
IsAddress a = (is_empty a ≡ false) × (validate_email_address a ≡ ok tt)

abbrev pub IsChecked : SmtpCommand → Type 0
IsChecked (mail_from address parameters) = validate_email_address address ≡ ok tt
IsChecked (rcpt_to address parameters) = IsAddress address
IsChecked _ = Unit {0}

then_ok :
    {A : Type 0} (r : Result ParseError (Unit {0})) (a b : A)
    → ◌≡◌ {A = Result ParseError A} (r >> ok a) (ok b)
    → (r ≡ ok tt) × (a ≡ b)
then_ok (ok u) a b h = (refl, cc)
then_ok (err e) a b h = cc

constant-IsChecked :
    (d : SmtpCommand)
    → IsChecked d
    → (c : SmtpCommand) → ◌≡◌ {A = Result ParseError SmtpCommand} (ok d) (ok c)
    → IsChecked c
constant-IsChecked d checked c h = let e : d ≡ c = cc in subst IsChecked e checked

refused-IsChecked :
    (e : ParseError) (c : SmtpCommand)
    → ◌≡◌ {A = Result ParseError SmtpCommand} (err e) (ok c)
    → IsChecked c
refused-IsChecked e c h = cc

mail_from_parts-IsChecked :
    (p : Text × List Text) (c : SmtpCommand) → mail_from_parts p ≡ ok c → IsChecked c
unfolding mail_from_parts validate_email_address
mail_from_parts-IsChecked ([], parameters) c h =
    constant-IsChecked (mail_from [] parameters) refl c h
mail_from_parts-IsChecked (x ∷ address, parameters) c h =
    let facts = then_ok (validate_email_address (x ∷ address)) _ c h in
    subst IsChecked facts.1 facts.0

rcpt_to_parts-IsChecked :
    (p : Text × List Text) (c : SmtpCommand) → rcpt_to_parts p ≡ ok c → IsChecked c
unfolding rcpt_to_parts
rcpt_to_parts-IsChecked ([], parameters) c h = cc
rcpt_to_parts-IsChecked (x ∷ address, parameters) c h =
    let facts = then_ok (validate_email_address (x ∷ address)) _ c h in
    subst IsChecked facts.1 (refl, facts.0)

-- Every command that `r` can hold is checked.
record Checks (r : Result ParseError SmtpCommand) : Type 0 where
  each : (c : SmtpCommand) → r ≡ ok c → IsChecked c

Checks-err : (e : ParseError) → Checks (err e)
Checks-err e = record { each = refused-IsChecked e }

Checks-ok : (d : SmtpCommand) → IsChecked d → Checks (ok d)
Checks-ok d checked = record { each = constant-IsChecked d checked }

Checks-if :
    (b : Bool) (x y : Result ParseError SmtpCommand)
    → Checks x
    → Checks y
    → Checks (if b then x else y)
Checks-if true x y hx hy = hx
Checks-if false x y hx hy = hy

Checks-bind :
    (r : Result ParseError (Text × List Text))
    (f : Text × List Text → Result ParseError SmtpCommand)
    → ((p : Text × List Text) → Checks (f p))
    → Checks (r >>= f)
Checks-bind (ok p) f h = h p
Checks-bind (err e) f h = Checks-err e

parse_mail_from-Checks : (args : Text) → Checks (parse_mail_from args)
unfolding parse_mail_from
parse_mail_from-Checks args =
    Checks-if _ _ _
      (Checks-bind _ mail_from_parts (λ p. record { each = mail_from_parts-IsChecked p }))
      (Checks-err _)

parse_rcpt_to-Checks : (args : Text) → Checks (parse_rcpt_to args)
unfolding parse_rcpt_to
parse_rcpt_to-Checks args =
    Checks-if _ _ _ (Checks-bind _ rcpt_to_parts (λ p. record { each = rcpt_to_parts-IsChecked p }))
      (Checks-err _)

required-Checks :
    (args message : Text) (f : Text → SmtpCommand)
    → ((t : Text) → IsChecked (f t))
    → Checks (required args message f)
unfolding required
required-Checks [] message f free = Checks-err _
required-Checks (x ∷ args) message f free = Checks-ok _ (free (x ∷ args))

parse_verb-Checks : (v : Option Verb) (verb args : Text) → Checks (parse_verb v verb args)
unfolding parse_verb
parse_verb-Checks none verb args = Checks-err _
parse_verb-Checks (some Verb.ehlo) verb args = required-Checks args _ ehlo (λ t. tt)
parse_verb-Checks (some Verb.helo) verb args = required-Checks args _ helo (λ t. tt)
parse_verb-Checks (some Verb.mail) verb args = parse_mail_from-Checks args
parse_verb-Checks (some Verb.rcpt) verb args = parse_rcpt_to-Checks args
parse_verb-Checks (some Verb.start_data) verb args = Checks-ok start_data tt
parse_verb-Checks (some Verb.quit) verb args = Checks-ok quit tt
parse_verb-Checks (some Verb.rset) verb args = Checks-ok rset tt
parse_verb-Checks (some Verb.noop) verb args = Checks-ok noop tt
parse_verb-Checks (some Verb.vrfy) verb args = required-Checks args _ vrfy (λ t. tt)
parse_verb-Checks (some Verb.help) verb args = Checks-ok (help (optional args)) tt

-- An accepted command line has checked addresses: the sender of MAIL is empty or valid, the
-- recipient of RCPT is valid and not empty.
pub parse-IsChecked : (line : Text) (c : SmtpCommand) → parse line ≡ ok c → IsChecked c
unfolding parse
parse-IsChecked line c h =
    (Checks-if (is_empty (trim line)) _ _ (Checks-err empty_command) (parse_verb-Checks _ _ _)).each
      c h
