-- ===== src/Smtp/Command.antt =====
-- src/smtp/command.rs: SMTP command lines and the check of email addresses. The texts are Unicode
-- scalar values, `len` counts UTF-8 bytes as `str::len` does.
pub mod Address
pub mod Checked
pub mod Sent
use Prim.Native.Nat.{ℕ}
use mathlib.Core.Bool.{Bool, true, false, not}
use mathlib.Core.Option.{Option, none, some}
use mathlib.Core.List.{List, [], ◌∷◌, ◌++◌}
use my_mta.Prelude.{if◌then◌else◌, drop, is_empty, Result, ok, err, ◌>>=◌, ◌>>◌}
use my_mta.Prelude.Text.{
  Text, codes, ◌=ₜ◌, trim, starts_with, split_once, split_whitespace, to_ascii_uppercase,
}
use Address.{
  ParseError, empty_command, unrecognized_command, invalid_syntax, invalid_address,
  validate_email_address,
}

pub data SmtpCommand : Type 0 where
  ehlo helo : Text → SmtpCommand
  mail_from rcpt_to : Text → List Text → SmtpCommand
  start_data quit rset noop : SmtpCommand
  vrfy : Text → SmtpCommand
  help : Option Text → SmtpCommand

-- `<addr>` and the ESMTP parameters behind it. The text begins with `<`, so dropping one character
-- of what stands before `>` is `input[1..close]`.
extract_angle_address : Text → Result ParseError (Text × List Text)
extract_angle_address raw =
    let input = trim raw in
    if starts_with input (codes "<")
    then elim (split_once b'>' input) [
      | none ↦ err (invalid_syntax (codes "missing closing >"))
      | some (before, after) ↦
          let rest = trim after in
          ok (drop 1 before, if is_empty rest then [] else split_whitespace rest)
    ]
    else err (invalid_syntax (codes "address must be enclosed in < >"))

mail_from_parts : Text × List Text → Result ParseError SmtpCommand
mail_from_parts ([], parameters) = ok (mail_from [] parameters)
mail_from_parts (c ∷ address, parameters) =
    validate_email_address (c ∷ address) >> ok (mail_from (c ∷ address) parameters)

parse_mail_from : Text → Result ParseError SmtpCommand
unfolding extract_angle_address mail_from_parts
parse_mail_from args =
    if starts_with (to_ascii_uppercase args) (codes "FROM:")
    then (extract_angle_address (trim (drop 5 args)) >>= mail_from_parts)
    else err (invalid_syntax (codes "expected MAIL FROM:<address>"))

rcpt_to_parts : Text × List Text → Result ParseError SmtpCommand
rcpt_to_parts ([], parameters) =
    err (invalid_address (codes "RCPT TO requires a non-empty address"))
rcpt_to_parts (c ∷ address, parameters) =
    validate_email_address (c ∷ address) >> ok (rcpt_to (c ∷ address) parameters)

parse_rcpt_to : Text → Result ParseError SmtpCommand
unfolding extract_angle_address rcpt_to_parts
parse_rcpt_to args =
    if starts_with (to_ascii_uppercase args) (codes "TO:")
    then (extract_angle_address (trim (drop 3 args)) >>= rcpt_to_parts)
    else err (invalid_syntax (codes "expected RCPT TO:<address>"))

required : Text → Text → (Text → SmtpCommand) → Result ParseError SmtpCommand
required [] message command = err (invalid_syntax message)
required (c ∷ args) message command = ok (command (c ∷ args))

optional : Text → Option Text
optional [] = none
optional (c ∷ args) = some (c ∷ args)

-- The patterns of the `match` on the verb.
pub data Verb : Type 0 where
  ehlo helo mail rcpt start_data quit rset noop vrfy help : Verb

-- Which pattern the verb, in upper case, fits.
verb_of : Text → Option Verb
verb_of upper =
    if upper =ₜ codes "EHLO"
    then some Verb.ehlo
    else if upper =ₜ codes "HELO"
    then some Verb.helo
    else if upper =ₜ codes "MAIL"
    then some Verb.mail
    else if upper =ₜ codes "RCPT"
    then some Verb.rcpt
    else if upper =ₜ codes "DATA"
    then some Verb.start_data
    else if upper =ₜ codes "QUIT"
    then some Verb.quit
    else if upper =ₜ codes "RSET"
    then some Verb.rset
    else if upper =ₜ codes "NOOP"
    then some Verb.noop
    else if upper =ₜ codes "VRFY"
    then some Verb.vrfy
    else if upper =ₜ codes "HELP"
    then some Verb.help
    else none

-- The branches of that `match`.
parse_verb : Option Verb → Text → Text → Result ParseError SmtpCommand
unfolding parse_mail_from parse_rcpt_to required optional
parse_verb none verb args = err (unrecognized_command verb)
parse_verb (some Verb.ehlo) verb args =
    required args (codes "EHLO requires a domain or address literal") SmtpCommand.ehlo
parse_verb (some Verb.helo) verb args =
    required args (codes "HELO requires a domain or address literal") SmtpCommand.helo
parse_verb (some Verb.mail) verb args = parse_mail_from args
parse_verb (some Verb.rcpt) verb args = parse_rcpt_to args
parse_verb (some Verb.start_data) verb args = ok SmtpCommand.start_data
parse_verb (some Verb.quit) verb args = ok SmtpCommand.quit
parse_verb (some Verb.rset) verb args = ok SmtpCommand.rset
parse_verb (some Verb.noop) verb args = ok SmtpCommand.noop
parse_verb (some Verb.vrfy) verb args =
    required args (codes "VRFY requires a string parameter") SmtpCommand.vrfy
parse_verb (some Verb.help) verb args = ok (SmtpCommand.help (optional args))

verb_and_args : Text → Text × Text
verb_and_args input = elim (split_once b' ' input) [
  | some (verb, args) ↦ (verb, trim args)
  | none ↦ (input, [])
]

unfoldable pub parse : Text → Result ParseError SmtpCommand
unfolding verb_of parse_verb verb_and_args
parse raw =
    let input = trim raw in
    let (verb, args) = verb_and_args input in
    if is_empty input
    then err empty_command
    else parse_verb (verb_of (to_ascii_uppercase verb)) verb args

unfoldable pub is_pipelineable : SmtpCommand → Bool
is_pipelineable (mail_from address parameters) = true
is_pipelineable (rcpt_to address parameters) = true
is_pipelineable rset = true
is_pipelineable noop = true
is_pipelineable _ = false
