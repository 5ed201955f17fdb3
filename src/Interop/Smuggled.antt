-- ===== src/Interop/Smuggled.antt =====
-- From the recipients that src/http/api.rs accepts to the commands of src/delivery/client.rs.
use my_mta.Prelude.{
  ℕ, ◌≤◌, List, [], ◌∷◌, ◌++◌, append_assoc, is_empty, false, ◌==◌, ◌≡◌, refl, sym, ap, ◌∙◌, arith,
  inl, inr, ok,
}
use my_mta.Prelude.Text.{Text, codes, len, as_bytes}
use my_mta.Prelude.Text.Laws.{Lacks}
use my_mta.Smtp.Command.Address.{validate_email_address}
use my_mta.Smtp.Command.Address.Grammar.{IsDomain, validate_iff_IsEmail}
use my_mta.Smtp.Command.Sent.{rcpt_to_line}
use my_mta.Http.Api.{validate_recipients}
use my_mta.Http.Api.Checks.{validate_recipients_complete}
use my_mta.Delivery.Error.{SmtpStage}
use my_mta.Delivery.Connector.{ConnectionConfig, ReadEvent, SmtpConnection, Attempt-cases}
use my_mta.Delivery.Client.Reading.{SmtpClientResponse, read_response}
use my_mta.Delivery.Client.Dialogue.{◌>>=◌, require_success, send_line, receive, rcpt_to}
use my_mta.Delivery.Client.Exchange.{peer, bind-gives, send_line-peer}

-- An address whose local part goes on with another command.
abbrev pub smuggling : Text → Text → Text
smuggling a b = a ++ (codes ">\r\nRCPT TO:<" ++ b)

two_commands : (a b : Text) → rcpt_to_line (smuggling a b) ≡ rcpt_to_line a ++ rcpt_to_line b
two_commands a b =
    ap (λ t. codes "RCPT TO:<" ++ t)
      (append_assoc a (codes ">\r\nRCPT TO:<" ++ b) (codes ">\r\n")
        ∙ sym (append_assoc a (codes ">\r\n") (codes "RCPT TO:<" ++ (b ++ codes ">\r\n"))))

smuggling_ne_nil : (a b : Text) → is_empty (smuggling a b) ≡ false
smuggling_ne_nil [] b = refl
smuggling_ne_nil (c ∷ a) b = refl

smuggling-validate_email_address :
    (a local domain : Text)
    → Lacks (λ c. c == b'@') domain
    → IsDomain domain
    → len (smuggling a local) ≤ 64
    → validate_email_address (smuggling a (local ++ b'@' ∷ domain)) ≡ ok tt
smuggling-validate_email_address a local domain no_at domain_ok short =
    (validate_iff_IsEmail (smuggling a (local ++ b'@' ∷ domain))).1 (
      inr (
        smuggling a local,
        domain,
        record {
          spelled = sym (append_assoc a (codes ">\r\nRCPT TO:<" ++ local) (b'@' ∷ domain));
          last_at = no_at;
          nonempty = smuggling_ne_nil a local;
          short = short;
          domain_ok = domain_ok;
        },
      ))

require_success-sent :
    (r : SmtpClientResponse) (conn : SmtpConnection)
    → (require_success SmtpStage.rcpt_to r conn).0.sent ≡ conn.sent
unfolding require_success
require_success-sent r conn = ground arith

module _ (lossy : List ℕ → Text) (config : ConnectionConfig) where
  -- Reading a reply sends nothing.
  rcpt_to-sent :
      (recipient : Text) (events : List ReadEvent) (sent : List ℕ)
      → (rcpt_to lossy config recipient (peer events sent)).0.sent
        ≡ sent ++ as_bytes (rcpt_to_line recipient)
  unfolding rcpt_to receive read_response require_success
  rcpt_to-sent recipient events sent =
      let sent' = sent ++ as_bytes (rcpt_to_line recipient) in
      ap (λ r. r.0.sent)
        (bind-gives (send_line lossy config (rcpt_to_line recipient))
          (λ u. receive lossy config >>= require_success SmtpStage.rcpt_to) _ _ tt
          (send_line-peer lossy config (rcpt_to_line recipient) events sent))
      ∙ elim (Attempt-cases (receive lossy config (peer events sent')).1) [
        | inl (r, e) ↦ rw e (require_success-sent r _)
        | inr (inl (x, e)) ↦ rw e refl
        | inr (inr e) ↦ rw e refl
      ]

  -- A recipient is not checked for line ends and brackets before its last `@`. For every text, and
  -- every address with a domain that is accepted and without a further `@` in it, the two with `>`,
  -- a line end and `RCPT TO:<` between them are one recipient that the HTTP interface accepts, as
  -- long as its local part has at most 64 bytes; and RCPT for it puts two commands on the wire, one
  -- for the text and one for the address, whatever the server answers.
  pub smuggled_recipient :
      (a local domain : Text) (max : ℕ) (events : List ReadEvent) (sent : List ℕ)
      → 1 ≤ max
      → Lacks (λ c. c == b'@') domain
      → IsDomain domain
      → len (smuggling a local) ≤ 64
      → let address = local ++ b'@' ∷ domain in
        (validate_recipients (smuggling a address ∷ []) max ≡ ok tt)
        × ((rcpt_to lossy config (smuggling a address) (peer events sent)).0.sent
            ≡ sent ++ as_bytes (rcpt_to_line a ++ rcpt_to_line address))
  smuggled_recipient a local domain max events sent room no_at domain_ok short =
      let address = local ++ b'@' ∷ domain in
      (
        validate_recipients_complete (smuggling a address) [] max room
            (smuggling-validate_email_address a local domain no_at domain_ok short, tt),
        rcpt_to-sent (smuggling a address) events sent
            ∙ ap (λ t. sent ++ as_bytes t) (two_commands a address),
      )
