-- ===== src/Delivery/Client/Exchange.antt =====
-- A conversation of src/delivery/client.rs with a server that answers, where no write fails.
pub mod Opening
pub mod Silence
pub mod Completion
use my_mta.Prelude.{
  ℕ, ◌≤◌, List, [], ◌∷◌, ◌++◌, append_assoc, append-nil, map, is_empty, length, Bool, true, false,
  not, ◌==◌, none, ◌≡◌, refl, sym, ap, ◌∙◌, arith, All, if◌then◌else◌,
}
use my_mta.Prelude.Text.{Text, codes, as_bytes}
use my_mta.Prelude.Text.Bytes.{as_bytes-append}
use my_mta.Prelude.Text.Laws.{Lacks, Lacks-any}
use my_mta.Smtp.Response.{SmtpResponse, to_wire}
use my_mta.Smtp.Command.Sent.{ehlo_line, mail_from_line, rcpt_to_line}
use my_mta.Delivery.Error.{DeliveryError, SmtpStage, timeout}
use my_mta.Delivery.Outcome
use my_mta.Delivery.Outcome.{
  DeliveryResult, RecipientResult, success, is_success, successful_recipients,
}
use my_mta.Delivery.Connector.{
  ConnectionConfig, as_secs, ReadEvent, SmtpConnection, Attempt, gives, fails, write_all, flush,
  panics,
}
use my_mta.Delivery.Client.Capabilities
use my_mta.Delivery.Client.Reading
use my_mta.Delivery.Client.Body.{body_on_wire}
use my_mta.Delivery.Client.Body.Relay.{flat}
use my_mta.Delivery.Client.Reading.Roundtrip.{arriving, read_response-to_wire}
use my_mta.Delivery.Client.Dialogue.{
  Talk, ◌>>=◌, ◌>>◌, give, timed, require_success, require_354, send_line, write_line, flush_line,
  receive, ehlo, mail_from, rcpt_to, helo, failure_of, one_recipient, each_recipient, start_data,
  write_body, flush_body, send_body, untimed,
}

-- A connection on which these events come, and these bytes were sent.
abbrev pub peer : List ReadEvent → List ℕ → SmtpConnection
peer events sent = record { incoming = events; writes = []; sent = sent }

-- The bytes of replies, and then these events.
abbrev pub heard_all : List SmtpResponse → List ReadEvent → List ReadEvent
heard_all [] events = events
heard_all (r ∷ rs) events = arriving (as_bytes (to_wire r)) (heard_all rs events)

-- A reply that the client can read.
abbrev pub IsReply : SmtpResponse → Type 0
IsReply r =
    (100 ≤ r.code)
    × (r.code ≤ 999)
    × (is_empty r.messages ≡ false)
    × All (Lacks (λ c. c == 10)) r.messages

-- A reply that says that a command was done.
abbrev pub IsTaken : SmtpResponse → Type 0
IsTaken r = IsReply r × (r.code ≡ 250)

-- One such reply for each recipient.
abbrev pub Answers : List Text → List SmtpResponse → Type 0
Answers [] [] = Unit {0}
Answers [] (r ∷ rs) = ⊥
Answers (to ∷ recipients) [] = ⊥
Answers (to ∷ recipients) (r ∷ rs) = IsTaken r × Answers recipients rs

-- What follows an operation.
abbrev followed :
    {A B : Type 0} → (A → Talk B) → SmtpConnection × Attempt A → SmtpConnection × Attempt B
followed f r = elim r.1 [ gives a ↦ f a r.0 | fails e ↦ (r.0, fails e) | panics ↦ (r.0, panics) ]

pub bind-gives :
    {A B : Type 0} (m : Talk A) (f : A → Talk B) (conn conn' : SmtpConnection) (a : A)
    → m conn ≡ (conn', gives a)
    → (m >>= f) conn ≡ f a conn'
bind-gives m f conn conn' a h = ap (followed f) h

pub bind-fails :
    {A B : Type 0} (m : Talk A) (f : A → Talk B) (conn conn' : SmtpConnection) (e : DeliveryError)
    → m conn ≡ (conn', fails e)
    → (m >>= f) conn ≡ (conn', fails e)
bind-fails m f conn conn' e h = ap (followed f) h

-- One line more that was sent.
pub said :
    (sent : List ℕ) (line : Text) (lines : List Text)
    → (sent ++ as_bytes line) ++ as_bytes (flat lines) ≡ sent ++ as_bytes (flat (line ∷ lines))
said sent line lines =
    append_assoc sent (as_bytes line) (as_bytes (flat lines))
    ∙ ap (λ b. sent ++ b) (sym (as_bytes-append line (flat lines)))

-- Every recipient was accepted.
abbrev pub all_taken : DeliveryResult → List Text → DeliveryResult
all_taken result [] = result
all_taken result (r ∷ rs) =
    all_taken (Outcome.add_recipient result r (success (codes "Accepted"))) rs

module _ (lossy : List ℕ → Text) (config : ConnectionConfig) where
  pub send_line-peer :
      (line : Text) (events : List ReadEvent) (sent : List ℕ)
      → send_line lossy config line (peer events sent)
        ≡ (peer events (sent ++ as_bytes line), gives tt)
  unfolding send_line write_line flush_line timed write_all flush
  send_line-peer line events sent =
      ap (λ b. (peer events b, gives tt)) (append-nil (sent ++ as_bytes line))

module _ (lossy : List ℕ → Text) (faithful : (t : Text) → lossy (as_bytes t) ≡ t)
    (config : ConnectionConfig) where
  receive-lines :
      (code : ℕ) (lines : List Text) (events : List ReadEvent) (sent : List ℕ)
      → IsReply (record { code = code; messages = lines })
      → receive lossy config (
          peer
            (arriving (as_bytes (to_wire (record { code = code; messages = lines }))) events)
            sent)
        ≡ (peer events sent, gives (record { code = code; lines = lines }))
  unfolding receive
  receive-lines code [] events sent (low, high, n, ok) = cc
  receive-lines code (line ∷ lines) events sent (low, high, n, ok) =
      read_response-to_wire lossy faithful config code low high (peer _ sent) line lines events ok
        refl

  pub receive-peer :
      (r : SmtpResponse) (events : List ReadEvent) (sent : List ℕ)
      → IsReply r
      → receive lossy config (peer (arriving (as_bytes (to_wire r)) events) sent)
        ≡ (peer events sent, gives (record { code = r.code; lines = r.messages }))
  receive-peer r events sent ok = receive-lines r.code r.messages events sent ok

  -- A line, and the reply to it.
  ask :
      {A : Type 0} (f : _ → Talk A) (line : Text) (r : SmtpResponse) (events : List ReadEvent)
      (sent : List ℕ)
      → IsReply r
      → (send_line lossy config line >> (receive lossy config >>= f))
          (peer (arriving (as_bytes (to_wire r)) events) sent)
        ≡ f (record { code = r.code; lines = r.messages }) (peer events (sent ++ as_bytes line))
  ask f line r events sent ok =
      bind-gives (send_line lossy config line) (λ u. receive lossy config >>= f) _ _ tt
        (send_line-peer lossy config line _ sent)
      ∙ bind-gives (receive lossy config) f _ _ _ (receive-peer r events _ ok)

  pub ehlo-peer :
      (r : SmtpResponse) (events : List ReadEvent) (sent : List ℕ)
      → IsReply r
      → r.code ≡ 250
      → ehlo lossy config (peer (arriving (as_bytes (to_wire r)) events) sent) ≡ (
        peer events (sent ++ as_bytes (ehlo_line config.local_hostname)),
        gives (Capabilities.parse r.messages),
      )
  unfolding ehlo Reading.is_success
  ehlo-peer r events sent ok e =
      ask
        (λ response.
          if not (Reading.is_success response)
          then helo lossy config
          else give (Capabilities.parse response.lines))
        (ehlo_line config.local_hostname) r events sent ok
      ∙ rw e refl

  pub mail_from-peer :
      (sender : Text) (size : ℕ) (r : SmtpResponse) (events : List ReadEvent) (sent : List ℕ)
      → IsTaken r
      → mail_from lossy config sender size (peer (arriving (as_bytes (to_wire r)) events) sent)
        ≡ (peer events (sent ++ as_bytes (mail_from_line sender size)), gives tt)
  unfolding mail_from require_success Reading.is_success
  mail_from-peer sender size r events sent (ok, e) =
      ask (require_success SmtpStage.mail_from) (mail_from_line sender size) r events sent ok
      ∙ rw (e, require_success, Reading.is_success) refl

  abbrev reported_of :
      SmtpConnection × Attempt (Unit {0}) → SmtpConnection × Attempt RecipientResult
  reported_of r = elim r.1 [
    | gives u ↦ (r.0, gives (success (codes "Accepted")))
    | fails e ↦ (r.0, gives (failure_of e))
    | panics ↦ (r.0, panics)
  ]

  one_recipient-peer :
      (recipient : Text) (r : SmtpResponse) (events : List ReadEvent) (sent : List ℕ)
      → IsTaken r
      → one_recipient lossy config recipient (peer (arriving (as_bytes (to_wire r)) events) sent)
        ≡ (
          peer events (sent ++ as_bytes (rcpt_to_line recipient)),
          gives (success (codes "Accepted")),
        )
  unfolding one_recipient rcpt_to require_success Reading.is_success
  one_recipient-peer recipient r events sent (ok, e) =
      ap reported_of
        (ask (require_success SmtpStage.rcpt_to) (rcpt_to_line recipient) r events sent ok)
      ∙ rw (e, require_success, Reading.is_success) refl

  pub start_data-peer :
      (r : SmtpResponse) (events : List ReadEvent) (sent : List ℕ)
      → IsReply r
      → r.code ≡ 354
      → start_data lossy config (peer (arriving (as_bytes (to_wire r)) events) sent)
        ≡ (peer events (sent ++ as_bytes (codes "DATA\r\n")), gives tt)
  unfolding start_data require_354
  start_data-peer r events sent ok e =
      ask require_354 (codes "DATA\r\n") r events sent ok ∙ rw (e, require_354) refl

  pub send_body-peer :
      (body : List ℕ) (events : List ReadEvent) (sent : List ℕ)
      → send_body lossy config body (peer events sent)
        ≡ (peer events (sent ++ body_on_wire body), gives tt)
  unfolding send_body write_body flush_body timed untimed write_all flush
  send_body-peer body events sent =
      ap (λ b. (peer events b, gives tt)) (append-nil (sent ++ body_on_wire body))

  pub each_recipient-peer :
      (recipients : List Text) (answers : List SmtpResponse) (result : DeliveryResult)
      (events : List ReadEvent) (sent : List ℕ)
      → Answers recipients answers
      → each_recipient lossy config result recipients (peer (heard_all answers events) sent) ≡ (
        peer events (sent ++ as_bytes (flat (map rcpt_to_line recipients))),
        gives (all_taken result recipients),
      )
  unfolding each_recipient as_bytes
  each_recipient-peer [] (a ∷ answers) result events sent h = absurd h
  each_recipient-peer (r ∷ rs) [] result events sent h = absurd h
  each_recipient-peer [] [] result events sent h =
      ap (λ b. (peer events b, gives result)) (sym (append-nil sent))
  each_recipient-peer (r ∷ rs) (a ∷ answers) result events sent (ok, hs) =
      bind-gives (one_recipient lossy config r)
        (λ res. each_recipient lossy config (Outcome.add_recipient result r res) rs) _ _ _
        (one_recipient-peer r a (heard_all answers events) sent ok)
      ∙ each_recipient-peer rs answers (Outcome.add_recipient result r (success (codes "Accepted")))
          events (sent ++ as_bytes (rcpt_to_line r)) hs
      ∙ ap
          (λ b. (
            peer events b,
            gives (all_taken (Outcome.add_recipient result r (success (codes "Accepted"))) rs),
          ))
          (said sent (rcpt_to_line r) (map rcpt_to_line rs))
