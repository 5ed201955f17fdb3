-- ===== src/Delivery/Client/Exchange/Opening.antt =====
-- `try_deliver_to` of src/delivery/client.rs up to DATA, with a server that takes the sender and every
-- recipient.
use my_mta.Prelude.{
  ℕ, List, [], ◌∷◌, ◌++◌, append_assoc, map, select, is_empty, length, true, false, none, ◌≡◌, refl,
  sym, ap, ◌∙◌, arith,
}
use my_mta.Prelude.Text.{Text, codes, as_bytes}
use my_mta.Smtp.Response.{SmtpResponse, to_wire}
use my_mta.Smtp.Command.Sent.{ehlo_line, mail_from_line, rcpt_to_line}
use my_mta.Delivery.Error.{SmtpStage}
use my_mta.Delivery.Outcome
use my_mta.Delivery.Outcome.{
  RecipientResult, DeliveryResult, success, is_success, successful_recipients,
}
use my_mta.Delivery.Connector.{ConnectionConfig, ReadEvent, SmtpConnection, gives}
use my_mta.Delivery.Client.Capabilities.{SmtpCapabilities}
use my_mta.Delivery.Client.Reading
use my_mta.Delivery.Client.Reading.{SmtpClientResponse, read_response}
use my_mta.Delivery.Client.Body.Relay.{flat}
use my_mta.Delivery.Client.Reading.Roundtrip.{arriving}
use my_mta.Delivery.Client.Dialogue.{
  Talk, ◌>>=◌, ◌>>◌, require_success, receive, ehlo, mail_from, each_recipient, transfer, finish,
  converse,
}
use my_mta.Delivery.Client.Exchange.{
  peer, heard_all, IsReply, IsTaken, Answers, bind-gives, said, all_taken, receive-peer, ehlo-peer,
  mail_from-peer, each_recipient-peer,
}

someone :
    (l : List (Text × RecipientResult)) (address message : Text)
    → is_empty
        (map (λ e. e.0) (select (λ e. is_success e.1) (l ++ (address, success message) ∷ [])))
      ≡ false
unfolding is_success
someone [] address message = refl
someone (e ∷ l) address message = ground (arith, someone l address message)

all_taken_someone :
    (recipients : List Text) (first : Text) (result : DeliveryResult)
    → is_empty (successful_recipients (all_taken result (first ∷ recipients))) ≡ false
unfolding successful_recipients Outcome.add_recipient
all_taken_someone [] first result = someone result.recipients first (codes "Accepted")
all_taken_someone (r ∷ rs) first result =
    all_taken_someone rs r (Outcome.add_recipient result first (success (codes "Accepted")))

welcomed :
    (r : SmtpClientResponse) (conn : SmtpConnection)
    → r.code ≡ 220
    → require_success SmtpStage.connect r conn ≡ (conn, gives tt)
unfolding require_success Reading.is_success
welcomed r conn e = rw (require_success, Reading.is_success, e) refl

heard_all-append :
    (rs ts : List SmtpResponse) (events : List ReadEvent)
    → heard_all (rs ++ ts) events ≡ heard_all rs (heard_all ts events)
heard_all-append [] ts events = refl
heard_all-append (r ∷ rs) ts events =
    ap (λ e. arriving (as_bytes (to_wire r)) e) (heard_all-append rs ts events)

pub flat-append : (s t : List Text) → flat (s ++ t) ≡ flat s ++ flat t
flat-append [] t = refl
flat-append (x ∷ s) t = ap (λ y. x ++ y) (flat-append s t) ∙ sym (append_assoc x (flat s) (flat t))

-- The commands that give the sender and the recipients.
abbrev pub envelope_lines : ConnectionConfig → Text → List Text → List ℕ → List Text
envelope_lines config sender recipients body =
    ehlo_line config.local_hostname
    ∷ mail_from_line sender (length body)
    ∷ map rcpt_to_line recipients

module _ (lossy : List ℕ → Text) (faithful : (t : Text) → lossy (as_bytes t) ≡ t)
    (config : ConnectionConfig) where
  addressed-opening :
      (result : DeliveryResult) (first : Text) (recipients : List Text) (body : List ℕ)
      (answers rest : List SmtpResponse) (events : List ReadEvent) (sent : List ℕ)
      → Answers (first ∷ recipients) answers
      → (each_recipient lossy config result (first ∷ recipients) >>= λ r.
            finish lossy config r body)
          (peer (heard_all (answers ++ rest) events) sent)
        ≡ transfer lossy config (all_taken result (first ∷ recipients)) body (
            peer
              (heard_all rest events)
              (sent ++ as_bytes (flat (map rcpt_to_line (first ∷ recipients)))))
  unfolding finish
  addressed-opening result first recipients body answers rest events sent hs =
      let finished : DeliveryResult → Talk DeliveryResult = λ r. finish lossy config r body in
      let whole = first ∷ recipients in
      ap (λ e. (each_recipient lossy config result whole >>= finished) (peer e sent))
        (heard_all-append answers rest events)
      ∙ bind-gives (each_recipient lossy config result whole) finished _ _ (all_taken result whole)
          (each_recipient-peer lossy faithful config whole answers result (heard_all rest events)
            sent hs)
      ∙ rw (finish, all_taken_someone recipients first result) refl

  -- After the greeting, EHLO, MAIL and the recipients the message is transferred.
  pub converse-opening :
      (greeting hello mailed : SmtpResponse) (sender first : Text) (recipients : List Text)
      (body : List ℕ) (answers rest : List SmtpResponse) (events : List ReadEvent)
      → IsReply greeting
      → greeting.code ≡ 220
      → IsReply hello
      → hello.code ≡ 250
      → IsTaken mailed
      → Answers (first ∷ recipients) answers
      → converse lossy config sender
          (first ∷ recipients)
          body
          (peer (heard_all (greeting ∷ hello ∷ mailed ∷ (answers ++ rest)) events) [])
        ≡ transfer lossy config
            (all_taken (record (Outcome.new none) { connected = true }) (first ∷ recipients))
            body
            (peer
              (heard_all rest events)
              (as_bytes (flat (envelope_lines config sender (first ∷ recipients) body))))
  unfolding converse as_bytes
  converse-opening greeting hello mailed sender first recipients body answers rest events ok0 is220
        ok1 is250 ok2 hs =
      let start : DeliveryResult = record (Outcome.new none) { connected = true } in
      let whole = first ∷ recipients in
      let finished : DeliveryResult → Talk DeliveryResult =
        λ result. finish lossy config result body in
      let addressed : Talk DeliveryResult = each_recipient lossy config start whole >>= finished in
      let sending : SmtpCapabilities → Talk DeliveryResult =
        λ capabilities. mail_from lossy config sender (length body) >> addressed in
      let greeted : SmtpClientResponse → Talk DeliveryResult =
        λ r. require_success SmtpStage.connect r >> (ehlo lossy config >>= sending) in
      bind-gives (receive lossy config) greeted _ _ _
        (receive-peer lossy faithful config greeting _ [] ok0)
      ∙ bind-gives (require_success SmtpStage.connect _) (λ u. ehlo lossy config >>= sending) _ _ tt
          (welcomed (record { code = greeting.code; lines = greeting.messages }) _ is220)
      ∙ bind-gives (ehlo lossy config) sending _ _ _
          (ehlo-peer lossy faithful config hello _ [] ok1 is250)
      ∙ bind-gives (mail_from lossy config sender (length body)) (λ u. addressed) _ _ tt
          (mail_from-peer lossy faithful config sender (length body) mailed _ _ ok2)
      ∙ addressed-opening start first recipients body answers rest events _ hs
      ∙ ap
          (λ b. transfer lossy config (all_taken start whole) body (peer (heard_all rest events) b))
          (said (as_bytes (ehlo_line config.local_hostname)) (mail_from_line sender (length body))
              (map rcpt_to_line whole)
            ∙ said [] (ehlo_line config.local_hostname)
                (mail_from_line sender (length body) ∷ map rcpt_to_line whole))
