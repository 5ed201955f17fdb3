-- ===== src/Delivery/Client/Exchange/Completion.antt =====
-- `try_deliver_to` of src/delivery/client.rs with a server that takes a message and says so.
use my_mta.Prelude.{
  ℕ, List, [], ◌∷◌, ◌++◌, append_assoc, append-nil, map, true, false, none, ◌≡◌, refl, sym, ap, ◌∙◌,
}
use my_mta.Prelude.Text.{Text, codes, as_bytes}
use my_mta.Smtp.Response.{SmtpResponse}
use my_mta.Delivery.Outcome
use my_mta.Delivery.Outcome.{RecipientResult, DeliveryResult, success}
use my_mta.Delivery.Connector.{
  ConnectionConfig, ReadEvent, SmtpConnection, Attempt, gives, fails, panics,
}
use my_mta.Delivery.Client.Reading
use my_mta.Delivery.Client.Reading.{SmtpClientResponse}
use my_mta.Delivery.Client.Body.{body_on_wire}
use my_mta.Delivery.Client.Body.Relay.{flat}
use my_mta.Delivery.Client.Dialogue.{
  Talk, ◌>>=◌, ◌>>◌, give, settle, ignore_error, forget_reply, receive, start_data, send_body,
  send_line, quit, transfer, converse,
}
use my_mta.Delivery.Client.Exchange.{
  peer, heard_all, IsReply, IsTaken, Answers, bind-gives, all_taken, receive-peer, send_line-peer,
  start_data-peer, send_body-peer,
}
use my_mta.Delivery.Client.Exchange.Opening.{envelope_lines, converse-opening}
use my_mta.Delivery.Client.Exchange.Silence.{commands, data_said}

-- The entries of recipients that were accepted.
abbrev pub taken : List Text → List (Text × RecipientResult)
taken recipients = map (λ r. (r, success (codes "Accepted"))) recipients

all_taken-taken :
    (recipients : List Text) (result : DeliveryResult)
    → all_taken result recipients
      ≡ record result { recipients = result.recipients ++ taken recipients }
unfolding Outcome.add_recipient
all_taken-taken [] result =
    ap (λ l. record result { recipients = l }) (sym (append-nil result.recipients))
all_taken-taken (r ∷ rs) result =
    all_taken-taken rs (Outcome.add_recipient result r (success (codes "Accepted")))
    ∙ ap (λ l. record result { recipients = l })
        (append_assoc result.recipients ((r, success (codes "Accepted")) ∷ []) (taken rs))

settle-success :
    (result : DeliveryResult) (final : SmtpClientResponse)
    → Reading.is_success final ≡ true
    → settle result final ≡ result
unfolding settle
settle-success result final e = rw (settle, e) refl

abbrev forgotten : SmtpConnection × Attempt SmtpClientResponse → SmtpConnection × Attempt (Unit {0})
forgotten r = elim r.1 [
  | gives response ↦ (r.0, gives tt)
  | fails e ↦ (r.0, gives tt)
  | panics ↦ (r.0, panics)
]

abbrev ignored : SmtpConnection × Attempt (Unit {0}) → SmtpConnection × Attempt (Unit {0})
ignored r = elim r.1 [
  | gives u ↦ (r.0, gives tt)
  | fails e ↦ (r.0, gives tt)
  | panics ↦ (r.0, panics)
]

module _ (lossy : List ℕ → Text) (faithful : (t : Text) → lossy (as_bytes t) ≡ t)
    (config : ConnectionConfig) where
  -- The goodbye, whatever its reply.
  quit-peer :
      (bye : SmtpResponse) (events : List ReadEvent) (sent : List ℕ)
      → IsReply bye
      → ignore_error (quit lossy config) (peer (heard_all (bye ∷ []) events) sent)
        ≡ (peer events (sent ++ as_bytes (codes "QUIT\r\n")), gives tt)
  unfolding quit ignore_error forget_reply
  quit-peer bye events sent ok = ap ignored (
      bind-gives (send_line lossy config (codes "QUIT\r\n"))
        (λ u. forget_reply (receive lossy config)) _ _ tt
        (send_line-peer lossy config (codes "QUIT\r\n") _ sent)
      ∙ ap forgotten (receive-peer lossy faithful config bye events _ ok))

  transfer-completes :
      (result : DeliveryResult) (body : List ℕ) (starting final bye : SmtpResponse)
      (events : List ReadEvent) (sent : List ℕ)
      → IsReply starting
      → starting.code ≡ 354
      → IsReply final
      → Reading.is_success (record { code = final.code; lines = final.messages }) ≡ true
      → IsReply bye
      → transfer lossy config result body
          (peer (heard_all (starting ∷ final ∷ bye ∷ []) events) sent)
        ≡ (
          peer events (
              ((sent ++ as_bytes (codes "DATA\r\n")) ++ body_on_wire body)
              ++ as_bytes (codes "QUIT\r\n")),
          gives result,
        )
  unfolding transfer
  transfer-completes result body starting final bye events sent ok0 is354 ok is_success ok_bye =
      let after_quit : SmtpClientResponse → Talk DeliveryResult =
        λ reply. ignore_error (quit lossy config) >> give (settle result reply) in
      let after_final : Unit {0} → Talk DeliveryResult = λ v. receive lossy config >>= after_quit in
      bind-gives (start_data lossy config) (λ u. send_body lossy config body >>= after_final) _ _ tt
        (start_data-peer lossy faithful config starting (heard_all (final ∷ bye ∷ []) events) sent
          ok0 is354)
      ∙ bind-gives (send_body lossy config body) after_final _ _ tt
          (send_body-peer lossy faithful config body (heard_all (final ∷ bye ∷ []) events) _)
      ∙ bind-gives (receive lossy config) after_quit _ _ _
          (receive-peer lossy faithful config final (heard_all (bye ∷ []) events) _ ok)
      ∙ bind-gives (ignore_error (quit lossy config)) (λ w. give (settle result _)) _ _ tt
          (quit-peer bye events _ ok_bye)
      ∙ ap (λ r. (peer events _, gives r)) (settle-success result _ is_success)

  -- A server that greets with 220, answers EHLO, MAIL and every RCPT with 250, DATA with 354 and the
  -- message with any success, in any replies of lines without line feed, gets the commands, the whole
  -- message and QUIT, whatever comes after its goodbye; and every recipient, of at least one, is
  -- reported as delivered.
  pub converse-completes :
      (greeting hello mailed : SmtpResponse) (answers : List SmtpResponse)
      (starting final bye : SmtpResponse) (sender first : Text) (recipients : List Text)
      (body : List ℕ) (events : List ReadEvent)
      → IsReply greeting
      → greeting.code ≡ 220
      → IsReply hello
      → hello.code ≡ 250
      → IsTaken mailed
      → Answers (first ∷ recipients) answers
      → IsReply starting
      → starting.code ≡ 354
      → IsReply final
      → Reading.is_success (record { code = final.code; lines = final.messages }) ≡ true
      → IsReply bye
      → converse lossy config sender (first ∷ recipients) body (
          peer
            (heard_all
              (greeting ∷ hello ∷ mailed ∷ (answers ++ starting ∷ final ∷ bye ∷ []))
              events)
            [])
        ≡ (
          peer events (
              as_bytes (flat (commands config sender (first ∷ recipients) body))
              ++ body_on_wire body
              ++ as_bytes (codes "QUIT\r\n")),
          gives (record {
            recipients = taken (first ∷ recipients);
            connected = true;
            tls_used = false;
            mx_server = none;
          }),
        )
  unfolding Outcome.new
  converse-completes greeting hello mailed answers starting final bye sender first recipients body
        events ok0 is220 ok1 is250 is_taken hs ok_data is354 ok2 is_success ok3 =
      let whole = first ∷ recipients in
      let start : DeliveryResult = record (Outcome.new none) { connected = true } in
      converse-opening lossy faithful config greeting hello mailed sender first recipients body
        answers (starting ∷ final ∷ bye ∷ []) events ok0 is220 ok1 is250 is_taken hs
      ∙ transfer-completes (all_taken start whole) body starting final bye events
          (as_bytes (flat (envelope_lines config sender whole body))) ok_data is354 ok2 is_success
          ok3
      ∙ ap
          (λ b. (
            peer events (b ++ body_on_wire body ++ as_bytes (codes "QUIT\r\n")),
            gives (all_taken start whole),
          ))
          (data_said (envelope_lines config sender whole body))
      ∙ ap
          (λ r. (
            peer events (
                as_bytes (flat (commands config sender whole body))
                ++ body_on_wire body
                ++ as_bytes (codes "QUIT\r\n")),
            gives r,
          ))
          (all_taken-taken whole start)
