-- ===== src/Delivery/Client/Exchange/Silence.antt =====
-- `try_deliver_to` of src/delivery/client.rs with a server that takes a message but does not answer
-- its end.
use my_mta.Prelude.{
  ℕ, List, [], ◌∷◌, ◌++◌, map, length, ◌==◌, arith, true, none, ◌≡◌, refl, sym, ap, ◌∙◌,
}
use my_mta.Prelude.Text.{Text, codes, as_bytes}
use my_mta.Prelude.Text.Bytes.{as_bytes-append}
use my_mta.Prelude.Text.Laws.{Lacks-any}
use my_mta.Smtp.Response
use my_mta.Smtp.Response.{SmtpResponse, accepted, to_wire}
use my_mta.Smtp.Command.Sent.{ehlo_line, mail_from_line, rcpt_to_line}
use my_mta.Delivery.Error.{DeliveryError, data_command, timeout}
use my_mta.Delivery.Outcome
use my_mta.Delivery.Outcome.{
  RecipientResult, DeliveryResult, success, is_success, successful_recipients,
}
use my_mta.Delivery.Connector.{ConnectionConfig, as_secs, ReadEvent, read_times_out, fails}
use my_mta.Delivery.Client.Reading.{SmtpClientResponse, read_response}
use my_mta.Delivery.Client.Body.{body_on_wire}
use my_mta.Delivery.Client.Body.Relay.{flat}
use my_mta.Delivery.Client.Dialogue.{
  Talk, ◌>>=◌, ◌>>◌, give, settle, ignore_error, receive, start_data, send_body, quit, transfer,
  converse,
}
use my_mta.Delivery.Client.Exchange.{
  peer, heard_all, IsReply, IsTaken, Answers, bind-gives, bind-fails, all_taken, start_data-peer,
  send_body-peer,
}
use my_mta.Delivery.Client.Exchange.Opening.{envelope_lines, flat-append, converse-opening}

-- DATA after other commands.
pub data_said :
    (lines : List Text)
    → as_bytes (flat lines) ++ as_bytes (codes "DATA\r\n")
      ≡ as_bytes (flat (lines ++ codes "DATA\r\n" ∷ []))
data_said lines =
    sym (as_bytes-append (flat lines) (codes "DATA\r\n"))
    ∙ ap as_bytes (sym (flat-append lines (codes "DATA\r\n" ∷ [])))

-- The commands of a delivery.
abbrev pub commands : ConnectionConfig → Text → List Text → List ℕ → List Text
commands config sender recipients body =
    ehlo_line config.local_hostname
    ∷ mail_from_line sender (length body)
    ∷ (map rcpt_to_line recipients ++ codes "DATA\r\n" ∷ [])

accepted-IsTaken : IsTaken accepted
unfolding accepted Response.new
accepted-IsTaken =
    ((omega arith, omega arith, refl, (Lacks-any (λ c. c == 10) (codes "2.0.0 OK") refl, tt)), refl)

accepted-Answers : (recipients : List Text) → Answers recipients (map (λ r. accepted) recipients)
accepted-Answers [] = tt
accepted-Answers (to ∷ recipients) = (accepted-IsTaken, accepted-Answers recipients)

start_data-IsReply : IsReply Response.start_data
unfolding Response.start_data Response.new
start_data-IsReply = (
  omega arith,
  omega arith,
  refl,
  (Lacks-any (λ c. c == 10) (codes "Start mail input; end with <CRLF>.<CRLF>") refl, tt),
)

start_data-code : Response.start_data.code ≡ 354
unfolding Response.start_data Response.new
start_data-code = refl

module _ (lossy : List ℕ → Text) (faithful : (t : Text) → lossy (as_bytes t) ≡ t)
    (config : ConnectionConfig) where
  -- The error of a reply that does not come.
  abbrev pub no_reply : DeliveryError
  no_reply = timeout data_command (as_secs config.command_timeout)

  receive-silence :
      (later : List ReadEvent) (sent : List ℕ)
      → receive lossy config (peer (read_times_out ∷ later) sent)
        ≡ (peer later sent, fails no_reply)
  unfolding receive read_response
  receive-silence later sent = refl

  transfer-silence :
      (result : DeliveryResult) (body : List ℕ) (later : List ReadEvent) (sent : List ℕ)
      → transfer lossy config result body
          (peer (heard_all (Response.start_data ∷ []) (read_times_out ∷ later)) sent)
        ≡ (peer later ((sent ++ as_bytes (codes "DATA\r\n")) ++ body_on_wire body), fails no_reply)
  unfolding transfer
  transfer-silence result body later sent =
      let after_quit : SmtpClientResponse → Talk DeliveryResult =
        λ final. ignore_error (quit lossy config) >> give (settle result final) in
      bind-gives (start_data lossy config)
        (λ u. send_body lossy config body >> (receive lossy config >>= after_quit)) _ _ tt
        (start_data-peer lossy faithful config Response.start_data (read_times_out ∷ later) sent
          start_data-IsReply start_data-code)
      ∙ bind-gives (send_body lossy config body) (λ v. receive lossy config >>= after_quit) _ _ tt
          (send_body-peer lossy faithful config body (read_times_out ∷ later) _)
      ∙ bind-fails (receive lossy config) after_quit _ _ no_reply (receive-silence later _)

  pub converse-silence :
      (greeting hello : SmtpResponse) (sender first : Text) (recipients : List Text) (body : List ℕ)
      (later : List ReadEvent)
      → IsReply greeting
      → greeting.code ≡ 220
      → IsReply hello
      → hello.code ≡ 250
      → converse lossy config sender (first ∷ recipients) body (
          peer
            (heard_all
              (greeting
                ∷ hello
                ∷ accepted
                ∷ (map (λ r. accepted) (first ∷ recipients) ++ Response.start_data ∷ []))
              (read_times_out ∷ later))
            [])
        ≡ (
          peer later (
              as_bytes (flat (commands config sender (first ∷ recipients) body))
              ++ body_on_wire body),
          fails no_reply,
        )
  converse-silence greeting hello sender first recipients body later ok0 is220 ok1 is250 =
      let whole = first ∷ recipients in
      converse-opening lossy faithful config greeting hello accepted sender first recipients body
        (map (λ r. accepted) whole) (Response.start_data ∷ []) (read_times_out ∷ later) ok0 is220
        ok1 is250 accepted-IsTaken (accepted-Answers whole)
      ∙ transfer-silence (all_taken (record (Outcome.new none) { connected = true }) whole) body
          later (as_bytes (flat (envelope_lines config sender whole body)))
      ∙ ap (λ b. (peer later (b ++ body_on_wire body), fails no_reply))
          (data_said (envelope_lines config sender whole body))
