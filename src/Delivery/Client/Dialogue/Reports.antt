-- ===== src/Delivery/Client/Dialogue/Reports.antt =====
-- What a conversation of `try_deliver_to` of src/delivery/client.rs reports of the recipients.
use mathlib.Core.Path.{subst}
use my_mta.Prelude.{
  ℕ, List, [], ◌∷◌, ◌++◌, append_assoc, append-nil, map, select, any, Bool, true, false, none, ◌≡◌,
  refl, sym, ap, ◌∙◌, ◌⊎◌, arith, Bool-cases, inl, inr, is_empty, length,
}
use my_mta.Prelude.Text.{Text}
use my_mta.Delivery.Error.{DeliveryError, SmtpStage}
use my_mta.Delivery.Outcome
use my_mta.Delivery.Outcome.{RecipientResult, DeliveryResult, is_success, successful_recipients}
use my_mta.Delivery.Connector.{ConnectionConfig, SmtpConnection, Attempt, gives, Attempt-cases}
use my_mta.Delivery.Client.Reading
use my_mta.Delivery.Client.Reading.{SmtpClientResponse}
use my_mta.Delivery.Client.Capabilities.{SmtpCapabilities}
use my_mta.Delivery.Client.Dialogue.{
  Talk, ◌>>=◌, ◌>>◌, give, require_success, failure_of, fail_accepted, settle, ignore_error,
  receive, ehlo, mail_from, start_data, send_body, quit, one_recipient, each_recipient, transfer,
  finish, converse,
}

-- An operation that gives a value.
abbrev pub Gives : {A : Type 0} → SmtpConnection × Attempt A → A → Type 0
Gives r a = r.1 ≡ gives a

-- What is given after a bind is given by both parts.
bind-Gives :
    {A B : Type 0} (m : Talk A) (f : A → Talk B) (conn : SmtpConnection) (b : B)
    → Gives ((m >>= f) conn) b
    → (a : A) × Gives (m conn) a × Gives (f a (m conn).0) b
bind-Gives m f conn b h = elim (Attempt-cases (m conn).1) [
  | inl (a, e) ↦ (a, e, (rw (e, ◌>>=◌) at h))
  | inr (inl (x, e)) ↦ cc (rw (e, ◌>>=◌) at h)
  | inr (inr e) ↦ cc (rw (e, ◌>>=◌) at h)
]

-- The addresses that a result reports on.
abbrev pub reported : DeliveryResult → List Text
reported r = map (λ e. e.0) r.recipients

abbrev pub any_success : DeliveryResult → Bool
any_success r = any (λ e. is_success e.1) r.recipients

failure_of-is_success : (e : DeliveryError) → is_success (failure_of e) ≡ false
unfolding failure_of is_success
failure_of-is_success e = ground arith

-- After a refused body nobody is successful, and the addresses are the same.
none_accepted :
    (e : DeliveryError) (l : List (Text × RecipientResult))
    → (any (λ r. is_success r.1) (map (fail_accepted e) l) ≡ false)
      × (map (λ r. r.0) (map (fail_accepted e) l) ≡ map (λ r. r.0) l)
unfolding fail_accepted
none_accepted e [] = (refl, refl)
none_accepted e ((address, res) ∷ l) =
    let (failed, same) = none_accepted e l in
    (
      elim (Bool-cases (is_success res)) [
        | inl ok ↦ rw (ok, failure_of-is_success e) failed
        | inr bad ↦ rw (bad, bad) failed
      ],
      ap (λ x. address ∷ x) same,
    )

settle-reported :
    (result : DeliveryResult) (final : SmtpClientResponse)
    → reported (settle result final) ≡ reported result
unfolding settle
settle-reported result final = elim (Bool-cases (Reading.is_success final)) [
  | inl ok ↦ rw (ok, settle) refl
  | inr bad ↦ rw (bad, settle) (none_accepted _ result.recipients).1
]

settle-any_success :
    (result : DeliveryResult) (final : SmtpClientResponse)
    → (any_success (settle result final) ≡ false) ⊎ (Reading.is_success final ≡ true)
unfolding settle
settle-any_success result final = elim (Bool-cases (Reading.is_success final)) [
  | inl ok ↦ inr ok
  | inr bad ↦ inl (rw (bad, settle) (none_accepted _ result.recipients).0)
]

gives_same : {A : Type 0} {a b : A} → gives a ≡ gives b → b ≡ a
gives_same h = cc

reported_last :
    (l : List (Text × RecipientResult)) (address : Text) (res : RecipientResult)
    → map (λ e. e.0) (l ++ (address, res) ∷ []) ≡ map (λ e. e.0) l ++ address ∷ []
reported_last [] address res = refl
reported_last (e ∷ l) address res = ap (λ x. e.0 ∷ x) (reported_last l address res)

nobody :
    (l : List (Text × RecipientResult))
    → is_empty (map (λ e. e.0) (select (λ e. is_success e.1) l)) ≡ true
    → any (λ e. is_success e.1) l ≡ false
nobody [] h = refl
nobody (e ∷ l) h = ground (arith, nobody l)

-- The test of a reply does not touch the connection.
require_success-conn :
    (stage : SmtpStage) (response : SmtpClientResponse) (conn : SmtpConnection)
    → (require_success stage response conn).0 ≡ conn
unfolding require_success
require_success-conn stage response conn = elim (Bool-cases (Reading.is_success response)) [
  | inl ok ↦ rw (ok, require_success) refl
  | inr bad ↦ rw (bad, require_success) refl
]

module _ (lossy : List ℕ → Text) (config : ConnectionConfig) where
  -- Each recipient is reported once, in order, after those before.
  each_recipient-reported :
      (recipients : List Text) (result r : DeliveryResult) (conn : SmtpConnection)
      → Gives (each_recipient lossy config result recipients conn) r
      → reported r ≡ reported result ++ recipients
  unfolding each_recipient Outcome.add_recipient
  each_recipient-reported [] result r conn h =
      ap reported (gives_same h) ∙ sym (append-nil (reported result))
  each_recipient-reported (recipient ∷ recipients) result r conn h =
      let (res, taken, rest) =
        bind-Gives (one_recipient lossy config recipient)
          (λ res.
            each_recipient lossy config (Outcome.add_recipient result recipient res) recipients)
          conn r h in
      each_recipient-reported recipients _ r _ rest
      ∙ ap (λ x. x ++ recipients) (reported_last result.recipients recipient res)
      ∙ append_assoc (reported result) (recipient ∷ []) recipients

  -- The connection, as it is: the server took DATA on it, then the whole body was written, and the
  -- reply that came next was a success.
  abbrev pub Acknowledged : SmtpConnection → List ℕ → Type 0
  Acknowledged conn body =
      (final : SmtpClientResponse) × Gives (start_data lossy config conn) tt
      × Gives (send_body lossy config body (start_data lossy config conn).0) tt
      × Gives
          (receive lossy config (send_body lossy config body (start_data lossy config conn).0).0)
          final
      × (Reading.is_success final ≡ true)

  -- The same addresses, and nobody is successful unless the message was handed over.
  abbrev pub IsHonest : SmtpConnection → List ℕ → List Text → DeliveryResult → Type 0
  IsHonest conn body recipients r =
      (reported r ≡ recipients) × ((any_success r ≡ false) ⊎ Acknowledged conn body)

  abbrev pub no_results : DeliveryResult
  no_results = record (Outcome.new none) { connected = true }

  -- The connection of a conversation after the greeting, EHLO, MAIL and every RCPT.
  abbrev pub addressed : Text → List Text → List ℕ → SmtpConnection → SmtpConnection
  addressed sender recipients body conn =
      (each_recipient lossy config no_results recipients
        (mail_from lossy config sender (length body)
          (ehlo lossy config (receive lossy config conn).0).0).0).0

  transfer-IsHonest :
      (result r : DeliveryResult) (body : List ℕ) (conn : SmtpConnection)
      → Gives (transfer lossy config result body conn) r
      → IsHonest conn body (reported result) r
  unfolding transfer
  transfer-IsHonest result r body conn h =
      let after_quit : SmtpClientResponse → Talk DeliveryResult =
        λ final. ignore_error (quit lossy config) >> give (settle result final) in
      let (u, started, h1) =
        bind-Gives (start_data lossy config)
          (λ u. send_body lossy config body >> (receive lossy config >>= after_quit)) conn r h in
      let conn1 = (start_data lossy config conn).0 in
      let (v, written, h2) =
        bind-Gives (send_body lossy config body) (λ v. receive lossy config >>= after_quit) conn1 r
          h1 in
      let conn2 = (send_body lossy config body conn1).0 in
      let (final, replied, h3) = bind-Gives (receive lossy config) after_quit conn2 r h2 in
      let (w, left, h4) =
        bind-Gives (ignore_error (quit lossy config)) (λ w. give (settle result final))
          (receive lossy config conn2).0 r h3 in
      let same : r ≡ settle result final = gives_same h4 in
      (
        ap reported same ∙ settle-reported result final,
        elim (settle-any_success result final) [
          | inl no_success ↦ inl (ap any_success same ∙ no_success)
          | inr ok ↦ inr (final, started, written, replied, ok)
        ],
      )

  finish-IsHonest :
      (result r : DeliveryResult) (body : List ℕ) (conn : SmtpConnection)
      → Gives (finish lossy config result body conn) r
      → IsHonest conn body (reported result) r
  unfolding finish successful_recipients
  finish-IsHonest result r body conn h =
      elim (Bool-cases (is_empty (successful_recipients result))) [
        | inr someone ↦ transfer-IsHonest result r body conn (rw (finish, someone) at h)
        | inl none_left ↦
            let (w, left, h1) =
              bind-Gives (ignore_error (quit lossy config)) (λ w. give result) conn r
                (rw (finish, none_left) at h) in
            let same : r ≡ result = gives_same h1 in
            (ap reported same, inl (ap any_success same ∙ nobody result.recipients none_left))
      ]

  -- A conversation that gives a result reports every recipient once, in the order of the message. It
  -- reports no success unless, on its connection after the greeting, EHLO, MAIL and every RCPT, the
  -- server took DATA, the body was then written to its end, and the reply to it was a success.
  pub converse-IsHonest :
      (sender : Text) (recipients : List Text) (body : List ℕ) (conn : SmtpConnection)
      (r : DeliveryResult)
      → (converse lossy config sender recipients body conn).1 ≡ gives r
      → IsHonest (addressed sender recipients body conn) body recipients r
  unfolding converse Outcome.new
  converse-IsHonest sender recipients body conn r h =
      let finished : DeliveryResult → Talk DeliveryResult =
        λ result. finish lossy config result body in
      let heard : Talk DeliveryResult =
        each_recipient lossy config no_results recipients >>= finished in
      let sending : SmtpCapabilities → Talk DeliveryResult =
        λ capabilities. mail_from lossy config sender (length body) >> heard in
      let greeted : SmtpClientResponse → Talk DeliveryResult =
        λ greeting. require_success SmtpStage.connect greeting >> (ehlo lossy config >>= sending) in
      let (greeting, _, h1) = bind-Gives (receive lossy config) greeted conn r h in
      let c1 = (receive lossy config conn).0 in
      let (_, _, h2) =
        bind-Gives (require_success SmtpStage.connect greeting) (λ u. ehlo lossy config >>= sending)
          c1 r h1 in
      let (capabilities, _, h3) = bind-Gives (ehlo lossy config) sending c1 r (
        subst (λ c. Gives ((ehlo lossy config >>= sending) c) r)
          (require_success-conn SmtpStage.connect greeting c1) h2) in
      let c3 = (ehlo lossy config c1).0 in
      let (_, _, h4) =
        bind-Gives (mail_from lossy config sender (length body)) (λ u. heard) c3 r h3 in
      let c4 = (mail_from lossy config sender (length body) c3).0 in
      let (result, taken, h5) =
        bind-Gives (each_recipient lossy config no_results recipients) finished c4 r h4 in
      let listed = each_recipient-reported recipients no_results result c4 taken in
      let (same, honest) =
        finish-IsHonest result r body (each_recipient lossy config no_results recipients c4).0 h5 in
      (same ∙ listed, honest)
