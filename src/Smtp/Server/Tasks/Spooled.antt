-- ===== src/Smtp/Server/Tasks/Spooled.antt =====
-- What a round of `handle_connection` of src/smtp/server.rs adds to the spool.
use my_mta.Prelude.{
  ℕ, List, [], ◌∷◌, ◌++◌, append-nil, true, false, Option, none, some, ◌≡◌, refl, sym, All, drop,
  length, Bool, ◌||◌, Bool-cases, inl, inr,
}
use my_mta.Prelude.Text.{Text, trim}
use my_mta.Message.Envelope.{Envelope}
use my_mta.Smtp.Response.{SmtpResponse}
use my_mta.Smtp.Session.{
  SmtpSession, DataResult, continue, done, error, process_command, feed_data_line,
  take_message_data, is_receiving_data,
}
use my_mta.Smtp.Server.{
  Connection, Input, receive, data_reply, command_reply, flush_if, stop_if, spool_message,
}

pub drop-append {ℓ} : {A : Type ℓ} (xs ys : List A) → drop (length xs) (xs ++ ys) ≡ ys
drop-append [] ys = refl
drop-append (x ∷ xs) ys = drop-append xs ys

pub All-right {ℓ κ} : {A : Type ℓ} (P : A → Type κ) (xs ys : List A) → All P (xs ++ ys) → All P ys
All-right P [] ys h = h
All-right P (x ∷ xs) ys (h, hs) = All-right P xs ys hs

-- One list continues another.
abbrev Continues : List (Envelope × List ℕ) → List (Envelope × List ℕ) → Type 0
Continues l l' = (more : List (Envelope × List ℕ)) × (l' ≡ l ++ more)

Continues-same : (l : List (Envelope × List ℕ)) → Continues l l
Continues-same l = ([], sym (append-nil l))

module _ (lossy : List ℕ → Text) (date : ℕ → Text) where
  spool_message-appends :
      (c : Connection) (input : Input) (r : SmtpSession × Option (List ℕ))
      → Continues c.spooled (spool_message lossy date c input r).spooled
  unfolding spool_message
  spool_message-appends c input (s, none) = Continues-same c.spooled
  spool_message-appends c input (s, some raw) = (_, refl)

  data_reply-appends :
      (c : Connection) (input : Input) (r : SmtpSession × DataResult)
      → Continues c.spooled (data_reply lossy date c input r).spooled
  unfolding data_reply
  data_reply-appends c input (s, continue) = Continues-same c.spooled
  data_reply-appends c input (s, done reply) = spool_message-appends c input (take_message_data s)
  data_reply-appends c input (s, error reply) = Continues-same c.spooled

  settled :
      (stops flushes : Bool) (c : Connection)
      → Continues c.spooled (stop_if lossy date stops (flush_if lossy date flushes c)).spooled
  unfolding stop_if flush_if
  settled true true c = Continues-same c.spooled
  settled true false c = Continues-same c.spooled
  settled false true c = Continues-same c.spooled
  settled false false c = Continues-same c.spooled

  command_reply-appends :
      (c : Connection) (input : Input) (r : SmtpSession × SmtpResponse)
      → Continues c.spooled (command_reply lossy date c input r).spooled
  unfolding command_reply
  command_reply-appends c input (s, reply) =
      settled s.is_closing (input.buffer_is_empty || is_receiving_data s || s.is_closing)
        (record c { session = s; pending = c.pending ++ reply ∷ [] })

  -- The messages that were stored before stay, and others follow.
  pub receive-appends :
      (c : Connection) (input : Input) → Continues c.spooled (receive lossy date c input).spooled
  unfolding receive
  receive-appends c input = elim (Bool-cases (is_receiving_data c.session)) [
    | inl e ↦ rw e (data_reply-appends c input (feed_data_line c.session input.line))
    | inr e ↦
        rw e
          (command_reply-appends c input (process_command c.session input.fresh (trim input.line)))
  ]
