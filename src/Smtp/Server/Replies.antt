-- ===== src/Smtp/Server/Replies.antt =====
-- The order of the replies, and which of them reach the socket.
use Prim.Native.Nat.{ℕ}
use mathlib.Core.Path.{◌≡◌, refl, sym, ap, ◌∙◌}
use mathlib.Core.Logic.{inl, inr}
use mathlib.Core.Bool.{Bool, true, false, ◌||◌}
use mathlib.Core.Option.{Option, none, some}
use mathlib.Core.List.{List, [], ◌∷◌, ◌++◌, append_assoc, append-nil}
use native.Mathlib.Omega.{arith}
use my_mta.Prelude.{if◌then◌else◌, Bool-cases}
use my_mta.Prelude.Text.{Text, trim}
use my_mta.Smtp.Response.{SmtpResponse}
use my_mta.Smtp.Session.{
  SmtpSession, DataResult, continue, done, error, process_command, feed_data_line,
  is_receiving_data, take_message_data,
}
use my_mta.Smtp.Server.{
  Connection, Input, receive, data_reply, command_reply, flush_if, stop_if, spool_message,
}

-- All replies so far, in the order in which the client gets them.
abbrev pub replies : Connection → List SmtpResponse
replies c = c.sent ++ (c.buffered ++ c.pending)

-- The replies to one line.
abbrev pub data_replies : DataResult → List SmtpResponse
data_replies continue = []
data_replies (done reply) = reply ∷ []
data_replies (error reply) = reply ∷ []

abbrev pub replies_to : Connection → Input → List SmtpResponse
replies_to c input =
    if is_receiving_data c.session
    then data_replies (feed_data_line c.session input.line).1
    else (process_command c.session input.fresh (trim input.line)).1 ∷ []

-- In DATA mode no reply of a batch is held back.
abbrev pub IsDrained : Connection → Type 0
IsDrained c = is_receiving_data c.session ≡ true → c.pending ≡ []

module _ (lossy : List ℕ → Text) (date : ℕ → Text) where
  -- While a message is received nothing is flushed: its final reply too stays in the write buffer.
  data_sends_nothing :
      (c : Connection) (input : Input)
      → is_receiving_data c.session ≡ true
      → (receive lossy date c input).sent ≡ c.sent
  unfolding receive spool_message
  data_sends_nothing c input e = ground arith

  flush_if_pending : (b : Bool) (c : Connection) → b ≡ true → (flush_if lossy date b c).pending ≡ []
  unfolding flush_if
  flush_if_pending true c e = refl
  flush_if_pending false c e = cc

  or_true : (a b c : Bool) → b ≡ true → (a || b || c) ≡ true
  or_true a b c e = ground arith

  data_reply-pending :
      (c : Connection) (input : Input) (r : SmtpSession × DataResult)
      → (data_reply lossy date c input r).pending ≡ c.pending
  unfolding data_reply
  data_reply-pending c input (s, continue) = refl
  data_reply-pending c input (s, done reply) = ground arith
  data_reply-pending c input (s, error reply) = refl

  stop_if-IsDrained : (b : Bool) (c : Connection) → IsDrained c → IsDrained (stop_if lossy date b c)
  unfolding stop_if
  stop_if-IsDrained true c h = h
  stop_if-IsDrained false c h = h

  flush_if-session : (b : Bool) (c : Connection) → (flush_if lossy date b c).session ≡ c.session
  unfolding flush_if
  flush_if-session true c = refl
  flush_if-session false c = refl

  flush_if-IsDrained :
      (a b : Bool) (c : Connection)
      → IsDrained (flush_if lossy date (a || is_receiving_data c.session || b) c)
  flush_if-IsDrained a b c now =
      flush_if_pending _ c (or_true a _ b (sym (ap is_receiving_data (flush_if-session _ c)) ∙ now))

  command_reply-IsDrained :
      (c : Connection) (input : Input) (r : SmtpSession × SmtpResponse)
      → IsDrained (command_reply lossy date c input r)
  unfolding command_reply
  command_reply-IsDrained c input (s, reply) = stop_if-IsDrained s.is_closing _ (
      flush_if-IsDrained input.buffer_is_empty s.is_closing
        (record c { session = s; pending = c.pending ++ reply ∷ [] }))

  -- Each round ends with no reply held back, if a message is to be received next.
  receive-IsDrained :
      (c : Connection) (input : Input) → IsDrained c → IsDrained (receive lossy date c input)
  unfolding receive
  receive-IsDrained c input h = elim (Bool-cases (is_receiving_data c.session)) [
    | inl e ↦ rw e (λ now. data_reply-pending c input _ ∙ h e)
    | inr e ↦ rw e (command_reply-IsDrained c input _)
  ]

  flush_if-replies : (b : Bool) (c : Connection) → replies (flush_if lossy date b c) ≡ replies c
  unfolding flush_if
  flush_if-replies true c = append-nil _
  flush_if-replies false c = refl

  stop_if-replies : (b : Bool) (c : Connection) → replies (stop_if lossy date b c) ≡ replies c
  unfolding stop_if
  stop_if-replies true c = refl
  stop_if-replies false c = refl

  command_reply-replies :
      (c : Connection) (input : Input) (r : SmtpSession × SmtpResponse)
      → replies (command_reply lossy date c input r) ≡ replies c ++ r.1 ∷ []
  unfolding command_reply
  command_reply-replies c input (s, reply) =
      stop_if-replies s.is_closing _
      ∙ flush_if-replies (input.buffer_is_empty || is_receiving_data s || s.is_closing)
          (record c { session = s; pending = c.pending ++ reply ∷ [] })
      ∙ simp append_assoc

  spool_message_keeps :
      (c : Connection) (input : Input) (r : SmtpSession × Option (List ℕ))
      → let d = spool_message lossy date c input r in
        (d.sent ≡ c.sent) × (d.buffered ≡ c.buffered) × (d.pending ≡ c.pending)
  unfolding spool_message
  spool_message_keeps c input (s, none) = (refl, refl, refl)
  spool_message_keeps c input (s, some raw) = (refl, refl, refl)

  data_reply-replies :
      (c : Connection) (input : Input) (r : SmtpSession × DataResult)
      → c.pending ≡ []
      → replies (data_reply lossy date c input r) ≡ replies c ++ data_replies r.1
  unfolding data_reply
  data_reply-replies c input (s, continue) h = sym (append-nil _)
  data_reply-replies c input (s, done reply) h =
      let (same_sent, same_buffered, same_pending) =
        spool_message_keeps c input (take_message_data s) in
      rw (same_sent, same_buffered, same_pending, h) (simp (append_assoc, append-nil))
  data_reply-replies c input (s, error reply) h = rw h (simp (append_assoc, append-nil))

  -- Where no reply of a batch waits while a message is received, a command line gets one reply, the
  -- line that ends a message gets one, another line of a message gets none, and replies keep the
  -- order of the lines.
  pub replies-receive :
      (c : Connection) (input : Input)
      → IsDrained c
      → replies (receive lossy date c input) ≡ replies c ++ replies_to c input
  unfolding receive
  replies-receive c input h = elim (Bool-cases (is_receiving_data c.session)) [
    | inl e ↦ rw e (data_reply-replies c input _ (h e))
    | inr e ↦ rw e (command_reply-replies c input _)
  ]
