-- ===== src/Smtp/Server/Reach.antt =====
-- What holds after any lines from a client: the session's invariant, and the envelopes of the
-- messages that were spooled.
use Prim.Native.Nat.{ℕ, ◌<◌}
use mathlib.Core.Path.{◌≡◌}
use mathlib.Core.Logic.{inl, inr}
use mathlib.Core.Bool.{Bool, true, false}
use mathlib.Core.Option.{Option, none, some}
use mathlib.Core.List.{List, [], ◌∷◌}
use native.Mathlib.Omega.{arith}
use my_mta.Prelude.{if◌then◌else◌, length, All, All-append, Bool-cases, ok}
use my_mta.Prelude.Text.{Text, trim}
use my_mta.Message.Envelope.{Envelope}
use my_mta.Smtp.Command.Address.{validate_email_address}
use my_mta.Smtp.Command.Checked.{IsAddress}
use my_mta.Smtp.Response.{SmtpResponse}
use my_mta.Smtp.Session.{
  SmtpSession, DataResult, continue, done, error, feed_data_line, is_receiving_data,
  take_message_data,
}
use my_mta.Smtp.Session.Invariant.{
  IsValid, new-IsValid, process_command-IsValid, feed_data_line-IsValid, take_message_data-IsValid,
}
use my_mta.Smtp.Server.{
  Connection, Input, accept, receive, data_reply, command_reply, flush_if, stop_if, spool_message,
  handle_connection,
}

-- An envelope that can be delivered: a sender that is empty or valid, and at least one recipient,
-- each of them valid and not empty.
pub record IsDeliverable (e : Envelope) : Type 0 where
  pub sender : validate_email_address e.sender ≡ ok tt
  pub some_recipient : 0 < length e.recipients
  pub recipients : All IsAddress e.recipients

pub record IsSound (c : Connection) : Type 0 where
  pub session : IsValid c.session
  pub spooled : All (λ m. IsDeliverable m.0) c.spooled

-- What a reply in DATA mode says of the envelope.
abbrev Delivers : DataResult → Envelope → Type 0
Delivers (done reply) e = IsDeliverable e
Delivers _ e = Unit {0}

receiving-IsDeliverable :
    (s : SmtpSession) → IsValid s → is_receiving_data s ≡ true → IsDeliverable s.envelope
unfolding is_receiving_data
receiving-IsDeliverable s v e = ground arith

feed-Delivers :
    (s : SmtpSession) (line : Text)
    → IsDeliverable s.envelope
    → Delivers (feed_data_line s line).1 (feed_data_line s line).0.envelope
unfolding feed_data_line
feed-Delivers s line h = ground arith

take-envelope : (s : SmtpSession) → (take_message_data s).0.envelope ≡ s.envelope
unfolding take_message_data
take-envelope s = ground arith

IsSound-if : (b : Bool) (c d : Connection) → IsSound c → IsSound d → IsSound (if b then c else d)
IsSound-if true c d hc hd = hc
IsSound-if false c d hc hd = hd

module _ (lossy : List ℕ → Text) (date : ℕ → Text) where
  spool_message-IsSound :
      (c : Connection) (input : Input) (r : SmtpSession × Option (List ℕ))
      → IsSound c
      → IsValid r.0
      → IsDeliverable r.0.envelope
      → IsSound (spool_message lossy date c input r)
  unfolding spool_message
  spool_message-IsSound c input (s, none) h v d = record { session = v; spooled = h.spooled }
  spool_message-IsSound c input (s, some raw) h v d = record {
    session = v;
    spooled = All-append (λ m. IsDeliverable m.0) c.spooled _ h.spooled (d, tt);
  }

  data_reply-IsSound :
      (c : Connection) (input : Input) (r : SmtpSession × DataResult)
      → IsSound c
      → IsValid r.0
      → Delivers r.1 r.0.envelope
      → IsSound (data_reply lossy date c input r)
  unfolding data_reply
  data_reply-IsSound c input (s, continue) h v d = record { session = v; spooled = h.spooled }
  data_reply-IsSound c input (s, done reply) h v d =
      let spooled =
        spool_message-IsSound c input (take_message_data s) h (take_message_data-IsValid s v)
          (rw (take-envelope s) d) in
      record { session = spooled.session; spooled = spooled.spooled }
  data_reply-IsSound c input (s, error reply) h v d = record { session = v; spooled = h.spooled }

  flush_if-IsSound : (b : Bool) (c : Connection) → IsSound c → IsSound (flush_if lossy date b c)
  unfolding flush_if
  flush_if-IsSound true c h = record { session = h.session; spooled = h.spooled }
  flush_if-IsSound false c h = h

  stop_if-IsSound : (b : Bool) (c : Connection) → IsSound c → IsSound (stop_if lossy date b c)
  unfolding stop_if
  stop_if-IsSound true c h = record { session = h.session; spooled = h.spooled }
  stop_if-IsSound false c h = h

  command_reply-IsSound :
      (c : Connection) (input : Input) (r : SmtpSession × SmtpResponse)
      → IsSound c
      → IsValid r.0
      → IsSound (command_reply lossy date c input r)
  unfolding command_reply
  command_reply-IsSound c input (s, reply) h v =
      stop_if-IsSound s.is_closing _
        (flush_if-IsSound _ _ (record { session = v; spooled = h.spooled }))

  pub receive-IsSound :
      (c : Connection) (input : Input) → IsSound c → IsSound (receive lossy date c input)
  unfolding receive
  receive-IsSound c input h = elim (Bool-cases (is_receiving_data c.session)) [
    | inl e ↦ rw e (
        data_reply-IsSound c input _ h (feed_data_line-IsValid c.session input.line h.session)
          (feed-Delivers c.session input.line (receiving-IsDeliverable c.session h.session e)))
    | inr e ↦ rw e (
        command_reply-IsSound c input _ h
          (process_command-IsValid c.session input.fresh (trim input.line) h.session))
  ]

  handle_connection-IsSound :
      (c : Connection) (inputs : List Input)
      → IsSound c
      → IsSound (handle_connection lossy date c inputs)
  unfolding handle_connection
  handle_connection-IsSound c [] h = h
  handle_connection-IsSound c (input ∷ inputs) h =
      let rest =
        handle_connection-IsSound (receive lossy date c input) inputs (receive-IsSound c input h) in
      IsSound-if c.is_running _ c rest h

  -- Whatever a client sends, every message that the server spools has an envelope with a valid or
  -- empty sender and at least one recipient, all of them valid and not empty, and the session keeps
  -- its invariant.
  pub served-IsSound :
      (peer hostname : Text) (max_message_size max_recipients now : ℕ) (inputs : List Input)
      → IsSound (
          handle_connection lossy date
            (accept peer hostname max_message_size max_recipients now)
            inputs)
  unfolding accept
  served-IsSound peer hostname max_message_size max_recipients now inputs =
      handle_connection-IsSound _ inputs (record {
        session = new-IsValid peer hostname max_message_size max_recipients now;
        spooled = tt;
      })
