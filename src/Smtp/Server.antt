-- ===== src/Smtp/Server.antt =====
-- src/smtp/server.rs: one connection, driven line by line. The socket is not modelled: `sent` holds
-- the replies that a flush has written, `buffered` those that wait in the `BufWriter` (which may
-- also write them by itself once its buffer is full), `pending` those of a pipelined batch.
-- `spooled` lists the calls of `DiskSpool::store`. A failing read or write ends the source's loop.
pub mod Replies
pub mod Reach
pub mod Transaction
pub mod Tasks
use Prim.Native.Nat.{ℕ}
use mathlib.Core.Bool.{Bool, true, false, ◌||◌}
use mathlib.Core.Option.{Option, none, some}
use mathlib.Core.List.{List, [], ◌∷◌, ◌++◌}
use my_mta.Prelude.{if◌then◌else◌, Result, ok, err}
use my_mta.Prelude.Text.{Text, trim}
use my_mta.Message.Envelope.{Envelope, received_header}
use my_mta.Message.Parser.{ParsedMessage, parse, ensure_message_id, prepend_received, to_bytes}
use my_mta.Smtp.Response.{SmtpResponse, greeting}
use my_mta.Smtp.Session
use my_mta.Smtp.Session.{
  Fresh, SmtpSession, DataResult, continue, done, error, process_command, feed_data_line,
  take_message_data, is_receiving_data,
}

pub record Connection : Type 0 where
  pub session : SmtpSession
  pub pending : List SmtpResponse
  pub buffered : List SmtpResponse
  pub sent : List SmtpResponse
  pub spooled : List (Envelope × List ℕ)
  pub is_running : Bool

-- One line from the socket, whether more input is buffered behind it, and what the handling takes
-- from the clock and from the UUID generator.
pub record Input : Type 0 where
  pub line : Text
  pub buffer_is_empty : Bool
  pub fresh : Fresh
  pub message_uuid : Text

-- Up to the flush of the greeting.
unfoldable pub accept : Text → Text → ℕ → ℕ → ℕ → Connection
accept peer hostname max_message_size max_recipients now = record {
  session = Session.new peer hostname max_message_size max_recipients now;
  pending = [];
  buffered = [];
  sent = greeting hostname ∷ [];
  spooled = [];
  is_running = true;
}

-- `lossy` is `String::from_utf8_lossy`, `date` chrono's format of a time.
module _ (lossy : List ℕ → Text) (date : ℕ → Text) where
  -- The data of a message as it is spooled: enriched, or raw where it does not parse.
  pub final_data : SmtpSession → Input → List ℕ → List ℕ
  final_data s input raw = elim (parse lossy raw) [
    | ok m ↦ to_bytes (
        prepend_received (ensure_message_id m input.message_uuid input.fresh.now s.hostname)
          (received_header date s.envelope s.hostname))
    | err errors ↦ raw
  ]

  spool_message : Connection → Input → SmtpSession × Option (List ℕ) → Connection
  unfolding final_data
  spool_message c input (s, none) = record c { session = s }
  spool_message c input (s, some raw) = record c {
    session = s;
    spooled = c.spooled ++ (s.envelope, final_data s input raw) ∷ [];
  }

  data_reply : Connection → Input → SmtpSession × DataResult → Connection
  unfolding spool_message
  data_reply c input (s, continue) = record c { session = s }
  data_reply c input (s, done reply) =
      let c' = spool_message c input (take_message_data s) in
      record c' { buffered = c'.buffered ++ reply ∷ [] }
  data_reply c input (s, error reply) = record c {
    session = s;
    buffered = c.buffered ++ reply ∷ [];
  }

  flush : Connection → Connection
  flush c = record c { sent = c.sent ++ (c.buffered ++ c.pending); buffered = []; pending = [] }

  flush_if : Bool → Connection → Connection
  unfolding flush
  flush_if true c = flush c
  flush_if false c = c

  -- `break` where the session closes.
  stop_if : Bool → Connection → Connection
  stop_if true c = record c { is_running = false }
  stop_if false c = c

  command_reply : Connection → Input → SmtpSession × SmtpResponse → Connection
  unfolding flush_if stop_if
  command_reply c input (s, reply) =
      let should_flush = input.buffer_is_empty || is_receiving_data s || s.is_closing in
      let c' = record c { session = s; pending = c.pending ++ reply ∷ [] } in
      stop_if s.is_closing (flush_if should_flush c')

  -- One round of the loop of `handle_connection`.
  unfoldable pub receive : Connection → Input → Connection
  unfolding data_reply command_reply
  receive c input =
      if is_receiving_data c.session
      then data_reply c input (feed_data_line c.session input.line)
      else command_reply c input (process_command c.session input.fresh (trim input.line))

  -- The loop, over the lines that the socket delivers.
  unfoldable pub handle_connection : Connection → List Input → Connection
  unfolding receive
  handle_connection c [] = c
  handle_connection c (input ∷ inputs) =
      let rest = handle_connection (receive c input) inputs in if c.is_running then rest else c
