-- ===== src/Delivery/Connector.antt =====
-- src/delivery/connector.rs: connections and how they are made. The crate declares no `tls` feature,
-- so that the parts under it are not compiled. A connection is what happens on it: the bytes and
-- faults that its reads meet, the faults of its writes, and the bytes that were sent. Durations are
-- nanoseconds.
use my_mta.Prelude.{
  ◌≡◌, refl, ◌⊎◌, inl, inr, ℕ, ◌/◌, ◌*◌, ◌^◌, List, [], ◌∷◌, ◌++◌, map, take, Result, ok, err, Bool,
  true, false, Option, none, some,
}
use my_mta.Prelude.Text.{Text, codes}
use my_mta.Delivery.Error.{DeliveryError, connect, connection_failed, timeout, io_error, display}
use my_mta.Delivery.MxResolve.{SocketAddr}

pub record ConnectionConfig : Type 0 where
  pub connect_timeout : ℕ
  pub command_timeout : ℕ
  pub data_timeout : ℕ
  pub enable_starttls : Bool
  pub require_tls : Bool
  pub implicit_tls : Bool
  pub local_hostname : Text

abbrev pub second : ℕ
second = 10 ^ 9

abbrev pub default_config : ConnectionConfig
default_config = record {
  connect_timeout = 30 * second;
  command_timeout = 60 * second;
  data_timeout = 300 * second;
  enable_starttls = true;
  require_tls = false;
  implicit_tls = false;
  local_hostname = codes "localhost";
}

-- `Duration::as_secs`
abbrev pub as_secs : ℕ → ℕ
as_secs d = d / second

-- What one read of a byte meets; after the last event the peer has closed the connection.
pub data ReadEvent : Type 0 where
  byte : (b : ℕ) → ReadEvent
  read_times_out : ReadEvent
  read_fails : (message : Text) → ReadEvent

-- What one write or flush meets, with the number of bytes that still went out; after the last event
-- all succeed.
pub data WriteEvent : Type 0 where
  written : WriteEvent
  write_times_out : (n : ℕ) → WriteEvent
  write_fails : (n : ℕ) (message : Text) → WriteEvent

pub record SmtpConnection : Type 0 where
  pub incoming : List ReadEvent
  pub writes : List WriteEvent
  pub sent : List ℕ

-- Only plain connections exist.
unfoldable pub is_tls : SmtpConnection → Bool
is_tls conn = false

-- What an operation gives: a value, an error, or a panic.
pub data Attempt (A : Type 0) : Type 0 where
  gives : A → Attempt A
  fails : DeliveryError → Attempt A
  panics : Attempt A

-- What one attempt to connect meets.
pub data Dial : Type 0 where
  connected : SmtpConnection → Dial
  dial_times_out : Dial
  dial_fails : (message : Text) → Dial

-- The attempts to connect that are still to come; after the last they all time out.
abbrev pub Network : Type 0
Network = List Dial

-- How errors and addresses are printed: `Debug` of a list of strings, `Display` of an address.
pub record Printing : Type 0 where
  pub debug : List Text → Text
  pub address : SocketAddr → Text

unfoldable pub try_connect :
    ConnectionConfig → Network → SocketAddr → Network × Result DeliveryError SmtpConnection
try_connect config [] addr = ([], err (timeout connect (as_secs config.connect_timeout)))
try_connect config (connected conn ∷ net) addr = (net, ok conn)
try_connect config (dial_times_out ∷ net) addr =
    (net, err (timeout connect (as_secs config.connect_timeout)))
try_connect config (dial_fails message ∷ net) addr = (net, err (io_error connect message))

-- The loop over the addresses; `last` is `last_error`.
unfoldable pub connect_each :
    ConnectionConfig
    → Network
    → List SocketAddr
    → Option DeliveryError
    → Network × Result (Option DeliveryError) SmtpConnection
unfolding try_connect
connect_each config net [] last = (net, err last)
connect_each config net (addr ∷ addrs) last = elim (try_connect config net addr).1 [
  | ok conn ↦ ((try_connect config net addr).0, ok conn)
  | err e ↦ connect_each config (try_connect config net addr).0 addrs (some e)
]

reason_of : Printing → Option DeliveryError → Text
unfolding display
reason_of printing none = codes "All connection attempts failed"
reason_of printing (some e) = display printing.debug e

give_up :
    Printing
    → List SocketAddr
    → Network × Result (Option DeliveryError) SmtpConnection
    → Network × Result DeliveryError SmtpConnection
unfolding reason_of
give_up printing addrs (net, ok conn) = (net, ok conn)
give_up printing addrs (net, err last) =
    (net, err (connection_failed (map printing.address addrs) (reason_of printing last)))

unfoldable pub connect_to :
    Printing
    → ConnectionConfig
    → Network
    → List SocketAddr
    → Network × Result DeliveryError SmtpConnection
unfolding connect_each give_up
connect_to printing config net addrs = give_up printing addrs (connect_each config net addrs none)

-- The next event of a write, and the connection behind it.
next_write : SmtpConnection → WriteEvent × SmtpConnection
next_write conn = elim conn.writes [
  | [] ↦ (written, conn)
  | event ∷ events ↦ (event, record conn { writes = events })
]

pub data WriteOutcome : Type 0 where
  all_written : WriteOutcome
  out_of_time : WriteOutcome
  write_error : (message : Text) → WriteOutcome

settle_write : List ℕ → WriteEvent × SmtpConnection → SmtpConnection × WriteOutcome
settle_write bytes (written, conn) = (record conn { sent = conn.sent ++ bytes }, all_written)
settle_write bytes (write_times_out n, conn) =
    (record conn { sent = conn.sent ++ take n bytes }, out_of_time)
settle_write bytes (write_fails n message, conn) =
    (record conn { sent = conn.sent ++ take n bytes }, write_error message)

-- `write_all`
unfoldable pub write_all : List ℕ → SmtpConnection → SmtpConnection × WriteOutcome
unfolding next_write settle_write
write_all bytes conn = settle_write bytes (next_write conn)

-- `flush` sends nothing more.
unfoldable pub flush : SmtpConnection → SmtpConnection × WriteOutcome
unfolding next_write settle_write
flush conn = settle_write [] (next_write conn)

-- To split on an attempt and keep the equation.
pub Attempt-cases :
    {A : Type 0} (r : Attempt A)
    → ((a : A) × (r ≡ gives a)) ⊎ ((e : DeliveryError) × (r ≡ fails e)) ⊎ (r ≡ panics)
Attempt-cases (gives a) = inl (a, refl)
Attempt-cases (fails e) = inr (inl (e, refl))
Attempt-cases panics = inr (inr refl)
