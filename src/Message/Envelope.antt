-- ===== src/Message/Envelope.antt =====
-- src/message/envelope.rs. Times are seconds since the epoch; the clock is an argument. The peer's
-- address comes printed.
use Prim.Native.Nat.{ℕ}
use mathlib.Core.Option.{Option, none, some}
use mathlib.Core.List.{List, [], ◌∷◌, ◌++◌}
use my_mta.Prelude.Text.{Text, codes}

pub record Envelope : Type 0 where
  pub id : Text
  pub sender : Text
  pub recipients : List Text
  pub client_hostname : Option Text
  pub peer_addr : Option Text
  pub received_at : ℕ
  pub mail_parameters : List Text
  pub priority : ℕ

unfoldable pub new : ℕ → Envelope
new now = record {
  id = [];
  sender = [];
  recipients = [];
  client_hostname = none;
  peer_addr = none;
  received_at = now;
  mail_parameters = [];
  priority = 1;
}

unfoldable pub reset : Envelope → Envelope
reset e = record e { id = []; sender = []; recipients = []; mail_parameters = [] }

unfoldable pub set_sender : Envelope → Text → List Text → Envelope
set_sender e address parameters = record e { sender = address; mail_parameters = parameters }

unfoldable pub add_recipient : Envelope → Text → Envelope
add_recipient e address = record e { recipients = e.recipients ++ address ∷ [] }

unfoldable pub stamp : Envelope → Text → ℕ → Envelope
stamp e queue_id now = record e { id = queue_id; received_at = now }

unfoldable pub set_connection_info : Envelope → Text → Option Text → Envelope
set_connection_info e peer client_host = record e {
  peer_addr = some peer;
  client_hostname = client_host;
}

abbrev or_unknown : Option Text → Text
or_unknown none = codes "unknown"
or_unknown (some peer) = peer

abbrev from_part : Option Text → Option Text → Text
from_part (some host) peer = codes "from " ++ host ++ codes " (" ++ or_unknown peer ++ codes ")"
from_part none peer = codes "from " ++ or_unknown peer

-- `date` is chrono's `format("%a, %d %b %Y %H:%M:%S %z")`.
unfoldable pub received_header : (ℕ → Text) → Envelope → Text → Text
received_header date e our_hostname =
    codes "Received: "
    ++ from_part e.client_hostname e.peer_addr
    ++ codes " by "
    ++ our_hostname
    ++ codes " with ESMTP id "
    ++ e.id
    ++ codes "; "
    ++ date e.received_at
