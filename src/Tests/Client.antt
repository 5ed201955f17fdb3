-- ===== src/Tests/Client.antt =====
-- A delivery of src/delivery/client.rs to two hosts, the first of which does not answer.
use my_mta.Prelude.{All, true, false, ℕ, List, [], ◌∷◌, ◌++◌, none, some, ◌≡◌, refl, arith}
use my_mta.Prelude.Text.{Text, codes, as_bytes, len}
use my_mta.Dns.Records.{v4}
use my_mta.Smtp.Response.{to_wire}
use my_mta.Smtp.Session.State.{receiving_data}
use my_mta.Smtp.Session
use my_mta.Smtp.Session.{SmtpSession, feed_data_line, take_message_data}
use my_mta.Smtp.Session.DataPhase.{stored, feed_all}
use my_mta.Delivery.MxResolve.{ResolvedDestination}
use my_mta.Delivery.Connector.{
  default_config, read_times_out, SmtpConnection, gives, Network, connected, dial_times_out,
  Printing,
}
use my_mta.Delivery.Client.Reading.{read_response}
use my_mta.Delivery.Client.Reading.Roundtrip.{arriving, read_response-to_wire}
use my_mta.Delivery.Client.Body.{body_on_wire}
use my_mta.Delivery.Client.Body.Relay.{flat, IsWireLine, relayed_unchanged}
use my_mta.Delivery.Outcome.{DeliveryResult, success}
use my_mta.Delivery.Client.Dialogue
use my_mta.Delivery.Client.Reading
use my_mta.Delivery.Connector
use my_mta.Delivery.Outcome
use my_mta.Prelude.Text.Numbers.{parse_uint}
use my_mta.Delivery.Client.Dialogue.{converse}
use my_mta.Delivery.Client.Dialogue.Reports.{IsHonest, addressed, converse-IsHonest}
use my_mta.Tests.Utf8.{decode, decode-as_bytes}
use my_mta.Delivery.Client.Deliver.{Mail, deliver}
use my_mta.Delivery.Client.Deliver.Order.{in_order, deliver-in_order}

abbrev mail : Mail
mail = record { sender = codes "a@b.com"; recipients = codes "c@d.org" ∷ []; body = codes "Hi\r\n" }

abbrev host : ℕ → ResolvedDestination
host n = record {
  domain = codes "d.org";
  exchange = codes "mx.d.org";
  addresses = v4 n ∷ [];
  preference = n;
  port = 25;
}

abbrev hosts : List ResolvedDestination
hosts = host 10 ∷ host 20 ∷ []

abbrev peer : SmtpConnection
peer = record { incoming = arriving (codes "220 ready\r\n") []; writes = []; sent = [] }

abbrev network : Network
network = dial_times_out ∷ connected peer ∷ []

abbrev printing : Printing
printing = record { debug = λ l. codes "[]"; address = λ a. codes "addr" }

deliver-in_order_example :
    deliver decode printing default_config mail hosts network
    ≡ some (in_order decode printing default_config mail hosts network [] none)
deliver-in_order_example = deliver-in_order decode printing default_config mail hosts network

abbrev reply : SmtpConnection
reply = record {
  incoming =
      arriving
        (as_bytes
          (to_wire (record { code = 250; messages = codes "mx é" ∷ codes "SIZE 100" ∷ [] })))
        (read_times_out ∷ []);
  writes = [];
  sent = [];
}

read_response-to_wire_example : read_response decode default_config reply ≡ (
  record reply { incoming = read_times_out ∷ [] },
  gives (record { code = 250; lines = codes "mx é" ∷ codes "SIZE 100" ∷ [] }),
)
read_response-to_wire_example =
    read_response-to_wire decode decode-as_bytes default_config 250 (omega arith) (omega arith)
      reply (codes "mx é") (codes "SIZE 100" ∷ []) (read_times_out ∷ []) (ground arith) refl

abbrev receiving : SmtpSession
receiving = record (Session.new (codes "p") (codes "mx") 100 2 0) { state = receiving_data }

relayed_unchanged_example :
    (sent : List Text) × All IsWireLine sent
    × (body_on_wire (stored (codes ".dot" ∷ codes "x" ∷ []))
        ≡ as_bytes (flat sent ++ codes ".\r\n"))
    × ((take_message_data (feed_data_line (feed_all receiving sent) (codes ".\r\n")).0).1
        ≡ some (stored (codes ".dot" ∷ codes "x" ∷ [])))
unfolding Session.new stored as_bytes
relayed_unchanged_example =
    relayed_unchanged receiving (codes ".dot") (codes "x" ∷ []) refl (ground arith) (omega arith)

-- A server that takes the message.
abbrev taking : SmtpConnection
taking = record {
  incoming =
      arriving (codes "220 x\r\n250 x\r\n250 ok\r\n250 ok\r\n354 go\r\n250 done\r\n221 bye\r\n") [];
  writes = [];
  sent = [];
}

abbrev taken : DeliveryResult
taken = record {
  recipients = (codes "c@d.org", success (codes "Accepted")) ∷ [];
  connected = true;
  tls_used = false;
  mx_server = none;
}

converse-IsHonest_example :
    IsHonest decode default_config
      (addressed decode default_config mail.sender mail.recipients mail.body taking)
      mail.body
      mail.recipients
      taken
unfolding converse Dialogue.receive Dialogue.require_success Dialogue.ehlo Dialogue.mail_from
    Dialogue.each_recipient Dialogue.finish decode read_response len parse_uint as_bytes
    Reading.is_success Dialogue.send_line Connector.write_all Connector.flush
    Outcome.successful_recipients Outcome.add_recipient Outcome.new
converse-IsHonest_example =
    converse-IsHonest decode default_config mail.sender mail.recipients mail.body taking taken refl
