-- ===== src/Lib.antt =====
-- MyMTA, a mail transfer agent in Rust: verification of its core logic.
--
-- The program takes mail over SMTP (src/smtp) and HTTP (src/http), parses and enriches each message (src/message), stores
-- it in a spool, queues it by destination domain with a concurrency limit and a retry schedule
-- (src/queue), finds the hosts of a domain (src/dns, src/delivery) and delivers to them; src/auth has
-- the checks of senders. A connection of the server owns one session: a line is a command or, in
-- DATA mode, a line of a message, and a complete message goes to the parser and to the spool with the
-- session's envelope. The queue manager reads the envelope of a spooled message to find its domain.
--
-- Files and what they model:
--   Prelude          shared notation: numbers, lists, results, texts and their laws
--   Message          src/message: Envelope (`Envelope`), Parser (`ParsedMessage`; Parser/Fields is
--                    `parse_headers`)
--   Smtp/Response    src/smtp/response.rs (`SmtpResponse`, `to_wire`)
--   Smtp/Command     src/smtp/command.rs (`SmtpCommand::parse`); Command/Address is
--                    `validate_email_address`, Command/Address/Grammar an independent grammar
--   Smtp/Session     src/smtp/session.rs (`SmtpSession`: `process_command`, `feed_data_line`)
--   Smtp/Server      src/smtp/server.rs (`handle_connection`, `spool_message`), as a function from the
--                    lines that a client sends to the replies and the messages spooled;
--                    Server/Tasks is `SmtpServer::run`, with its tasks in any interleaving
--                    and the spool that they share
--   Queue            src/queue: Retry (`RetrySchedule`), Destination (`DestinationQueue`), Manager
--                    (`QueueManager`, with the spool as the interface `Spool`)
--   Dns              src/dns: Error (`DnsError`), Records (the answers of a resolver), Cache
--                    (`DnsCache`), Resolver/Mock (`MockDnsResolver`), Resolver/Real (`RealResolver`)
--   Config           src/config.rs: the record `Config`, File (`FileConfig::apply`), Env (`load`),
--                    Selectors (the lookups of DKIM selectors)
--   Delivery         src/delivery: Error (`DeliveryError`), Outcome (`DeliveryResult`), MxResolve
--                    (`MxResolver`, `select_destination`), Connector (`SmtpConnector`), Client
--                    (`SmtpClient`: Capabilities, Reading for the replies, Body for the message on
--                    the wire, Dialogue for one connection, Deliver for the destinations)
--   Auth             src/auth: Spf (`SpfVerifier`), Dmarc (`DmarcVerifier`), Dkim (`DkimConfig`;
--                    Dkim/Canon is what is hashed, Dkim/Sign is `DkimSigner`)
--   Spool            src/spool/disk.rs (`DiskSpool`) over a directory of named files (Spool/Files);
--                    Disk/Enqueued puts it behind the queue manager
--   Http             src/http/api.rs (`inject`, `inject_raw`)
--   Program          src/main.rs (`parse_args`; Program/Start is `main` up to the servers)
--   Interop          src/delivery/client.rs and src/smtp/server.rs at the two ends of one connection:
--                    the server reads the lines that the client sends (Smtp/Command/Sent,
--                    Smtp/Session/Transaction, Smtp/Server/Transaction), and the client hears the
--                    replies that the server has flushed (Delivery/Client/Exchange);
--                    Interop/Smuggled puts src/http/api.rs before the client
--   Tests            concrete inputs
-- Functions keep the source's names; a method takes its `self` first and gives the changed one back.
--
-- A `str` is the list of its Unicode scalar values, and its length is counted in UTF-8 bytes. A
-- `Duration` and an `Instant` are nanoseconds, the times of an envelope are seconds. The present time, UUID bytes, printed dates, `str::to_lowercase`,
-- `String::from_utf8_lossy`, serde's JSON, floating-point arithmetic and the parsers of IP addresses are
-- arguments, and so are RSA, SHA-256, base64, TOML and the answers of hickory-resolver. Counters that
-- are u32 wrap at 2^32, as in a release build, which their limits keep from happening; a subtraction or
-- a shift of the SPF masks that overflows is the panic of the overflow checks. A parsed number has the
-- bound of its type.
--
-- Two loops run on fuel, and give nothing when it is used up: that of `deliver`, which has one round
-- for each destination and one more, and that of `resolve_cname_chain`, which has one round for each
-- link that is allowed and one more. `fold_signature` has a round for each character. Every other loop
-- runs over a list that is given.
--
-- A connection of the client is the list of the bytes and faults that its reads meet, the list of the
-- faults of its writes, and the bytes sent; the network is the list of what the attempts to connect
-- meet. A slice or an index that panics is an outcome of its own.
--
-- Under a lock a method is one step, so that the interleavings of tasks are sequences of calls. A
-- `HashMap` is a list of pairs in any order.
--
-- Not modelled: sockets, HTTP routing and logging, and the TLS parts of src/delivery, which need a
-- feature that the crate does not declare.

pub mod Prelude
pub mod Message
pub mod Smtp
pub mod Queue
pub mod Dns
pub mod Config
pub mod Delivery
pub mod Auth
pub mod Spool
pub mod Http
pub mod Program
pub mod Interop
pub mod Tests
