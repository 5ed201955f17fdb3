-- ===== src/Http/Api.antt =====
-- src/http/api.rs: the two injection handlers. Routing and JSON are left out: a handler takes the
-- decoded request and gives a status code with an error body, or the queue id. The map of extra
-- headers is a list, in the order in which it is iterated. The clock is read once for each request.
pub mod Checks
pub mod Built
pub mod Injection
use my_mta.Prelude.{
  ℕ, ◌≤◌, ◌<◌, List, [], ◌∷◌, ◌++◌, map, Bool, true, false, not, Option, none, some, ltb, length,
  if◌then◌else◌, is_empty, Result, ok, err, ◌>>◌,
}
use my_mta.Prelude.Text.{Text, codes, as_bytes}
use my_mta.Prelude.Text.Numbers.{decimal}
use my_mta.Config.{over}
use my_mta.Message.Envelope
use my_mta.Message.Envelope.{Envelope, stamp, set_sender, add_recipient, received_header}
use my_mta.Message.Parser.Fields.{
  MessageError, missing_header, invalid_header, line_too_long, empty_message,
}
use my_mta.Message.Parser.{
  ParsedMessage, max_line_length, parse, ensure_message_id, prepend_received, to_bytes,
}
use my_mta.Smtp.Command.Address.{
  ParseError, empty_command, unrecognized_command, invalid_syntax, invalid_address,
  validate_email_address,
}
use my_mta.Smtp.Session.QueueId.{generate_queue_id}
use my_mta.Spool.Disk.{DiskSpool, Fault, store}

pub record InjectRequest : Type 0 where
  pub from : Text
  pub to : List Text
  pub subject : Option Text
  pub body : Text
  pub headers : Option (List (Text × Text))
  pub priority : Option ℕ

pub record InjectRawRequest : Type 0 where
  pub sender : Text
  pub recipients : List Text
  pub raw_message : Text

pub record ErrorResponse : Type 0 where
  pub status : ℕ
  pub error : Text
  pub details : Option (List Text)

-- What the handlers use of the configuration.
pub record Config : Type 0 where
  pub hostname : Text
  pub max_message_size : ℕ
  pub max_recipients : ℕ

-- What a request takes from outside: UUID bytes, the time, the UUID of a Message-ID, whether the
-- write fails, and the printed error of that.
pub record Effects : Type 0 where
  pub uuid : List ℕ
  pub now : ℕ
  pub message_uuid : Text
  pub fault : Fault
  pub reason : Text

-- `Display` of `ParseError`
unfoldable pub display_parse_error : ParseError → Text
display_parse_error empty_command = codes "empty command"
display_parse_error (unrecognized_command c) = codes "unrecognized command: " ++ c
display_parse_error (invalid_syntax m) = codes "syntax error: " ++ m
display_parse_error (invalid_address m) = codes "invalid address: " ++ m

-- `Display` of `MessageError`
unfoldable pub display_message_error : MessageError → Text
display_message_error (missing_header h) = codes "missing required header: " ++ h
display_message_error (invalid_header h) = codes "invalid header: " ++ h
display_message_error (line_too_long line_number length) =
    codes "line "
    ++ decimal line_number
    ++ codes " exceeds maximum length ("
    ++ decimal length
    ++ codes " > "
    ++ decimal max_line_length
    ++ codes ")"
display_message_error empty_message = codes "empty message body"

unfoldable pub bad_request : Text → ErrorResponse
bad_request message = record { status = 400; error = message; details = none }

-- `validate_email_address` with its error as a response.
pub check_address : Text → Text → Result ErrorResponse (Unit {0})
unfolding bad_request display_parse_error
check_address prefix address = elim (validate_email_address address) [
  | ok u ↦ ok tt
  | err e ↦ err (bad_request (prefix ++ display_parse_error e))
]

check_each : List Text → Result ErrorResponse (Unit {0})
unfolding check_address
check_each [] = ok tt
check_each (address ∷ addresses) =
    let rest = check_each addresses in
    check_address (codes "invalid recipient '" ++ address ++ codes "': ") address >> rest

unfoldable pub validate_recipients : List Text → ℕ → Result ErrorResponse (Unit {0})
unfolding check_each bad_request
validate_recipients recipients max =
    if is_empty recipients
    then err (bad_request (codes "at least one recipient is required"))
    else if ltb max (length recipients)
    then err (bad_request (codes "too many recipients (max " ++ decimal max ++ codes ")"))
    else check_each recipients

-- `join(", ")`
unfoldable pub join_comma : List Text → Text
join_comma [] = []
join_comma (s ∷ []) = s
join_comma (s ∷ t ∷ ts) = s ++ codes ", " ++ join_comma (t ∷ ts)

field_line : Text → Text → Text
field_line name value = name ++ codes ": " ++ value ++ codes "\r\n"

extra_lines : List (Text × Text) → Text
unfolding field_line
extra_lines [] = []
extra_lines ((name, value) ∷ headers) = field_line name value ++ extra_lines headers

-- The message that `inject` builds; `date` is the printed time.
unfoldable pub build_message : InjectRequest → Text → Text
unfolding field_line join_comma extra_lines
build_message req date =
    field_line (codes "From") req.from
    ++ field_line (codes "To") (join_comma req.to)
    ++ field_line (codes "Date") date
    ++ (elim req.subject [ none ↦ [] | some subject ↦ field_line (codes "Subject") subject ])
    ++ (elim req.headers [ none ↦ [] | some headers ↦ extra_lines headers ])
    ++ codes "\r\n"
    ++ req.body
    ++ codes "\r\n"

add_recipients : Envelope → List Text → Envelope
unfolding add_recipient
add_recipients e [] = e
add_recipients e (rcpt ∷ recipients) = add_recipients (add_recipient e rcpt) recipients

-- The envelope that a request is spooled with.
unfoldable pub envelope_for : Effects → Text → List Text → ℕ → Envelope
unfolding Envelope.new stamp set_sender add_recipients
envelope_for fx sender recipients priority =
    let e = set_sender (stamp (Envelope.new fx.now) (generate_queue_id fx.uuid) fx.now) sender [] in
    record (add_recipients e recipients) { priority = priority }

module _ (encode : Envelope → Option (List ℕ)) (decode : List ℕ → Option Envelope)
    (lossy : List ℕ → Text) (date : ℕ → Text) where
  enriched : Config → Effects → Envelope → ParsedMessage → List ℕ
  enriched config fx e m = to_bytes (
      prepend_received (ensure_message_id m fx.message_uuid fx.now config.hostname)
        (received_header date e config.hostname))

  answer : Effects → Text → DiskSpool × Bool → DiskSpool × Result ErrorResponse Text
  answer fx queue_id (disk, true) = (disk, ok queue_id)
  answer fx queue_id (disk, false) = (
    disk,
    err (record {
      status = 500;
      error = codes "failed to spool message: " ++ fx.reason;
      details = none;
    }),
  )

  -- The changed spool, and the queue id or an error.
  unfoldable pub process_and_spool :
      Config
      → Effects
      → DiskSpool
      → List ℕ
      → Text
      → List Text
      → ℕ
      → DiskSpool × Result ErrorResponse Text
  unfolding enriched answer display_message_error
  process_and_spool config fx disk raw_bytes sender recipients priority =
      let e = envelope_for fx sender recipients priority in
      if ltb config.max_message_size (length raw_bytes)
      then (
        disk,
        err (record {
          status = 413;
          error =
              codes "message size "
              ++ decimal (length raw_bytes)
              ++ codes " exceeds maximum "
              ++ decimal config.max_message_size;
          details = none;
        }),
      )
      else elim (parse lossy raw_bytes) [
        | err errors ↦ (
          disk,
          err (record {
            status = 400;
            error = codes "message validation failed";
            details = some (map display_message_error errors);
          }),
        )
        | ok m ↦ answer fx e.id (store encode decode disk fx.fault e (enriched config fx e m))
      ]

  -- Each `?` of a handler returns its error and leaves the spool.
  unless_error :
      DiskSpool
      → Result ErrorResponse (Unit {0})
      → DiskSpool × Result ErrorResponse Text
      → DiskSpool × Result ErrorResponse Text
  unless_error disk (err e) rest = (disk, err e)
  unless_error disk (ok u) rest = rest

  unfoldable pub inject_raw :
      Config → Effects → DiskSpool → InjectRawRequest → DiskSpool × Result ErrorResponse Text
  unfolding unless_error check_address
  inject_raw config fx disk req =
      unless_error disk
        (if not (is_empty req.sender)
          then check_address (codes "invalid sender address: ") req.sender
          else ok tt)
        (unless_error disk (validate_recipients req.recipients config.max_recipients)
          (process_and_spool config fx disk (as_bytes req.raw_message) req.sender req.recipients 1))

  unfoldable pub inject :
      Config → Effects → DiskSpool → InjectRequest → DiskSpool × Result ErrorResponse Text
  unfolding unless_error check_address bad_request
  inject config fx disk req =
      unless_error disk
        (if is_empty req.from
          then err (bad_request (codes "sender (from) is required"))
          else check_address (codes "invalid sender address: ") req.from)
        (unless_error disk (validate_recipients req.to config.max_recipients) (
          process_and_spool config fx disk (as_bytes (build_message req (date fx.now))) req.from
            req.to (over req.priority 1)))
