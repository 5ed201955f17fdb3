-- ===== src/Tests/Http.antt =====
-- Two requests to src/http/api.rs.
use my_mta.Prelude.{ℕ, List, [], ◌∷◌, Option, none, some}
use my_mta.Prelude.Text.{Text, codes, as_bytes}
use my_mta.Message
use my_mta.Message.Envelope.{Envelope}
use my_mta.Spool.Disk.{DiskSpool, no_fault}
use my_mta.Http.Api.{Config, Effects, InjectRequest, InjectRawRequest, inject, inject_raw}
use my_mta.Http.Api.Injection.{Injects, InjectsFields, inject_raw-Injects, inject-Injects}

abbrev encode : Envelope → Option (List ℕ)
encode e = some (codes "{}")

abbrev decode : List ℕ → Option Envelope
decode bytes = some (Message.Envelope.new 7)

abbrev ascii : List ℕ → Text
ascii bytes = bytes

abbrev no_date : ℕ → Text
no_date now = codes "Mon, 01 Jan 2024 00:00:00 +0000"

abbrev config : Config
config = record { hostname = codes "mx"; max_message_size = 1000; max_recipients = 10 }

abbrev effects : Effects
effects = record {
  uuid = 1 ∷ 2 ∷ 3 ∷ 4 ∷ 5 ∷ 6 ∷ [];
  now = 7;
  message_uuid = codes "u";
  fault = no_fault;
  reason = [];
}

abbrev empty : DiskSpool
empty = record { files = []; tmp = [] }

abbrev raw_request : InjectRawRequest
raw_request = record {
  sender = codes "a@b.com";
  recipients = codes "c@d.com" ∷ [];
  raw_message = codes "From: a@b.com\r\nDate: today\r\n\r\nHello\r\n";
}

abbrev request : InjectRequest
request = record {
  from = codes "a@b.com";
  to = codes "c@d.com" ∷ [];
  subject = some (codes "Hi");
  body = codes "Hello";
  headers = none;
  priority = none;
}

inject_raw-Injects_example :
    Injects encode decode ascii no_date config effects empty
      (codes "a@b.com")
      (codes "c@d.com" ∷ [])
      (as_bytes raw_request.raw_message)
      1
      (inject_raw encode decode ascii no_date config effects empty raw_request)
inject_raw-Injects_example =
    inject_raw-Injects encode decode ascii no_date config effects empty raw_request

inject-Injects_example :
    InjectsFields encode decode ascii no_date config effects empty request
      (inject encode decode ascii no_date config effects empty request)
inject-Injects_example = inject-Injects encode decode ascii no_date config effects empty request
