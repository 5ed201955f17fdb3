-- ===== src/Tests/Spool.antt =====
-- A spool of src/spool/disk.rs with one message.
use my_mta.Prelude.{ℕ, List, [], ◌∷◌, true, Option, none, some, ◌≡◌, refl, ok, if◌then◌else◌}
use mathlib.Core.Path.{subst}
use my_mta.Prelude.{◌==◌}
use my_mta.Prelude.Text.{codes, ◌=ₜ◌}
use my_mta.Prelude.Text.Laws.{Lacks}
use my_mta.Message
use my_mta.Message.Envelope.{Envelope}
use my_mta.Prelude.Text.{Text, rsplit_once}
use my_mta.Queue.Retry.{Floats, default_schedule}
use my_mta.Queue.Destination.{QueuedMessage}
use my_mta.Queue.Manager
use my_mta.Queue.Manager.{QueueManager, Destinations, get, extract_domain, enqueue}
use my_mta.Spool.Disk.Enqueued.{disk_spool, stored_is_enqueued}
use my_mta.Spool.Files.{read}
use my_mta.Spool.Disk.{DiskSpool, no_fault, rename_fails, file_name, store, read_parts, remove}
use my_mta.Spool.Disk.Atomic.{IsCodec, KeepsOrStores, store-KeepsOrStores, store_roundtrip}

abbrev envelope : Envelope
envelope = record (Message.Envelope.new 7) { id = codes "m1"; recipients = codes "c@d.com" ∷ [] }

abbrev json : List ℕ
json = codes "{m1}"

abbrev encode : Envelope → Option (List ℕ)
encode e = some json

abbrev decode : List ℕ → Option Envelope
decode bytes = some envelope

abbrev codec : IsCodec encode decode envelope
codec = record {
  reads = λ j e. refl;
  one_line = λ j e.
      let same : json ≡ j = cc in
      subst (Lacks (λ c. c == 10)) same (refl, (refl, (refl, (refl, tt))));
}

abbrev empty : DiskSpool
empty = record { files = []; tmp = [] }

store-KeepsOrStores_example :
    KeepsOrStores encode decode empty envelope
      (codes "hi")
      (store encode decode empty rename_fails envelope (codes "hi"))
      (codes "m1.msg")
store-KeepsOrStores_example =
    store-KeepsOrStores encode decode empty rename_fails envelope (codes "hi") (codes "m1.msg")

store_roundtrip_example :
    let after = store encode decode empty no_fault envelope (codes "hi") in
    (after.1 ≡ true)
    × (read_parts encode decode after.0 envelope.id ≡ ok (envelope, codes "hi"))
    × (read (file_name envelope.id) (remove after.0 true envelope.id).files ≡ none)
store_roundtrip_example = store_roundtrip encode decode empty envelope json (codes "hi") codec refl

abbrev floats : Floats
floats = record { F64 = ℕ; scaled = λ initial multiplier k. some initial }

abbrev two : ℕ
two = 2

abbrev same_text : Text → Text
same_text t = t

abbrev manager : QueueManager same_text floats (disk_spool encode decode)
manager =
    Manager.new same_text floats (disk_spool encode decode) empty 2 (default_schedule floats two)

stored_is_enqueued_example :
    let disk = (store encode decode manager.files no_fault envelope (codes "hi")).0 in
    let message : QueuedMessage = record {
      queue_id = codes "m1";
      attempt = 0;
      next_retry_at = none;
      priority = 1;
    } in
    (ds : Destinations) × (enqueue same_text floats
        (disk_spool encode decode)
        (record manager { files = disk })
        envelope.id
      ≡ some (record manager { files = disk; destinations = ds }))
    × ((asked : Text)
        → get asked ds ≡ (
            if codes "d.com" =ₜ asked
            then some (record {
              domain = codes "d.com";
              pending = message ∷ [];
              in_flight = 0;
              concurrency_limit = 2;
            })
            else none))
unfolding extract_domain rsplit_once Manager.new get Message.Envelope.new
stored_is_enqueued_example =
    stored_is_enqueued encode decode same_text floats manager envelope (codes "c@d.com")
      (codes "d.com") [] json (codes "hi") codec refl refl refl
