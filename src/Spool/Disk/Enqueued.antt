-- ===== src/Spool/Disk/Enqueued.antt =====
-- The spool of src/spool/disk.rs behind the queue manager of src/queue/manager.rs.
use my_mta.Prelude.{
  arith, ap, sym, ◌∙◌, [], Bool-cases, inl, inr, if◌then◌else◌, ℕ, List, ◌∷◌, true, Option, none,
  some, ◌++◌, ◌≡◌, refl, ok, err,
}
use my_mta.Prelude.Text.{Text, ◌=ₜ◌, =ₜ_iff}
use my_mta.Prelude.Text.Table.{distinct}
use my_mta.Message.Envelope.{Envelope}
use my_mta.Queue.Retry.{Floats}
use my_mta.Queue.Destination
use my_mta.Queue.Destination.{DestinationQueue, QueuedMessage}
use my_mta.Queue.Manager
use my_mta.Queue.Manager.{
  QueueManager, Destinations, get, entry, extract_domain, envelope_domain, enqueue,
}
use my_mta.Spool.Disk.{DiskSpool, no_fault, store, read_envelope, remove}
use my_mta.Spool.Disk.Atomic.{IsCodec, store_roundtrip}

-- The queue that a domain has, or else a new one.
abbrev pub queue_of : Text → DestinationQueue → Destinations → DestinationQueue
queue_of domain fresh ds = elim (get domain ds) [ none ↦ fresh | some q ↦ q ]

-- What the map has after a change of one queue: that queue changed, and the others as before.
get-entry :
    (domain asked : Text) (fresh : DestinationQueue) (f : DestinationQueue → DestinationQueue)
    (ds : Destinations)
    → get asked (entry domain fresh f ds)
      ≡ (if domain =ₜ asked then some (f (queue_of domain fresh ds)) else get asked ds)
unfolding get entry
get-entry domain asked fresh f [] = refl
get-entry domain asked fresh f ((d, q) ∷ ds) = elim (Bool-cases (d =ₜ domain)) [
  | inl e ↦
      let same : d ≡ domain = (=ₜ_iff d domain).0 e in
      rw (e, get) (ground (arith, ap (λ x. x =ₜ asked) same))
  | inr e ↦
      let found : get domain ((d, q) ∷ ds) ≡ get domain ds = rw (get, e) refl in
      let skip : queue_of domain fresh ((d, q) ∷ ds) ≡ queue_of domain fresh ds =
        ap {A = Option DestinationQueue} (λ o. elim o [ none ↦ fresh | some p ↦ p ]) found in
      rw e (
        ground (arith, get-entry domain asked fresh f ds, distinct d domain asked e)
        ∙ ap (λ p. if domain =ₜ asked then some (f p) else get asked ((d, q) ∷ ds)) (sym skip))
]

module _ (encode : Envelope → Option (List ℕ)) (decode : List ℕ → Option Envelope) where
  -- The manager's view of the disk; every removal works.
  abbrev pub disk_spool : Manager.Spool
  disk_spool = record {
    State = DiskSpool;
    read_envelope =
        λ d id. elim (read_envelope encode decode d id) [ err e ↦ none | ok e ↦ some e ];
    remove = λ d id. remove d true id;
  }

  -- Where the JSON of its envelope reads back and has no line feed, a message that is stored with no
  -- fault and then enqueued by its id waits, as the last and never tried, with the priority of its
  -- envelope, in the queue of its first recipient's domain, which is a new one with the default
  -- concurrency if the domain had none; every other queue, and the rest of the manager, is as before.
  pub stored_is_enqueued :
      (lower : Text → Text) (floats : Floats) (qm : QueueManager lower floats disk_spool)
      (e : Envelope) (rcpt domain : Text) (recipients : List Text) (json bytes : List ℕ)
      → IsCodec encode decode e
      → encode e ≡ some json
      → e.recipients ≡ rcpt ∷ recipients
      → extract_domain lower rcpt ≡ some domain
      → let disk = (store encode decode qm.files no_fault e bytes).0 in
        let fresh : DestinationQueue = record {
          domain = domain;
          pending = [];
          in_flight = 0;
          concurrency_limit = qm.default_concurrency;
        } in
        let old = queue_of domain fresh qm.destinations in
        let message : QueuedMessage = record {
          queue_id = e.id;
          attempt = 0;
          next_retry_at = none;
          priority = e.priority;
        } in
        (ds : Destinations) × (enqueue lower floats disk_spool (record qm { files = disk }) e.id
          ≡ some (record qm { files = disk; destinations = ds }))
        × ((asked : Text)
            → get asked ds ≡ (
                if domain =ₜ asked
                then some (record old { pending = old.pending ++ message ∷ [] })
                else get asked qm.destinations))
  unfolding enqueue read_envelope Destination.enqueue Destination.new
  stored_is_enqueued lower floats qm e rcpt domain recipients json bytes codec found first its =
      let (stored, readable, gone) =
        store_roundtrip encode decode qm.files e json bytes codec found in
      let there : envelope_domain lower e ≡ some domain = unfold envelope_domain in rw first its in
      (
        entry domain (Destination.new domain qm.default_concurrency)
            (λ q. Destination.enqueue q e.id e.priority) qm.destinations,
        rw (readable, enqueue, there) refl,
        λ asked. get-entry domain asked _ _ qm.destinations,
      )
