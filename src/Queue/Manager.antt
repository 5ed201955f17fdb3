-- ===== src/Queue/Manager.antt =====
-- `QueueManager` of src/queue/manager.rs. The map from domains to queues is a list; its order is the
-- order in which the source's `HashMap` is iterated, which Rust leaves open, so the theorems are
-- about every list. The locks make each method one step. The spool is reached through `Spool`.
pub mod Slots
pub mod Retries
pub mod Limits
use Prim.Native.Nat.{ℕ, ◌+◌, ◌%◌}
use mathlib.Core.Bool.{Bool, true, false}
use mathlib.Core.Option.{Option, none, some}
use mathlib.Core.List.{List, [], ◌∷◌, ◌++◌}
use my_mta.Prelude.{if◌then◌else◌, length}
use my_mta.Prelude.Text.{Text, ◌=ₜ◌, rsplit_once}
use my_mta.Message.Envelope.{Envelope}
use my_mta.Queue.Retry.{Floats, RetrySchedule, u32_mod}
use my_mta.Queue.Destination.{
  QueuedMessage, DestinationQueue, can_send_now, start_delivery, on_success, on_failure,
}
use my_mta.Queue.Destination

-- What the manager uses of the spool: `none` is an error of `read_envelope`. Errors of `remove` are
-- only logged.
pub record Spool : Type 1 where
  pub State : Type 0
  pub read_envelope : State → Text → Option Envelope
  pub remove : State → Text → State

abbrev pub Destinations : Type 0
Destinations = List (Text × DestinationQueue)

-- `get(domain)` and a change of the queue that is found.
unfoldable pub update : Text → (DestinationQueue → DestinationQueue) → Destinations → Destinations
update domain f [] = []
update domain f ((d, q) ∷ ds) = if d =ₜ domain then (d, f q) ∷ ds else (d, q) ∷ update domain f ds

unfoldable pub get : Text → Destinations → Option DestinationQueue
get domain [] = none
get domain ((d, q) ∷ ds) = if d =ₜ domain then some q else get domain ds

-- `entry(domain).or_insert_with(..)`, and a change of that queue.
unfoldable pub entry :
    Text → DestinationQueue → (DestinationQueue → DestinationQueue) → Destinations → Destinations
entry domain fresh f [] = (domain, f fresh) ∷ []
entry domain fresh f ((d, q) ∷ ds) =
    if d =ₜ domain then (d, f q) ∷ ds else (d, q) ∷ entry domain fresh f ds

offer : ℕ → DestinationQueue → Option (QueuedMessage × DestinationQueue)
offer now q = if can_send_now q then start_delivery now q else none

-- The loop of `next_for_delivery`: the first queue with a free slot and a ready message.
unfoldable pub next_in : ℕ → Destinations → Option ((Text × Text) × Destinations)
unfolding offer
next_in now [] = none
next_in now ((d, q) ∷ ds) = elim (offer now q) [
  | some (m, q') ↦ some ((m.queue_id, d), (d, q') ∷ ds)
  | none ↦ elim (next_in now ds) [ some (found, rest) ↦ some (found, (d, q) ∷ rest) | none ↦ none ]
]

after_at : Option (Text × Text) → Text → Text
after_at none addr = addr
after_at (some (local, domain)) addr = domain

-- `lower` is `str::to_lowercase`.
module _ (lower : Text → Text) where
  -- `rsplit('@').next()` always gives a part.
  unfoldable pub extract_domain : Text → Option Text
  unfolding after_at
  extract_domain addr = some (lower (after_at (rsplit_once b'@' addr) addr))

  first_domain : List Text → Option Text
  unfolding extract_domain
  first_domain [] = none
  first_domain (rcpt ∷ rcpts) = extract_domain rcpt

  unfoldable pub envelope_domain : Envelope → Option Text
  unfolding first_domain
  envelope_domain e = first_domain e.recipients

module _ (lower : Text → Text) (floats : Floats) (spool : Spool) where
  pub record QueueManager : Type 0 where
    pub destinations : Destinations
    pub default_concurrency : ℕ
    pub retry_schedule : RetrySchedule floats
    pub files : spool.State

  unfoldable pub new : spool.State → ℕ → RetrySchedule floats → QueueManager
  new files default_concurrency schedule = record {
    destinations = [];
    default_concurrency = default_concurrency;
    retry_schedule = schedule;
    files = files;
  }

  enqueue_to_domain : QueueManager → Text → Text → ℕ → QueueManager
  enqueue_to_domain qm queue_id domain priority = record qm {
    destinations =
        entry domain (Destination.new domain qm.default_concurrency)
          (λ q. Destination.enqueue q queue_id priority) qm.destinations;
  }

  enqueue_in : QueueManager → Text → ℕ → Option Text → QueueManager
  unfolding enqueue_to_domain
  enqueue_in qm queue_id priority none = qm
  enqueue_in qm queue_id priority (some domain) = enqueue_to_domain qm queue_id domain priority

  -- `none` is the error of the read.
  unfoldable pub enqueue : QueueManager → Text → Option QueueManager
  unfolding enqueue_in envelope_domain
  enqueue qm queue_id = elim (spool.read_envelope qm.files queue_id) [
    | none ↦ none
    | some e ↦ some (enqueue_in qm queue_id e.priority (envelope_domain lower e))
  ]

  with_destinations :
      QueueManager → Option ((Text × Text) × Destinations) → Option (Text × Text) × QueueManager
  with_destinations qm none = (none, qm)
  with_destinations qm (some (found, ds)) = (some found, record qm { destinations = ds })

  -- The message and its domain, and the manager behind the call.
  unfoldable pub next_for_delivery : ℕ → QueueManager → Option (Text × Text) × QueueManager
  unfolding with_destinations
  next_for_delivery now qm = with_destinations qm (next_in now qm.destinations)

  unfoldable pub on_delivery_success : QueueManager → Text → Text → QueueManager
  on_delivery_success qm queue_id domain = record qm {
    files = spool.remove qm.files queue_id;
    destinations = update domain on_success qm.destinations;
  }

  -- The message is made anew, for the delivery's own record of it is gone.
  rebuilt : Text → QueuedMessage
  rebuilt queue_id = record { queue_id = queue_id; attempt = 0; next_retry_at = none; priority = 1 }

  -- `none` is the panic of `on_failure`.
  unfoldable pub on_delivery_failure : ℕ → QueueManager → Text → Text → Option QueueManager
  unfolding rebuilt
  on_delivery_failure now qm queue_id domain = elim (get domain qm.destinations) [
    | none ↦ some qm
    | some q ↦ elim (on_failure floats q (rebuilt queue_id) qm.retry_schedule now) [
      | none ↦ none
      | some q' ↦ some (record qm { destinations = update domain (λ _. q') qm.destinations })
    ]
  ]

  sum_of : (DestinationQueue → ℕ) → Destinations → ℕ
  sum_of f [] = 0
  sum_of f ((d, q) ∷ ds) = f q + sum_of f ds

  unfoldable pub total_pending : QueueManager → ℕ
  unfolding sum_of
  total_pending qm = sum_of (λ q. length q.pending) qm.destinations

  -- A sum of u32.
  unfoldable pub total_in_flight : QueueManager → ℕ
  unfolding sum_of
  total_in_flight qm = sum_of (λ q. q.in_flight) qm.destinations % u32_mod
