-- ===== src/Tests/Queue.antt =====
-- Queues of src/queue/manager.rs with two messages.
use Prim.Native.Nat.{ℕ, ◌*◌, ◌^◌}
use mathlib.Core.Path.{◌≡◌, refl}
use mathlib.Core.Option.{some, none}
use mathlib.Core.List.{List, [], ◌∷◌, ◌++◌}
use native.Mathlib.Omega.{arith}
use my_mta.Prelude.Text.{Text, codes, ◌=ₜ◌, rsplit_once}
use my_mta.Message.Envelope.{Envelope}
use my_mta.Message
use my_mta.Queue.Retry.{Floats, RetrySchedule}
use my_mta.Queue.Destination.{QueuedMessage, DestinationQueue, start_delivery, release}
use my_mta.Queue.Destination.Pick.{Starts, start_delivery-Starts}
use my_mta.Queue.Manager.{
  Spool, Destinations, QueueManager, next_in, on_delivery_failure, update, enqueue, entry, get,
}
use my_mta.Queue.Manager
use my_mta.Queue.Destination
use my_mta.Queue.Manager.Slots.{Next, next_in-Next}
use my_mta.Queue.Manager.Limits.{Step, Reach, IsSafe, new-IsSafe}
use my_mta.Queue.Manager.Retries.{put_back, failure_forgets_attempts}

abbrev message : Text → ℕ → QueuedMessage
message id priority = record {
  queue_id = id;
  attempt = 0;
  next_retry_at = none;
  priority = priority;
}

abbrev queue : DestinationQueue
queue = record {
  domain = codes "b.com";
  pending = message (codes "m1") 1 ∷ message (codes "m2") 0 ∷ [];
  in_flight = 0;
  concurrency_limit = 2;
}

abbrev destinations : Destinations
destinations = (codes "b.com", queue) ∷ []

-- A multiplier of two, in whole numbers.
abbrev doubling : Floats
doubling = record { F64 = ℕ; scaled = λ initial multiplier k. some (initial * multiplier ^ k) }

abbrev two : ℕ
two = 2

abbrev schedule : RetrySchedule doubling
schedule = record {
  initial_delay = 60;
  backoff_multiplier = two;
  max_delay = 3600;
  max_attempts = 10;
}

abbrev envelope : Envelope
envelope = record (Message.Envelope.new 0) { recipients = codes "c@b.com" ∷ [] }

abbrev files : Spool
files = record { State = List Text; read_envelope = λ s id. some envelope; remove = λ s id. [] }

abbrev same_text : Text → Text
same_text t = t

abbrev empty_manager : QueueManager same_text doubling files
empty_manager = Manager.new same_text doubling files [] 2 schedule

abbrev manager : QueueManager same_text doubling files
manager = record empty_manager { destinations = destinations }

start_delivery-Starts_example : Starts 5 queue (start_delivery 5 queue)
start_delivery-Starts_example = start_delivery-Starts 5 queue

next_in-Next_example : Next 5 destinations (next_in 5 destinations)
next_in-Next_example = next_in-Next 5 destinations

new-IsSafe_example : IsSafe same_text doubling files (record empty_manager {
  destinations = (codes "b.com", record queue { pending = message (codes "m1") 1 ∷ [] }) ∷ [];
})
unfolding Manager.new enqueue Message.Envelope.new entry rsplit_once Destination.enqueue
    Destination.new
new-IsSafe_example =
    new-IsSafe same_text doubling files [] 2 schedule _ (omega arith)
      (Reach.next Reach.here (Step.enqueues (codes "m1") refl))

failure_forgets_attempts_example :
    on_delivery_failure same_text doubling files 5 manager (codes "m9") (codes "b.com")
    ≡ some (record manager {
      destinations =
          update
            (codes "b.com")
            (λ _. record (release queue) {
              pending = queue.pending ++ put_back (codes "m9") 5 ∷ [];
            })
            manager.destinations;
    })
unfolding Manager.new get ◌=ₜ◌
failure_forgets_attempts_example =
    failure_forgets_attempts same_text doubling files manager 5 (codes "m9") (codes "b.com") queue
      (omega arith) refl
