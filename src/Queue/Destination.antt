-- ===== src/Queue/Destination.antt =====
-- `QueuedMessage` and `DestinationQueue` of src/queue/manager.rs. Times are nanoseconds on the
-- monotonic clock, and the present time is an argument. Counters are u32.
pub mod Pick
use Prim.Native.Nat.{ℕ, zero, suc, ◌+◌, ◌-◌, ◌%◌}
use mathlib.Core.Bool.{Bool, true, false}
use mathlib.Core.Option.{Option, none, some}
use mathlib.Core.List.{List, [], ◌∷◌, ◌++◌}
use my_mta.Prelude.{ltb, leb, if◌then◌else◌}
use my_mta.Prelude.Text.{Text}
use my_mta.Queue.Retry.{Floats, RetrySchedule, u32_mod, delay_for_attempt, should_give_up}

pub record QueuedMessage : Type 0 where
  pub queue_id : Text
  pub attempt : ℕ
  pub next_retry_at : Option ℕ
  pub priority : ℕ

pub record DestinationQueue : Type 0 where
  pub domain : Text
  pub pending : List QueuedMessage
  pub in_flight : ℕ
  pub concurrency_limit : ℕ

unfoldable pub new : Text → ℕ → DestinationQueue
new domain concurrency_limit = record {
  domain = domain;
  pending = [];
  in_flight = 0;
  concurrency_limit = concurrency_limit;
}

unfoldable pub can_send_now : DestinationQueue → Bool
can_send_now q = ltb q.in_flight q.concurrency_limit

-- `saturating_sub`
unfoldable pub available_slots : DestinationQueue → ℕ
available_slots q = q.concurrency_limit - q.in_flight

unfoldable pub enqueue : DestinationQueue → Text → ℕ → DestinationQueue
enqueue q queue_id priority = record q {
  pending =
      q.pending
      ++ (record { queue_id = queue_id; attempt = 0; next_retry_at = none; priority = priority })
        ∷ [];
}

unfoldable pub is_ready : ℕ → QueuedMessage → Bool
is_ready now m = elim m.next_retry_at [ none ↦ true | some t ↦ leb t now ]

-- `iter().enumerate().filter(..)`; `i` is the index of the first message.
candidates : ℕ → ℕ → List QueuedMessage → List (ℕ × QueuedMessage)
candidates now i [] = []
candidates now i (m ∷ ms) =
    if is_ready now m then (i, m) ∷ candidates now (suc i) ms else candidates now (suc i) ms

-- `min_by_key`: the first of the least.
min_from : ℕ × QueuedMessage → List (ℕ × QueuedMessage) → ℕ × QueuedMessage
min_from best [] = best
min_from best (c ∷ cs) = min_from (if ltb c.1.priority best.1.priority then c else best) cs

min_by_priority : List (ℕ × QueuedMessage) → Option (ℕ × QueuedMessage)
unfolding min_from
min_by_priority [] = none
min_by_priority (c ∷ cs) = some (min_from c cs)

remove_at : ℕ → List QueuedMessage → List QueuedMessage
remove_at i [] = []
remove_at zero (m ∷ ms) = ms
remove_at (suc i) (m ∷ ms) = m ∷ remove_at i ms

started : DestinationQueue → Option (ℕ × QueuedMessage) → Option (QueuedMessage × DestinationQueue)
unfolding remove_at
started q none = none
started q (some (i, m)) =
    some (m, record q { pending = remove_at i q.pending; in_flight = (q.in_flight + 1) % u32_mod })

unfoldable pub start_delivery : ℕ → DestinationQueue → Option (QueuedMessage × DestinationQueue)
unfolding candidates min_by_priority started is_ready
start_delivery now q = started q (min_by_priority (candidates now 0 q.pending))

unfoldable pub release : DestinationQueue → DestinationQueue
release q = if ltb 0 q.in_flight then record q { in_flight = q.in_flight - 1 } else q

unfoldable pub on_success : DestinationQueue → DestinationQueue
unfolding release
on_success q = release q

module _ (floats : Floats) where
  requeue : DestinationQueue → QueuedMessage → ℕ → Option ℕ → Option DestinationQueue
  requeue q m now none = none
  requeue q m now (some delay) =
      some
        (record q { pending = q.pending ++ (record m { next_retry_at = some (now + delay) }) ∷ [] })

  -- `none` is the panic of a delay that no `Duration` can hold.
  unfoldable pub on_failure :
      DestinationQueue → QueuedMessage → RetrySchedule floats → ℕ → Option DestinationQueue
  unfolding release requeue
  on_failure q m schedule now =
      let q' = release q in
      let m' = record m { attempt = (m.attempt + 1) % u32_mod } in
      if should_give_up floats schedule m'.attempt
      then some q'
      else requeue q' m' now (delay_for_attempt floats schedule m'.attempt)
