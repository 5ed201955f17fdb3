-- ===== src/Queue/Manager/Retries.antt =====
-- What becomes of a message whose delivery failed.
use Prim.Native.Nat.{ℕ, ◌≤◌}
use mathlib.Core.Path.{◌≡◌}
use mathlib.Core.Option.{some}
use mathlib.Core.List.{[], ◌∷◌, ◌++◌}
use native.Mathlib.Omega.{arith}
use native.Mathlib.Nat.{add-zero}
use my_mta.Prelude.Text.{Text}
use my_mta.Queue.Retry.{Floats, RetrySchedule, should_give_up, delay_for_attempt}
use my_mta.Queue.Destination.{QueuedMessage, DestinationQueue, on_failure, release}
use my_mta.Queue.Manager.{Spool, QueueManager, get, update, on_delivery_failure, rebuilt}

-- The message that a failed delivery puts back.
abbrev pub put_back : Text → ℕ → QueuedMessage
put_back id now = record { queue_id = id; attempt = 1; next_retry_at = some now; priority = 1 }

module _ (lower : Text → Text) (floats : Floats) (spool : Spool) where
  rebuilt_failure :
      (q : DestinationQueue) (id : Text) (r : RetrySchedule floats) (now : ℕ)
      → 2 ≤ r.max_attempts
      → on_failure floats q (rebuilt lower floats spool id) r now
        ≡ some (record (release q) { pending = q.pending ++ put_back id now ∷ [] })
  unfolding on_failure should_give_up delay_for_attempt rebuilt
  rebuilt_failure q id r now two = ground (arith, add-zero now)

  -- Where the schedule allows two attempts and the domain has a queue, a failed delivery puts the
  -- message back as if it were its first failure, whatever attempts it has had: due at once, and
  -- with normal priority.
  pub failure_forgets_attempts :
      (qm : QueueManager lower floats spool) (now : ℕ) (id domain : Text) (q : DestinationQueue)
      → 2 ≤ qm.retry_schedule.max_attempts
      → get domain qm.destinations ≡ some q
      → on_delivery_failure lower floats spool now qm id domain
        ≡ some (record qm {
          destinations =
              update domain
                (λ _. record (release q) { pending = q.pending ++ put_back id now ∷ [] })
                qm.destinations;
        })
  unfolding on_delivery_failure
  failure_forgets_attempts qm now id domain q two found =
      rw (found, rebuilt_failure q id qm.retry_schedule now two, on_delivery_failure)
