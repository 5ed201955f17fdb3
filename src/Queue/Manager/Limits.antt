-- ===== src/Queue/Manager/Limits.antt =====
-- The concurrency limit of every destination holds after any calls.
use Prim.Native.Nat.{ℕ, ◌≤◌, ◌<◌}
use mathlib.Core.Path.{◌≡◌, subst}
use mathlib.Core.Logic.{inl, inr}
use mathlib.Core.Bool.{true}
use mathlib.Core.Option.{Option, none, some}
use mathlib.Core.List.{[], ◌∷◌, ◌++◌}
use native.Mathlib.Omega.{arith}
use my_mta.Prelude.{All, Bool-cases, Option-cases}
use my_mta.Prelude.Text.{Text, ◌=ₜ◌}
use my_mta.Queue.Retry.{Floats, RetrySchedule, u32_mod}
use my_mta.Queue.Destination
use my_mta.Queue.Destination.{
  QueuedMessage, DestinationQueue, can_send_now, start_delivery, on_success, on_failure,
}
use my_mta.Queue.Destination.Pick.{Starts, start_delivery-Starts}
use my_mta.Queue.Manager.{
  Spool, Destinations, QueueManager, update, get, entry, next_in, next_for_delivery, enqueue,
  on_delivery_success, on_delivery_failure, with_destinations, enqueue_in, envelope_domain, new,
  rebuilt,
}
use my_mta.Queue.Manager.Slots.{Next, next_in-Next}

-- Not more deliveries in flight than the limit, which is a u32.
pub record IsWithin (q : DestinationQueue) : Type 0 where
  pub within : q.in_flight ≤ q.concurrency_limit
  pub word : q.concurrency_limit < u32_mod

abbrev pub AllWithin : Destinations → Type 0
AllWithin = All (λ e. IsWithin e.1)

start-IsWithin :
    (now : ℕ) (q q' : DestinationQueue) (m : QueuedMessage)
    → can_send_now q ≡ true
    → start_delivery now q ≡ some (m, q')
    → IsWithin q
    → IsWithin q'
start-IsWithin now q q' m can st w =
    let (front, back, p, e) = subst (Starts now q) st (start_delivery-Starts now q) in
    rw e (record { within = unfold can_send_now in ground arith; word = w.word })

on_success-IsWithin : (q : DestinationQueue) → IsWithin q → IsWithin (on_success q)
unfolding on_success
on_success-IsWithin q w = ground arith

on_failure-IsWithin :
    (floats : Floats) (q q' : DestinationQueue) (m : QueuedMessage) (r : RetrySchedule floats)
    (now : ℕ)
    → on_failure floats q m r now ≡ some q'
    → IsWithin q
    → IsWithin q'
unfolding on_failure
on_failure-IsWithin floats q q' m r now e w = ground arith

update-AllWithin :
    (domain : Text) (f : DestinationQueue → DestinationQueue) (ds : Destinations)
    → ((q : DestinationQueue) → IsWithin q → IsWithin (f q))
    → AllWithin ds
    → AllWithin (update domain f ds)
unfolding update
update-AllWithin domain f [] keeps w = tt
update-AllWithin domain f ((d, q) ∷ ds) keeps w = elim (Bool-cases (d =ₜ domain)) [
  | inl e ↦ rw e (keeps q w.0, w.1)
  | inr e ↦ rw e (w.0, update-AllWithin domain f ds keeps w.1)
]

entry-AllWithin :
    (domain : Text) (fresh : DestinationQueue) (f : DestinationQueue → DestinationQueue)
    (ds : Destinations)
    → IsWithin fresh
    → ((q : DestinationQueue) → IsWithin q → IsWithin (f q))
    → AllWithin ds
    → AllWithin (entry domain fresh f ds)
unfolding entry
entry-AllWithin domain fresh f [] new_ok keeps w = (keeps fresh new_ok, tt)
entry-AllWithin domain fresh f ((d, q) ∷ ds) new_ok keeps w = elim (Bool-cases (d =ₜ domain)) [
  | inl e ↦ rw e (keeps q w.0, w.1)
  | inr e ↦ rw e (w.0, entry-AllWithin domain fresh f ds new_ok keeps w.1)
]

get-IsWithin :
    (domain : Text) (ds : Destinations) (q : DestinationQueue)
    → AllWithin ds
    → get domain ds ≡ some q
    → IsWithin q
unfolding get
get-IsWithin domain [] q w e = cc
get-IsWithin domain ((d, p) ∷ ds) q w e = elim (Bool-cases (d =ₜ domain)) [
  | inl hit ↦ let same : p ≡ q = cc (rw hit at e) in subst IsWithin same w.0
  | inr miss ↦ get-IsWithin domain ds q w.1 (rw miss at e)
]

-- A part of the list that is replaced by one that keeps the limits.
replace-AllWithin :
    (front back : Destinations) (d : Text) (q q' : DestinationQueue)
    → AllWithin (front ++ (d, q) ∷ back)
    → (IsWithin q → IsWithin q')
    → AllWithin (front ++ (d, q') ∷ back)
replace-AllWithin [] back d q q' w keeps = (keeps w.0, w.1)
replace-AllWithin (e ∷ front) back d q q' w keeps =
    (w.0, replace-AllWithin front back d q q' w.1 keeps)

next_in-AllWithin :
    (now : ℕ) (ds ds' : Destinations) (found : Text × Text)
    → next_in now ds ≡ some (found, ds')
    → AllWithin ds
    → AllWithin ds'
next_in-AllWithin now ds ds' (id, d) e w =
    let (front, back, q, q', m, spelled, spelled', can, st, eid, bs) =
      subst (Next now ds) e (next_in-Next now ds) in
    rw spelled'
      (replace-AllWithin front back d q q' (rw spelled at w) (start-IsWithin now q q' m can st))

fresh-IsWithin : (d : Text) (limit : ℕ) → limit < u32_mod → IsWithin (Destination.new d limit)
unfolding Destination.new
fresh-IsWithin d limit word = omega arith

enqueue-IsWithin :
    (id : Text) (priority : ℕ) (q : DestinationQueue)
    → IsWithin q
    → IsWithin (Destination.enqueue q id priority)
unfolding Destination.enqueue
enqueue-IsWithin id priority q w = record { within = w.within; word = w.word }

module _ (lower : Text → Text) (floats : Floats) (spool : Spool) where
  pub record IsSafe (qm : QueueManager lower floats spool) : Type 0 where
    pub queues : AllWithin qm.destinations
    pub word : qm.default_concurrency < u32_mod

  -- The calls that a manager can get, in any order, at any times.
  pub data Step (qm : QueueManager lower floats spool) (after : QueueManager lower floats spool)
      : Type 1 where
    enqueues : (id : Text) → enqueue lower floats spool qm id ≡ some after → Step qm after
    hands_out : (now : ℕ) → after ≡ (next_for_delivery lower floats spool now qm).1 → Step qm after
    succeeds :
        (id d : Text) → after ≡ on_delivery_success lower floats spool qm id d → Step qm after
    fails :
        (now : ℕ) (id d : Text)
        → on_delivery_failure lower floats spool now qm id d ≡ some after
        → Step qm after

  enqueued-IsSafe :
      (qm : QueueManager lower floats spool) (id : Text) (priority : ℕ) (d : Option Text)
      → IsSafe qm
      → IsSafe (enqueue_in lower floats spool qm id priority d)
  unfolding enqueue_in
  enqueued-IsSafe qm id priority none s = s
  enqueued-IsSafe qm id priority (some d) s = record {
    queues =
        entry-AllWithin d _ _ qm.destinations (fresh-IsWithin d qm.default_concurrency s.word)
          (enqueue-IsWithin id priority) s.queues;
    word = s.word;
  }

  handed_out-IsSafe :
      (now : ℕ) (qm : QueueManager lower floats spool)
      → IsSafe qm
      → IsSafe (next_for_delivery lower floats spool now qm).1
  unfolding next_for_delivery
  handed_out-IsSafe now qm s = elim (Option-cases (next_in now qm.destinations)) [
    | inl e ↦ rw (e, with_destinations) s
    | inr ((found, ds), e) ↦
        rw (e, with_destinations)
          (record {
            queues = next_in-AllWithin now qm.destinations ds found e s.queues;
            word = s.word;
          })
  ]

  succeeded-IsSafe :
      (qm : QueueManager lower floats spool) (id d : Text)
      → IsSafe qm
      → IsSafe (on_delivery_success lower floats spool qm id d)
  unfolding on_delivery_success
  succeeded-IsSafe qm id d s = record {
    queues = update-AllWithin d on_success qm.destinations on_success-IsWithin s.queues;
    word = s.word;
  }

  same-IsSafe :
      (qm after : QueueManager lower floats spool) → some qm ≡ some after → IsSafe qm → IsSafe after
  same-IsSafe qm after e s = let same : qm ≡ after = cc in subst IsSafe same s

  enqueue-IsSafe :
      (qm after : QueueManager lower floats spool) (id : Text)
      → enqueue lower floats spool qm id ≡ some after
      → IsSafe qm
      → IsSafe after
  unfolding enqueue
  enqueue-IsSafe qm after id e s = elim (Option-cases (spool.read_envelope qm.files id)) [
    | inl missing ↦ cc (rw (missing, enqueue) at e)
    | inr (env, found) ↦
        same-IsSafe _ after (rw (found, enqueue) at e)
          (enqueued-IsSafe qm id env.priority (envelope_domain lower env) s)
  ]

  failed-IsSafe :
      (now : ℕ) (qm after : QueueManager lower floats spool) (id d : Text)
      → on_delivery_failure lower floats spool now qm id d ≡ some after
      → IsSafe qm
      → IsSafe after
  unfolding on_delivery_failure
  failed-IsSafe now qm after id d e s = elim (Option-cases (get d qm.destinations)) [
    | inl missing ↦ same-IsSafe qm after (rw (missing, on_delivery_failure) at e) s
    | inr (q, found) ↦
        elim (Option-cases
          (on_failure floats q (rebuilt lower floats spool id) qm.retry_schedule now)) [
            | inl panics ↦ cc (rw (found, panics, on_delivery_failure) at e)
            | inr (q', fine) ↦
                same-IsSafe _ after (rw (found, fine, on_delivery_failure) at e) (record {
                  queues =
                      update-AllWithin d (λ _. q') qm.destinations
                        (λ p w.
                          on_failure-IsWithin floats q q' _ qm.retry_schedule now fine
                            (get-IsWithin d qm.destinations q s.queues found))
                        s.queues;
                  word = s.word;
                })
          ]
  ]

  Step-IsSafe :
      (qm after : QueueManager lower floats spool) → Step qm after → IsSafe qm → IsSafe after
  Step-IsSafe qm after (enqueues id e) s = enqueue-IsSafe qm after id e s
  Step-IsSafe qm after (hands_out now e) s = rw e (handed_out-IsSafe now qm s)
  Step-IsSafe qm after (succeeds id d e) s = rw e (succeeded-IsSafe qm id d s)
  Step-IsSafe qm after (fails now id d e) s = failed-IsSafe now qm after id d e s

  -- What a manager can become.
  pub data Reach (start : QueueManager lower floats spool)
      : QueueManager lower floats spool → Type 1 where
    here : Reach start start
    next :
        {qm after : QueueManager lower floats spool}
        → Reach start qm
        → Step qm after
        → Reach start after

  Reach-IsSafe :
      {start qm : QueueManager lower floats spool} → IsSafe start → Reach start qm → IsSafe qm
  Reach-IsSafe s here = s
  Reach-IsSafe s (next r st) = Step-IsSafe _ _ st (Reach-IsSafe s r)

  -- From a new manager whose default limit is a u32, whatever calls it gets, no destination ever
  -- has more deliveries in flight than its concurrency limit.
  pub new-IsSafe :
      (files : spool.State) (default_concurrency : ℕ) (schedule : RetrySchedule floats)
      (qm : QueueManager lower floats spool)
      → default_concurrency < u32_mod
      → Reach (new lower floats spool files default_concurrency schedule) qm
      → IsSafe qm
  new-IsSafe files default_concurrency schedule qm word r = Reach-IsSafe fresh r
    where
      fresh : IsSafe (new lower floats spool files default_concurrency schedule)
      fresh = unfold new in record { queues = tt; word = word }
