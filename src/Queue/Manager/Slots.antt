-- ===== src/Queue/Manager/Slots.antt =====
-- Which message is handed out, and the concurrency limit of every destination.
use Prim.Native.Nat.{ℕ}
use mathlib.Core.Path.{◌≡◌, refl, ap, subst}
use mathlib.Core.Logic.{◌⊎◌, inl, inr}
use mathlib.Core.Bool.{true, false}
use mathlib.Core.Option.{Option, none, some}
use mathlib.Core.List.{[], ◌∷◌, ◌++◌}
use native.Mathlib.Omega.{arith}
use my_mta.Prelude.{All, Bool-cases, Option-cases}
use my_mta.Prelude.Text.{Text}
use my_mta.Queue.Destination.{QueuedMessage, DestinationQueue, can_send_now, start_delivery}
use my_mta.Queue.Destination.Pick.{AllWaiting, Starts, start_delivery-Starts}
use my_mta.Queue.Manager.{Destinations, offer, next_in}

-- A queue that can start nothing now.
abbrev pub IsBlocked : ℕ → DestinationQueue → Type 0
IsBlocked now q = (can_send_now q ≡ false) ⊎ AllWaiting now q.pending

-- The outcomes of the search through the destinations.
abbrev pub Next : ℕ → Destinations → Option ((Text × Text) × Destinations) → Type 0
Next now ds none = All (λ e. IsBlocked now e.1) ds
Next now ds (some ((queue_id, domain), ds')) =
    (front : Destinations) × (back : Destinations) × (q : DestinationQueue)
    × (q' : DestinationQueue) × (m : QueuedMessage) × (ds ≡ front ++ (domain, q) ∷ back)
    × (ds' ≡ front ++ (domain, q') ∷ back)
    × (can_send_now q ≡ true)
    × (start_delivery now q ≡ some (m, q'))
    × (queue_id ≡ m.queue_id)
    × All (λ e. IsBlocked now e.1) front

offer-none : (now : ℕ) (q : DestinationQueue) → offer now q ≡ none → IsBlocked now q
unfolding offer
offer-none now q e = elim (Bool-cases (can_send_now q)) [
  | inl can ↦ inr (subst (Starts now q) (rw can at e) (start_delivery-Starts now q))
  | inr full ↦ inl full
]

offer-some :
    (now : ℕ) (q q' : DestinationQueue) (m : QueuedMessage)
    → offer now q ≡ some (m, q')
    → (can_send_now q ≡ true) × (start_delivery now q ≡ some (m, q'))
unfolding offer
offer-some now q q' m e = ground arith

Next-skip :
    (now : ℕ) (d : Text) (q : DestinationQueue) (ds : Destinations)
    (o : Option ((Text × Text) × Destinations))
    → IsBlocked now q
    → Next now ds o
    → Next now
        ((d, q) ∷ ds)
        (elim o [ some (found, rest) ↦ some (found, (d, q) ∷ rest) | none ↦ none ])
Next-skip now d q ds none b h = (b, h)
Next-skip now d q ds (some ((id, dom), ds')) b (front, back, p, p', m, e, e', can, st, eid, bs) = (
  (d, q) ∷ front,
  back,
  p,
  p',
  m,
  ap (λ l. (d, q) ∷ l) e,
  ap (λ l. (d, q) ∷ l) e',
  can,
  st,
  eid,
  (b, bs),
)

-- `next_for_delivery` gives nothing only if every destination is at its limit or has no ready
-- message. Otherwise it gives the message that `start_delivery` takes from one destination below its
-- limit, before which all destinations are blocked, and it changes only that destination.
pub next_in-Next : (now : ℕ) (ds : Destinations) → Next now ds (next_in now ds)
unfolding next_in
next_in-Next now [] = tt
next_in-Next now ((d, q) ∷ ds) = elim (Option-cases (offer now q)) [
  | inl e ↦
      rw (e, next_in)
        (Next-skip now d q ds (next_in now ds) (offer-none now q e) (next_in-Next now ds))
  | inr ((m, q'), e) ↦
      let (can, st) = offer-some now q q' m e in
      rw (e, next_in) ([], ds, q, q', m, refl, refl, can, st, refl, tt)
]
