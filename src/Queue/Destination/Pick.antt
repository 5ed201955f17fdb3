-- ===== src/Queue/Destination/Pick.antt =====
-- `start_delivery` takes the first of the most urgent messages that are ready.
use Prim.Native.Nat.{ℕ, suc, ◌+◌, ◌≤◌, ◌<◌, ◌%◌}
use mathlib.Core.Path.{◌≡◌, refl, sym, ap, subst, ◌∙◌}
use mathlib.Core.Logic.{inl, inr}
use mathlib.Core.Bool.{true, false}
use mathlib.Core.Option.{Option, none, some}
use mathlib.Core.List.{List, [], ◌∷◌, ◌++◌, append_assoc, append-nil}
use native.Mathlib.Omega.{arith}
use my_mta.Prelude.{ltb, length, length-append, All, All-append, Bool-cases}
use my_mta.Queue.Retry.{u32_mod}
use my_mta.Queue.Destination.{
  QueuedMessage, DestinationQueue, is_ready, candidates, min_from, min_by_priority, remove_at,
  started, start_delivery,
}

-- Ready messages of the list are less urgent than `m`.
abbrev pub Later : ℕ → QueuedMessage → List QueuedMessage → Type 0
Later now m = All (λ x. is_ready now x ≡ true → m.priority < x.priority)

-- Ready messages of the list are not more urgent than `m`.
abbrev pub NotSooner : ℕ → QueuedMessage → List QueuedMessage → Type 0
NotSooner now m = All (λ x. is_ready now x ≡ true → m.priority ≤ x.priority)

-- `m` stands between `front` and `back` in the list, and is the one to take.
pub record Picked (now : ℕ) (ms : List QueuedMessage) (m : QueuedMessage)
    (front back : List QueuedMessage) : Type 0 where
  pub spelled : ms ≡ front ++ m ∷ back
  pub ready : is_ready now m ≡ true
  pub before : Later now m front
  pub after : NotSooner now m back

Later-NotSooner :
    (now : ℕ) (m x : QueuedMessage) (ms : List QueuedMessage)
    → x.priority < m.priority
    → NotSooner now m ms
    → Later now x ms
Later-NotSooner now m x [] lt h = tt
Later-NotSooner now m x (y ∷ ms) lt h =
    (λ ready. let le = h.0 ready in omega arith, Later-NotSooner now m x ms lt h.1)

Later-mono :
    (now : ℕ) (m x : QueuedMessage) (ms : List QueuedMessage)
    → x.priority < m.priority
    → Later now m ms
    → Later now x ms
Later-mono now m x [] lt h = tt
Later-mono now m x (y ∷ ms) lt h =
    (λ ready. let le = h.0 ready in omega arith, Later-mono now m x ms lt h.1)

-- The next message stays behind.
Picked-keep :
    (now : ℕ) (ms : List QueuedMessage) (m x : QueuedMessage) (front back : List QueuedMessage)
    → (is_ready now x ≡ true → m.priority ≤ x.priority)
    → Picked now ms m front back
    → Picked now (ms ++ x ∷ []) m front (back ++ x ∷ [])
Picked-keep now ms m x front back le p = record {
  spelled = ap (λ l. l ++ x ∷ []) p.spelled ∙ append_assoc front (m ∷ back) (x ∷ []);
  ready = p.ready;
  before = p.before;
  after = All-append _ back (x ∷ []) p.after (le, tt);
}

-- The next message is more urgent.
Picked-replace :
    (now : ℕ) (ms : List QueuedMessage) (m x : QueuedMessage) (front back : List QueuedMessage)
    → is_ready now x ≡ true
    → x.priority < m.priority
    → Picked now ms m front back
    → Picked now (ms ++ x ∷ []) x ms []
Picked-replace now ms m x front back ready lt p = record {
  spelled = refl;
  ready = ready;
  before = subst (Later now x) (sym p.spelled) (
      All-append _ front (m ∷ back) (Later-mono now m x front lt p.before)
        ((λ _. lt), Later-NotSooner now m x back lt p.after));
  after = tt;
}

-- What the loop has found: its best candidate, with the index of the place.
Best : ℕ → List QueuedMessage → ℕ × QueuedMessage → Type 0
Best now ms (i, m) =
    (front : List QueuedMessage) × (back : List QueuedMessage) × Picked now ms m front back
    × (i ≡ length front)

Best-keep :
    (now : ℕ) (ms : List QueuedMessage) (x : QueuedMessage) (best : ℕ × QueuedMessage)
    → (is_ready now x ≡ true → best.1.priority ≤ x.priority)
    → Best now ms best
    → Best now (ms ++ x ∷ []) best
unfolding Best
Best-keep now ms x (i, m) le (front, back, p, e) =
    (front, back ++ x ∷ [], Picked-keep now ms m x front back le p, e)

Best-replace :
    (now : ℕ) (ms : List QueuedMessage) (x : QueuedMessage) (best : ℕ × QueuedMessage)
    → is_ready now x ≡ true
    → x.priority < best.1.priority
    → Best now ms best
    → Best now (ms ++ x ∷ []) (length ms, x)
unfolding Best
Best-replace now ms x (i, m) ready lt (front, back, p, e) =
    (ms, [], Picked-replace now ms m x front back ready lt p, refl)

candidates_ready :
    (now i : ℕ) (x : QueuedMessage) (xs : List QueuedMessage)
    → is_ready now x ≡ true
    → candidates now i (x ∷ xs) ≡ (i, x) ∷ candidates now (suc i) xs
unfolding candidates
candidates_ready now i x xs e = rw e

candidates_waiting :
    (now i : ℕ) (x : QueuedMessage) (xs : List QueuedMessage)
    → is_ready now x ≡ false
    → candidates now i (x ∷ xs) ≡ candidates now (suc i) xs
unfolding candidates
candidates_waiting now i x xs e = rw e

min_from_first :
    (b c : ℕ × QueuedMessage) (cs : List (ℕ × QueuedMessage))
    → ltb c.1.priority b.1.priority ≡ true
    → min_from b (c ∷ cs) ≡ min_from c cs
unfolding min_from
min_from_first b c cs e = rw e

min_from_rest :
    (b c : ℕ × QueuedMessage) (cs : List (ℕ × QueuedMessage))
    → ltb c.1.priority b.1.priority ≡ false
    → min_from b (c ∷ cs) ≡ min_from b cs
unfolding min_from
min_from_rest b c cs e = rw e

length-snoc :
    (ms : List QueuedMessage) (x : QueuedMessage) → length (ms ++ x ∷ []) ≡ suc (length ms)
length-snoc ms x = omega (arith, length-append ms (x ∷ []))

-- The claim for one more message scanned is the claim for the longer list.
scanned :
    (now : ℕ) (ms : List QueuedMessage) (x : QueuedMessage) (xs : List QueuedMessage)
    (best : ℕ × QueuedMessage)
    → Best now ((ms ++ x ∷ []) ++ xs) (min_from best (candidates now (length (ms ++ x ∷ [])) xs))
    → Best now (ms ++ x ∷ xs) (min_from best (candidates now (suc (length ms)) xs))
scanned now ms x xs best h =
    subst (λ l. Best now l (min_from best (candidates now (suc (length ms)) xs)))
      (append_assoc ms (x ∷ []) xs)
      (subst (λ n. Best now ((ms ++ x ∷ []) ++ xs) (min_from best (candidates now n xs)))
        (length-snoc ms x) h)

min_from-Best :
    (now : ℕ) (ms xs : List QueuedMessage) (best : ℕ × QueuedMessage)
    → Best now ms best
    → Best now (ms ++ xs) (min_from best (candidates now (length ms) xs))
min_from-Best now ms [] best b = unfold candidates min_from in rw append-nil b
min_from-Best now ms (x ∷ xs) best b = elim (Bool-cases (is_ready now x)) [
  | inl ready ↦
      rw (candidates_ready now (length ms) x xs ready)
        (elim (Bool-cases (ltb x.priority best.1.priority)) [
          | inl less ↦ rw (min_from_first best (length ms, x) _ less) (
              scanned now ms x xs (length ms, x)
                (min_from-Best now (ms ++ x ∷ []) xs (length ms, x)
                  (Best-replace now ms x best ready (ground arith) b)))
          | inr more ↦ rw (min_from_rest best (length ms, x) _ more) (
              scanned now ms x xs best (
                min_from-Best now (ms ++ x ∷ []) xs best
                  (Best-keep now ms x best (λ _. ground arith) b)))
        ])
  | inr waiting ↦ rw (candidates_waiting now (length ms) x xs waiting) (
      scanned now ms x xs best
        (min_from-Best now (ms ++ x ∷ []) xs best (Best-keep now ms x best (λ r. cc) b)))
]

-- Nothing found yet: every message so far has to wait.
abbrev pub AllWaiting : ℕ → List QueuedMessage → Type 0
AllWaiting now = All (λ x. is_ready now x ≡ false)

AllWaiting-Later :
    (now : ℕ) (m : QueuedMessage) (ms : List QueuedMessage) → AllWaiting now ms → Later now m ms
AllWaiting-Later now m [] h = tt
AllWaiting-Later now m (x ∷ ms) h = ((λ r. cc (h.0, r)), AllWaiting-Later now m ms h.1)

-- The two outcomes of the search.
Found : ℕ → List QueuedMessage → Option (ℕ × QueuedMessage) → Type 0
Found now ms none = AllWaiting now ms
Found now ms (some best) = Best now ms best

min_by_priority-Found :
    (now : ℕ) (ms xs : List QueuedMessage)
    → AllWaiting now ms
    → Found now (ms ++ xs) (min_by_priority (candidates now (length ms) xs))
unfolding Found
min_by_priority-Found now ms [] h = unfold candidates min_by_priority in rw append-nil h
min_by_priority-Found now ms (x ∷ xs) h = elim (Bool-cases (is_ready now x)) [
  | inl ready ↦ rw (candidates_ready now (length ms) x xs ready) (
      unfold min_by_priority in
      scanned now ms x xs (length ms, x)
        (min_from-Best now (ms ++ x ∷ []) xs (length ms, x) (first_found ready)))
  | inr waiting ↦ rw (candidates_waiting now (length ms) x xs waiting) (
      subst (λ l. Found now l (min_by_priority (candidates now (suc (length ms)) xs)))
        (append_assoc ms (x ∷ []) xs)
        (subst (λ n. Found now ((ms ++ x ∷ []) ++ xs) (min_by_priority (candidates now n xs)))
          (length-snoc ms x)
          (min_by_priority-Found now (ms ++ x ∷ []) xs
            (All-append (λ y. is_ready now y ≡ false) ms (x ∷ []) h (waiting, tt)))))
]
  where
    first_found : is_ready now x ≡ true → Best now (ms ++ x ∷ []) (length ms, x)
    first_found ready =
        unfold Best in
        (
          ms,
          [],
          record {
            spelled = refl;
            ready = ready;
            before = AllWaiting-Later now x ms h;
            after = tt;
          },
          refl,
        )

remove_at-append :
    (front back : List QueuedMessage) (m : QueuedMessage)
    → remove_at (length front) (front ++ m ∷ back) ≡ front ++ back
unfolding remove_at
remove_at-append [] back m = refl
remove_at-append (x ∷ front) back m = ap (λ l. x ∷ l) (remove_at-append front back m)

-- The outcomes of `start_delivery`.
abbrev pub Starts : ℕ → DestinationQueue → Option (QueuedMessage × DestinationQueue) → Type 0
Starts now q none = AllWaiting now q.pending
Starts now q (some (m, q')) =
    (front : List QueuedMessage) × (back : List QueuedMessage) × Picked now q.pending m front back
    × (q' ≡ record q { pending = front ++ back; in_flight = (q.in_flight + 1) % u32_mod })

started-Starts :
    (now : ℕ) (q : DestinationQueue) (o : Option (ℕ × QueuedMessage))
    → Found now q.pending o
    → Starts now q (started q o)
unfolding Found Best started
started-Starts now q none h = h
started-Starts now q (some (i, m)) (front, back, p, e) = (
  front,
  back,
  p,
  ap (λ l. record q { pending = l; in_flight = (q.in_flight + 1) % u32_mod })
      (rw (e, p.spelled) (remove_at-append front back m)),
)

-- `start_delivery` fails only if no message is ready. Otherwise it takes one message out of its
-- place, leaves the others in their order, and counts one more delivery in flight; the message is
-- ready, no ready message is more urgent, and those as urgent stand behind it.
pub start_delivery-Starts : (now : ℕ) (q : DestinationQueue) → Starts now q (start_delivery now q)
unfolding start_delivery
start_delivery-Starts now q = started-Starts now q _ (min_by_priority-Found now [] q.pending tt)
