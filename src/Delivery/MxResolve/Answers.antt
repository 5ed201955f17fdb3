-- ===== src/Delivery/MxResolve/Answers.antt =====
-- The outcomes of `resolve` of src/delivery/mx_resolve.rs.
use my_mta.Prelude.{
  ℕ, ◌≤◌, ◌<◌, ◌≡◌, refl, sym, ◌∙◌, arith, List, [], ◌∷◌, map, length, true, All, Bool-cases, inl,
  inr, if◌then◌else◌, is_empty, false, not, select, Bool, ap, leb, Result, ok, err, ◌==◌,
}
use my_mta.Prelude.Text.{Text, trim_end_matches}
use my_mta.Dns.Records.{IpAddr, MxRecord, MxResult}
use my_mta.Delivery.Error.{DeliveryError}
use my_mta.Delivery.MxResolve.{
  ResolvedDestination, MxResolver, is_resolved, insert, sort_by_preference, all_addresses,
  resolve_mx_exchange, resolve_fallback_a_aaaa, resolve_each, resolve, resolve_answer, unless_empty,
}

-- No record is before one that is preferred.
abbrev pub Sorted : List MxRecord → Type 0
Sorted [] = Unit {0}
Sorted (r ∷ rs) = All (λ q. r.preference ≤ q.preference) rs × Sorted rs

-- The records of one preference, in their order.
abbrev pub of_preference : ℕ → List MxRecord → List MxRecord
of_preference p records = select (λ r. r.preference == p) records

-- The same records with the preferred ones first, those of one preference in their order.
pub record IsOrdered (records ordered : List MxRecord) : Type 0 where
  pub sorted : Sorted ordered
  pub stable : (p : ℕ) → of_preference p ordered ≡ of_preference p records

insert-All :
    (p : ℕ) (r : MxRecord) (rs : List MxRecord)
    → p ≤ r.preference
    → All (λ q. p ≤ q.preference) rs
    → All (λ q. p ≤ q.preference) (insert r rs)
unfolding insert
insert-All p r [] h hs = (h, tt)
insert-All p r (q ∷ qs) h hs = ground (arith, insert-All p r qs h hs.1)

All-weaken :
    (p p' : ℕ) (rs : List MxRecord)
    → p ≤ p'
    → All (λ q. p' ≤ q.preference) rs
    → All (λ q. p ≤ q.preference) rs
All-weaken p p' [] h hs = tt
All-weaken p p' (r ∷ rs) h hs = (omega (arith, hs.0), All-weaken p p' rs h hs.1)

insert-Sorted : (r : MxRecord) (rs : List MxRecord) → Sorted rs → Sorted (insert r rs)
unfolding insert
insert-Sorted r [] s = (tt, tt)
insert-Sorted r (q ∷ qs) s = elim (Bool-cases (leb r.preference q.preference)) [
  | inl e ↦
      let le : r.preference ≤ q.preference = ground arith in
      rw e ((le, All-weaken r.preference q.preference qs le s.0), s)
  | inr e ↦
      let le : q.preference ≤ r.preference = ground arith in
      rw e (insert-All q.preference r qs le s.0, insert-Sorted r qs s.1)
]

sort-Sorted : (rs : List MxRecord) → Sorted (sort_by_preference rs)
unfolding sort_by_preference
sort-Sorted [] = tt
sort-Sorted (r ∷ rs) = insert-Sorted r _ (sort-Sorted rs)

of_preference-insert :
    (p : ℕ) (r : MxRecord) (rs : List MxRecord)
    → of_preference p (insert r rs) ≡ of_preference p (r ∷ rs)
unfolding insert
of_preference-insert p r [] = refl
of_preference-insert p r (q ∷ qs) = elim (Bool-cases (leb r.preference q.preference)) [
  | inl e ↦ rw e refl
  | inr e ↦ rw e (ground (arith, of_preference-insert p r qs))
]

of_preference-sort :
    (p : ℕ) (rs : List MxRecord) → of_preference p (sort_by_preference rs) ≡ of_preference p rs
unfolding sort_by_preference
of_preference-sort p [] = refl
of_preference-sort p (r ∷ rs) =
    of_preference-insert p r (sort_by_preference rs)
    ∙ ap (λ l. elim (r.preference == p) [ true ↦ r ∷ l | false ↦ l ]) (of_preference-sort p rs)

sort-IsOrdered : (rs : List MxRecord) → IsOrdered rs (sort_by_preference rs)
sort-IsOrdered rs = record { sorted = sort-Sorted rs; stable = λ p. of_preference-sort p rs }

kept :
    (b : Bool) (d : ResolvedDestination) (ds es : List ResolvedDestination)
    → ds ≡ es
    → (if b then d ∷ ds else ds) ≡ elim b [ true ↦ d ∷ es | false ↦ es ]
kept true d ds es h = ap (λ l. d ∷ l) h
kept false d ds es h = h

module _ (lower : Text → Text) (r : MxResolver) where
  -- The destination of an MX record of `domain`: its host, in lower case and without the dots at its
  -- end, with all addresses of that host.
  abbrev pub destination_of : Text → MxRecord → ResolvedDestination
  destination_of domain mx =
      let host = lower (trim_end_matches (λ c. c == 46) mx.exchange) in
      record {
        domain = domain;
        exchange = host;
        addresses = all_addresses lower r.resolver host;
        preference = mx.preference;
        port = r.port;
      }

  -- The domain itself as its host.
  abbrev pub implicit_destination : Text → ResolvedDestination
  implicit_destination domain = record {
    domain = domain;
    exchange = domain;
    addresses = all_addresses lower r.resolver domain;
    preference = 0;
    port = r.port;
  }

  abbrev pub has_address : ResolvedDestination → Bool
  has_address d = not (is_empty d.addresses)

  -- The result for the destinations that could be tried: those with an address, and a failure exactly
  -- if there are none.
  abbrev pub Gives :
      List ResolvedDestination → Result DeliveryError (List ResolvedDestination) → Type 0
  Gives ds (ok found) = (0 < length found) × (found ≡ select has_address ds)
  Gives ds (err e) = select has_address ds ≡ []

  -- What `resolve` gives for the answer to the MX query.
  abbrev pub Resolves : Text → MxResult → Result DeliveryError (List ResolvedDestination) → Type 0
  Resolves domain (MxResult.ok (mx ∷ records)) result =
      (ordered : List MxRecord) × IsOrdered (mx ∷ records) ordered
      × Gives (map (destination_of domain) ordered) result
  Resolves domain _ result = Gives (implicit_destination domain ∷ []) result

  resolve_each-select :
      (domain : Text) (records : List MxRecord)
      → resolve_each lower r domain records
        ≡ select has_address (map (destination_of domain) records)
  unfolding resolve_each resolve_mx_exchange is_resolved
  resolve_each-select domain [] = refl
  resolve_each-select domain (mx ∷ records) =
      kept (has_address (destination_of domain mx)) (destination_of domain mx) _ _
        (resolve_each-select domain records)

  unless_empty-Gives :
      (domain : Text) (found ds : List ResolvedDestination)
      → found ≡ select has_address ds
      → Gives ds (unless_empty lower domain found)
  unfolding unless_empty
  unless_empty-Gives domain [] ds e = sym e
  unless_empty-Gives domain (d ∷ found) ds e = (omega arith, e)

  alone_Gives :
      (d : ResolvedDestination) (ips : List IpAddr) (x : DeliveryError)
      → let dest = record d { addresses = ips } in
        Gives (dest ∷ []) (if is_empty ips then err x else ok (dest ∷ []))
  alone_Gives d [] x = refl
  alone_Gives d (ip ∷ ips) x = (omega arith, refl)

  fallback-Gives :
      (domain : Text)
      → Gives (implicit_destination domain ∷ []) (resolve_fallback_a_aaaa lower r domain)
  unfolding resolve_fallback_a_aaaa
  fallback-Gives domain =
      alone_Gives (implicit_destination domain) (all_addresses lower r.resolver domain) _

  answer-Resolves :
      (domain : Text) (answer : MxResult)
      → Resolves domain answer (resolve_answer lower r domain answer)
  unfolding resolve_answer
  answer-Resolves domain (MxResult.ok []) = fallback-Gives domain
  answer-Resolves domain (MxResult.err e) = fallback-Gives domain
  answer-Resolves domain (MxResult.ok (mx ∷ records)) = (
    sort_by_preference (mx ∷ records),
    sort-IsOrdered (mx ∷ records),
    unless_empty-Gives domain _ (map (destination_of domain) (sort_by_preference (mx ∷ records)))
        (resolve_each-select domain (sort_by_preference (mx ∷ records))),
  )

  -- The MX records of the domain, the preferred ones first and those of one preference in the order of
  -- the answer, each give a destination with its host, its preference and all addresses of its host;
  -- without MX records the domain itself is the only host. `resolve` gives exactly those that have an
  -- address, in this order, and fails exactly if there are none.
  pub resolve-Resolves :
      (domain : Text)
      → Resolves (lower domain) (r.resolver.resolve_mx (lower domain)) (resolve lower r domain)
  unfolding resolve
  resolve-Resolves domain = answer-Resolves (lower domain) (r.resolver.resolve_mx (lower domain))
