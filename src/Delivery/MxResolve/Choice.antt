-- ===== src/Delivery/MxResolve/Choice.antt =====
-- The choice of `select_destination` of src/delivery/mx_resolve.rs.
use my_mta.Prelude.{
  ◌≡◌, refl, ap, List, [], ◌∷◌, ◌++◌, Bool, true, false, not, Option, none, some, All, Bool-cases,
  inl, inr, any,
}
use my_mta.Delivery.MxResolve.{
  SocketAddr, ResolvedDestination, to_socket_addrs, contains, select_destination,
}

-- An address of the destination that was not tried yet.
abbrev pub untried : List SocketAddr → ResolvedDestination → Bool
untried attempted d = any (λ addr. not (contains attempted addr)) (to_socket_addrs d)

abbrev pub Selects :
    List ResolvedDestination → List SocketAddr → Option ResolvedDestination → Type 0
Selects ds attempted none = All (λ d. untried attempted d ≡ false) ds
Selects ds attempted (some d) =
    (front : List ResolvedDestination) × (back : List ResolvedDestination) × (ds
      ≡ front ++ d ∷ back)
    × (untried attempted d ≡ true)
    × All (λ e. untried attempted e ≡ false) front

Selects-skip :
    (d : ResolvedDestination) (ds : List ResolvedDestination) (attempted : List SocketAddr)
    (o : Option ResolvedDestination)
    → untried attempted d ≡ false
    → Selects ds attempted o
    → Selects (d ∷ ds) attempted o
Selects-skip d ds attempted none e s = (e, s)
Selects-skip d ds attempted (some x) e (front, back, spelled, new, old) =
    (d ∷ front, back, ap (λ l. d ∷ l) spelled, new, (e, old))

-- `select_destination` gives the first destination that has an address not tried yet, and nothing
-- only if all addresses of all destinations have been tried.
select_destination-Selects :
    (ds : List ResolvedDestination) (attempted : List SocketAddr)
    → Selects ds attempted (select_destination ds attempted)
unfolding select_destination
select_destination-Selects [] attempted = tt
select_destination-Selects (d ∷ ds) attempted = elim (Bool-cases (untried attempted d)) [
  | inl e ↦ rw e ([], ds, refl, e, tt)
  | inr e ↦ rw e (Selects-skip d ds attempted _ e (select_destination-Selects ds attempted))
]
