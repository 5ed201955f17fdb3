-- ===== src/Delivery/MxResolve/Tried.antt =====
-- How the addresses tried in src/delivery/mx_resolve.rs grow, and what `select_destination` skips.
use my_mta.Prelude.{
  ℕ, ◌≡◌, refl, ap, sym, ◌∙◌, arith, List, [], ◌∷◌, ◌++◌, append_assoc, true, false, not, ◌||◌,
  some, All, any, ==_refl, if◌then◌else◌,
}
use my_mta.Dns.Records.{IpAddr, v4, v6}
use my_mta.Delivery.MxResolve.{
  SocketAddr, ResolvedDestination, to_socket_addrs, contains, same_ip, same_segments, same_addr,
  select_destination,
}
use my_mta.Delivery.MxResolve.Choice.{untried}

same_segments_refl : (s : List ℕ) → same_segments s s ≡ true
unfolding same_segments
same_segments_refl [] = refl
same_segments_refl (s ∷ ss) = ground (arith, ==_refl s, same_segments_refl ss)

same_ip_refl : (ip : IpAddr) → same_ip ip ip ≡ true
unfolding same_ip
same_ip_refl (v4 x) = ==_refl x
same_ip_refl (v6 x) = same_segments_refl x

same_addr_refl : (a : SocketAddr) → same_addr a a ≡ true
unfolding same_addr
same_addr_refl a = ground (arith, same_ip_refl a.ip, ==_refl a.port)

contains-append :
    (l m : List SocketAddr) (a : SocketAddr) → contains (l ++ m) a ≡ (contains l a || contains m a)
unfolding contains
contains-append [] m a = refl
contains-append (b ∷ l) m a = ground (arith, contains-append l m a)

-- Once tried, a destination stays tried.
untried-append :
    (attempted more : List SocketAddr) (d : ResolvedDestination)
    → untried attempted d ≡ false
    → untried (attempted ++ more) d ≡ false
untried-append attempted more d h = each (to_socket_addrs d) h
  where
    each :
        (l : List SocketAddr)
        → any (λ a. not (contains attempted a)) l ≡ false
        → any (λ a. not (contains (attempted ++ more) a)) l ≡ false
    each [] e = refl
    each (a ∷ l) e = ground (arith, contains-append attempted more a, each l)

contains_last : (l m : List SocketAddr) (a : SocketAddr) → contains (l ++ a ∷ m) a ≡ true
unfolding contains
contains_last l m a = ground (arith, contains-append l (a ∷ m) a, same_addr_refl a)

all_contained : (front l : List SocketAddr) → any (λ a. not (contains (front ++ l) a)) l ≡ false
all_contained front [] = refl
all_contained front (a ∷ l) =
    let rest : any (λ b. not (contains (front ++ a ∷ l) b)) l ≡ false =
      ap (λ s. any (λ b. not (contains s b)) l) (sym (append_assoc front (a ∷ []) l))
      ∙ all_contained (front ++ a ∷ []) l in
    rw (contains_last front l a) rest

-- A destination whose addresses are added is tried.
pub untried_own :
    (attempted : List SocketAddr) (d : ResolvedDestination)
    → untried (attempted ++ to_socket_addrs d) d ≡ false
untried_own attempted d = all_contained attempted (to_socket_addrs d)

pub All-untried-append :
    (attempted more : List SocketAddr) (ds : List ResolvedDestination)
    → All (λ d. untried attempted d ≡ false) ds
    → All (λ d. untried (attempted ++ more) d ≡ false) ds
All-untried-append attempted more [] h = tt
All-untried-append attempted more (d ∷ ds) h =
    (untried-append attempted more d h.0, All-untried-append attempted more ds h.1)

-- Destinations that were tried are skipped.
pub select_destination-append :
    (front ds : List ResolvedDestination) (attempted : List SocketAddr)
    → All (λ d. untried attempted d ≡ false) front
    → select_destination (front ++ ds) attempted ≡ select_destination ds attempted
unfolding select_destination
select_destination-append [] ds attempted h = refl
select_destination-append (d ∷ front) ds attempted h =
    rw h.0 (select_destination-append front ds attempted h.1)

pub select_destination-untried :
    (d : ResolvedDestination) (ds : List ResolvedDestination) (attempted : List SocketAddr)
    → select_destination (d ∷ ds) attempted
      ≡ (if untried attempted d then some d else select_destination ds attempted)
unfolding select_destination
select_destination-untried d ds attempted = refl
