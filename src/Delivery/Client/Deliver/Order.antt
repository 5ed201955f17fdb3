-- ===== src/Delivery/Client/Deliver/Order.antt =====
-- The loop of `deliver` of src/delivery/client.rs ends, and goes through the destinations once.
use my_mta.Prelude.{
  ℕ, zero, suc, ◌<◌, ◌≡◌, refl, sym, ap, ◌∙◌, arith, List, [], ◌∷◌, ◌++◌, append_assoc, length,
  true, false, Option, none, some, All, All-append, Bool-cases, Option-cases, inl, inr, ◌⊎◌,
}
use my_mta.Prelude.Text.{Text}
use my_mta.Delivery.Error.{DeliveryError}
use my_mta.Delivery.Outcome.{DeliveryResult}
use my_mta.Delivery.MxResolve.{SocketAddr, ResolvedDestination, to_socket_addrs, select_destination}
use my_mta.Delivery.MxResolve.Choice.{untried}
use my_mta.Delivery.MxResolve.Tried.{
  All-untried-append, untried_own, select_destination-append, select_destination-untried,
}
use my_mta.Delivery.Connector.{
  ConnectionConfig, Network, Printing, Attempt, gives, fails, panics, Attempt-cases,
}
use my_mta.Delivery.Client.Deliver.{Mail, try_deliver_to, exhausted, deliver_loop, deliver}

module _ (lossy : List ℕ → Text) (printing : Printing) (config : ConnectionConfig)
    (mail : Mail) where
  -- The error of a delivery that no destination took: the last one, if any was tried.
  abbrev pub last_error : List SocketAddr → Option DeliveryError → DeliveryError
  last_error attempted none = exhausted lossy printing config mail attempted
  last_error attempted (some e) = e

  -- What `deliver` promises: each destination is tried once, in order, if it has an address that was
  -- not tried before it; the first that gives a result gives the delivery's.
  unfoldable pub in_order :
      List ResolvedDestination
      → Network
      → List SocketAddr
      → Option DeliveryError
      → Network × Attempt DeliveryResult
  in_order [] net attempted last = (net, fails (last_error attempted last))
  in_order (dest ∷ dests) net attempted last = elim (untried attempted dest) [
    | false ↦ in_order dests net attempted last
    | true ↦ elim (try_deliver_to lossy printing config mail net (to_socket_addrs dest)).1 [
      | gives (result, used) ↦ (
        (try_deliver_to lossy printing config mail net (to_socket_addrs dest)).0,
        gives (record result { mx_server = some dest.exchange }),
      )
      | panics ↦ ((try_deliver_to lossy printing config mail net (to_socket_addrs dest)).0, panics)
      | fails e ↦
          in_order dests (try_deliver_to lossy printing config mail net (to_socket_addrs dest)).0
            (attempted ++ to_socket_addrs dest) (some e)
    ]
  ]

  -- With no destination left to try, the last error stands.
  all_tried :
      (ds : List ResolvedDestination) (net : Network) (attempted : List SocketAddr)
      (e : DeliveryError)
      → select_destination ds attempted ≡ none
      → in_order ds net attempted (some e) ≡ (net, fails e)
  unfolding in_order select_destination
  all_tried [] net attempted e h = refl
  all_tried (d ∷ ds) net attempted e h = elim (Bool-cases (untried attempted d)) [
    | inl is_new ↦ cc (rw (is_new, select_destination) at h)
    | inr is_old ↦
        rw (is_old, in_order) (all_tried ds net attempted e (rw (is_old, select_destination) at h))
  ]

  -- The destination in front joins those that were tried.
  moved :
      (front ds : List ResolvedDestination) (d : ResolvedDestination) (fuel : ℕ) (net : Network)
      (attempted : List SocketAddr)
      → deliver_loop lossy printing config mail fuel (front ++ d ∷ ds) net attempted
        ≡ deliver_loop lossy printing config mail fuel ((front ++ d ∷ []) ++ ds) net attempted
  moved front ds d fuel net attempted =
      ap (λ l. deliver_loop lossy printing config mail fuel l net attempted)
        (sym (append_assoc front (d ∷ []) ds))

  skipped :
      (front ds : List ResolvedDestination) (d : ResolvedDestination) (attempted : List SocketAddr)
      → All (λ e. untried attempted e ≡ false) front
      → untried attempted d ≡ false
      → select_destination (front ++ d ∷ ds) attempted ≡ select_destination ds attempted
  skipped front ds d attempted old is_old =
      select_destination-append front (d ∷ ds) attempted old
      ∙ select_destination-untried d ds attempted
      ∙ rw is_old refl

  loop_in_order :
      (ds front : List ResolvedDestination) (fuel : ℕ) (net : Network) (attempted : List SocketAddr)
      (last : Option DeliveryError)
      → All (λ d. untried attempted d ≡ false) front
      → length ds < fuel
      → ((d : ResolvedDestination) × (select_destination ds attempted ≡ some d)) ⊎ (last ≡ none)
      → deliver_loop lossy printing config mail fuel (front ++ ds) net attempted
        ≡ some (in_order ds net attempted last)
  unfolding deliver_loop in_order select_destination
  loop_in_order ds front zero net attempted last old fuel_left on = absurd (omega arith)
  loop_in_order [] front (suc fuel) net attempted last old fuel_left (inl (d, e)) = cc
  loop_in_order [] front (suc fuel) net attempted last old fuel_left (inr e) =
      rw (e, deliver_loop, select_destination-append front [] attempted old) refl
  loop_in_order (d ∷ ds) front (suc fuel) net attempted last old fuel_left on =
      elim (Bool-cases (untried attempted d)) [
        | inr is_old ↦
            let on' : ((x : ResolvedDestination) × (select_destination ds attempted ≡ some x))
                ⊎ (last ≡ none) =
              elim on [
                | inl (x, h) ↦ inl (x, rw (is_old, select_destination) at h)
                | inr h ↦ inr h
              ] in
            moved front ds d (suc fuel) net attempted
            ∙ loop_in_order ds (front ++ d ∷ []) (suc fuel) net attempted last
                (All-append (λ e. untried attempted e ≡ false) front (d ∷ []) old (is_old, tt))
                (omega arith) on'
            ∙ ap some (sym (rw (is_old, in_order) refl))
        | inl is_new ↦
            let net' = (try_deliver_to lossy printing config mail net (to_socket_addrs d)).0 in
            let attempted' = attempted ++ to_socket_addrs d in
            let now_old : All (λ e. untried attempted' e ≡ false) front =
              All-untried-append attempted (to_socket_addrs d) front old in
            let own : untried attempted' d ≡ false = untried_own attempted d in
            let now_old' : All (λ e. untried attempted' e ≡ false) (front ++ d ∷ []) =
              All-append (λ e. untried attempted' e ≡ false) front (d ∷ []) now_old (own, tt) in
            let sel : select_destination (front ++ d ∷ ds) attempted ≡ some d =
              select_destination-append front (d ∷ ds) attempted old ∙ rw is_new refl in
            elim (Attempt-cases
              (try_deliver_to lossy printing config mail net (to_socket_addrs d)).1) [
                | inl (r, e) ↦ rw (deliver_loop, in_order, sel, is_new, e) refl
                | inr (inr e) ↦ rw (deliver_loop, in_order, sel, is_new, e) refl
                | inr (inl (x, e)) ↦
                    elim (Option-cases (select_destination (front ++ d ∷ ds) attempted')) [
                      | inl n ↦
                          rw (deliver_loop, in_order, sel, is_new, e, n)
                            (ap some (
                              sym (
                                all_tried ds net' attempted' x
                                  (sym (skipped front ds d attempted' now_old own) ∙ n))))
                      | inr (next, n) ↦
                          rw (deliver_loop, in_order, sel, is_new, e, n)
                            (moved front ds d fuel net' attempted'
                              ∙ loop_in_order ds (front ++ d ∷ []) fuel net' attempted' (some x)
                                  now_old' (omega arith)
                                  (inl (next, sym (skipped front ds d attempted' now_old own) ∙ n)))
                    ]
              ]
      ]

  -- `deliver` always ends, with at most one round for each destination: it gives what trying the
  -- destinations once, in their order, gives.
  pub deliver-in_order :
      (dests : List ResolvedDestination) (net : Network)
      → deliver lossy printing config mail dests net ≡ some (in_order dests net [] none)
  unfolding deliver
  deliver-in_order dests net =
      loop_in_order dests [] (suc (length dests)) net [] none tt (omega arith) (inr refl)
