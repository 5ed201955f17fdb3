-- ===== src/Delivery/Client/Deliver.antt =====
-- `deliver` of src/delivery/client.rs: the loop over the destinations.
pub mod Order
use my_mta.Prelude.{
  ℕ, zero, suc, List, [], ◌∷◌, ◌++◌, map, Bool, Option, none, some, length, Result, ok, err,
}
use my_mta.Prelude.Text.{Text, codes}
use my_mta.Delivery.Error.{DeliveryError, connection_failed}
use my_mta.Delivery.Outcome.{DeliveryResult}
use my_mta.Delivery.MxResolve.{SocketAddr, ResolvedDestination, to_socket_addrs, select_destination}
use my_mta.Delivery.Connector.{
  ConnectionConfig, SmtpConnection, Attempt, gives, fails, panics, Network, Printing, connect_to,
}
use my_mta.Delivery.Client.Dialogue.{converse}

-- What a delivery is about.
pub record Mail : Type 0 where
  pub sender : Text
  pub recipients : List Text
  pub body : List ℕ

module _ (lossy : List ℕ → Text) (printing : Printing) (config : ConnectionConfig)
    (mail : Mail) where
  pub talk_to :
      List SocketAddr
      → Network × Result DeliveryError SmtpConnection
      → Network × Attempt (DeliveryResult × SocketAddr)
  talk_to addrs (net, err e) = (net, fails e)
  talk_to [] (net, ok conn) = (net, panics)
  talk_to (addr ∷ addrs) (net, ok conn) =
      elim (converse lossy config mail.sender mail.recipients mail.body conn).1 [
        | gives result ↦ (net, gives (result, addr))
        | fails e ↦ (net, fails e)
        | panics ↦ (net, panics)
      ]

  -- The result comes with the first of the addresses, whichever was connected.
  unfoldable pub try_deliver_to :
      Network → List SocketAddr → Network × Attempt (DeliveryResult × SocketAddr)
  unfolding talk_to
  try_deliver_to net addrs = talk_to addrs (connect_to printing config net addrs)

  pub exhausted : List SocketAddr → DeliveryError
  exhausted attempted =
      connection_failed (map printing.address attempted) (codes "All destinations exhausted")

  -- The loop; `none` means that the fuel is used up.
  unfoldable pub deliver_loop :
      ℕ
      → List ResolvedDestination
      → Network
      → List SocketAddr
      → Option (Network × Attempt DeliveryResult)
  unfolding try_deliver_to exhausted
  deliver_loop zero dests net attempted = none
  deliver_loop (suc fuel) dests net attempted = elim (select_destination dests attempted) [
    | none ↦ some (net, fails (exhausted attempted))
    | some dest ↦
        let (net', tried) = try_deliver_to net (to_socket_addrs dest) in
        let attempted' = attempted ++ to_socket_addrs dest in
        elim tried [
          | gives (result, used) ↦
              some (net', gives (record result { mx_server = some dest.exchange }))
          | panics ↦ some (net', panics)
          | fails e ↦ elim (select_destination dests attempted') [
            | none ↦ some (net', fails e)
            | some next ↦ deliver_loop fuel dests net' attempted'
          ]
        ]
  ]

  -- One round for each destination is enough.
  unfoldable pub deliver :
      List ResolvedDestination → Network → Option (Network × Attempt DeliveryResult)
  unfolding deliver_loop
  deliver dests net = deliver_loop (suc (length dests)) dests net []
