-- ===== src/Overseer/Safety.antt =====
-- src/overseer.rs, `run`: every message keeps the overseer well-formed; it panics only where a
-- connection is upgraded at an interface that does not exist.
use swarm_host.Prelude.{
  ◌≡◌, refl, inl, inr, true, Option, none, some, List, [], ◌∷◌, arith, Option-cases,
}
use swarm_host.Map.{get, contained}
use swarm_host.Backend.{
  NetworkBackend, PacketSink, InterfaceEvent, peer_connected, peer_disconnected,
  connection_upgraded, message_received, request_received, response_received, peer_discovered,
  ConnectionUpgrade, protocol_opened, protocol_closed,
}
use swarm_host.Executor.{Executor}
use swarm_host.Filter
use swarm_host.Filter.Handle as Commands
use swarm_host.Graph.{UnGraph, UnGraphLaws}
use swarm_host.Overseer.{Overseer}
use swarm_host.Overseer.Invariant.{WellFormed, Keeps-WellFormed, empty-WellFormed}
use swarm_host.Overseer.Growth.{
  create_interface-WellFormed, link_interfaces-WellFormed, unlink_interfaces-WellFormed,
}
use swarm_host.Overseer.Reach.{notify_each-Keeps, inject_found, inject_with}
use swarm_host.Overseer.Steps.{
  put-WellFormed, command_filter-WellFormed, register_peer-WellFormed, unregister_peer-WellFormed,
  connect_to_peer-WellFormed, discover_peer-WellFormed,
}
use swarm_host.Overseer.Peers.{
  install_notification_filter, install_request_response_filter, inject_notification, inject_request,
  inject_response, apply_connection_upgrade,
}
use swarm_host.Overseer.Run.{
  OverseerEvent, create_interface, link_interface, unlink_interface, Input, rpc, network, filter,
  handle_rpc, handle_network, handle_input, logged, run, new,
}
use swarm_host.Overseer.Run

module _ {T : NetworkBackend} {E : Executor T} {K : PacketSink T} {G : UnGraph T.InterfaceId} where
  -- No upgrade of a connection at an interface that does not exist.
  abbrev pub IsExpected : Input T K → Overseer T E K G → Type 0
  IsExpected (network (connection_upgraded interface peer upgrade)) o =
      contained (get T.interface_eq interface o.interfaces) ≡ true
  IsExpected (network _) o = Unit
  IsExpected (rpc event) o = Unit
  IsExpected (filter event) o = Unit

  -- The message was handled, and left a well-formed overseer.
  pub data Goes : Option (Overseer T E K G) → Type 0 where
    goes : (o : Overseer T E K G) → WellFormed o → Goes (some o)

  not-Goes-none : ¬ Goes none
  not-Goes-none g = elim g [ ]

  Goes-WellFormed : {o : Overseer T E K G} → Goes (some o) → WellFormed o
  Goes-WellFormed (goes o w) = w

  module _ (laws : UnGraphLaws G) (o : Overseer T E K G) (w : WellFormed o) where
    inject_notification-Goes :
        (i : T.InterfaceId) (peer : T.PeerId) (protocol : T.Protocol) (n : T.Message)
        → Goes (logged (inject_notification i peer protocol n o))
    unfolding inject_notification
    inject_notification-Goes i peer protocol n =
        elim (Option-cases (get T.interface_eq i o.interfaces)) [
          | inl e ↦ rw (e, inject_notification) (goes o w)
          | inr (info, e) ↦
              let send = Commands.inject_notification {K = K} protocol peer n in
              let (is, m', f, g, d) = inject_found laws send i info o w e in
              rw (inject_with laws i peer protocol n info is m' o e f g)
                (goes _ (Keeps-WellFormed o _ refl (notify_each-Keeps is send o.interfaces m' g) w))
        ]

    apply_connection_upgrade-Goes :
        (i : T.InterfaceId) (peer : T.PeerId) (upgrade : ConnectionUpgrade T)
        → contained (get T.interface_eq i o.interfaces) ≡ true
        → Goes (logged (apply_connection_upgrade i peer upgrade o))
    unfolding apply_connection_upgrade
    apply_connection_upgrade-Goes i peer (protocol_opened protocols) h =
        elim (Option-cases (get T.interface_eq i o.interfaces)) [
          | inl e ↦ absurd (ground arith)
          | inr (info, e) ↦
              rw (e, apply_connection_upgrade)
                (goes _ (put-WellFormed o w _ i info _ refl refl e refl))
        ]
    apply_connection_upgrade-Goes i peer (protocol_closed protocols) h =
        elim (Option-cases (get T.interface_eq i o.interfaces)) [
          | inl e ↦ absurd (ground arith)
          | inr (info, e) ↦
              rw (e, apply_connection_upgrade)
                (goes _ (put-WellFormed o w _ i info _ refl refl e refl))
        ]

    handle_rpc-WellFormed : (event : OverseerEvent T) → WellFormed (handle_rpc event o).1
    unfolding handle_rpc install_notification_filter install_request_response_filter
    handle_rpc-WellFormed (create_interface address code poll_interval preinit) =
        create_interface-WellFormed laws address code poll_interval preinit o w
    handle_rpc-WellFormed (link_interface first second) =
        link_interfaces-WellFormed laws first second o w
    handle_rpc-WellFormed (unlink_interface first second) =
        unlink_interfaces-WellFormed laws first second o w
    handle_rpc-WellFormed (Run.install_notification_filter i protocol code context) =
        command_filter-WellFormed o w i _
    handle_rpc-WellFormed (Run.install_request_response_filter i protocol code context) =
        command_filter-WellFormed o w i _

    handle_network-Goes :
        (event : InterfaceEvent T K) → IsExpected (network event) o → Goes (handle_network event o)
    unfolding handle_network inject_request inject_response
    handle_network-Goes (peer_connected i peer protocols sink) h =
        goes _ (register_peer-WellFormed o w i peer protocols sink)
    handle_network-Goes (peer_disconnected i peer) h =
        goes _ (unregister_peer-WellFormed o w i peer)
    handle_network-Goes (message_received i peer protocol n) h =
        inject_notification-Goes i peer protocol n
    handle_network-Goes (request_received i peer protocol r) h =
        goes _ (command_filter-WellFormed o w i _)
    handle_network-Goes (response_received i peer protocol id r) h =
        goes _ (command_filter-WellFormed o w i _)
    handle_network-Goes (connection_upgraded i peer upgrade) h =
        apply_connection_upgrade-Goes i peer upgrade h
    handle_network-Goes (peer_discovered peer) h = goes _ (discover_peer-WellFormed o w peer)

    -- A well-formed overseer handles every message without a panic and is well-formed afterwards,
    -- but for an upgrade of a connection at an interface that does not exist.
    pub handle_input-Goes : (input : Input T K) → IsExpected input o → Goes (handle_input input o)
    unfolding handle_input
    handle_input-Goes (rpc event) h = goes _ (handle_rpc-WellFormed event)
    handle_input-Goes (network event) h = handle_network-Goes event h
    handle_input-Goes (filter (Filter.connect i peer)) h =
        goes _ (connect_to_peer-WellFormed o w i peer)

  -- Each message of a run meets an interface that exists when its turn comes.
  abbrev pub IsExpectedRun : List (Input T K) → Overseer T E K G → Type 0
  IsExpectedRun [] o = Unit
  IsExpectedRun (input ∷ rest) o =
      IsExpected input o
      × ((o' : Overseer T E K G) → handle_input input o ≡ some o' → IsExpectedRun rest o')

  -- Any sequence of messages from the three channels, in any order, leaves a well-formed overseer
  -- well-formed and ends without a panic, if no connection is upgraded at an interface that does
  -- not exist by then.
  pub run-Goes :
      (laws : UnGraphLaws G) (inputs : List (Input T K)) (o : Overseer T E K G)
      → WellFormed o
      → IsExpectedRun inputs o
      → Goes (run inputs o)
  unfolding run
  run-Goes laws [] o w h = goes o w
  run-Goes laws (input ∷ rest) o w h = elim (Option-cases (handle_input input o)) [
    | inl e ↦ absurd (not-Goes-none (rw e at (handle_input-Goes laws o w input h.0)))
    | inr (o', e) ↦
        rw (e, run)
          (run-Goes laws rest o' (Goes-WellFormed (rw e at (handle_input-Goes laws o w input h.0)))
            (h.1 o' e))
  ]

  -- A new overseer handles any sequence of messages without a panic, if no connection is upgraded at
  -- an interface that does not exist by then; every interface that it has at the end is the one of
  -- the node that its entry names, and every link is between two of these interfaces.
  pub run-new :
      (laws : UnGraphLaws G) (parameters : T.NetworkParameters) (inputs : List (Input T K))
      → IsExpectedRun inputs (new {E = E} {K = K} {G = G} parameters)
      → Goes (run inputs (new parameters))
  unfolding new
  run-new laws parameters inputs h =
      run-Goes laws inputs (new parameters)
        (empty-WellFormed (new parameters) refl laws.edges-new_undirected) h
