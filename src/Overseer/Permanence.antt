-- ===== src/Overseer/Permanence.antt =====
-- src/overseer.rs: no message removes an interface.
use swarm_host.Prelude.{inl, inr, Option, none, some, List, Option-cases}
use swarm_host.Map.{get}
use swarm_host.Backend.{
  NetworkBackend, PacketSink, peer_connected, peer_disconnected, connection_upgraded,
  message_received, request_received, response_received, peer_discovered, ConnectionUpgrade,
  protocol_opened, protocol_closed,
}
use swarm_host.Executor.{Executor}
use swarm_host.Filter
use swarm_host.Filter.Handle.{FilterHandle}
use swarm_host.Filter.Handle as Commands
use swarm_host.Graph.{UnGraph}
use swarm_host.Overseer.{Overseer}
use swarm_host.Overseer.Peers
use swarm_host.Overseer.Peers.{
  command_filter, discover_at, discover_at_each, inject_notification, apply_connection_upgrade,
  linked_interfaces, notify_each,
}
use swarm_host.Overseer.Reach.{notify_each-Keeps}
use swarm_host.Overseer.Run.{Input, rpc, network, filter, handle_network, handle_input, logged}
use swarm_host.Overseer.Existence.{
  Exists, insert-Exists, discover_at_each-Exists, Keeps-Exists, command_filter-Exists,
  handle_rpc-Exists,
}

module _ {T : NetworkBackend} {E : Executor T} {K : PacketSink T} {G : UnGraph T.InterfaceId}
    (i : T.InterfaceId) where
  -- The same for a call that may panic.
  abbrev pub StillExists : Option (Overseer T E K G) → Type 0
  StillExists none = Unit
  StillExists (some o) = Exists i o.interfaces

  register_peer-Exists :
      (j : T.InterfaceId) (p : T.PeerId) (prs : List T.Protocol) (sink : K.Sink)
      (o : Overseer T E K G)
      → Exists i o.interfaces
      → Exists i (Peers.register_peer j p prs sink o).1.interfaces
  unfolding Peers.register_peer
  register_peer-Exists j p prs sink o h =
      elim (Option-cases (get T.peer_eq p o.interface_peer_ids)) [
        | inl own ↦ elim (Option-cases (get T.interface_eq j o.interfaces)) [
          | inl e ↦ rw (own, e, Peers.register_peer) h
          | inr (info, e) ↦ rw (own, e, Peers.register_peer) (insert-Exists i j _ o.interfaces h)
        ]
        | inr (k, own) ↦ rw (own, Peers.register_peer) h
      ]

  unregister_peer-Exists :
      (j : T.InterfaceId) (p : T.PeerId) (o : Overseer T E K G)
      → Exists i o.interfaces
      → Exists i (Peers.unregister_peer j p o).1.interfaces
  unfolding Peers.unregister_peer
  unregister_peer-Exists j p o h = elim (Option-cases (get T.peer_eq p o.interface_peer_ids)) [
    | inl own ↦ elim (Option-cases (get T.interface_eq j o.interfaces)) [
      | inl e ↦ rw (own, e, Peers.unregister_peer) h
      | inr (info, e) ↦ elim (Option-cases (get T.peer_eq p info.peers)) [
        | inl k ↦ rw (own, e, k, Peers.unregister_peer) h
        | inr (x, k) ↦ rw (own, e, k, Peers.unregister_peer) (insert-Exists i j _ o.interfaces h)
      ]
    ]
    | inr (k, own) ↦ rw (own, Peers.unregister_peer) h
  ]

  connect_to_peer-Exists :
      (j : T.InterfaceId) (p : T.PeerId) (o : Overseer T E K G)
      → Exists i o.interfaces
      → Exists i (Peers.connect_to_peer j p o).1.interfaces
  unfolding Peers.connect_to_peer
  connect_to_peer-Exists j p o h = elim (Option-cases (get T.interface_eq j o.interfaces)) [
    | inl e ↦ rw (e, Peers.connect_to_peer) h
    | inr (info, e) ↦ rw (e, Peers.connect_to_peer) (insert-Exists i j _ o.interfaces h)
  ]

  discover_peer-Exists :
      (p : T.PeerId) (o : Overseer T E K G)
      → Exists i o.interfaces
      → Exists i (Peers.discover_peer p o).1.interfaces
  unfolding Peers.discover_peer
  discover_peer-Exists p o h = elim (Option-cases (get T.peer_eq p o.interface_peer_ids)) [
    | inl own ↦ rw (own, Peers.discover_peer) (discover_at_each-Exists p i o.interfaces h)
    | inr (k, own) ↦ rw (own, Peers.discover_peer) h
  ]

  inject_notification-Exists :
      (j : T.InterfaceId) (p : T.PeerId) (pr : T.Protocol) (n : T.Message) (o : Overseer T E K G)
      → Exists i o.interfaces
      → StillExists (logged (inject_notification j p pr n o))
  unfolding inject_notification
  inject_notification-Exists j p pr n o h =
      let send = Commands.inject_notification {K = K} pr p n in
      elim (Option-cases (get T.interface_eq j o.interfaces)) [
        | inl e ↦ rw (e, inject_notification) h
        | inr (info, e) ↦ elim (Option-cases (linked_interfaces info.index o)) [
          | inl f ↦ rw (e, inject_notification) (rw (f, inject_notification) tt)
          | inr (is, f) ↦ elim (Option-cases (notify_each is send o.interfaces)) [
            | inl g ↦
                rw (e, inject_notification)
                  (rw (f, inject_notification) (rw (g, inject_notification) tt))
            | inr (m', g) ↦
                rw (e, inject_notification)
                  (rw (f, inject_notification)
                    (rw (g, inject_notification)
                      (Keeps-Exists i o.interfaces m' (notify_each-Keeps is send o.interfaces m' g)
                        h)))
          ]
        ]
      ]

  apply_connection_upgrade-Exists :
      (j : T.InterfaceId) (p : T.PeerId) (u : ConnectionUpgrade T) (o : Overseer T E K G)
      → Exists i o.interfaces
      → StillExists (logged (apply_connection_upgrade j p u o))
  unfolding apply_connection_upgrade
  apply_connection_upgrade-Exists j p (protocol_opened prs) o h =
      elim (Option-cases (get T.interface_eq j o.interfaces)) [
        | inl e ↦ rw (e, apply_connection_upgrade) tt
        | inr (info, e) ↦ rw (e, apply_connection_upgrade) (insert-Exists i j _ o.interfaces h)
      ]
  apply_connection_upgrade-Exists j p (protocol_closed prs) o h =
      elim (Option-cases (get T.interface_eq j o.interfaces)) [
        | inl e ↦ rw (e, apply_connection_upgrade) tt
        | inr (info, e) ↦ rw (e, apply_connection_upgrade) (insert-Exists i j _ o.interfaces h)
      ]

  pub handle_input-Exists :
      (input : Input T K) (o : Overseer T E K G)
      → Exists i o.interfaces
      → StillExists (handle_input input o)
  unfolding handle_input handle_network Peers.inject_request Peers.inject_response
  handle_input-Exists (rpc event) o h = handle_rpc-Exists i event o h
  handle_input-Exists (filter (Filter.connect j p)) o h = connect_to_peer-Exists j p o h
  handle_input-Exists (network (peer_connected j p prs sink)) o h =
      register_peer-Exists j p prs sink o h
  handle_input-Exists (network (peer_disconnected j p)) o h = unregister_peer-Exists j p o h
  handle_input-Exists (network (message_received j p pr n)) o h =
      inject_notification-Exists j p pr n o h
  handle_input-Exists (network (request_received j p pr r)) o h = command_filter-Exists i j _ o h
  handle_input-Exists (network (response_received j p pr id r)) o h =
      command_filter-Exists i j _ o h
  handle_input-Exists (network (connection_upgraded j p u)) o h =
      apply_connection_upgrade-Exists j p u o h
  handle_input-Exists (network (peer_discovered p)) o h = discover_peer-Exists p o h
