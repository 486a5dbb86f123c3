-- ===== src/Overseer/Existence.antt =====
-- src/overseer.rs: the requests of the RPC server remove no interface.
use swarm_host.Prelude.{
  String, ◌≡◌, inl, inr, true, Option, none, some, [], ◌∷◌, arith, Option-cases,
}
use swarm_host.Map.{HashMap, get, insert, contained}
use swarm_host.Map.Laws.{get-insert}
use swarm_host.Error.{Result, ok, err}
use swarm_host.Backend.{NetworkBackend, PacketSink}
use swarm_host.Executor.{Executor}
use swarm_host.Filter.Handle.{FilterHandle}
use swarm_host.Graph.{UnGraph}
use swarm_host.Overseer.{Overseer, InterfaceInfo, pair_eq}
use swarm_host.Overseer.Invariant.{Keeps}
use swarm_host.Overseer.Interfaces
use swarm_host.Overseer.Peers
use swarm_host.Overseer.Peers.{
  command_filter, discover_at, discover_at_each, inject_notification, apply_connection_upgrade,
  linked_interfaces, notify_each,
}
use swarm_host.Overseer.Run
use swarm_host.Overseer.Run.{
  OverseerEvent, Input, rpc, network, filter, handle_rpc, handle_network, handle_input, logged, run,
}

module _ {T : NetworkBackend} {K : PacketSink T} where
  abbrev pub Exists : T.InterfaceId → HashMap T.InterfaceId (InterfaceInfo T K) → Type 0
  Exists i m = contained (get T.interface_eq i m) ≡ true

  pub insert-Exists :
      (i j : T.InterfaceId) (info : InterfaceInfo T K)
      (m : HashMap T.InterfaceId (InterfaceInfo T K))
      → Exists i m
      → Exists i (insert T.interface_eq j info m)
  insert-Exists i j info m h = ground (arith, get-insert T.interface_eq j i info m)

  pub discover_at_each-Exists :
      (p : T.PeerId) (i : T.InterfaceId) (m : HashMap T.InterfaceId (InterfaceInfo T K))
      → Exists i m
      → Exists i (discover_at_each p m)
  unfolding get discover_at_each
  discover_at_each-Exists p i [] h = h
  discover_at_each-Exists p i ((j, info) ∷ m) h = ground (arith, discover_at_each-Exists p i m)

  pub Keeps-Exists :
      (i : T.InterfaceId) (m m' : HashMap T.InterfaceId (InterfaceInfo T K))
      → Keeps m m'
      → Exists i m
      → Exists i m'
  Keeps-Exists i m m' k h = ground (arith, k.same i)

module _ {T : NetworkBackend} {E : Executor T} {K : PacketSink T} {G : UnGraph T.InterfaceId}
    (i : T.InterfaceId) where
  pub command_filter-Exists :
      (j : T.InterfaceId) (send : FilterHandle T K → FilterHandle T K) (o : Overseer T E K G)
      → Exists i o.interfaces
      → Exists i (command_filter j send o).1.interfaces
  unfolding command_filter
  command_filter-Exists j send o h = elim (Option-cases (get T.interface_eq j o.interfaces)) [
    | inl e ↦ rw (e, command_filter) h
    | inr (info, e) ↦ rw (e, command_filter) (insert-Exists i j _ o.interfaces h)
  ]

  start_interface-Exists :
      (handle : T.InterfaceHandle) (stream : T.EventStream) (d : T.Duration)
      (r : Result T.foreign E.State) (o : Overseer T E K G)
      → Exists i o.interfaces
      → Exists i (Interfaces.start_interface handle stream d r o).1.interfaces
  unfolding Interfaces.start_interface
  start_interface-Exists handle stream d (err e) o h = h
  start_interface-Exists handle stream d (ok x) o h =
      insert-Exists i (T.interface_id handle) _ o.interfaces h

  add_interface-Exists :
      (code : String) (d : T.Duration) (r : Result T.foreign (T.InterfaceHandle × T.EventStream))
      (o : Overseer T E K G)
      → Exists i o.interfaces
      → Exists i (Interfaces.add_interface code d r o).1.interfaces
  unfolding Interfaces.add_interface
  add_interface-Exists code d (err e) o h = h
  add_interface-Exists code d (ok (handle, stream)) o h =
      elim (Option-cases (get T.interface_eq (T.interface_id handle) o.interfaces)) [
        | inl e ↦
            rw (e, Interfaces.add_interface)
              (start_interface-Exists handle stream d (E.create (T.interface_id handle) code none) o
                h)
        | inr (info, e) ↦ rw (e, Interfaces.add_interface) h
      ]

  create_interface-Exists :
      (address : T.foreign.SocketAddr) (code : String) (d : T.Duration) (preinit : Option String)
      (o : Overseer T E K G)
      → Exists i o.interfaces
      → Exists i (Interfaces.create_interface address code d preinit o).1.interfaces
  unfolding Interfaces.create_interface Interfaces.spawn_prepared Interfaces.spawn_with
  create_interface-Exists address code d none o h =
      let (r, b) = T.spawn_interface address none o.backend in
      add_interface-Exists code d r (record o { backend = b }) h
  create_interface-Exists address code d (some preinit) o h =
      prepared (E.initialize_interface preinit o.parameters)
    where
      prepared :
          (p : Result T.foreign T.InterfaceParameters)
          → Exists i (Interfaces.spawn_prepared address code d p o).1.interfaces
      prepared (err e) = h
      prepared (ok parameters) =
          let (r, b) = T.spawn_interface address (some parameters) o.backend in
          add_interface-Exists code d r (record o { backend = b }) h

  link_interfaces-Exists :
      (j k : T.InterfaceId) (o : Overseer T E K G)
      → Exists i o.interfaces
      → Exists i (Interfaces.link_interfaces j k o).1.interfaces
  unfolding Interfaces.link_interfaces Interfaces.add_link
  link_interfaces-Exists j k o h = elim (Option-cases (get T.interface_eq j o.interfaces)) [
    | inl e ↦ rw (e, Interfaces.link_interfaces) h
    | inr (first, e) ↦ elim (Option-cases (get T.interface_eq k o.interfaces)) [
      | inl e' ↦ rw (e, e', Interfaces.link_interfaces) h
      | inr (second, e') ↦ rw (e, e', Interfaces.link_interfaces) h
    ]
  ]

  unlink_interfaces-Exists :
      (j k : T.InterfaceId) (o : Overseer T E K G)
      → Exists i o.interfaces
      → Exists i (Interfaces.unlink_interfaces j k o).1.interfaces
  unfolding Interfaces.unlink_interfaces Interfaces.remove_link
  unlink_interfaces-Exists j k o h =
      elim (Option-cases (get (pair_eq T.interface_eq) (j, k) o.edges)) [
        | inl e ↦ rw (e, Interfaces.unlink_interfaces) h
        | inr (edge, e) ↦ rw (e, Interfaces.unlink_interfaces) h
      ]

  pub handle_rpc-Exists :
      (event : OverseerEvent T) (o : Overseer T E K G)
      → Exists i o.interfaces
      → Exists i (handle_rpc event o).1.interfaces
  unfolding handle_rpc Peers.install_notification_filter Peers.install_request_response_filter
  handle_rpc-Exists (Run.create_interface address code d preinit) o h =
      create_interface-Exists address code d preinit o h
  handle_rpc-Exists (Run.link_interface j k) o h = link_interfaces-Exists j k o h
  handle_rpc-Exists (Run.unlink_interface j k) o h = unlink_interfaces-Exists j k o h
  handle_rpc-Exists (Run.install_notification_filter j pr code context) o h =
      command_filter-Exists j _ o h
  handle_rpc-Exists (Run.install_request_response_filter j pr code context) o h =
      command_filter-Exists j _ o h
