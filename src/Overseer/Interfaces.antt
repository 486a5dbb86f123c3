-- ===== src/Overseer/Interfaces.antt =====
-- src/overseer.rs: creating, linking and unlinking interfaces.
use swarm_host.Prelude.{ℕ, String, Option, none, some, [], ◌∷◌, ◌++◌}
use swarm_host.Map.{get, insert, remove}
use swarm_host.Error.{
  Foreign, Result, ok, err, interface_already_exists, interface_doesnt_exist, link_doesnt_exist,
}
use swarm_host.Backend.{NetworkBackend, PacketSink}
use swarm_host.Executor.{Executor}
use swarm_host.Heuristics.Handle
use swarm_host.Filter.{Filter}
use swarm_host.Filter.Handle.{FilterHandle}
use swarm_host.Graph.{UnGraph}
use swarm_host.Overseer.{Overseer, InterfaceInfo, pair_eq}

module _ {T : NetworkBackend} {K : PacketSink T} where
  -- InterfaceInfo::new
  abbrev pub new_info : ℕ → T.PeerId → T.InterfaceHandle → FilterHandle T K → InterfaceInfo T K
  new_info index peer handle filter = record {
    handle = handle;
    discovered = [];
    peers = [];
    filter = filter;
    index = index;
    peer = peer;
  }

  -- The handle of a filter that has just been created.
  abbrev pub new_handle : FilterHandle T K
  new_handle = record { tx = [] }

module _ {T : NetworkBackend} {E : Executor T} {K : PacketSink T} where
  -- Filter::new, once the executor has been created.
  abbrev pub new_filter : E.State → T.InterfaceId → T.Duration → Filter T E K
  new_filter x interface poll_interval = record {
    executor = x;
    interface = interface;
    event_tx = [];
    peers = [];
    pending_inbound = [];
    pending_outbound = [];
    heuristics_handle = [];
    poll_interval = poll_interval;
  }

-- .ok_or(Error::LinkDoesntExist)
abbrev pub link_removed : {F : Foreign} → Option (Unit {0}) → Result F Unit
link_removed none = err link_doesnt_exist
link_removed (some done) = ok tt

module _ {T : NetworkBackend} {E : Executor T} {K : PacketSink T} {G : UnGraph T.InterfaceId} where
  -- The executor of the new filter; the node of the link graph stays, whatever comes of it.
  unfoldable pub start_interface :
      T.InterfaceHandle
      → T.EventStream
      → T.Duration
      → Result T.foreign E.State
      → Overseer T E K G
      → Result T.foreign T.InterfaceId × Overseer T E K G
  start_interface handle stream poll_interval (err e) o =
      (err e, record o { links = (G.add_node (T.interface_id handle) o.links).1 })
  start_interface handle stream poll_interval (ok x) o =
      let interface = T.interface_id handle in
      let (index, links') = G.add_node interface o.links in
      (
        ok interface,
        record o {
          interfaces =
              insert T.interface_eq interface (new_info index (T.peer_id handle) handle new_handle)
                o.interfaces;
          interface_peer_ids = insert T.peer_eq (T.peer_id handle) interface o.interface_peer_ids;
          event_streams = o.event_streams ++ stream ∷ [];
          links = links';
          spawned = o.spawned ++ new_filter x interface poll_interval ∷ [];
        },
      )

  -- What is done with the answer of the backend.
  unfoldable pub add_interface :
      String
      → T.Duration
      → Result T.foreign (T.InterfaceHandle × T.EventStream)
      → Overseer T E K G
      → Result T.foreign T.InterfaceId × Overseer T E K G
  unfolding start_interface
  add_interface filter poll_interval (err e) o = (err e, o)
  add_interface filter poll_interval (ok (handle, stream)) o =
      elim (get T.interface_eq (T.interface_id handle) o.interfaces) [
        | some info ↦ (err interface_already_exists, o)
        | none ↦
            start_interface handle stream poll_interval
              (E.create (T.interface_id handle) filter none) o
      ]

  unfoldable pub spawn_with :
      T.foreign.SocketAddr
      → String
      → T.Duration
      → Option T.InterfaceParameters
      → Overseer T E K G
      → Result T.foreign T.InterfaceId × Overseer T E K G
  unfolding add_interface
  spawn_with address filter poll_interval parameters o =
      let (spawned, backend) = T.spawn_interface address parameters o.backend in
      add_interface filter poll_interval spawned (record o { backend = backend })

  -- The parameters that the user's code computes, if any is given.
  unfoldable pub spawn_prepared :
      T.foreign.SocketAddr
      → String
      → T.Duration
      → Result T.foreign T.InterfaceParameters
      → Overseer T E K G
      → Result T.foreign T.InterfaceId × Overseer T E K G
  unfolding spawn_with
  spawn_prepared address filter poll_interval (err e) o = (err e, o)
  spawn_prepared address filter poll_interval (ok parameters) o =
      spawn_with address filter poll_interval (some parameters) o

  unfoldable pub create_interface :
      T.foreign.SocketAddr
      → String
      → T.Duration
      → Option String
      → Overseer T E K G
      → Result T.foreign T.InterfaceId × Overseer T E K G
  unfolding spawn_with spawn_prepared
  create_interface address filter poll_interval none o =
      spawn_with address filter poll_interval none o
  create_interface address filter poll_interval (some code) o =
      spawn_prepared address filter poll_interval (E.initialize_interface code o.parameters) o

  unfoldable pub add_link :
      T.InterfaceId
      → T.InterfaceId
      → InterfaceInfo T K
      → InterfaceInfo T K
      → Overseer T E K G
      → Overseer T E K G
  add_link first second first_info second_info o =
      let (edge, links') = G.add_edge first_info.index second_info.index o.links in
      record o {
        links = links';
        edges = insert (pair_eq T.interface_eq) (first, second) edge o.edges;
        heuristics_handle = Handle.link_interfaces first second o.heuristics_handle;
      }

  unfoldable pub link_interfaces :
      T.InterfaceId → T.InterfaceId → Overseer T E K G → Result T.foreign Unit × Overseer T E K G
  link_interfaces first second o = elim (get T.interface_eq first o.interfaces) [
    | none ↦ (err interface_doesnt_exist, o)
    | some first_info ↦ elim (get T.interface_eq second o.interfaces) [
      | none ↦ (err interface_doesnt_exist, o)
      | some second_info ↦ (ok tt, add_link first second first_info second_info o)
    ]
  ]

  -- The source reports the links that it removes as links that it adds.
  unfoldable pub remove_link :
      T.InterfaceId
      → T.InterfaceId
      → ℕ
      → Overseer T E K G
      → Result T.foreign Unit × Overseer T E K G
  remove_link first second edge o =
      let (removed, links') = G.remove_edge edge o.links in
      (
        link_removed removed,
        record o {
          links = links';
          edges = remove (pair_eq T.interface_eq) (first, second) o.edges;
          heuristics_handle = Handle.link_interfaces first second o.heuristics_handle;
        },
      )

  unfoldable pub unlink_interfaces :
      T.InterfaceId → T.InterfaceId → Overseer T E K G → Result T.foreign Unit × Overseer T E K G
  unlink_interfaces first second o = elim (get (pair_eq T.interface_eq) (first, second) o.edges) [
    | none ↦ (err link_doesnt_exist, o)
    | some edge ↦ remove_link first second edge o
  ]
