-- ===== src/Overseer/Run.antt =====
-- src/overseer.rs, `run`: the event loop, over the messages in the order in which `select!` takes
-- them from the three channels; and the requests of src/types.rs. Errors are logged, and the loop
-- goes on; a panic ends it.
use swarm_host.Prelude.{String, Option, none, some, List, [], ◌∷◌}
use swarm_host.Error.{Result}
use swarm_host.Backend.{
  NetworkBackend, PacketSink, InterfaceEvent, peer_connected, peer_disconnected,
  connection_upgraded, message_received, request_received, response_received, peer_discovered,
}
use swarm_host.Executor.{Executor}
use swarm_host.Filter.{FilterEvent}
use swarm_host.Filter
use swarm_host.Graph.{UnGraph}
use swarm_host.Overseer.{Overseer}
use swarm_host.Overseer.Interfaces
use swarm_host.Overseer.Peers

-- The channel for the result of a request is not a field: `handle_rpc` returns the result.
pub data OverseerEvent (T : NetworkBackend) : Type 0 where
  create_interface : T.foreign.SocketAddr → String → T.Duration → Option String → OverseerEvent T
  link_interface : T.InterfaceId → T.InterfaceId → OverseerEvent T
  unlink_interface : T.InterfaceId → T.InterfaceId → OverseerEvent T
  install_notification_filter : T.InterfaceId → T.Protocol → String → String → OverseerEvent T
  install_request_response_filter : T.InterfaceId → T.Protocol → String → String → OverseerEvent T

pub data Reply (T : NetworkBackend) : Type 0 where
  created : Result T.foreign T.InterfaceId → Reply T
  finished : Result T.foreign Unit → Reply T

pub data Input (T : NetworkBackend) (K : PacketSink T) : Type 0 where
  rpc : OverseerEvent T → Input T K
  network : InterfaceEvent T K → Input T K
  filter : FilterEvent T → Input T K

module _ {T : NetworkBackend} {E : Executor T} {K : PacketSink T} {G : UnGraph T.InterfaceId} where
  -- Overseer::new, which also starts the heuristics backend.
  unfoldable pub new : T.NetworkParameters → Overseer T E K G
  new parameters = record {
    backend = T.create parameters;
    interfaces = [];
    interface_peer_ids = [];
    event_streams = [];
    links = G.new_undirected;
    edges = [];
    heuristics_handle = [];
    parameters = parameters;
    spawned = [];
  }

  unfoldable pub handle_rpc : OverseerEvent T → Overseer T E K G → Reply T × Overseer T E K G
  handle_rpc (create_interface address code poll_interval preinit) o =
      let (r, o') = Interfaces.create_interface address code poll_interval preinit o in
      (created r, o')
  handle_rpc (link_interface first second) o =
      let (r, o') = Interfaces.link_interfaces first second o in (finished r, o')
  handle_rpc (unlink_interface first second) o =
      let (r, o') = Interfaces.unlink_interfaces first second o in (finished r, o')
  handle_rpc (install_notification_filter interface protocol filter_code context) o =
      let (r, o') = Peers.install_notification_filter interface protocol filter_code context o in
      (finished r, o')
  handle_rpc (install_request_response_filter interface protocol filter_code context) o =
      let (r, o') =
        Peers.install_request_response_filter interface protocol filter_code context o in
      (finished r, o')

  -- What is left of a call whose error is only logged.
  abbrev pub logged : Option (Result T.foreign Unit × Overseer T E K G) → Option (Overseer T E K G)
  logged none = none
  logged (some (r, o)) = some o

  unfoldable pub handle_network : InterfaceEvent T K → Overseer T E K G → Option (Overseer T E K G)
  handle_network (peer_connected interface peer protocols sink) o =
      some (Peers.register_peer interface peer protocols sink o).1
  handle_network (peer_disconnected interface peer) o =
      some (Peers.unregister_peer interface peer o).1
  handle_network (message_received interface peer protocol message) o =
      logged (Peers.inject_notification interface peer protocol message o)
  handle_network (request_received interface peer protocol request) o =
      some (Peers.inject_request interface peer protocol request o).1
  handle_network (response_received interface peer protocol request_id response) o =
      some (Peers.inject_response interface peer protocol request_id response o).1
  handle_network (connection_upgraded interface peer upgrade) o =
      logged (Peers.apply_connection_upgrade interface peer upgrade o)
  handle_network (peer_discovered peer) o = some (Peers.discover_peer peer o).1

  unfoldable pub handle_input : Input T K → Overseer T E K G → Option (Overseer T E K G)
  unfolding handle_rpc handle_network
  handle_input (rpc event) o = some (handle_rpc event o).1
  handle_input (network event) o = handle_network event o
  handle_input (filter (Filter.connect interface peer)) o =
      some (Peers.connect_to_peer interface peer o).1

  -- `none` if a message makes the overseer panic.
  unfoldable pub run : List (Input T K) → Overseer T E K G → Option (Overseer T E K G)
  run [] o = some o
  run (input ∷ rest) o = elim (handle_input input o) [ none ↦ none | some o' ↦ run rest o' ]
