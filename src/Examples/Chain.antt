-- ===== src/Examples/Chain.antt =====
-- A network task of the Substrate backend, over a library in which everything is a number.
use swarm_host.Prelude.{
  ℕ, ◌+◌, ◌^◌, ◌<◌, ◌≡◌, refl, true, false, none, some, List, [], ◌∷◌, ◌++◌, arith, length, total,
  collect, ℕ_discrete, if◌then◌else◌, ltb, inr,
}
use swarm_host.Map.{get, insert, contains, contained, add}
use swarm_host.Error.{ok}
use swarm_host.Executor.{Executor}
use swarm_host.Demo.{numbers, list_graph, list_graph-laws}
use swarm_host.Overseer.{Overseer}
use swarm_host.Overseer.Interfaces.{create_interface}
use swarm_host.Overseer.Invariant.{WellFormed, empty-WellFormed}
use swarm_host.Overseer.Growth.{create_interface-WellFormed}
use swarm_host.Overseer.Safety.{Goes}
use swarm_host.Overseer.Run
use swarm_host.Substrate.{Library}
use swarm_host.Substrate.Network
use swarm_host.Substrate.Network.{SubstrateNetwork, Command, BehaviourOut, SubstrateNetworkEvent}
use swarm_host.Substrate.Handlers.{on_command, on_swarm_event}
use swarm_host.Substrate.Run.{
  Wake, SwarmEvent, map, pending_response, command_rx, swarm, response, new, run, wake,
}
use swarm_host.Substrate.Peers.{
  connections, disconnections, established, closed, run-connections, discoveries, found_by,
  run-discoveries,
}
use swarm_host.Substrate.Streams.{deliveries, streams, run-deliveries}
use swarm_host.Substrate.Reports.{on_stream, stream_events, run-on_stream}
use swarm_host.Substrate.Identifiers.{uses, asks, run-uses}
use swarm_host.Substrate.Outbound.{asked, responses, waiting, failures, run-asked}
use swarm_host.Substrate.Inbound.{brought, sent, unanswered, run-brought}
use swarm_host.Substrate.Cache.{Given, given, run-cached}
use swarm_host.Substrate.Protocols.{NetworkConfiguration, configure, yamux_maximum_buffer_size}
use swarm_host.Substrate.Buffers.{Fits, yamux_maximum_buffer_size-Fits}
use swarm_host.Substrate.Adapter.{Host, substrate_backend, substrate_sink, spawn_interface, create}
use swarm_host.Substrate.Pipeline.{Reported, inputs, run-inputs}

abbrev library : Library
library = record {
  PeerId = ℕ;
  ProtocolName = ℕ;
  NotificationsSink = ℕ;
  ResponseSender = ℕ;
  FeedbackSender = ℕ;
  RequestFailure = ℕ;
  ReputationChange = ℕ;
  Multiaddr = ℕ;
  peer_eq = ℕ_discrete;
  protocol_eq = ℕ_discrete;
  hash = length;
}

abbrev Task : Type 0
Task = SubstrateNetwork library

-- Peer 7 connects, asks, is answered and asked, opens a stream, is found twice and goes.
abbrev visit : List (Wake library)
visit =
    swarm (SwarmEvent.connection_established 7)
    ∷ map 1 (record { peer = 7; payload = 5 ∷ 6 ∷ []; pending_response = 40 })
    ∷ command_rx (Command.send_response 7 0 (9 ∷ []))
    ∷ command_rx (Command.send_request 7 1 (4 ∷ []))
    ∷ pending_response 0 (response (8 ∷ []))
    ∷ swarm (SwarmEvent.behaviour (BehaviourOut.notification_stream_opened 7 1 55))
    ∷ command_rx (Command.send_notification 7 1 (3 ∷ []))
    ∷ swarm (SwarmEvent.behaviour (BehaviourOut.notifications_received 7 ((1, 2 ∷ []) ∷ [])))
    ∷ swarm (SwarmEvent.behaviour (BehaviourOut.discovered 7))
    ∷ swarm (SwarmEvent.behaviour (BehaviourOut.discovered 7))
    ∷ swarm (SwarmEvent.connection_closed 7)
    ∷ []

abbrev fresh_task : Task
fresh_task = new

abbrev gone : Task
gone = run visit new

run-connections_example :
    (total (connections 7) gone.event_tx
      ≡ total (connections 7) fresh_task.event_tx + total (established 7) visit)
    × (total (disconnections 7) gone.event_tx
        ≡ total (disconnections 7) fresh_task.event_tx
          + (total (closed 7) visit + total (closed 7) visit))
run-connections_example = run-connections 7 visit new

run-discoveries_example :
    total (discoveries 7) gone.event_tx ≡ (if found_by 7 visit false then 1 else 0)
run-discoveries_example = run-discoveries 7 visit

run-deliveries_example :
    gone.notified ≡ fresh_task.notified ++ deliveries visit (streams fresh_task)
run-deliveries_example = run-deliveries visit new

run-on_stream_example :
    collect on_stream gone.event_tx
    ≡ collect on_stream fresh_task.event_tx ++ collect stream_events visit
run-on_stream_example = run-on_stream visit new

visit-lt : length visit < 2 ^ 64
visit-lt = omega arith

run-uses_example : uses 1 gone ≡ (if ltb 1 (total asks visit) then 1 else 0)
run-uses_example = run-uses 1 visit visit-lt

run-asked_example : asked 1 gone ≡ responses 1 gone + waiting 1 gone + failures 1 visit new
run-asked_example = run-asked 1 visit

run-brought_example :
    total (brought ℕ_discrete 40) visit ≡ sent ℕ_discrete 40 gone + unanswered ℕ_discrete 40 gone
run-brought_example = run-brought ℕ_discrete 40 visit visit-lt

gone_cached : get ℕ_discrete 2 gone.cached_responses ≡ some (9 ∷ [])
unfolding run wake get insert ℕ_discrete on_swarm_event contains on_command Network.key_eq add
gone_cached = refl

run-cached_example : Given gone.event_tx (collect given visit) 2 (9 ∷ [])
run-cached_example = run-cached visit 2 (9 ∷ []) gone_cached

abbrev host : Host
host = record {
  library = library;
  foreign = numbers;
  Duration = ℕ;
  start = λ i genesis handshake. inr (i + 100);
  request_id = length;
}

abbrev silent : Executor (substrate_backend host)
silent = record {
  State = ℕ;
  initialize_interface = λ code p. ok (record { handshake = [] });
  create = λ i code context. ok 0;
  poll = λ s. (ok [], s);
  register_peer = λ p s. (ok [], s);
  discover_peer = λ p s. (ok [], s);
  unregister_peer = λ p s. (ok [], s);
  protocol_opened = λ p pr s. (ok [], s);
  protocol_closed = λ p pr s. (ok [], s);
  install_notification_filter = λ pr code s. (ok tt, s);
  install_request_response_filter = λ pr code s. (ok tt, s);
  inject_notification = λ pr p m s. (ok [], s);
  inject_request = λ pr p r s. (ok [], s);
  inject_response = λ pr p r s. (ok [], s);
}

abbrev Chain : Type 0
Chain = Overseer (substrate_backend host) silent (substrate_sink host) list_graph

abbrev nothing : Chain
nothing = Run.new (record { genesis_hash = [] })

abbrev two : Chain
two = (create_interface 8000 "code" 5 none (create_interface 8001 "code" 5 none nothing).1).1

two-WellFormed : WellFormed two
unfolding Run.new
two-WellFormed = create_interface-WellFormed list_graph-laws 8000 "code" 5 none _ (
    create_interface-WellFormed list_graph-laws 8001 "code" 5 none nothing
      (empty-WellFormed nothing refl refl))

abbrev reported : Reported host
reported =
    (0, Network.peer_connected 7)
    ∷ (1, Network.protocol_opened 7 1)
    ∷ (0, Network.request_received 7 1 0 (5 ∷ []))
    ∷ (0, Network.peer_disconnected 7)
    ∷ []

two_has-0 : contained (get ℕ_discrete 0 two.interfaces) ≡ true
unfolding create_interface get insert ℕ_discrete spawn_interface Run.new create
two_has-0 = refl

two_has-1 : contained (get ℕ_discrete 1 two.interfaces) ≡ true
unfolding create_interface get insert ℕ_discrete spawn_interface Run.new create
two_has-1 = refl

run-inputs_example : Goes (Run.run (inputs host reported) two)
run-inputs_example =
    run-inputs host list_graph-laws reported two two-WellFormed
      (two_has-0, (two_has-1, (two_has-0, (two_has-0, tt))))

abbrev configured : NetworkConfiguration
configured =
    (configure
      (record { request_response_protocols = []; extra_sets = []; listen_addresses = [] })).0

yamux_maximum_buffer_size-Fits_example : Fits configured (yamux_maximum_buffer_size configured)
yamux_maximum_buffer_size-Fits_example = yamux_maximum_buffer_size-Fits configured
