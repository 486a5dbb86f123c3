-- ===== src/Demo.antt =====
-- A small concrete network, on which the theorems are run: every identifier is a number, an
-- executor answers with the events that it was given, and a sink keeps what it was sent.
pub mod Components
pub mod ListGraph
use swarm_host.Prelude.{ℕ, suc, ◌+◌, String, Option, none, some, List, [], ◌∷◌, ◌++◌, ℕ_discrete}
use swarm_host.Map.{HashMap}
use swarm_host.Error.{Foreign, Result, ok, err}
use swarm_host.Backend.{NetworkBackend, PacketSink}
use swarm_host.Executor.{Executor, ExecutorEvent, Events}
pub use ListGraph.{list_graph, list_graph-laws}

abbrev pub numbers : Foreign
numbers = record { SocketAddr = ℕ; IoError = ℕ; CborError = ℕ; SubstrateError = ℕ }

-- The state is the next identifier; a peer's identifier is the interface's and 100.
abbrev pub network : NetworkBackend
network = record {
  foreign = numbers;
  Duration = ℕ;
  EventStream = ℕ;
  PeerId = ℕ;
  InterfaceId = ℕ;
  RequestId = ℕ;
  Protocol = ℕ;
  Message = ℕ;
  Request = ℕ;
  Response = ℕ;
  InterfaceHandle = ℕ;
  NetworkParameters = ℕ;
  InterfaceParameters = ℕ;
  State = ℕ;
  peer_eq = ℕ_discrete;
  interface_eq = ℕ_discrete;
  protocol_eq = ℕ_discrete;
  message_hash = λ m. m;
  message_size = λ m. m + 10;
  request_hash = λ r. r;
  request_size = λ r. r;
  request_id = λ r. r;
  response_hash = λ r. r;
  response_size = λ r. r;
  interface_id = λ h. h;
  peer_id = λ h. h + 100;
  connect = λ p h. (ok tt, h);
  create = λ p. p;
  spawn_interface = λ a p n. (ok (n, n), suc n);
}

-- What a peer was sent, oldest first: the kind and the content.
abbrev pub sinks : PacketSink network
sinks = record {
  Sink = List (ℕ × ℕ);
  send_packet = λ protocol m s. (ok tt, s ++ (0, m) ∷ []);
  send_request = λ protocol payload s. (ok 7, s ++ (1, 0) ∷ []);
  send_response = λ id payload s. (ok tt, s ++ (2, id) ∷ []);
}

-- The events that the next call returns.
abbrev pub Script : Type 0
Script = List (ExecutorEvent network)

abbrev pub play : Script → Events network × Script
play s = (ok s, [])

abbrev pub scripted : Executor network
scripted = record {
  State = Script;
  initialize_interface = λ code p. ok p;
  create = λ i code context. ok [];
  poll = play;
  register_peer = λ p s. play s;
  discover_peer = λ p s. play s;
  unregister_peer = λ p s. play s;
  protocol_opened = λ p pr s. play s;
  protocol_closed = λ p pr s. play s;
  install_notification_filter = λ pr code s. (ok tt, s);
  install_request_response_filter = λ pr code s. (ok tt, s);
  inject_notification = λ pr p m s. play s;
  inject_request = λ pr p r s. play s;
  inject_response = λ pr p r s. play s;
}
