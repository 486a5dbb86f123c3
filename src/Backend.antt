-- ===== src/Backend.antt =====
-- src/backend/mod.rs: what a network backend implements, and the events it reports. The associated
-- types of a backend, and the code behind its traits, are fields of records that the rest of the
-- model takes as parameters. A method on `&mut self` returns the new `self` beside its result.
pub mod Mockchain
pub mod Identifiers
pub mod Calls
pub mod Masquerade
pub mod Messages
pub mod Samples
pub mod Protocols
use swarm_host.Prelude.{ℕ, Option, List}
use swarm_host.Map.{HashSet}
use swarm_host.Error.{Foreign, Result}

-- The trait `NetworkBackend`, with `Interface` (on the handles), `Idable` and `WithMessageInfo`.
pub record NetworkBackend : Type 1 where
  pub foreign : Foreign
  pub Duration : Type 0
  pub EventStream : Type 0
  pub PeerId : Type 0
  pub InterfaceId : Type 0
  pub RequestId : Type 0
  pub Protocol : Type 0
  pub Message : Type 0
  pub Request : Type 0
  pub Response : Type 0
  pub InterfaceHandle : Type 0
  pub NetworkParameters : Type 0
  pub InterfaceParameters : Type 0
  pub State : Type 0
  pub peer_eq : Discrete PeerId
  pub interface_eq : Discrete InterfaceId
  pub protocol_eq : Discrete Protocol
  pub message_hash : Message → ℕ
  pub message_size : Message → ℕ
  pub request_hash : Request → ℕ
  pub request_size : Request → ℕ
  pub request_id : Request → RequestId
  pub response_hash : Response → ℕ
  pub response_size : Response → ℕ
  pub interface_id : InterfaceHandle → InterfaceId
  pub peer_id : InterfaceHandle → PeerId
  pub connect : PeerId → InterfaceHandle → Result foreign Unit × InterfaceHandle
  pub create : NetworkParameters → State
  pub spawn_interface :
      foreign.SocketAddr
      → Option InterfaceParameters
      → State
      → Result foreign (InterfaceHandle × EventStream) × State

-- The trait `PacketSink`: a socket to one peer.
pub record PacketSink (T : NetworkBackend) : Type 1 where
  pub Sink : Type 0
  pub send_packet : Option T.Protocol → T.Message → Sink → Result T.foreign Unit × Sink
  pub send_request : T.Protocol → List ℕ → Sink → Result T.foreign T.RequestId × Sink
  pub send_response : T.RequestId → List ℕ → Sink → Result T.foreign Unit × Sink

pub data ConnectionUpgrade (T : NetworkBackend) : Type 0 where
  protocol_opened : HashSet T.Protocol → ConnectionUpgrade T
  protocol_closed : HashSet T.Protocol → ConnectionUpgrade T

pub data InterfaceEvent (T : NetworkBackend) (K : PacketSink T) : Type 0 where
  peer_connected : T.InterfaceId → T.PeerId → List T.Protocol → K.Sink → InterfaceEvent T K
  peer_disconnected : T.InterfaceId → T.PeerId → InterfaceEvent T K
  connection_upgraded : T.InterfaceId → T.PeerId → ConnectionUpgrade T → InterfaceEvent T K
  message_received : T.InterfaceId → T.PeerId → T.Protocol → T.Message → InterfaceEvent T K
  request_received : T.InterfaceId → T.PeerId → T.Protocol → T.Request → InterfaceEvent T K
  response_received :
      T.InterfaceId → T.PeerId → T.Protocol → T.RequestId → T.Response → InterfaceEvent T K
  peer_discovered : T.PeerId → InterfaceEvent T K
