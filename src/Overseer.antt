-- ===== src/Overseer.antt =====
-- src/overseer.rs: the overseer owns the interfaces and the links between them, and passes what the
-- network reports on to the filters of the interfaces and to the heuristics backend.
pub mod Interfaces
pub mod Peers
pub mod Delivery
pub mod Invariant
pub mod Growth
pub mod Run
pub mod Reach
pub mod Steps
pub mod Safety
pub mod Links
pub mod Unlinking
pub mod Creation
pub mod Peering
pub mod Existence
pub mod Permanence
pub mod Expected
use swarm_host.Prelude.{ℕ, List, ap}
use swarm_host.Map.{HashMap, HashSet}
use swarm_host.Backend.{NetworkBackend, PacketSink}
use swarm_host.Executor.{Executor}
use swarm_host.Heuristics.Handle.{HeuristicsHandle}
use swarm_host.Filter.{Filter}
use swarm_host.Filter.Handle.{FilterHandle}
use swarm_host.Graph.{UnGraph}

pub record PeerInfo (T : NetworkBackend) : Type 0 where
  pub protocols : HashSet T.Protocol

pub record InterfaceInfo (T : NetworkBackend) (K : PacketSink T) : Type 0 where
  pub handle : T.InterfaceHandle
  pub discovered : HashSet T.PeerId
  pub peers : HashMap T.PeerId (PeerInfo T)
  pub filter : FilterHandle T K
  pub index : ℕ
  pub peer : T.PeerId

-- The channels that the overseer reads are the arguments of its operations. `spawned` are the
-- filters whose tasks it has started, as they were when they started.
pub record Overseer (T : NetworkBackend) (E : Executor T) (K : PacketSink T)
    (G : UnGraph T.InterfaceId) : Type 0 where
  pub backend : T.State
  pub interfaces : HashMap T.InterfaceId (InterfaceInfo T K)
  pub interface_peer_ids : HashMap T.PeerId T.InterfaceId
  pub event_streams : List T.EventStream
  pub links : G.Graph
  pub edges : HashMap (T.InterfaceId × T.InterfaceId) ℕ
  pub heuristics_handle : HeuristicsHandle T
  pub parameters : T.NetworkParameters
  pub spawned : List (Filter T E K)

-- Equality of pairs of interfaces.
unfoldable pub pair_eq {ℓ} : {A : Type ℓ} → Discrete A → Discrete (A × A)
pair_eq eq (a, b) (c, d) = elim (eq a c) [
  | no h ↦ no (λ e. h (ap (λ t. t.0) e))
  | yes h ↦ elim (eq b d) [ no k ↦ no (λ e. k (ap (λ t. t.1) e)) | yes k ↦ yes (λ i. (h i, k i)) ]
]
