-- ===== src/Substrate.antt =====
-- src/backend/substrate: the backend that takes part in the network of a Substrate chain.
-- network/service.rs is the task behind an interface, mod.rs joins it to the rest of the program.
-- The networking libraries below it (libp2p and the copy of sc-network) are a parameter, `Library`.
pub mod Network
pub mod Handlers
pub mod Run
pub mod Emitted
pub mod Frame
pub mod Peers
pub mod Protocols
pub mod Buffers
pub mod Adapter
pub mod Pipeline
pub mod Cache
pub mod Inbound
pub mod Outbound
pub mod Identifiers
pub mod Reports
pub mod Streams
use swarm_host.Prelude.{ℕ, ap, List}

pub record Library : Type 1 where
  pub PeerId : Type 0
  pub ProtocolName : Type 0
  pub NotificationsSink : Type 0
  -- channel::oneshot::Sender<OutgoingResponse> and oneshot::Sender<()>
  pub ResponseSender : Type 0
  pub FeedbackSender : Type 0
  pub RequestFailure : Type 0
  pub ReputationChange : Type 0
  pub Multiaddr : Type 0
  pub peer_eq : Discrete PeerId
  pub protocol_eq : Discrete ProtocolName
  -- DefaultHasher, on the bytes that are written to it
  pub hash : List ℕ → ℕ

-- Equality of the keys (PeerId, ProtocolName).
unfoldable pub pair_eq {ℓ κ} :
    {A : Type ℓ} {B : Type κ} → Discrete A → Discrete B → Discrete (A × B)
pair_eq eq eq' (a, b) (c, d) = elim (eq a c) [
  | no different ↦ no (λ e. different (ap (λ x. x.0) e))
  | yes p ↦ elim (eq' b d) [
    | no different ↦ no (λ e. different (ap (λ x. x.1) e))
    | yes q ↦ yes (λ i. (p i, q i))
  ]
]
