-- ===== src/Substrate/Network.antt =====
-- src/backend/substrate/network/service.rs: the state of SubstrateNetwork. Calls of the
-- swarm, messages on the sinks, responses on the channels of requests and identifiers that are
-- handed back are kept as lists, the oldest first. Events of the swarm that are only logged have
-- constructors without their contents.
use swarm_host.Prelude.{ℕ, ◌⊎◌, Option, List, [], ◌∷◌, ◌++◌}
use swarm_host.Map.{HashMap, HashSet}
use swarm_host.Substrate.{Library, pair_eq}

pub data SubstrateNetworkEvent (L : Library) : Type 0 where
  peer_connected : L.PeerId → SubstrateNetworkEvent L
  peer_disconnected : L.PeerId → SubstrateNetworkEvent L
  protocol_opened : L.PeerId → L.ProtocolName → SubstrateNetworkEvent L
  protocol_closed : L.PeerId → L.ProtocolName → SubstrateNetworkEvent L
  notification_received : L.PeerId → L.ProtocolName → List ℕ → SubstrateNetworkEvent L
  request_received : L.PeerId → L.ProtocolName → ℕ → List ℕ → SubstrateNetworkEvent L
  response_received : L.PeerId → L.ProtocolName → ℕ → List ℕ → SubstrateNetworkEvent L
  peer_discovered : L.PeerId → SubstrateNetworkEvent L

-- The channel that takes the identifier of a request is not a field: see `answers`.
pub data Command (L : Library) : Type 0 where
  send_notification : L.PeerId → L.ProtocolName → List ℕ → Command L
  send_request : L.PeerId → L.ProtocolName → List ℕ → Command L
  send_response : L.PeerId → ℕ → List ℕ → Command L
  connect : L.PeerId → Command L
  disconnect : L.PeerId → Command L

pub record IncomingRequest (L : Library) : Type 0 where
  pub peer : L.PeerId
  pub payload : List ℕ
  pub pending_response : L.ResponseSender

pub record OutgoingResponse (L : Library) : Type 0 where
  pub result : List ℕ ⊎ Unit {0}
  pub reputation_changes : List L.ReputationChange
  pub sent_feedback : Option L.FeedbackSender

pub data IfDisconnected : Type 0 where
  try_connect : IfDisconnected
  immediate_error : IfDisconnected

-- What the swarm's behaviour is called with. The other end of the channel of a request is the
-- pending response with the same identifier.
pub data SwarmCall (L : Library) : Type 0 where
  send_request : L.PeerId → L.ProtocolName → List ℕ → ℕ → IfDisconnected → SwarmCall L
  report_peer : L.PeerId → L.ReputationChange → SwarmCall L
  add_self_reported_address_to_dht : L.PeerId → List L.ProtocolName → L.Multiaddr → SwarmCall L
  connect : L.PeerId → SwarmCall L
  disconnect_peer : L.PeerId → SwarmCall L

-- (PeerId, ProtocolName, usize, _): a response that is waited for.
abbrev pub PendingResponse : Library → Type 0
PendingResponse L = L.PeerId × L.ProtocolName × ℕ

pub record SubstrateNetwork (L : Library) : Type 0 where
  pub swarm : List (SwarmCall L)
  pub event_tx : List (SubstrateNetworkEvent L)
  pub notification_sinks : HashMap (L.PeerId × L.ProtocolName) L.NotificationsSink
  pub next_request : ℕ
  pub pending_requests : HashMap ℕ (ℕ × L.ResponseSender)
  pub pending_responses : List (PendingResponse L)
  pub cached_responses : HashMap ℕ (List ℕ)
  pub discovered : HashSet L.PeerId
  pub rename : HashSet L.PeerId
  -- What was sent over the sinks and over the channels.
  pub notified : List (L.NotificationsSink × List ℕ)
  pub responded : List (L.ResponseSender × OutgoingResponse L)
  pub answers : List ℕ

pub data BehaviourOut (L : Library) : Type 0 where
  random_kademlia_started : BehaviourOut L
  inbound_request : BehaviourOut L
  request_finished : BehaviourOut L
  reputation_changes : L.PeerId → List L.ReputationChange → BehaviourOut L
  notification_stream_opened : L.PeerId → L.ProtocolName → L.NotificationsSink → BehaviourOut L
  notification_stream_replaced : L.PeerId → L.ProtocolName → L.NotificationsSink → BehaviourOut L
  notification_stream_closed : L.PeerId → L.ProtocolName → BehaviourOut L
  notifications_received : L.PeerId → List (L.ProtocolName × List ℕ) → BehaviourOut L
  peer_identify : L.PeerId → List L.Multiaddr → List L.ProtocolName → BehaviourOut L
  discovered : L.PeerId → BehaviourOut L
  dht : BehaviourOut L
  nothing : BehaviourOut L

-- The sinks are kept under (PeerId, ProtocolName).
unfoldable pub key_eq : (L : Library) → Discrete (L.PeerId × L.ProtocolName)
unfolding pair_eq
key_eq L = pair_eq L.peer_eq L.protocol_eq

module _ {L : Library} where
  -- self.event_tx.send(event).await
  abbrev pub emit : SubstrateNetworkEvent L → SubstrateNetwork L → SubstrateNetwork L
  emit event n = record n { event_tx = n.event_tx ++ event ∷ [] }

  abbrev pub call : SwarmCall L → SubstrateNetwork L → SubstrateNetwork L
  call c n = record n { swarm = n.swarm ++ c ∷ [] }
