-- ===== src/Substrate/Handlers.antt =====
-- src/backend/substrate/network/service.rs: `on_command` and `on_swarm_event`.
use swarm_host.Prelude.{
  ℕ, ◌+◌, ◌%◌, ◌^◌, inl, none, some, List, [], ◌∷◌, ◌++◌, true, false, ℕ_discrete,
}
use swarm_host.Map.{get, insert, remove, contains, add}
use swarm_host.Substrate.{Library}
use swarm_host.Substrate.Network
use swarm_host.Substrate.Network.{
  SubstrateNetwork, Command, SwarmCall, BehaviourOut, IfDisconnected, immediate_error, key_eq, emit,
  call,
}

module _ {L : Library} where
  -- The identifier, and the network with the next one; a usize wraps around.
  unfoldable pub next_request_id : SubstrateNetwork L → ℕ × SubstrateNetwork L
  next_request_id n = (n.next_request, record n { next_request = (n.next_request + 1) % 2 ^ 64 })

  unfoldable pub send_notification :
      L.PeerId → L.ProtocolName → List ℕ → SubstrateNetwork L → SubstrateNetwork L
  send_notification peer protocol message n =
      elim (get (key_eq L) (peer, protocol) n.notification_sinks) [
        | none ↦ n
        | some sink ↦ record n { notified = n.notified ++ (sink, message) ∷ [] }
      ]

  -- match self.cached_responses.get(&digest) { … }
  unfoldable pub request_or_cached :
      L.PeerId → L.ProtocolName → List ℕ → ℕ → SubstrateNetwork L → SubstrateNetwork L
  request_or_cached peer protocol request id n =
      elim (get ℕ_discrete (L.hash request) n.cached_responses) [
        | some response ↦ emit (Network.response_received peer protocol id response) n
        | none ↦ record n {
          swarm = n.swarm ++ SwarmCall.send_request peer protocol request id immediate_error ∷ [];
          pending_responses = n.pending_responses ++ (peer, protocol, id) ∷ [];
        }
      ]

  unfoldable pub send_request :
      L.PeerId → L.ProtocolName → List ℕ → SubstrateNetwork L → SubstrateNetwork L
  unfolding next_request_id request_or_cached
  send_request peer protocol request n =
      let (id, n') = next_request_id n in
      request_or_cached peer protocol request id (record n' { answers = n'.answers ++ id ∷ [] })

  unfoldable pub send_response : ℕ → List ℕ → SubstrateNetwork L → SubstrateNetwork L
  send_response id response n = elim (get ℕ_discrete id n.pending_requests) [
    | none ↦ n
    | some (digest, channel) ↦ record n {
      pending_requests = remove ℕ_discrete id n.pending_requests;
      cached_responses = insert ℕ_discrete digest response n.cached_responses;
      responded =
          n.responded
          ++ (
            channel,
            record { result = inl response; reputation_changes = []; sent_feedback = none },
          )
            ∷ [];
    }
  ]

  unfoldable pub on_command : Command L → SubstrateNetwork L → SubstrateNetwork L
  unfolding send_notification send_request send_response
  on_command (Command.send_notification peer protocol message) n =
      send_notification peer protocol message n
  on_command (Command.send_request peer protocol request) n = send_request peer protocol request n
  on_command (Command.send_response peer id response) n = send_response id response n
  on_command (Command.connect peer) n = call (SwarmCall.connect peer) n
  -- The set is HARDCODED_PEERSETS_SYNC.
  on_command (Command.disconnect peer) n = call (SwarmCall.disconnect_peer peer) n

  unfoldable pub report_each :
      L.PeerId → List L.ReputationChange → SubstrateNetwork L → SubstrateNetwork L
  report_each peer [] n = n
  report_each peer (change ∷ rest) n =
      report_each peer rest (call (SwarmCall.report_peer peer change) n)

  unfoldable pub add_each :
      L.PeerId → List L.ProtocolName → List L.Multiaddr → SubstrateNetwork L → SubstrateNetwork L
  add_each peer protocols [] n = n
  add_each peer protocols (addr ∷ rest) n =
      add_each peer protocols rest
        (call (SwarmCall.add_self_reported_address_to_dht peer protocols addr) n)

  unfoldable pub receive_each :
      L.PeerId → List (L.ProtocolName × List ℕ) → SubstrateNetwork L → SubstrateNetwork L
  receive_each peer [] n = n
  receive_each peer ((protocol, bytes) ∷ rest) n =
      receive_each peer rest (emit (Network.notification_received peer protocol bytes) n)

  -- if self.discovered.insert(peer) { … }
  unfoldable pub discover : L.PeerId → SubstrateNetwork L → SubstrateNetwork L
  discover peer n = elim (contains L.peer_eq peer n.discovered) [
    | true ↦ n
    | false ↦
        emit (Network.peer_discovered peer)
          (record n { discovered = add L.peer_eq peer n.discovered })
  ]

  unfoldable pub on_swarm_event : BehaviourOut L → SubstrateNetwork L → SubstrateNetwork L
  unfolding report_each add_each receive_each discover
  on_swarm_event BehaviourOut.random_kademlia_started n = n
  on_swarm_event BehaviourOut.inbound_request n = n
  on_swarm_event BehaviourOut.request_finished n = n
  on_swarm_event (BehaviourOut.reputation_changes peer changes) n = report_each peer changes n
  on_swarm_event (BehaviourOut.notification_stream_opened remote protocol sink) n =
      emit (Network.protocol_opened remote protocol) (record n {
        notification_sinks = insert (key_eq L) (remote, protocol) sink n.notification_sinks;
      })
  on_swarm_event (BehaviourOut.notification_stream_replaced remote protocol sink) n = record n {
    notification_sinks = insert (key_eq L) (remote, protocol) sink n.notification_sinks;
  }
  on_swarm_event (BehaviourOut.notification_stream_closed remote protocol) n =
      emit (Network.protocol_closed remote protocol) (record n {
        notification_sinks = remove (key_eq L) (remote, protocol) n.notification_sinks;
      })
  on_swarm_event (BehaviourOut.notifications_received remote messages) n =
      receive_each remote messages n
  on_swarm_event (BehaviourOut.peer_identify peer addrs protocols) n =
      add_each peer protocols addrs n
  on_swarm_event (BehaviourOut.discovered peer) n = discover peer n
  on_swarm_event BehaviourOut.dht n = n
  on_swarm_event BehaviourOut.nothing n = n
