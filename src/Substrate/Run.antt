-- ===== src/Substrate/Run.antt =====
-- src/backend/substrate/network/service.rs, `run`: the event loop of the task, over what wakes it
-- up, in the order in which `select!` takes it. Of the events of the swarm that are only logged the
-- contents are left out. `run` first adds a response that never arrives, so that there is always one
-- to wait for; it is not kept.
use swarm_host.Prelude.{ℕ, suc, zero, none, some, List, [], ◌∷◌, get_elem?, ℕ_discrete}
use swarm_host.Map.{insert, discard}
use swarm_host.Substrate.{Library}
use swarm_host.Substrate.Network
use swarm_host.Substrate.Network.{
  SubstrateNetwork, Command, BehaviourOut, IncomingRequest, PendingResponse, emit,
}
use swarm_host.Substrate.Handlers.{next_request_id, on_command, on_swarm_event}

-- Result<Result<Vec<u8>, RequestFailure>, Canceled>
pub data Outcome (L : Library) : Type 0 where
  response : List ℕ → Outcome L
  failure : L.RequestFailure → Outcome L
  canceled : Outcome L

pub data SwarmEvent (L : Library) : Type 0 where
  behaviour : BehaviourOut L → SwarmEvent L
  connection_established : L.PeerId → SwarmEvent L
  connection_closed : L.PeerId → SwarmEvent L
  new_listen_addr : SwarmEvent L
  expired_listen_addr : SwarmEvent L
  outgoing_connection_error : SwarmEvent L
  dialing : SwarmEvent L
  incoming_connection : SwarmEvent L
  incoming_connection_error : SwarmEvent L
  banned_peer : SwarmEvent L
  listener_closed : SwarmEvent L
  listener_error : SwarmEvent L

-- A request of a peer over a protocol; the outcome of the response at this place of those that are
-- waited for; a command; an event of the swarm.
pub data Wake (L : Library) : Type 0 where
  map : L.ProtocolName → IncomingRequest L → Wake L
  pending_response : ℕ → Outcome L → Wake L
  command_rx : Command L → Wake L
  swarm : SwarmEvent L → Wake L

-- The items but the one at the place.
unfoldable pub without {ℓ} : {A : Type ℓ} → ℕ → List A → List A
without i [] = []
without zero (x ∷ xs) = xs
without (suc i) (x ∷ xs) = x ∷ without i xs

module _ {L : Library} where
  unfoldable pub accept_request :
      L.ProtocolName → IncomingRequest L → SubstrateNetwork L → SubstrateNetwork L
  unfolding next_request_id
  accept_request protocol request n =
      let (id, n') = next_request_id n in
      let n'' = emit (Network.request_received request.peer protocol id request.payload) n' in
      record n'' {
        pending_requests =
            insert ℕ_discrete id (L.hash request.payload, request.pending_response)
              n''.pending_requests;
      }

  unfoldable pub finish_request :
      PendingResponse L → Outcome L → SubstrateNetwork L → SubstrateNetwork L
  finish_request (peer, protocol, id) (response r) n =
      emit (Network.response_received peer protocol id r) n
  finish_request pending (failure e) n = n
  finish_request pending canceled n = n

  -- The next response that has arrived is taken from those that are waited for.
  unfoldable pub select_response : ℕ → Outcome L → SubstrateNetwork L → SubstrateNetwork L
  unfolding without finish_request
  select_response i outcome n = elim (get_elem? n.pending_responses i) [
    | none ↦ n
    | some pending ↦
        finish_request pending outcome
          (record n { pending_responses = without i n.pending_responses })
  ]

  unfoldable pub handle_swarm : SwarmEvent L → SubstrateNetwork L → SubstrateNetwork L
  handle_swarm (behaviour event) n = on_swarm_event event n
  handle_swarm (connection_established peer) n = emit (Network.peer_connected peer) n
  handle_swarm (connection_closed peer) n =
      let n' = emit (Network.peer_disconnected peer) n in
      let n'' = emit (Network.peer_disconnected peer) n' in
      record n'' { rename = discard L.peer_eq peer n''.rename }
  handle_swarm new_listen_addr n = n
  handle_swarm expired_listen_addr n = n
  handle_swarm outgoing_connection_error n = n
  handle_swarm dialing n = n
  handle_swarm incoming_connection n = n
  handle_swarm incoming_connection_error n = n
  handle_swarm banned_peer n = n
  handle_swarm listener_closed n = n
  handle_swarm listener_error n = n

  -- The body of the loop.
  unfoldable pub wake : Wake L → SubstrateNetwork L → SubstrateNetwork L
  unfolding accept_request select_response handle_swarm
  wake (map protocol request) n = accept_request protocol request n
  wake (pending_response i outcome) n = select_response i outcome n
  wake (command_rx command) n = on_command command n
  wake (swarm event) n = handle_swarm event n

  unfoldable pub run : List (Wake L) → SubstrateNetwork L → SubstrateNetwork L
  run [] n = n
  run (w ∷ rest) n = run rest (wake w n)

  -- The state that SubstrateNetwork::new returns.
  abbrev pub new : SubstrateNetwork L
  new = record {
    swarm = [];
    event_tx = [];
    notification_sinks = [];
    next_request = 0;
    pending_requests = [];
    pending_responses = [];
    cached_responses = [];
    discovered = [];
    rename = [];
    notified = [];
    responded = [];
    answers = [];
  }
