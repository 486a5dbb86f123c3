-- ===== src/Substrate/Emitted.antt =====
-- src/backend/substrate/network/service.rs: the events that the task reports, for each thing that
-- wakes it up.
use swarm_host.Prelude.{
  ℕ, ◌+◌, ◌≡◌, refl, sym, ◌∙◌, ap, inl, inr, Option, none, some, List, [], ◌∷◌, ◌++◌, Bool, true,
  false, arith, append-nil, append_assoc, get_elem?, Option-cases, Bool-cases, total, total-append,
  collect, collect-append, ℕ_discrete,
}
use swarm_host.Map.{get, contains}
use swarm_host.Substrate.{Library}
use swarm_host.Substrate.Network
use swarm_host.Substrate.Network.{
  SubstrateNetwork, SubstrateNetworkEvent, Command, BehaviourOut, PendingResponse, key_eq,
}
use swarm_host.Substrate.Handlers.{
  request_or_cached, send_notification, send_response, on_command, report_each, add_each,
  receive_each, discover, on_swarm_event,
}
use swarm_host.Substrate.Run.{
  Outcome, SwarmEvent, Wake, map, pending_response, command_rx, swarm, finish_request,
  select_response, handle_swarm, wake,
}

module _ {L : Library} where
  unfoldable pub notifications :
      L.PeerId → List (L.ProtocolName × List ℕ) → List (SubstrateNetworkEvent L)
  notifications peer [] = []
  notifications peer ((protocol, bytes) ∷ rest) =
      Network.notification_received peer protocol bytes ∷ notifications peer rest

  unfoldable pub from_cache :
      Option (List ℕ) → L.PeerId → L.ProtocolName → ℕ → List (SubstrateNetworkEvent L)
  from_cache none peer protocol id = []
  from_cache (some r) peer protocol id = Network.response_received peer protocol id r ∷ []

  unfoldable pub arrived : Option (PendingResponse L) → Outcome L → List (SubstrateNetworkEvent L)
  arrived none outcome = []
  arrived (some (peer, protocol, id)) (Outcome.response r) =
      Network.response_received peer protocol id r ∷ []
  arrived (some pending) (Outcome.failure e) = []
  arrived (some pending) Outcome.canceled = []

  unfoldable pub first_time : Bool → L.PeerId → List (SubstrateNetworkEvent L)
  first_time true peer = []
  first_time false peer = Network.peer_discovered peer ∷ []

  unfoldable pub emitted_by_swarm :
      SwarmEvent L → SubstrateNetwork L → List (SubstrateNetworkEvent L)
  emitted_by_swarm (SwarmEvent.connection_established p) n = Network.peer_connected p ∷ []
  emitted_by_swarm (SwarmEvent.connection_closed p) n =
      Network.peer_disconnected p ∷ Network.peer_disconnected p ∷ []
  emitted_by_swarm (SwarmEvent.behaviour (BehaviourOut.notification_stream_opened p pr s)) n =
      Network.protocol_opened p pr ∷ []
  emitted_by_swarm (SwarmEvent.behaviour (BehaviourOut.notification_stream_closed p pr)) n =
      Network.protocol_closed p pr ∷ []
  emitted_by_swarm (SwarmEvent.behaviour (BehaviourOut.notifications_received p ms)) n =
      notifications p ms
  emitted_by_swarm (SwarmEvent.behaviour (BehaviourOut.discovered p)) n =
      first_time (contains L.peer_eq p n.discovered) p
  emitted_by_swarm event n = []

  unfoldable pub emitted : Wake L → SubstrateNetwork L → List (SubstrateNetworkEvent L)
  unfolding notifications from_cache arrived first_time emitted_by_swarm
  emitted (map protocol request) n =
      Network.request_received request.peer protocol n.next_request request.payload ∷ []
  emitted (pending_response i outcome) n = arrived (get_elem? n.pending_responses i) outcome
  emitted (command_rx (Command.send_request peer protocol request)) n =
      from_cache (get ℕ_discrete (L.hash request) n.cached_responses) peer protocol n.next_request
  emitted (command_rx command) n = []
  emitted (swarm event) n = emitted_by_swarm event n

  report_each-event_tx :
      (p : L.PeerId) (cs : List L.ReputationChange) (n : SubstrateNetwork L)
      → (report_each p cs n).event_tx ≡ n.event_tx
  unfolding report_each
  report_each-event_tx p [] n = refl
  report_each-event_tx p (c ∷ cs) n = report_each-event_tx p cs _

  add_each-event_tx :
      (p : L.PeerId) (prs : List L.ProtocolName) (addrs : List L.Multiaddr) (n : SubstrateNetwork L)
      → (add_each p prs addrs n).event_tx ≡ n.event_tx
  unfolding add_each
  add_each-event_tx p prs [] n = refl
  add_each-event_tx p prs (a ∷ addrs) n = add_each-event_tx p prs addrs _

  receive_each-event_tx :
      (p : L.PeerId) (ms : List (L.ProtocolName × List ℕ)) (n : SubstrateNetwork L)
      → (receive_each p ms n).event_tx ≡ n.event_tx ++ notifications p ms
  unfolding receive_each notifications
  receive_each-event_tx p [] n = sym (append-nil n.event_tx)
  receive_each-event_tx p ((pr, b) ∷ ms) n =
      receive_each-event_tx p ms _ ∙ append_assoc n.event_tx _ _

  discover-event_tx :
      (p : L.PeerId) (n : SubstrateNetwork L)
      → (discover p n).event_tx ≡ n.event_tx ++ first_time (contains L.peer_eq p n.discovered) p
  unfolding discover first_time
  discover-event_tx p n = elim (Bool-cases (contains L.peer_eq p n.discovered)) [
    | inl e ↦ rw (e, discover) (sym (append-nil n.event_tx))
    | inr e ↦ rw (e, discover)
  ]

  request_or_cached-event_tx :
      (p : L.PeerId) (pr : L.ProtocolName) (q : List ℕ) (i : ℕ) (n : SubstrateNetwork L)
      → (request_or_cached p pr q i n).event_tx
        ≡ n.event_tx ++ from_cache (get ℕ_discrete (L.hash q) n.cached_responses) p pr i
  unfolding request_or_cached from_cache
  request_or_cached-event_tx p pr q i n =
      elim (Option-cases (get ℕ_discrete (L.hash q) n.cached_responses)) [
        | inl e ↦ rw (e, request_or_cached) (sym (append-nil n.event_tx))
        | inr (r, e) ↦ rw (e, request_or_cached)
      ]

  send_response-event_tx :
      (i : ℕ) (r : List ℕ) (n : SubstrateNetwork L) → (send_response i r n).event_tx ≡ n.event_tx
  unfolding send_response
  send_response-event_tx i r n = ground arith

  finish_request-event_tx :
      (w : PendingResponse L) (o : Outcome L) (n : SubstrateNetwork L)
      → (finish_request w o n).event_tx ≡ n.event_tx ++ arrived (some w) o
  unfolding finish_request arrived
  finish_request-event_tx (p, pr, i) (Outcome.response r) n = refl
  finish_request-event_tx w (Outcome.failure e) n = sym (append-nil n.event_tx)
  finish_request-event_tx w Outcome.canceled n = sym (append-nil n.event_tx)

  select_response-event_tx :
      (i : ℕ) (o : Outcome L) (n : SubstrateNetwork L)
      → (select_response i o n).event_tx ≡ n.event_tx ++ arrived (get_elem? n.pending_responses i) o
  unfolding select_response arrived
  select_response-event_tx i o n = elim (Option-cases (get_elem? n.pending_responses i)) [
    | inl e ↦ rw (e, select_response) (sym (append-nil n.event_tx))
    | inr (w, e) ↦ rw (e, select_response) (finish_request-event_tx w o _)
  ]

  behaviour-event_tx :
      (b : BehaviourOut L) (n : SubstrateNetwork L)
      → (on_swarm_event b n).event_tx ≡ n.event_tx ++ emitted_by_swarm (SwarmEvent.behaviour b) n
  unfolding on_swarm_event emitted_by_swarm
  behaviour-event_tx (BehaviourOut.reputation_changes p cs) n =
      report_each-event_tx p cs n ∙ sym (append-nil n.event_tx)
  behaviour-event_tx (BehaviourOut.peer_identify p addrs prs) n =
      add_each-event_tx p prs addrs n ∙ sym (append-nil n.event_tx)
  behaviour-event_tx (BehaviourOut.notifications_received p ms) n = receive_each-event_tx p ms n
  behaviour-event_tx (BehaviourOut.discovered p) n = discover-event_tx p n
  behaviour-event_tx (BehaviourOut.notification_stream_opened p pr s) n = refl
  behaviour-event_tx (BehaviourOut.notification_stream_closed p pr) n = refl
  behaviour-event_tx b n = sym (append-nil n.event_tx)

  handle_swarm-event_tx :
      (e : SwarmEvent L) (n : SubstrateNetwork L)
      → (handle_swarm e n).event_tx ≡ n.event_tx ++ emitted_by_swarm e n
  unfolding handle_swarm emitted_by_swarm
  handle_swarm-event_tx (SwarmEvent.behaviour b) n = behaviour-event_tx b n
  handle_swarm-event_tx (SwarmEvent.connection_established p) n = refl
  handle_swarm-event_tx (SwarmEvent.connection_closed p) n = append_assoc n.event_tx _ _
  handle_swarm-event_tx e n = sym (append-nil n.event_tx)

  command-event_tx :
      (c : Command L) (n : SubstrateNetwork L)
      → (on_command c n).event_tx ≡ n.event_tx ++ emitted (command_rx c) n
  unfolding on_command emitted
  command-event_tx (Command.send_request p pr q) n = request_or_cached-event_tx p pr q _ _
  command-event_tx (Command.send_response p i r) n =
      send_response-event_tx i r n ∙ sym (append-nil n.event_tx)
  command-event_tx (Command.send_notification p pr m) n =
      elim (Option-cases (get (key_eq L) (p, pr) n.notification_sinks)) [
        | inl e ↦ rw (e, send_notification) (sym (append-nil n.event_tx))
        | inr (s, e) ↦ rw (e, send_notification) (sym (append-nil n.event_tx))
      ]
  command-event_tx (Command.connect p) n = sym (append-nil n.event_tx)
  command-event_tx (Command.disconnect p) n = sym (append-nil n.event_tx)

  pub wake-event_tx :
      (w : Wake L) (n : SubstrateNetwork L) → (wake w n).event_tx ≡ n.event_tx ++ emitted w n
  unfolding wake emitted
  wake-event_tx (map pr r) n = refl
  wake-event_tx (pending_response i o) n = select_response-event_tx i o n
  wake-event_tx (command_rx c) n = command-event_tx c n
  wake-event_tx (swarm e) n = handle_swarm-event_tx e n

  pub total-wake :
      (f : SubstrateNetworkEvent L → ℕ) (w : Wake L) (n : SubstrateNetwork L)
      → total f (wake w n).event_tx ≡ total f n.event_tx + total f (emitted w n)
  total-wake f w n = ap (total f) (wake-event_tx w n) ∙ total-append f n.event_tx (emitted w n)

  pub collect-wake :
      {A : Type 0} (f : SubstrateNetworkEvent L → List A) (w : Wake L) (n : SubstrateNetwork L)
      → collect f (wake w n).event_tx ≡ collect f n.event_tx ++ collect f (emitted w n)
  collect-wake f w n =
      ap (collect f) (wake-event_tx w n) ∙ collect-append f n.event_tx (emitted w n)

  pub total-notifications :
      (f : SubstrateNetworkEvent L → ℕ)
      (silent : (p : L.PeerId) (pr : L.ProtocolName) (b : List ℕ)
        → f (Network.notification_received p pr b) ≡ 0)
      (p : L.PeerId) (ms : List (L.ProtocolName × List ℕ))
      → total f (notifications p ms) ≡ 0
  unfolding notifications
  total-notifications f silent p [] = refl
  total-notifications f silent p ((pr, b) ∷ ms) =
      omega (arith, silent p pr b, total-notifications f silent p ms)
