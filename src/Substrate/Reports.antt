-- ===== src/Substrate/Reports.antt =====
-- src/backend/substrate/network/service.rs: what the task reports of the notification streams.
use swarm_host.Prelude.{
  ℕ, ◌≡◌, refl, sym, ◌∙◌, ap, List, [], ◌∷◌, ◌++◌, arith, append-nil, append_assoc, collect,
}
use swarm_host.Substrate.{Library}
use swarm_host.Substrate.Network
use swarm_host.Substrate.Network.{SubstrateNetwork, SubstrateNetworkEvent, Command, BehaviourOut}
use swarm_host.Substrate.Run.{SwarmEvent, Wake, map, pending_response, command_rx, swarm, wake, run}
use swarm_host.Substrate.Emitted.{
  emitted, from_cache, arrived, first_time, notifications, collect-wake,
}

module _ {L : Library} where
  -- The events on the notification streams.
  abbrev pub on_stream : SubstrateNetworkEvent L → List (SubstrateNetworkEvent L)
  on_stream (Network.protocol_opened p pr) = Network.protocol_opened p pr ∷ []
  on_stream (Network.protocol_closed p pr) = Network.protocol_closed p pr ∷ []
  on_stream (Network.notification_received p pr b) = Network.notification_received p pr b ∷ []
  on_stream event = []

  -- What the swarm reports of the streams: one that replaces another is not a new one.
  abbrev pub stream_events : Wake L → List (SubstrateNetworkEvent L)
  stream_events (swarm (SwarmEvent.behaviour (BehaviourOut.notification_stream_opened p pr s))) =
      Network.protocol_opened p pr ∷ []
  stream_events (swarm (SwarmEvent.behaviour (BehaviourOut.notification_stream_closed p pr))) =
      Network.protocol_closed p pr ∷ []
  stream_events (swarm (SwarmEvent.behaviour (BehaviourOut.notifications_received p ms))) =
      collect (λ m. Network.notification_received p m.0 m.1 ∷ []) ms
  stream_events w = []

  notifications-on_stream :
      (p : L.PeerId) (ms : List (L.ProtocolName × List ℕ))
      → collect on_stream (notifications p ms)
        ≡ collect (λ m. Network.notification_received p m.0 m.1 ∷ []) ms
  unfolding notifications
  notifications-on_stream p [] = refl
  notifications-on_stream p (m ∷ ms) =
      ap (λ x. Network.notification_received p m.0 m.1 ∷ x) (notifications-on_stream p ms)

  emitted-on_stream :
      (w : Wake L) (n : SubstrateNetwork L) → collect on_stream (emitted w n) ≡ stream_events w
  unfolding emitted from_cache arrived first_time
  emitted-on_stream (map pr r) n = refl
  emitted-on_stream (pending_response i o) n = ground arith
  emitted-on_stream (command_rx (Command.send_request q pr r)) n = ground arith
  emitted-on_stream (command_rx c) n = refl
  emitted-on_stream (swarm (SwarmEvent.behaviour (BehaviourOut.notifications_received q ms))) n =
      notifications-on_stream q ms
  emitted-on_stream (swarm (SwarmEvent.behaviour (BehaviourOut.discovered q))) n = ground arith
  emitted-on_stream (swarm (SwarmEvent.behaviour b)) n = refl
  emitted-on_stream (swarm e) n = refl

  -- Whatever wakes the task up, it reports the streams that are opened and closed and the
  -- notifications that are received just as the swarm does, none left out, in the same order.
  pub run-on_stream :
      (ws : List (Wake L)) (n : SubstrateNetwork L)
      → collect on_stream (run ws n).event_tx
        ≡ collect on_stream n.event_tx ++ collect stream_events ws
  unfolding run
  run-on_stream [] n = sym (append-nil _)
  run-on_stream (w ∷ ws) n =
      run-on_stream ws (wake w n)
      ∙ rw (collect-wake on_stream w n, emitted-on_stream w n) (append_assoc _ (stream_events w) _)
