-- ===== src/Substrate/Peers.antt =====
-- src/backend/substrate/network/service.rs: the peers that the task reports as connected, as
-- disconnected and as discovered, and their notifications, against what the swarm reported.
use swarm_host.Prelude.{
  ℕ, ◌+◌, ◌≡◌, refl, ap, List, [], ◌∷◌, Bool, true, false, ◌||◌, arith, total, total-append, one,
  if◌then◌else◌,
}
use swarm_host.Map.{contains}
use swarm_host.Map.Laws.{contains-add}
use swarm_host.Substrate.{Library}
use swarm_host.Substrate.Network
use swarm_host.Substrate.Network.{
  SubstrateNetwork, SubstrateNetworkEvent, Command, BehaviourOut, PendingResponse, key_eq,
}
use swarm_host.Substrate.Handlers.{next_request_id, discover, on_command, on_swarm_event}
use swarm_host.Substrate.Run.{
  SwarmEvent, Wake, map, pending_response, command_rx, swarm, wake, run, new,
}
use swarm_host.Substrate.Frame.{
  report_each-frame, add_each-frame, receive_each-frame, send_notification-frame,
  request_or_cached-frame, send_response-frame, select_response-frame, issued,
}
use swarm_host.Substrate.Emitted.{
  emitted, from_cache, arrived, first_time, total-wake, total-notifications,
}

module _ {L : Library} (p : L.PeerId) where
  -- Whether an event reports that the peer is connected, or that it is disconnected.
  abbrev pub connections : SubstrateNetworkEvent L → ℕ
  connections (Network.peer_connected q) = one (L.peer_eq q p)
  connections event = 0

  abbrev pub disconnections : SubstrateNetworkEvent L → ℕ
  disconnections (Network.peer_disconnected q) = one (L.peer_eq q p)
  disconnections event = 0

  -- Whether the swarm has established a connection to the peer, or has closed one.
  abbrev pub established : Wake L → ℕ
  established (swarm (SwarmEvent.connection_established q)) = one (L.peer_eq q p)
  established w = 0

  abbrev pub closed : Wake L → ℕ
  closed (swarm (SwarmEvent.connection_closed q)) = one (L.peer_eq q p)
  closed w = 0

  total-emitted :
      (w : Wake L) (n : SubstrateNetwork L)
      → (total connections (emitted w n) ≡ established w)
        × (total disconnections (emitted w n) ≡ closed w + closed w)
  unfolding emitted arrived from_cache first_time
  total-emitted (map pr r) n = (refl, refl)
  total-emitted (pending_response i o) n = ground arith
  total-emitted (command_rx (Command.send_request q pr r)) n = ground arith
  total-emitted (command_rx c) n = (refl, refl)
  total-emitted (swarm (SwarmEvent.connection_established q)) n = omega arith
  total-emitted (swarm (SwarmEvent.connection_closed q)) n = omega arith
  total-emitted (swarm (SwarmEvent.behaviour (BehaviourOut.notifications_received q ms))) n = (
    total-notifications connections (λ q' pr b. refl) q ms,
    total-notifications disconnections (λ q' pr b. refl) q ms,
  )
  total-emitted (swarm (SwarmEvent.behaviour (BehaviourOut.discovered q))) n = ground arith
  total-emitted (swarm (SwarmEvent.behaviour b)) n = (refl, refl)
  total-emitted (swarm e) n = (refl, refl)

  -- Whatever wakes the task up, it reports a peer as connected once for each connection to it that
  -- is established, and as disconnected twice for each that is closed.
  pub run-connections :
      (ws : List (Wake L)) (n : SubstrateNetwork L)
      → (total connections (run ws n).event_tx
          ≡ total connections n.event_tx + total established ws)
        × (total disconnections (run ws n).event_tx
            ≡ total disconnections n.event_tx + (total closed ws + total closed ws))
  unfolding run
  run-connections [] n = omega arith
  run-connections (w ∷ ws) n = omega (
    arith,
    run-connections ws (wake w n),
    total-wake connections w n,
    total-wake disconnections w n,
    total-emitted w n,
  )

  -- Whether an event reports that the peer is discovered, and whether the swarm has found it.
  abbrev pub discoveries : SubstrateNetworkEvent L → ℕ
  discoveries (Network.peer_discovered q) = one (L.peer_eq q p)
  discoveries event = 0

  abbrev pub found : Wake L → Bool
  found (swarm (SwarmEvent.behaviour (BehaviourOut.discovered q))) = elim (L.peer_eq q p) [
    | yes e ↦ true
    | no e ↦ false
  ]
  found w = false

  unfoldable pub found_by : List (Wake L) → Bool → Bool
  found_by [] b = b
  found_by (w ∷ ws) b = found_by ws (found w || b)

  -- What is known of the peer, and how often it was reported.
  abbrev Reported : Bool → SubstrateNetwork L → Type 0
  Reported b n =
      (contains L.peer_eq p n.discovered ≡ b)
      × (total discoveries n.event_tx ≡ (if b then 1 else 0))

  discover-Reported :
      (q : L.PeerId) (b : Bool) (n : SubstrateNetwork L)
      → Reported b n
      → Reported (elim (L.peer_eq q p) [ yes e ↦ true | no e ↦ false ] || b) (discover q n)
  unfolding discover
  discover-Reported q b n r = ground (
    arith,
    contains-add L.peer_eq q p n.discovered,
    total-append discoveries n.event_tx (Network.peer_discovered q ∷ []),
  )

  still-Reported :
      (w : Wake L) (b : Bool) (n : SubstrateNetwork L)
      → (wake w n).discovered ≡ n.discovered
      → total discoveries (emitted w n) ≡ 0
      → Reported b n
      → Reported b (wake w n)
  still-Reported w b n same silent r = (rw same r.0, omega (arith, total-wake discoveries w n, r.1))

  command-discovered :
      (c : Command L) (n : SubstrateNetwork L) → (on_command c n).discovered ≡ n.discovered
  unfolding on_command next_request_id
  command-discovered (Command.send_notification q pr m) n =
      ap (λ m. m.discovered) (send_notification-frame q pr m n)
  command-discovered (Command.send_request q pr r) n =
      ap (λ m. m.discovered) (request_or_cached-frame q pr r n.next_request (issued n))
  command-discovered (Command.send_response q i r) n =
      ap (λ m. m.discovered) (send_response-frame i r n)
  command-discovered c n = refl

  wake-Reported :
      (w : Wake L) (b : Bool) (n : SubstrateNetwork L)
      → Reported b n
      → Reported (found w || b) (wake w n)
  unfolding wake emitted on_swarm_event
  wake-Reported (map pr r) b n k = still-Reported (map pr r) b n refl refl k
  wake-Reported (pending_response i o) b n k =
      still-Reported (pending_response i o) b n
        (ap (λ m. m.discovered) (select_response-frame i o n)) (ground arith) k
  wake-Reported (command_rx (Command.send_request q pr r)) b n k =
      let c = Command.send_request q pr r in
      still-Reported (command_rx c) b n (command-discovered c n) (ground arith) k
  wake-Reported (command_rx c) b n k =
      still-Reported (command_rx c) b n (command-discovered c n) refl k
  wake-Reported (swarm (SwarmEvent.behaviour (BehaviourOut.discovered q))) b n k =
      discover-Reported q b n k
  wake-Reported (swarm (SwarmEvent.behaviour (BehaviourOut.reputation_changes q cs))) b n k =
      let w = swarm (SwarmEvent.behaviour (BehaviourOut.reputation_changes q cs)) in
      still-Reported w b n (ap (λ m. m.discovered) (report_each-frame q cs n)) refl k
  wake-Reported (swarm (SwarmEvent.behaviour (BehaviourOut.peer_identify q addrs prs))) b n k =
      let w = swarm (SwarmEvent.behaviour (BehaviourOut.peer_identify q addrs prs)) in
      still-Reported w b n (ap (λ m. m.discovered) (add_each-frame q prs addrs n)) refl k
  wake-Reported (swarm (SwarmEvent.behaviour (BehaviourOut.notifications_received q ms))) b n k =
      let w = swarm (SwarmEvent.behaviour (BehaviourOut.notifications_received q ms)) in
      still-Reported w b n (ap (λ m. m.discovered) (receive_each-frame q ms n))
        (total-notifications discoveries (λ q' pr b'. refl) q ms) k
  wake-Reported (swarm (SwarmEvent.behaviour e)) b n k =
      still-Reported (swarm (SwarmEvent.behaviour e)) b n refl refl k
  wake-Reported (swarm e) b n k = still-Reported (swarm e) b n refl refl k

  run_from-Reported :
      (ws : List (Wake L)) (b : Bool) (n : SubstrateNetwork L)
      → Reported b n
      → Reported (found_by ws b) (run ws n)
  unfolding run found_by
  run_from-Reported [] b n r = r
  run_from-Reported (w ∷ ws) b n r = run_from-Reported ws (found w || b) _ (wake-Reported w b n r)

  -- A new task reports a peer as discovered once, however often the swarm finds it, and a peer that
  -- the swarm does not find never.
  pub run-discoveries :
      (ws : List (Wake L))
      → total discoveries (run ws new).event_tx ≡ (if found_by ws false then 1 else 0)
  unfolding contains
  run-discoveries ws = (run_from-Reported ws false new (refl, refl)).1
