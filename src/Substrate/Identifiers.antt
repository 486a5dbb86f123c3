-- ===== src/Substrate/Identifiers.antt =====
-- src/backend/substrate/network/service.rs: the identifiers of requests, in both directions.
use swarm_host.Prelude.{
  ℕ, ◌+◌, ◌^◌, ◌≤◌, ◌<◌, ◌≡◌, refl, sym, ◌∙◌, ap, List, [], ◌∷◌, ◌++◌, append-nil, arith, length,
  ltb, if◌then◌else◌, total, total-append, one, ℕ_discrete,
}
use swarm_host.Substrate.{Library}
use swarm_host.Substrate.Network
use swarm_host.Substrate.Network.{
  SubstrateNetwork, SubstrateNetworkEvent, Command, BehaviourOut, PendingResponse, key_eq,
}
use swarm_host.Substrate.Handlers.{next_request_id, send_notification, send_response, on_command}
use swarm_host.Substrate.Run.{
  SwarmEvent, Wake, map, pending_response, command_rx, swarm, select_response, wake, run, new,
}
use swarm_host.Substrate.Emitted.{
  emitted, from_cache, arrived, first_time, total-wake, total-notifications,
}
use swarm_host.Substrate.Frame.{
  send_notification-frame, request_or_cached-frame, send_response-frame, select_response-frame,
  issued, handle_swarm-requests,
}

pair-eq {ℓ κ} :
    {A : Type ℓ} {B : Type κ} {a c : A} {b d : B} → a ≡ c → b ≡ d → ◌≡◌ {A = A × B} (a, b) (c, d)
pair-eq p q i = (p i, q i)

module _ {L : Library} where
  -- Whether a thing that wakes the task up is a request, of a peer or of the program.
  abbrev pub asks : Wake L → ℕ
  asks (map pr r) = 1
  asks (command_rx (Command.send_request p pr r)) = 1
  asks w = 0

  -- The identifiers that are handed back to the program.
  abbrev pub answered : Wake L → SubstrateNetwork L → List ℕ
  answered (command_rx (Command.send_request p pr r)) n = n.next_request ∷ []
  answered w n = []

  -- The counter and the identifiers handed back, after what takes no identifier.
  abbrev pub issue : SubstrateNetwork L → ℕ × List ℕ
  issue n = (n.next_request, n.answers)

  handle_swarm-issue :
      (e : SwarmEvent L) (n : SubstrateNetwork L) → issue (wake (swarm e) n) ≡ issue n
  unfolding wake
  handle_swarm-issue e n = ap (λ r. (r.next_request, r.answers)) (handle_swarm-requests e n)

  same-issue :
      (n m : SubstrateNetwork L)
      → issue m ≡ issue n
      → issue m ≡ (n.next_request + 0, n.answers ++ [])
  same-issue n m e = e ∙ pair-eq (omega arith) (sym (append-nil n.answers))

  pub wake-issue :
      (w : Wake L) (n : SubstrateNetwork L)
      → n.next_request + asks w < 2 ^ 64
      → issue (wake w n) ≡ (n.next_request + asks w, n.answers ++ answered w n)
  unfolding wake on_command next_request_id
  wake-issue (map pr r) n lt = pair-eq (omega arith) (sym (append-nil n.answers))
  wake-issue (pending_response k o) n lt =
      same-issue n (select_response k o n) (ap issue (select_response-frame k o n))
  wake-issue (command_rx (Command.send_request p pr r)) n lt =
      ap issue (request_or_cached-frame p pr r n.next_request (issued n))
      ∙ pair-eq (omega arith) refl
  wake-issue (command_rx (Command.send_response p k r)) n lt =
      same-issue n (send_response k r n) (ap issue (send_response-frame k r n))
  wake-issue (command_rx (Command.send_notification p pr m)) n lt =
      same-issue n (send_notification p pr m n) (ap issue (send_notification-frame p pr m n))
  wake-issue (command_rx c) n lt = same-issue n (on_command c n) refl
  wake-issue (swarm e) n lt = same-issue n (wake (swarm e) n) (handle_swarm-issue e n)

  pub asks-le : (w : Wake L) → asks w ≤ 1
  asks-le (map pr r) = omega arith
  asks-le (command_rx (Command.send_request p pr r)) = omega arith
  asks-le (command_rx c) = omega arith
  asks-le w = omega arith

  -- The counter, while it does not wrap around.
  pub run-next_request :
      (ws : List (Wake L)) (n : SubstrateNetwork L)
      → n.next_request + length ws < 2 ^ 64
      → (run ws n).next_request ≡ n.next_request + total asks ws
  unfolding run
  run-next_request [] n lt = omega arith
  run-next_request (w ∷ ws) n lt =
      let step = ap (λ x. x.0) (wake-issue w n (omega (arith, asks-le w))) in
      run-next_request ws (wake w n) (omega (arith, step, asks-le w)) ∙ omega (arith, step)

nothing_taken : {P : Type 0} (d : Dec P) → ◌≡◌ {A = ℕ} (elim d [ yes e ↦ 0 | no e ↦ 0 ]) 0
nothing_taken (yes e) = refl
nothing_taken (no e) = refl

-- The numbers below the next one, once each.
next_once :
    (i k a u : ℕ)
    → a ≤ 1
    → u ≡ (if ltb i k then 1 else 0)
    → u + elim (ℕ_discrete k i) [ yes e ↦ a | no e ↦ 0 ] ≡ (if ltb i (k + a) then 1 else 0)
next_once i k a u le e = ground arith

module _ {L : Library} (i : ℕ) where
  -- Whether an event reports a request of a peer under the identifier.
  abbrev pub inbound : SubstrateNetworkEvent L → ℕ
  inbound (Network.request_received p pr j r) = one (ℕ_discrete j i)
  inbound event = 0

  -- How many requests were given the identifier.
  abbrev pub uses : SubstrateNetwork L → ℕ
  uses n = total inbound n.event_tx + total (λ j. one (ℕ_discrete j i)) n.answers

  -- Whether the request that wakes the task up, if any, is given the identifier.
  abbrev takes : Wake L → SubstrateNetwork L → ℕ
  takes w n = elim (ℕ_discrete n.next_request i) [ yes e ↦ asks w | no e ↦ 0 ]

  taken :
      (w : Wake L) (n : SubstrateNetwork L)
      → total inbound (emitted w n) + total (λ j. one (ℕ_discrete j i)) (answered w n) ≡ takes w n
  unfolding emitted from_cache arrived first_time
  taken (map pr r) n = ground arith
  taken (pending_response k o) n = ground arith
  taken (command_rx (Command.send_request q pr r)) n = ground arith
  taken (command_rx c) n = sym (nothing_taken (ℕ_discrete n.next_request i))
  taken (swarm (SwarmEvent.behaviour (BehaviourOut.notifications_received q ms))) n = omega (
    arith,
    total-notifications inbound (λ q' pr b. refl) q ms,
    nothing_taken (ℕ_discrete n.next_request i),
  )
  taken (swarm (SwarmEvent.behaviour (BehaviourOut.discovered q))) n = ground arith
  taken (swarm (SwarmEvent.behaviour b)) n = sym (nothing_taken (ℕ_discrete n.next_request i))
  taken (swarm e) n = sym (nothing_taken (ℕ_discrete n.next_request i))

  -- Each request is given the counter.
  wake-uses :
      (w : Wake L) (n : SubstrateNetwork L)
      → n.next_request + asks w < 2 ^ 64
      → uses (wake w n) ≡ uses n + takes w n
  wake-uses w n lt =
      let handed = ap (λ x. total (λ j. one (ℕ_discrete j i)) x.1) (wake-issue w n lt) in
      omega (
        arith,
        total-wake inbound w n,
        taken w n,
        handed,
        total-append (λ j. one (ℕ_discrete j i)) n.answers (answered w n),
      )

  -- The identifiers below the counter are used once, and no others.
  abbrev Once : SubstrateNetwork L → Type 0
  Once n = uses n ≡ (if ltb i n.next_request then 1 else 0)

  run_from-Once :
      (ws : List (Wake L)) (n : SubstrateNetwork L)
      → n.next_request + length ws < 2 ^ 64
      → Once n
      → Once (run ws n)
  unfolding run
  run_from-Once [] n lt o = o
  run_from-Once (w ∷ ws) n lt o =
      let lt' : n.next_request + asks w < 2 ^ 64 = omega (arith, asks-le w) in
      let step = ap (λ x. x.0) (wake-issue w n lt') in
      run_from-Once ws (wake w n) (omega (arith, step, asks-le w))
        (wake-uses w n lt' ∙ rw step (next_once i n.next_request (asks w) (uses n) (asks-le w) o))

  -- A new task, woken up fewer than 2^64 times, gives each identifier below the number of requests
  -- to just one of them, of a peer or of the program, and gives out no other identifier.
  pub run-uses :
      (ws : List (Wake L))
      → length ws < 2 ^ 64
      → uses (run ws new) ≡ (if ltb i (total asks ws) then 1 else 0)
  run-uses ws lt =
      let counted : (run ws new).next_request ≡ total asks ws =
        omega (arith, run-next_request ws new (omega arith)) in
      rw (← counted) (run_from-Once ws new (omega arith) (ground arith))
