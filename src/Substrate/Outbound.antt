-- ===== src/Substrate/Outbound.antt =====
-- src/backend/substrate/network/service.rs: the requests of the program, and their responses.
use swarm_host.Prelude.{
  ℕ, zero, suc, ◌+◌, ◌≡◌, refl, ap, inl, inr, Option, none, some, List, [], ◌∷◌, arith,
  Option-cases, get_elem?, total, total-append, one, ℕ_discrete,
}
use swarm_host.Map.{get}
use swarm_host.Substrate.{Library}
use swarm_host.Substrate.Network
use swarm_host.Substrate.Network.{
  SubstrateNetwork, SubstrateNetworkEvent, Command, BehaviourOut, PendingResponse,
}
use swarm_host.Substrate.Handlers.{next_request_id, request_or_cached, on_command}
use swarm_host.Substrate.Run.{
  Outcome, SwarmEvent, Wake, map, pending_response, command_rx, swarm, without, wake, run, new,
}
use swarm_host.Substrate.Emitted.{
  emitted, from_cache, arrived, first_time, total-wake, total-notifications,
}
use swarm_host.Substrate.Frame.{
  remaining, send_notification-frame, send_response-frame, select_response-frame,
  handle_swarm-requests,
}

total-without {ℓ} :
    {A : Type ℓ} (f : A → ℕ) (k : ℕ) (xs : List A) (x : A)
    → get_elem? xs k ≡ some x
    → total f (without k xs) + f x ≡ total f xs
unfolding without
total-without f k [] x e = ground arith
total-without f zero (y ∷ xs) x e = ground arith
total-without f (suc k) (y ∷ xs) x e = omega (arith, total-without f k xs x e)

-- Whether a response is waited for under the identifier.
abbrev is_for {ℓ κ} : {A : Type ℓ} {B : Type κ} → ℕ → A × B × ℕ → ℕ
is_for i w = one (ℕ_discrete w.2 i)

module _ {L : Library} (i : ℕ) where
  -- How often the identifier was handed to the program; how many responses to it were reported; and
  -- how many are waited for.
  abbrev pub asked : SubstrateNetwork L → ℕ
  asked n = total (λ j. one (ℕ_discrete j i)) n.answers

  abbrev is_response : SubstrateNetworkEvent L → ℕ
  is_response (Network.response_received p pr j r) = one (ℕ_discrete j i)
  is_response event = 0

  abbrev pub responses : SubstrateNetwork L → ℕ
  responses n = total is_response n.event_tx

  abbrev pub waiting : SubstrateNetwork L → ℕ
  waiting n = total (is_for i) n.pending_responses

  -- Whether a response that is waited for fails to arrive.
  abbrev failed : Outcome L → Option (PendingResponse L) → ℕ
  failed (Outcome.response r) w = 0
  failed o none = 0
  failed o (some w) = is_for i w

  abbrev pub fails : Wake L → SubstrateNetwork L → ℕ
  fails (pending_response k o) n = failed o (get_elem? n.pending_responses k)
  fails w n = 0

  unfoldable pub failures : List (Wake L) → SubstrateNetwork L → ℕ
  failures [] n = 0
  failures (w ∷ ws) n = fails w n + failures ws (wake w n)

  -- What a step adds on both sides.
  abbrev Balanced : Wake L → SubstrateNetwork L → Type 0
  Balanced w n =
      asked (wake w n) + total (is_for i) n.pending_responses
      ≡ asked n + total is_response (emitted w n) + waiting (wake w n) + fails w n

  -- A response that was waited for is reported or has failed.
  arrived-Balanced :
      (k : ℕ) (o : Outcome L) (x : Option (PendingResponse L)) (ws : List (PendingResponse L))
      → get_elem? ws k ≡ x
      → total (is_for i) ws
        ≡ total is_response (arrived x o) + total (is_for i) (remaining k x ws) + failed o x
  unfolding arrived remaining
  arrived-Balanced k (Outcome.response r) none ws e = omega arith
  arrived-Balanced k (Outcome.failure f) none ws e = omega arith
  arrived-Balanced k Outcome.canceled none ws e = omega arith
  arrived-Balanced k (Outcome.response r) (some w) ws e =
      omega (arith, total-without (is_for i) k ws w e)
  arrived-Balanced k (Outcome.failure f) (some w) ws e =
      omega (arith, total-without (is_for i) k ws w e)
  arrived-Balanced k Outcome.canceled (some w) ws e =
      omega (arith, total-without (is_for i) k ws w e)

  select_response-Balanced :
      (k : ℕ) (o : Outcome L) (n : SubstrateNetwork L) → Balanced (pending_response k o) n
  unfolding wake emitted
  select_response-Balanced k o n =
      let frame = select_response-frame k o n in
      omega (
        arith,
        ap asked frame,
        ap waiting frame,
        arrived-Balanced k o (get_elem? n.pending_responses k) n.pending_responses refl,
      )

  send_request-Balanced :
      (p : L.PeerId) (pr : L.ProtocolName) (r : List ℕ) (n : SubstrateNetwork L)
      → Balanced (command_rx (Command.send_request p pr r)) n
  unfolding wake emitted on_command next_request_id from_cache
  send_request-Balanced p pr r n =
      elim (Option-cases (get ℕ_discrete (L.hash r) n.cached_responses)) [
        | inl e ↦
            rw (e, request_or_cached)
              (omega (
                arith,
                total-append (λ j. one (ℕ_discrete j i)) n.answers (n.next_request ∷ []),
                total-append (is_for i) n.pending_responses ((p, pr, n.next_request) ∷ []),
              ))
        | inr (x, e) ↦
            rw (e, request_or_cached)
              (omega
                (arith, total-append (λ j. one (ℕ_discrete j i)) n.answers (n.next_request ∷ [])))
      ]

  -- What leaves the requests of the program alone.
  still-Balanced :
      (w : Wake L) (n : SubstrateNetwork L)
      → asked (wake w n) ≡ asked n
      → waiting (wake w n) ≡ waiting n
      → total is_response (emitted w n) ≡ 0
      → fails w n ≡ 0
      → Balanced w n
  still-Balanced w n a b c d = omega arith

  command-Balanced : (c : Command L) (n : SubstrateNetwork L) → Balanced (command_rx c) n
  unfolding wake on_command emitted
  command-Balanced (Command.send_request p pr r) n = send_request-Balanced p pr r n
  command-Balanced (Command.send_notification p pr m) n =
      let frame = send_notification-frame p pr m n in
      still-Balanced (command_rx (Command.send_notification p pr m)) n (ap asked frame)
        (ap waiting frame) refl refl
  command-Balanced (Command.send_response p k r) n =
      let frame = send_response-frame k r n in
      still-Balanced (command_rx (Command.send_response p k r)) n (ap asked frame)
        (ap waiting frame) refl refl
  command-Balanced c n = still-Balanced (command_rx c) n refl refl refl refl

  silent-swarm :
      (e : SwarmEvent L) (n : SubstrateNetwork L) → total is_response (emitted (swarm e) n) ≡ 0
  unfolding emitted first_time
  silent-swarm (SwarmEvent.behaviour (BehaviourOut.notifications_received p ms)) n =
      total-notifications is_response (λ q pr b. refl) p ms
  silent-swarm (SwarmEvent.behaviour (BehaviourOut.discovered p)) n = ground arith
  silent-swarm (SwarmEvent.behaviour b) n = refl
  silent-swarm e n = refl

  wake-Balanced : (w : Wake L) (n : SubstrateNetwork L) → Balanced w n
  unfolding wake emitted
  wake-Balanced (map pr r) n = still-Balanced (map pr r) n refl refl refl refl
  wake-Balanced (pending_response k o) n = select_response-Balanced k o n
  wake-Balanced (command_rx c) n = command-Balanced c n
  wake-Balanced (swarm e) n =
      let frame = handle_swarm-requests e n in
      still-Balanced (swarm e) n (ap (λ r. total (λ j. one (ℕ_discrete j i)) r.answers) frame)
        (ap (λ r. total (is_for i) r.pending_responses) frame) (silent-swarm e n) refl

  run_from-Balanced :
      (ws : List (Wake L)) (n : SubstrateNetwork L)
      → asked (run ws n) + responses n + waiting n
        ≡ asked n + responses (run ws n) + waiting (run ws n) + failures ws n
  unfolding run failures
  run_from-Balanced [] n = omega arith
  run_from-Balanced (w ∷ ws) n =
      omega (arith, run_from-Balanced ws (wake w n), wake-Balanced w n, total-wake is_response w n)

  -- Whatever wakes a new task up, as often as an identifier is handed to the program for a request,
  -- one of three is the case: a response is reported under it, from the peer or from the cache; a
  -- response is still waited for; or it has failed.
  pub run-asked :
      (ws : List (Wake L))
      → asked (run ws new) ≡ responses (run ws new) + waiting (run ws new) + failures ws new
  run-asked ws = omega (arith, run_from-Balanced ws new)
