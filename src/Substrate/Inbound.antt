-- ===== src/Substrate/Inbound.antt =====
-- src/backend/substrate/network/service.rs: the requests of the peers, and the responses to them.
use swarm_host.Prelude.{
  ℕ, ◌+◌, ◌%◌, ◌^◌, ◌≤◌, ◌<◌, ◌≡◌, refl, ap, inl, inr, none, List, [], ◌∷◌, arith, length,
  Option-cases, total, total-append, one, ℕ_discrete,
}
use swarm_host.Map.{get, Distinct}
use swarm_host.Map.Laws.{get-insert, get-remove, insert-Distinct, remove-Distinct}
use swarm_host.Map.Totals.{total-insert, total-remove}
use swarm_host.Substrate.{Library}
use swarm_host.Substrate.Network.{SubstrateNetwork, Command, IncomingRequest}
use swarm_host.Substrate.Handlers.{next_request_id, send_response, on_command}
use swarm_host.Substrate.Run.{Wake, map, command_rx, wake, run, new}
use swarm_host.Substrate.Frame.{tables, wake-tables}
use swarm_host.Substrate.Identifiers.{asks, asks-le, wake-issue}

module _ {L : Library} (channel_eq : Discrete L.ResponseSender) (c : L.ResponseSender) where
  -- Whether a request of a peer comes with the channel; how often a response was sent over it; and
  -- how many requests wait for one.
  abbrev pub brought : Wake L → ℕ
  brought (map pr r) = one (channel_eq r.pending_response c)
  brought w = 0

  abbrev pub sent : SubstrateNetwork L → ℕ
  sent n = total (λ x. one (channel_eq x.0 c)) n.responded

  abbrev pub unanswered : SubstrateNetwork L → ℕ
  unanswered n = total (λ e. one (channel_eq e.1.1 c)) n.pending_requests

  -- The requests that wait have different identifiers, below the counter.
  abbrev IsKept : SubstrateNetwork L → Type 0
  IsKept n =
      Distinct ℕ_discrete n.pending_requests
      × ((k : ℕ) → n.next_request ≤ k → get ℕ_discrete k n.pending_requests ≡ none)

  -- What a step does to the requests that wait.
  abbrev Keeps : Wake L → SubstrateNetwork L → Type 0
  Keeps w n =
      IsKept (wake w n)
      × ((wake w n).next_request ≤ n.next_request + 1)
      × (sent (wake w n) + unanswered (wake w n) ≡ sent n + unanswered n + brought w)

  accept_request-Keeps :
      (pr : L.ProtocolName) (r : IncomingRequest L) (n : SubstrateNetwork L)
      → n.next_request + 1 < 2 ^ 64
      → IsKept n
      → Keeps (map pr r) n
  unfolding wake next_request_id
  accept_request-Keeps pr r n lt (distinct, below) =
      let v : ℕ × L.ResponseSender = (L.hash r.payload, r.pending_response) in
      let free = below n.next_request (omega arith) in
      let step : (n.next_request + 1) % 2 ^ 64 ≡ n.next_request + 1 = omega arith in
      (
        (
          insert-Distinct ℕ_discrete n.next_request v n.pending_requests distinct,
          λ k h.
              ground (arith, get-insert ℕ_discrete n.next_request k v n.pending_requests, below k),
        ),
        omega arith,
        omega (
          arith,
          total-insert ℕ_discrete (λ e. one (channel_eq e.1.1 c)) n.next_request v
              n.pending_requests free,
        ),
      )

  send_response-Keeps :
      (p : L.PeerId) (k : ℕ) (r : List ℕ) (n : SubstrateNetwork L)
      → IsKept n
      → Keeps (command_rx (Command.send_response p k r)) n
  unfolding wake on_command
  send_response-Keeps p k r n (distinct, below) =
      elim (Option-cases (get ℕ_discrete k n.pending_requests)) [
        | inl e ↦ rw (e, send_response) ((distinct, below), omega arith, omega arith)
        | inr ((d, channel), e) ↦
            rw (e, send_response)
              (
                (
                  remove-Distinct ℕ_discrete k n.pending_requests distinct,
                  λ j h. ground (arith, get-remove ℕ_discrete k j n.pending_requests, below j),
                ),
                omega arith,
                omega (
                  arith,
                  total-append (λ x. one (channel_eq x.0 c)) n.responded ((channel, _) ∷ []),
                  total-remove ℕ_discrete (λ x. one (channel_eq x.1.1 c)) k (d, channel)
                      n.pending_requests distinct e,
                ),
              )
      ]

  -- What leaves the requests that wait alone.
  still-Keeps :
      (w : Wake L) (n : SubstrateNetwork L)
      → IsKept n
      → brought w ≡ 0
      → tables (wake w n) ≡ tables n
      → (wake w n).next_request ≡ n.next_request + asks w
      → Keeps w n
  still-Keeps w n (distinct, below) z same counted =
      let pending = ap (λ t. t.0) same in
      (
        (rw pending distinct, λ k h. rw pending (below k (omega (arith, counted, h)))),
        omega (arith, counted, asks-le w),
        rw (pending, ap (λ t. t.2) same, z) (omega arith),
      )

  wake-Keeps :
      (w : Wake L) (n : SubstrateNetwork L) → n.next_request + 1 < 2 ^ 64 → IsKept n → Keeps w n
  wake-Keeps (map pr r) n lt k = accept_request-Keeps pr r n lt k
  wake-Keeps (command_rx (Command.send_response p i r)) n lt k = send_response-Keeps p i r n k
  wake-Keeps w n lt k =
      still-Keeps w n k refl (wake-tables w n refl)
        (ap (λ x. x.0) (wake-issue w n (omega (arith, asks-le w))))

  run_from-Keeps :
      (ws : List (Wake L)) (n : SubstrateNetwork L)
      → n.next_request + length ws < 2 ^ 64
      → IsKept n
      → sent (run ws n) + unanswered (run ws n) ≡ sent n + unanswered n + total brought ws
  unfolding run
  run_from-Keeps [] n lt k = omega arith
  run_from-Keeps (w ∷ ws) n lt k =
      let (k', high, step) = wake-Keeps w n (omega arith) k in
      omega (arith, run_from-Keeps ws (wake w n) (omega (arith, high)) k', step)

  -- If a new task is woken up fewer than 2^64 times, no request of a peer is lost or answered twice:
  -- the requests that came with a channel are as many as the responses that were sent over it and
  -- the requests with it that still wait for one.
  pub run-brought :
      (ws : List (Wake L))
      → length ws < 2 ^ 64
      → total brought ws ≡ sent (run ws new) + unanswered (run ws new)
  unfolding get
  run-brought ws lt = omega (arith, run_from-Keeps ws new (omega arith) (tt, λ k h. refl))
