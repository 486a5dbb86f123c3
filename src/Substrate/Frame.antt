-- ===== src/Substrate/Frame.antt =====
-- src/backend/substrate/network/service.rs: what the handlers leave alone.
use swarm_host.Prelude.{
  ℕ, ◌+◌, ◌%◌, ◌^◌, ◌≡◌, refl, ap, inl, inr, Bool, true, false, Option, none, some, List, [], ◌∷◌,
  ◌++◌, get_elem?, Bool-cases, Option-cases, ℕ_discrete,
}
use swarm_host.Map.{HashMap, get, contains}
use swarm_host.Substrate.{Library}
use swarm_host.Substrate.Network.{
  SubstrateNetwork, Command, BehaviourOut, PendingResponse, OutgoingResponse, key_eq,
}
use swarm_host.Substrate.Handlers.{
  next_request_id, on_command, send_notification, request_or_cached, send_response, report_each,
  add_each, receive_each, discover, on_swarm_event,
}
use swarm_host.Substrate.Run.{
  Outcome, SwarmEvent, Wake, map, pending_response, command_rx, swarm, without, finish_request,
  select_response, handle_swarm, wake,
}

-- All that the task keeps of requests and responses.
pub record Requests (L : Library) : Type 0 where
  pub next_request : ℕ
  pub pending_requests : HashMap ℕ (ℕ × L.ResponseSender)
  pub pending_responses : List (PendingResponse L)
  pub cached_responses : HashMap ℕ (List ℕ)
  pub responded : List (L.ResponseSender × OutgoingResponse L)
  pub answers : List ℕ

-- What is still waited for, where the option is what has arrived.
unfoldable pub remaining {ℓ} : {A : Type ℓ} → ℕ → Option A → List A → List A
remaining k none ws = ws
remaining k (some w) ws = without k ws

module _ {L : Library} where
  abbrev pub requests : SubstrateNetwork L → Requests L
  requests n = record {
    next_request = n.next_request;
    pending_requests = n.pending_requests;
    pending_responses = n.pending_responses;
    cached_responses = n.cached_responses;
    responded = n.responded;
    answers = n.answers;
  }

  -- The network once a request of the program has its identifier.
  abbrev pub issued : SubstrateNetwork L → SubstrateNetwork L
  issued n = record n {
    next_request = (n.next_request + 1) % 2 ^ 64;
    answers = n.answers ++ n.next_request ∷ [];
  }

  pub report_each-frame :
      (p : L.PeerId) (cs : List L.ReputationChange) (n : SubstrateNetwork L)
      → report_each p cs n ≡ record n { swarm = (report_each p cs n).swarm }
  unfolding report_each
  report_each-frame p [] n = refl
  report_each-frame p (c ∷ cs) n = report_each-frame p cs _

  pub add_each-frame :
      (p : L.PeerId) (prs : List L.ProtocolName) (addrs : List L.Multiaddr) (n : SubstrateNetwork L)
      → add_each p prs addrs n ≡ record n { swarm = (add_each p prs addrs n).swarm }
  unfolding add_each
  add_each-frame p prs [] n = refl
  add_each-frame p prs (a ∷ addrs) n = add_each-frame p prs addrs _

  pub receive_each-frame :
      (p : L.PeerId) (ms : List (L.ProtocolName × List ℕ)) (n : SubstrateNetwork L)
      → receive_each p ms n ≡ record n { event_tx = (receive_each p ms n).event_tx }
  unfolding receive_each
  receive_each-frame p [] n = refl
  receive_each-frame p ((pr, b) ∷ ms) n = receive_each-frame p ms _

  pub discover-frame :
      (p : L.PeerId) (n : SubstrateNetwork L)
      → discover p n
        ≡ record n { event_tx = (discover p n).event_tx; discovered = (discover p n).discovered }
  unfolding discover
  discover-frame p n = elim (Bool-cases (contains L.peer_eq p n.discovered)) [
    | inl e ↦ rw (e, discover)
    | inr e ↦ rw (e, discover)
  ]

  pub send_notification-frame :
      (p : L.PeerId) (pr : L.ProtocolName) (m : List ℕ) (n : SubstrateNetwork L)
      → send_notification p pr m n ≡ record n { notified = (send_notification p pr m n).notified }
  unfolding send_notification
  send_notification-frame p pr m n =
      elim (Option-cases (get (key_eq L) (p, pr) n.notification_sinks)) [
        | inl e ↦ rw (e, send_notification)
        | inr (s, e) ↦ rw (e, send_notification)
      ]

  pub request_or_cached-frame :
      (p : L.PeerId) (pr : L.ProtocolName) (r : List ℕ) (k : ℕ) (n : SubstrateNetwork L)
      → request_or_cached p pr r k n ≡ record n {
        swarm = (request_or_cached p pr r k n).swarm;
        event_tx = (request_or_cached p pr r k n).event_tx;
        pending_responses = (request_or_cached p pr r k n).pending_responses;
      }
  unfolding request_or_cached
  request_or_cached-frame p pr r k n =
      elim (Option-cases (get ℕ_discrete (L.hash r) n.cached_responses)) [
        | inl e ↦ rw (e, request_or_cached)
        | inr (x, e) ↦ rw (e, request_or_cached)
      ]

  pub send_response-frame :
      (k : ℕ) (r : List ℕ) (n : SubstrateNetwork L)
      → send_response k r n ≡ record n {
        pending_requests = (send_response k r n).pending_requests;
        cached_responses = (send_response k r n).cached_responses;
        responded = (send_response k r n).responded;
      }
  unfolding send_response
  send_response-frame k r n = elim (Option-cases (get ℕ_discrete k n.pending_requests)) [
    | inl e ↦ rw (e, send_response)
    | inr (x, e) ↦ rw (e, send_response)
  ]

  finish_request-frame :
      (w : PendingResponse L) (o : Outcome L) (n : SubstrateNetwork L)
      → finish_request w o n ≡ record n { event_tx = (finish_request w o n).event_tx }
  unfolding finish_request
  finish_request-frame (p, pr, i) (Outcome.response r) n = refl
  finish_request-frame w (Outcome.failure e) n = refl
  finish_request-frame w Outcome.canceled n = refl

  pub select_response-frame :
      (k : ℕ) (o : Outcome L) (n : SubstrateNetwork L)
      → select_response k o n ≡ record n {
        event_tx = (select_response k o n).event_tx;
        pending_responses = remaining k (get_elem? n.pending_responses k) n.pending_responses;
      }
  unfolding select_response remaining
  select_response-frame k o n = elim (Option-cases (get_elem? n.pending_responses k)) [
    | inl e ↦ rw (e, select_response)
    | inr (w, e) ↦ rw (e, select_response) (finish_request-frame w o _)
  ]

  -- The events of the swarm leave the requests alone.
  pub handle_swarm-requests :
      (e : SwarmEvent L) (n : SubstrateNetwork L) → requests (handle_swarm e n) ≡ requests n
  unfolding handle_swarm on_swarm_event
  handle_swarm-requests (SwarmEvent.behaviour (BehaviourOut.reputation_changes p cs)) n =
      ap requests (report_each-frame p cs n)
  handle_swarm-requests (SwarmEvent.behaviour (BehaviourOut.peer_identify p addrs prs)) n =
      ap requests (add_each-frame p prs addrs n)
  handle_swarm-requests (SwarmEvent.behaviour (BehaviourOut.notifications_received p ms)) n =
      ap requests (receive_each-frame p ms n)
  handle_swarm-requests (SwarmEvent.behaviour (BehaviourOut.discovered p)) n =
      ap requests (discover-frame p n)
  handle_swarm-requests (SwarmEvent.behaviour b) n = refl
  handle_swarm-requests e n = refl

  -- What is kept of the requests of the peers, and whether something that wakes the task up is
  -- such a request or a response to one.
  abbrev pub tables :
      SubstrateNetwork L
      → HashMap ℕ (ℕ × L.ResponseSender)
        × HashMap ℕ (List ℕ)
        × List (L.ResponseSender × OutgoingResponse L)
  tables n = (n.pending_requests, n.cached_responses, n.responded)

  abbrev pub is_inbound : Wake L → Bool
  is_inbound (map pr r) = true
  is_inbound (command_rx (Command.send_response p k r)) = true
  is_inbound w = false

  pub wake-tables :
      (w : Wake L) (n : SubstrateNetwork L) → is_inbound w ≡ false → tables (wake w n) ≡ tables n
  unfolding wake on_command next_request_id
  wake-tables (map pr r) n h = cc
  wake-tables (pending_response k o) n h = ap tables (select_response-frame k o n)
  wake-tables (command_rx (Command.send_response p k r)) n h = cc
  wake-tables (command_rx (Command.send_request p pr r)) n h =
      ap tables (request_or_cached-frame p pr r n.next_request (issued n))
  wake-tables (command_rx (Command.send_notification p pr m)) n h =
      ap tables (send_notification-frame p pr m n)
  wake-tables (command_rx c) n h = refl
  wake-tables (swarm e) n h =
      ap (λ r. (r.pending_requests, r.cached_responses, r.responded)) (handle_swarm-requests e n)
