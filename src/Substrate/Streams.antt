-- ===== src/Substrate/Streams.antt =====
-- src/backend/substrate/network/service.rs: the notification streams. What is sent over them, and
-- what is reported of them, against what the swarm reports and the program commands.
use swarm_host.Prelude.{
  ℕ, ◌≡◌, refl, sym, ◌∙◌, ap, inl, inr, Option, none, some, List, [], ◌∷◌, ◌++◌, append-nil,
  append_assoc, Option-cases, ite, fun_ext,
}
use swarm_host.Map.{get}
use swarm_host.Map.Laws.{get-insert, get-remove}
use swarm_host.Substrate.{Library}
use swarm_host.Substrate.Network.{SubstrateNetwork, Command, BehaviourOut, key_eq}
use swarm_host.Substrate.Handlers.{send_notification, on_command, on_swarm_event}
use swarm_host.Substrate.Run.{SwarmEvent, Wake, map, pending_response, command_rx, swarm, wake, run}
use swarm_host.Substrate.Frame.{
  report_each-frame, add_each-frame, receive_each-frame, discover-frame, request_or_cached-frame,
  send_response-frame, select_response-frame, issued,
}

-- The abstract view: the sink of each open stream.
abbrev pub Streams : Library → Type 0
Streams L = (L.PeerId × L.ProtocolName) → Option L.NotificationsSink

abbrev pub set_stream {ℓ κ} :
    {K : Type ℓ} {V : Type κ} → Discrete K → K → Option V → (K → Option V) → K → Option V
set_stream eq k v f = λ j. ite (eq k j) v (f j)

abbrev pub over {ℓ κ} : {S : Type ℓ} {M : Type κ} → Option S → M → List (S × M)
over none message = []
over (some sink) message = (sink, message) ∷ []

module _ {L : Library} where
  abbrev pub next_streams : Wake L → Streams L → Streams L
  next_streams (swarm (SwarmEvent.behaviour (BehaviourOut.notification_stream_opened p pr s))) f =
      set_stream (key_eq L) (p, pr) (some s) f
  next_streams (swarm (SwarmEvent.behaviour (BehaviourOut.notification_stream_replaced p pr s))) f =
      set_stream (key_eq L) (p, pr) (some s) f
  next_streams (swarm (SwarmEvent.behaviour (BehaviourOut.notification_stream_closed p pr))) f =
      set_stream (key_eq L) (p, pr) none f
  next_streams w f = f

  abbrev pub delivered : Wake L → Streams L → List (L.NotificationsSink × List ℕ)
  delivered (command_rx (Command.send_notification p pr message)) f = over (f (p, pr)) message
  delivered w f = []

  -- The messages that a sequence sends, each on the sink that its stream has by then.
  unfoldable pub deliveries : List (Wake L) → Streams L → List (L.NotificationsSink × List ℕ)
  deliveries [] f = []
  deliveries (w ∷ ws) f = delivered w f ++ deliveries ws (next_streams w f)

  abbrev pub streams : SubstrateNetwork L → Streams L
  streams n = λ k. get (key_eq L) k n.notification_sinks

  -- The sinks, and what was sent over them.
  abbrev sending : SubstrateNetwork L → Streams L × List (L.NotificationsSink × List ℕ)
  sending n = (streams n, n.notified)

  Sends : Wake L → SubstrateNetwork L → Type 0
  Sends w n =
      (streams (wake w n) ≡ next_streams w (streams n))
      × ((wake w n).notified ≡ n.notified ++ delivered w (streams n))

  unchanged :
      (w : Wake L) (n : SubstrateNetwork L)
      → sending (wake w n) ≡ sending n
      → next_streams w (streams n) ≡ streams n
      → delivered w (streams n) ≡ []
      → Sends w n
  unfolding Sends
  unchanged w n same keeps silent =
      (ap (λ x. x.0) same ∙ sym keeps, ap (λ x. x.1) same ∙ sym (rw silent (append-nil n.notified)))

  opened-Sends :
      (p : L.PeerId) (pr : L.ProtocolName) (s : L.NotificationsSink) (n : SubstrateNetwork L)
      → Sends (swarm (SwarmEvent.behaviour (BehaviourOut.notification_stream_opened p pr s))) n
  unfolding Sends wake on_swarm_event
  opened-Sends p pr s n = (
    fun_ext (λ k. get-insert (key_eq L) (p, pr) k s n.notification_sinks),
    sym (append-nil n.notified),
  )

  replaced-Sends :
      (p : L.PeerId) (pr : L.ProtocolName) (s : L.NotificationsSink) (n : SubstrateNetwork L)
      → Sends (swarm (SwarmEvent.behaviour (BehaviourOut.notification_stream_replaced p pr s))) n
  unfolding Sends wake on_swarm_event
  replaced-Sends p pr s n = (
    fun_ext (λ k. get-insert (key_eq L) (p, pr) k s n.notification_sinks),
    sym (append-nil n.notified),
  )

  closed-Sends :
      (p : L.PeerId) (pr : L.ProtocolName) (n : SubstrateNetwork L)
      → Sends (swarm (SwarmEvent.behaviour (BehaviourOut.notification_stream_closed p pr))) n
  unfolding Sends wake on_swarm_event
  closed-Sends p pr n = (
    fun_ext (λ k. get-remove (key_eq L) (p, pr) k n.notification_sinks),
    sym (append-nil n.notified),
  )

  send_notification-Sends :
      (p : L.PeerId) (pr : L.ProtocolName) (m : List ℕ) (n : SubstrateNetwork L)
      → Sends (command_rx (Command.send_notification p pr m)) n
  unfolding Sends wake on_command
  send_notification-Sends p pr m n =
      elim (Option-cases (get (key_eq L) (p, pr) n.notification_sinks)) [
        | inl e ↦ rw (e, send_notification) (refl, sym (append-nil n.notified))
        | inr (s, e) ↦ rw (e, send_notification) (refl, refl)
      ]

  command-Sends : (c : Command L) (n : SubstrateNetwork L) → Sends (command_rx c) n
  unfolding wake on_command
  command-Sends (Command.send_notification p pr m) n = send_notification-Sends p pr m n
  command-Sends (Command.send_request p pr r) n =
      unchanged (command_rx (Command.send_request p pr r)) n
        (ap sending (request_or_cached-frame p pr r n.next_request (issued n))) refl refl
  command-Sends (Command.send_response p i r) n =
      unchanged (command_rx (Command.send_response p i r)) n
        (ap sending (send_response-frame i r n)) refl refl
  command-Sends (Command.connect p) n = unchanged (command_rx (Command.connect p)) n refl refl refl
  command-Sends (Command.disconnect p) n =
      unchanged (command_rx (Command.disconnect p)) n refl refl refl

  behaviour-Sends :
      (b : BehaviourOut L) (n : SubstrateNetwork L) → Sends (swarm (SwarmEvent.behaviour b)) n
  unfolding wake on_swarm_event
  behaviour-Sends (BehaviourOut.notification_stream_opened p pr s) n = opened-Sends p pr s n
  behaviour-Sends (BehaviourOut.notification_stream_replaced p pr s) n = replaced-Sends p pr s n
  behaviour-Sends (BehaviourOut.notification_stream_closed p pr) n = closed-Sends p pr n
  behaviour-Sends (BehaviourOut.reputation_changes p cs) n =
      let w = swarm (SwarmEvent.behaviour (BehaviourOut.reputation_changes p cs)) in
      unchanged w n (ap sending (report_each-frame p cs n)) refl refl
  behaviour-Sends (BehaviourOut.peer_identify p addrs prs) n =
      let w = swarm (SwarmEvent.behaviour (BehaviourOut.peer_identify p addrs prs)) in
      unchanged w n (ap sending (add_each-frame p prs addrs n)) refl refl
  behaviour-Sends (BehaviourOut.notifications_received p ms) n =
      let w = swarm (SwarmEvent.behaviour (BehaviourOut.notifications_received p ms)) in
      unchanged w n (ap sending (receive_each-frame p ms n)) refl refl
  behaviour-Sends (BehaviourOut.discovered p) n =
      let w = swarm (SwarmEvent.behaviour (BehaviourOut.discovered p)) in
      unchanged w n (ap sending (discover-frame p n)) refl refl
  behaviour-Sends b n = unchanged (swarm (SwarmEvent.behaviour b)) n refl refl refl

  wake-Sends : (w : Wake L) (n : SubstrateNetwork L) → Sends w n
  unfolding wake
  wake-Sends (map pr r) n = unchanged (map pr r) n refl refl refl
  wake-Sends (pending_response i o) n =
      unchanged (pending_response i o) n (ap sending (select_response-frame i o n)) refl refl
  wake-Sends (command_rx c) n = command-Sends c n
  wake-Sends (swarm (SwarmEvent.behaviour b)) n = behaviour-Sends b n
  wake-Sends (swarm e) n = unchanged (swarm e) n refl refl refl

  -- Whatever wakes the task up, it sends just the notifications that it is commanded to send, in
  -- their order, each on the sink that the swarm last gave for its peer and protocol; one for which
  -- no stream is open is dropped.
  pub run-deliveries :
      (ws : List (Wake L)) (n : SubstrateNetwork L)
      → (run ws n).notified ≡ n.notified ++ deliveries ws (streams n)
  unfolding run deliveries Sends
  run-deliveries [] n = sym (append-nil n.notified)
  run-deliveries (w ∷ ws) n =
      let (next, sent) = wake-Sends w n in
      run-deliveries ws (wake w n)
      ∙ (rw (next, sent) (append_assoc n.notified (delivered w (streams n)) _))
