-- ===== src/Filter/Requests.antt =====
-- src/filter/mod.rs: the requests that wait for a response, against the commands that bring them.
use swarm_host.Prelude.{
  ℕ, ◌≡◌, refl, sym, ◌∙◌, ap, inl, inr, ite, Option, some, List, [], ◌∷◌, arith, Option-cases,
}
use swarm_host.Map.{get}
use swarm_host.Map.Laws.{get-insert, get-remove}
use swarm_host.Error.{Result, ok, err, Result-cases, ExecutorError, executor_error}
use swarm_host.Backend.{NetworkBackend, PacketSink}
use swarm_host.Executor.{
  Executor, Events, ExecutorEvent, connect, forward, send_request, send_response,
}
use swarm_host.Filter
use swarm_host.Filter.{Filter, FilterCommand, PeerInfo}
use swarm_host.Filter.Process.{
  report_sent, forward_to, forward_to_each, request_from, respond_with, respond_to, process_event,
  process_events,
}
use swarm_host.Filter.Commands.{
  with_events, poll_filter, register_peer, register_accepted, discover_peer, unregister_peer,
  protocol_opened, protocol_closed, install_notification_filter, install_request_response_filter,
  notified, inject_notification, inject_request, inject_response, handle_command,
}
use swarm_host.Filter.Run.{Wake, command_rx, sleep, wake, run}

module _ {T : NetworkBackend} {K : PacketSink T} where
  -- The latest request of `p`, where `o` is the one before the command.
  unfoldable pub asked : T.PeerId → FilterCommand T K → Option T.RequestId → Option T.RequestId
  asked p (Filter.inject_request pr q r) o = ite (T.peer_eq q p) (some (T.request_id r)) o
  asked p (Filter.inject_response pr q r) o = o
  asked p (Filter.inject_notification pr q n) o = o
  asked p (Filter.register_peer q sink) o = o
  asked p (Filter.unregister_peer q) o = o
  asked p (Filter.discover_peer q) o = o
  asked p (Filter.protocol_opened q pr) o = o
  asked p (Filter.protocol_closed q pr) o = o
  asked p (Filter.install_notification_filter pr filter context) o = o
  asked p (Filter.install_request_response_filter pr filter context) o = o

  unfoldable pub last_request : T.PeerId → List (Wake T K) → Option T.RequestId → Option T.RequestId
  last_request p [] o = o
  last_request p (command_rx c ∷ rest) o = last_request p rest (asked p c o)
  last_request p (sleep ∷ rest) o = last_request p rest o

module _ {T : NetworkBackend} {E : Executor T} {K : PacketSink T} where
  report_sent-pending :
      (q : T.PeerId) (pr : T.Protocol) (n : T.Message) (r : Result T.foreign Unit)
      (f : Filter T E K)
      → (report_sent q pr n r f).pending_inbound ≡ f.pending_inbound
  unfolding report_sent
  report_sent-pending q pr n (ok done) f = refl
  report_sent-pending q pr n (err e) f = refl

  forward_to-pending :
      (q : T.PeerId) (pr : T.Protocol) (n : T.Message) (f : Filter T E K)
      → (forward_to q pr n f).pending_inbound ≡ f.pending_inbound
  unfolding forward_to
  forward_to-pending q pr n f = elim (Option-cases (get T.peer_eq q f.peers)) [
    | inl e ↦ rw (e, forward_to)
    | inr (info, e) ↦ rw (e, forward_to) (report_sent-pending q pr n _ _)
  ]

  forward_to_each-pending :
      (qs : List T.PeerId) (pr : T.Protocol) (n : T.Message) (f : Filter T E K)
      → (forward_to_each qs pr n f).pending_inbound ≡ f.pending_inbound
  unfolding forward_to_each
  forward_to_each-pending [] pr n f = refl
  forward_to_each-pending (q ∷ qs) pr n f =
      forward_to_each-pending qs pr n _ ∙ forward_to-pending q pr n f

  request_from-pending :
      (q : T.PeerId) (pr : T.Protocol) (payload : List ℕ) (f : Filter T E K)
      → (request_from q pr payload f).1.pending_inbound ≡ f.pending_inbound
  unfolding request_from
  request_from-pending q pr payload f = elim (Option-cases (get T.peer_eq q f.peers)) [
    | inl e ↦ rw (e, request_from)
    | inr (info, e) ↦ rw (e, request_from)
  ]

  respond_with-pending :
      (q : T.PeerId) (id : T.RequestId) (payload : List ℕ) (f : Filter T E K)
      → (respond_with q id payload f).1.pending_inbound ≡ f.pending_inbound
  unfolding respond_with
  respond_with-pending q id payload f = elim (Option-cases (get T.peer_eq q f.peers)) [
    | inl e ↦ rw (e, respond_with)
    | inr (info, e) ↦ rw (e, respond_with)
  ]

  module _ (p : T.PeerId) (id : T.RequestId) where
    -- Request `id` of `p` waits for its response.
    abbrev pub Waits : Filter T E K → Type 0
    Waits f = get T.peer_eq p f.pending_inbound ≡ some id

    Waits-along : (f g : Filter T E K) → g.pending_inbound ≡ f.pending_inbound → Waits g → Waits f
    Waits-along f g e h = ap (get T.peer_eq p) (sym e) ∙ h

    respond_to-Waits :
        (q : T.PeerId) (payload : List ℕ) (f : Filter T E K)
        → Waits (respond_to q payload f).1
        → Waits f
    unfolding respond_to
    respond_to-Waits q payload f h = elim (Option-cases (get T.peer_eq q f.pending_inbound)) [
      | inl e ↦ rw (e, respond_to) at h
      | inr (r, e) ↦ ground (
        arith,
        get-remove T.peer_eq q p f.pending_inbound,
        Waits-along _ _ (respond_with-pending q r payload _) (rw (e, respond_to) at h),
      )
    ]

    process_event-Waits :
        (e : ExecutorEvent T) (f : Filter T E K) → Waits (process_event e f).1 → Waits f
    unfolding process_event
    process_event-Waits (connect q) f h = h
    process_event-Waits (forward qs pr n) f h =
        Waits-along f (forward_to_each qs pr n f) (forward_to_each-pending qs pr n f) h
    process_event-Waits (send_request q pr payload) f h =
        Waits-along f (request_from q pr payload f).1 (request_from-pending q pr payload f) h
    process_event-Waits (send_response q payload) f h = respond_to-Waits q payload f h

    process_events-Waits :
        (es : List (ExecutorEvent T)) (f : Filter T E K) → Waits (process_events es f).1 → Waits f
    unfolding process_events
    process_events-Waits [] f h = h
    process_events-Waits (e ∷ es) f h = elim (Result-cases (process_event e f).0) [
      | inl x ↦
          process_event-Waits e f
            (process_events-Waits es (process_event e f).1 (rw (x, process_events) at h))
      | inr (y, x) ↦ process_event-Waits e f (rw (x, process_events) at h)
    ]

    with_events-Waits :
        (r : Events T) (x : E.State) (f : Filter T E K) → Waits (with_events (r, x) f).1 → Waits f
    unfolding with_events
    with_events-Waits (ok es) x f h = process_events-Waits es (record f { executor = x }) h
    with_events-Waits (err e) x f h = h

    notified-Waits :
        (pr : T.Protocol) (n : T.Message) (r : Events T) (x : E.State) (f : Filter T E K)
        → Waits (notified pr n (r, x) f).1
        → Waits f
    unfolding notified
    notified-Waits pr n (ok es) x f h = process_events-Waits es (record f { executor = x }) h
    notified-Waits pr n (err (executor_error ExecutorError.filter_doesnt_exist)) x f h = h
    notified-Waits pr n (err e) x f h = h

    register_accepted-Waits :
        (q : T.PeerId) (sink : K.Sink) (r : Events T) (x : E.State) (f : Filter T E K)
        → Waits (register_accepted q sink (r, x) f).1
        → Waits f
    unfolding register_accepted
    register_accepted-Waits q sink (ok es) x f h = process_events-Waits es _ h
    register_accepted-Waits q sink (err e) x f h = h

    register_peer-Waits :
        (q : T.PeerId) (sink : K.Sink) (f : Filter T E K)
        → Waits (register_peer q sink f).1
        → Waits f
    unfolding register_peer
    register_peer-Waits q sink f h = elim (Option-cases (get T.peer_eq q f.peers)) [
      | inl e ↦ register_accepted-Waits q sink _ _ f (rw (e, register_peer) at h)
      | inr (info, e) ↦ rw (e, register_peer) at h
    ]

    unregister_peer-Waits :
        (q : T.PeerId) (f : Filter T E K) → Waits (unregister_peer q f).1 → Waits f
    unfolding unregister_peer
    unregister_peer-Waits q f h = elim (Option-cases (get T.peer_eq q f.peers)) [
      | inl e ↦ rw (e, unregister_peer) at h
      | inr (info, e) ↦ with_events-Waits _ _ _ (rw (e, unregister_peer) at h)
    ]

    protocol_opened-Waits :
        (q : T.PeerId) (pr : T.Protocol) (f : Filter T E K)
        → Waits (protocol_opened q pr f).1
        → Waits f
    unfolding protocol_opened
    protocol_opened-Waits q pr f h = elim (Option-cases (get T.peer_eq q f.peers)) [
      | inl e ↦ rw (e, protocol_opened) at h
      | inr (info, e) ↦ with_events-Waits _ _ _ (rw (e, protocol_opened) at h)
    ]

    protocol_closed-Waits :
        (q : T.PeerId) (pr : T.Protocol) (f : Filter T E K)
        → Waits (protocol_closed q pr f).1
        → Waits f
    unfolding protocol_closed
    protocol_closed-Waits q pr f h = elim (Option-cases (get T.peer_eq q f.peers)) [
      | inl e ↦ rw (e, protocol_closed) at h
      | inr (info, e) ↦ with_events-Waits _ _ _ (rw (e, protocol_closed) at h)
    ]

    handle_command-Waits :
        (c : FilterCommand T K) (f : Filter T E K) (o : Option T.RequestId)
        → (Waits f → o ≡ some id)
        → Waits (handle_command c f).1
        → asked p c o ≡ some id
    unfolding handle_command asked discover_peer install_notification_filter
        install_request_response_filter inject_notification inject_request inject_response
    handle_command-Waits (Filter.register_peer q sink) f o k h = k (register_peer-Waits q sink f h)
    handle_command-Waits (Filter.unregister_peer q) f o k h = k (unregister_peer-Waits q f h)
    handle_command-Waits (Filter.protocol_opened q pr) f o k h = k (protocol_opened-Waits q pr f h)
    handle_command-Waits (Filter.protocol_closed q pr) f o k h = k (protocol_closed-Waits q pr f h)
    handle_command-Waits (Filter.discover_peer q) f o k h = k (with_events-Waits _ _ f h)
    handle_command-Waits (Filter.install_notification_filter pr filter context) f o k h = k h
    handle_command-Waits (Filter.install_request_response_filter pr filter context) f o k h = k h
    handle_command-Waits (Filter.inject_notification pr q n) f o k h =
        k (notified-Waits pr n _ _ _ h)
    handle_command-Waits (Filter.inject_response pr q r) f o k h = k (with_events-Waits _ _ _ h)
    handle_command-Waits (Filter.inject_request pr q r) f o k h = ground (
      arith,
      get-insert T.peer_eq q p (T.request_id r) f.pending_inbound,
      with_events-Waits _ _ _ h,
    )

    -- A request that waits for its response, after any commands and any calls of the timer, is the
    -- latest one that its peer has made: the last of the commands that brings a request of the
    -- peer, or where there is none, the one that waited before (`o`).
    pub run-Waits :
        (ws : List (Wake T K)) (f : Filter T E K) (o : Option T.RequestId)
        → (Waits f → o ≡ some id)
        → Waits (run ws f)
        → last_request p ws o ≡ some id
    unfolding run wake last_request poll_filter
    run-Waits [] f o k h = k h
    run-Waits (command_rx c ∷ rest) f o k h =
        run-Waits rest (handle_command c f).1 (asked p c o) (handle_command-Waits c f o k) h
    run-Waits (sleep ∷ rest) f o k h =
        run-Waits rest (poll_filter f).1 o (λ e. k (with_events-Waits _ _ f e)) h
