-- ===== src/Filter/Members.antt =====
-- src/filter/mod.rs: which peers a filter knows, and their protocols, after each command.
use mathlib.Core.Option
use swarm_host.Prelude.{
  ◌≡◌, refl, ◌∙◌, inl, inr, Option, some, List, [], ◌∷◌, arith, Option-cases, ℕ,
}
use swarm_host.Map.{HashMap, HashSet, get}
use swarm_host.Map.Laws.{get-insert}
use swarm_host.Error.{Result, ok, err, Result-cases}
use swarm_host.Backend.{NetworkBackend, PacketSink}
use swarm_host.Executor.{
  Executor, ExecutorEvent, Events, connect, forward, send_request, send_response,
}
use swarm_host.Heuristics.Handle.{HeuristicsHandle}
use swarm_host.Filter.{Filter, PeerInfo}
use swarm_host.Filter.Process.{
  put_sink, report_sent, forward_to, forward_to_each, request_from, respond_with, respond_to,
  process_event, process_events,
}
use swarm_host.Filter.Broadcast.{broadcast, broadcast_report}
use swarm_host.Filter.Commands.{with_events}

module _ {T : NetworkBackend} {K : PacketSink T} where
  unfoldable pub protocols_in :
      T.PeerId → HashMap T.PeerId (PeerInfo T K) → Option (HashSet T.Protocol)
  protocols_in p peers = Option.map (λ info. info.protocols) (get T.peer_eq p peers)

  pub broadcast-protocols :
      (p : T.PeerId) (i : T.InterfaceId) (protocol : T.Protocol) (n : T.Message)
      (peers : HashMap T.PeerId (PeerInfo T K)) (tx : HeuristicsHandle T)
      → protocols_in p (broadcast i protocol n peers tx).0 ≡ protocols_in p peers
  unfolding protocols_in broadcast get
  broadcast-protocols p i protocol n [] tx = refl
  broadcast-protocols p i protocol n ((q, info) ∷ peers) tx =
      let sent = (K.send_packet (some protocol) n info.sink).0 in
      ground
        (arith, broadcast-protocols p i protocol n peers (broadcast_report i protocol q n sent tx))

module _ {T : NetworkBackend} {E : Executor T} {K : PacketSink T} where
  -- The protocols that the filter keeps for a peer; `none` if it does not know the peer.
  abbrev pub protocols_of : T.PeerId → Filter T E K → Option (HashSet T.Protocol)
  protocols_of p f = protocols_in p f.peers

  module _ (p : T.PeerId) where
    put_sink-protocols :
        (q : T.PeerId) (info : PeerInfo T K) (s : K.Sink) (f : Filter T E K)
        → get T.peer_eq q f.peers ≡ some info
        → protocols_of p (put_sink q info s f) ≡ protocols_of p f
    unfolding put_sink protocols_in
    put_sink-protocols q info s f e =
        ground (
          arith,
          get-insert T.peer_eq q p (record { sink = s; protocols = info.protocols }) f.peers,
        )

    report_sent-protocols :
        (q : T.PeerId) (protocol : T.Protocol) (n : T.Message) (r : Result T.foreign Unit)
        (f : Filter T E K)
        → protocols_of p (report_sent q protocol n r f) ≡ protocols_of p f
    unfolding report_sent
    report_sent-protocols q protocol n (ok done) f = refl
    report_sent-protocols q protocol n (err e) f = refl

    forward_to-protocols :
        (q : T.PeerId) (protocol : T.Protocol) (n : T.Message) (f : Filter T E K)
        → protocols_of p (forward_to q protocol n f) ≡ protocols_of p f
    unfolding forward_to
    forward_to-protocols q protocol n f = elim (Option-cases (get T.peer_eq q f.peers)) [
      | inl e ↦ rw (e, forward_to)
      | inr (info, e) ↦
          rw (e, forward_to)
            (report_sent-protocols q protocol n _ _ ∙ put_sink-protocols q info _ f e)
    ]

    forward_to_each-protocols :
        (qs : List T.PeerId) (protocol : T.Protocol) (n : T.Message) (f : Filter T E K)
        → protocols_of p (forward_to_each qs protocol n f) ≡ protocols_of p f
    unfolding forward_to_each
    forward_to_each-protocols [] protocol n f = refl
    forward_to_each-protocols (q ∷ qs) protocol n f =
        forward_to_each-protocols qs protocol n _ ∙ forward_to-protocols q protocol n f

    request_from-protocols :
        (q : T.PeerId) (protocol : T.Protocol) (payload : List ℕ) (f : Filter T E K)
        → protocols_of p (request_from q protocol payload f).1 ≡ protocols_of p f
    unfolding request_from
    request_from-protocols q protocol payload f = elim (Option-cases (get T.peer_eq q f.peers)) [
      | inl e ↦ rw (e, request_from)
      | inr (info, e) ↦ rw (e, request_from) (put_sink-protocols q info _ f e)
    ]

    respond_with-protocols :
        (q : T.PeerId) (id : T.RequestId) (payload : List ℕ) (f : Filter T E K)
        → protocols_of p (respond_with q id payload f).1 ≡ protocols_of p f
    unfolding respond_with
    respond_with-protocols q id payload f = elim (Option-cases (get T.peer_eq q f.peers)) [
      | inl e ↦ rw (e, respond_with)
      | inr (info, e) ↦ rw (e, respond_with) (put_sink-protocols q info _ f e)
    ]

    process_event-protocols :
        (e : ExecutorEvent T) (f : Filter T E K)
        → protocols_of p (process_event e f).1 ≡ protocols_of p f
    unfolding process_event respond_to
    process_event-protocols (connect q) f = refl
    process_event-protocols (forward qs protocol n) f = forward_to_each-protocols qs protocol n f
    process_event-protocols (send_request q protocol payload) f =
        request_from-protocols q protocol payload f
    process_event-protocols (send_response q payload) f =
        elim (Option-cases (get T.peer_eq q f.pending_inbound)) [
          | inl e ↦ rw (e, respond_to)
          | inr (id, e) ↦ rw (e, respond_to) (respond_with-protocols q id payload _)
        ]

    pub process_events-protocols :
        (es : List (ExecutorEvent T)) (f : Filter T E K)
        → protocols_of p (process_events es f).1 ≡ protocols_of p f
    unfolding process_events
    process_events-protocols [] f = refl
    process_events-protocols (e ∷ es) f = elim (Result-cases (process_event e f).0) [
      | inl x ↦
          rw (x, process_events)
            (process_events-protocols es (process_event e f).1 ∙ process_event-protocols e f)
      | inr (y, x) ↦ rw (x, process_events) (process_event-protocols e f)
    ]

    pub with_events-protocols :
        (r : Events T) (x : E.State) (f : Filter T E K)
        → protocols_of p (with_events (r, x) f).1 ≡ protocols_of p f
    unfolding with_events
    with_events-protocols (ok es) x f = process_events-protocols es (record f { executor = x })
    with_events-protocols (err e) x f = refl
