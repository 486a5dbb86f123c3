-- ===== src/Filter/Delivery.antt =====
-- src/filter/mod.rs, `process_events`: what one connected peer is sent, whatever else the events do.
use swarm_host.Prelude.{
  ℕ, ◌≡◌, ite, inl, inr, Option, none, some, List, [], ◌∷◌, arith, Option-cases,
}
use swarm_host.Map.{HashSet, get, remove}
use swarm_host.Map.Laws.{get-insert, get-remove}
use swarm_host.Error.{Result, ok, err}
use swarm_host.Backend.{NetworkBackend, PacketSink}
use swarm_host.Executor.{Executor, ExecutorEvent, connect, forward, send_request, send_response}
use swarm_host.Filter.{Filter, PeerInfo}
use swarm_host.Filter.Process.{
  put_sink, report_sent, forward_to, forward_to_each, request_from, respond_with, respond_to,
  process_event, process_events, process_events_ok,
}

-- The connection to one peer: its sink, and its request that waits for a response.
pub record Line (T : NetworkBackend) (K : PacketSink T) : Type 0 where
  pub sink : K.Sink
  pub pending : Option T.RequestId

module _ {T : NetworkBackend} {K : PacketSink T} where
  -- One packet for each time that the peer stands among the receivers.
  unfoldable pub deliver_each :
      T.PeerId → List T.PeerId → T.Protocol → T.Message → Line T K → Line T K
  deliver_each p [] protocol n l = l
  deliver_each p (q ∷ qs) protocol n l =
      deliver_each p qs protocol n
        (ite (T.peer_eq q p) (record l { sink = (K.send_packet (some protocol) n l.sink).1 }) l)

  unfoldable pub deliver_response : List ℕ → Option T.RequestId → Line T K → Line T K
  deliver_response payload none l = l
  deliver_response payload (some id) l = record {
    sink = (K.send_response id payload l.sink).1;
    pending = none;
  }

  -- What an event does to the line of `p`; an event that names other peers does nothing.
  unfoldable pub deliver : T.PeerId → ExecutorEvent T → Line T K → Line T K
  unfolding deliver_each deliver_response
  deliver p (connect q) l = l
  deliver p (forward qs protocol n) l = deliver_each p qs protocol n l
  deliver p (send_request q protocol payload) l =
      ite (T.peer_eq q p) (record l { sink = (K.send_request protocol payload l.sink).1 }) l
  deliver p (send_response q payload) l =
      ite (T.peer_eq q p) (deliver_response payload l.pending l) l

  unfoldable pub deliver_all : T.PeerId → List (ExecutorEvent T) → Line T K → Line T K
  deliver_all p [] l = l
  deliver_all p (e ∷ es) l = deliver_all p es (deliver p e l)

module _ {T : NetworkBackend} {E : Executor T} {K : PacketSink T} where
  -- The filter holds this line for the peer, and these protocols.
  pub record Holds (p : T.PeerId) (ps : HashSet T.Protocol) (l : Line T K) (f : Filter T E K)
      : Type 0 where
    pub at_sink : get T.peer_eq p f.peers ≡ some (record { sink = l.sink; protocols = ps })
    pub at_pending : get T.peer_eq p f.pending_inbound ≡ l.pending

  module _ (p : T.PeerId) (ps : HashSet T.Protocol) where
    -- The sink of some peer `q` is used by `g`.
    put_sink-Holds :
        (q : T.PeerId) (g : K.Sink → K.Sink) (info : PeerInfo T K) (l : Line T K) (f : Filter T E K)
        → get T.peer_eq q f.peers ≡ some info
        → Holds p ps l f
        → Holds p ps
            (ite (T.peer_eq q p) (record l { sink = g l.sink }) l)
            (put_sink q info (g info.sink) f)
    unfolding put_sink
    put_sink-Holds q g info l f e h = ground (
      arith,
      get-insert T.peer_eq q p (record { sink = g info.sink; protocols = info.protocols }) f.peers,
    )

    report_sent-Holds :
        (q : T.PeerId) (protocol : T.Protocol) (n : T.Message) (r : Result T.foreign Unit)
        (l : Line T K) (f : Filter T E K)
        → Holds p ps l f
        → Holds p ps l (report_sent q protocol n r f)
    unfolding report_sent
    report_sent-Holds q protocol n (ok done) l f h = record {
      at_sink = h.at_sink;
      at_pending = h.at_pending;
    }
    report_sent-Holds q protocol n (err e) l f h = h

    -- If `q` is unknown, it is not `p`.
    unknown-Holds :
        (q : T.PeerId) (l l' : Line T K) (f : Filter T E K)
        → get T.peer_eq q f.peers ≡ none
        → Holds p ps l f
        → Holds p ps (ite (T.peer_eq q p) l' l) f
    unknown-Holds q l l' f e h = ground arith

    forward_to-Holds :
        (q : T.PeerId) (protocol : T.Protocol) (n : T.Message) (l : Line T K) (f : Filter T E K)
        → Holds p ps l f
        → Holds p ps
            (ite (T.peer_eq q p) (record l { sink = (K.send_packet (some protocol) n l.sink).1 }) l)
            (forward_to q protocol n f)
    unfolding forward_to
    forward_to-Holds q protocol n l f h = elim (Option-cases (get T.peer_eq q f.peers)) [
      | inl e ↦ rw (e, forward_to) (unknown-Holds q l _ f e h)
      | inr (info, e) ↦
          rw (e, forward_to)
            (report_sent-Holds q protocol n _ _ _
              (put_sink-Holds q (λ s. (K.send_packet (some protocol) n s).1) info l f e h))
    ]

    forward_to_each-Holds :
        (qs : List T.PeerId) (protocol : T.Protocol) (n : T.Message) (l : Line T K)
        (f : Filter T E K)
        → Holds p ps l f
        → Holds p ps (deliver_each p qs protocol n l) (forward_to_each qs protocol n f)
    unfolding forward_to_each deliver_each
    forward_to_each-Holds [] protocol n l f h = h
    forward_to_each-Holds (q ∷ qs) protocol n l f h =
        forward_to_each-Holds qs protocol n _ (forward_to q protocol n f)
          (forward_to-Holds q protocol n l f h)

    request_from-Holds :
        (q : T.PeerId) (protocol : T.Protocol) (payload : List ℕ) (l : Line T K) (f : Filter T E K)
        → Holds p ps l f
        → Holds p ps
            (ite (T.peer_eq q p) (record l { sink = (K.send_request protocol payload l.sink).1 }) l)
            (request_from q protocol payload f).1
    unfolding request_from
    request_from-Holds q protocol payload l f h = elim (Option-cases (get T.peer_eq q f.peers)) [
      | inl e ↦ rw (e, request_from) (unknown-Holds q l _ f e h)
      | inr (info, e) ↦
          rw (e, request_from)
            (put_sink-Holds q (λ s. (K.send_request protocol payload s).1) info l f e h)
    ]

    -- A request of `q` waits, and is taken off the map before the response goes out.
    answer-Holds :
        (q : T.PeerId) (id : T.RequestId) (payload : List ℕ) (l : Line T K) (f : Filter T E K)
        → get T.peer_eq q f.pending_inbound ≡ some id
        → Holds p ps l f
        → Holds p ps
            (ite (T.peer_eq q p) (deliver_response payload l.pending l) l)
            (respond_with q id payload
              (record f { pending_inbound = remove T.peer_eq q f.pending_inbound })).1
    unfolding respond_with deliver_response put_sink
    answer-Holds q id payload l f w h = elim (Option-cases (get T.peer_eq q f.peers)) [
      | inl e ↦ rw (e, respond_with) (ground (arith, get-remove T.peer_eq q p f.pending_inbound))
      | inr (info, e) ↦
          rw (e, respond_with)
            (ground (
              arith,
              get-remove T.peer_eq q p f.pending_inbound,
              get-insert T.peer_eq q p
                  (record {
                    sink = (K.send_response id payload info.sink).1;
                    protocols = info.protocols;
                  })
                  f.peers,
            ))
    ]

    respond_to-Holds :
        (q : T.PeerId) (payload : List ℕ) (l : Line T K) (f : Filter T E K)
        → Holds p ps l f
        → Holds p ps
            (ite (T.peer_eq q p) (deliver_response payload l.pending l) l)
            (respond_to q payload f).1
    unfolding respond_to deliver_response
    respond_to-Holds q payload l f h = elim (Option-cases (get T.peer_eq q f.pending_inbound)) [
      | inl e ↦ rw (e, respond_to) (ground arith)
      | inr (id, e) ↦ rw (e, respond_to) (answer-Holds q id payload l f e h)
    ]

    process_event-Holds :
        (e : ExecutorEvent T) (l : Line T K) (f : Filter T E K)
        → Holds p ps l f
        → Holds p ps (deliver p e l) (process_event e f).1
    unfolding process_event deliver
    process_event-Holds (connect q) l f h = record {
      at_sink = h.at_sink;
      at_pending = h.at_pending;
    }
    process_event-Holds (forward qs protocol n) l f h = forward_to_each-Holds qs protocol n l f h
    process_event-Holds (send_request q protocol payload) l f h =
        request_from-Holds q protocol payload l f h
    process_event-Holds (send_response q payload) l f h = respond_to-Holds q payload l f h

    -- If the events were all carried out, a peer that was connected is still connected, and has
    -- been sent just what the events address to it, in their order: the notifications that list
    -- it, the requests to it, and the first response to its waiting request.
    pub process_events-Holds :
        (es : List (ExecutorEvent T)) (l : Line T K) (f : Filter T E K)
        → Holds p ps l f
        → (process_events es f).0 ≡ ok tt
        → Holds p ps (deliver_all p es l) (process_events es f).1
    unfolding process_events deliver_all
    process_events-Holds [] l f h done = h
    process_events-Holds (e ∷ es) l f h done = rw (process_events_ok e es f done) (
        process_events-Holds es _ _ (process_event-Holds e l f h)
          (rw (process_events_ok e es f done) at done))
