-- ===== src/Filter/Process.antt =====
-- src/filter/mod.rs, `process_events`: the filter carries out the events of its executor.
use swarm_host.Prelude.{◌≡◌, inl, inr, arith, ℕ, none, some, List, [], ◌∷◌, ◌++◌}
use swarm_host.Map.{get, insert, remove}
use swarm_host.Error.{Result, ok, err, Result-cases, peer_doesnt_exist}
use swarm_host.Backend.{NetworkBackend, PacketSink}
use swarm_host.Executor.{Executor, ExecutorEvent, connect, forward, send_request, send_response}
use swarm_host.Heuristics.Handle.{register_notification_sent}
use swarm_host.Filter
use swarm_host.Filter.{Filter, PeerInfo}

module _ {T : NetworkBackend} {E : Executor T} {K : PacketSink T} where
  -- What is left of a peer's entry after its sink was used: get_mut(&peer).sink.…(…)
  unfoldable pub put_sink : T.PeerId → PeerInfo T K → K.Sink → Filter T E K → Filter T E K
  put_sink peer info sink f = record f {
    peers = insert T.peer_eq peer (record info { sink = sink }) f.peers;
  }

  -- Only a notification that was sent is reported.
  unfoldable pub report_sent :
      T.PeerId → T.Protocol → T.Message → Result T.foreign Unit → Filter T E K → Filter T E K
  report_sent peer protocol n (ok done) f = record f {
    heuristics_handle =
        register_notification_sent f.interface protocol (peer ∷ []) n f.heuristics_handle;
  }
  report_sent peer protocol n (err e) f = f

  -- The body of the loop over the receivers of a notification.
  unfoldable pub forward_to : T.PeerId → T.Protocol → T.Message → Filter T E K → Filter T E K
  unfolding put_sink report_sent
  forward_to peer protocol n f = elim (get T.peer_eq peer f.peers) [
    | none ↦ f
    | some info ↦
        let (sent, sink) = K.send_packet (some protocol) n info.sink in
        report_sent peer protocol n sent (put_sink peer info sink f)
  ]

  unfoldable pub forward_to_each :
      List T.PeerId → T.Protocol → T.Message → Filter T E K → Filter T E K
  forward_to_each [] protocol n f = f
  forward_to_each (peer ∷ peers) protocol n f =
      forward_to_each peers protocol n (forward_to peer protocol n f)

  unfoldable pub request_from :
      T.PeerId → T.Protocol → List ℕ → Filter T E K → Result T.foreign Unit × Filter T E K
  unfolding put_sink
  request_from peer protocol payload f = elim (get T.peer_eq peer f.peers) [
    | none ↦ (err peer_doesnt_exist, f)
    | some info ↦
        let (sent, sink) = K.send_request protocol payload info.sink in
        (ok tt, put_sink peer info sink f)
  ]

  unfoldable pub respond_with :
      T.PeerId → T.RequestId → List ℕ → Filter T E K → Result T.foreign Unit × Filter T E K
  unfolding put_sink
  respond_with peer id payload f = elim (get T.peer_eq peer f.peers) [
    | none ↦ (err peer_doesnt_exist, f)
    | some info ↦
        let (sent, sink) = K.send_response id payload info.sink in
        (ok tt, put_sink peer info sink f)
  ]

  unfoldable pub respond_to :
      T.PeerId → List ℕ → Filter T E K → Result T.foreign Unit × Filter T E K
  unfolding respond_with
  respond_to peer payload f = elim (get T.peer_eq peer f.pending_inbound) [
    | none ↦ (ok tt, f)
    | some id ↦
        respond_with peer id payload
          (record f { pending_inbound = remove T.peer_eq peer f.pending_inbound })
  ]

  -- The body of the loop over the events; an error ends the loop, as `?` does.
  unfoldable pub process_event :
      ExecutorEvent T → Filter T E K → Result T.foreign Unit × Filter T E K
  process_event (connect peer) f =
      (ok tt, record f { event_tx = f.event_tx ++ Filter.connect f.interface peer ∷ [] })
  process_event (forward peers protocol n) f = (ok tt, forward_to_each peers protocol n f)
  process_event (send_request peer protocol payload) f = request_from peer protocol payload f
  process_event (send_response peer payload) f = respond_to peer payload f

  unfoldable pub process_events :
      List (ExecutorEvent T) → Filter T E K → Result T.foreign Unit × Filter T E K
  process_events [] f = (ok tt, f)
  process_events (event ∷ events) f =
      let (done, f') = process_event event f in
      elim done [ ok _ ↦ process_events events f' | err e ↦ (err e, f') ]

  -- A step of the loop that is followed by another.
  pub process_events_ok :
      (event : ExecutorEvent T) (events : List (ExecutorEvent T)) (f : Filter T E K)
      → (process_events (event ∷ events) f).0 ≡ ok tt
      → process_events (event ∷ events) f ≡ process_events events (process_event event f).1
  unfolding process_events
  process_events_ok event events f done = elim (Result-cases (process_event event f).0) [
    | inl e ↦ rw (e, process_events)
    | inr (x, e) ↦ ground arith
  ]
