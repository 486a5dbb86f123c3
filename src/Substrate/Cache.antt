-- ===== src/Substrate/Cache.antt =====
-- src/backend/substrate/network/service.rs: the cache of responses, which answers requests of the
-- program without asking the peer.
use swarm_host.Prelude.{
  ℕ, ◌≡◌, refl, ap, inl, inr, some, List, [], ◌∷◌, ◌++◌, arith, append-nil, append_assoc,
  Option-cases, collect, Elem, Elem-append_left, Elem-append_last, ℕ_discrete,
}
use swarm_host.Map.{get}
use swarm_host.Map.Laws.{get-insert, get-remove}
use swarm_host.Substrate.{Library}
use swarm_host.Substrate.Network
use swarm_host.Substrate.Network.{SubstrateNetwork, SubstrateNetworkEvent, Command, IncomingRequest}
use swarm_host.Substrate.Handlers.{next_request_id, send_response, on_command}
use swarm_host.Substrate.Run.{Wake, map, command_rx, wake, run, new}
use swarm_host.Substrate.Emitted.{emitted, wake-event_tx}
use swarm_host.Substrate.Frame.{wake-tables}

module _ {L : Library} where
  -- A request with the digest has been reported under the identifier.
  pub record Arrived (events : List (SubstrateNetworkEvent L)) (id digest : ℕ) : Type 0 where
    pub peer : L.PeerId
    pub protocol : L.ProtocolName
    pub payload : List ℕ
    pub reported : Elem (Network.request_received peer protocol id payload) events
    pub hashed : L.hash payload ≡ digest

  -- The responses that the program gives, with the identifiers that they are for.
  abbrev pub given : Wake L → List (ℕ × List ℕ)
  given (command_rx (Command.send_response p id r)) = (id, r) ∷ []
  given w = []

  pub record Given (events : List (SubstrateNetworkEvent L)) (responses : List (ℕ × List ℕ))
      (digest : ℕ) (response : List ℕ) : Type 0 where
    pub id : ℕ
    pub arrived : Arrived events id digest
    pub commanded : Elem (id, response) responses

  -- Every request that waits has arrived, and every cached response was given to one that has.
  record IsHonest (n : SubstrateNetwork L) (gs : List (ℕ × List ℕ)) : Type 0 where
    pending :
        (id d : ℕ) (c : L.ResponseSender)
        → get ℕ_discrete id n.pending_requests ≡ some (d, c)
        → Arrived n.event_tx id d
    cached :
        (d : ℕ) (r : List ℕ)
        → get ℕ_discrete d n.cached_responses ≡ some r
        → Given n.event_tx gs d r

  more-Arrived :
      (es es' : List (SubstrateNetworkEvent L)) (id d : ℕ)
      → Arrived es id d
      → Arrived (es ++ es') id d
  more-Arrived es es' id d a = record {
    peer = a.peer;
    protocol = a.protocol;
    payload = a.payload;
    reported = Elem-append_left es' a.reported;
    hashed = a.hashed;
  }

  more-Given :
      (es es' : List (SubstrateNetworkEvent L)) (gs gs' : List (ℕ × List ℕ)) (d : ℕ) (r : List ℕ)
      → Given es gs d r
      → Given (es ++ es') (gs ++ gs') d r
  more-Given es es' gs gs' d r g = record {
    id = g.id;
    arrived = more-Arrived es es' g.id d g.arrived;
    commanded = Elem-append_left gs' g.commanded;
  }

  later-Given :
      (es : List (SubstrateNetworkEvent L)) (gs gs' : List (ℕ × List ℕ)) (d : ℕ) (r : List ℕ)
      → Given es gs d r
      → Given es (gs ++ gs') d r
  later-Given es gs gs' d r g = record {
    id = g.id;
    arrived = g.arrived;
    commanded = Elem-append_left gs' g.commanded;
  }

  -- What leaves the tables alone.
  still-IsHonest :
      (w : Wake L) (n : SubstrateNetwork L) (gs gs' : List (ℕ × List ℕ))
      → (wake w n).pending_requests ≡ n.pending_requests
      → (wake w n).cached_responses ≡ n.cached_responses
      → IsHonest n gs
      → IsHonest (wake w n) (gs ++ gs')
  still-IsHonest w n gs gs' same same' h = record {
    pending = λ id d c e.
        rw (wake-event_tx w n)
          (more-Arrived n.event_tx (emitted w n) id d (h.pending id d c (rw same at e)));
    cached = λ d r e.
        rw (wake-event_tx w n)
          (more-Given n.event_tx (emitted w n) gs gs' d r (h.cached d r (rw same' at e)));
  }

  accept_request-IsHonest :
      (pr : L.ProtocolName) (q : IncomingRequest L) (n : SubstrateNetwork L)
      (gs : List (ℕ × List ℕ))
      → IsHonest n gs
      → IsHonest (wake (map pr q) n) (gs ++ [])
  unfolding wake next_request_id
  accept_request-IsHonest pr q n gs h =
      let reported = Network.request_received q.peer pr n.next_request q.payload in
      record {
        pending = λ id d c e. elim (ℕ_discrete n.next_request id) [
          | yes same ↦ record {
            peer = q.peer;
            protocol = pr;
            payload = q.payload;
            reported = rw (← same) (Elem-append_last reported n.event_tx);
            hashed = ground (
              arith,
              get-insert ℕ_discrete n.next_request id (L.hash q.payload, q.pending_response)
                  n.pending_requests,
            );
          }
          | no other ↦ more-Arrived n.event_tx (reported ∷ []) id d (
              h.pending id d c (
                ground (
                  arith,
                  get-insert ℕ_discrete n.next_request id (L.hash q.payload, q.pending_response)
                      n.pending_requests,
                )))
        ];
        cached = λ d r e. more-Given n.event_tx (reported ∷ []) gs [] d r (h.cached d r e);
      }

  send_response-IsHonest :
      (p : L.PeerId) (k : ℕ) (x : List ℕ) (n : SubstrateNetwork L) (gs : List (ℕ × List ℕ))
      → IsHonest n gs
      → IsHonest (wake (command_rx (Command.send_response p k x)) n) (gs ++ (k, x) ∷ [])
  unfolding wake on_command
  send_response-IsHonest p k x n gs h = elim (Option-cases (get ℕ_discrete k n.pending_requests)) [
    | inl e ↦
        rw (e, send_response)
          (record {
            pending = h.pending;
            cached = λ d r e'. later-Given n.event_tx gs ((k, x) ∷ []) d r (h.cached d r e');
          })
    | inr ((d, channel), e) ↦
        rw (e, send_response)
          (record {
            pending = λ id d' c e'.
                h.pending id d' c (ground (arith, get-remove ℕ_discrete k id n.pending_requests));
            cached = λ d' r e'. elim (ℕ_discrete d d') [
              | yes same ↦
                  let answer : x ≡ r =
                    ground (arith, get-insert ℕ_discrete d d' x n.cached_responses) in
                  rw (← same, ← answer)
                    (record {
                      id = k;
                      arrived = h.pending k d channel e;
                      commanded = Elem-append_last (k, x) gs;
                    })
              | no other ↦
                  later-Given n.event_tx gs ((k, x) ∷ []) d' r (
                    h.cached d' r (ground (arith, get-insert ℕ_discrete d d' x n.cached_responses)))
            ];
          })
  ]

  wake-IsHonest :
      (w : Wake L) (n : SubstrateNetwork L) (gs : List (ℕ × List ℕ))
      → IsHonest n gs
      → IsHonest (wake w n) (gs ++ given w)
  wake-IsHonest (map pr q) n gs h = accept_request-IsHonest pr q n gs h
  wake-IsHonest (command_rx (Command.send_response p k x)) n gs h =
      send_response-IsHonest p k x n gs h
  wake-IsHonest w n gs h =
      let same = wake-tables w n refl in
      still-IsHonest w n gs (given w) (ap (λ t. t.0) same) (ap (λ t. t.1) same) h

  run_from-IsHonest :
      (ws : List (Wake L)) (n : SubstrateNetwork L) (gs : List (ℕ × List ℕ))
      → IsHonest n gs
      → IsHonest (run ws n) (gs ++ collect given ws)
  unfolding run
  run_from-IsHonest [] n gs h = rw (append-nil gs) h
  run_from-IsHonest (w ∷ ws) n gs h =
      rw (← append_assoc gs (given w) (collect given ws))
        (run_from-IsHonest ws (wake w n) (gs ++ given w) (wake-IsHonest w n gs h))

  -- Whatever wakes a new task up, a response that the cache holds under a digest is one that the
  -- program commanded to send for an identifier under which a request with the digest was reported.
  pub run-cached :
      (ws : List (Wake L)) (digest : ℕ) (response : List ℕ)
      → get ℕ_discrete digest (run ws new).cached_responses ≡ some response
      → Given (run ws new).event_tx (collect given ws) digest response
  unfolding get
  run-cached ws digest response =
      (run_from-IsHonest ws new []
          (record { pending = λ id d c e. cc; cached = λ d r e. cc })).cached
        digest response
