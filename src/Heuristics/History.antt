-- ===== src/Heuristics/History.antt =====
-- The counters of src/heuristics/mod.rs after any sequence of events, against the history of the
-- traffic with one peer over one protocol since the peer was first registered.
use mathlib.Core.Option
use swarm_host.Prelude.{
  ◌≡◌, refl, ite, if_pos, if_neg, Bool, true, false, Option, none, some, List, [], ◌∷◌, arith,
  if◌then◌else◌, ℕ, Option-cases, inl, inr, subst, sym,
}
use swarm_host.Map.{get, contained}
use swarm_host.Map.Laws.{get-insert}
use swarm_host.Backend.{NetworkBackend}
use swarm_host.Heuristics.{
  HeuristicsEvent, register_interface, link_interfaces, unlink_interfaces, register_peer,
  unregister_peer, message_received, message_sent, open_protocol, close_protocol, MessageHeuristics,
  PeerHeuristics, Peers, empty_messages, empty_peer, or_insert, join, leave, open_at, close_at,
  count_received, count_sent, register_message_received, register_message_sent, update_peer,
  update_protocol, send_to_each, handle_event, run,
}
use swarm_host.Heuristics.Traffic.{
  Log, Tallied, count_received-Tallied, count_sent-Tallied, empty_messages-Tallied,
}

-- Whether the peer has been registered, and its messages since then, newest first.
pub record Seen : Type 0 where
  pub known : Bool
  pub received : Log
  pub sent : Log

abbrev pub unseen : Seen
unseen = record { known = false; received = []; sent = [] }

-- What a message to each of the peers `qs` over `pr'` adds to the history of `p` over `pr`.
unfoldable pub observe_each {ℓ} :
    {K P : Type ℓ} → Discrete K → Discrete P → K → P → P → List K → ℕ → ℕ → Seen → Seen
observe_each eq eq' p pr pr' [] h n s = s
observe_each eq eq' p pr pr' (q ∷ qs) h n s = observe_each eq eq' p pr pr' qs h n (
    ite (eq q p) (ite (eq' pr' pr) (if s.known then record s { sent = (h, n) ∷ s.sent } else s) s)
      s)

ite_same {ℓ κ} : {P : Type ℓ} {A : Type κ} (d : Dec P) (a : A) → ite d a a ≡ a
ite_same (yes h) a = refl
ite_same (no h) a = refl

module _ {T : NetworkBackend} where
  -- The history of the traffic with `p` over `pr`: what each event adds to it.
  unfoldable pub observe : T.PeerId → T.Protocol → HeuristicsEvent T → Seen → Seen
  unfolding observe_each
  observe p pr (register_peer i q) s = ite (T.peer_eq q p) (record s { known = true }) s
  observe p pr (message_received i pr' q h n) s =
      ite (T.peer_eq q p)
        (ite (T.protocol_eq pr' pr)
          (if s.known then record s { received = (h, n) ∷ s.received } else s) s)
        s
  observe p pr (message_sent i pr' qs h n) s =
      observe_each T.peer_eq T.protocol_eq p pr pr' qs h n s
  observe p pr (register_interface i) s = s
  observe p pr (link_interfaces i j) s = s
  observe p pr (unlink_interfaces i j) s = s
  observe p pr (unregister_peer i q) s = s
  observe p pr (open_protocol i q pr') s = s
  observe p pr (close_protocol i q pr') s = s

  unfoldable pub history : T.PeerId → T.Protocol → List (HeuristicsEvent T) → Seen → Seen
  history p pr [] s = s
  history p pr (e ∷ es) s = history p pr es (observe p pr e s)

  -- The counters that the backend holds; all zero if it holds none.
  unfoldable pub tally : Option (PeerHeuristics T) → T.Protocol → MessageHeuristics T
  tally none pr = empty_messages
  tally (some info) pr = or_insert empty_messages (get T.protocol_eq pr info.protocols)

  pub record Agrees (pr : T.Protocol) (o : Option (PeerHeuristics T)) (s : Seen) : Type 0 where
    pub known : contained o ≡ s.known
    pub tallied : Tallied (tally o pr) s.received s.sent

  get-update_peer :
      (p q : T.PeerId) (f : PeerHeuristics T → PeerHeuristics T) (peers : Peers T)
      → get T.peer_eq p (update_peer q f peers)
        ≡ ite (T.peer_eq q p) (Option.map f (get T.peer_eq p peers)) (get T.peer_eq p peers)
  unfolding update_peer
  get-update_peer p q f peers = elim (Option-cases (get T.peer_eq q peers)) [
    | inl e ↦ rw (e, update_peer) (ground arith)
    | inr (info, e) ↦ rw (e, update_peer) (ground (arith, get-insert T.peer_eq q p (f info) peers))
  ]

  received-Agrees :
      (pr pr' : T.Protocol) (h n : ℕ) (o : Option (PeerHeuristics T)) (s : Seen)
      → Agrees pr o s
      → Agrees pr (Option.map (λ info. register_message_received info pr' h n) o) (
          ite
            (T.protocol_eq pr' pr)
            (if s.known then record s { received = (h, n) ∷ s.received } else s)
            s)
  unfolding register_message_received tally
  received-Agrees pr pr' h n none s a = ground arith
  received-Agrees pr pr' h n (some info) s a = ground (
    arith,
    get-insert T.protocol_eq pr' pr
        (count_received (or_insert empty_messages (get T.protocol_eq pr' info.protocols)) h n)
        info.protocols,
    count_received-Tallied (or_insert empty_messages (get T.protocol_eq pr info.protocols))
        s.received s.sent h n,
  )

  sent-Agrees :
      (pr pr' : T.Protocol) (h n : ℕ) (o : Option (PeerHeuristics T)) (s : Seen)
      → Agrees pr o s
      → Agrees pr (Option.map (λ info. register_message_sent info pr' h n) o) (
          ite (T.protocol_eq pr' pr) (if s.known then record s { sent = (h, n) ∷ s.sent } else s) s)
  unfolding register_message_sent tally
  sent-Agrees pr pr' h n none s a = ground arith
  sent-Agrees pr pr' h n (some info) s a =
      let entry = or_insert empty_messages (get T.protocol_eq pr' info.protocols) in
      ground (
        arith,
        get-insert T.protocol_eq pr' pr (count_sent entry h n) info.protocols,
        count_sent-Tallied (tally (some info) pr) s.received s.sent h n,
      )

  update_protocol-Agrees :
      (pr pr' : T.Protocol) (f : MessageHeuristics T → MessageHeuristics T)
      (keep : (m : MessageHeuristics T) (r s : Log) → Tallied m r s → Tallied (f m) r s)
      (o : Option (PeerHeuristics T)) (s : Seen)
      → Agrees pr o s
      → Agrees pr (Option.map (update_protocol pr' f) o) s
  unfolding update_protocol tally
  update_protocol-Agrees pr pr' f keep none s a = a
  update_protocol-Agrees pr pr' f keep (some info) s a =
      elim (Option-cases (get T.protocol_eq pr' info.protocols)) [
        | inl e ↦ rw (e, update_protocol) a
        | inr (m, e) ↦
            rw (e, update_protocol)
              (ground (
                arith,
                get-insert T.protocol_eq pr' pr (f m) info.protocols,
                keep (tally (some info) pr) s.received s.sent,
              ))
      ]

  -- The same for one event, whichever peer it names.
  update_peer-Agrees :
      (p q : T.PeerId) (pr : T.Protocol) (f : PeerHeuristics T → PeerHeuristics T) (peers : Peers T)
      (s s' : Seen)
      → Agrees pr (get T.peer_eq p peers) s
      → Agrees pr (Option.map f (get T.peer_eq p peers)) s'
      → Agrees pr (get T.peer_eq p (update_peer q f peers)) (ite (T.peer_eq q p) s' s)
  update_peer-Agrees p q pr f peers s s' a b = rw get-update_peer (ground arith)

  send_to_each-Agrees :
      (p : T.PeerId) (pr pr' : T.Protocol) (h n : ℕ) (qs : List T.PeerId) (peers : Peers T)
      (s : Seen)
      → Agrees pr (get T.peer_eq p peers) s
      → Agrees pr
          (get T.peer_eq p (send_to_each qs pr' h n peers))
          (observe_each T.peer_eq T.protocol_eq p pr pr' qs h n s)
  unfolding send_to_each observe_each
  send_to_each-Agrees p pr pr' h n [] peers s a = a
  send_to_each-Agrees p pr pr' h n (q ∷ qs) peers s a =
      let change = λ (info : PeerHeuristics T). register_message_sent info pr' h n in
      send_to_each-Agrees p pr pr' h n qs (update_peer q change peers) _ (
        update_peer-Agrees p q pr change peers s _ a
          (sent-Agrees pr pr' h n (get T.peer_eq p peers) s a))

  register_peer-Agrees :
      (pr : T.Protocol) (i : T.InterfaceId) (o : Option (PeerHeuristics T)) (s : Seen)
      → Agrees pr o s
      → Agrees pr (some (join i (or_insert empty_peer o))) (record s { known = true })
  unfolding tally get
  register_peer-Agrees pr i none s a = ground arith
  register_peer-Agrees pr i (some info) s a = ground arith

  leave-Agrees :
      (pr : T.Protocol) (i : T.InterfaceId) (o : Option (PeerHeuristics T)) (s : Seen)
      → Agrees pr o s
      → Agrees pr (Option.map (leave i) o) s
  unfolding tally
  leave-Agrees pr i none s a = a
  leave-Agrees pr i (some info) s a = record { known = a.known; tallied = a.tallied }

  open_at-Tallied :
      (i : T.InterfaceId) (m : MessageHeuristics T) (r s : Log)
      → Tallied m r s
      → Tallied (open_at i m) r s
  open_at-Tallied i m r s t = ground arith

  close_at-Tallied :
      (i : T.InterfaceId) (m : MessageHeuristics T) (r s : Log)
      → Tallied m r s
      → Tallied (close_at i m) r s
  close_at-Tallied i m r s t = ground arith

  step-Agrees :
      (p : T.PeerId) (pr : T.Protocol) (e : HeuristicsEvent T) (peers : Peers T) (s : Seen)
      → Agrees pr (get T.peer_eq p peers) s
      → Agrees pr (get T.peer_eq p (handle_event e peers)) (observe p pr e s)
  unfolding handle_event observe
  step-Agrees p pr (register_interface i) peers s a = a
  step-Agrees p pr (link_interfaces i j) peers s a = a
  step-Agrees p pr (unlink_interfaces i j) peers s a = a
  step-Agrees p pr (register_peer i q) peers s a = elim (T.peer_eq q p) [
    | yes e ↦
        let before = subst (λ x. Agrees pr (get T.peer_eq x peers) s) (sym e) a in
        rw (get-insert T.peer_eq q p, if_pos _ e, if_pos _ e)
          (register_peer-Agrees pr i (get T.peer_eq q peers) s before)
    | no e ↦ rw (get-insert T.peer_eq q p, if_neg _ e, if_neg _ e) a
  ]
  step-Agrees p pr (unregister_peer i q) peers s a = rw (← ite_same (T.peer_eq q p) s) (
      update_peer-Agrees p q pr (leave i) peers s s a
        (leave-Agrees pr i (get T.peer_eq p peers) s a))
  step-Agrees p pr (message_received i pr' q h n) peers s a =
      update_peer-Agrees p q pr _ peers s _ a
        (received-Agrees pr pr' h n (get T.peer_eq p peers) s a)
  step-Agrees p pr (message_sent i pr' qs h n) peers s a =
      send_to_each-Agrees p pr pr' h n qs peers s a
  step-Agrees p pr (open_protocol i q pr') peers s a = rw (← ite_same (T.peer_eq q p) s) (
      update_peer-Agrees p q pr (update_protocol pr' (open_at i)) peers s s a
        (update_protocol-Agrees pr pr' (open_at i) (open_at-Tallied i) (get T.peer_eq p peers) s a))
  step-Agrees p pr (close_protocol i q pr') peers s a = rw (← ite_same (T.peer_eq q p) s) (
      update_peer-Agrees p q pr (update_protocol pr' (close_at i)) peers s s a (
        update_protocol-Agrees pr pr' (close_at i) (close_at-Tallied i) (get T.peer_eq p peers) s
          a))

  run_from-Agrees :
      (p : T.PeerId) (pr : T.Protocol) (es : List (HeuristicsEvent T)) (peers : Peers T) (s : Seen)
      → Agrees pr (get T.peer_eq p peers) s
      → Agrees pr (get T.peer_eq p (run es peers)) (history p pr es s)
  unfolding run history
  run_from-Agrees p pr [] peers s a = a
  run_from-Agrees p pr (e ∷ es) peers s a =
      run_from-Agrees p pr es (handle_event e peers) _ (step-Agrees p pr e peers s a)

  -- After any events from the start, the backend holds a peer exactly if the peer was registered,
  -- and the counters for the peer over each protocol are those of the messages since then: the
  -- bytes, the number, and the bytes of the repeated ones, modulo 2^64, and the set of the hashes.
  pub run-Agrees :
      (p : T.PeerId) (pr : T.Protocol) (es : List (HeuristicsEvent T))
      → Agrees pr (get T.peer_eq p (run es [])) (history p pr es unseen)
  unfolding get tally
  run-Agrees p pr es =
      run_from-Agrees p pr es [] unseen (record { known = refl; tallied = empty_messages-Tallied })
