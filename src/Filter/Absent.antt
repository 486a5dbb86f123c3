-- ===== src/Filter/Absent.antt =====
-- src/filter/mod.rs, `inject_notification`: what a filter does with a notification that no filter is
-- installed for, against the event that forwards it to all connected peers.
use swarm_host.Prelude.{
  ◌≡◌, refl, sym, ap, ◌∙◌, if_pos, none, some, List, [], ◌∷◌, ◌++◌, arith, append_assoc,
}
use swarm_host.Map.{HashMap, get, insert, Distinct}
use swarm_host.Error.{Result, ok, err}
use swarm_host.Backend.{NetworkBackend, PacketSink}
use swarm_host.Executor.{Executor, forward}
use swarm_host.Heuristics.Handle.{HeuristicsHandle}
use swarm_host.Filter.{Filter, PeerInfo}
use swarm_host.Filter.Process.{
  put_sink, forward_to, forward_to_each, report_sent, process_event, process_events,
}
use swarm_host.Filter.Broadcast.{broadcast, broadcast_report}
use swarm_host.Filter.Commands.{forward_to_all}

module _ {ℓ} {K V : Type ℓ} (eq : Discrete K) where
  abbrev pub keys : HashMap K V → List K
  keys [] = []
  keys ((k, v) ∷ m) = k ∷ keys m

  get-append : (k : K) (m n : HashMap K V) → get eq k m ≡ none → get eq k (m ++ n) ≡ get eq k n
  unfolding get
  get-append k [] n h = refl
  get-append k ((j, v) ∷ m) n h = ground (arith, get-append k m n)

  insert-append :
      (k : K) (v : V) (m n : HashMap K V)
      → get eq k m ≡ none
      → insert eq k v (m ++ n) ≡ m ++ insert eq k v n
  unfolding get insert
  insert-append k v [] n h = refl
  insert-append k v ((j, w) ∷ m) n h = ground (arith, insert-append k v m n)

  get-middle :
      (k : K) (v : V) (m n : HashMap K V) → get eq k m ≡ none → get eq k (m ++ (k, v) ∷ n) ≡ some v
  unfolding get
  get-middle k v m n h = ground (arith, get-append k m ((k, v) ∷ n) h)

  insert-middle :
      (k : K) (v w : V) (m n : HashMap K V)
      → get eq k m ≡ none
      → insert eq k w (m ++ (k, v) ∷ n) ≡ m ++ (k, w) ∷ n
  unfolding insert
  insert-middle k v w m n h =
      insert-append k w m ((k, v) ∷ n) h
      ∙ ap (λ r. m ++ r) (if_pos (eq k k) refl ((k, w) ∷ n) ((k, v) ∷ insert eq k w n))

  -- No key of the second map is in the first, or twice in the second.
  abbrev Apart : HashMap K V → HashMap K V → Type ℓ
  Apart m [] = Unit
  Apart m ((k, v) ∷ n) = (get eq k m ≡ none) × (get eq k n ≡ none) × Apart m n

  Apart-snoc :
      (k : K) (v : V) (m n : HashMap K V)
      → get eq k n ≡ none
      → Apart m n
      → Apart (m ++ (k, v) ∷ []) n
  unfolding get
  Apart-snoc k v m [] h a = tt
  Apart-snoc k v m ((j, w) ∷ n) h (a, b, c) =
      (ground (arith, get-append j m ((k, v) ∷ []) a), b, Apart-snoc k v m n (ground arith) c)

  Distinct-Apart : (m : HashMap K V) → Distinct eq m → Apart [] m
  unfolding get
  Distinct-Apart [] d = tt
  Distinct-Apart ((k, v) ∷ m) (h, d) = (refl, h, Distinct-Apart m d)

module _ {T : NetworkBackend} {E : Executor T} {K : PacketSink T} where
  -- The filter when the loop has reached `rest`.
  abbrev reached :
      Filter T E K
      → HashMap T.PeerId (PeerInfo T K)
      → HashMap T.PeerId (PeerInfo T K)
      → HeuristicsHandle T
      → Filter T E K
  reached f past rest tx = record f { peers = past ++ rest; heuristics_handle = tx }

  report_sent-reached :
      (f : Filter T E K) (past rest : HashMap T.PeerId (PeerInfo T K)) (tx : HeuristicsHandle T)
      (q : T.PeerId) (pr : T.Protocol) (n : T.Message) (r : Result T.foreign Unit)
      → report_sent q pr n r (reached f past rest tx)
        ≡ reached f past rest (broadcast_report f.interface pr q n r tx)
  unfolding report_sent broadcast_report
  report_sent-reached f past rest tx q pr n (ok done) = refl
  report_sent-reached f past rest tx q pr n (err e) = refl

  put_sink-reached :
      (f : Filter T E K) (past rest : HashMap T.PeerId (PeerInfo T K)) (tx : HeuristicsHandle T)
      (q : T.PeerId) (info : PeerInfo T K) (sink : K.Sink)
      → get T.peer_eq q past ≡ none
      → put_sink q info sink (reached f past ((q, info) ∷ rest) tx)
        ≡ reached f past ((q, record info { sink = sink }) ∷ rest) tx
  unfolding put_sink
  put_sink-reached f past rest tx q info sink h =
      ap (λ m. record f { peers = m; heuristics_handle = tx })
        (insert-middle T.peer_eq q info (record info { sink = sink }) past rest h)

  forward_to-reached :
      (f : Filter T E K) (past rest : HashMap T.PeerId (PeerInfo T K)) (tx : HeuristicsHandle T)
      (q : T.PeerId) (info : PeerInfo T K) (pr : T.Protocol) (n : T.Message)
      → get T.peer_eq q past ≡ none
      → let (r, sink) = K.send_packet (some pr) n info.sink in
        forward_to q pr n (reached f past ((q, info) ∷ rest) tx)
        ≡ reached f past
            ((q, record info { sink = sink }) ∷ rest)
            (broadcast_report f.interface pr q n r tx)
  unfolding forward_to
  forward_to-reached f past rest tx q info pr n h =
      let (r, sink) = K.send_packet (some pr) n info.sink in
      let info' : PeerInfo T K = record info { sink = sink } in
      rw (get-middle T.peer_eq q info past rest h, forward_to)
        (ap (report_sent q pr n r) (put_sink-reached f past rest tx q info sink h)
          ∙ report_sent-reached f past ((q, info') ∷ rest) tx q pr n r)

  forward_to_each-reached :
      (f : Filter T E K) (pr : T.Protocol) (n : T.Message)
      (past rest : HashMap T.PeerId (PeerInfo T K)) (tx : HeuristicsHandle T)
      → Apart T.peer_eq past rest
      → let (rest', tx') = broadcast f.interface pr n rest tx in
        forward_to_each (keys T.peer_eq rest) pr n (reached f past rest tx)
        ≡ reached f past rest' tx'
  unfolding forward_to_each broadcast
  forward_to_each-reached f pr n past [] tx a = refl
  forward_to_each-reached f pr n past ((q, info) ∷ rest) tx (a, b, c) =
      let (r, sink) = K.send_packet (some pr) n info.sink in
      let next : T.PeerId × PeerInfo T K = (q, record info { sink = sink }) in
      let tx1 = broadcast_report f.interface pr q n r tx in
      let later =
        forward_to_each-reached f pr n (past ++ next ∷ []) rest tx1
          (Apart-snoc T.peer_eq q next.1 past rest b c) in
      let rest' = (broadcast f.interface pr n rest tx1).0 in
      ap (forward_to_each (keys T.peer_eq rest) pr n) (
        forward_to-reached f past rest tx q info pr n a
        ∙ ap (λ m. record f { peers = m; heuristics_handle = tx1 })
            (sym (append_assoc past (next ∷ []) rest)))
      ∙ later
      ∙ ap
          (λ m. record f { peers = m; heuristics_handle = (broadcast f.interface pr n rest tx1).1 })
          (append_assoc past (next ∷ []) rest')

  -- Forwarding to all peers is what the event does that forwards to every connected peer.
  pub forward_to_all-process_events :
      (pr : T.Protocol) (n : T.Message) (f : Filter T E K)
      → Distinct T.peer_eq f.peers
      → (ok tt, forward_to_all pr n f)
        ≡ process_events (forward (keys T.peer_eq f.peers) pr n ∷ []) f
  unfolding forward_to_all process_events process_event
  forward_to_all-process_events pr n f d =
      ap (λ g. (ok tt, g))
        (sym (
          forward_to_each-reached f pr n [] f.peers f.heuristics_handle
            (Distinct-Apart T.peer_eq f.peers d)))
