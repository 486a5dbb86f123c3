-- ===== src/Overseer/Steps.antt =====
-- src/overseer.rs: the operations on peers keep the overseer well-formed.
use swarm_host.Prelude.{◌≡◌, refl, inl, inr, some, List, [], ◌∷◌, arith, Option-cases}
use swarm_host.Map.{HashMap, get, insert}
use swarm_host.Backend.{NetworkBackend, PacketSink}
use swarm_host.Executor.{Executor}
use swarm_host.Filter.Handle.{FilterHandle}
use swarm_host.Graph.{UnGraph}
use swarm_host.Overseer.{Overseer, InterfaceInfo}
use swarm_host.Overseer.Invariant.{WellFormed, Keeps, Keeps-WellFormed, insert-Keeps}
use swarm_host.Overseer.Peers.{
  command, command_filter, register_peer, unregister_peer, discover_peer, connect_to_peer,
  discover_at, discover_at_each,
}

module _ {T : NetworkBackend} {K : PacketSink T} where
  discover_at_index :
      (peer : T.PeerId) (info : InterfaceInfo T K) → (discover_at peer info).index ≡ info.index
  unfolding discover_at
  discover_at_index peer info = ground arith

  discover_at_each-Keeps :
      (peer : T.PeerId) (m : HashMap T.InterfaceId (InterfaceInfo T K))
      → Keeps m (discover_at_each peer m)
  unfolding discover_at_each get
  discover_at_each-Keeps peer [] = record { same = λ j. refl }
  discover_at_each-Keeps peer ((i, info) ∷ rest) = record {
    same =
        λ j. ground (arith, (discover_at_each-Keeps peer rest).same j, discover_at_index peer info);
  }

module _ {T : NetworkBackend} {E : Executor T} {K : PacketSink T} {G : UnGraph T.InterfaceId}
    (o : Overseer T E K G) (w : WellFormed o) where
  -- One interface changes, but for its node.
  pub put-WellFormed :
      (o' : Overseer T E K G) (i : T.InterfaceId) (info info' : InterfaceInfo T K)
      → o'.links ≡ o.links
      → o'.interfaces ≡ insert T.interface_eq i info' o.interfaces
      → get T.interface_eq i o.interfaces ≡ some info
      → info'.index ≡ info.index
      → WellFormed o'
  put-WellFormed o' i info info' l m e x =
      Keeps-WellFormed o o' l (rw m (insert-Keeps i info info' o.interfaces e x)) w

  pub command_filter-WellFormed :
      (i : T.InterfaceId) (send : FilterHandle T K → FilterHandle T K)
      → WellFormed (command_filter i send o).1
  unfolding command_filter
  command_filter-WellFormed i send = elim (Option-cases (get T.interface_eq i o.interfaces)) [
    | inl e ↦ rw (e, command_filter) w
    | inr (info, e) ↦
        rw (e, command_filter) (put-WellFormed _ i info (command send info) refl refl e refl)
  ]

  pub register_peer-WellFormed :
      (i : T.InterfaceId) (peer : T.PeerId) (protocols : List T.Protocol) (sink : K.Sink)
      → WellFormed (register_peer i peer protocols sink o).1
  unfolding register_peer
  register_peer-WellFormed i peer protocols sink =
      elim (Option-cases (get T.peer_eq peer o.interface_peer_ids)) [
        | inr (id, p) ↦ rw (p, register_peer) w
        | inl p ↦ elim (Option-cases (get T.interface_eq i o.interfaces)) [
          | inl e ↦ rw (p, e, register_peer) w
          | inr (info, e) ↦ rw (p, e, register_peer) (put-WellFormed _ i info _ refl refl e refl)
        ]
      ]

  pub unregister_peer-WellFormed :
      (i : T.InterfaceId) (peer : T.PeerId) → WellFormed (unregister_peer i peer o).1
  unfolding unregister_peer
  unregister_peer-WellFormed i peer =
      elim (Option-cases (get T.peer_eq peer o.interface_peer_ids)) [
        | inr (id, p) ↦ rw (p, unregister_peer) w
        | inl p ↦ elim (Option-cases (get T.interface_eq i o.interfaces)) [
          | inl e ↦ rw (p, e, unregister_peer) w
          | inr (info, e) ↦ elim (Option-cases (get T.peer_eq peer info.peers)) [
            | inl q ↦ rw (p, e, unregister_peer) (rw (q, unregister_peer) w)
            | inr (known, q) ↦
                rw (p, e, unregister_peer)
                  (rw (q, unregister_peer) (put-WellFormed _ i info _ refl refl e refl))
          ]
        ]
      ]

  pub connect_to_peer-WellFormed :
      (i : T.InterfaceId) (peer : T.PeerId) → WellFormed (connect_to_peer i peer o).1
  unfolding connect_to_peer
  connect_to_peer-WellFormed i peer = elim (Option-cases (get T.interface_eq i o.interfaces)) [
    | inl e ↦ rw (e, connect_to_peer) w
    | inr (info, e) ↦ rw (e, connect_to_peer) (put-WellFormed _ i info _ refl refl e refl)
  ]

  pub discover_peer-WellFormed : (peer : T.PeerId) → WellFormed (discover_peer peer o).1
  unfolding discover_peer
  discover_peer-WellFormed peer = elim (Option-cases (get T.peer_eq peer o.interface_peer_ids)) [
    | inr (id, p) ↦ rw (p, discover_peer) w
    | inl p ↦
        rw (p, discover_peer)
          (Keeps-WellFormed o _ refl (discover_at_each-Keeps peer o.interfaces) w)
  ]
