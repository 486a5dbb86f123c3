-- ===== src/Overseer/Peering.antt =====
-- src/overseer.rs: peers that are discovered more than once, and peers that come and go.
use swarm_host.Prelude.{
  ◌≡◌, ◌≢◌, refl, sym, ◌∙◌, subst, ap, inl, inr, none, some, List, [], ◌∷◌, arith, Option-cases,
}
use swarm_host.Map.{HashMap, get, insert, remove, from_iter}
use swarm_host.Map.Laws.{get-insert, get-insert_same, remove-insert, contains-add}
use swarm_host.Error.{ok}
use swarm_host.Backend.{NetworkBackend, PacketSink}
use swarm_host.Executor.{Executor}
use swarm_host.Heuristics.Handle
use swarm_host.Filter.Handle as Commands
use swarm_host.Graph.{UnGraph}
use swarm_host.Overseer.{Overseer, InterfaceInfo, PeerInfo}
use swarm_host.Overseer.Peers.{
  discover_at, discover_at_each, discover_peer, register_peer, unregister_peer, put_info,
}

module _ {T : NetworkBackend} {K : PacketSink T} where
  discover_at_twice :
      (p : T.PeerId) (info : InterfaceInfo T K)
      → discover_at p (discover_at p info) ≡ discover_at p info
  unfolding discover_at
  discover_at_twice p info = ground (arith, contains-add T.peer_eq p p info.discovered)

  discover_at_each_twice :
      (p : T.PeerId) (m : HashMap T.InterfaceId (InterfaceInfo T K))
      → discover_at_each p (discover_at_each p m) ≡ discover_at_each p m
  unfolding discover_at_each
  discover_at_each_twice p [] = refl
  discover_at_each_twice p ((i, info) ∷ m) =
      cc (discover_at_twice p info, discover_at_each_twice p m)

module _ {T : NetworkBackend} {E : Executor T} {K : PacketSink T} {G : UnGraph T.InterfaceId} where
  discover_peer_own :
      (p : T.PeerId) (i : T.InterfaceId) (o : Overseer T E K G)
      → get T.peer_eq p o.interface_peer_ids ≡ some i
      → discover_peer p o ≡ (ok tt, o)
  unfolding discover_peer
  discover_peer_own p i o e = rw (e, discover_peer)

  discover_peer_other :
      (p : T.PeerId) (o : Overseer T E K G)
      → get T.peer_eq p o.interface_peer_ids ≡ none
      → discover_peer p o ≡ (ok tt, record o { interfaces = discover_at_each p o.interfaces })
  unfolding discover_peer
  discover_peer_other p o e = rw (e, discover_peer)

  -- A peer that is discovered again at once, with no other message in between, changes nothing: no
  -- filter is told of it a second time.
  pub discover_peer_twice :
      (p : T.PeerId) (o : Overseer T E K G)
      → discover_peer p (discover_peer p o).1 ≡ discover_peer p o
  discover_peer_twice p o = elim (Option-cases (get T.peer_eq p o.interface_peer_ids)) [
    | inl e ↦
        subst (λ r. discover_peer p r.1 ≡ r) (sym (discover_peer_other p o e))
          (discover_peer_other p (record o { interfaces = discover_at_each p o.interfaces }) e
            ∙ ap (λ m. (ok tt, record o { interfaces = m }))
                (discover_at_each_twice p o.interfaces))
    | inr (i, e) ↦
        subst (λ r. discover_peer p r.1 ≡ r) (sym (discover_peer_own p i o e))
          (discover_peer_own p i o e)
  ]

  -- The overseer after the peer has connected.
  abbrev with_peer :
      T.InterfaceId
      → T.PeerId
      → List T.Protocol
      → K.Sink
      → InterfaceInfo T K
      → Overseer T E K G
      → Overseer T E K G
  with_peer i p prs sink info o =
      record (put_info i
        (record info {
          peers =
              insert T.peer_eq p (record { protocols = from_iter T.protocol_eq prs }) info.peers;
          filter = Commands.register_peer p sink info.filter;
        })
        o) { heuristics_handle = Handle.register_peer i p o.heuristics_handle }

  register_peer_other :
      (i : T.InterfaceId) (p : T.PeerId) (prs : List T.Protocol) (sink : K.Sink)
      (info : InterfaceInfo T K) (o : Overseer T E K G)
      → get T.peer_eq p o.interface_peer_ids ≡ none
      → get T.interface_eq i o.interfaces ≡ some info
      → register_peer i p prs sink o ≡ (ok tt, with_peer i p prs sink info o)
  unfolding register_peer
  register_peer_other i p prs sink info o own known = rw (own, known, register_peer)

  unregister_peer_other :
      (i : T.InterfaceId) (p : T.PeerId) (info : InterfaceInfo T K) (entry : PeerInfo T)
      (o : Overseer T E K G)
      → get T.peer_eq p o.interface_peer_ids ≡ none
      → get T.interface_eq i o.interfaces ≡ some info
      → get T.peer_eq p info.peers ≡ some entry
      → unregister_peer i p o ≡ (
        ok tt,
        record (put_info i
            (record info {
              peers = remove T.peer_eq p info.peers;
              filter = Commands.unregister_peer p info.filter;
            })
            o) { heuristics_handle = Handle.unregister_peer i p o.heuristics_handle },
      )
  unfolding unregister_peer
  unregister_peer_other i p info entry o own known there = rw (own, known, there, unregister_peer)

  -- A peer that is no interface of the overseer connects to an existing interface that does not
  -- have it, and disconnects: both succeed, the interface has the peers that it had, its filter is
  -- sent a registration and then an unregistration, and so is the heuristics backend; all other
  -- interfaces are as they were.
  pub unregister_peer-register_peer :
      (i : T.InterfaceId) (p : T.PeerId) (prs : List T.Protocol) (sink : K.Sink)
      (info : InterfaceInfo T K) (o : Overseer T E K G)
      → get T.peer_eq p o.interface_peer_ids ≡ none
      → get T.interface_eq i o.interfaces ≡ some info
      → get T.peer_eq p info.peers ≡ none
      → let o1 = (register_peer i p prs sink o).1 in
        let o2 = (unregister_peer i p o1).1 in
        ((register_peer i p prs sink o).0 ≡ ok tt)
        × ((unregister_peer i p o1).0 ≡ ok tt)
        × (get T.interface_eq i o2.interfaces
            ≡ some (record info {
              filter = Commands.unregister_peer p (Commands.register_peer p sink info.filter);
            }))
        × (o2.heuristics_handle
            ≡ Handle.unregister_peer i p (Handle.register_peer i p o.heuristics_handle))
        × ((j : T.InterfaceId)
            → i ≢ j
            → get T.interface_eq j o2.interfaces ≡ get T.interface_eq j o.interfaces)
  unregister_peer-register_peer i p prs sink info o own known absent =
      let entry : PeerInfo T = record { protocols = from_iter T.protocol_eq prs } in
      let info1 : InterfaceInfo T K = record info {
        peers = insert T.peer_eq p entry info.peers;
        filter = Commands.register_peer p sink info.filter;
      } in
      let o1 = with_peer i p prs sink info o in
      let info2 : InterfaceInfo T K = record info1 {
        peers = remove T.peer_eq p info1.peers;
        filter = Commands.unregister_peer p info1.filter;
      } in
      let known1 = get-insert_same T.interface_eq i info1 o.interfaces in
      let there = get-insert_same T.peer_eq p entry info.peers in
      rw
        (
          register_peer_other i p prs sink info o own known,
          unregister_peer_other i p info1 entry o1 own known1 there,
        )
        (
          refl,
          refl,
          get-insert_same T.interface_eq i info2 o1.interfaces
              ∙ ap (λ m. some (record info2 { peers = m }))
                  (remove-insert T.peer_eq p entry info.peers absent),
          refl,
          λ j h. ground (
            arith,
            get-insert T.interface_eq i j info2 o1.interfaces,
            get-insert T.interface_eq i j info1 o.interfaces,
          ),
        )
