-- ===== src/Overseer/Invariant.antt =====
-- src/overseer.rs: the interfaces and the link graph fit together, whatever the overseer does.
use mathlib.Core.Option
use swarm_host.Prelude.{
  ℕ, ◌≡◌, sym, subst, inl, inr, Option, some, [], arith, Elem, get_elem?, Option-cases,
}
use swarm_host.Map.{HashMap, get, insert}
use swarm_host.Map.Laws.{get-insert}
use swarm_host.Backend.{NetworkBackend, PacketSink}
use swarm_host.Executor.{Executor}
use swarm_host.Graph.{UnGraph}
use swarm_host.Overseer.{Overseer, InterfaceInfo}
use swarm_host.Overseer.Delivery.{Indexed, IsNode}

module _ {T : NetworkBackend} {K : PacketSink T} where
  -- The same interfaces at the same nodes.
  pub record Keeps (m m' : HashMap T.InterfaceId (InterfaceInfo T K)) : Type 0 where
    pub same :
        (j : T.InterfaceId)
        → Option.map (λ info. info.index) (get T.interface_eq j m')
          ≡ Option.map (λ info. info.index) (get T.interface_eq j m)

  pub Keeps-Indexed :
      (weight : ℕ → Option T.InterfaceId) (m m' : HashMap T.InterfaceId (InterfaceInfo T K))
      → Keeps m m'
      → Indexed weight m
      → Indexed weight m'
  Keeps-Indexed weight m m' k h j info' e = elim (Option-cases (get T.interface_eq j m)) [
    | inl x ↦ absurd (ground (arith, k.same j))
    | inr (info, x) ↦ subst (λ a. weight a ≡ some j) (ground (arith, k.same j)) (h j info x)
  ]

  pub Keeps-IsNode :
      (a : ℕ) (m m' : HashMap T.InterfaceId (InterfaceInfo T K))
      → Keeps m m'
      → IsNode a m
      → IsNode a m'
  Keeps-IsNode a m m' k (i, info, e, x) = elim (Option-cases (get T.interface_eq i m')) [
    | inl y ↦ absurd (ground (arith, k.same i))
    | inr (info', y) ↦ (i, info', y, ground (arith, k.same i))
  ]

  -- Changing what stands at an interface, but for its node.
  pub insert-Keeps :
      (i : T.InterfaceId) (info info' : InterfaceInfo T K)
      (m : HashMap T.InterfaceId (InterfaceInfo T K))
      → get T.interface_eq i m ≡ some info
      → info'.index ≡ info.index
      → Keeps m (insert T.interface_eq i info' m)
  insert-Keeps i info info' m e x = record {
    same = λ j. ground (arith, get-insert T.interface_eq i j info' m);
  }

module _ {T : NetworkBackend} {E : Executor T} {K : PacketSink T} {G : UnGraph T.InterfaceId} where
  -- The node of each interface carries its identifier, and every edge joins two of these nodes.
  pub record WellFormed (o : Overseer T E K G) : Type 0 where
    pub indexed : Indexed (get_elem? (G.nodes o.links)) o.interfaces
    pub ends :
        (a b : ℕ) → Elem (a, b) (G.edges o.links) → IsNode a o.interfaces × IsNode b o.interfaces

  pub Keeps-WellFormed :
      (o o' : Overseer T E K G)
      → o'.links ≡ o.links
      → Keeps o.interfaces o'.interfaces
      → WellFormed o
      → WellFormed o'
  Keeps-WellFormed o o' same k w = record {
    indexed =
        Keeps-Indexed (get_elem? (G.nodes o'.links)) o.interfaces o'.interfaces k
          (subst (λ l. Indexed (get_elem? (G.nodes l)) o.interfaces) (sym same) w.indexed);
    ends = λ a b e.
        let (p, q) = w.ends a b (subst (λ l. Elem (a, b) (G.edges l)) same e) in
        (
          Keeps-IsNode a o.interfaces o'.interfaces k p,
          Keeps-IsNode b o.interfaces o'.interfaces k q,
        );
  }

  -- Nothing at all.
  pub empty-WellFormed :
      (o : Overseer T E K G) → o.interfaces ≡ [] → G.edges o.links ≡ [] → WellFormed o
  unfolding get
  empty-WellFormed o e f = record {
    indexed = λ j info x. absurd (ground arith);
    ends = λ a b x. absurd (elim (subst (λ es. Elem (a, b) es) f x) [ ]);
  }
