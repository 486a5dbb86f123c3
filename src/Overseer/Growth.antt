-- ===== src/Overseer/Growth.antt =====
-- src/overseer.rs: creating, linking and unlinking interfaces keep the overseer well-formed.
use swarm_host.Prelude.{
  ℕ, ◌<◌, ◌≡◌, sym, ap, subst, ite, inl, inr, Option, none, some, [], ◌∷◌, arith, Elem, Elem-snoc,
  get_elem?, length, Option-cases, get_elem?-append_left, get_elem?-append_last, get_elem?-lt,
  String, dec_lt,
}
use swarm_host.Map.{get, insert}
use swarm_host.Map.Laws.{get-insert}
use swarm_host.Error.{Result, ok, err}
use swarm_host.Backend.{NetworkBackend, PacketSink}
use swarm_host.Executor.{Executor}
use swarm_host.Graph.{UnGraph, UnGraphLaws}
use swarm_host.Graph.Edges.{Elem-swap_remove}
use swarm_host.Overseer.{Overseer, InterfaceInfo, pair_eq}
use swarm_host.Overseer.Delivery.{Indexed, IsNode}
use swarm_host.Overseer.Invariant.{WellFormed}
use swarm_host.Overseer.Interfaces.{
  new_info, new_handle, start_interface, add_interface, spawn_with, spawn_prepared,
  create_interface, add_link, link_interfaces, remove_link, unlink_interfaces,
}

module _ {N : Type 0} {G : UnGraph N} (laws : UnGraphLaws G) where
  -- The edges that are left when an edge is removed, whether it is there or not.
  Elem-remove_edge :
      (edge : ℕ) (g : G.Graph) (t : ℕ × ℕ)
      → Elem t (G.edges (G.remove_edge edge g).1)
      → Elem t (G.edges g)
  Elem-remove_edge edge g t k = elim (dec_lt edge (length (G.edges g))) [
    | yes h ↦ Elem-swap_remove edge (G.edges g) (subst (Elem t) (laws.edges-remove_edge edge g h) k)
    | no h ↦ subst (λ r. Elem t (G.edges r.1)) (laws.remove_edge_out edge g (omega arith)) k
  ]

module _ {T : NetworkBackend} {E : Executor T} {K : PacketSink T} {G : UnGraph T.InterfaceId}
    (laws : UnGraphLaws G) where
  -- A node without an interface, which a filter that fails to start leaves behind.
  orphan-WellFormed :
      (n : T.InterfaceId) (o : Overseer T E K G)
      → WellFormed o
      → WellFormed (record o { links = (G.add_node n o.links).1 })
  orphan-WellFormed n o w = record {
    indexed = λ j info e.
        rw (laws.nodes-add_node n o.links)
          (get_elem?-append_left (G.nodes o.links) (n ∷ []) info.index j (w.indexed j info e));
    ends = λ a b x. w.ends a b (subst (Elem (a, b)) (laws.edges-add_node n o.links) x);
  }

  start_interface-WellFormed :
      (handle : T.InterfaceHandle) (stream : T.EventStream) (poll_interval : T.Duration)
      (r : Result T.foreign E.State) (o : Overseer T E K G)
      → get T.interface_eq (T.interface_id handle) o.interfaces ≡ none
      → WellFormed o
      → WellFormed (start_interface handle stream poll_interval r o).1
  unfolding start_interface
  start_interface-WellFormed handle stream poll_interval (err e) o absent w =
      orphan-WellFormed (T.interface_id handle) o w
  start_interface-WellFormed handle stream poll_interval (ok x) o absent w = record {
    indexed = λ j info e. elim (T.interface_eq n j) [
      | yes p ↦ ground (arith, put j, new-weight)
      | no p ↦ (orphan-WellFormed n o w).indexed j info (ground (arith, put j))
    ];
    ends = λ a b k.
        let (p, q) = (orphan-WellFormed n o w).ends a b k in (old-IsNode a p, old-IsNode b q);
  }
    where
      n : T.InterfaceId
      n = T.interface_id handle

      fresh_info : InterfaceInfo T K
      fresh_info = new_info (G.add_node n o.links).0 (T.peer_id handle) handle new_handle

      put :
          (j : T.InterfaceId)
          → get T.interface_eq j (insert T.interface_eq n fresh_info o.interfaces)
            ≡ ite (T.interface_eq n j) (some fresh_info) (get T.interface_eq j o.interfaces)
      put j = get-insert T.interface_eq n j fresh_info o.interfaces

      old-IsNode :
          (a : ℕ)
          → IsNode a o.interfaces
          → IsNode a (insert T.interface_eq n fresh_info o.interfaces)
      old-IsNode a (j, info', e, x) = (j, info', ground (arith, put j), x)

      new-weight : get_elem? (G.nodes (G.add_node n o.links).1) (G.add_node n o.links).0 ≡ some n
      new-weight =
          rw (laws.nodes-add_node n o.links, laws.add_node_index n o.links)
            (get_elem?-append_last (G.nodes o.links) n)

  add_interface-WellFormed :
      (filter : String) (poll_interval : T.Duration)
      (r : Result T.foreign (T.InterfaceHandle × T.EventStream)) (o : Overseer T E K G)
      → WellFormed o
      → WellFormed (add_interface filter poll_interval r o).1
  unfolding add_interface
  add_interface-WellFormed filter poll_interval (err e) o w = w
  add_interface-WellFormed filter poll_interval (ok (handle, stream)) o w =
      elim (Option-cases (get T.interface_eq (T.interface_id handle) o.interfaces)) [
        | inl e ↦
            rw (e, add_interface) (start_interface-WellFormed handle stream poll_interval _ o e w)
        | inr (info, e) ↦ rw (e, add_interface) w
      ]

  spawn_with-WellFormed :
      (address : T.foreign.SocketAddr) (filter : String) (poll_interval : T.Duration)
      (parameters : Option T.InterfaceParameters) (o : Overseer T E K G)
      → WellFormed o
      → WellFormed (spawn_with address filter poll_interval parameters o).1
  unfolding spawn_with
  spawn_with-WellFormed address filter poll_interval parameters o w =
      let (spawned, backend) = T.spawn_interface address parameters o.backend in
      add_interface-WellFormed filter poll_interval spawned (record o { backend = backend })
        (record { indexed = w.indexed; ends = w.ends })

  spawn_prepared-WellFormed :
      (address : T.foreign.SocketAddr) (filter : String) (poll_interval : T.Duration)
      (r : Result T.foreign T.InterfaceParameters) (o : Overseer T E K G)
      → WellFormed o
      → WellFormed (spawn_prepared address filter poll_interval r o).1
  unfolding spawn_prepared
  spawn_prepared-WellFormed address filter poll_interval (ok p) o w =
      spawn_with-WellFormed address filter poll_interval (some p) o w
  spawn_prepared-WellFormed address filter poll_interval (err e) o w = w

  pub create_interface-WellFormed :
      (address : T.foreign.SocketAddr) (filter : String) (poll_interval : T.Duration)
      (preinit : Option String) (o : Overseer T E K G)
      → WellFormed o
      → WellFormed (create_interface address filter poll_interval preinit o).1
  unfolding create_interface
  create_interface-WellFormed address filter poll_interval none o w =
      spawn_with-WellFormed address filter poll_interval none o w
  create_interface-WellFormed address filter poll_interval (some code) o w =
      spawn_prepared-WellFormed address filter poll_interval _ o w

  -- The node of an interface is a node of the graph.
  pub index-lt :
      (o : Overseer T E K G) (i : T.InterfaceId) (info : InterfaceInfo T K)
      → WellFormed o
      → get T.interface_eq i o.interfaces ≡ some info
      → info.index < length (G.nodes o.links)
  index-lt o i info w e = get_elem?-lt (G.nodes o.links) info.index i (w.indexed i info e)

  pub add_link-WellFormed :
      (first second : T.InterfaceId) (a b : InterfaceInfo T K) (o : Overseer T E K G)
      → get T.interface_eq first o.interfaces ≡ some a
      → get T.interface_eq second o.interfaces ≡ some b
      → WellFormed o
      → WellFormed (add_link first second a b o)
  unfolding add_link
  add_link-WellFormed first second a b o ea eb w =
      let la = index-lt o first a w ea in
      let lb = index-lt o second b w eb in
      record {
        indexed =
            subst (λ ns. Indexed (get_elem? ns) o.interfaces)
              (sym (laws.nodes-add_edge a.index b.index o.links la lb)) w.indexed;
        ends = λ x y e.
            elim (Elem-snoc (G.edges o.links)
              (subst (Elem (x, y)) (laws.edges-add_edge a.index b.index o.links la lb) e)) [
                | inl p ↦
                    ((first, a, ea, sym (ap (λ t. t.0) p)), (second, b, eb, sym (ap (λ t. t.1) p)))
                | inr k ↦ w.ends x y k
              ];
      }

  pub link_interfaces-WellFormed :
      (first second : T.InterfaceId) (o : Overseer T E K G)
      → WellFormed o
      → WellFormed (link_interfaces first second o).1
  unfolding link_interfaces
  link_interfaces-WellFormed first second o w =
      elim (Option-cases (get T.interface_eq first o.interfaces)) [
        | inl e ↦ rw (e, link_interfaces) w
        | inr (a, e) ↦ elim (Option-cases (get T.interface_eq second o.interfaces)) [
          | inl e' ↦ rw (e, e', link_interfaces) w
          | inr (b, e') ↦
              rw (e, e', link_interfaces) (add_link-WellFormed first second a b o e e' w)
        ]
      ]

  pub unlink_interfaces-WellFormed :
      (first second : T.InterfaceId) (o : Overseer T E K G)
      → WellFormed o
      → WellFormed (unlink_interfaces first second o).1
  unfolding unlink_interfaces remove_link
  unlink_interfaces-WellFormed first second o w =
      elim (Option-cases (get (pair_eq T.interface_eq) (first, second) o.edges)) [
        | inl e ↦ rw (e, unlink_interfaces) w
        | inr (edge, e) ↦
            rw (e, unlink_interfaces)
              (record {
                indexed =
                    subst (λ ns. Indexed (get_elem? ns) o.interfaces)
                      (sym (laws.nodes-remove_edge edge o.links)) w.indexed;
                ends = λ a b k. w.ends a b (Elem-remove_edge laws edge o.links (a, b) k);
              })
      ]
