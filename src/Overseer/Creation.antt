-- ===== src/Overseer/Creation.antt =====
-- src/overseer.rs, `create_interface`: what becomes of the overseer, whatever the backend and the
-- executor answer.
use swarm_host.Prelude.{
  String, ◌≡◌, ◌≢◌, refl, inl, inr, Option, none, some, [], ◌∷◌, ◌++◌, arith, length, Option-cases,
}
use swarm_host.Map.{get}
use swarm_host.Map.Laws.{get-insert}
use swarm_host.Error.{Result, ok, err}
use swarm_host.Backend.{NetworkBackend, PacketSink}
use swarm_host.Executor.{Executor}
use swarm_host.Graph.{UnGraph, UnGraphLaws}
use swarm_host.Overseer.{Overseer}
use swarm_host.Overseer.Interfaces.{
  new_info, new_handle, new_filter, start_interface, add_interface, spawn_with, spawn_prepared,
  create_interface,
}

module _ {T : NetworkBackend} {E : Executor T} {K : PacketSink T} {G : UnGraph T.InterfaceId} where
  -- A new interface `i`, at a new node; the other interfaces, their identities and the links are as
  -- they were.
  pub record Added (i : T.InterfaceId) (o o' : Overseer T E K G) : Type 0 where
    pub handle : T.InterfaceHandle
    pub identifier : T.interface_id handle ≡ i
    pub absent : get T.interface_eq i o.interfaces ≡ none
    pub present :
        get T.interface_eq i o'.interfaces
        ≡ some (new_info (length (G.nodes o.links)) (T.peer_id handle) handle new_handle)
    pub others :
        (j : T.InterfaceId)
        → i ≢ j
        → get T.interface_eq j o'.interfaces ≡ get T.interface_eq j o.interfaces
    pub own_peer : get T.peer_eq (T.peer_id handle) o'.interface_peer_ids ≡ some i
    pub other_peers :
        (p : T.PeerId)
        → T.peer_id handle ≢ p
        → get T.peer_eq p o'.interface_peer_ids ≡ get T.peer_eq p o.interface_peer_ids
    pub nodes : G.nodes o'.links ≡ G.nodes o.links ++ i ∷ []
    pub edges : G.edges o'.links ≡ G.edges o.links
    pub numbers : o'.edges ≡ o.edges
    pub streams : (stream : T.EventStream) × (o'.event_streams ≡ o.event_streams ++ stream ∷ [])
    pub reported : o'.heuristics_handle ≡ o.heuristics_handle
    pub parameters : o'.parameters ≡ o.parameters
    pub filters :
        (x : E.State) × (d : T.Duration) × (o'.spawned ≡ o.spawned ++ new_filter x i d ∷ [])

  -- The interfaces, their identities, their filters, their streams and their links are as they were.
  pub record Untouched (o o' : Overseer T E K G) : Type 0 where
    pub interfaces : o'.interfaces ≡ o.interfaces
    pub own_peers : o'.interface_peer_ids ≡ o.interface_peer_ids
    pub filters : o'.spawned ≡ o.spawned
    pub edges : G.edges o'.links ≡ G.edges o.links
    pub numbers : o'.edges ≡ o.edges
    pub streams : o'.event_streams ≡ o.event_streams
    pub reported : o'.heuristics_handle ≡ o.heuristics_handle
    pub parameters : o'.parameters ≡ o.parameters

  -- An error that is found before anything is done.
  same-Untouched : (o : Overseer T E K G) → Untouched o o
  same-Untouched o = record {
    interfaces = refl;
    own_peers = refl;
    filters = refl;
    edges = refl;
    numbers = refl;
    streams = refl;
    reported = refl;
    parameters = refl;
  }

  abbrev pub Outcome : Overseer T E K G → Result T.foreign T.InterfaceId × Overseer T E K G → Type 0
  Outcome o (ok i, o') = Added i o o'
  Outcome o (err e, o') = Untouched o o'

  -- The state of the backend has no part in it.
  backend-Outcome :
      (o : Overseer T E K G) (b : T.State) (r : Result T.foreign T.InterfaceId × Overseer T E K G)
      → Outcome (record o { backend = b }) r
      → Outcome o r
  backend-Outcome o b (ok i, o') h = record {
    handle = h.handle;
    identifier = h.identifier;
    absent = h.absent;
    present = h.present;
    others = h.others;
    own_peer = h.own_peer;
    other_peers = h.other_peers;
    nodes = h.nodes;
    edges = h.edges;
    numbers = h.numbers;
    streams = h.streams;
    reported = h.reported;
    parameters = h.parameters;
    filters = h.filters;
  }
  backend-Outcome o b (err e, o') h = record {
    interfaces = h.interfaces;
    own_peers = h.own_peers;
    filters = h.filters;
    edges = h.edges;
    numbers = h.numbers;
    streams = h.streams;
    reported = h.reported;
    parameters = h.parameters;
  }

  module _ (laws : UnGraphLaws G) where
    start_interface-Outcome :
        (handle : T.InterfaceHandle) (stream : T.EventStream) (d : T.Duration)
        (r : Result T.foreign E.State) (o : Overseer T E K G)
        → get T.interface_eq (T.interface_id handle) o.interfaces ≡ none
        → Outcome o (start_interface handle stream d r o)
    unfolding start_interface
    start_interface-Outcome handle stream d (err e) o absent = record {
      interfaces = refl;
      own_peers = refl;
      filters = refl;
      edges = laws.edges-add_node (T.interface_id handle) o.links;
      numbers = refl;
      streams = refl;
      reported = refl;
      parameters = refl;
    }
    start_interface-Outcome handle stream d (ok x) o absent =
        let i = T.interface_id handle in
        let info = new_info {K = K} (G.add_node i o.links).0 (T.peer_id handle) handle new_handle in
        record {
          handle = handle;
          identifier = refl;
          absent = absent;
          present = ground (
            arith,
            get-insert T.interface_eq i i info o.interfaces,
            laws.add_node_index i o.links,
          );
          others = λ j h. ground (arith, get-insert T.interface_eq i j info o.interfaces);
          own_peer = ground (
            arith,
            get-insert T.peer_eq (T.peer_id handle) (T.peer_id handle) i o.interface_peer_ids,
          );
          other_peers = λ p h.
              ground (arith, get-insert T.peer_eq (T.peer_id handle) p i o.interface_peer_ids);
          nodes = laws.nodes-add_node i o.links;
          edges = laws.edges-add_node i o.links;
          numbers = refl;
          streams = (stream, refl);
          reported = refl;
          parameters = refl;
          filters = (x, d, refl);
        }

    add_interface-Outcome :
        (filter : String) (d : T.Duration)
        (r : Result T.foreign (T.InterfaceHandle × T.EventStream)) (o : Overseer T E K G)
        → Outcome o (add_interface filter d r o)
    unfolding add_interface
    add_interface-Outcome filter d (err e) o = same-Untouched o
    add_interface-Outcome filter d (ok (handle, stream)) o =
        elim (Option-cases (get T.interface_eq (T.interface_id handle) o.interfaces)) [
          | inl e ↦ rw (e, add_interface) (start_interface-Outcome handle stream d _ o e)
          | inr (info, e) ↦ rw (e, add_interface) (same-Untouched o)
        ]

    spawn_with-Outcome :
        (a : T.foreign.SocketAddr) (filter : String) (d : T.Duration)
        (q : Option T.InterfaceParameters) (o : Overseer T E K G)
        → Outcome o (spawn_with a filter d q o)
    unfolding spawn_with
    spawn_with-Outcome a filter d q o = backend-Outcome o _ _ (add_interface-Outcome filter d _ _)

    spawn_prepared-Outcome :
        (a : T.foreign.SocketAddr) (filter : String) (d : T.Duration)
        (r : Result T.foreign T.InterfaceParameters) (o : Overseer T E K G)
        → Outcome o (spawn_prepared a filter d r o)
    unfolding spawn_prepared
    spawn_prepared-Outcome a filter d (ok q) o = spawn_with-Outcome a filter d (some q) o
    spawn_prepared-Outcome a filter d (err e) o = same-Untouched o

    -- On every branch of a creation: if it returns an identifier, the identifier was free, and it
    -- now has an interface at a new node, a stream of events and a filter of its own, and an identity
    -- that is known as the interface's; the other interfaces and identities, the edges between the
    -- nodes and the numbers that are kept for them are as they were. If it returns an error, the
    -- interfaces, identities, filters, streams, edges and their numbers are as they were. Either way
    -- nothing is reported to the heuristics backend, and the network parameters stay.
    pub create_interface-Outcome :
        (a : T.foreign.SocketAddr) (filter : String) (d : T.Duration) (preinit : Option String)
        (o : Overseer T E K G)
        → Outcome o (create_interface a filter d preinit o)
    unfolding create_interface
    create_interface-Outcome a filter d none o = spawn_with-Outcome a filter d none o
    create_interface-Outcome a filter d (some code) o = spawn_prepared-Outcome a filter d _ o
