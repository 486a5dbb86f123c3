-- ===== src/Overseer/Links.antt =====
-- src/overseer.rs: what linking and unlinking do to the link graph. The overseer keeps the number of
-- each edge, and the graph library renumbers edges when one is removed.
use swarm_host.Prelude.{
  ℕ, suc, ◌<◌, ◌≤◌, ◌≡◌, sym, ap, subst, ite, none, some, List, [], ◌∷◌, ◌++◌, arith, Elem,
  Elem-append_last, length, length-append,
}
use swarm_host.Map.{get}
use swarm_host.Map.Laws.{get-insert, get-remove}
use swarm_host.Error.{ok, err, link_doesnt_exist}
use swarm_host.Backend.{NetworkBackend, PacketSink}
use swarm_host.Executor.{Executor}
use swarm_host.Graph.{UnGraph, UnGraphLaws, swap_remove}
use swarm_host.Graph.Paths.{Connected, here, forth}
use swarm_host.Overseer.{Overseer, InterfaceInfo, pair_eq}
use swarm_host.Overseer.Invariant.{WellFormed}
use swarm_host.Overseer.Growth.{index-lt}
use swarm_host.Overseer.Interfaces.{
  add_link, link_interfaces, link_removed, remove_link, unlink_interfaces,
}

pub last-Connected :
    (es : List (ℕ × ℕ)) (x y : ℕ) (g : List (ℕ × ℕ)) → g ≡ es ++ (x, y) ∷ [] → Connected g x y
last-Connected es x y g e =
    forth x y (subst (Elem (x, y)) (sym e) (Elem-append_last (x, y) es)) (here y)

module _ {T : NetworkBackend} {E : Executor T} {K : PacketSink T} {G : UnGraph T.InterfaceId}
    (laws : UnGraphLaws G) where
  pub link_found :
      (first second : T.InterfaceId) (a b : InterfaceInfo T K) (o : Overseer T E K G)
      → get T.interface_eq first o.interfaces ≡ some a
      → get T.interface_eq second o.interfaces ≡ some b
      → link_interfaces first second o ≡ (ok tt, add_link first second a b o)
  unfolding link_interfaces
  link_found first second a b o ea eb = rw (ea, eb, link_interfaces)

  -- A link adds its edge at the end, and its number is kept.
  pub record Linked (first second : T.InterfaceId) (a b : InterfaceInfo T K)
      (o o' : Overseer T E K G) : Type 0 where
    pub added : G.edges o'.links ≡ G.edges o.links ++ (a.index, b.index) ∷ []
    pub kept :
        (p : T.InterfaceId × T.InterfaceId)
        → get (pair_eq T.interface_eq) p o'.edges
          ≡ ite
              (pair_eq T.interface_eq (first, second) p)
              (some (length (G.edges o.links)))
              (get (pair_eq T.interface_eq) p o.edges)

  pub kept_self :
      (first second : T.InterfaceId) (a b : InterfaceInfo T K) (o o' : Overseer T E K G)
      → Linked first second a b o o'
      → get (pair_eq T.interface_eq) (first, second) o'.edges ≡ some (length (G.edges o.links))
  kept_self first second a b o o' l = ground (arith, l.kept (first, second))

  pub length_added :
      (first second : T.InterfaceId) (a b : InterfaceInfo T K) (o o' : Overseer T E K G)
      → Linked first second a b o o'
      → length (G.edges o'.links) ≡ suc (length (G.edges o.links))
  length_added first second a b o o' l =
      omega (arith, ap length l.added, length-append (G.edges o.links) ((a.index, b.index) ∷ []))

  pub add_link-Linked :
      (first second : T.InterfaceId) (a b : InterfaceInfo T K) (o : Overseer T E K G)
      → WellFormed o
      → get T.interface_eq first o.interfaces ≡ some a
      → get T.interface_eq second o.interfaces ≡ some b
      → Linked first second a b o (add_link first second a b o)
  unfolding add_link
  add_link-Linked first second a b o w ea eb =
      let la = index-lt laws o first a w ea in
      let lb = index-lt laws o second b w eb in
      record {
        added = laws.edges-add_edge a.index b.index o.links la lb;
        kept = λ p.
            rw (← laws.add_edge_index a.index b.index o.links la lb)
              (get-insert (pair_eq T.interface_eq) (first, second) p _ o.edges);
      }

  pub unlink_missing :
      (first second : T.InterfaceId) (o : Overseer T E K G)
      → get (pair_eq T.interface_eq) (first, second) o.edges ≡ none
      → (unlink_interfaces first second o).0 ≡ err link_doesnt_exist
  unfolding unlink_interfaces
  unlink_missing first second o e = rw (e, unlink_interfaces)

  pub get-add_link :
      (first second i : T.InterfaceId) (a b info : InterfaceInfo T K) (o : Overseer T E K G)
      → get T.interface_eq i o.interfaces ≡ some info
      → get T.interface_eq i (add_link first second a b o).interfaces ≡ some info
  unfolding add_link
  get-add_link first second i a b info o e = e

  pub unlink_found :
      (first second : T.InterfaceId) (edge : ℕ) (o : Overseer T E K G)
      → get (pair_eq T.interface_eq) (first, second) o.edges ≡ some edge
      → unlink_interfaces first second o ≡ remove_link first second edge o
  unfolding unlink_interfaces
  unlink_found first second edge o e = rw (e, unlink_interfaces)

  -- An edge with a valid number is removed.
  pub remove_link_in :
      (first second : T.InterfaceId) (edge : ℕ) (o : Overseer T E K G)
      → edge < length (G.edges o.links)
      → ((remove_link first second edge o).0 ≡ ok tt)
        × (G.edges (remove_link first second edge o).1.links ≡ swap_remove edge (G.edges o.links))
  unfolding remove_link
  remove_link_in first second edge o h =
      (ap link_removed (laws.remove_edge_in edge o.links h), laws.edges-remove_edge edge o.links h)

  -- A number that is no edge.
  pub remove_link_out :
      (first second : T.InterfaceId) (edge : ℕ) (o : Overseer T E K G)
      → length (G.edges o.links) ≤ edge
      → ((remove_link first second edge o).0 ≡ err link_doesnt_exist)
        × ((remove_link first second edge o).1.links ≡ o.links)
  unfolding remove_link
  remove_link_out first second edge o h =
      let out = laws.remove_edge_out edge o.links h in
      (ap (λ t. link_removed t.0) out, ap (λ t. t.1) out)

  -- The number of a removed link is forgotten, and no other.
  pub remove_link_edges :
      (first second : T.InterfaceId) (edge : ℕ) (o : Overseer T E K G)
      (p : T.InterfaceId × T.InterfaceId)
      → get (pair_eq T.interface_eq) p (remove_link first second edge o).1.edges
        ≡ ite
            (pair_eq T.interface_eq (first, second) p)
            none
            (get (pair_eq T.interface_eq) p o.edges)
  unfolding remove_link
  remove_link_edges first second edge o p =
      get-remove (pair_eq T.interface_eq) (first, second) p o.edges
