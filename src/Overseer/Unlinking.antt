-- ===== src/Overseer/Unlinking.antt =====
-- src/overseer.rs: links that are undone, at once, after a second linking, or after another link.
use swarm_host.Prelude.{
  ◌≤◌, ◌≡◌, ◌≢◌, refl, ◌∙◌, ap, none, some, [], ◌∷◌, ◌++◌, arith, length, length-append,
}
use swarm_host.Map.{get}
use swarm_host.Error.{ok, err, link_doesnt_exist}
use swarm_host.Backend.{NetworkBackend, PacketSink}
use swarm_host.Executor.{Executor}
use swarm_host.Graph.{UnGraph, UnGraphLaws, swap_remove}
use swarm_host.Graph.Edges.{swap_remove_last, swap_remove_previous}
use swarm_host.Graph.Paths.{Connected}
use swarm_host.Overseer.{Overseer, InterfaceInfo, pair_eq}
use swarm_host.Overseer.Invariant.{WellFormed}
use swarm_host.Overseer.Growth.{add_link-WellFormed}
use swarm_host.Overseer.Interfaces.{add_link, link_interfaces, remove_link, unlink_interfaces}
use swarm_host.Overseer.Links.{
  Linked, add_link-Linked, link_found, kept_self, length_added, unlink_missing, unlink_found,
  get-add_link, remove_link_in, remove_link_out, remove_link_edges, last-Connected,
}

module _ {T : NetworkBackend} {E : Executor T} {K : PacketSink T} {G : UnGraph T.InterfaceId}
    (laws : UnGraphLaws G) where
  -- A link that is undone at once: unlinking succeeds, and the graph has the edges that it had.
  pub unlink-link :
      (first second : T.InterfaceId) (a b : InterfaceInfo T K) (o : Overseer T E K G)
      → WellFormed o
      → get T.interface_eq first o.interfaces ≡ some a
      → get T.interface_eq second o.interfaces ≡ some b
      → let o1 = (link_interfaces first second o).1 in
        ((link_interfaces first second o).0 ≡ ok tt)
        × ((unlink_interfaces first second o1).0 ≡ ok tt)
        × (G.edges (unlink_interfaces first second o1).1.links ≡ G.edges o.links)
  unlink-link first second a b o w ea eb =
      let o1 = add_link first second a b o in
      let l = add_link-Linked laws first second a b o w ea eb in
      let n = length (G.edges o.links) in
      let found = unlink_found laws first second n o1 (kept_self laws first second a b o o1 l) in
      let removed =
        remove_link_in laws first second n o1
          (omega (arith, length_added laws first second a b o o1 l)) in
      rw (link_found laws first second a b o ea eb, found)
        (
          refl,
          removed.0,
          removed.1
              ∙ ap (swap_remove n) l.added
              ∙ swap_remove_last (G.edges o.links) (a.index, b.index),
        )

  twice_removed :
      (first second : T.InterfaceId) (a b : InterfaceInfo T K) (o o1 o2 : Overseer T E K G)
      → Linked laws first second a b o o1
      → Linked laws first second a b o1 o2
      → let o3 = (remove_link first second (length (G.edges o1.links)) o2).1 in
        ((remove_link first second (length (G.edges o1.links)) o2).0 ≡ ok tt)
        × (get (pair_eq T.interface_eq) (first, second) o3.edges ≡ none)
        × (G.edges o3.links ≡ G.edges o1.links)
  twice_removed first second a b o o1 o2 l1 l2 =
      let n = length (G.edges o1.links) in
      let removed =
        remove_link_in laws first second n o2
          (omega (arith, length_added laws first second a b o1 o2 l2)) in
      (
        removed.0,
        ground (arith, remove_link_edges laws first second n o2 (first, second)),
        removed.1
            ∙ ap (swap_remove n) l2.added
            ∙ swap_remove_last (G.edges o1.links) (a.index, b.index),
      )

  -- A pair that is linked twice: the first edge loses its number. Unlinking succeeds once, and then
  -- finds no link, while an edge of the two linkings is still there and connects the two interfaces.
  pub unlink-link_twice :
      (first second : T.InterfaceId) (a b : InterfaceInfo T K) (o : Overseer T E K G)
      → WellFormed o
      → get T.interface_eq first o.interfaces ≡ some a
      → get T.interface_eq second o.interfaces ≡ some b
      → let o2 = (link_interfaces first second (link_interfaces first second o).1).1 in
        let o3 = (unlink_interfaces first second o2).1 in
        ((unlink_interfaces first second o2).0 ≡ ok tt)
        × ((unlink_interfaces first second o3).0 ≡ err link_doesnt_exist)
        × Connected (G.edges o3.links) a.index b.index
  unlink-link_twice first second a b o w ea eb =
      let o1 = add_link first second a b o in
      let o2 = add_link first second a b o1 in
      let n = length (G.edges o1.links) in
      let o3 = (remove_link first second n o2).1 in
      let ea1 = get-add_link laws first second first a b a o ea in
      let eb1 = get-add_link laws first second second a b b o eb in
      let w1 = add_link-WellFormed laws first second a b o ea eb w in
      let l1 = add_link-Linked laws first second a b o w ea eb in
      let l2 = add_link-Linked laws first second a b o1 w1 ea1 eb1 in
      let r = twice_removed first second a b o o1 o2 l1 l2 in
      rw
        (
          link_found laws first second a b o ea eb,
          link_found laws first second a b o1 ea1 eb1,
          unlink_found laws first second n o2 (kept_self laws first second a b o1 o2 l2),
        )
        (
          r.0,
          unlink_missing laws first second o3 r.1,
          last-Connected (G.edges o.links) a.index b.index _ (r.2 ∙ l1.added),
        )

  older_removed :
      (first second third fourth : T.InterfaceId) (a b c d : InterfaceInfo T K)
      (o o1 o2 : Overseer T E K G)
      → ◌≢◌ {A = T.InterfaceId × T.InterfaceId} (first, second) (third, fourth)
      → Linked laws first second a b o o1
      → Linked laws third fourth c d o1 o2
      → let n = length (G.edges o.links) in
        let o3 = (remove_link first second n o2).1 in
        (get (pair_eq T.interface_eq) (first, second) o2.edges ≡ some n)
        × ((remove_link first second n o2).0 ≡ ok tt)
        × (get (pair_eq T.interface_eq) (third, fourth) o3.edges ≡ some (length (G.edges o1.links)))
        × (length (G.edges o3.links) ≤ length (G.edges o1.links))
        × (G.edges o3.links ≡ G.edges o.links ++ (c.index, d.index) ∷ [])
  older_removed first second third fourth a b c d o o1 o2 ne l1 l2 =
      let n = length (G.edges o.links) in
      let m1 = length_added laws first second a b o o1 l1 in
      let m2 = length_added laws third fourth c d o1 o2 l2 in
      let removed = remove_link_in laws first second n o2 (omega arith) in
      let es =
        removed.1
        ∙ ap (swap_remove n) (l2.added ∙ ap (λ xs. xs ++ (c.index, d.index) ∷ []) l1.added)
        ∙ swap_remove_previous (G.edges o.links) (a.index, b.index) (c.index, d.index) in
      (
        ground (arith, l2.kept (first, second), kept_self laws first second a b o o1 l1),
        removed.0,
        ground (
          arith,
          remove_link_edges laws first second n o2 (third, fourth),
          kept_self laws third fourth c d o1 o2 l2,
        ),
        omega (arith, ap length es, length-append (G.edges o.links) ((c.index, d.index) ∷ [])),
        es,
      )

  -- Two links are made, and the older one is undone: the edge of the newer one takes its number, so
  -- the number that is kept for it is no longer an edge. Undoing the newer link then fails, and the
  -- two interfaces stay connected.
  pub unlink_stale :
      (first second third fourth : T.InterfaceId) (a b c d : InterfaceInfo T K)
      (o : Overseer T E K G)
      → WellFormed o
      → get T.interface_eq first o.interfaces ≡ some a
      → get T.interface_eq second o.interfaces ≡ some b
      → get T.interface_eq third o.interfaces ≡ some c
      → get T.interface_eq fourth o.interfaces ≡ some d
      → ◌≢◌ {A = T.InterfaceId × T.InterfaceId} (first, second) (third, fourth)
      → let o2 = (link_interfaces third fourth (link_interfaces first second o).1).1 in
        let o3 = (unlink_interfaces first second o2).1 in
        let (r, o4) = unlink_interfaces third fourth o3 in
        ((unlink_interfaces first second o2).0 ≡ ok tt)
        × (r ≡ err link_doesnt_exist)
        × Connected (G.edges o4.links) c.index d.index
  unlink_stale first second third fourth a b c d o w ea eb ec ed ne =
      let o1 = add_link first second a b o in
      let o2 = add_link third fourth c d o1 in
      let n = length (G.edges o.links) in
      let o3 = (remove_link first second n o2).1 in
      let ec1 = get-add_link laws first second third a b c o ec in
      let ed1 = get-add_link laws first second fourth a b d o ed in
      let w1 = add_link-WellFormed laws first second a b o ea eb w in
      let l1 = add_link-Linked laws first second a b o w ea eb in
      let l2 = add_link-Linked laws third fourth c d o1 w1 ec1 ed1 in
      let r = older_removed first second third fourth a b c d o o1 o2 ne l1 l2 in
      let s = remove_link_out laws third fourth (length (G.edges o1.links)) o3 r.3 in
      rw
        (
          link_found laws first second a b o ea eb,
          link_found laws third fourth c d o1 ec1 ed1,
          unlink_found laws first second n o2 r.0,
          unlink_found laws third fourth (length (G.edges o1.links)) o3 r.2,
        )
        (r.1, s.0, last-Connected (G.edges o.links) c.index d.index _ (ap G.edges s.1 ∙ r.4))
