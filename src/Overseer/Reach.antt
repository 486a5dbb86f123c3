-- ===== src/Overseer/Reach.antt =====
-- src/overseer.rs, `inject_notification`: a notification goes to the filters of all interfaces that
-- the links connect with the one that received it, and to no other.
use swarm_host.Prelude.{
  ℕ, ◌≡◌, refl, sym, ◌∙◌, subst, inl, inr, none, some, List, [], ◌∷◌, arith, Option-cases, fun_ext,
}
use swarm_host.Map.{HashMap, get, insert}
use swarm_host.Error.{ok}
use swarm_host.Backend.{NetworkBackend, PacketSink}
use swarm_host.Executor.{Executor}
use swarm_host.Filter.Handle.{FilterHandle}
use swarm_host.Filter.Handle as Commands
use swarm_host.Graph.{UnGraph, UnGraphLaws}
use swarm_host.Graph.Paths.{Connected, here, forth, back}
use swarm_host.Overseer.{Overseer, InterfaceInfo}
use swarm_host.Overseer.Delivery.{Indexed, IsNode, Delivered, notify_each-Delivered}
use swarm_host.Overseer.Invariant.{WellFormed, Keeps, insert-Keeps}
use swarm_host.Overseer.Growth.{index-lt}
use swarm_host.Overseer.Peers.{command, notify_each, linked_interfaces, inject_notification}

module _ {T : NetworkBackend} {K : PacketSink T} where
  pub notify_each-Keeps :
      (is : List T.InterfaceId) (send : FilterHandle T K → FilterHandle T K)
      (m m' : HashMap T.InterfaceId (InterfaceInfo T K))
      → notify_each is send m ≡ some m'
      → Keeps m m'
  unfolding notify_each
  notify_each-Keeps [] send m m' e = record { same = λ j. ground arith }
  notify_each-Keeps (i ∷ is) send m m' e = elim (Option-cases (get T.interface_eq i m)) [
    | inl x ↦ absurd (none-ne (rw (x, notify_each) at e))
    | inr (info, x) ↦
        let m1 = insert T.interface_eq i (command send info) m in
        let k = notify_each-Keeps is send m1 m' (rw (x, notify_each) at e) in
        let k1 = insert-Keeps i info (command send info) m x refl in
        record { same = λ j. k.same j ∙ k1.same j }
  ]
    where
      none-ne : none ≡ some m' → ⊥
      none-ne h = cc

module _ {T : NetworkBackend} {E : Executor T} {K : PacketSink T} {G : UnGraph T.InterfaceId}
    (laws : UnGraphLaws G) where
  Connected-IsNode :
      (o : Overseer T E K G)
      → WellFormed o
      → {a b : ℕ} → Connected (G.edges o.links) a b
      → IsNode a o.interfaces
      → IsNode b o.interfaces
  Connected-IsNode o w (here a) h = h
  Connected-IsNode o w (forth a b e c) h = Connected-IsNode o w c (w.ends a b e).1
  Connected-IsNode o w (back a b e c) h = Connected-IsNode o w c (w.ends a b e).0

  -- What `inject_notification` did, once it is known what the search finds.
  pub inject_with :
      (i : T.InterfaceId) (peer : T.PeerId) (protocol : T.Protocol) (n : T.Message)
      (info : InterfaceInfo T K) (is : List T.InterfaceId)
      (m' : HashMap T.InterfaceId (InterfaceInfo T K)) (o : Overseer T E K G)
      → get T.interface_eq i o.interfaces ≡ some info
      → linked_interfaces info.index o ≡ some is
      → notify_each is (Commands.inject_notification protocol peer n) o.interfaces ≡ some m'
      → inject_notification i peer protocol n o ≡ some (ok tt, record o { interfaces = m' })
  unfolding inject_notification linked_interfaces
  inject_with i peer protocol n info is m' o e f g =
      rw (e, inject_notification) (rw (f, inject_notification) (rw (g, inject_notification)))

  -- The search and the loop over what it finds.
  pub inject_found :
      (send : FilterHandle T K → FilterHandle T K) (i : T.InterfaceId) (info : InterfaceInfo T K)
      (o : Overseer T E K G)
      → WellFormed o
      → get T.interface_eq i o.interfaces ≡ some info
      → (is : List T.InterfaceId) × (m' : HashMap T.InterfaceId (InterfaceInfo T K))
        × (linked_interfaces info.index o ≡ some is)
        × (notify_each is send o.interfaces ≡ some m')
        × Delivered (λ a. G.node_weight a o.links) send (G.dfs info.index o.links) o.interfaces m'
  unfolding linked_interfaces
  inject_found send i info o w e =
      notify_each-Delivered (λ a. G.node_weight a o.links) send (G.dfs info.index o.links)
        o.interfaces
        (subst (λ f. Indexed f o.interfaces) (sym (fun_ext (λ a. laws.node_weight_lem a o.links)))
          w.indexed)
        (λ a k.
          Connected-IsNode o w
            ((laws.dfs_visits info.index a o.links (index-lt laws o i info w e)).0 k)
            (i, info, e, refl))
        (laws.dfs_once info.index o.links)

  -- In a well-formed overseer, a notification that an existing interface receives is passed on
  -- without a panic; the filter of every interface that the links connect with the receiving one is
  -- sent it, once; the other interfaces, and all else, stay as they were.
  pub inject_notification-reaches :
      (i : T.InterfaceId) (peer : T.PeerId) (protocol : T.Protocol) (n : T.Message)
      (info : InterfaceInfo T K) (o : Overseer T E K G)
      → WellFormed o
      → get T.interface_eq i o.interfaces ≡ some info
      → (m' : HashMap T.InterfaceId (InterfaceInfo T K)) × (inject_notification i peer protocol n o
          ≡ some (ok tt, record o { interfaces = m' }))
        × ((j : T.InterfaceId) (other : InterfaceInfo T K)
            → get T.interface_eq j o.interfaces ≡ some other
            → (Connected (G.edges o.links) info.index other.index
                → get T.interface_eq j m'
                  ≡ some (record other {
                    filter = Commands.inject_notification protocol peer n other.filter;
                  }))
              × (¬ Connected (G.edges o.links) info.index other.index
                  → get T.interface_eq j m' ≡ some other))
  inject_notification-reaches i peer protocol n info o w e =
      let visits = λ (b : ℕ). laws.dfs_visits info.index b o.links (index-lt laws o i info w e) in
      let (is, m', f, g, d) =
        inject_found (Commands.inject_notification protocol peer n) i info o w e in
      (
        m',
        inject_with i peer protocol n info is m' o e f g,
        λ j other h. (
          λ c. d.told j other h ((visits other.index).1 c),
          λ c. d.untold j other h (λ k. c ((visits other.index).0 k)),
        ),
      )
