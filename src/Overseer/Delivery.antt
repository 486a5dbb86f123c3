-- ===== src/Overseer/Delivery.antt =====
-- src/overseer.rs, `inject_notification`: who is told of a notification.
use swarm_host.Prelude.{
  ℕ, ◌≡◌, refl, sym, ◌∙◌, subst, ite, inl, inr, Option, none, some, List, [], ◌∷◌, arith, Elem,
  first, later, Elem-cons, Unique,
}
use swarm_host.Map.{HashMap, get, insert}
use swarm_host.Map.Laws.{get-insert}
use swarm_host.Backend.{NetworkBackend, PacketSink}
use swarm_host.Filter.Handle.{FilterHandle}
use swarm_host.Overseer.{InterfaceInfo}
use swarm_host.Overseer.Peers.{weights, command, notify_each}

module _ {T : NetworkBackend} {K : PacketSink T} where
  -- A node of some interface.
  abbrev pub IsNode : ℕ → HashMap T.InterfaceId (InterfaceInfo T K) → Type 0
  IsNode a m =
      (i : T.InterfaceId) × (info : InterfaceInfo T K) × (get T.interface_eq i m ≡ some info)
      × (info.index ≡ a)

module _ {T : NetworkBackend} {K : PacketSink T} (weight : ℕ → Option T.InterfaceId) where
  -- The node of every interface stands for that interface.
  abbrev pub Indexed : HashMap T.InterfaceId (InterfaceInfo T K) → Type 0
  Indexed m =
      (j : T.InterfaceId) (info : InterfaceInfo T K)
      → get T.interface_eq j m ≡ some info
      → weight info.index ≡ some j

  module _ (send : FilterHandle T K → FilterHandle T K) where
    command-Indexed :
        (i : T.InterfaceId) (info : InterfaceInfo T K)
        (m : HashMap T.InterfaceId (InterfaceInfo T K))
        → get T.interface_eq i m ≡ some info
        → Indexed m
        → Indexed (insert T.interface_eq i (command send info) m)
    command-Indexed i info m e h j info' e' =
        ground (arith, get-insert T.interface_eq i j (command send info) m, h j info', h i info)

    command-IsNode :
        (i : T.InterfaceId) (info : InterfaceInfo T K) (a : ℕ)
        (m : HashMap T.InterfaceId (InterfaceInfo T K))
        → get T.interface_eq i m ≡ some info
        → IsNode a m
        → IsNode a (insert T.interface_eq i (command send info) m)
    command-IsNode i info a m e (j, info', e', x) = elim (T.interface_eq i j) [
      | yes p ↦ (
        j,
        command send info',
        ground (arith, get-insert T.interface_eq i j (command send info) m),
        x,
      )
      | no p ↦ (j, info', ground (arith, get-insert T.interface_eq i j (command send info) m), x)
    ]

    -- The interfaces at these nodes were sent the command once, and the others nothing.
    pub record Delivered (nodes : List ℕ) (m m' : HashMap T.InterfaceId (InterfaceInfo T K))
        : Type 0 where
      pub told :
          (j : T.InterfaceId) (info : InterfaceInfo T K)
          → get T.interface_eq j m ≡ some info
          → Elem info.index nodes
          → get T.interface_eq j m' ≡ some (command send info)
      pub untold :
          (j : T.InterfaceId) (info : InterfaceInfo T K)
          → get T.interface_eq j m ≡ some info
          → ¬ Elem info.index nodes
          → get T.interface_eq j m' ≡ some info
      pub unknown :
          (j : T.InterfaceId) → get T.interface_eq j m ≡ none → get T.interface_eq j m' ≡ none

    -- After the first node's interface `i` was told, the rest of the nodes concern the others.
    step-Delivered :
        (a : ℕ) (rest : List ℕ) (i : T.InterfaceId) (info : InterfaceInfo T K)
        (m m' : HashMap T.InterfaceId (InterfaceInfo T K))
        → Indexed m
        → get T.interface_eq i m ≡ some info
        → info.index ≡ a
        → ¬ Elem a rest
        → Delivered rest (insert T.interface_eq i (command send info) m) m'
        → Delivered (a ∷ rest) m m'
    step-Delivered a rest i info m m' h e x once d = record {
      told = λ j info' e' k. elim (T.interface_eq i j) [
        | yes p ↦
            d.untold j (command send info) (ground (arith, put j))
              (subst (λ b. ¬ Elem b rest) (sym x) once)
            ∙ ground arith
        | no p ↦ d.told j info' (ground (arith, put j)) (elim (Elem-cons k) [
          | inl q ↦ absurd (p (ground (arith, h i info e, h j info' e')))
          | inr k' ↦ k'
        ])
      ];
      untold = λ j info' e' k. elim (T.interface_eq i j) [
        | yes p ↦ absurd (k (subst (λ b. Elem b (a ∷ rest)) (sym x ∙ ground arith) (first rest)))
        | no p ↦ d.untold j info' (ground (arith, put j)) (λ k'. k (later a k'))
      ];
      unknown = λ j e'. d.unknown j (ground (arith, put j));
    }
      where
        put :
            (j : T.InterfaceId)
            → get T.interface_eq j (insert T.interface_eq i (command send info) m)
              ≡ ite (T.interface_eq i j) (some (command send info)) (get T.interface_eq j m)
        put j = get-insert T.interface_eq i j (command send info) m

    cons-weights :
        (a : ℕ) (nodes : List ℕ) (i : T.InterfaceId) (is : List T.InterfaceId)
        → weight a ≡ some i
        → weights weight nodes ≡ some is
        → weights weight (a ∷ nodes) ≡ some (i ∷ is)
    unfolding weights
    cons-weights a nodes i is e w = ground arith

    cons-notify_each :
        (i : T.InterfaceId) (is : List T.InterfaceId) (info : InterfaceInfo T K)
        (m m' : HashMap T.InterfaceId (InterfaceInfo T K))
        → get T.interface_eq i m ≡ some info
        → notify_each is send (insert T.interface_eq i (command send info) m) ≡ some m'
        → notify_each (i ∷ is) send m ≡ some m'
    unfolding notify_each
    cons-notify_each i is info m m' e n = rw (e, notify_each) n

    pub notify_each-Delivered :
        (nodes : List ℕ) (m : HashMap T.InterfaceId (InterfaceInfo T K))
        → Indexed m
        → ((a : ℕ) → Elem a nodes → IsNode a m)
        → Unique nodes
        → (is : List T.InterfaceId) × (m' : HashMap T.InterfaceId (InterfaceInfo T K)) × (weights
              weight nodes
            ≡ some is)
          × (notify_each is send m ≡ some m')
          × Delivered nodes m m'
    unfolding weights notify_each
    notify_each-Delivered [] m h covers once = (
      [],
      m,
      refl,
      refl,
      record { told = λ j info e k. elim k [ ]; untold = λ j info e k. e; unknown = λ j e. e },
    )
    notify_each-Delivered (a ∷ rest) m h covers once =
        let (i, info, e, x) = covers a (first rest) in
        let m1 = insert T.interface_eq i (command send info) m in
        let (is, m', w, n, d) =
          notify_each-Delivered rest m1 (command-Indexed i info m e h)
            (λ b k. command-IsNode i info b m e (covers b (later a k))) once.1 in
        (
          i ∷ is,
          m',
          cons-weights a rest i is (subst (λ b. weight b ≡ some i) x (h i info e)) w,
          cons-notify_each i is info m m' e n,
          step-Delivered a rest i info m m' h e x once.0 d,
        )
