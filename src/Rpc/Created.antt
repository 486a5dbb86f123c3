-- ===== src/Rpc/Created.antt =====
-- src/rpc.rs: the identifiers that the RPC server has answered with can be used in later calls.
use swarm_host.Prelude.{
  String, ◌⊎◌, inl, inr, ◌≡◌, refl, ap, subst, Option, none, some, List, [], ◌∷◌, arith,
  Option-cases, Elem, Elem-cons,
}
use swarm_host.Map.{get, contained}
use swarm_host.Error.{Result, ok, err}
use swarm_host.Error.Equality.{Foreigners}
use swarm_host.Backend.{NetworkBackend, PacketSink}
use swarm_host.Executor.{Executor}
use swarm_host.Graph.{UnGraph, UnGraphLaws}
use swarm_host.Overseer.{Overseer}
use swarm_host.Overseer.Creation.{Outcome, create_interface-Outcome}
use swarm_host.Overseer.Links.{link_found}
use swarm_host.Overseer.Existence.{Exists, handle_rpc-Exists}
use swarm_host.Overseer.Permanence.{StillExists, handle_input-Exists}
use swarm_host.Overseer.Run.{OverseerEvent, Input, handle_rpc, handle_input}
use swarm_host.Overseer.Run
use swarm_host.Rpc
use swarm_host.Rpc.{
  Params, Answer, identifier, null, custom, Step, call, network, filter, decode, answer, deliver,
  respond, serve, hear,
}

module _ {T : NetworkBackend} where
  -- The answer is this identifier.
  abbrev Names : T.InterfaceId → Answer T → Type 0
  Names i (identifier j) = j ≡ i
  Names i a = ⊥

  named : (i : T.InterfaceId) (a : Answer T) → ◌≡◌ {A = Answer T} (identifier i) a → Names i a
  named i a e = subst (Names i) e refl

module _ (T : NetworkBackend) (X : Foreigners T.foreign) where
  not-Names :
      (i : T.InterfaceId) (r : Result T.foreign Unit)
      → ¬ Names {T = T} i (answer X (Run.finished r))
  unfolding answer
  not-Names i (ok done) n = n
  not-Names i (err x) n = n

module _ {T : NetworkBackend} {E : Executor T} {K : PacketSink T} {G : UnGraph T.InterfaceId}
    (P : Params T) (X : Foreigners T.foreign) where
  -- An interface that is there stays there.
  hear-StillExists :
      (i : T.InterfaceId) (input : Input T K) (o : Option (Overseer T E K G))
      → StillExists i o
      → StillExists i (hear P X input o)
  hear-StillExists i input none h = tt
  hear-StillExists i input (some o) h = handle_input-Exists i input o h

  respond-StillExists :
      (i : T.InterfaceId) (parsed : String ⊎ OverseerEvent T) (o : Option (Overseer T E K G))
      → StillExists i o
      → StillExists i (respond P X parsed o).1
  unfolding respond deliver
  respond-StillExists i (inl message) o h = h
  respond-StillExists i (inr event) none h = tt
  respond-StillExists i (inr event) (some o) h = handle_rpc-Exists i event o h

  serve-StillExists :
      (i : T.InterfaceId) (steps : List (Step T K P)) (o : Option (Overseer T E K G))
      → StillExists i o
      → StillExists i (serve P X steps o).1
  unfolding serve
  serve-StillExists i [] o h = h
  serve-StillExists i (call method s ∷ rest) o h =
      serve-StillExists i rest _ (respond-StillExists i (decode P method s) o h)
  serve-StillExists i (network event ∷ rest) o h =
      serve-StillExists i rest _ (hear-StillExists i (Run.network event) o h)
  serve-StillExists i (filter event ∷ rest) o h =
      serve-StillExists i rest _ (hear-StillExists i (Run.filter event) o h)

  -- Only a creation is answered with an identifier, and it has just added the interface.
  module _ (laws : UnGraphLaws G) where
    created-Exists :
        (i : T.InterfaceId) (o : Overseer T E K G)
        (r : Result T.foreign T.InterfaceId × Overseer T E K G)
        → Outcome o r
        → Names {T = T} i (answer X (Run.created r.0))
        → Exists i r.1.interfaces
    unfolding answer
    created-Exists i o (ok j, o') h n =
        subst (λ k. Exists k o'.interfaces) n (ap contained h.present)
    created-Exists i o (err x, o') h n = absurd n

    answered-Exists :
        (i : T.InterfaceId) (event : OverseerEvent T) (o : Overseer T E K G)
        → Names {T = T} i (answer X (handle_rpc event o).0)
        → Exists i (handle_rpc event o).1.interfaces
    unfolding handle_rpc
    answered-Exists i (Run.create_interface a code d preinit) o n =
        created-Exists i o _ (create_interface-Outcome laws a code d preinit o) n
    answered-Exists i (Run.link_interface j k) o n = absurd (not-Names T X i _ n)
    answered-Exists i (Run.unlink_interface j k) o n = absurd (not-Names T X i _ n)
    answered-Exists i (Run.install_notification_filter j p code context) o n =
        absurd (not-Names T X i _ n)
    answered-Exists i (Run.install_request_response_filter j p code context) o n =
        absurd (not-Names T X i _ n)

    respond-Names :
        (i : T.InterfaceId) (parsed : String ⊎ OverseerEvent T) (o : Option (Overseer T E K G))
        → Names i (respond P X parsed o).0
        → StillExists i (respond P X parsed o).1
    unfolding respond deliver
    respond-Names i (inl message) o n = absurd n
    respond-Names i (inr event) none n = absurd n
    respond-Names i (inr event) (some o) n = answered-Exists i event o n

    serve-Elem :
        (i : T.InterfaceId) (steps : List (Step T K P)) (o : Option (Overseer T E K G))
        → Elem {A = Answer T} (identifier i) (serve P X steps o).0
        → StillExists i (serve P X steps o).1
    unfolding serve
    serve-Elem i [] o e = elim e [ ]
    serve-Elem i (call method s ∷ rest) o e = elim (Elem-cons e) [
      | inl p ↦ serve-StillExists i rest _ (respond-Names i (decode P method s) o (named i _ p))
      | inr k ↦ serve-Elem i rest _ k
    ]
    serve-Elem i (network event ∷ rest) o e = serve-Elem i rest _ e
    serve-Elem i (filter event ∷ rest) o e = serve-Elem i rest _ e

    linked :
        (i j : T.InterfaceId) (o : Overseer T E K G)
        → Exists i o.interfaces
        → Exists j o.interfaces
        → (deliver P X (Run.link_interface i j) (some o)).0 ≡ null
    unfolding deliver handle_rpc answer
    linked i j o hi hj = elim (Option-cases (get T.interface_eq i o.interfaces)) [
      | inl e ↦ absurd (ground arith)
      | inr (a, ea) ↦ elim (Option-cases (get T.interface_eq j o.interfaces)) [
        | inl e ↦ absurd (ground arith)
        | inr (b, eb) ↦ rw (link_found laws i j a b o ea eb, deliver, handle_rpc, answer) refl
      ]
    ]

    -- In a session of calls, network events and events of the filters, in any order and from any
    -- state of the overseer: a call of link_interface whose parameters decode to two identifiers that
    -- earlier calls were answered with is answered with success, unless the overseer has panicked.
    pub serve-link :
        (steps : List (Step T K P)) (start o : Overseer T E K G) (i j : T.InterfaceId)
        (s : P.Sequence)
        → (serve P X steps (some start)).1 ≡ some o
        → Elem {A = Answer T} (identifier i) (serve P X steps (some start)).0
        → Elem {A = Answer T} (identifier j) (serve P X steps (some start)).0
        → decode P Rpc.link_interface s ≡ inr (Run.link_interface i j)
        → (respond P X (decode P Rpc.link_interface s) (some o)).0 ≡ null
    unfolding respond
    serve-link steps start o i j s e hi hj d =
        rw (d, respond)
          (linked i j o (subst (StillExists i) e (serve-Elem i steps (some start) hi))
            (subst (StillExists j) e (serve-Elem j steps (some start) hj)))
