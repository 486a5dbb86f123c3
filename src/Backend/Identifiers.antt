-- ===== src/Backend/Identifiers.antt =====
-- src/backend/mockchain/mod.rs: the identifiers and the addresses of the interfaces.
use swarm_host.Prelude.{
  ℕ, ◌+◌, ◌^◌, ◌≤◌, ◌<◌, ◌≡◌, refl, inl, inr, ite, none, some, List, [], ◌∷◌, arith, length, map,
  Elem, Elem-cons, Unique, Option-cases, true,
}
use swarm_host.Map.{get, contains_key}
use swarm_host.Map.Laws.{get-insert}
use swarm_host.Error.{Foreign, Result, ok, err, address_in_use}
use swarm_host.Backend.Mockchain.{
  MockchainHandle, MockchainBackend, Bound, next_interface_id, new_handle, keep, spawn_interface,
  handle_of, spawn_all,
}

abbrev pub ids : List MockchainHandle → List ℕ
ids = map (λ h. h.id)

module _ {F : Foreign} (address_eq : Discrete F.SocketAddr) where
  -- What a call leaves, by whether it hands out an interface.
  abbrev pub Answer :
      F.SocketAddr → MockchainBackend F → Result F MockchainHandle × MockchainBackend F → Type 0
  Answer address b (ok h, b') =
      (get address_eq address b.interfaces ≡ none)
      × (h.id ≡ b.next_iface_id)
      × (h.peer_id ≡ b.next_iface_id)
      × (b'.next_iface_id ≡ b.next_iface_id + 1)
      × ((a : F.SocketAddr)
          → get address_eq a b'.interfaces
            ≡ ite (address_eq address a) (some h.id) (get address_eq a b.interfaces))
  Answer address b (err e, b') =
      (b'.interfaces ≡ b.interfaces)
      × (contains_key address_eq address b.interfaces ≡ true → e ≡ address_in_use address)
      × (b.next_iface_id ≤ b'.next_iface_id)
      × (b'.next_iface_id ≤ b.next_iface_id + 1)

  keep-Answer :
      (address : F.SocketAddr) (bound : Result F Unit) (b : MockchainBackend F)
      → b.next_iface_id + 1 < 2 ^ 64
      → get address_eq address b.interfaces ≡ none
      → let (id, b') = next_interface_id b in
        Answer address b (keep address_eq address id (new_handle id bound) b')
  unfolding keep new_handle next_interface_id
  keep-Answer address (err e) b lt h =
      (refl, (λ k. ground arith), omega (arith, lt), omega (arith, lt))
  keep-Answer address (ok done) b lt h = (
    h,
    refl,
    omega (arith, lt),
    omega (arith, lt),
    λ a. get-insert address_eq address a b.next_iface_id b.interfaces,
  )

  -- What a call does to the identifiers and the addresses; they are not to wrap around.
  pub spawn_interface-Answer :
      (address : F.SocketAddr) (bound : Result F Unit) (b : MockchainBackend F)
      → b.next_iface_id + 1 < 2 ^ 64
      → Answer address b (spawn_interface address_eq (address, bound) b)
  unfolding spawn_interface
  spawn_interface-Answer address bound b lt =
      elim (Option-cases (get address_eq address b.interfaces)) [
        | inl e ↦ rw (e, spawn_interface) (keep-Answer address bound b lt e)
        | inr (i, e) ↦ rw (e, spawn_interface) (refl, (λ k. refl), omega arith, omega arith)
      ]

  handles-Unique :
      (r : Result F MockchainHandle) (a : F.SocketAddr) (b b' : MockchainBackend F)
      (rest : List MockchainHandle)
      → Answer a b (r, b')
      → ((i : ℕ) → Elem i (ids rest) → b'.next_iface_id ≤ i)
      → Unique (ids rest)
      → ((i : ℕ) → Elem i (ids (handle_of r rest)) → b.next_iface_id ≤ i)
        × Unique (ids (handle_of r rest))
  unfolding handle_of
  handles-Unique (err e) a b b' rest (same, taken, low, high) above u =
      ((λ i k. omega (arith, above i k, low)), u)
  handles-Unique (ok h) a b b' rest (free, id, peer, next, addresses) above u = (
    (λ i k. elim (Elem-cons k) [
      | inl e ↦ omega (arith, e, id)
      | inr k' ↦ omega (arith, above i k', next)
    ]),
    ((λ k. omega (arith, above h.id k, next, id)), u),
  )

  Answer-next :
      (a : F.SocketAddr) (b b' : MockchainBackend F) (r : Result F MockchainHandle)
      → Answer a b (r, b')
      → b'.next_iface_id ≤ b.next_iface_id + 1
  Answer-next a b b' (ok h) (free, id, peer, next, addresses) = omega (arith, next)
  Answer-next a b b' (err e) (same, taken, low, high) = high

  -- In any sequence of calls, fewer than there are identifiers left, no two interfaces that are
  -- handed out have the same identifier, and none has one from before.
  pub spawn_all-Unique :
      (xs : List (Bound F)) (b : MockchainBackend F)
      → b.next_iface_id + length xs < 2 ^ 64
      → ((i : ℕ) → Elem i (ids (spawn_all address_eq xs b).0) → b.next_iface_id ≤ i)
        × Unique (ids (spawn_all address_eq xs b).0)
  unfolding spawn_all
  spawn_all-Unique [] b lt = ((λ i k. absurd (elim k [ ])), tt)
  spawn_all-Unique ((a, bound) ∷ xs) b lt =
      let (r, b') = spawn_interface address_eq (a, bound) b in
      let w = spawn_interface-Answer a bound b (omega (arith, lt)) in
      let (above, u) = spawn_all-Unique xs b' (omega (arith, lt, Answer-next a b b' r w)) in
      handles-Unique r a b b' (spawn_all address_eq xs b').0 w above u
