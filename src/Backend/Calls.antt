-- ===== src/Backend/Calls.antt =====
-- src/backend/mockchain/mod.rs: what `spawn_interface` answers, from the calls before it alone.
use swarm_host.Prelude.{
  ℕ, suc, ◌+◌, ◌%◌, ◌^◌, ◌≤◌, ◌<◌, ◌≡◌, refl, sym, ◌∙◌, Bool, false, ◌||◌, List, [], ◌∷◌, arith,
  length, if◌then◌else◌, Bool-cases, inl, inr,
}
use swarm_host.Map.{get, contains_key}
use swarm_host.Map.Laws.{get-insert}
use swarm_host.Error.{Foreign, Result, ok, err, address_in_use}
use swarm_host.Error.Equality.{same}
use swarm_host.Backend.Mockchain.{
  MockchainHandle, MockchainBackend, Bound, new, next_interface_id, new_handle, keep,
  spawn_interface,
}

module _ {F : Foreign} (address_eq : Discrete F.SocketAddr) where
  -- The calls before, the latest first: whether one of them has got an interface at the address,
  -- which is so if one of them was bound to it.
  abbrev pub taken : F.SocketAddr → List (Bound F) → Bool
  taken a [] = false
  taken a ((a', ok done) ∷ earlier) = same (address_eq a' a) || taken a earlier
  taken a ((a', err e) ∷ earlier) = taken a earlier

  -- The number of those that were not refused, each of which has used up an identifier.
  abbrev pub tried : List (Bound F) → ℕ
  tried [] = 0
  tried ((a, bound) ∷ earlier) = if taken a earlier then tried earlier else suc (tried earlier)

  -- What the next call is to answer.
  abbrev pub expected : Bound F → List (Bound F) → Result F MockchainHandle
  expected (a, ok done) earlier =
      if taken a earlier
      then err (address_in_use a)
      else ok (record { id = tried earlier; peer_id = tried earlier })
  expected (a, err e) earlier = if taken a earlier then err (address_in_use a) else err e

  -- The backend after the calls.
  abbrev pub after : List (Bound F) → MockchainBackend F
  after [] = new
  after (call ∷ earlier) = (spawn_interface address_eq call (after earlier)).1

  tried-le : (calls : List (Bound F)) → tried calls ≤ length calls
  tried-le [] = omega arith
  tried-le ((a, bound) ∷ earlier) = ground (arith, tried-le earlier)

  -- The backend knows just what can be told from the calls.
  record Knows (calls : List (Bound F)) (b : MockchainBackend F) : Type 0 where
    next : b.next_iface_id ≡ tried calls
    addresses : (a : F.SocketAddr) → contains_key address_eq a b.interfaces ≡ taken a calls

  spawn_interface-Knows :
      (call : Bound F) (calls : List (Bound F)) (b : MockchainBackend F)
      → tried calls + 1 < 2 ^ 64
      → Knows calls b
      → ((spawn_interface address_eq call b).0 ≡ expected call calls)
        × Knows (call ∷ calls) (spawn_interface address_eq call b).1
  unfolding spawn_interface next_interface_id keep new_handle
  spawn_interface-Knows (a, ok done) calls b lt k = elim (Bool-cases (taken a calls)) [
    | inl t ↦
        rw (k.addresses a, t, spawn_interface)
          (
            refl,
            record {
              next = k.next ∙ sym (rw t refl);
              addresses = λ c. ground (arith, k.addresses c, k.addresses a, t);
            },
          )
    | inr t ↦
        let small : tried calls % 2 ^ 64 ≡ tried calls = omega (arith, lt) in
        let step : (tried calls + 1) % 2 ^ 64 ≡ suc (tried calls) = omega (arith, lt) in
        rw (k.addresses a, t, k.next, small, step, spawn_interface)
          (
            refl,
            record {
              next = ground (arith, t);
              addresses = λ c.
                  ground
                    (arith, get-insert address_eq a c (tried calls) b.interfaces, k.addresses c);
            },
          )
  ]
  spawn_interface-Knows (a, err e) calls b lt k = elim (Bool-cases (taken a calls)) [
    | inl t ↦
        rw (k.addresses a, t, spawn_interface)
          (refl, record { next = k.next ∙ sym (rw t refl); addresses = k.addresses })
    | inr t ↦
        rw (k.addresses a, t, spawn_interface)
          (refl, record { next = ground (arith, t, lt, k.next); addresses = k.addresses })
  ]

  after-Knows : (calls : List (Bound F)) → length calls < 2 ^ 64 → Knows calls (after calls)
  unfolding get
  after-Knows [] lt = record { next = refl; addresses = λ a. refl }
  after-Knows (call ∷ calls) lt =
      (spawn_interface-Knows call calls (after calls) (omega (arith, lt, tried-le calls))
        (after-Knows calls (omega (arith, lt)))).1

  -- After any calls on a new backend, a call answers that its address is in use if and only if an
  -- earlier call got an interface there; otherwise it answers with the error of the bind, or with an
  -- interface whose identifier, which is also its identity, is the number of the earlier calls that
  -- were not refused for their address. The calls are to be fewer than there are identifiers.
  pub spawn_interface-expected :
      (call : Bound F) (earlier : List (Bound F))
      → length earlier + 1 < 2 ^ 64
      → (spawn_interface address_eq call (after earlier)).0 ≡ expected call earlier
  spawn_interface-expected call earlier lt =
      (spawn_interface-Knows call earlier (after earlier) (omega (arith, lt, tried-le earlier))
        (after-Knows earlier (omega (arith, lt)))).0
