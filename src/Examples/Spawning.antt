-- ===== src/Examples/Spawning.antt =====
-- Interfaces of the mock blockchain at three addresses, one of them twice.
use swarm_host.Prelude.{ℕ, ◌≤◌, List, [], ◌∷◌, arith, ◌≡◌, Elem, Unique, ℕ_discrete}
use swarm_host.Error.{ok}
use swarm_host.Backend.Mockchain.{Bound, new, spawn_interface, spawn_all}
use swarm_host.Backend.Identifiers.{ids, spawn_all-Unique}
use swarm_host.Backend.Calls.{after, expected, spawn_interface-expected}
use swarm_host.Demo.{numbers}

abbrev calls : List (Bound numbers)
calls = (8000, ok tt) ∷ (8001, ok tt) ∷ (8000, ok tt) ∷ (8002, ok tt) ∷ []

-- A fifth call, at an address that is taken.
spawn_interface-expected_example :
    (spawn_interface {F = numbers} ℕ_discrete (8001, ok tt) (after ℕ_discrete calls)).0
    ≡ expected ℕ_discrete (8001, ok tt) calls
spawn_interface-expected_example =
    spawn_interface-expected {F = numbers} ℕ_discrete (8001, ok tt) calls (omega arith)

spawn_all-Unique_example :
    ((i : ℕ) → Elem i (ids (spawn_all {F = numbers} ℕ_discrete calls new).0) → 0 ≤ i)
    × Unique (ids (spawn_all {F = numbers} ℕ_discrete calls new).0)
spawn_all-Unique_example = spawn_all-Unique {F = numbers} ℕ_discrete calls new (omega arith)
