-- ===== src/Examples/Creation.antt =====
-- Interfaces that are created, and peers of an interface.
use swarm_host.Prelude.{◌≡◌, ◌≢◌, refl, none, some, [], ◌∷◌, ℕ, ℕ_discrete}
use swarm_host.Map.{get, insert}
use swarm_host.Error.{ok}
use swarm_host.Filter.Handle as Commands
use swarm_host.Heuristics.Handle
use swarm_host.Demo.{list_graph-laws}
use swarm_host.Overseer.Interfaces.{create_interface}
use swarm_host.Overseer.Peers.{discover_peer, register_peer, unregister_peer}
use swarm_host.Overseer.Creation.{Outcome, create_interface-Outcome}
use swarm_host.Overseer.Peering.{discover_peer_twice, unregister_peer-register_peer}
use swarm_host.Examples.Links.{State, three, fresh, three_has-1}

create_interface-Outcome_example : Outcome three (create_interface 8000 "code" 5 none three)
create_interface-Outcome_example = create_interface-Outcome list_graph-laws 8000 "code" 5 none three

discover_peer_twice_example : discover_peer 9 (discover_peer 9 three).1 ≡ discover_peer 9 three
discover_peer_twice_example = discover_peer_twice 9 three

abbrev visited : State
visited = (register_peer 1 9 (4 ∷ []) [] three).1

unregister_peer-register_peer_example :
    ((register_peer 1 9 (4 ∷ []) [] three).0 ≡ ok tt)
    × ((unregister_peer 1 9 visited).0 ≡ ok tt)
    × (get ℕ_discrete 1 (unregister_peer 1 9 visited).1.interfaces
        ≡ some (record (fresh 1) {
          filter = Commands.unregister_peer 9 (Commands.register_peer 9 [] (fresh 1).filter);
        }))
    × ((unregister_peer 1 9 visited).1.heuristics_handle
        ≡ Handle.unregister_peer 1 9 (Handle.register_peer 1 9 three.heuristics_handle))
    × ((j : ℕ)
        → ◌≢◌ {A = ℕ} 1 j
        → get ℕ_discrete j (unregister_peer 1 9 visited).1.interfaces
          ≡ get ℕ_discrete j three.interfaces)
unfolding create_interface get insert ℕ_discrete
unregister_peer-register_peer_example =
    unregister_peer-register_peer 1 9 (4 ∷ []) [] (fresh 1) three refl three_has-1 refl
