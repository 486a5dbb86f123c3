-- ===== src/Examples/Traffic.antt =====
-- The counters for one peer, after a few events.
use swarm_host.Prelude.{true, List, [], ◌∷◌, ℕ_discrete}
use swarm_host.Map.{get}
use swarm_host.Demo.{network}
use swarm_host.Heuristics.{HeuristicsEvent, register_peer, message_received, message_sent, run}
use swarm_host.Heuristics.History.{Agrees, history, run-Agrees, observe}

-- A message of peer 5 before it is registered, two equal ones after, and one sent to it twice.
abbrev events : List (HeuristicsEvent network)
events =
    message_received 0 1 5 9 100
    ∷ register_peer 0 5
    ∷ message_received 0 1 5 9 100
    ∷ message_received 0 1 5 9 100
    ∷ message_sent 0 1 (5 ∷ 6 ∷ 5 ∷ []) 8 20
    ∷ []

run-Agrees_example :
    Agrees {T = network} 1
      (get ℕ_discrete 5 (run events []))
      (record { known = true; received = (9, 100) ∷ (9, 100) ∷ []; sent = (8, 20) ∷ (8, 20) ∷ [] })
unfolding history observe ℕ_discrete
run-Agrees_example = run-Agrees {T = network} 5 1 events
