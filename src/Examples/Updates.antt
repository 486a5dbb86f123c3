-- ===== src/Examples/Updates.antt =====
-- The loop of the heuristics backend, with its timer.
use swarm_host.Prelude.{◌<◌, none, some, [], ◌∷◌, arith, length}
use swarm_host.Heuristics.{register_peer}
use swarm_host.Heuristics.Updates.{HeuristicsBackend, Turn, Updated, watch, watch-window}
use swarm_host.Demo.{network}

abbrev idle : HeuristicsBackend network
idle = record { peers = []; ws_tx = []; now = 5 }

-- A peer is registered early, and the last turn is due for an update.
abbrev early : Turn network
early = record { received = some (register_peer 0 9); tested = 6; kept = 6 }

abbrev next : Turn network
next = record { received = some (register_peer 0 8); tested = 7; kept = 7 }

abbrev due : Turn network
due = record { received = none; tested = 3000000006; kept = 3000000007 }

watch-window_example :
    Updated
      (next ∷ due ∷ [])
      (watch (early ∷ []) idle)
      (watch (next ∷ due ∷ []) (watch (early ∷ []) idle))
    × (length (watch (early ∷ []) idle).ws_tx
        < length (watch (next ∷ due ∷ []) (watch (early ∷ []) idle)).ws_tx)
watch-window_example =
    watch-window [] (next ∷ []) early due idle (omega arith, omega arith, tt) (omega arith)
