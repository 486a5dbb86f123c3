-- ===== src/Examples/Sessions.antt =====
-- A filter over several commands.
use swarm_host.Prelude.{◌≡◌, refl, true, false, some, [], ◌∷◌, List, ℕ_discrete}
use swarm_host.Map.{get, insert, add}
use swarm_host.Demo.{network, sinks, scripted}
use swarm_host.Filter
use swarm_host.Filter.Process.{process_events}
use swarm_host.Filter.Commands.{
  poll_filter, with_events, handle_command, register_peer, inject_request,
}
use swarm_host.Filter.Members.{protocols_of, protocols_in}
use swarm_host.Filter.Membership.{entry_after}
use swarm_host.Filter.Run.{Wake, command_rx, sleep, wake, run}
use swarm_host.Filter.Sessions.{session, registered, run-protocols, run-registered}
use swarm_host.Filter.Requests.{last_request, run-Waits}
use swarm_host.Examples.Filters.{two_peers}

abbrev visit : List (Wake network sinks)
visit =
    command_rx (Filter.register_peer 8 [])
    ∷ command_rx (Filter.protocol_opened 8 4)
    ∷ sleep
    ∷ command_rx (Filter.unregister_peer 5)
    ∷ []

run-protocols_example : protocols_of {E = scripted} 8 (run visit (two_peers [])) ≡ some (4 ∷ [])
unfolding session entry_after protocols_in get insert add ℕ_discrete
run-protocols_example =
    run-protocols {T = network} {E = scripted} {K = sinks} 8 visit (two_peers []) (λ q x. refl)

abbrev arrival : List (Wake network sinks)
arrival = command_rx (Filter.register_peer 8 []) ∷ sleep ∷ []

run-registered_example : registered 8 arrival false ≡ true
unfolding run wake get insert ℕ_discrete protocols_in poll_filter with_events process_events
    handle_command register_peer
run-registered_example =
    run-registered {T = network} {E = scripted} {K = sinks} 8 arrival (two_peers []) false (λ e. e)
      refl

-- Peer 5 makes the requests 4 and 9, while the executor answers nothing.
abbrev requests : List (Wake network sinks)
requests =
    command_rx (Filter.inject_request 1 5 4) ∷ command_rx (Filter.inject_request 1 5 9) ∷ sleep ∷ []

run-Waits_example : last_request 5 requests (some 3) ≡ some 9
unfolding run wake get insert ℕ_discrete poll_filter with_events process_events handle_command
    inject_request
run-Waits_example =
    run-Waits {T = network} {E = scripted} {K = sinks} 5 9 requests (two_peers []) (some 3) (λ e. e)
      refl
