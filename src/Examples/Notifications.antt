-- ===== src/Examples/Notifications.antt =====
-- A notification that interface 0 receives while it is linked with interface 1.
use swarm_host.Prelude.{ℕ, ◌≡◌, refl, none, some, List, [], ◌∷◌, ℕ_discrete}
use swarm_host.Map.{HashMap, get, insert}
use swarm_host.Error.{ok}
use swarm_host.Backend.{peer_connected, message_received, peer_discovered}
use swarm_host.Filter.Handle as Commands
use swarm_host.Graph.Paths.{Connected}
use swarm_host.Demo.{network, sinks, scripted, list_graph, list_graph-laws}
use swarm_host.Overseer.{InterfaceInfo}
use swarm_host.Overseer.Invariant.{WellFormed}
use swarm_host.Overseer.Growth.{link_interfaces-WellFormed}
use swarm_host.Overseer.Interfaces.{create_interface, link_interfaces, add_link}
use swarm_host.Overseer.Peers.{inject_notification}
use swarm_host.Overseer.Reach.{inject_notification-reaches}
use swarm_host.Overseer.Safety.{Goes, run-Goes, run-new}
use swarm_host.Overseer.Run.{Input, rpc, network as net, filter, handle_input, run, new}
use swarm_host.Overseer.Run
use swarm_host.Examples.Links.{three, one_link, three-WellFormed, fresh}

one_link-WellFormed : WellFormed one_link
one_link-WellFormed = link_interfaces-WellFormed list_graph-laws 0 1 three three-WellFormed

one_link_has : get ℕ_discrete 0 one_link.interfaces ≡ some (fresh 0)
unfolding link_interfaces add_link create_interface get insert ℕ_discrete
one_link_has = refl

inject_notification-reaches_example :
    (m' : HashMap ℕ (InterfaceInfo network sinks)) × (inject_notification 0 9 1 42 one_link
      ≡ some (ok tt, record one_link { interfaces = m' }))
    × ((j : ℕ) (other : InterfaceInfo network sinks)
        → get ℕ_discrete j one_link.interfaces ≡ some other
        → (Connected one_link.links.edge_list 0 other.index
            → get ℕ_discrete j m'
              ≡ some (record other { filter = Commands.inject_notification 1 9 42 other.filter }))
          × (¬ Connected one_link.links.edge_list 0 other.index → get ℕ_discrete j m' ≡ some other))
inject_notification-reaches_example =
    inject_notification-reaches list_graph-laws 0 9 1 42 (fresh 0) one_link one_link-WellFormed
      one_link_has

-- Two interfaces are created and linked, a peer connects to one, and sends a notification.
abbrev session : List (Input network sinks)
session =
    rpc (Run.create_interface 8000 "code" 5 none)
    ∷ rpc (Run.create_interface 8001 "code" 5 none)
    ∷ rpc (Run.link_interface 0 1)
    ∷ net (peer_connected 0 9 (1 ∷ []) [])
    ∷ net (peer_discovered 8)
    ∷ net (message_received 0 9 1 42)
    ∷ []

run-Goes_example : Goes (run session one_link)
run-Goes_example =
    run-Goes list_graph-laws session one_link one_link-WellFormed
      (tt, λ _ _. (tt, λ _ _. (tt, λ _ _. (tt, λ _ _. (tt, λ _ _. (tt, λ _ _. tt))))))

run-new_example : Goes (run session (new {E = scripted} {G = list_graph} 0))
run-new_example =
    run-new list_graph-laws 0 session
      (tt, λ _ _. (tt, λ _ _. (tt, λ _ _. (tt, λ _ _. (tt, λ _ _. (tt, λ _ _. tt))))))
