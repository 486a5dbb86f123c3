-- ===== src/Examples/Links.antt =====
-- Three interfaces and their links.
use swarm_host.Prelude.{ℕ, ◌≡◌, ◌≢◌, refl, none, some, [], arith, ℕ_discrete, ap, ◌+◌}
use swarm_host.Map.{get, insert}
use swarm_host.Error.{ok, err, link_doesnt_exist}
use swarm_host.Graph.Paths.{Connected}
use swarm_host.Demo.{network, sinks, scripted, list_graph, list_graph-laws}
use swarm_host.Overseer.{Overseer, InterfaceInfo}
use swarm_host.Overseer.Invariant.{WellFormed, empty-WellFormed}
use swarm_host.Overseer.Growth.{create_interface-WellFormed}
use swarm_host.Overseer.Interfaces.{
  create_interface, link_interfaces, unlink_interfaces, new_info, new_handle,
}
use swarm_host.Overseer.Unlinking.{unlink-link, unlink-link_twice, unlink_stale}

abbrev pub State : Type 0
State = Overseer network scripted sinks list_graph

abbrev pub nothing : State
nothing = record {
  backend = 0;
  interfaces = [];
  interface_peer_ids = [];
  event_streams = [];
  links = record { node_list = []; edge_list = [] };
  edges = [];
  heuristics_handle = [];
  parameters = 0;
  spawned = [];
}

abbrev pub grown : State → State
grown o = (create_interface 8000 "code" 5 none o).1

abbrev pub three : State
three = grown (grown (grown nothing))

pub three-WellFormed : WellFormed three
three-WellFormed =
    create_interface-WellFormed list_graph-laws 8000 "code" 5 none (grown (grown nothing)) (
      create_interface-WellFormed list_graph-laws 8000 "code" 5 none (grown nothing) (
        create_interface-WellFormed list_graph-laws 8000 "code" 5 none nothing
          (empty-WellFormed nothing refl refl)))

-- The interface with this identifier, as it is created.
abbrev pub fresh : ℕ → InterfaceInfo network sinks
fresh i = new_info i (i + 100) i new_handle

pub three_has-0 : get ℕ_discrete 0 three.interfaces ≡ some (fresh 0)
unfolding create_interface get insert ℕ_discrete
three_has-0 = refl

pub three_has-1 : get ℕ_discrete 1 three.interfaces ≡ some (fresh 1)
unfolding create_interface get insert ℕ_discrete
three_has-1 = refl

pub three_has-2 : get ℕ_discrete 2 three.interfaces ≡ some (fresh 2)
unfolding create_interface get insert ℕ_discrete
three_has-2 = refl

-- Interface 0 linked with interface 1, at the number 0.
abbrev pub one_link : State
one_link = (link_interfaces 0 1 three).1

unlink-link_example :
    ((link_interfaces 0 1 three).0 ≡ ok tt)
    × ((unlink_interfaces 0 1 one_link).0 ≡ ok tt)
    × ((unlink_interfaces 0 1 one_link).1.links.edge_list ≡ three.links.edge_list)
unlink-link_example =
    unlink-link list_graph-laws 0 1 (fresh 0) (fresh 1) three three-WellFormed three_has-0
      three_has-1

abbrev two_same : State
two_same = (link_interfaces 0 1 one_link).1

unlink-link_twice_example :
    ((unlink_interfaces 0 1 two_same).0 ≡ ok tt)
    × ((unlink_interfaces 0 1 (unlink_interfaces 0 1 two_same).1).0 ≡ err link_doesnt_exist)
    × Connected (unlink_interfaces 0 1 two_same).1.links.edge_list 0 1
unlink-link_twice_example =
    unlink-link_twice list_graph-laws 0 1 (fresh 0) (fresh 1) three three-WellFormed three_has-0
      three_has-1

abbrev two_links : State
two_links = (link_interfaces 1 2 one_link).1

abbrev first_undone : State
first_undone = (unlink_interfaces 0 1 two_links).1

unlink_stale_example :
    ((unlink_interfaces 0 1 two_links).0 ≡ ok tt)
    × ((unlink_interfaces 1 2 first_undone).0 ≡ err link_doesnt_exist)
    × Connected (unlink_interfaces 1 2 first_undone).1.links.edge_list 1 2
unlink_stale_example =
    unlink_stale list_graph-laws 0 1 1 2 (fresh 0) (fresh 1) (fresh 1) (fresh 2) three
      three-WellFormed three_has-0 three_has-1 three_has-1 three_has-2 distinct
  where
    distinct : ◌≢◌ {A = ℕ × ℕ} (0, 1) (1, 2)
    distinct e = omega (arith, ap (λ (t : ℕ × ℕ). t.0) e)
