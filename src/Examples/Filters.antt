-- ===== src/Examples/Filters.antt =====
-- A filter with two peers.
use swarm_host.Prelude.{◌≡◌, refl, none, some, [], ◌∷◌, ℕ_discrete}
use swarm_host.Map.{get, insert, remove, add}
use swarm_host.Executor.{connect, forward, send_request, send_response}
use swarm_host.Demo.{network, sinks, scripted, Script}
use swarm_host.Filter
use swarm_host.Filter.{Filter}
use swarm_host.Filter.Process.{
  process_events, process_event, forward_to_each, forward_to, request_from, respond_to,
  respond_with, report_sent,
}
use swarm_host.Filter.Delivery.{Holds, deliver_all, deliver, process_events-Holds}
use swarm_host.Filter.Commands.{handle_command}
use swarm_host.Filter.Members.{protocols_of, protocols_in}
use swarm_host.Filter.Membership.{entry_after, handle_command-protocols}

-- Peer 5 has sent request 3.
abbrev pub two_peers : Script → Filter network scripted sinks
two_peers script = record {
  executor = script;
  interface = 0;
  event_tx = [];
  peers =
      (5, record { sink = []; protocols = 1 ∷ [] })
      ∷ (6, record { sink = []; protocols = [] })
      ∷ [];
  pending_inbound = (5, 3) ∷ [];
  pending_outbound = [];
  heuristics_handle = [];
  poll_interval = 10;
}

abbrev orders : Script
orders =
    forward (6 ∷ 5 ∷ 9 ∷ []) 1 42
    ∷ send_response 5 []
    ∷ connect 7
    ∷ send_response 5 []
    ∷ send_request 6 1 []
    ∷ []

-- Peer 5 is sent the notification, and one response to request 3.
process_events-Holds_example :
    Holds {T = network} {E = scripted} {K = sinks} 5
      (1 ∷ [])
      (record { sink = (0, 42) ∷ (2, 3) ∷ []; pending = none })
      (process_events orders (two_peers [])).1
unfolding deliver_all deliver process_events process_event forward_to_each forward_to request_from
    respond_to respond_with report_sent get insert remove ℕ_discrete
process_events-Holds_example =
    process_events-Holds {T = network} {E = scripted} {K = sinks} 5 (1 ∷ []) orders
      (record { sink = []; pending = some 3 }) (two_peers [])
      (record { at_sink = refl; at_pending = refl }) refl

handle_command-protocols_example :
    protocols_of 5 (handle_command (Filter.protocol_closed 5 2) (two_peers orders)).1
    ≡ some (1 ∷ 2 ∷ [])
unfolding entry_after protocols_in get add ℕ_discrete
handle_command-protocols_example =
    handle_command-protocols {T = network} {E = scripted} {K = sinks} 5 (Filter.protocol_closed 5 2)
      (two_peers orders)
