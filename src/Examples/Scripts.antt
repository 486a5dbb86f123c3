-- ===== src/Examples/Scripts.antt =====
-- An executor with a filter for protocol 1, in an interpreter where every call succeeds.
use swarm_host.Prelude.{ℕ, suc, ◌≡◌, ◌↔◌, refl, inr, none, [], ◌∷◌, String, ℕ_discrete}
use swarm_host.Map.{get}
use swarm_host.Executor.{forward}
use swarm_host.Executor.Pyo3.{
  Python, Pyo3Executor, pyo3, inject_notification, install_notification_filter,
}
use swarm_host.Executor.Installed.{
  no_filter, Installs, inject_notification-no_filter, install_notification_filter-Installs,
  inject_notification-uninstalled,
}
use swarm_host.Heuristics.Handle.{register_notification_received}
use swarm_host.Filter
use swarm_host.Filter.{Filter}
use swarm_host.Filter.Process.{process_events}
use swarm_host.Filter.Commands.{handle_command}
use swarm_host.Demo.{network, sinks}

abbrev python : Python network
python = record {
  Interpreter = ℕ;
  PyErr = String;
  Module = String;
  Object = ℕ;
  to_string = λ e. e;
  from_code = λ name code w. (inr code, suc w);
  getattr = λ m function w. (inr 0, w);
  call1 = λ f args w. (inr 0, suc w);
  extract = λ o w. (inr [], w);
  peer_object = λ p. p;
  protocol_object = λ p. p;
  message_object = λ m. m;
  request_object = λ r. r;
  response_object = λ r. r;
  parameters_object = λ p. p;
  context_object = λ c. 0;
  interface_parameters = λ o. o;
  before_preparation = 0;
  before_creation = λ i. 0;
}

abbrev one_filter : Pyo3Executor network python
one_filter = record {
  context = 0;
  interface = 0;
  code = "generic";
  notification_filters = (1, "code") ∷ [];
  request_response_filters = [];
  interpreter = 0;
}

inject_notification-no_filter_example :
    ((inject_notification python 2 5 42 one_filter).0 ≡ no_filter python)
    ↔ (get ℕ_discrete 2 one_filter.notification_filters ≡ none)
inject_notification-no_filter_example = inject_notification-no_filter python 2 5 42 one_filter

install_notification_filter-Installs_example :
    Installs python 2 "other" one_filter
      (install_notification_filter python 2 "other" one_filter).0
      (install_notification_filter python 2 "other" one_filter).1
install_notification_filter-Installs_example =
    install_notification_filter-Installs python 2 "other" one_filter

abbrev two_peers : Filter network (pyo3 python) sinks
two_peers = record {
  executor = one_filter;
  interface = 0;
  event_tx = [];
  peers =
      (5, record { sink = []; protocols = 1 ∷ [] })
      ∷ (6, record { sink = []; protocols = [] })
      ∷ [];
  pending_inbound = [];
  pending_outbound = [];
  heuristics_handle = [];
  poll_interval = 10;
}

inject_notification-uninstalled_example :
    handle_command (Filter.inject_notification 2 5 42) two_peers
    ≡ process_events
        (forward (5 ∷ 6 ∷ []) 2 42 ∷ [])
        (record two_peers { heuristics_handle = register_notification_received 0 2 5 42 [] })
unfolding get ℕ_discrete
inject_notification-uninstalled_example =
    inject_notification-uninstalled python 2 5 42 two_peers (refl, (refl, tt)) refl
