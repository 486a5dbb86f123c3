-- ===== src/Executor/Installed.antt =====
-- src/executor/pyo3/mod.rs with src/filter/mod.rs: which protocols have a filter, and what a filter
-- does with the notifications of the others.
use swarm_host.Prelude.{
  String, ◌≡◌, ◌≢◌, ◌↔◌, refl, ite, ◌⊎◌, inl, inr, Option, none, some, List, [], ◌∷◌, arith,
}
use swarm_host.Map.{get, Distinct}
use swarm_host.Map.Laws.{get-insert}
use swarm_host.Error.{Result, ok, err, ExecutorError, executor_error}
use swarm_host.Backend.{NetworkBackend, PacketSink}
use swarm_host.Executor.{ExecutorEvent, Events, forward}
use swarm_host.Executor.Pyo3.{
  Python, Pyo3Executor, from_py, call_filter, inject_notification, notification_filter_verified,
  install_notification_filter, pyo3,
}
use swarm_host.Heuristics.Handle.{register_notification_received}
use swarm_host.Filter
use swarm_host.Filter.{Filter}
use swarm_host.Filter.Process.{process_events}
use swarm_host.Filter.Commands.{handle_command}
use swarm_host.Filter.Commands
use swarm_host.Filter.Absent.{keys, forward_to_all-process_events}

module _ {T : NetworkBackend} (P : Python T) where
  abbrev pub no_filter : Events T
  no_filter = err (executor_error ExecutorError.filter_doesnt_exist)

  from_py-no_filter : (r : P.PyErr ⊎ List (ExecutorEvent T)) → from_py P r ≢ no_filter
  from_py-no_filter (inl e) h = ground arith
  from_py-no_filter (inr es) h = ground arith

  call_filter-no_filter :
      (code : Option String) (function : String) (args : List P.Object) (x : Pyo3Executor T P)
      → ((call_filter P code function args x).0 ≡ no_filter) ↔ (code ≡ none)
  unfolding call_filter
  call_filter-no_filter none function args x = ((λ h. refl), (λ h. refl))
  call_filter-no_filter (some code) function args x =
      ((λ h. absurd (from_py-no_filter _ h)), (λ h. ground arith))

  -- The executor answers that there is no filter if and only if none is installed for the protocol,
  -- whatever the user's code does.
  pub inject_notification-no_filter :
      (pr : T.Protocol) (p : T.PeerId) (n : T.Message) (x : Pyo3Executor T P)
      → ((inject_notification P pr p n x).0 ≡ no_filter)
        ↔ (get T.protocol_eq pr x.notification_filters ≡ none)
  unfolding inject_notification
  inject_notification-no_filter pr p n x = call_filter-no_filter _ _ _ x

  -- What an installation leaves: with the answer `ok`, the code stands for the protocol, and for no
  -- other; with an error, the filters are as they were; the other kind of filters always is.
  pub record Installs (pr : T.Protocol) (code : String) (x : Pyo3Executor T P)
      (r : Result T.foreign Unit) (x' : Pyo3Executor T P) : Type 0 where
    pub installed :
        r ≡ ok tt
        → (pr' : T.Protocol)
        → get T.protocol_eq pr' x'.notification_filters
          ≡ ite (T.protocol_eq pr pr') (some code) (get T.protocol_eq pr' x.notification_filters)
    pub refused : (r ≢ ok tt) → x'.notification_filters ≡ x.notification_filters
    pub others : x'.request_response_filters ≡ x.request_response_filters

  notification_filter_verified-Installs :
      (pr : T.Protocol) (code : String) (x : Pyo3Executor T P) (r : Result T.foreign Unit)
      (w : P.Interpreter)
      → let (r', x') = notification_filter_verified P pr code (r, record x { interpreter = w }) in
        Installs pr code x r' x'
  unfolding notification_filter_verified
  notification_filter_verified-Installs pr code x (ok done) w = record {
    installed = λ h pr'. get-insert T.protocol_eq pr pr' code x.notification_filters;
    refused = λ h. absurd (h refl);
    others = refl;
  }
  notification_filter_verified-Installs pr code x (err e) w = record {
    installed = λ h pr'. ground arith;
    refused = λ h. refl;
    others = refl;
  }

  -- After an installation that succeeds, the protocol has the new filter and all other protocols the
  -- filters that they had; an installation that fails changes no filter.
  pub install_notification_filter-Installs :
      (pr : T.Protocol) (code : String) (x : Pyo3Executor T P)
      → let (r, x') = install_notification_filter P pr code x in Installs pr code x r x'
  unfolding install_notification_filter
  install_notification_filter-Installs pr code x =
      notification_filter_verified-Installs pr code x _ _

  -- A filter whose executor has no filter for a protocol forwards each notification over it to every
  -- connected peer, and reports its arrival, whatever the user's code does.
  pub inject_notification-uninstalled :
      {K : PacketSink T} (pr : T.Protocol) (p : T.PeerId) (n : T.Message) (f : Filter T (pyo3 P) K)
      → Distinct T.peer_eq f.peers
      → get T.protocol_eq pr f.executor.notification_filters ≡ none
      → handle_command (Filter.inject_notification pr p n) f
        ≡ process_events (forward (keys T.peer_eq f.peers) pr n ∷ []) (record f {
          heuristics_handle = register_notification_received f.interface pr p n f.heuristics_handle;
        })
  unfolding handle_command Commands.inject_notification inject_notification call_filter
      Commands.notified
  inject_notification-uninstalled pr p n f d e =
      rw (e, call_filter) (forward_to_all-process_events pr n _ d)
