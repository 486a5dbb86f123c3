-- ===== src/Filter/Membership.antt =====
-- src/filter/mod.rs: the peers of a filter as an abstract table, and what each command does to it.
use mathlib.Core.Option
use swarm_host.Prelude.{
  ◌≡◌, refl, ◌∙◌, ite, inl, inr, Bool, true, false, if◌then◌else◌, Option, none, some, List, [],
  arith, Option-cases,
}
use swarm_host.Map.{HashSet, get, insert, remove, add}
use swarm_host.Map.Laws.{get-insert, get-remove}
use swarm_host.Error.{Foreign, Result, ok, err, executor_error, ExecutorError}
use swarm_host.Backend.{NetworkBackend, PacketSink}
use swarm_host.Executor.{Executor, Events}
use swarm_host.Filter
use swarm_host.Filter.{Filter, FilterCommand}
use swarm_host.Filter.Members.{
  protocols_in, protocols_of, broadcast-protocols, process_events-protocols, with_events-protocols,
}
use swarm_host.Filter.Commands.{
  register_accepted, register_peer, unregister_peer, insert_protocol, protocol_opened,
  protocol_closed, forward_to_all, notified, inject_notification, inject_request, inject_response,
  handle_command, discover_peer, install_notification_filter, install_request_response_filter,
}

-- Whether the executor accepted.
abbrev pub is_ok : {F : Foreign} {A : Type 0} → Result F A → Bool
is_ok (ok a) = true
is_ok (err e) = false

-- A peer that is already known is kept as it is.
abbrev admit {ℓ} : {A : Type ℓ} → Bool → Option (List A) → Option (List A)
admit accepted (some ps) = some ps
admit accepted none = if accepted then some [] else none

module _ {T : NetworkBackend} {K : PacketSink T} where
  -- The entry of `p` in the table after a command. Only a registration asks the executor first; a
  -- protocol is added when it is opened and also when it is closed.
  unfoldable pub entry_after :
      T.PeerId
      → FilterCommand T K
      → (T.PeerId → Bool)
      → Option (HashSet T.Protocol)
      → Option (HashSet T.Protocol)
  entry_after p (Filter.register_peer q sink) accepts o =
      ite (T.peer_eq q p) (admit (accepts q) o) o
  entry_after p (Filter.unregister_peer q) accepts o = ite (T.peer_eq q p) none o
  entry_after p (Filter.protocol_opened q pr) accepts o =
      ite (T.peer_eq q p) (Option.map (add T.protocol_eq pr) o) o
  entry_after p (Filter.protocol_closed q pr) accepts o =
      ite (T.peer_eq q p) (Option.map (add T.protocol_eq pr) o) o
  entry_after p (Filter.discover_peer q) accepts o = o
  entry_after p (Filter.install_notification_filter pr filter context) accepts o = o
  entry_after p (Filter.install_request_response_filter pr filter context) accepts o = o
  entry_after p (Filter.inject_notification pr q n) accepts o = o
  entry_after p (Filter.inject_request pr q r) accepts o = o
  entry_after p (Filter.inject_response pr q r) accepts o = o

module _ {T : NetworkBackend} {E : Executor T} {K : PacketSink T} where
  abbrev pub accepts : Filter T E K → T.PeerId → Bool
  accepts f q = is_ok (E.register_peer q f.executor).0

  module _ (p : T.PeerId) where
    register_accepted-protocols :
        (q : T.PeerId) (sink : K.Sink) (r : Events T) (x : E.State) (f : Filter T E K)
        → get T.peer_eq q f.peers ≡ none
        → protocols_of p (register_accepted q sink (r, x) f).1
          ≡ ite (T.peer_eq q p) (admit (is_ok r) (protocols_of p f)) (protocols_of p f)
    unfolding register_accepted protocols_in
    register_accepted-protocols q sink (ok es) x f e = ground (
      arith,
      get-insert T.peer_eq q p (record { sink = sink; protocols = [] }) f.peers,
      process_events-protocols p es (record f {
        executor = x;
        peers = insert T.peer_eq q (record { sink = sink; protocols = [] }) f.peers;
      }),
    )
    register_accepted-protocols q sink (err y) x f e = ground arith

    register_peer-protocols :
        (q : T.PeerId) (sink : K.Sink) (f : Filter T E K)
        → protocols_of p (register_peer q sink f).1
          ≡ ite (T.peer_eq q p) (admit (accepts f q) (protocols_of p f)) (protocols_of p f)
    unfolding register_peer protocols_in
    register_peer-protocols q sink f = elim (Option-cases (get T.peer_eq q f.peers)) [
      | inl e ↦
          rw (e, register_peer)
            (register_accepted-protocols q sink (E.register_peer q f.executor).0
              (E.register_peer q f.executor).1 f e)
      | inr (info, e) ↦ rw (e, register_peer) (ground arith)
    ]

    unregister_peer-protocols :
        (q : T.PeerId) (f : Filter T E K)
        → protocols_of p (unregister_peer q f).1 ≡ ite (T.peer_eq q p) none (protocols_of p f)
    unfolding unregister_peer protocols_in
    unregister_peer-protocols q f = ground (
      arith,
      get-remove T.peer_eq q p f.peers,
      with_events-protocols p (E.unregister_peer q f.executor).0 (E.unregister_peer q f.executor).1
          (record f { peers = remove T.peer_eq q f.peers }),
    )

    insert_protocol-protocols :
        (q : T.PeerId) (info : Filter.PeerInfo T K) (pr : T.Protocol) (f : Filter T E K)
        → get T.peer_eq q f.peers ≡ some info
        → protocols_of p (insert_protocol q info pr f)
          ≡ ite
              (T.peer_eq q p)
              (Option.map (add T.protocol_eq pr) (protocols_of p f))
              (protocols_of p f)
    unfolding insert_protocol protocols_in
    insert_protocol-protocols q info pr f e = ground (
      arith,
      get-insert T.peer_eq q p
          (record { sink = info.sink; protocols = add T.protocol_eq pr info.protocols }) f.peers,
    )

    -- An unknown `q` is not `p`, or `p` is unknown too.
    unknown-protocols :
        (q : T.PeerId) (pr : T.Protocol) (f : Filter T E K)
        → get T.peer_eq q f.peers ≡ none
        → protocols_of p f
          ≡ ite
              (T.peer_eq q p)
              (Option.map (add T.protocol_eq pr) (protocols_of p f))
              (protocols_of p f)
    unfolding protocols_in
    unknown-protocols q pr f e = ground arith

    protocol_opened-protocols :
        (q : T.PeerId) (pr : T.Protocol) (f : Filter T E K)
        → protocols_of p (protocol_opened q pr f).1
          ≡ ite
              (T.peer_eq q p)
              (Option.map (add T.protocol_eq pr) (protocols_of p f))
              (protocols_of p f)
    unfolding protocol_opened
    protocol_opened-protocols q pr f = elim (Option-cases (get T.peer_eq q f.peers)) [
      | inl e ↦ rw (e, protocol_opened) (unknown-protocols q pr f e)
      | inr (info, e) ↦
          rw (e, protocol_opened)
            (with_events-protocols p _ _ (insert_protocol q info pr f)
              ∙ insert_protocol-protocols q info pr f e)
    ]

    protocol_closed-protocols :
        (q : T.PeerId) (pr : T.Protocol) (f : Filter T E K)
        → protocols_of p (protocol_closed q pr f).1
          ≡ ite
              (T.peer_eq q p)
              (Option.map (add T.protocol_eq pr) (protocols_of p f))
              (protocols_of p f)
    unfolding protocol_closed
    protocol_closed-protocols q pr f = elim (Option-cases (get T.peer_eq q f.peers)) [
      | inl e ↦ rw (e, protocol_closed) (unknown-protocols q pr f e)
      | inr (info, e) ↦
          rw (e, protocol_closed)
            (with_events-protocols p _ _ (insert_protocol q info pr f)
              ∙ insert_protocol-protocols q info pr f e)
    ]

    notified-protocols :
        (pr : T.Protocol) (n : T.Message) (r : Events T) (x : E.State) (f : Filter T E K)
        → protocols_of p (notified pr n (r, x) f).1 ≡ protocols_of p f
    unfolding notified forward_to_all
    notified-protocols pr n (ok es) x f = process_events-protocols p es (record f { executor = x })
    notified-protocols pr n (err (executor_error ExecutorError.filter_doesnt_exist)) x f =
        broadcast-protocols p f.interface pr n f.peers f.heuristics_handle
    notified-protocols pr n (err e) x f = refl

    -- What the filter knows of any peer after a command, as a function of the command, of what it
    -- knew, and of whether its executor accepts a registration; on every branch, errors included.
    pub handle_command-protocols :
        (c : FilterCommand T K) (f : Filter T E K)
        → protocols_of p (handle_command c f).1 ≡ entry_after p c (accepts f) (protocols_of p f)
    unfolding handle_command entry_after inject_notification inject_request inject_response
        discover_peer install_notification_filter install_request_response_filter
    handle_command-protocols (Filter.register_peer q sink) f = register_peer-protocols q sink f
    handle_command-protocols (Filter.unregister_peer q) f = unregister_peer-protocols q f
    handle_command-protocols (Filter.protocol_opened q pr) f = protocol_opened-protocols q pr f
    handle_command-protocols (Filter.protocol_closed q pr) f = protocol_closed-protocols q pr f
    handle_command-protocols (Filter.discover_peer q) f = with_events-protocols p _ _ f
    handle_command-protocols (Filter.install_notification_filter pr filter context) f = refl
    handle_command-protocols (Filter.install_request_response_filter pr filter context) f = refl
    handle_command-protocols (Filter.inject_notification pr q n) f = notified-protocols pr n _ _ _
    handle_command-protocols (Filter.inject_request pr q r) f = with_events-protocols p _ _ _
    handle_command-protocols (Filter.inject_response pr q r) f = with_events-protocols p _ _ _
