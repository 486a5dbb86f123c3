-- ===== src/Filter/Commands.antt =====
-- src/filter/mod.rs: the commands that a filter handles. A method returns its result and the
-- filter as it leaves it, also when `?` ends it early.
use swarm_host.Prelude.{String, none, some, []}
use swarm_host.Map.{get, insert, remove, add}
use swarm_host.Error.{Result, ok, err, peer_already_exists, peer_doesnt_exist}
use swarm_host.Error.{ExecutorError, executor_error}
use swarm_host.Backend.{NetworkBackend, PacketSink}
use swarm_host.Executor.{Executor, Events}
use swarm_host.Heuristics.Handle.{
  register_notification_received, register_request_received, register_response_received,
}
use swarm_host.Filter
use swarm_host.Filter.{Filter, FilterCommand, PeerInfo}
use swarm_host.Filter.Process.{process_events}
use swarm_host.Filter.Broadcast.{broadcast}

module _ {T : NetworkBackend} {E : Executor T} {K : PacketSink T} where
  -- let events = self.executor.…?; self.process_events(events).await
  unfoldable pub with_events :
      Events T × E.State → Filter T E K → Result T.foreign Unit × Filter T E K
  with_events (ok events, x) f = process_events events (record f { executor = x })
  with_events (err e, x) f = (err e, record f { executor = x })

  unfoldable pub poll_filter : Filter T E K → Result T.foreign Unit × Filter T E K
  poll_filter f = with_events (E.poll f.executor) f

  -- The peer enters the map only if the executor accepts it.
  unfoldable pub register_accepted :
      T.PeerId → K.Sink → Events T × E.State → Filter T E K → Result T.foreign Unit × Filter T E K
  register_accepted peer sink (ok events, x) f = process_events events (record f {
    executor = x;
    peers = insert T.peer_eq peer (record { sink = sink; protocols = [] }) f.peers;
  })
  register_accepted peer sink (err e, x) f = (err e, record f { executor = x })

  unfoldable pub register_peer :
      T.PeerId → K.Sink → Filter T E K → Result T.foreign Unit × Filter T E K
  unfolding register_accepted
  register_peer peer sink f = elim (get T.peer_eq peer f.peers) [
    | some info ↦ (err peer_already_exists, f)
    | none ↦ register_accepted peer sink (E.register_peer peer f.executor) f
  ]

  unfoldable pub discover_peer : T.PeerId → Filter T E K → Result T.foreign Unit × Filter T E K
  discover_peer peer f = with_events (E.discover_peer peer f.executor) f

  unfoldable pub unregister_peer : T.PeerId → Filter T E K → Result T.foreign Unit × Filter T E K
  unregister_peer peer f = elim (get T.peer_eq peer f.peers) [
    | none ↦ (err peer_doesnt_exist, f)
    | some info ↦
        with_events (E.unregister_peer peer f.executor)
          (record f { peers = remove T.peer_eq peer f.peers })
  ]

  -- info.protocols.insert(protocol)
  unfoldable pub insert_protocol :
      T.PeerId → PeerInfo T K → T.Protocol → Filter T E K → Filter T E K
  insert_protocol peer info protocol f = record f {
    peers =
        insert T.peer_eq peer
          (record info { protocols = add T.protocol_eq protocol info.protocols }) f.peers;
  }

  unfoldable pub protocol_opened :
      T.PeerId → T.Protocol → Filter T E K → Result T.foreign Unit × Filter T E K
  unfolding insert_protocol
  protocol_opened peer protocol f = elim (get T.peer_eq peer f.peers) [
    | none ↦ (err peer_doesnt_exist, f)
    | some info ↦
        with_events (E.protocol_opened peer protocol f.executor)
          (insert_protocol peer info protocol f)
  ]

  -- The source inserts the protocol here too.
  unfoldable pub protocol_closed :
      T.PeerId → T.Protocol → Filter T E K → Result T.foreign Unit × Filter T E K
  unfolding insert_protocol
  protocol_closed peer protocol f = elim (get T.peer_eq peer f.peers) [
    | none ↦ (err peer_doesnt_exist, f)
    | some info ↦
        with_events (E.protocol_closed peer protocol f.executor)
          (insert_protocol peer info protocol f)
  ]

  unfoldable pub install_notification_filter :
      T.Protocol → String → Filter T E K → Result T.foreign Unit × Filter T E K
  install_notification_filter protocol filter f =
      let (r, x) = E.install_notification_filter protocol filter f.executor in
      (r, record f { executor = x })

  unfoldable pub install_request_response_filter :
      T.Protocol → String → Filter T E K → Result T.foreign Unit × Filter T E K
  install_request_response_filter protocol filter f =
      let (r, x) = E.install_request_response_filter protocol filter f.executor in
      (r, record f { executor = x })

  unfoldable pub forward_to_all : T.Protocol → T.Message → Filter T E K → Filter T E K
  forward_to_all protocol n f =
      let (peers, tx) = broadcast f.interface protocol n f.peers f.heuristics_handle in
      record f { peers = peers; heuristics_handle = tx }

  unfoldable pub notified :
      T.Protocol
      → T.Message
      → Events T × E.State
      → Filter T E K
      → Result T.foreign Unit × Filter T E K
  unfolding forward_to_all
  notified protocol n (ok events, x) f = process_events events (record f { executor = x })
  notified protocol n (err (executor_error ExecutorError.filter_doesnt_exist), x) f =
      (ok tt, forward_to_all protocol n (record f { executor = x }))
  notified protocol n (err e, x) f = (err e, record f { executor = x })

  unfoldable pub inject_notification :
      T.Protocol → T.PeerId → T.Message → Filter T E K → Result T.foreign Unit × Filter T E K
  unfolding notified
  inject_notification protocol peer n f =
      notified protocol n (E.inject_notification protocol peer n f.executor) (record f {
        heuristics_handle =
            register_notification_received f.interface protocol peer n f.heuristics_handle;
      })

  unfoldable pub inject_request :
      T.Protocol → T.PeerId → T.Request → Filter T E K → Result T.foreign Unit × Filter T E K
  inject_request protocol peer r f =
      with_events (E.inject_request protocol peer r f.executor) (record f {
        pending_inbound = insert T.peer_eq peer (T.request_id r) f.pending_inbound;
        heuristics_handle =
            register_request_received f.interface protocol peer r f.heuristics_handle;
      })

  unfoldable pub inject_response :
      T.Protocol → T.PeerId → T.Response → Filter T E K → Result T.foreign Unit × Filter T E K
  inject_response protocol peer r f =
      with_events (E.inject_response protocol peer r f.executor) (record f {
        heuristics_handle =
            register_response_received f.interface protocol peer r f.heuristics_handle;
      })

  unfoldable pub handle_command :
      FilterCommand T K → Filter T E K → Result T.foreign Unit × Filter T E K
  handle_command (Filter.register_peer peer sink) f = register_peer peer sink f
  handle_command (Filter.discover_peer peer) f = discover_peer peer f
  handle_command (Filter.unregister_peer peer) f = unregister_peer peer f
  handle_command (Filter.protocol_opened peer protocol) f = protocol_opened peer protocol f
  handle_command (Filter.protocol_closed peer protocol) f = protocol_closed peer protocol f
  handle_command (Filter.install_notification_filter protocol filter context) f =
      install_notification_filter protocol filter f
  handle_command (Filter.install_request_response_filter protocol filter context) f =
      install_request_response_filter protocol filter f
  handle_command (Filter.inject_notification protocol peer n) f =
      inject_notification protocol peer n f
  handle_command (Filter.inject_request protocol peer r) f = inject_request protocol peer r f
  handle_command (Filter.inject_response protocol peer r) f = inject_response protocol peer r f
