-- ===== src/Filter/Broadcast.antt =====
-- src/filter/mod.rs: the loop over all the peers in `inject_notification`, which stands in for a
-- filter that is not installed.
use swarm_host.Prelude.{some, [], ◌∷◌}
use swarm_host.Map.{HashMap}
use swarm_host.Error.{Result, ok, err}
use swarm_host.Backend.{NetworkBackend, PacketSink}
use swarm_host.Heuristics.Handle.{HeuristicsHandle, register_notification_sent}
use swarm_host.Filter.{PeerInfo}

module _ {T : NetworkBackend} where
  unfoldable pub broadcast_report :
      T.InterfaceId
      → T.Protocol
      → T.PeerId
      → T.Message
      → Result T.foreign Unit
      → HeuristicsHandle T
      → HeuristicsHandle T
  broadcast_report interface protocol peer n (ok done) tx =
      register_notification_sent interface protocol (peer ∷ []) n tx
  broadcast_report interface protocol peer n (err e) tx = tx

module _ {T : NetworkBackend} {K : PacketSink T} where
  unfoldable pub broadcast :
      T.InterfaceId
      → T.Protocol
      → T.Message
      → HashMap T.PeerId (PeerInfo T K)
      → HeuristicsHandle T
      → HashMap T.PeerId (PeerInfo T K) × HeuristicsHandle T
  unfolding broadcast_report
  broadcast interface protocol n [] tx = ([], tx)
  broadcast interface protocol n ((peer, info) ∷ peers) tx =
      let (sent, sink) = K.send_packet (some protocol) n info.sink in
      let (rest, tx') =
        broadcast interface protocol n peers (broadcast_report interface protocol peer n sent tx) in
      ((peer, record info { sink = sink }) ∷ rest, tx')
