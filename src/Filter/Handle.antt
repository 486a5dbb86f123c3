-- ===== src/Filter/Handle.antt =====
-- src/filter/mod.rs: the handle by which the overseer commands a filter. The channel is the list
-- of the commands sent so far; the filter task, its receiver, never ends.
use swarm_host.Prelude.{String, Option, List, [], ◌∷◌, ◌++◌}
use swarm_host.Backend.{NetworkBackend, PacketSink}
use swarm_host.Filter
use swarm_host.Filter.{FilterCommand}

pub record FilterHandle (T : NetworkBackend) (K : PacketSink T) : Type 0 where
  pub tx : List (FilterCommand T K)

module _ {T : NetworkBackend} {K : PacketSink T} where
  -- self.tx.send(command)
  unfoldable pub send : FilterCommand T K → FilterHandle T K → FilterHandle T K
  send command handle = record { tx = handle.tx ++ command ∷ [] }

  abbrev pub register_peer : T.PeerId → K.Sink → FilterHandle T K → FilterHandle T K
  register_peer peer sink = send (Filter.register_peer peer sink)

  abbrev pub discover_peer : T.PeerId → FilterHandle T K → FilterHandle T K
  discover_peer peer = send (Filter.discover_peer peer)

  abbrev pub unregister_peer : T.PeerId → FilterHandle T K → FilterHandle T K
  unregister_peer peer = send (Filter.unregister_peer peer)

  abbrev pub protocol_opened : T.PeerId → T.Protocol → FilterHandle T K → FilterHandle T K
  protocol_opened peer protocol = send (Filter.protocol_opened peer protocol)

  abbrev pub protocol_closed : T.PeerId → T.Protocol → FilterHandle T K → FilterHandle T K
  protocol_closed peer protocol = send (Filter.protocol_closed peer protocol)

  abbrev pub install_notification_filter :
      T.Protocol → String → Option String → FilterHandle T K → FilterHandle T K
  install_notification_filter protocol filter context =
      send (Filter.install_notification_filter protocol filter context)

  abbrev pub install_request_response_filter :
      T.Protocol → String → Option String → FilterHandle T K → FilterHandle T K
  install_request_response_filter protocol filter context =
      send (Filter.install_request_response_filter protocol filter context)

  abbrev pub inject_notification :
      T.Protocol → T.PeerId → T.Message → FilterHandle T K → FilterHandle T K
  inject_notification protocol peer notification =
      send (Filter.inject_notification protocol peer notification)

  abbrev pub inject_request :
      T.Protocol → T.PeerId → T.Request → FilterHandle T K → FilterHandle T K
  inject_request protocol peer request = send (Filter.inject_request protocol peer request)

  abbrev pub inject_response :
      T.Protocol → T.PeerId → T.Response → FilterHandle T K → FilterHandle T K
  inject_response protocol peer response = send (Filter.inject_response protocol peer response)
