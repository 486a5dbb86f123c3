-- ===== src/Heuristics/Handle.antt =====
-- src/heuristics/mod.rs: the handle through which the other parts report events. The unbounded
-- channel is the list of the events sent so far; its receiver never goes away.
use swarm_host.Prelude.{List, [], ◌∷◌, ◌++◌}
use swarm_host.Backend.{NetworkBackend}
use swarm_host.Heuristics.{HeuristicsEvent}
use swarm_host.Heuristics

abbrev pub HeuristicsHandle : NetworkBackend → Type 0
HeuristicsHandle T = List (HeuristicsEvent T)

module _ {T : NetworkBackend} where
  unfoldable pub link_interfaces :
      T.InterfaceId → T.InterfaceId → HeuristicsHandle T → HeuristicsHandle T
  link_interfaces first second tx = tx ++ Heuristics.link_interfaces first second ∷ []

  unfoldable pub register_peer : T.InterfaceId → T.PeerId → HeuristicsHandle T → HeuristicsHandle T
  register_peer interface peer tx = tx ++ Heuristics.register_peer interface peer ∷ []

  unfoldable pub unregister_peer :
      T.InterfaceId → T.PeerId → HeuristicsHandle T → HeuristicsHandle T
  unregister_peer interface peer tx = tx ++ Heuristics.unregister_peer interface peer ∷ []

  unfoldable pub register_protocol_opened :
      T.InterfaceId → T.PeerId → T.Protocol → HeuristicsHandle T → HeuristicsHandle T
  register_protocol_opened interface peer protocol tx =
      tx ++ Heuristics.open_protocol interface peer protocol ∷ []

  unfoldable pub register_protocol_closed :
      T.InterfaceId → T.PeerId → T.Protocol → HeuristicsHandle T → HeuristicsHandle T
  register_protocol_closed interface peer protocol tx =
      tx ++ Heuristics.close_protocol interface peer protocol ∷ []

  unfoldable pub register_notification_received :
      T.InterfaceId → T.Protocol → T.PeerId → T.Message → HeuristicsHandle T → HeuristicsHandle T
  register_notification_received interface protocol peer n tx =
      tx
      ++ Heuristics.message_received interface protocol peer (T.message_hash n) (T.message_size n)
        ∷ []

  unfoldable pub register_notification_sent :
      T.InterfaceId
      → T.Protocol
      → List T.PeerId
      → T.Message
      → HeuristicsHandle T
      → HeuristicsHandle T
  register_notification_sent interface protocol peers n tx =
      tx
      ++ Heuristics.message_sent interface protocol peers (T.message_hash n) (T.message_size n) ∷ []

  unfoldable pub register_request_received :
      T.InterfaceId → T.Protocol → T.PeerId → T.Request → HeuristicsHandle T → HeuristicsHandle T
  register_request_received interface protocol peer r tx =
      tx
      ++ Heuristics.message_received interface protocol peer (T.request_hash r) (T.request_size r)
        ∷ []

  unfoldable pub register_response_received :
      T.InterfaceId → T.Protocol → T.PeerId → T.Response → HeuristicsHandle T → HeuristicsHandle T
  register_response_received interface protocol peer r tx =
      tx
      ++ Heuristics.message_received interface protocol peer (T.response_hash r) (T.response_size r)
        ∷ []
