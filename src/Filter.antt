-- ===== src/Filter.antt =====
-- src/filter/mod.rs: the filter of one interface. It keeps the connected peers and the requests
-- that wait for a response, asks the executor what to do with each command of the overseer, and
-- carries out the events that the executor returns.
pub mod Handle
pub mod Process
pub mod Broadcast
pub mod Commands
pub mod Delivery
pub mod Members
pub mod Membership
pub mod Run
pub mod Sessions
pub mod Requests
pub mod Absent
use swarm_host.Prelude.{String, Option, List}
use swarm_host.Map.{HashMap, HashSet}
use swarm_host.Backend.{NetworkBackend, PacketSink}
use swarm_host.Executor.{Executor}
use swarm_host.Heuristics.Handle.{HeuristicsHandle}

pub data FilterEvent (T : NetworkBackend) : Type 0 where
  connect : T.InterfaceId → T.PeerId → FilterEvent T

pub data FilterCommand (T : NetworkBackend) (K : PacketSink T) : Type 0 where
  register_peer : T.PeerId → K.Sink → FilterCommand T K
  discover_peer : T.PeerId → FilterCommand T K
  unregister_peer : T.PeerId → FilterCommand T K
  protocol_opened : T.PeerId → T.Protocol → FilterCommand T K
  protocol_closed : T.PeerId → T.Protocol → FilterCommand T K
  install_notification_filter : T.Protocol → String → Option String → FilterCommand T K
  install_request_response_filter : T.Protocol → String → Option String → FilterCommand T K
  inject_notification : T.Protocol → T.PeerId → T.Message → FilterCommand T K
  inject_request : T.Protocol → T.PeerId → T.Request → FilterCommand T K
  inject_response : T.Protocol → T.PeerId → T.Response → FilterCommand T K

pub record PeerInfo (T : NetworkBackend) (K : PacketSink T) : Type 0 where
  pub sink : K.Sink
  pub protocols : HashSet T.Protocol

-- `event_tx` and `heuristics_handle` are what has been sent so far; the commands are the argument
-- of `handle_command`.
pub record Filter (T : NetworkBackend) (E : Executor T) (K : PacketSink T) : Type 0 where
  pub executor : E.State
  pub interface : T.InterfaceId
  pub event_tx : List (FilterEvent T)
  pub peers : HashMap T.PeerId (PeerInfo T K)
  pub pending_inbound : HashMap T.PeerId T.RequestId
  pub pending_outbound : List (T.RequestId × T.RequestId)
  pub heuristics_handle : HeuristicsHandle T
  pub poll_interval : T.Duration
