-- ===== src/Executor.antt =====
-- src/executor/mod.rs: the trait `Executor`, behind which the code of the user's filters runs, and
-- the events that it returns. An implementation is a parameter; it may answer and change its state
-- in any way.
pub mod Pyo3
pub mod Installed
pub mod Conversion
pub mod Encoding
use swarm_host.Prelude.{ℕ, String, Option, List}
use swarm_host.Error.{Result}
use swarm_host.Backend.{NetworkBackend}

pub data ExecutorEvent (T : NetworkBackend) : Type 0 where
  connect : T.PeerId → ExecutorEvent T
  forward : List T.PeerId → T.Protocol → T.Message → ExecutorEvent T
  send_request : T.PeerId → T.Protocol → List ℕ → ExecutorEvent T
  send_response : T.PeerId → List ℕ → ExecutorEvent T

-- Result<Vec<ExecutorEvent<T>>>
abbrev pub Events : NetworkBackend → Type 0
Events T = Result T.foreign (List (ExecutorEvent T))

pub record Executor (T : NetworkBackend) : Type 1 where
  pub State : Type 0
  pub initialize_interface : String → T.NetworkParameters → Result T.foreign T.InterfaceParameters
  pub create : T.InterfaceId → String → Option String → Result T.foreign State
  pub poll : State → Events T × State
  pub register_peer : T.PeerId → State → Events T × State
  pub discover_peer : T.PeerId → State → Events T × State
  pub unregister_peer : T.PeerId → State → Events T × State
  pub protocol_opened : T.PeerId → T.Protocol → State → Events T × State
  pub protocol_closed : T.PeerId → T.Protocol → State → Events T × State
  pub install_notification_filter : T.Protocol → String → State → Result T.foreign Unit × State
  pub install_request_response_filter : T.Protocol → String → State → Result T.foreign Unit × State
  pub inject_notification : T.Protocol → T.PeerId → T.Message → State → Events T × State
  pub inject_request : T.Protocol → T.PeerId → T.Request → State → Events T × State
  pub inject_response : T.Protocol → T.PeerId → T.Response → State → Events T × State
