-- ===== src/Rpc.antt =====
-- src/rpc.rs: the RPC server. A method decodes its parameters, sends the overseer a request over
-- src/types.rs and answers with the result. The decoders (jsonrpsee, SocketAddr, Duration) are a
-- parameter; HTTP and JSON are left out. A call that is sent is taken up by the overseer at once,
-- and the overseer is gone (`none`) once it has panicked.
pub mod Client
pub mod Session
pub mod Created
use swarm_host.Prelude.{ℕ, String, ◌⊎◌, inl, inr, Option, none, some, List, [], ◌∷◌, ◌++◌}
use swarm_host.Error.{ok, err}
use swarm_host.Error.Equality.{Foreigners}
use swarm_host.Error.Display.{display}
use swarm_host.Backend.{NetworkBackend, PacketSink, InterfaceEvent}
use swarm_host.Executor.{Executor}
use swarm_host.Filter.{FilterEvent}
use swarm_host.Graph.{UnGraph}
use swarm_host.Overseer.{Overseer}
use swarm_host.Overseer.Run.{
  OverseerEvent, Reply, created, finished, Input, handle_rpc, handle_input,
}
use swarm_host.Overseer.Run

-- ParamsSequence::next at the types that the methods use: what it decodes, and what is left.
pub record Params (T : NetworkBackend) : Type 1 where
  pub Sequence : Type 0
  pub next_string : Sequence → Option String × Sequence
  pub next_u64 : Sequence → Option ℕ × Sequence
  pub next_interface : Sequence → Option T.InterfaceId × Sequence
  pub next_protocol : Sequence → Option T.Protocol × Sequence
  pub parse_address : String → Option T.foreign.SocketAddr
  pub from_millis : ℕ → T.Duration

pub data Method : Type 0 where
  create_interface : Method
  link_interface : Method
  unlink_interface : Method
  install_notification_filter : Method
  install_request_response_filter : Method

-- What a call is answered with: Ok of an identifier, Ok(()), or Err(Error::Custom(_)).
pub data Answer (T : NetworkBackend) : Type 0 where
  identifier : T.InterfaceId → Answer T
  null : Answer T
  custom : String → Answer T

-- .map_err(|_| Error::Custom(message))?
abbrev pub required {ℓ κ} :
    {A : Type ℓ} {S : Type 0} {B : Type κ}
    → String
    → Option A × S
    → (A → S → String ⊎ B)
    → String ⊎ B
required message (none, s) k = inl message
required message (some a, s) k = k a s

abbrev pub valid {ℓ κ} :
    {A : Type ℓ} {B : Type κ} → String → Option A → (A → String ⊎ B) → String ⊎ B
valid message none k = inl message
valid message (some a) k = k a

module _ {T : NetworkBackend} (P : Params T) where
  unfoldable pub create_params : P.Sequence → String ⊎ OverseerEvent T
  create_params s = required "RPC bind address missing" (P.next_string s) (λ text s.
      valid "Invalid socket address" (P.parse_address text) (λ address.
        required "Filter missing" (P.next_string s) (λ code s.
          required "RPC bind address missing" (P.next_u64 s) (λ interval s.
            inr (Run.create_interface address code (P.from_millis interval) (P.next_string s).0)))))

  unfoldable pub link_params :
      (T.InterfaceId → T.InterfaceId → OverseerEvent T) → P.Sequence → String ⊎ OverseerEvent T
  link_params event s = required "RPC bind address missing" (P.next_interface s) (λ first s.
      required "RPC bind address missing" (P.next_interface s)
        (λ second s. inr (event first second)))

  unfoldable pub filter_params :
      (T.InterfaceId → T.Protocol → String → String → OverseerEvent T)
      → P.Sequence
      → String ⊎ OverseerEvent T
  filter_params event s = required "Interface ID missing" (P.next_interface s) (λ interface s.
      required "Protocol missing" (P.next_protocol s) (λ protocol s.
        required "Filter code missing" (P.next_string s) (λ filter_code s.
          required "Context missing" (P.next_string s)
            (λ context s. inr (event interface protocol filter_code context)))))

  unfoldable pub decode : Method → P.Sequence → String ⊎ OverseerEvent T
  unfolding create_params link_params filter_params
  decode create_interface s = create_params s
  decode link_interface s = link_params Run.link_interface s
  decode unlink_interface s = link_params Run.unlink_interface s
  decode install_notification_filter s = filter_params Run.install_notification_filter s
  decode install_request_response_filter s = filter_params Run.install_request_response_filter s

module _ {T : NetworkBackend} (X : Foreigners T.foreign) where
  unfoldable pub answer : Reply T → Answer T
  answer (created (ok i)) = identifier i
  answer (created (err e)) = custom (display X e)
  answer (finished (ok done)) = null
  answer (finished (err e)) = custom (display X e)

-- A call, or what else the overseer reads.
pub data Step (T : NetworkBackend) (K : PacketSink T) (P : Params T) : Type 0 where
  call : Method → P.Sequence → Step T K P
  network : InterfaceEvent T K → Step T K P
  filter : FilterEvent T → Step T K P

module _ {T : NetworkBackend} {E : Executor T} {K : PacketSink T} {G : UnGraph T.InterfaceId}
    (P : Params T) (X : Foreigners T.foreign) where
  unfoldable pub deliver :
      OverseerEvent T → Option (Overseer T E K G) → Answer T × Option (Overseer T E K G)
  unfolding answer
  deliver event none = (custom "Essential task closed", none)
  deliver event (some o) = let (reply, o') = handle_rpc event o in (answer X reply, some o')

  unfoldable pub respond :
      String ⊎ OverseerEvent T → Option (Overseer T E K G) → Answer T × Option (Overseer T E K G)
  unfolding deliver
  respond (inl message) o = (custom message, o)
  respond (inr event) o = deliver event o

  -- The message that is no call.
  abbrev pub hear : Input T K → Option (Overseer T E K G) → Option (Overseer T E K G)
  hear input none = none
  hear input (some o) = handle_input input o

  -- The answers, the first first.
  unfoldable pub serve :
      List (Step T K P) → Option (Overseer T E K G) → List (Answer T) × Option (Overseer T E K G)
  unfolding respond decode
  serve [] o = ([], o)
  serve (call method s ∷ rest) o =
      let (a, o') = respond (decode P method s) o in
      let (answers, end) = serve rest o' in (a ∷ answers, end)
  serve (network event ∷ rest) o = serve rest (hear (Run.network event) o)
  serve (filter event ∷ rest) o = serve rest (hear (Run.filter event) o)
