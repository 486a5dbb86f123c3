-- ===== src/Rpc/Client.antt =====
-- src/rpc.rs, as a client sees it: the calls of framework/swarm_host/swarm_host.py with the
-- parameters that it writes, and the operations of the overseer that they ask for.
use swarm_host.Prelude.{ℕ, String, ◌≡◌, Option, none, some, List, [], ◌∷◌}
use swarm_host.Error.{Result, ok, err}
use swarm_host.Error.Equality.{Foreigners}
use swarm_host.Error.Display.{display}
use swarm_host.Backend.{NetworkBackend, PacketSink, InterfaceEvent}
use swarm_host.Executor.{Executor}
use swarm_host.Filter.{FilterEvent}
use swarm_host.Graph.{UnGraph}
use swarm_host.Overseer.{Overseer}
use swarm_host.Overseer.Interfaces
use swarm_host.Overseer.Peers
use swarm_host.Overseer.Run
use swarm_host.Overseer.Run.{OverseerEvent, handle_rpc, handle_input}
use swarm_host.Rpc
use swarm_host.Rpc.{
  Params, Method, Answer, identifier, null, custom, Step, call, decode, create_params, link_params,
  filter_params, answer, deliver, respond, serve, hear,
}

-- The parameters of a call, as a client writes them, one after another.
pub record Encoder (T : NetworkBackend) (P : Params T) : Type 0 where
  pub end : P.Sequence
  pub text : String → P.Sequence → P.Sequence
  pub number : ℕ → P.Sequence → P.Sequence
  pub interface : T.InterfaceId → P.Sequence → P.Sequence
  pub protocol : T.Protocol → P.Sequence → P.Sequence
  pub show_address : T.foreign.SocketAddr → String

-- The decoders read back what the client has written, and find nothing at the end.
pub record EncoderLaws {T : NetworkBackend} {P : Params T} (C : Encoder T P) : Type 0 where
  pub next-text : (a : String) (s : P.Sequence) → P.next_string (C.text a s) ≡ (some a, s)
  pub next-number : (n : ℕ) (s : P.Sequence) → P.next_u64 (C.number n s) ≡ (some n, s)
  pub next-interface :
      (i : T.InterfaceId) (s : P.Sequence) → P.next_interface (C.interface i s) ≡ (some i, s)
  pub next-protocol :
      (p : T.Protocol) (s : P.Sequence) → P.next_protocol (C.protocol p s) ≡ (some p, s)
  pub parse-show : (a : T.foreign.SocketAddr) → P.parse_address (C.show_address a) ≡ some a
  pub text_end : P.next_string C.end ≡ (none, C.end)
  pub number_end : P.next_u64 C.end ≡ (none, C.end)
  pub interface_end : P.next_interface C.end ≡ (none, C.end)
  pub protocol_end : P.next_protocol C.end ≡ (none, C.end)

pub data Direction : Type 0 where
  link : Direction
  unlink : Direction

pub data Kind : Type 0 where
  notification : Kind
  request_response : Kind

-- What a client asks for. Without code for `preinit` the parameters end before it.
pub data Request (T : NetworkBackend) : Type 0 where
  create : T.foreign.SocketAddr → String → ℕ → Option String → Request T
  join : Direction → T.InterfaceId → T.InterfaceId → Request T
  install : Kind → T.InterfaceId → T.Protocol → String → String → Request T

-- A call whose parameters end too early, after those that are given.
pub data Cut (T : NetworkBackend) : Type 0 where
  create_0 : Cut T
  create_1 : T.foreign.SocketAddr → Cut T
  create_2 : T.foreign.SocketAddr → String → Cut T
  join_0 : Direction → Cut T
  join_1 : Direction → T.InterfaceId → Cut T
  install_0 : Kind → Cut T
  install_1 : Kind → T.InterfaceId → Cut T
  install_2 : Kind → T.InterfaceId → T.Protocol → Cut T
  install_3 : Kind → T.InterfaceId → T.Protocol → String → Cut T

abbrev pub join_method : Direction → Method
join_method link = Rpc.link_interface
join_method unlink = Rpc.unlink_interface

abbrev pub install_method : Kind → Method
install_method notification = Rpc.install_notification_filter
install_method request_response = Rpc.install_request_response_filter

-- What a client and the network do, in order.
pub data Act (T : NetworkBackend) (K : PacketSink T) : Type 0 where
  ask : Request T → Act T K
  ask_cut : Cut T → Act T K
  network : InterfaceEvent T K → Act T K
  filter : FilterEvent T → Act T K

module _ {T : NetworkBackend} {P : Params T} (C : Encoder T P) where
  abbrev pub preinit_text : Option String → P.Sequence
  preinit_text none = C.end
  preinit_text (some code) = C.text code C.end

  abbrev pub written : Request T → Method × P.Sequence
  written (create a f n pre) =
      (Rpc.create_interface, C.text (C.show_address a) (C.text f (C.number n (preinit_text pre))))
  written (join d i j) = (join_method d, C.interface i (C.interface j C.end))
  written (install k i p f c) =
      (install_method k, C.interface i (C.protocol p (C.text f (C.text c C.end))))

  abbrev pub written_cut : Cut T → Method × P.Sequence
  written_cut create_0 = (Rpc.create_interface, C.end)
  written_cut (create_1 a) = (Rpc.create_interface, C.text (C.show_address a) C.end)
  written_cut (create_2 a f) = (Rpc.create_interface, C.text (C.show_address a) (C.text f C.end))
  written_cut (join_0 d) = (join_method d, C.end)
  written_cut (join_1 d i) = (join_method d, C.interface i C.end)
  written_cut (install_0 k) = (install_method k, C.end)
  written_cut (install_1 k i) = (install_method k, C.interface i C.end)
  written_cut (install_2 k i p) = (install_method k, C.interface i (C.protocol p C.end))
  written_cut (install_3 k i p f) =
      (install_method k, C.interface i (C.protocol p (C.text f C.end)))

  abbrev pub step_of : {K : PacketSink T} → Act T K → Step T K P
  step_of (ask r) = call (written r).0 (written r).1
  step_of (ask_cut q) = call (written_cut q).0 (written_cut q).1
  step_of (network event) = Rpc.network event
  step_of (filter event) = Rpc.filter event

-- The error for the first parameter that is missing.
abbrev pub missing : {T : NetworkBackend} → Cut T → String
missing create_0 = "RPC bind address missing"
missing (create_1 a) = "Filter missing"
missing (create_2 a f) = "RPC bind address missing"
missing (join_0 d) = "RPC bind address missing"
missing (join_1 d i) = "RPC bind address missing"
missing (install_0 k) = "Interface ID missing"
missing (install_1 k i) = "Protocol missing"
missing (install_2 k i p) = "Filter code missing"
missing (install_3 k i p f) = "Context missing"

-- The request that the overseer is sent.
abbrev pub event_of : {T : NetworkBackend} → Params T → Request T → OverseerEvent T
event_of P (create a f n pre) = Run.create_interface a f (P.from_millis n) pre
event_of P (join link i j) = Run.link_interface i j
event_of P (join unlink i j) = Run.unlink_interface i j
event_of P (install notification i p f c) = Run.install_notification_filter i p f c
event_of P (install request_response i p f c) = Run.install_request_response_filter i p f c

module _ (T : NetworkBackend) (X : Foreigners T.foreign) where
  abbrev pub identified : Result T.foreign T.InterfaceId → Answer T
  identified (ok i) = identifier i
  identified (err e) = custom (display X e)

  abbrev pub finished : Result T.foreign Unit → Answer T
  finished (ok done) = null
  finished (err e) = custom (display X e)

module _ {T : NetworkBackend} {E : Executor T} {K : PacketSink T} {G : UnGraph T.InterfaceId}
    (P : Params T) (X : Foreigners T.foreign) where
  -- The operation of the overseer that a request is for, and the answer to its result.
  abbrev pub perform : Request T → Overseer T E K G → Answer T × Overseer T E K G
  perform (create a f n pre) o =
      let (r, o') = Interfaces.create_interface a f (P.from_millis n) pre o in
      (identified T X r, o')
  perform (join link i j) o = let (r, o') = Interfaces.link_interfaces i j o in (finished T X r, o')
  perform (join unlink i j) o =
      let (r, o') = Interfaces.unlink_interfaces i j o in (finished T X r, o')
  perform (install notification i p f c) o =
      let (r, o') = Peers.install_notification_filter i p f c o in (finished T X r, o')
  perform (install request_response i p f c) o =
      let (r, o') = Peers.install_request_response_filter i p f c o in (finished T X r, o')

  abbrev pub perform_on :
      Request T → Option (Overseer T E K G) → Answer T × Option (Overseer T E K G)
  perform_on r none = (custom "Essential task closed", none)
  perform_on r (some o) = let (a, o') = perform r o in (a, some o')

  -- The answers of a session, and what is left of the overseer.
  abbrev pub play :
      List (Act T K) → Option (Overseer T E K G) → List (Answer T) × Option (Overseer T E K G)
  play [] o = ([], o)
  play (ask r ∷ rest) o =
      let (a, o') = perform_on r o in let (answers, end) = play rest o' in (a ∷ answers, end)
  play (ask_cut q ∷ rest) o =
      let (answers, end) = play rest o in (custom (missing q) ∷ answers, end)
  play (network event ∷ rest) o = play rest (hear P X (Run.network event) o)
  play (filter event ∷ rest) o = play rest (hear P X (Run.filter event) o)
