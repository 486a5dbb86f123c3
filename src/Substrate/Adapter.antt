-- ===== src/Substrate/Adapter.antt =====
-- src/backend/substrate/mod.rs: the backend, its interfaces and its packet sinks, and the task that
-- turns the events of the network into events of an interface. The newtypes around the types of the
-- library (PeerId, ProtocolName, Message) are left out. What SubstrateNetwork::new returns, and the
-- identifiers that the network task sends back over a channel, are parameters of `Host`.
use swarm_host.Prelude.{
  ℕ, ◌+◌, ◌%◌, ◌^◌, Option, none, some, List, [], ◌∷◌, ◌++◌, length, ℕ_discrete, ◌⊎◌, inl, inr,
}
use swarm_host.Error.{Foreign, Result, ok, err, substrate, custom}
use swarm_host.Backend.{NetworkBackend, PacketSink, InterfaceEvent}
use swarm_host.Backend
use swarm_host.Substrate.{Library}
use swarm_host.Substrate.Network.{SubstrateNetworkEvent, Command}
use swarm_host.Substrate.Network

-- What the backend stands on.
pub record Host : Type 1 where
  pub library : Library
  pub foreign : Foreign
  pub Duration : Type 0
  -- SubstrateNetwork::new: for the interface, the genesis hash and the handshake
  pub start : ℕ → List ℕ → Option (List ℕ) → foreign.SubstrateError ⊎ library.PeerId
  -- rx.await: what the network task hands back for the last of the commands of a sink. The task takes
  -- it from a counter that all sinks share (Substrate.Handlers.next_request_id), which a sink cannot
  -- see; here it may be any function of the commands of the sink.
  pub request_id : List (Command library) → ℕ

pub record SubstrateRequest : Type 0 where
  pub id : ℕ
  pub payload : List ℕ

pub record SubstrateResponse : Type 0 where
  pub id : ℕ
  pub payload : List ℕ

pub record SubstrateParameters : Type 0 where
  pub genesis_hash : List ℕ

pub record InterfaceParameters : Type 0 where
  pub handshake : List ℕ

pub record SubstrateBackend : Type 0 where
  pub next_iface_id : ℕ
  pub genesis_hash : List ℕ

-- `peerset` are the peers that the peer set was told to connect to.
pub record InterfaceHandle (L : Library) : Type 0 where
  pub interface_id : ℕ
  pub peer_id : L.PeerId
  pub command_tx : List (Command L)
  pub peerset : List L.PeerId

pub record SubstratePacketSink (L : Library) : Type 0 where
  pub peer : L.PeerId
  pub tx : List (Command L)

-- SubstrateBackend::new
unfoldable pub create : SubstrateParameters → SubstrateBackend
create parameters = record { next_iface_id = 0; genesis_hash = parameters.genesis_hash }

unfoldable pub next_interface_id : SubstrateBackend → ℕ × SubstrateBackend
next_interface_id b = (b.next_iface_id, record b { next_iface_id = (b.next_iface_id + 1) % 2 ^ 64 })

module _ {L : Library} where
  -- SubstratePacketSink::new; cmd_tx is shared, and a sink keeps what was sent through it.
  abbrev pub new_sink : L.PeerId → SubstratePacketSink L
  new_sink peer = record { peer = peer; tx = [] }

  -- Interface::connect and Interface::disconnect
  unfoldable pub connect :
      {F : Foreign} → L.PeerId → InterfaceHandle L → Result F Unit × InterfaceHandle L
  connect peer h = (ok tt, record h { peerset = h.peerset ++ peer ∷ [] })

  unfoldable pub disconnect :
      {F : Foreign} → L.PeerId → InterfaceHandle L → Result F Unit × InterfaceHandle L
  disconnect peer h =
      (ok tt, record h { command_tx = h.command_tx ++ Command.disconnect peer ∷ [] })

  -- `none` is the panic at `expect`, without a protocol.
  unfoldable pub send_packet :
      {F : Foreign}
      → Option L.ProtocolName
      → List ℕ
      → SubstratePacketSink L
      → Option (Result F Unit × SubstratePacketSink L)
  send_packet none message s = none
  send_packet (some protocol) message s =
      some (ok tt, record s { tx = s.tx ++ Command.send_notification s.peer protocol message ∷ [] })

  unfoldable pub send_request :
      {F : Foreign}
      → (List (Command L) → ℕ)
      → L.ProtocolName
      → List ℕ
      → SubstratePacketSink L
      → Result F ℕ × SubstratePacketSink L
  send_request request_id protocol payload s =
      let tx = s.tx ++ Command.send_request s.peer protocol payload ∷ [] in
      (ok (request_id tx), record s { tx = tx })

  unfoldable pub send_response :
      {F : Foreign} → ℕ → List ℕ → SubstratePacketSink L → Result F Unit × SubstratePacketSink L
  send_response request_id payload s =
      (ok tt, record s { tx = s.tx ++ Command.send_response s.peer request_id payload ∷ [] })

-- The rest of InterfaceHandle::new, once the network is built; the stream of the events is named by
-- the interface.
unfoldable pub started :
    {F : Foreign} {L : Library} → ℕ → F.SubstrateError ⊎ L.PeerId → Result F (InterfaceHandle L × ℕ)
started id (inl e) = err (substrate e)
started id (inr peer) =
    ok (record { interface_id = id; peer_id = peer; command_tx = []; peerset = [] }, id)

abbrev pub handshake_of : Option InterfaceParameters → Option (List ℕ)
handshake_of none = none
handshake_of (some parameters) = some parameters.handshake

module _ (H : Host) where
  open H use {library, foreign}

  -- InterfaceHandle::new
  unfoldable pub new_handle :
      ℕ → List ℕ → Option InterfaceParameters → Result foreign (InterfaceHandle library × ℕ)
  unfolding started
  new_handle id genesis_hash parameters =
      started id (H.start id genesis_hash (handshake_of parameters))

  unfoldable pub spawn_interface :
      foreign.SocketAddr
      → Option InterfaceParameters
      → SubstrateBackend
      → Result foreign (InterfaceHandle library × ℕ) × SubstrateBackend
  unfolding new_handle next_interface_id
  spawn_interface address parameters b =
      let (id, b') = next_interface_id b in (new_handle id b'.genesis_hash parameters, b')

  -- impl NetworkBackend for SubstrateBackend, with Interface, Idable and WithMessageInfo
  abbrev pub substrate_backend : NetworkBackend
  substrate_backend = record {
    foreign = foreign;
    Duration = H.Duration;
    EventStream = ℕ;
    PeerId = library.PeerId;
    InterfaceId = ℕ;
    RequestId = ℕ;
    Protocol = library.ProtocolName;
    Message = List ℕ;
    Request = SubstrateRequest;
    Response = SubstrateResponse;
    InterfaceHandle = InterfaceHandle library;
    NetworkParameters = SubstrateParameters;
    InterfaceParameters = InterfaceParameters;
    State = SubstrateBackend;
    peer_eq = library.peer_eq;
    interface_eq = ℕ_discrete;
    protocol_eq = library.protocol_eq;
    message_hash = library.hash;
    message_size = length;
    request_hash = λ r. library.hash r.payload;
    request_size = λ r. length r.payload;
    request_id = λ r. r.id;
    response_hash = λ r. library.hash r.payload;
    response_size = λ r. length r.payload;
    interface_id = λ h. h.interface_id;
    peer_id = λ h. h.peer_id;
    connect = connect;
    create = create;
    spawn_interface = spawn_interface;
  }

  -- A call that panics has no result, and stands here as an error; the filters make no such call.
  abbrev pub or_panic :
      Option (Result foreign Unit × SubstratePacketSink library)
      → SubstratePacketSink library
      → Result foreign Unit × SubstratePacketSink library
  or_panic none s = (err (custom "protocol to exist"), s)
  or_panic (some r) s = r

  -- impl PacketSink<SubstrateBackend> for SubstratePacketSink
  abbrev pub substrate_sink : PacketSink substrate_backend
  substrate_sink = record {
    Sink = SubstratePacketSink library;
    send_packet = λ protocol message s. or_panic (send_packet protocol message s) s;
    send_request = send_request H.request_id;
    send_response = send_response;
  }

  -- The loop of InterfaceHandle::new: each event of the network is one of the interface.
  unfoldable pub interface_event :
      ℕ → SubstrateNetworkEvent library → InterfaceEvent substrate_backend substrate_sink
  interface_event i (Network.peer_connected peer) = Backend.peer_connected i peer [] (new_sink peer)
  interface_event i (Network.peer_disconnected peer) = Backend.peer_disconnected i peer
  interface_event i (Network.protocol_opened peer protocol) =
      Backend.connection_upgraded i peer (Backend.protocol_opened (protocol ∷ []))
  interface_event i (Network.protocol_closed peer protocol) =
      Backend.connection_upgraded i peer (Backend.protocol_closed (protocol ∷ []))
  interface_event i (Network.notification_received peer protocol notification) =
      Backend.message_received i peer protocol notification
  interface_event i (Network.request_received peer protocol id request) =
      Backend.request_received i peer protocol (record { id = id; payload = request })
  interface_event i (Network.response_received peer protocol id response) =
      Backend.response_received i peer protocol id (record { id = id; payload = response })
  interface_event i (Network.peer_discovered peer) = Backend.peer_discovered peer
