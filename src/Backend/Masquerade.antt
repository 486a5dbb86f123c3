-- ===== src/Backend/Masquerade.antt =====
-- src/backend/mockchain/masquerade.rs: the task for one remote peer of the mock blockchain. The
-- socket is a list of the answers to `read`, the oldest first, and the answer to the write of the
-- handshake; the codec (serde_cbor) is a parameter.
use swarm_host.Prelude.{
  ℕ, ◌≡◌, refl, ap, sym, ◌∙◌, ◌⊎◌, inl, inr, Option, none, some, List, [], ◌∷◌, ◌++◌, map, collect,
  append_assoc,
}
use swarm_host.Error.{Result, ok, err, io, serde_cbor}
use swarm_host.Backend.{
  NetworkBackend, PacketSink, InterfaceEvent, peer_connected, peer_disconnected, message_received,
}

pub data ConnectionType : Type 0 where
  inbound : ConnectionType
  outbound : ConnectionType

pub record Handshake (T : NetworkBackend) : Type 0 where
  pub peer : T.PeerId
  pub protocols : List T.Protocol

-- serde_cbor on handshakes and messages, the protocol of the messages, and MockPacketSink::new.
pub record Wire (T : NetworkBackend) (K : PacketSink T) : Type 0 where
  pub own_handshake : T.foreign.CborError ⊎ List ℕ
  pub read_handshake : List ℕ → T.foreign.CborError ⊎ Handshake T
  pub read_message : List ℕ → T.foreign.CborError ⊎ T.Message
  pub generic : T.Protocol
  pub new_sink : T.InterfaceId → T.PeerId → K.Sink

-- io::Result<usize> of a read, with the bytes that it put into the buffer.
abbrev pub Read : NetworkBackend → Type 0
Read T = T.foreign.IoError ⊎ List ℕ

-- What the task reports, and how it ends; `none` if it still waits for the socket.
abbrev pub Outcome : (T : NetworkBackend) → PacketSink T → Type 0
Outcome T K = List (InterfaceEvent T K) × Option (Result T.foreign Unit)

module _ {T : NetworkBackend} {K : PacketSink T} (wire : Wire T K) (iface_id : T.InterfaceId) where
  abbrev pub report : InterfaceEvent T K → Outcome T K → Outcome T K
  report event (events, done) = (event ∷ events, done)

  -- A message that cannot be read is only logged.
  unfoldable pub on_message : T.PeerId → T.foreign.CborError ⊎ T.Message → Outcome T K → Outcome T K
  on_message peer (inl e) rest = rest
  on_message peer (inr message) rest =
      report (message_received iface_id peer wire.generic message) rest

  -- The loop; a read of no bytes is the end of the connection.
  unfoldable pub receive : T.PeerId → List (Read T) → Outcome T K
  unfolding on_message
  receive peer [] = ([], none)
  receive peer (inl e ∷ reads) = ([], some (err (io e)))
  receive peer (inr [] ∷ reads) = (peer_disconnected iface_id peer ∷ [], some (ok tt))
  receive peer (inr (b ∷ bytes) ∷ reads) =
      let rest = receive peer reads in on_message peer (wire.read_message (b ∷ bytes)) rest

  unfoldable pub greeted : T.foreign.CborError ⊎ Handshake T → List (Read T) → Outcome T K
  unfolding receive
  greeted (inl e) reads = ([], some (err (serde_cbor e)))
  greeted (inr handshake) reads =
      report
        (peer_connected iface_id handshake.peer handshake.protocols
          (wire.new_sink iface_id handshake.peer))
        (receive handshake.peer reads)

  -- The first read is the handshake of the peer.
  unfoldable pub await_handshake : List (Read T) → Outcome T K
  unfolding greeted
  await_handshake [] = ([], none)
  await_handshake (inl e ∷ reads) = ([], some (err (io e)))
  await_handshake (inr bytes ∷ reads) = greeted (wire.read_handshake bytes) reads

  -- let _ = stream.write(&handshake).await?
  unfoldable pub greet :
      T.foreign.CborError ⊎ List ℕ → T.foreign.IoError ⊎ ℕ → List (Read T) → Outcome T K
  unfolding await_handshake
  greet (inl e) written reads = ([], some (err (serde_cbor e)))
  greet (inr bytes) (inl e) reads = ([], some (err (io e)))
  greet (inr bytes) (inr n) reads = await_handshake reads

  unfoldable pub start : ConnectionType → T.foreign.IoError ⊎ ℕ → List (Read T) → Outcome T K
  unfolding greet
  start inbound written reads = greet wire.own_handshake written reads
  start outbound written reads = await_handshake reads

  -- What is reported of a packet.
  abbrev pub messages : T.PeerId → T.foreign.CborError ⊎ T.Message → List (InterfaceEvent T K)
  messages peer (inl e) = []
  messages peer (inr message) = message_received iface_id peer wire.generic message ∷ []

  -- A packet of at least one byte.
  abbrev pub Packet : Type 0
  Packet = ℕ × List ℕ

  abbrev pub packet_read : Packet → Read T
  packet_read (b, bytes) = inr (b ∷ bytes)

  abbrev pub packet_events : T.PeerId → Packet → List (InterfaceEvent T K)
  packet_events peer (b, bytes) = messages peer (wire.read_message (b ∷ bytes))

  on_message-eq :
      (peer : T.PeerId) (m : T.foreign.CborError ⊎ T.Message) (rest : Outcome T K)
      → on_message peer m rest ≡ (messages peer m ++ rest.0, rest.1)
  unfolding on_message
  on_message-eq peer (inl e) rest = refl
  on_message-eq peer (inr m) rest = refl

  receive-packets :
      (peer : T.PeerId) (packets : List Packet) (reads : List (Read T))
      → receive peer (map packet_read packets ++ reads)
        ≡ (collect (packet_events peer) packets ++ (receive peer reads).0, (receive peer reads).1)
  unfolding receive
  receive-packets peer [] reads = refl
  receive-packets peer ((b, bytes) ∷ packets) reads =
      on_message-eq peer (wire.read_message (b ∷ bytes)) _
      ∙ rw (receive-packets peer packets reads) (
          ap (λ es. (es, (receive peer reads).1))
            (sym (append_assoc (messages peer (wire.read_message (b ∷ bytes))) _ _)))

-- How the socket goes on after the packets: it is waited for, it is closed, or it fails.
pub data Ending (T : NetworkBackend) : Type 0 where
  waits : Ending T
  closes : List (Read T) → Ending T
  breaks : T.foreign.IoError → List (Read T) → Ending T

abbrev pub reads_of : {T : NetworkBackend} → Ending T → List (Read T)
reads_of waits = []
reads_of (closes reads) = inr [] ∷ reads
reads_of (breaks e reads) = inl e ∷ reads

abbrev pub result_of : {T : NetworkBackend} → Ending T → Option (Result T.foreign Unit)
result_of waits = none
result_of (closes reads) = some (ok tt)
result_of (breaks e reads) = some (err (io e))

module _ {T : NetworkBackend} {K : PacketSink T} where
  abbrev pub end_events : Ending T → T.InterfaceId → T.PeerId → List (InterfaceEvent T K)
  end_events (closes reads) iface_id peer = peer_disconnected iface_id peer ∷ []
  end_events ending iface_id peer = []

  receive_end :
      (wire : Wire T K) (iface_id : T.InterfaceId) (peer : T.PeerId) (ending : Ending T)
      → receive wire iface_id peer (reads_of ending)
        ≡ (end_events ending iface_id peer, result_of ending)
  unfolding receive
  receive_end wire iface_id peer waits = refl
  receive_end wire iface_id peer (closes reads) = refl
  receive_end wire iface_id peer (breaks e reads) = refl

  -- On an inbound connection, where the own handshake is written and the one of the peer is read:
  -- the peer is reported as connected, then its messages in their order, but for the packets that
  -- cannot be read. If the peer closes the connection, it is then reported as disconnected, and the
  -- task ends well. If the socket fails, the task ends with the error, and the peer is not reported
  -- as disconnected. Until then the task waits.
  pub start-session :
      (wire : Wire T K) (iface_id : T.InterfaceId) (own bytes : List ℕ) (n : ℕ) (h : Handshake T)
      (packets : List (ℕ × List ℕ)) (ending : Ending T)
      → wire.own_handshake ≡ inr own
      → wire.read_handshake bytes ≡ inr h
      → start wire iface_id inbound
          (inr n)
          (inr bytes ∷ (map (packet_read wire iface_id) packets ++ reads_of ending))
        ≡ (
          peer_connected iface_id h.peer h.protocols (wire.new_sink iface_id h.peer)
              ∷ (collect (packet_events wire iface_id h.peer) packets
                  ++ end_events ending iface_id h.peer),
          result_of ending,
        )
  unfolding start
  start-session wire iface_id own bytes n h packets ending greeting shake =
      rw (greeting, greet, shake, greeted)
        (rw (receive-packets wire iface_id h.peer packets (reads_of ending))
          (rw (receive_end wire iface_id h.peer ending)))
