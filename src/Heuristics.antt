-- ===== src/Heuristics.antt =====
-- src/heuristics/mod.rs: the backend that counts the traffic of every peer. The counters are
-- `usize`, so their sums wrap around at 2^64; hashes are kept as numbers.

pub mod Traffic
pub mod History
pub mod Handle
pub mod Updates
use swarm_host.Prelude.{
  ℕ, ◌+◌, ◌%◌, ◌^◌, Option, none, some, List, [], ◌∷◌, if◌then◌else◌, ℕ_discrete,
}
use swarm_host.Map.{HashMap, HashSet, get, insert, contains, add, discard}
use swarm_host.Backend.{NetworkBackend}

pub data HeuristicsEvent (T : NetworkBackend) : Type 0 where
  register_interface : T.InterfaceId → HeuristicsEvent T
  link_interfaces : T.InterfaceId → T.InterfaceId → HeuristicsEvent T
  unlink_interfaces : T.InterfaceId → T.InterfaceId → HeuristicsEvent T
  register_peer : T.InterfaceId → T.PeerId → HeuristicsEvent T
  unregister_peer : T.InterfaceId → T.PeerId → HeuristicsEvent T
  message_received : T.InterfaceId → T.Protocol → T.PeerId → ℕ → ℕ → HeuristicsEvent T
  message_sent : T.InterfaceId → T.Protocol → List T.PeerId → ℕ → ℕ → HeuristicsEvent T
  open_protocol : T.InterfaceId → T.PeerId → T.Protocol → HeuristicsEvent T
  close_protocol : T.InterfaceId → T.PeerId → T.Protocol → HeuristicsEvent T

pub record MessageHeuristics (T : NetworkBackend) : Type 0 where
  pub total_bytes_sent : ℕ
  pub total_messages_sent : ℕ
  pub total_bytes_received : ℕ
  pub total_messages_received : ℕ
  pub redundant_bytes_sent : ℕ
  pub redundant_bytes_received : ℕ
  pub unique_messages_sent : HashSet ℕ
  pub unique_messages_received : HashSet ℕ
  pub interfaces : HashSet T.InterfaceId

pub record PeerHeuristics (T : NetworkBackend) : Type 0 where
  pub interfaces : HashSet T.InterfaceId
  pub protocols : HashMap T.Protocol (MessageHeuristics T)

-- HeuristicsBackend::peers
abbrev pub Peers : NetworkBackend → Type 0
Peers T = HashMap T.PeerId (PeerHeuristics T)

abbrev pub usize_mod : ℕ
usize_mod = 2 ^ 64

-- `+=` on a usize
abbrev pub wrapping_add : ℕ → ℕ → ℕ
wrapping_add a b = (a + b) % usize_mod

-- entry(key).or_insert(default), entry(key).or_default()
abbrev pub or_insert {ℓ} : {A : Type ℓ} → A → Option A → A
or_insert d none = d
or_insert d (some a) = a

module _ {T : NetworkBackend} where
  abbrev pub empty_messages : MessageHeuristics T
  empty_messages = record {
    total_bytes_sent = 0;
    total_messages_sent = 0;
    total_bytes_received = 0;
    total_messages_received = 0;
    redundant_bytes_sent = 0;
    redundant_bytes_received = 0;
    unique_messages_sent = [];
    unique_messages_received = [];
    interfaces = [];
  }

  abbrev pub empty_peer : PeerHeuristics T
  empty_peer = record { interfaces = []; protocols = [] }

  unfoldable pub count_received : MessageHeuristics T → ℕ → ℕ → MessageHeuristics T
  count_received entry hash size = record entry {
    total_bytes_received = wrapping_add entry.total_bytes_received size;
    total_messages_received = wrapping_add entry.total_messages_received 1;
    redundant_bytes_received =
        if contains ℕ_discrete hash entry.unique_messages_received
        then wrapping_add entry.redundant_bytes_received size
        else entry.redundant_bytes_received;
    unique_messages_received = add ℕ_discrete hash entry.unique_messages_received;
  }

  unfoldable pub count_sent : MessageHeuristics T → ℕ → ℕ → MessageHeuristics T
  count_sent entry hash size = record entry {
    total_bytes_sent = wrapping_add entry.total_bytes_sent size;
    total_messages_sent = wrapping_add entry.total_messages_sent 1;
    redundant_bytes_sent =
        if contains ℕ_discrete hash entry.unique_messages_sent
        then wrapping_add entry.redundant_bytes_sent size
        else entry.redundant_bytes_sent;
    unique_messages_sent = add ℕ_discrete hash entry.unique_messages_sent;
  }

  unfoldable pub register_message_received :
      PeerHeuristics T → T.Protocol → ℕ → ℕ → PeerHeuristics T
  register_message_received self protocol hash size =
      let entry = or_insert empty_messages (get T.protocol_eq protocol self.protocols) in
      record self {
        protocols = insert T.protocol_eq protocol (count_received entry hash size) self.protocols;
      }

  unfoldable pub register_message_sent : PeerHeuristics T → T.Protocol → ℕ → ℕ → PeerHeuristics T
  register_message_sent self protocol hash size =
      let entry = or_insert empty_messages (get T.protocol_eq protocol self.protocols) in
      record self {
        protocols = insert T.protocol_eq protocol (count_sent entry hash size) self.protocols;
      }

  -- if let Some(info) = self.peers.get_mut(&peer) { … }
  unfoldable pub update_peer : T.PeerId → (PeerHeuristics T → PeerHeuristics T) → Peers T → Peers T
  update_peer peer change peers = elim (get T.peer_eq peer peers) [
    | none ↦ peers
    | some info ↦ insert T.peer_eq peer (change info) peers
  ]

  -- if let Some(info) = info.protocols.get_mut(&protocol) { … }
  unfoldable pub update_protocol :
      T.Protocol → (MessageHeuristics T → MessageHeuristics T) → PeerHeuristics T → PeerHeuristics T
  update_protocol protocol change info = elim (get T.protocol_eq protocol info.protocols) [
    | none ↦ info
    | some messages ↦ record info {
      protocols = insert T.protocol_eq protocol (change messages) info.protocols;
    }
  ]

  -- for peer in peers { … }
  unfoldable pub send_to_each : List T.PeerId → T.Protocol → ℕ → ℕ → Peers T → Peers T
  send_to_each [] protocol hash size peers = peers
  send_to_each (peer ∷ rest) protocol hash size peers =
      send_to_each rest protocol hash size
        (update_peer peer (λ info. register_message_sent info protocol hash size) peers)

  -- info.interfaces.insert(interface), and so on
  abbrev pub join : T.InterfaceId → PeerHeuristics T → PeerHeuristics T
  join interface info = record info { interfaces = add T.interface_eq interface info.interfaces }

  abbrev pub leave : T.InterfaceId → PeerHeuristics T → PeerHeuristics T
  leave interface info = record info {
    interfaces = discard T.interface_eq interface info.interfaces;
  }

  abbrev pub open_at : T.InterfaceId → MessageHeuristics T → MessageHeuristics T
  open_at interface info = record info { interfaces = add T.interface_eq interface info.interfaces }

  abbrev pub close_at : T.InterfaceId → MessageHeuristics T → MessageHeuristics T
  close_at interface info = record info {
    interfaces = discard T.interface_eq interface info.interfaces;
  }

  unfoldable pub handle_event : HeuristicsEvent T → Peers T → Peers T
  handle_event (register_interface interface) peers = peers
  handle_event (link_interfaces first second) peers = peers
  handle_event (unlink_interfaces first second) peers = peers
  handle_event (register_peer interface peer) peers =
      insert T.peer_eq peer (join interface (or_insert empty_peer (get T.peer_eq peer peers))) peers
  handle_event (unregister_peer interface peer) peers = update_peer peer (leave interface) peers
  handle_event (message_received interface protocol peer hash size) peers =
      update_peer peer (λ info. register_message_received info protocol hash size) peers
  handle_event (message_sent interface protocol receivers hash size) peers =
      send_to_each receivers protocol hash size peers
  handle_event (open_protocol interface peer protocol) peers =
      update_peer peer (update_protocol protocol (open_at interface)) peers
  handle_event (close_protocol interface peer protocol) peers =
      update_peer peer (update_protocol protocol (close_at interface)) peers

  -- The event loop, over the events in the order of their arrival.
  unfoldable pub run : List (HeuristicsEvent T) → Peers T → Peers T
  run [] peers = peers
  run (event ∷ rest) peers = run rest (handle_event event peers)
