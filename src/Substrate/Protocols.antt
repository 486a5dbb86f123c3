-- ===== src/Substrate/Protocols.antt =====
-- src/backend/substrate/network/service.rs, `new`: the protocols of an interface, and the size of the
-- buffer of a connection. The configuration before it, NetworkConfiguration::with_key, is a parameter.
-- A timeout is in seconds. The queue of inbound requests is the other end of the stream that the
-- StreamMap holds under the name of the protocol; of the map these names are kept.
use text.Mathlib.Text.{◌==◌ as str_eq}
use swarm_host.Prelude.{
  ℕ, ◌+◌, ◌-◌, ◌^◌, ◌≤◌, String, Option, none, List, [], ◌∷◌, ◌++◌, map, ltb, if◌then◌else◌, arith,
  Elem, Elem-cons, inl, inr,
}

pub record ProtocolConfig : Type 0 where
  pub name : String
  pub fallback_names : List String
  pub max_request_size : ℕ
  pub max_response_size : ℕ
  pub request_timeout : ℕ

pub data NonReservedPeerMode : Type 0 where
  accept : NonReservedPeerMode
  deny : NonReservedPeerMode

pub record SetConfig : Type 0 where
  pub in_peers : ℕ
  pub out_peers : ℕ
  pub reserved_nodes : List String
  pub non_reserved_mode : NonReservedPeerMode

pub record NonDefaultSetConfig : Type 0 where
  pub notifications_protocol : String
  pub fallback_names : List String
  pub max_notification_size : ℕ
  pub handshake : Option (List ℕ)
  pub set_config : SetConfig

-- map.insert(name, rx): a stream under the same name is replaced.
unfoldable pub insert_stream : String → List String → List String
insert_stream name [] = name ∷ []
insert_stream name (other ∷ names) =
    let rest = insert_stream name names in if str_eq other name then name ∷ names else other ∷ rest

abbrev pub mebibyte : ℕ
mebibyte = 1048576

unfoldable pub build_block_announce_protocol : Option (List ℕ) → NonDefaultSetConfig
build_block_announce_protocol handshake = record {
  notifications_protocol = "/sup/block-announces/1";
  fallback_names = [];
  max_notification_size = 8388608;
  handshake = handshake;
  set_config = record {
    in_peers = 25;
    out_peers = 25;
    reserved_nodes = [];
    non_reserved_mode = deny;
  };
}

unfoldable pub build_transaction_protocol : NonDefaultSetConfig
build_transaction_protocol = record {
  notifications_protocol = "/sup/transactions/1";
  fallback_names = [];
  max_notification_size = 16777216;
  handshake = none;
  set_config = record {
    in_peers = 400;
    out_peers = 400;
    reserved_nodes = [];
    non_reserved_mode = accept;
  };
}

unfoldable pub build_grandpa_protocol : NonDefaultSetConfig
build_grandpa_protocol = record {
  notifications_protocol = "/paritytech/grandpa/1";
  fallback_names = [];
  max_notification_size = mebibyte;
  handshake = none;
  set_config = record {
    in_peers = 400;
    out_peers = 400;
    reserved_nodes = [];
    non_reserved_mode = accept;
  };
}

unfoldable pub build_sync_protocol : List String → ProtocolConfig × List String
unfolding insert_stream
build_sync_protocol streams = (
  record {
    name = "/sup/sync/2";
    fallback_names = [];
    max_request_size = mebibyte;
    max_response_size = 16777216;
    request_timeout = 20;
  },
  insert_stream "/sup/sync/2" streams,
)

unfoldable pub build_state_sync_protocol : List String → ProtocolConfig × List String
unfolding insert_stream
build_state_sync_protocol streams = (
  record {
    name = "/sup/state/2";
    fallback_names = [];
    max_request_size = mebibyte;
    max_response_size = 16777216;
    request_timeout = 40;
  },
  insert_stream "/sup/state/2" streams,
)

unfoldable pub build_warp_sync_protocol : List String → ProtocolConfig × List String
unfolding insert_stream
build_warp_sync_protocol streams = (
  record {
    name = "/sup/sync/warp";
    fallback_names = [];
    max_request_size = 32;
    max_response_size = 16777216;
    request_timeout = 10;
  },
  insert_stream "/sup/sync/warp" streams,
)

unfoldable pub build_light_protocol : List String → ProtocolConfig × List String
unfolding insert_stream
build_light_protocol streams = (
  record {
    name = "/sup/light/2";
    fallback_names = [];
    max_request_size = mebibyte;
    max_response_size = 16777216;
    request_timeout = 15;
  },
  insert_stream "/sup/light/2" streams,
)

-- The fields of NetworkConfiguration that are changed and read here.
pub record NetworkConfiguration : Type 0 where
  pub request_response_protocols : List ProtocolConfig
  pub extra_sets : List NonDefaultSetConfig
  pub listen_addresses : List String

-- The configuration, and the names of the streams of requests.
unfoldable pub configure : NetworkConfiguration → NetworkConfiguration × List String
unfolding build_sync_protocol build_state_sync_protocol build_warp_sync_protocol
    build_light_protocol build_transaction_protocol build_grandpa_protocol
configure c =
    let (sync_config, s1) = build_sync_protocol [] in
    let (state_config, s2) = build_state_sync_protocol s1 in
    let (warp_config, s3) = build_warp_sync_protocol s2 in
    let (light_config, s4) = build_light_protocol s3 in
    (
      record {
        request_response_protocols =
            c.request_response_protocols
            ++ sync_config ∷ state_config ∷ warp_config ∷ light_config ∷ [];
        extra_sets = c.extra_sets ++ build_transaction_protocol ∷ build_grandpa_protocol ∷ [];
        listen_addresses = "/ip6/::0/tcp/0" ∷ "/ip4/0.0.0.0/tcp/0" ∷ [];
      },
      s4,
    )

-- usize::try_from(n).unwrap_or(usize::MAX)
unfoldable pub to_usize : ℕ → ℕ
to_usize n = if ltb n (2 ^ 64) then n else 2 ^ 64 - 1

-- a.saturating_add(b)
unfoldable pub saturating_add : ℕ → ℕ → ℕ
saturating_add a b = if ltb (a + b) (2 ^ 64) then a + b else 2 ^ 64 - 1

-- iter::once(n).chain(…).max(), of which there is always one
unfoldable pub maximum : ℕ → List ℕ → ℕ
maximum n [] = n
maximum n (m ∷ ms) = let rest = maximum n ms in if ltb rest m then m else rest

-- cmp::max(1024 * 1024, BLOCK_ANNOUNCES_TRANSACTIONS_SUBSTREAM_SIZE)
abbrev pub default_max : ℕ
default_max = 16777216

abbrev pub sizes : NetworkConfiguration → List ℕ
sizes c =
    map (λ p. to_usize p.max_request_size) c.request_response_protocols
    ++ (map (λ p. to_usize p.max_response_size) c.request_response_protocols
        ++ map (λ p. to_usize p.max_notification_size) c.extra_sets)

unfoldable pub yamux_maximum_buffer_size : NetworkConfiguration → ℕ
unfolding maximum saturating_add
yamux_maximum_buffer_size c = saturating_add (maximum default_max (sizes c)) 10

pub maximum-le : (n : ℕ) (ms : List ℕ) (m : ℕ) → Elem m ms → m ≤ maximum n ms
unfolding maximum
maximum-le n [] m e = elim e [ ]
maximum-le n (k ∷ ms) m e = elim (Elem-cons e) [
  | inl p ↦ ground (arith, p)
  | inr e' ↦ ground (arith, maximum-le n ms m e')
]

pub le-maximum : (n : ℕ) (ms : List ℕ) → n ≤ maximum n ms
unfolding maximum
le-maximum n [] = omega arith
le-maximum n (k ∷ ms) = ground (arith, le-maximum n ms)
