-- ===== src/Examples/Wires.antt =====
-- The traffic of the mock blockchain, and errors.
use swarm_host.Prelude.{
  ℕ, zero, suc, ◌+◌, ◌^◌, ◌<◌, ◌≡◌, ◌↔◌, refl, true, some, List, [], ◌∷◌, ◌++◌, map, arith, collect,
  ℕ_discrete, inr,
}
use swarm_host.Error.{io}
use swarm_host.Error.Equality.{Foreigners, Key, key, eq, eq-key}
use swarm_host.Backend.{peer_connected}
use swarm_host.Backend.Masquerade.{
  Wire, Handshake, inbound, start, packet_read, packet_events, reads_of, end_events, result_of,
  Ending, closes, start-session,
}
use swarm_host.Backend.Messages.{Rng, RngLaws, sample}
use swarm_host.Backend.Samples.{Draws, sample-Draws}
use swarm_host.Demo.{network, sinks, numbers}

abbrev greeting : Handshake network
greeting = record { peer = 7; protocols = 1 ∷ [] }

abbrev wire : Wire network sinks
wire = record {
  own_handshake = inr (1 ∷ []);
  read_handshake = λ bytes. inr greeting;
  read_message = λ bytes. inr 5;
  generic = 4;
  new_sink = λ i p. [];
}

abbrev packets : List (ℕ × List ℕ)
packets = (1, 2 ∷ []) ∷ (3, []) ∷ []

abbrev hangs_up : Ending network
hangs_up = closes []

start-session_example :
    start wire 0 inbound
      (inr 1)
      (inr (9 ∷ []) ∷ (map (packet_read wire 0) packets ++ reads_of hangs_up))
    ≡ (
      peer_connected 0 7 (1 ∷ []) []
          ∷ (collect (packet_events wire 0 7) packets ++ end_events hangs_up 0 7),
      result_of hangs_up,
    )
start-session_example = start-session wire 0 (1 ∷ []) (9 ∷ []) 1 greeting packets hangs_up refl refl

-- Always the lowest number.
abbrev lowest : Rng
lowest = record {
  State = ℕ;
  gen = λ w s. (0, s + 1);
  gen_bool = λ s. (true, s + 1);
  gen_range = λ low high s. (low, s + 1);
  to_string = λ n. "0";
}

lt-pow : (w : ℕ) → 0 < 2 ^ w
lt-pow zero = omega arith
lt-pow (suc w) = omega (arith, lt-pow w)

lowest-RngLaws : RngLaws lowest
lowest-RngLaws = record {
  gen-lt = λ w s. lt-pow w;
  low-le = λ low high s h. omega arith;
  le-high = λ low high s h. h;
}

sample-Draws_example : Draws (sample lowest 0).0
sample-Draws_example = sample-Draws lowest lowest-RngLaws 0

abbrev pub foreigners : Foreigners numbers
foreigners = record {
  address_eq = ℕ_discrete;
  kind = λ e. e;
  classify = λ e. e;
  show_address = λ a. "127.0.0.1:0";
  show_io = λ e. "failed";
  show_cbor = λ e. "failed";
  show_substrate = λ e. "failed";
}

eq-key_example :
    (eq foreigners (io 3) (io 3) ≡ true)
    ↔ ((k : Key foreigners) × (key foreigners (io 3) ≡ some k) × (key foreigners (io 3) ≡ some k))
eq-key_example = eq-key foreigners (io 3) (io 3)
