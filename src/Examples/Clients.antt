-- ===== src/Examples/Clients.antt =====
-- A client of the RPC server, over the Substrate backend with texts as addresses.
use swarm_host.Prelude.{
  ℕ, ◌+◌, ◌≡◌, refl, none, some, List, [], ◌∷◌, map, ℕ_discrete, inr, length, String, Option, inl,
  false, Bool-cases, arith,
}
use text.Mathlib.Text.{◌==◌ as str_eq}
use text.Mathlib.TextEquality.{eq_iff}
use swarm_host.Error.{Foreign, ok}
use swarm_host.Error.Equality.{Foreigners}
use swarm_host.Executor.{Executor}
use swarm_host.Demo.{list_graph}
use swarm_host.Overseer.{Overseer}
use swarm_host.Overseer.Run
use swarm_host.Rpc.{Params, serve}
use swarm_host.Rpc.Client.{
  Encoder, EncoderLaws, Act, ask, ask_cut, network, create, join, link, join_1, step_of, play,
}
use swarm_host.Rpc.Session.{serve-play}
use swarm_host.Backend.{peer_discovered}
use swarm_host.Substrate.{Library}
use swarm_host.Substrate.Adapter.{Host, substrate_backend, substrate_sink}

abbrev library : Library
library = record {
  PeerId = ℕ;
  ProtocolName = ℕ;
  NotificationsSink = ℕ;
  ResponseSender = ℕ;
  FeedbackSender = ℕ;
  RequestFailure = ℕ;
  ReputationChange = ℕ;
  Multiaddr = ℕ;
  peer_eq = ℕ_discrete;
  protocol_eq = ℕ_discrete;
  hash = length;
}

abbrev texts : Foreign
texts = record { SocketAddr = String; IoError = ℕ; CborError = ℕ; SubstrateError = ℕ }

abbrev host : Host
host = record {
  library = library;
  foreign = texts;
  Duration = ℕ;
  start = λ i genesis handshake. inr (i + 100);
  request_id = length;
}

abbrev silent : Executor (substrate_backend host)
silent = record {
  State = ℕ;
  initialize_interface = λ code p. ok (record { handshake = [] });
  create = λ i code context. ok 0;
  poll = λ s. (ok [], s);
  register_peer = λ p s. (ok [], s);
  discover_peer = λ p s. (ok [], s);
  unregister_peer = λ p s. (ok [], s);
  protocol_opened = λ p pr s. (ok [], s);
  protocol_closed = λ p pr s. (ok [], s);
  install_notification_filter = λ pr code s. (ok tt, s);
  install_request_response_filter = λ pr code s. (ok tt, s);
  inject_notification = λ pr p m s. (ok [], s);
  inject_request = λ pr p r s. (ok [], s);
  inject_response = λ pr p r s. (ok [], s);
}

data Param : Type 0 where
  word : String → Param
  number : ℕ → Param

abbrev pop_text : List Param → Option String × List Param
pop_text (word a ∷ rest) = (some a, rest)
pop_text s = (none, s)

abbrev pop_number : List Param → Option ℕ × List Param
pop_number (number n ∷ rest) = (some n, rest)
pop_number s = (none, s)

abbrev decoders : Params (substrate_backend host)
decoders = record {
  Sequence = List Param;
  next_string = pop_text;
  next_u64 = pop_number;
  next_interface = pop_number;
  next_protocol = pop_number;
  parse_address = λ a. some a;
  from_millis = λ n. n;
}

abbrev encoder : Encoder (substrate_backend host) decoders
encoder = record {
  end = [];
  text = λ a s. word a ∷ s;
  number = λ n s. number n ∷ s;
  interface = λ i s. number i ∷ s;
  protocol = λ p s. number p ∷ s;
  show_address = λ a. a;
}

encoder-EncoderLaws : EncoderLaws encoder
encoder-EncoderLaws = record {
  next-text = λ a s. refl;
  next-number = λ n s. refl;
  next-interface = λ i s. refl;
  next-protocol = λ p s. refl;
  parse-show = λ a. refl;
  text_end = refl;
  number_end = refl;
  interface_end = refl;
  protocol_end = refl;
}

differ : (a b : String) → str_eq a b ≡ false → ¬ (a ≡ b)
differ a b e p = ground (arith, eq_iff a b)

abbrev string_discrete : Discrete String
string_discrete a b = elim (Bool-cases (str_eq a b)) [
  | inl e ↦ yes ((eq_iff a b).0 e)
  | inr e ↦ no (differ a b e)
]

abbrev foreigners : Foreigners texts
foreigners = record {
  address_eq = string_discrete;
  kind = λ e. e;
  classify = λ e. e;
  show_address = λ a. a;
  show_io = λ e. "failed";
  show_cbor = λ e. "failed";
  show_substrate = λ e. "failed";
}

abbrev begun : Overseer (substrate_backend host) silent (substrate_sink host) list_graph
begun = Run.new (record { genesis_hash = [] })

-- Two interfaces are created and linked; a link without its second interface is refused.
abbrev acts : List (Act (substrate_backend host) (substrate_sink host))
acts =
    ask (create "127.0.0.1:8000" "code" 5 none)
    ∷ ask (create "127.0.0.1:8001" "code" 5 none)
    ∷ network (peer_discovered 7)
    ∷ ask_cut (join_1 link 0)
    ∷ ask (join link 0 1)
    ∷ []

serve-play_example :
    serve decoders foreigners (map (step_of encoder) acts) (some begun)
    ≡ play decoders foreigners acts (some begun)
serve-play_example = serve-play foreigners encoder encoder-EncoderLaws acts (some begun)
