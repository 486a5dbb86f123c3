-- ===== src/Examples/Calls.antt =====
-- A session with the RPC server.
use swarm_host.Prelude.{
  ℕ, ◌≡◌, refl, none, some, List, [], ◌∷◌, ℕ_discrete, inr, Option, Elem, first, later,
}
use swarm_host.Map.{get, insert}
use swarm_host.Demo.{network, sinks, scripted, list_graph, list_graph-laws}
use swarm_host.Overseer.Run
use swarm_host.Overseer.Interfaces.{create_interface}
use swarm_host.Rpc
use swarm_host.Rpc.{Params, Step, Answer, identifier, null, call, decode, respond, serve}
use swarm_host.Rpc.Created.{serve-link}
use swarm_host.Examples.Links.{State, nothing}
use swarm_host.Examples.Wires.{foreigners}

abbrev pop_number : List ℕ → Option ℕ × List ℕ
pop_number [] = (none, [])
pop_number (n ∷ rest) = (some n, rest)

-- Parameters are numbers, and each also stands for a text.
abbrev decoders : Params network
decoders = record {
  Sequence = List ℕ;
  next_string = λ s. elim s [ [] ↦ (none, []) | n ∷ rest ↦ (some "text", rest) ];
  next_u64 = pop_number;
  next_interface = pop_number;
  next_protocol = pop_number;
  parse_address = λ text. some 8000;
  from_millis = λ n. n;
}

abbrev session : List (Step network sinks decoders)
session =
    call Rpc.create_interface (1 ∷ 2 ∷ 5 ∷ [])
    ∷ call Rpc.create_interface (1 ∷ [])
    ∷ call Rpc.create_interface (1 ∷ 2 ∷ 5 ∷ [])
    ∷ []

abbrev served : List (Answer network) × Option State
served = serve decoders foreigners session (some nothing)

abbrev both : State
both = (create_interface 8000 "text" 5 none (create_interface 8000 "text" 5 none nothing).1).1

served_both : served.1 ≡ some both
unfolding serve create_interface get insert ℕ_discrete Run.handle_rpc
served_both = refl

served_first : Elem {A = Answer network} (identifier 0) served.0
unfolding serve create_interface get insert ℕ_discrete Run.handle_rpc
served_first = first _

served_last : Elem {A = Answer network} (identifier 1) served.0
unfolding serve create_interface get insert ℕ_discrete Run.handle_rpc
served_last = later _ (later _ (first _))

decoded : decode decoders Rpc.link_interface (0 ∷ 1 ∷ []) ≡ inr (Run.link_interface 0 1)
unfolding decode
decoded = refl

serve-link_example :
    (respond {E = scripted} {K = sinks} {G = list_graph} decoders foreigners
      (decode decoders Rpc.link_interface (0 ∷ 1 ∷ []))
      (some both)).0
    ≡ null
serve-link_example =
    serve-link decoders foreigners list_graph-laws session nothing both 0 1 (0 ∷ 1 ∷ []) served_both
      served_first served_last decoded
