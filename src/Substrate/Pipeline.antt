-- ===== src/Substrate/Pipeline.antt =====
-- src/backend/substrate/mod.rs with src/overseer.rs: the events of the network tasks of several
-- interfaces, as the overseer handles them.
use swarm_host.Prelude.{ℕ, ◌≡◌, true, List, [], ◌∷◌, ℕ_discrete}
use swarm_host.Map.{get, contained}
use swarm_host.Executor.{Executor}
use swarm_host.Graph.{UnGraph, UnGraphLaws}
use swarm_host.Overseer.{Overseer}
use swarm_host.Overseer.Invariant.{WellFormed}
use swarm_host.Overseer.Safety.{IsExpected, Goes}
use swarm_host.Overseer.Expected.{AllExpected, run-AllExpected}
use swarm_host.Overseer.Run.{Input, network, run}
use swarm_host.Substrate.Network
use swarm_host.Substrate.Network.{SubstrateNetworkEvent}
use swarm_host.Substrate.Adapter.{Host, substrate_backend, substrate_sink, interface_event}

module _ (H : Host) where
  abbrev pub Reported : Type 0
  Reported = List (ℕ × SubstrateNetworkEvent H.library)

  -- The events of the interfaces, in the order in which the overseer reads them.
  unfoldable pub inputs : Reported → List (Input (substrate_backend H) (substrate_sink H))
  inputs [] = []
  inputs ((i, event) ∷ rest) = network (interface_event H i event) ∷ inputs rest

  module _ {E : Executor (substrate_backend H)} {G : UnGraph ℕ} where
    -- The events are those of interfaces of the overseer.
    abbrev pub AllPresent :
        Reported → Overseer (substrate_backend H) E (substrate_sink H) G → Type 0
    AllPresent [] o = Unit
    AllPresent ((i, event) ∷ rest) o =
        (contained (get ℕ_discrete i o.interfaces) ≡ true) × AllPresent rest o

    interface_event-IsExpected :
        (i : ℕ) (event : SubstrateNetworkEvent H.library)
        (o : Overseer (substrate_backend H) E (substrate_sink H) G)
        → contained (get ℕ_discrete i o.interfaces) ≡ true
        → IsExpected (network (interface_event H i event)) o
    unfolding interface_event
    interface_event-IsExpected i (Network.protocol_opened p pr) o h = h
    interface_event-IsExpected i (Network.protocol_closed p pr) o h = h
    interface_event-IsExpected i event o h = tt

    inputs-AllExpected :
        (es : Reported) (o : Overseer (substrate_backend H) E (substrate_sink H) G)
        → AllPresent es o
        → AllExpected (inputs es) o
    unfolding inputs
    inputs-AllExpected [] o h = tt
    inputs-AllExpected ((i, event) ∷ rest) o h =
        (interface_event-IsExpected i event o h.0, inputs-AllExpected rest o h.1)

    -- Whatever the network tasks of the interfaces of a well-formed overseer report, in whatever
    -- order, the overseer handles it without a panic and is well-formed afterwards.
    pub run-inputs :
        (laws : UnGraphLaws G) (es : Reported)
        (o : Overseer (substrate_backend H) E (substrate_sink H) G)
        → WellFormed o
        → AllPresent es o
        → Goes (run (inputs es) o)
    run-inputs laws es o w h = run-AllExpected laws (inputs es) o w (inputs-AllExpected es o h)
