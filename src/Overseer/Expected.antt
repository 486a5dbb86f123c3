-- ===== src/Overseer/Expected.antt =====
-- src/overseer.rs: no message removes an interface; so a run is without a panic where each upgrade
-- of a connection names an interface that was there at its start.
use swarm_host.Prelude.{◌≡◌, subst, some, List, [], ◌∷◌}
use swarm_host.Backend.{NetworkBackend, PacketSink, connection_upgraded}
use swarm_host.Executor.{Executor}
use swarm_host.Graph.{UnGraph, UnGraphLaws}
use swarm_host.Overseer.{Overseer}
use swarm_host.Overseer.Invariant.{WellFormed}
use swarm_host.Overseer.Safety.{IsExpected, IsExpectedRun, Goes, run-Goes}
use swarm_host.Overseer.Run.{Input, rpc, network, filter, handle_input, run}
use swarm_host.Overseer.Permanence.{StillExists, handle_input-Exists}

-- A message does not upgrade a connection, or does so at an interface of the overseer.
module _ {T : NetworkBackend} {E : Executor T} {K : PacketSink T} {G : UnGraph T.InterfaceId} where
  abbrev pub AllExpected : List (Input T K) → Overseer T E K G → Type 0
  AllExpected [] o = Unit
  AllExpected (input ∷ rest) o = IsExpected input o × AllExpected rest o

  IsExpected-later :
      (input before : Input T K) (o o' : Overseer T E K G)
      → handle_input before o ≡ some o'
      → IsExpected input o
      → IsExpected input o'
  IsExpected-later (network (connection_upgraded i p u)) before o o' e h =
      subst (StillExists i) e (handle_input-Exists i before o h)
  IsExpected-later (network event) before o o' e h = tt
  IsExpected-later (rpc event) before o o' e h = tt
  IsExpected-later (filter event) before o o' e h = tt

  AllExpected-later :
      (inputs : List (Input T K)) (before : Input T K) (o o' : Overseer T E K G)
      → handle_input before o ≡ some o'
      → AllExpected inputs o
      → AllExpected inputs o'
  AllExpected-later [] before o o' e h = tt
  AllExpected-later (input ∷ rest) before o o' e h =
      (IsExpected-later input before o o' e h.0, AllExpected-later rest before o o' e h.1)

  AllExpected-IsExpectedRun :
      (inputs : List (Input T K)) (o : Overseer T E K G)
      → AllExpected inputs o
      → IsExpectedRun inputs o
  AllExpected-IsExpectedRun [] o h = tt
  AllExpected-IsExpectedRun (input ∷ rest) o h =
      (h.0, λ o' e. AllExpected-IsExpectedRun rest o' (AllExpected-later rest input o o' e h.1))

  -- No message removes an interface: any sequence of messages from the three channels leaves a
  -- well-formed overseer well-formed and ends without a panic, if each upgrade of a connection names
  -- an interface that the overseer has at the start.
  pub run-AllExpected :
      (laws : UnGraphLaws G) (inputs : List (Input T K)) (o : Overseer T E K G)
      → WellFormed o
      → AllExpected inputs o
      → Goes (run inputs o)
  run-AllExpected laws inputs o w h =
      run-Goes laws inputs o w (AllExpected-IsExpectedRun inputs o h)
