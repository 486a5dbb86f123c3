-- ===== src/Filter/Run.antt =====
-- src/filter/mod.rs, `run`: the task of a filter, over what wakes it up, in the order in which
-- `select!` takes it: a command of the overseer, or the timer. Errors are logged, and the loop goes
-- on.
use swarm_host.Prelude.{List, [], ◌∷◌}
use swarm_host.Backend.{NetworkBackend, PacketSink}
use swarm_host.Executor.{Executor}
use swarm_host.Filter.{Filter, FilterCommand}
use swarm_host.Filter.Commands.{handle_command, poll_filter}

pub data Wake (T : NetworkBackend) (K : PacketSink T) : Type 0 where
  command_rx : FilterCommand T K → Wake T K
  sleep : Wake T K

module _ {T : NetworkBackend} {E : Executor T} {K : PacketSink T} where
  -- The body of the loop.
  unfoldable pub wake : Wake T K → Filter T E K → Filter T E K
  wake (command_rx command) f = (handle_command command f).1
  wake sleep f = (poll_filter f).1

  unfoldable pub run : List (Wake T K) → Filter T E K → Filter T E K
  run [] f = f
  run (w ∷ rest) f = run rest (wake w f)
