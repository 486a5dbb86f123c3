-- ===== src/Heuristics/Traffic.antt =====
-- The counters of src/heuristics/mod.rs for one peer and one protocol, against a log of messages.
use swarm_host.Prelude.{
  ℕ, ◌+◌, ◌%◌, ◌≡◌, refl, Bool, true, false, List, [], ◌∷◌, if◌then◌else◌, ℕ_discrete, arith,
  length,
}
use swarm_host.Map.{contains}
use swarm_host.Map.Laws.{contains-add}
use swarm_host.Backend.{NetworkBackend}
use swarm_host.Heuristics.{MessageHeuristics, usize_mod, empty_messages, count_received, count_sent}

-- The messages, newest first, as hash and size.
abbrev pub Log : Type 0
Log = List (ℕ × ℕ)

-- The bytes of all the messages.
unfoldable pub bytes : Log → ℕ
bytes [] = 0
bytes ((h, n) ∷ log) = bytes log + n

-- Whether a message with this hash is among them.
unfoldable pub occurs : ℕ → Log → Bool
occurs hash [] = false
occurs hash ((h, n) ∷ log) =
    let rest = occurs hash log in elim (ℕ_discrete h hash) [ yes p ↦ true | no p ↦ rest ]

-- The bytes of the messages that repeat an older one.
unfoldable pub repeated : Log → ℕ
unfolding occurs
repeated [] = 0
repeated ((h, n) ∷ log) = repeated log + (if occurs h log then n else 0)

-- The counters of a log of received and of sent messages; `usize` counters, so modulo 2^64.
pub record Tallied {T : NetworkBackend} (m : MessageHeuristics T) (received sent : Log)
    : Type 0 where
  pub bytes_received : m.total_bytes_received ≡ bytes received % usize_mod
  pub messages_received : m.total_messages_received ≡ length received % usize_mod
  pub redundant_received : m.redundant_bytes_received ≡ repeated received % usize_mod
  pub unique_received :
      (h : ℕ) → contains ℕ_discrete h m.unique_messages_received ≡ occurs h received
  pub bytes_sent : m.total_bytes_sent ≡ bytes sent % usize_mod
  pub messages_sent : m.total_messages_sent ≡ length sent % usize_mod
  pub redundant_sent : m.redundant_bytes_sent ≡ repeated sent % usize_mod
  pub unique_sent : (h : ℕ) → contains ℕ_discrete h m.unique_messages_sent ≡ occurs h sent

module _ {T : NetworkBackend} where
  pub count_received-Tallied :
      (m : MessageHeuristics T) (r s : Log) (h n : ℕ)
      → Tallied m r s
      → Tallied (count_received m h n) ((h, n) ∷ r) s
  unfolding count_received bytes occurs repeated
  count_received-Tallied m r s h n t = record {
    bytes_received = omega (arith, t.bytes_received);
    messages_received = omega (arith, t.messages_received);
    redundant_received = ground (arith, t.redundant_received, t.unique_received h);
    unique_received = λ k.
        ground (arith, contains-add ℕ_discrete h k m.unique_messages_received, t.unique_received k);
    bytes_sent = t.bytes_sent;
    messages_sent = t.messages_sent;
    redundant_sent = t.redundant_sent;
    unique_sent = t.unique_sent;
  }

  pub count_sent-Tallied :
      (m : MessageHeuristics T) (r s : Log) (h n : ℕ)
      → Tallied m r s
      → Tallied (count_sent m h n) r ((h, n) ∷ s)
  unfolding count_sent bytes occurs repeated
  count_sent-Tallied m r s h n t = record {
    bytes_received = t.bytes_received;
    messages_received = t.messages_received;
    redundant_received = t.redundant_received;
    unique_received = t.unique_received;
    bytes_sent = omega (arith, t.bytes_sent);
    messages_sent = omega (arith, t.messages_sent);
    redundant_sent = ground (arith, t.redundant_sent, t.unique_sent h);
    unique_sent =
        λ k. ground (arith, contains-add ℕ_discrete h k m.unique_messages_sent, t.unique_sent k);
  }

  pub empty_messages-Tallied : Tallied {T = T} empty_messages [] []
  unfolding bytes occurs repeated contains
  empty_messages-Tallied = record {
    bytes_received = refl;
    messages_received = refl;
    redundant_received = refl;
    unique_received = λ h. refl;
    bytes_sent = refl;
    messages_sent = refl;
    redundant_sent = refl;
    unique_sent = λ h. refl;
  }
