-- ===== src/Graph/Paths.antt =====
-- When two nodes of an undirected graph are connected by its edges.
use swarm_host.Prelude.{ℕ, List, Elem}

pub data Connected (edges : List (ℕ × ℕ)) : ℕ → ℕ → Type 0 where
  here : (a : ℕ) → Connected edges a a
  forth : (a b : ℕ) {c : ℕ} → Elem (a, b) edges → Connected edges b c → Connected edges a c
  back : (a b : ℕ) {c : ℕ} → Elem (a, b) edges → Connected edges a c → Connected edges b c
