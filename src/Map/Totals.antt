-- ===== src/Map/Totals.antt =====
-- Sums over the entries of a map, as keys come and go.
use swarm_host.Prelude.{ℕ, ◌+◌, ◌≡◌, none, some, [], ◌∷◌, arith, total}
use swarm_host.Map.{HashMap, get, insert, remove, Distinct}
use swarm_host.Map.Laws.{remove_absent}

module _ {ℓ} {K V : Type ℓ} (eq : Discrete K) (f : K × V → ℕ) where
  pub total-insert :
      (k : K) (v : V) (m : HashMap K V)
      → get eq k m ≡ none
      → total f (insert eq k v m) ≡ total f m + f (k, v)
  unfolding get insert
  total-insert k v [] h = omega arith
  total-insert k v ((j, w) ∷ m) h = ground (arith, total-insert k v m)

  pub total-remove :
      (k : K) (v : V) (m : HashMap K V)
      → Distinct eq m
      → get eq k m ≡ some v
      → total f (remove eq k m) + f (k, v) ≡ total f m
  unfolding get remove
  total-remove k v [] d h = ground arith
  total-remove k v ((j, w) ∷ m) d h =
      ground (arith, total-remove k v m d.1, remove_absent eq j m d.0)
