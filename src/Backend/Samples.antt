-- ===== src/Backend/Samples.antt =====
-- src/backend/mockchain/types.rs: the random messages lie within the bounds of their types.
use swarm_host.Prelude.{
  ℕ, zero, suc, ◌^◌, ◌≤◌, ◌<◌, ◌≡◌, refl, Option, none, some, List, [], ◌∷◌, arith, length,
}
use swarm_host.Backend.Messages.{
  Transaction, Message, transaction, block, vote, dispute, peer_exchange, from_transactions, Rng,
  RngLaws, sample_transaction, sample_each, sample_peer, sample_kind, sample,
}

abbrev All {ℓ κ} : {A : Type ℓ} → (A → Type κ) → List A → Type κ
All P [] = Unit
All P (x ∷ xs) = P x × All P xs

abbrev pub FitsTransaction : Transaction → Type 0
FitsTransaction t = (t.sender < 2 ^ 64) × (t.receiver < 2 ^ 64) × (t.amount < 2 ^ 64)

-- The fields fit their integer types; a block has one to five transactions, and an exchange of
-- peers two to six peers.
abbrev pub IsValid : Message → Type 0
IsValid (transaction t) = FitsTransaction t
IsValid (block b) =
    (b.number < 2 ^ 128)
    × (b.time ≡ 1337)
    × (1 ≤ length b.transactions)
    × (length b.transactions ≤ 5)
    × All FitsTransaction b.transactions
IsValid (vote v) = (v.block < 2 ^ 64) × (v.peer < 2 ^ 64)
IsValid (dispute d) = (d.block < 2 ^ 64) × (d.peer < 2 ^ 64)
IsValid (peer_exchange p) =
    (2 ≤ length p.peers) × (length p.peers ≤ 6) × All (λ x. x.1 < 2 ^ 16) p.peers

-- A message was drawn, and it is valid.
abbrev pub Draws : Option Message → Type 0
Draws none = ⊥
Draws (some m) = IsValid m

module _ (R : Rng) (laws : RngLaws R) where
  sample_transaction-Fits : (s : R.State) → FitsTransaction (sample_transaction R s).0
  unfolding sample_transaction
  sample_transaction-Fits s = (laws.gen-lt 64 _, laws.gen-lt 64 _, laws.gen-lt 64 _)

  length-sample_each {ℓ} :
      {A : Type ℓ} (draw : R.State → A × R.State) (n : ℕ) (s : R.State)
      → length (sample_each R draw n s).0 ≡ n
  unfolding sample_each
  length-sample_each draw zero s = refl
  length-sample_each draw (suc n) s = omega (arith, length-sample_each draw n (draw s).1)

  All-sample_each {ℓ κ} :
      {A : Type ℓ} (P : A → Type κ) (draw : R.State → A × R.State)
      → ((s : R.State) → P (draw s).0)
      → (n : ℕ) (s : R.State) → All P (sample_each R draw n s).0
  unfolding sample_each
  All-sample_each P draw h zero s = tt
  All-sample_each P draw h (suc n) s = (h s, All-sample_each P draw h n (draw s).1)

  sample_kind-Draws : (kind : ℕ) (s : R.State) → kind ≤ 4 → Draws (sample_kind R kind s).0
  unfolding sample_kind from_transactions sample_peer
  sample_kind-Draws zero s h = sample_transaction-Fits s
  sample_kind-Draws (suc zero) s h =
      let s1 = (R.gen 128 s).1 in
      let n = (R.gen_range 1 5 s1).0 in
      let many = length-sample_each (sample_transaction R) n (R.gen_range 1 5 s1).1 in
      (
        laws.gen-lt 128 s,
        refl,
        rw many (laws.low-le 1 5 s1 (omega arith)),
        rw many (laws.le-high 1 5 s1 (omega arith)),
        All-sample_each FitsTransaction (sample_transaction R) sample_transaction-Fits n _,
      )
  sample_kind-Draws (suc (suc zero)) s h = (laws.gen-lt 64 _, laws.gen-lt 64 _)
  sample_kind-Draws (suc (suc (suc zero))) s h = (laws.gen-lt 64 _, laws.gen-lt 64 _)
  sample_kind-Draws (suc (suc (suc (suc zero)))) s h =
      let n = (R.gen_range 2 6 s).0 in
      let many = length-sample_each (sample_peer R) n (R.gen_range 2 6 s).1 in
      (
        rw many (laws.low-le 2 6 s (omega arith)),
        rw many (laws.le-high 2 6 s (omega arith)),
        All-sample_each (λ x. x.1 < 2 ^ 16) (sample_peer R) (λ t. laws.gen-lt 16 _) n _,
      )
  sample_kind-Draws (suc (suc (suc (suc (suc kind))))) s h = absurd (omega arith)

  -- With a generator that keeps to its ranges, a random message is always drawn, never todo!(); its
  -- fields fit their integer types, a block has one to five transactions, and an exchange of peers
  -- two to six peers.
  pub sample-Draws : (s : R.State) → Draws (sample R s).0
  unfolding sample
  sample-Draws s =
      sample_kind-Draws (R.gen_range 0 4 s).0 (R.gen_range 0 4 s).1
        (laws.le-high 0 4 s (omega arith))
