-- ===== src/Backend/Messages.antt =====
-- src/backend/mockchain/types.rs: the messages of the mock blockchain, and the random ones that it
-- generates. The random number generator is a parameter: its state is passed on, and each draw lies
-- in the range that it is drawn from.
use Prim.Native.String.{◌++◌ as concat}
use swarm_host.Prelude.{
  ℕ, zero, suc, ◌^◌, ◌≤◌, ◌<◌, String, Bool, Option, none, some, List, [], ◌∷◌,
}

pub record Transaction : Type 0 where
  pub sender : ℕ
  pub receiver : ℕ
  pub amount : ℕ

pub record Block : Type 0 where
  pub number : ℕ
  pub time : ℕ
  pub transactions : List Transaction

pub record Vote : Type 0 where
  pub block : ℕ
  pub peer : ℕ
  pub vote : Bool

pub record Dispute : Type 0 where
  pub block : ℕ
  pub peer : ℕ

pub record Pex : Type 0 where
  pub peers : List (String × ℕ)

pub data Message : Type 0 where
  transaction : Transaction → Message
  block : Block → Message
  vote : Vote → Message
  dispute : Dispute → Message
  peer_exchange : Pex → Message

-- Block::from_transactions and Block::new
unfoldable pub from_transactions : ℕ → List Transaction → Block
from_transactions number transactions = record {
  number = number;
  time = 1337;
  transactions = transactions;
}

unfoldable pub new_block : ℕ → Block
unfolding from_transactions
new_block number = from_transactions number []

-- rand::Rng, and the decimal digits of a number.
pub record Rng : Type 1 where
  pub State : Type 0
  -- rng.gen::<uN>(), for the width N
  pub gen : ℕ → State → ℕ × State
  pub gen_bool : State → Bool × State
  -- rng.gen_range(low..=high)
  pub gen_range : ℕ → ℕ → State → ℕ × State
  pub to_string : ℕ → String

-- What the generator promises.
pub record RngLaws (R : Rng) : Type 0 where
  pub gen-lt : (w : ℕ) (s : R.State) → (R.gen w s).0 < 2 ^ w
  pub low-le : (low high : ℕ) (s : R.State) → low ≤ high → low ≤ (R.gen_range low high s).0
  pub le-high : (low high : ℕ) (s : R.State) → low ≤ high → (R.gen_range low high s).0 ≤ high

module _ (R : Rng) where
  open R use {State, gen, gen_bool, gen_range, to_string}

  -- Distribution<Transaction>
  unfoldable pub sample_transaction : State → Transaction × State
  sample_transaction s =
      let (sender, s1) = gen 64 s in
      let (receiver, s2) = gen 64 s1 in
      let (amount, s3) = gen 64 s2 in
      (record { sender = sender; receiver = receiver; amount = amount }, s3)

  -- (0..n).map(|_| …).collect()
  unfoldable pub sample_each {ℓ} : {A : Type ℓ} → (State → A × State) → ℕ → State → List A × State
  sample_each draw zero s = ([], s)
  sample_each draw (suc n) s =
      let (a, s1) = draw s in let (rest, s2) = sample_each draw n s1 in (a ∷ rest, s2)

  -- format!("{}.{}.{}.{}", …) and the port
  unfoldable pub sample_peer : State → (String × ℕ) × State
  sample_peer s =
      let (a, s1) = gen_range 1 255 s in
      let (b, s2) = gen_range 0 255 s1 in
      let (c, s3) = gen_range 0 255 s2 in
      let (d, s4) = gen_range 0 255 s3 in
      let (port, s5) = gen 16 s4 in
      (
        (
          concat (to_string a) (
              concat "." (
                concat (to_string b)
                  (concat "." (concat (to_string c) (concat "." (to_string d)))))),
          port,
        ),
        s5,
      )

  -- The arms of the match on the kind that was drawn; `none` is todo!().
  unfoldable pub sample_kind : ℕ → State → Option Message × State
  unfolding sample_transaction from_transactions sample_each sample_peer
  sample_kind zero s = let (t, s1) = sample_transaction s in (some (transaction t), s1)
  sample_kind (suc zero) s =
      let (number, s1) = gen 128 s in
      let (n, s2) = gen_range 1 5 s1 in
      let (ts, s3) = sample_each sample_transaction n s2 in
      (some (block (from_transactions number ts)), s3)
  sample_kind (suc (suc zero)) s =
      let (b, s1) = gen 64 s in
      let (p, s2) = gen 64 s1 in
      let (yay, s3) = gen_bool s2 in (some (vote (record { block = b; peer = p; vote = yay })), s3)
  sample_kind (suc (suc (suc zero))) s =
      let (b, s1) = gen 64 s in
      let (p, s2) = gen 64 s1 in (some (dispute (record { block = b; peer = p })), s2)
  sample_kind (suc (suc (suc (suc zero)))) s =
      let (n, s1) = gen_range 2 6 s in
      let (peers, s2) = sample_each sample_peer n s1 in
      (some (peer_exchange (record { peers = peers })), s2)
  sample_kind (suc (suc (suc (suc (suc kind))))) s = (none, s)

  -- Distribution<Message>
  unfoldable pub sample : State → Option Message × State
  unfolding sample_kind
  sample s = let (kind, s1) = gen_range 0 4 s in sample_kind kind s1
