-- ===== src/Map.antt =====
-- `HashMap` and `HashSet` of the standard library, as the sources use them: an association list,
-- and a list without repetitions. Iteration is in list order.
pub mod Laws
pub mod Totals
use swarm_host.Prelude.{ite, Option, none, some, List, [], ◌∷◌, Bool, true, false, ◌≡◌}

abbrev pub HashMap {ℓ} : Type ℓ → Type ℓ → Type ℓ
HashMap K V = List (K × V)

module _ {ℓ} {K V : Type ℓ} (eq : Discrete K) where
  -- m.get(&k)
  unfoldable pub get : K → HashMap K V → Option V
  get k [] = none
  get k ((j, v) ∷ m) = ite (eq j k) (some v) (get k m)

  -- m.insert(k, v): a key that is present keeps its place.
  unfoldable pub insert : K → V → HashMap K V → HashMap K V
  insert k v [] = (k, v) ∷ []
  insert k v ((j, w) ∷ m) = ite (eq j k) ((k, v) ∷ m) ((j, w) ∷ insert k v m)

  -- m.remove(&k)
  unfoldable pub remove : K → HashMap K V → HashMap K V
  remove k [] = []
  remove k ((j, w) ∷ m) = let rest = remove k m in ite (eq j k) rest ((j, w) ∷ rest)

  -- No key stands twice.
  abbrev pub Distinct : HashMap K V → Type ℓ
  Distinct [] = Unit
  Distinct ((k, v) ∷ m) = (get k m ≡ none) × Distinct m

abbrev pub contained {ℓ} : {V : Type ℓ} → Option V → Bool
contained none = false
contained (some v) = true

-- m.contains_key(&k)
abbrev pub contains_key {ℓ} : {K V : Type ℓ} → Discrete K → K → HashMap K V → Bool
contains_key eq k m = contained (get eq k m)

abbrev pub HashSet {ℓ} : Type ℓ → Type ℓ
HashSet A = List A

module _ {ℓ} {A : Type ℓ} (eq : Discrete A) where
  -- s.contains(&a)
  unfoldable pub contains : A → HashSet A → Bool
  contains a [] = false
  contains a (x ∷ s) = let rest = contains a s in elim (eq x a) [ yes p ↦ true | no p ↦ rest ]

  -- s.insert(a); whether `a` was new is `contains a s` before the call.
  unfoldable pub add : A → HashSet A → HashSet A
  add a [] = a ∷ []
  add a (x ∷ s) = ite (eq x a) (x ∷ s) (x ∷ add a s)

  -- s.remove(&a)
  unfoldable pub discard : A → HashSet A → HashSet A
  discard a [] = []
  discard a (x ∷ s) = let rest = discard a s in ite (eq x a) rest (x ∷ rest)

  -- HashSet::from_iter
  unfoldable pub from_iter : List A → HashSet A
  from_iter [] = []
  from_iter (x ∷ xs) = add x (from_iter xs)
