-- ===== src/Map/Laws.antt =====
-- What a lookup finds after each change of a map or a set.
use swarm_host.Prelude.{suc, ◌≡◌, refl, ite, none, some, [], ◌∷◌, true, false, arith, length}
use swarm_host.Map.{HashMap, get, insert, remove, Distinct, HashSet, contains, add, discard}

module _ {ℓ} {K V : Type ℓ} (eq : Discrete K) where
  pub get-insert :
      (k j : K) (v : V) (m : HashMap K V)
      → get eq j (insert eq k v m) ≡ ite (eq k j) (some v) (get eq j m)
  unfolding get insert
  get-insert k j v [] = ground arith
  get-insert k j v ((i, w) ∷ m) = ground (arith, get-insert k j v m)

  pub get-insert_same : (k : K) (v : V) (m : HashMap K V) → get eq k (insert eq k v m) ≡ some v
  get-insert_same k v m = ground (arith, get-insert k k v m)

  pub get-remove :
      (k j : K) (m : HashMap K V) → get eq j (remove eq k m) ≡ ite (eq k j) none (get eq j m)
  unfolding get remove
  get-remove k j [] = ground arith
  get-remove k j ((i, w) ∷ m) = ground (arith, get-remove k j m)

  pub insert-Distinct :
      (k : K) (v : V) (m : HashMap K V) → Distinct eq m → Distinct eq (insert eq k v m)
  unfolding get insert
  insert-Distinct k v [] d = ground arith
  insert-Distinct k v ((i, w) ∷ m) d = ground (arith, insert-Distinct k v m d.1, get-insert k i v m)

  pub remove-Distinct : (k : K) (m : HashMap K V) → Distinct eq m → Distinct eq (remove eq k m)
  unfolding remove
  remove-Distinct k [] d = d
  remove-Distinct k ((i, w) ∷ m) d = ground (arith, remove-Distinct k m d.1, get-remove k i m)

  -- Removing a key that is not there changes nothing.
  pub remove_absent : (k : K) (m : HashMap K V) → get eq k m ≡ none → remove eq k m ≡ m
  unfolding get remove
  remove_absent k [] h = refl
  remove_absent k ((i, w) ∷ m) h = ground (arith, remove_absent k m)

  pub remove-insert :
      (k : K) (v : V) (m : HashMap K V) → get eq k m ≡ none → remove eq k (insert eq k v m) ≡ m
  unfolding get insert remove
  remove-insert k v [] h = ground arith
  remove-insert k v ((i, w) ∷ m) h = ground (arith, remove-insert k v m)

module _ {ℓ} {A : Type ℓ} (eq : Discrete A) where
  pub contains-add :
      (a b : A) (s : HashSet A)
      → contains eq b (add eq a s) ≡ elim (eq a b) [ yes p ↦ true | no p ↦ contains eq b s ]
  unfolding contains add
  contains-add a b [] = ground arith
  contains-add a b (x ∷ s) = ground (arith, contains-add a b s)

  pub contains-discard :
      (a b : A) (s : HashSet A)
      → contains eq b (discard eq a s) ≡ elim (eq a b) [ yes p ↦ false | no p ↦ contains eq b s ]
  unfolding contains discard
  contains-discard a b [] = ground arith
  contains-discard a b (x ∷ s) = ground (arith, contains-discard a b s)

  pub length-add :
      (a : A) (s : HashSet A)
      → length (add eq a s) ≡ elim (contains eq a s) [ true ↦ length s | false ↦ suc (length s) ]
  unfolding contains add
  length-add a [] = refl
  length-add a (x ∷ s) = ground (arith, length-add a s)
