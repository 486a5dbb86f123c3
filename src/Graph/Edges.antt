-- ===== src/Graph/Edges.antt =====
-- The list of edges under the removals that the graph library documents.
use swarm_host.Prelude.{
  ℕ, zero, suc, ◌≡◌, refl, ap, sym, subst, ◌⊎◌, inl, inr, List, [], ◌∷◌, ◌++◌, length, Elem, first,
  later, Elem-cons,
}
use swarm_host.Graph.{set, split_last, swap_remove}

module _ {ℓ} {A : Type ℓ} where
  Elem-set : (xs : List A) (i : ℕ) (v : A) {x : A} → Elem x (set xs i v) → (x ≡ v) ⊎ Elem x xs
  Elem-set [] i v e = inr e
  Elem-set (y ∷ ys) zero v e = elim (Elem-cons e) [ inl p ↦ inl p | inr k ↦ inr (later y k) ]
  Elem-set (y ∷ ys) (suc i) v {x} e = elim (Elem-cons e) [
    | inl p ↦ inr (subst (λ w. Elem w (y ∷ ys)) (sym p) (first ys))
    | inr k ↦ elim (Elem-set ys i v k) [ inl p ↦ inl p | inr k' ↦ inr (later y k') ]
  ]

  split_last-append :
      (x : A) (xs : List A) → (split_last x xs).0 ++ (split_last x xs).1 ∷ [] ≡ x ∷ xs
  unfolding split_last
  split_last-append x [] = refl
  split_last-append x (y ∷ ys) = ap (λ zs. x ∷ zs) (split_last-append y ys)

  last-Elem : (x : A) (xs : List A) → Elem (split_last x xs).1 (x ∷ xs)
  unfolding split_last
  last-Elem x [] = first []
  last-Elem x (y ∷ ys) = later x (last-Elem y ys)

  front-Elem : (x : A) (xs : List A) {z : A} → Elem z (split_last x xs).0 → Elem z (x ∷ xs)
  unfolding split_last
  front-Elem x [] e = elim e [ ]
  front-Elem x (y ∷ ys) e = elim (Elem-cons e) [
    | inl p ↦ subst (λ w. Elem w (x ∷ y ∷ ys)) (sym p) (first (y ∷ ys))
    | inr k ↦ later x (front-Elem y ys k)
  ]

  pub Elem-swap_remove : (i : ℕ) (xs : List A) {z : A} → Elem z (swap_remove i xs) → Elem z xs
  unfolding swap_remove
  Elem-swap_remove i [] e = e
  Elem-swap_remove i (x ∷ xs) e = elim (Elem-set (split_last x xs).0 i (split_last x xs).1 e) [
    | inl p ↦ subst (λ w. Elem w (x ∷ xs)) (sym p) (last-Elem x xs)
    | inr k ↦ front-Elem x xs k
  ]

  set_past : (xs : List A) (v : A) → set xs (length xs) v ≡ xs
  set_past [] v = refl
  set_past (x ∷ xs) v = ap (λ ys. x ∷ ys) (set_past xs v)

  set-append : (xs : List A) (a b c : A) → set (xs ++ a ∷ []) (length xs) c ≡ xs ++ c ∷ []
  set-append [] a b c = refl
  set-append (x ∷ xs) a b c = ap (λ ys. x ∷ ys) (set-append xs a b c)

  split_last_snoc : (y : A) (xs : List A) (x : A) → split_last y (xs ++ x ∷ []) ≡ (y ∷ xs, x)
  unfolding split_last
  split_last_snoc y [] x = refl
  split_last_snoc y (z ∷ zs) x = rw (split_last_snoc z zs x)

  -- Removing the edge that was added last.
  pub swap_remove_last : (xs : List A) (x : A) → swap_remove (length xs) (xs ++ x ∷ []) ≡ xs
  unfolding swap_remove split_last
  swap_remove_last [] x = refl
  swap_remove_last (y ∷ ys) x = rw (split_last_snoc y ys x) (set_past (y ∷ ys) x)

  -- Removing the edge that was added before the last: the last one takes its number.
  pub swap_remove_previous :
      (xs : List A) (x y : A) → swap_remove (length xs) ((xs ++ x ∷ []) ++ y ∷ []) ≡ xs ++ y ∷ []
  unfolding swap_remove split_last
  swap_remove_previous [] x y = refl
  swap_remove_previous (z ∷ zs) x y =
      rw (split_last_snoc z (zs ++ x ∷ []) y) (set-append (z ∷ zs) x y y)
