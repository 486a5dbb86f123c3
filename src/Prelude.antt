-- ===== src/Prelude.antt =====
-- The names that the other modules share: the libraries', passed on, and tests, lists and options.
use Prim.Native.Nat.{compare, Ordering}
pub use Prim.Native.Nat.{ℕ, zero, suc, ◌+◌, ◌-◌, ◌%◌, ◌^◌, ◌≤◌, ◌<◌}
pub use Prim.Native.String.{String}
pub use mathlib.Core.Path.{◌≡◌, refl, sym, ap, subst, ◌∙◌, fun_ext}
pub use mathlib.Core.Logic.{◌≢◌, ◌↔◌, ◌⊎◌, inl, inr, ite, if_pos, if_neg}
pub use mathlib.Core.Bool.{Bool, true, false, not, ◌&&◌, ◌||◌}
pub use mathlib.Core.Option.{Option, none, some}
pub use mathlib.Core.List.{List, [], ◌∷◌, ◌++◌, map, append-nil, append_assoc}
pub use native.Mathlib.Omega.{arith}
unfoldable pub use native.Mathlib.Decide.{dec_lt, ℕ_discrete}

infix 1 if◌then◌else◌
abbrev pub if◌then◌else◌ {ℓ} : {A : Type ℓ} → Bool → A → A → A
if true then x else y = x
if false then x else y = y

abbrev pub ltb : ℕ → ℕ → Bool
ltb a b = elim (compare a b) [ Ordering.lt ↦ true | _ ↦ false ]

module _ {ℓ} {A : Type ℓ} where
  abbrev pub length : List A → ℕ
  length [] = 0
  length (x ∷ xs) = suc (length xs)

  abbrev pub get_elem? : List A → ℕ → Option A
  get_elem? [] i = none
  get_elem? (x ∷ xs) zero = some x
  get_elem? (x ∷ xs) (suc i) = get_elem? xs i

  pub length-append : (xs ys : List A) → length (xs ++ ys) ≡ length xs + length ys
  length-append [] ys = omega arith
  length-append (x ∷ xs) ys = omega (arith, length-append xs ys)

  pub get_elem?-append_left :
      (xs ys : List A) (i : ℕ) (x : A) → get_elem? xs i ≡ some x → get_elem? (xs ++ ys) i ≡ some x
  get_elem?-append_left [] ys i x h = ground arith
  get_elem?-append_left (y ∷ xs) ys zero x h = h
  get_elem?-append_left (y ∷ xs) ys (suc i) x h = get_elem?-append_left xs ys i x h

  pub get_elem?-append_last : (xs : List A) (x : A) → get_elem? (xs ++ x ∷ []) (length xs) ≡ some x
  get_elem?-append_last [] x = refl
  get_elem?-append_last (y ∷ xs) x = get_elem?-append_last xs x

  pub get_elem?-lt : (xs : List A) (i : ℕ) (x : A) → get_elem? xs i ≡ some x → i < length xs
  get_elem?-lt [] i x h = ground arith
  get_elem?-lt (y ∷ xs) zero x h = omega arith
  get_elem?-lt (y ∷ xs) (suc i) x h = omega (arith, get_elem?-lt xs i x h)

  pub Option-cases : (o : Option A) → (o ≡ none) ⊎ ((a : A) × (o ≡ some a))
  Option-cases none = inl refl
  Option-cases (some a) = inr (a, refl)

-- Occurrence in a list.
pub data Elem {ℓ} {A : Type ℓ} (x : A) : List A → Type ℓ where
  first : (ys : List A) → Elem x (x ∷ ys)
  later : (y : A) {ys : List A} → Elem x ys → Elem x (y ∷ ys)

module _ {ℓ} {A : Type ℓ} where
  pub Elem-cons : {x y : A} {ys : List A} → Elem x (y ∷ ys) → (x ≡ y) ⊎ Elem x ys
  Elem-cons (first ys) = inl refl
  Elem-cons (later y e) = inr e

  pub Elem-append_left : {x : A} {xs : List A} (ys : List A) → Elem x xs → Elem x (xs ++ ys)
  Elem-append_left ys (first xs) = first (xs ++ ys)
  Elem-append_left ys (later y e) = later y (Elem-append_left ys e)

  pub Elem-append_last : (x : A) (xs : List A) → Elem x (xs ++ x ∷ [])
  Elem-append_last x [] = first []
  Elem-append_last x (y ∷ ys) = later y (Elem-append_last x ys)

  pub Elem-nil : {x : A} → ¬ Elem x []
  Elem-nil e = elim e [ ]

  pub Elem-append : {x : A} (xs : List A) {ys : List A} → Elem x (xs ++ ys) → Elem x xs ⊎ Elem x ys
  Elem-append [] e = inr e
  Elem-append (z ∷ zs) e = elim (Elem-cons e) [
    | inl p ↦ inl (subst (λ w. Elem w (z ∷ zs)) (sym p) (first zs))
    | inr e' ↦ elim (Elem-append zs e') [ inl k ↦ inl (later z k) | inr k ↦ inr k ]
  ]

  pub Elem-snoc : {x y : A} (xs : List A) → Elem x (xs ++ y ∷ []) → (x ≡ y) ⊎ Elem x xs
  Elem-snoc [] e = Elem-cons e
  Elem-snoc (z ∷ zs) e = elim (Elem-cons e) [
    | inl p ↦ inr (subst (λ w. Elem w (z ∷ zs)) (sym p) (first zs))
    | inr e' ↦ elim (Elem-snoc zs e') [ inl p ↦ inl p | inr k ↦ inr (later z k) ]
  ]

  -- No item stands twice.
  abbrev pub Unique : List A → Type ℓ
  Unique [] = Unit
  Unique (x ∷ xs) = (¬ Elem x xs) × Unique xs

pub Bool-cases : (b : Bool) → (b ≡ true) ⊎ (b ≡ false)
Bool-cases true = inl refl
Bool-cases false = inr refl

-- The sum of the weights of the items.
abbrev pub total {ℓ} : {A : Type ℓ} → (A → ℕ) → List A → ℕ
total w [] = 0
total w (x ∷ xs) = w x + total w xs

pub total-append {ℓ} :
    {A : Type ℓ} (w : A → ℕ) (xs ys : List A) → total w (xs ++ ys) ≡ total w xs + total w ys
total-append w [] ys = omega arith
total-append w (x ∷ xs) ys = omega (arith, total-append w xs ys)

-- The weight of an item that a decision picks out.
abbrev pub one {ℓ} : {P : Type ℓ} → Dec P → ℕ
one (yes p) = 1
one (no n) = 0

-- The items that an item stands for, in order.
abbrev pub collect {ℓ κ} : {A : Type ℓ} {B : Type κ} → (A → List B) → List A → List B
collect f [] = []
collect f (x ∷ xs) = f x ++ collect f xs

pub collect-append {ℓ κ} :
    {A : Type ℓ} {B : Type κ} (f : A → List B) (xs ys : List A)
    → collect f (xs ++ ys) ≡ collect f xs ++ collect f ys
collect-append f [] ys = refl
collect-append f (x ∷ xs) ys = simp (collect-append f xs ys, append_assoc)
