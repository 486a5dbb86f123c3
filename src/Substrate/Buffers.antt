-- ===== src/Substrate/Buffers.antt =====
-- src/backend/substrate/network/service.rs, `new`: the buffer of a connection holds every message
-- that the protocols of the interface allow.
use swarm_host.Prelude.{
  ℕ, ◌^◌, ◌≤◌, ◌<◌, ◌≡◌, refl, List, [], ◌∷◌, ◌++◌, map, arith, Elem, first, later, Elem-cons,
  Elem-append_left, inl, inr, subst, ap, Bool-cases, ltb,
}
use swarm_host.Substrate.Protocols.{
  ProtocolConfig, NonDefaultSetConfig, NetworkConfiguration, to_usize, saturating_add, maximum,
  default_max, sizes, yamux_maximum_buffer_size, maximum-le, le-maximum,
}

Elem-map {ℓ κ} :
    {A : Type ℓ} {B : Type κ} (f : A → B) (x : A) (xs : List A) → Elem x xs → Elem (f x) (map f xs)
Elem-map f x (y ∷ ys) e = elim (Elem-cons e) [
  | inl p ↦ subst (λ z. Elem (f x) (z ∷ map f ys)) (ap f p) (first (map f ys))
  | inr k ↦ later (f y) (Elem-map f x ys k)
]
Elem-map f x [] e = elim e [ ]

Elem-append_right {ℓ} : {A : Type ℓ} (x : A) (xs ys : List A) → Elem x ys → Elem x (xs ++ ys)
Elem-append_right x [] ys e = e
Elem-append_right x (z ∷ zs) ys e = later z (Elem-append_right x zs ys e)

Elem-second {ℓ} : {A : Type ℓ} (x y z : A) (zs : List A) → Elem x (y ∷ zs) → Elem x (y ∷ z ∷ zs)
Elem-second x y z zs e = elim (Elem-cons e) [
  | inl p ↦ subst (λ w. Elem x (w ∷ z ∷ zs)) p (first (z ∷ zs))
  | inr k ↦ later y (later z k)
]

maximum-Elem : (n : ℕ) (ms : List ℕ) → Elem (maximum n ms) (n ∷ ms)
unfolding maximum
maximum-Elem n [] = first []
maximum-Elem n (m ∷ ms) = elim (Bool-cases (ltb (maximum n ms) m)) [
  | inl e ↦ rw (e, maximum) (later n (first ms))
  | inr e ↦ rw (e, maximum) (Elem-second _ n m ms (maximum-Elem n ms))
]

saturating_add_mono : (a b k : ℕ) → a ≤ b → saturating_add a k ≤ saturating_add b k
unfolding saturating_add
saturating_add_mono a b k h = ground (arith, h)

-- A buffer of this size holds a request, a response and a notification of every protocol, and ten
-- bytes more, as far as a usize goes; it is no larger than the largest of them, or of the default,
-- needs.
pub record Fits (c : NetworkConfiguration) (b : ℕ) : Type 0 where
  pub requests :
      (p : ProtocolConfig)
      → Elem p c.request_response_protocols
      → saturating_add (to_usize p.max_request_size) 10 ≤ b
  pub responses :
      (p : ProtocolConfig)
      → Elem p c.request_response_protocols
      → saturating_add (to_usize p.max_response_size) 10 ≤ b
  pub notifications :
      (s : NonDefaultSetConfig)
      → Elem s c.extra_sets
      → saturating_add (to_usize s.max_notification_size) 10 ≤ b
  pub default : saturating_add default_max 10 ≤ b
  pub least : (m : ℕ) × Elem m (default_max ∷ sizes c) × (b ≡ saturating_add m 10)
  pub is_usize : b < 2 ^ 64

module _ (c : NetworkConfiguration) where
  size-le : (m : ℕ) → Elem m (sizes c) → saturating_add m 10 ≤ yamux_maximum_buffer_size c
  unfolding yamux_maximum_buffer_size
  size-le m e = saturating_add_mono m _ 10 (maximum-le default_max (sizes c) m e)

  saturating_add-lt : (a b : ℕ) → saturating_add a b < 2 ^ 64
  unfolding saturating_add
  saturating_add-lt a b = ground arith

  -- The buffer of a connection holds the largest request, response and notification of every
  -- protocol of the configuration, and ten bytes more, as far as a usize goes; its size is that of
  -- one of them, or of the default, with the ten bytes, and it is a usize.
  pub yamux_maximum_buffer_size-Fits : Fits c (yamux_maximum_buffer_size c)
  unfolding yamux_maximum_buffer_size
  yamux_maximum_buffer_size-Fits = record {
    requests =
        λ p e. size-le _ (Elem-append_left _ (Elem-map (λ q. to_usize q.max_request_size) p _ e));
    responses = λ p e. size-le _ (
        Elem-append_right _ _ _
          (Elem-append_left _ (Elem-map (λ q. to_usize q.max_response_size) p _ e)));
    notifications = λ s e. size-le _ (
        Elem-append_right _ _ _
          (Elem-append_right _ _ _ (Elem-map (λ q. to_usize q.max_notification_size) s _ e)));
    default = saturating_add_mono default_max _ 10 (le-maximum default_max (sizes c));
    least = (maximum default_max (sizes c), maximum-Elem default_max (sizes c), refl);
    is_usize = saturating_add-lt (maximum default_max (sizes c)) 10;
  }
