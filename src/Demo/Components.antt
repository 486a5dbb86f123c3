-- ===== src/Demo/Components.antt =====
-- The components of an undirected graph, by labels: each edge joins the labels of its ends.
use swarm_host.Prelude.{
  ℕ, ◌≡◌, refl, sym, ap, ◌∙◌, ite, inl, inr, subst, List, [], ◌∷◌, arith, Elem, first, later,
  Elem-cons, ℕ_discrete,
}
use swarm_host.Graph.Paths.{Connected, here, forth, back}

unfoldable pub label : List (ℕ × ℕ) → ℕ → ℕ
label [] x = x
label ((a, b) ∷ es) x = let f = label es in ite (ℕ_discrete (f x) (f a)) (f b) (f x)

label_edge : {a b : ℕ} (es : List (ℕ × ℕ)) → Elem (a, b) es → label es a ≡ label es b
unfolding label
label_edge {a} {b} ((c, d) ∷ es) e = elim (Elem-cons e) [
  | inl p ↦ ground (arith, ap (λ (t : ℕ × ℕ). t.0) p, ap (λ (t : ℕ × ℕ). t.1) p)
  | inr k ↦ ground (arith, label_edge es k)
]
label_edge [] e = elim e [ ]

pub label-eq_of_Connected :
    {es : List (ℕ × ℕ)} {x y : ℕ} → Connected es x y → label es x ≡ label es y
label-eq_of_Connected (here a) = refl
label-eq_of_Connected {es} (forth a b e c) = label_edge es e ∙ label-eq_of_Connected c
label-eq_of_Connected {es} (back a b e c) = sym (label_edge es e) ∙ label-eq_of_Connected c

Connected-trans :
    {es : List (ℕ × ℕ)} {x y z : ℕ} → Connected es x y → Connected es y z → Connected es x z
Connected-trans (here a) d = d
Connected-trans (forth a b e c) d = forth a b e (Connected-trans c d)
Connected-trans (back a b e c) d = back a b e (Connected-trans c d)

Connected-weaken :
    {es : List (ℕ × ℕ)} {x y : ℕ} (e : ℕ × ℕ) → Connected es x y → Connected (e ∷ es) x y
Connected-weaken e (here a) = here a
Connected-weaken e (forth a b k c) = forth a b (later e k) (Connected-weaken e c)
Connected-weaken e (back a b k c) = back a b (later e k) (Connected-weaken e c)

pub label-Connected : (es : List (ℕ × ℕ)) (x y : ℕ) → label es x ≡ label es y → Connected es x y
unfolding label
label-Connected [] x y h = subst (Connected [] x) h (here x)
label-Connected ((a, b) ∷ es) x y h =
    let old = λ (u v : ℕ) (e : label es u ≡ label es v).
      Connected-weaken (a, b) (label-Connected es u v e) in
    elim (ℕ_discrete (label es x) (label es a)) [
      | yes p ↦ elim (ℕ_discrete (label es y) (label es a)) [
        | yes q ↦ old x y (p ∙ sym q)
        | no q ↦ Connected-trans (old x a p) (forth a b (first es) (old b y (ground arith)))
      ]
      | no p ↦ elim (ℕ_discrete (label es y) (label es a)) [
        | yes q ↦ Connected-trans (old x b (ground arith)) (back a b (first es) (old a y (sym q)))
        | no q ↦ old x y (ground arith)
      ]
    ]
