-- ===== src/Demo/ListGraph.antt =====
-- The graph library, as lists of nodes and edges: it behaves as the library is documented to.
use swarm_host.Prelude.{
  ℕ, ◌≡◌, refl, sym, ite, if_pos, if_neg, inl, inr, ◌⊎◌, subst, none, some, List, [], ◌∷◌, ◌++◌,
  arith, Elem, first, later, Elem-cons, Unique, ℕ_discrete, dec_lt, length, get_elem?,
}
use swarm_host.Map.{add}
use swarm_host.Graph.{UnGraph, UnGraphLaws, swap_remove}
use swarm_host.Graph.Paths.{Connected, here, forth, back}
use swarm_host.Demo.Components.{label, label-eq_of_Connected, label-Connected}

Elem-add : (a x : ℕ) (s : List ℕ) → Elem x (add ℕ_discrete a s) → (x ≡ a) ⊎ Elem x s
unfolding add
Elem-add a x [] e = Elem-cons e
Elem-add a x (y ∷ s) e = elim (ℕ_discrete y a) [
  | yes p ↦ inr (rw (if_pos _ p) at e)
  | no p ↦ elim (Elem-cons (rw (if_neg _ p) at e)) [
    | inl q ↦ inr (subst (λ z. Elem z (y ∷ s)) (sym q) (first s))
    | inr k ↦ elim (Elem-add a x s k) [ inl q ↦ inl q | inr k' ↦ inr (later y k') ]
  ]
]

add-Elem_new : (a : ℕ) (s : List ℕ) → Elem a (add ℕ_discrete a s)
unfolding add
add-Elem_new a [] = first []
add-Elem_new a (y ∷ s) = elim (ℕ_discrete y a) [
  | yes p ↦ rw (if_pos _ p) (subst (λ z. Elem z (y ∷ s)) p (first s))
  | no p ↦ rw (if_neg _ p) (later y (add-Elem_new a s))
]

add-Elem_old : (a x : ℕ) (s : List ℕ) → Elem x s → Elem x (add ℕ_discrete a s)
unfolding add
add-Elem_old a x [] e = elim e [ ]
add-Elem_old a x (y ∷ s) e = elim (ℕ_discrete y a) [
  | yes p ↦ rw (if_pos _ p) e
  | no p ↦ rw (if_neg _ p) (elim (Elem-cons e) [
    | inl q ↦ subst (λ z. Elem z (y ∷ add ℕ_discrete a s)) (sym q) (first _)
    | inr k ↦ later y (add-Elem_old a x s k)
  ])
]

add-Unique : (a : ℕ) (s : List ℕ) → Unique s → Unique (add ℕ_discrete a s)
unfolding add
add-Unique a [] u = (λ e. elim e [ ], tt)
add-Unique a (y ∷ s) u = elim (ℕ_discrete y a) [
  | yes p ↦ rw (if_pos _ p) u
  | no p ↦
      rw (if_neg _ p)
        (λ e. elim (Elem-add a y s e) [ inl q ↦ p q | inr k ↦ u.0 k ], add-Unique a s u.1)
]

-- The start, and the ends of all edges.
unfoldable pub ends : ℕ → List (ℕ × ℕ) → List ℕ
ends i [] = i ∷ []
ends i ((a, b) ∷ es) = a ∷ b ∷ ends i es

-- Those of the candidates that have the label of `i`, once each.
unfoldable pub visit : List (ℕ × ℕ) → ℕ → List ℕ → List ℕ
visit es i [] = []
visit es i (c ∷ cs) =
    let rest = visit es i cs in
    ite (ℕ_discrete (label es c) (label es i)) (add ℕ_discrete c rest) rest

visit-Unique : (es : List (ℕ × ℕ)) (i : ℕ) (cs : List ℕ) → Unique (visit es i cs)
unfolding visit
visit-Unique es i [] = tt
visit-Unique es i (c ∷ cs) = elim (ℕ_discrete (label es c) (label es i)) [
  | yes p ↦ rw (if_pos _ p) (add-Unique c (visit es i cs) (visit-Unique es i cs))
  | no p ↦ rw (if_neg _ p) (visit-Unique es i cs)
]

visit_sound :
    (es : List (ℕ × ℕ)) (i j : ℕ) (cs : List ℕ) → Elem j (visit es i cs) → label es j ≡ label es i
unfolding visit
visit_sound es i j [] e = elim e [ ]
visit_sound es i j (c ∷ cs) e = elim (ℕ_discrete (label es c) (label es i)) [
  | yes p ↦ elim (Elem-add c j (visit es i cs) (rw (if_pos _ p) at e)) [
    | inl q ↦ subst (λ z. label es z ≡ label es i) (sym q) p
    | inr k ↦ visit_sound es i j cs k
  ]
  | no p ↦ visit_sound es i j cs (rw (if_neg _ p) at e)
]

visit_complete :
    (es : List (ℕ × ℕ)) (i j : ℕ) (cs : List ℕ)
    → Elem j cs
    → label es j ≡ label es i
    → Elem j (visit es i cs)
unfolding visit
visit_complete es i j [] e h = elim e [ ]
visit_complete es i j (c ∷ cs) e h = elim (Elem-cons e) [
  | inl q ↦
      rw (if_pos _ (subst (λ z. label es z ≡ label es i) q h))
        (subst (λ z. Elem z (add ℕ_discrete c (visit es i cs))) (sym q) (add-Elem_new c _))
  | inr k ↦ elim (ℕ_discrete (label es c) (label es i)) [
    | yes p ↦ rw (if_pos _ p) (add-Elem_old c j _ (visit_complete es i j cs k h))
    | no p ↦ rw (if_neg _ p) (visit_complete es i j cs k h)
  ]
]

start-Elem : (i : ℕ) (es : List (ℕ × ℕ)) → Elem i (ends i es)
unfolding ends
start-Elem i [] = first []
start-Elem i ((a, b) ∷ es) = later a (later b (start-Elem i es))

Elem-ends :
    (i : ℕ) {a b : ℕ} (es : List (ℕ × ℕ)) → Elem (a, b) es → Elem a (ends i es) × Elem b (ends i es)
unfolding ends
Elem-ends i [] e = elim e [ ]
Elem-ends i {a} {b} ((c, d) ∷ es) e = elim (Elem-cons e) [
  | inl p ↦
      subst (λ (t : ℕ × ℕ). Elem t.0 (c ∷ d ∷ ends i es) × Elem t.1 (c ∷ d ∷ ends i es)) (sym p)
        (first _, later c (first _))
  | inr k ↦ (later c (later d (Elem-ends i es k).0), later c (later d (Elem-ends i es k).1))
]

Connected-ends :
    (i : ℕ) {es : List (ℕ × ℕ)} {x y : ℕ}
    → Connected es x y
    → Elem x (ends i es)
    → Elem y (ends i es)
Connected-ends i (here a) h = h
Connected-ends i {es} (forth a b e c) h = Connected-ends i c (Elem-ends i es e).1
Connected-ends i {es} (back a b e c) h = Connected-ends i c (Elem-ends i es e).0

pub record Lists : Type 0 where
  pub node_list : List ℕ
  pub edge_list : List (ℕ × ℕ)

abbrev pub list_graph : UnGraph ℕ
list_graph = record {
  Graph = Lists;
  new_undirected = record { node_list = []; edge_list = [] };
  add_node = λ n g. (length g.node_list, record g { node_list = g.node_list ++ n ∷ [] });
  add_edge = λ a b g. (length g.edge_list, record g { edge_list = g.edge_list ++ (a, b) ∷ [] });
  remove_edge = λ e g.
      ite (dec_lt e (length g.edge_list))
        (some tt, record g { edge_list = swap_remove e g.edge_list }) (none, g);
  node_weight = λ i g. get_elem? g.node_list i;
  dfs = λ i g. visit g.edge_list i (ends i g.edge_list);
  nodes = λ g. g.node_list;
  edges = λ g. g.edge_list;
}

pub list_graph-laws : UnGraphLaws list_graph
list_graph-laws = record {
  edges-new_undirected = refl;
  node_weight_lem = λ i g. refl;
  add_node_index = λ n g. refl;
  nodes-add_node = λ n g. refl;
  edges-add_node = λ n g. refl;
  add_edge_index = λ a b g p q. refl;
  nodes-add_edge = λ a b g p q. refl;
  edges-add_edge = λ a b g p q. refl;
  remove_edge_in = λ e g h. ground arith;
  remove_edge_out = λ e g h. rw (if_neg (dec_lt e (length g.edge_list)) (omega arith));
  nodes-remove_edge = λ e g. ground arith;
  edges-remove_edge = λ e g h. ground arith;
  dfs_visits = λ i j g h. (
    λ e. label-Connected g.edge_list i j (sym (visit_sound g.edge_list i j (ends i g.edge_list) e)),
    λ c.
        visit_complete g.edge_list i j (ends i g.edge_list)
          (Connected-ends i c (start-Elem i g.edge_list)) (sym (label-eq_of_Connected c)),
  );
  dfs_once = λ i g. visit-Unique g.edge_list i (ends i g.edge_list);
}
