-- ===== src/Graph.antt =====
-- The graph library (petgraph's `Graph<N, (), Undirected>`) that src/overseer.rs keeps its links in.
-- It is no part of the sources, so its operations and their documented behaviour are a parameter.
-- Nodes and edges are numbered in the order in which they were added; removing an edge gives its
-- number to the last one; adding an edge wants two nodes of the graph.
pub mod Paths
pub mod Edges
use swarm_host.Prelude.{
  ℕ, zero, suc, ◌≤◌, ◌<◌, ◌≡◌, ◌↔◌, ◌++◌, Option, none, some, List, [], ◌∷◌, length, get_elem?,
  Elem, Unique,
}
use Paths.{Connected}

module _ {ℓ} {A : Type ℓ} where
  abbrev pub set : List A → ℕ → A → List A
  set [] i v = []
  set (x ∷ xs) zero v = v ∷ xs
  set (x ∷ xs) (suc i) v = x ∷ set xs i v

  -- All but the last item, and the last one.
  unfoldable pub split_last : A → List A → List A × A
  split_last x [] = ([], x)
  split_last x (y ∷ ys) = let (front, last) = split_last y ys in (x ∷ front, last)

  -- Vec::swap_remove, and nothing where the index is out of range.
  unfoldable pub swap_remove : ℕ → List A → List A
  unfolding split_last
  swap_remove i [] = []
  swap_remove i (x ∷ xs) = let (front, last) = split_last x xs in set front i last

pub record UnGraph (N : Type 0) : Type 1 where
  pub Graph : Type 0
  pub new_undirected : Graph
  pub add_node : N → Graph → ℕ × Graph
  pub add_edge : ℕ → ℕ → Graph → ℕ × Graph
  pub remove_edge : ℕ → Graph → Option (Unit {0}) × Graph
  pub node_weight : ℕ → Graph → Option N
  -- Dfs::new(&graph, start).iter(&graph), collected
  pub dfs : ℕ → Graph → List ℕ
  -- raw_nodes() and raw_edges(): what the graph holds, by number
  pub nodes : Graph → List N
  pub edges : Graph → List (ℕ × ℕ)

-- The documented behaviour.
pub record UnGraphLaws {N : Type 0} (G : UnGraph N) : Type 0 where
  pub edges-new_undirected : G.edges G.new_undirected ≡ []
  pub node_weight_lem : (i : ℕ) (g : G.Graph) → G.node_weight i g ≡ get_elem? (G.nodes g) i
  pub add_node_index : (n : N) (g : G.Graph) → (G.add_node n g).0 ≡ length (G.nodes g)
  pub nodes-add_node : (n : N) (g : G.Graph) → G.nodes (G.add_node n g).1 ≡ G.nodes g ++ n ∷ []
  pub edges-add_node : (n : N) (g : G.Graph) → G.edges (G.add_node n g).1 ≡ G.edges g
  pub add_edge_index :
      (a b : ℕ) (g : G.Graph)
      → a < length (G.nodes g)
      → b < length (G.nodes g)
      → (G.add_edge a b g).0 ≡ length (G.edges g)
  pub nodes-add_edge :
      (a b : ℕ) (g : G.Graph)
      → a < length (G.nodes g)
      → b < length (G.nodes g)
      → G.nodes (G.add_edge a b g).1 ≡ G.nodes g
  pub edges-add_edge :
      (a b : ℕ) (g : G.Graph)
      → a < length (G.nodes g)
      → b < length (G.nodes g)
      → G.edges (G.add_edge a b g).1 ≡ G.edges g ++ (a, b) ∷ []
  pub remove_edge_in :
      (e : ℕ) (g : G.Graph) → e < length (G.edges g) → (G.remove_edge e g).0 ≡ some tt
  pub remove_edge_out :
      (e : ℕ) (g : G.Graph) → length (G.edges g) ≤ e → G.remove_edge e g ≡ (none, g)
  pub nodes-remove_edge : (e : ℕ) (g : G.Graph) → G.nodes (G.remove_edge e g).1 ≡ G.nodes g
  pub edges-remove_edge :
      (e : ℕ) (g : G.Graph)
      → e < length (G.edges g)
      → G.edges (G.remove_edge e g).1 ≡ swap_remove e (G.edges g)
  pub dfs_visits :
      (i j : ℕ) (g : G.Graph)
      → i < length (G.nodes g)
      → Elem j (G.dfs i g) ↔ Connected (G.edges g) i j
  pub dfs_once : (i : ℕ) (g : G.Graph) → Unique (G.dfs i g)
