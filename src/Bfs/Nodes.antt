-- ===== src/Bfs/Nodes.antt =====
-- `bfsDistances` of analysis/curvature.go on the view of two valid layers.
use itt_engine.Prelude.{
  ◌≡◌, refl, ℕ, suc, ◌≤◌, true, Option, none, some, List, [], ◌∷◌, Str, str_key, arith, length,
  Float, ◌↔◌, sym, ap, ◌∙◌,
}
use itt_engine.Map
use itt_engine.Map.{Map, OnSome, is_some, mem, keys}
use itt_engine.Map.Laws.{mem-keys}
use itt_engine.Graph.Neighbors.{neighbors_lem}
use itt_engine.Graph
use itt_engine.Graph.{Graph, NodeData, EdgeData, edge_key}
use itt_engine.Graph.Valid.{IsValid, IsPlaced, joins}
use itt_engine.View
use itt_engine.View.{UnifiedView}
use itt_engine.View.Visits.{visited, visited_lem, ids}
use itt_engine.View.Edges.{view_neighbors_lem}
use itt_engine.Analysis.{GraphView, of_view, of_graph}
use itt_engine.Bfs.{begin, bfs_distances}
use itt_engine.Bfs.Scan.{unseen}
use itt_engine.Bfs.Loop.{IsShortest, Inv-begin, loop-Inv, shortest}

unseen-le-length : (all : List Str) (dist : Map Str ℕ) → unseen all dist ≤ length all
unseen-le-length [] dist = omega arith
unseen-le-length (id ∷ all) dist = ground (arith, unseen-le-length all dist)

module _ {F : Type 0} where
  -- Where every neighbour is among the nodes, `bfsDistances` returns, and the distance it gives a
  -- node is the length of a shortest walk from the source, where that is no larger than the depth.
  pub bfs_distances_lem :
      (g : GraphView F) (all : List Str) (src : Str) (max_depth : ℕ)
      → ((u v : Str) → mem v (g.neighbors u) ≡ true → mem v all ≡ true)
      → length all ≡ g.node_count
      → (dist : Map Str ℕ) × (bfs_distances g src max_depth ≡ some dist)
        × ((v : Str) (d : ℕ)
            → (Map.get v dist ≡ some d) ↔ ((d ≤ max_depth) × IsShortest g.neighbors src v d))
  unfolding bfs_distances
  bfs_distances_lem g all src max_depth closed counted =
      let (t, runs, inv, empty) =
        loop-Inv g.neighbors max_depth src all closed (suc g.node_count) (begin src)
          (Inv-begin g.neighbors max_depth src)
          (omega (arith, unseen-le-length all ((src, 0) ∷ []))) in
      (t.dist, runs, λ v d. shortest g.neighbors max_depth src t v d inv empty)

  joined_end :
      (nodes : Map Str (NodeData F)) (k a b : Str) (o : Option (EdgeData F))
      → OnSome (IsPlaced nodes k) o
      → joins a b o ≡ true
      → (Map.contains a nodes ≡ true) × (Map.contains b nodes ≡ true)
  joined_end nodes k a b none h j = absurd (ground arith)
  joined_end nodes k a b (some e) h j = ground arith

  layer_ends :
      (g : Graph F) (a b : Str)
      → IsValid g
      → joins a b (Map.get (edge_key a b) g.edges) ≡ true
      → (Map.contains a g.nodes ≡ true) × (Map.contains b g.nodes ≡ true)
  layer_ends g a b valid =
      joined_end g.nodes (edge_key a b) a b (Map.get (edge_key a b) g.edges)
        (valid.edges_placed (edge_key a b))

module _ {F : Type 0} ⦃float : Float F⦄ where
  neighbor-visited :
      (v : UnifiedView F) (a b : Str)
      → IsValid v.overlay
      → IsValid v.base
      → mem b (View.neighbors a v) ≡ true
      → mem b (ids (visited v)) ≡ true
  unfolding View.get_node Graph.get_node
  neighbor-visited v a b vo vb m = ground (
    arith,
    view_neighbors_lem v a b vo vb,
    visited_lem v vo vb,
    (visited_lem v vo vb).1 b,
    layer_ends v.overlay a b vo,
    layer_ends v.overlay b a vo,
    layer_ends v.base a b vb,
    layer_ends v.base b a vb,
  )

  length-keys : (m : Map Str (NodeData F)) → length (keys m) ≡ length m
  length-keys [] = refl
  length-keys ((k, n) ∷ m) = ap suc (length-keys m)

  length-ids_visited : (l : List (NodeData F)) → length (ids l) ≡ length l
  length-ids_visited [] = refl
  length-ids_visited (n ∷ l) = ap suc (length-ids_visited l)

  -- Over two valid layers `bfsDistances` returns, whatever its source. It gives a node a distance
  -- just when a walk along neighbours that the view shows leads to it in no more steps than the
  -- depth, and the distance is the least number of steps.
  pub bfs_distances-view :
      (v : UnifiedView F) (src : Str) (max_depth : ℕ)
      → IsValid v.overlay
      → IsValid v.base
      → (dist : Map Str ℕ) × (bfs_distances (of_view v) src max_depth ≡ some dist)
        × ((id : Str) (d : ℕ)
            → (Map.get id dist ≡ some d)
              ↔ ((d ≤ max_depth) × IsShortest (λ u. View.neighbors u v) src id d))
  bfs_distances-view v src max_depth vo vb =
      bfs_distances_lem (of_view v) (ids (visited v)) src max_depth
        (λ a b. neighbor-visited v a b vo vb)
        (length-ids_visited (visited v) ∙ sym ((visited_lem v vo vb).2))

  -- over one valid layer too `bfsDistances` returns
  pub bfs_distances-graph :
      (g : Graph F) (src : Str) (max_depth : ℕ)
      → IsValid g
      → is_some (bfs_distances (of_graph g) src max_depth) ≡ true
  unfolding Graph.node_count
  bfs_distances-graph g src max_depth v =
      let (dist, runs, near) =
        bfs_distances_lem (of_graph g) (keys g.nodes) src max_depth
          (λ a b m. ground (
            arith,
            neighbors_lem g v a b,
            layer_ends g a b v,
            layer_ends g b a v,
            mem-keys b g.nodes,
          ))
          (length-keys g.nodes) in
      ground arith
