-- ===== src/View/Edges.antt =====
-- `Neighbors`, `OutNeighbors` and `InNeighbors` of graph/view.go, and the visits that go on after
-- their callback has stopped them.
use itt_engine.Prelude.{◌≡◌, ◌≢◌, Bool, true, false, ◌||◌, Str, str_key, arith, ◌∷◌, [], ◌++◌}
use itt_engine.Map
use itt_engine.Map.{Map, mem, distinct}
use itt_engine.Graph
use itt_engine.Graph.{Graph, NodeData, edge_key, flag}
use itt_engine.Graph.Valid.{IsValid, joins}
use itt_engine.Graph.Neighbors.{collect_twice, neighbors_lem, flag-put}
use itt_engine.View.{
  UnifiedView, neighbors, out_neighbors, in_neighbors, collect_both, for_each, for_each_node,
}

-- whether an edge of one of the layers goes from `a` to `b`
abbrev pub either_joins : {F : Type 0} → Str → Str → UnifiedView F → Bool
either_joins a b v =
    joins a b (Map.get (edge_key a b) v.overlay.edges)
    || joins a b (Map.get (edge_key a b) v.base.edges)

module _ {F : Type 0} (v : UnifiedView F) where
  -- Over two valid layers, the lists of neighbours hold, once each, the nodes that an edge of
  -- either layer joins the node with in the directions asked for.
  pub view_neighbors_lem :
      (a b : Str)
      → IsValid v.overlay
      → IsValid v.base
      → (distinct (neighbors a v) ≡ true)
        × (distinct (out_neighbors a v) ≡ true)
        × (distinct (in_neighbors a v) ≡ true)
        × (mem b (neighbors a v) ≡ (either_joins a b v || either_joins b a v))
        × (mem b (out_neighbors a v) ≡ either_joins a b v)
        × (mem b (in_neighbors a v) ≡ either_joins b a v)
  unfolding neighbors out_neighbors in_neighbors collect_both
  view_neighbors_lem a b vo vb =
      let over = neighbors_lem v.overlay vo a b in
      let under = neighbors_lem v.base vb a b in
      let (one, all) = collect_twice (Graph.neighbors a v.overlay) (Graph.neighbors a v.base) in
      let (one', outs) =
        collect_twice (Graph.out_neighbors a v.overlay) (Graph.out_neighbors a v.base) in
      let (one'', ins) =
        collect_twice (Graph.in_neighbors a v.overlay) (Graph.in_neighbors a v.base) in
      (one, one', one'', ground (arith, all b), ground (arith, outs b), ground (arith, ins b))

  -- A callback that asks to stop at its first node, met in the overlay, is called once more where
  -- the first node of the base is another one.
  pub for_each_node-resumes :
      (k j : Str) (n m : NodeData F) (overs unders : Map Str (NodeData F))
      → v.overlay.nodes ≡ (k, n) ∷ overs
      → v.base.nodes ≡ (j, m) ∷ unders
      → n.id ≢ m.id
      → for_each_node (λ x l. (l ++ (x ∷ []), false)) v [] ≡ n ∷ m ∷ []
  unfolding for_each_node for_each flag Map.get Map.put
  for_each_node-resumes k j n m overs unders p q ne =
      rw (p, q) (ground (arith, flag-put n.id m.id []))
