-- ===== src/Tests/Graphs.antt =====
-- graph/graph.go, graph/immutable.go and graph/view.go on concrete graphs.
use itt_engine.Prelude.{
  arith, refl, Bool, not, false, ◌&&◌, ℕ, ◌≡◌, ite, Str, Str-discrete, str_key, [], ◌∷◌, none, some,
  true, ◌||◌, length,
}
use itt_engine.Map
use itt_engine.Map.{Map, is_some, distinct, mem, keys}
use itt_engine.Graph
use itt_engine.Graph.{
  Graph, NodeData, EdgeData, edge_key, new, get_edge, get_node, add_edge, new_edge, accumulate,
}
use itt_engine.Graph.Valid.{IsValid, joins}
use itt_engine.Graph.AddEdge.{add_edge-IsValid, add_edge_graph, put_edge_graph}
use itt_engine.Graph.Neighbors.{neighbors_lem}
use itt_engine.Immutable.{with_event, deep_copy, copy_nodes, touch, widen}
use itt_engine.Immutable.CopyLoops.{copy_edges_graph}
use itt_engine.Immutable.Copy.{deep_copy_lem, Corresponds, deep_copy_graph}
use itt_engine.Immutable.WithEvent.{with_event_lem, with_event_graph}
use itt_engine.View
use itt_engine.View.{UnifiedView, node_count, for_each_node}
use itt_engine.View.Visits.{visited_lem, visited, ids}
use itt_engine.View.Edges.{view_neighbors_lem, either_joins}
use itt_engine.Tests.{nat_float, ann, bob, call, layer, layer-IsValid}

with_event_lem_example :
    (g' : Graph ℕ) × (with_event ann bob 4 call 9 (layer 3) ≡ some g')
    × IsValid g'
    × ((a b : Str)
        → get_edge a b g'
          ≡ ite
              (Str-discrete (edge_key ann bob) (edge_key a b))
              (elim (get_edge a b (layer 3)) [
                | none ↦ some (new_edge ann bob 4 call 9)
                | some e ↦ some (accumulate 4 9 e)
              ])
              (get_edge a b (layer 3)))
    × ((id : Str)
        → is_some (get_node id g')
          ≡ ite
              (Str-discrete ann id)
              true
              (ite (Str-discrete bob id) true (is_some (get_node id (layer 3)))))
with_event_lem_example = with_event_lem ann bob 4 call 9 (layer 3) (layer-IsValid 3)

add_edge-IsValid_example :
    (g' : Graph ℕ) × (add_edge bob ann 4 call 9 (layer 3) ≡ some g') × IsValid g'
add_edge-IsValid_example = add_edge-IsValid bob ann 4 call 9 (layer 3) (layer-IsValid 3)

abbrev are_bare : Map Str (NodeData ℕ) → Bool
are_bare [] = true
are_bare ((k, n) ∷ m) = not (is_some n.attributes) && are_bare m

get-are_bare :
    (id : Str) (n : NodeData ℕ) (m : Map Str (NodeData ℕ))
    → are_bare m ≡ true
    → Map.get id m ≡ some n
    → is_some n.attributes ≡ false
unfolding Map.get
get-are_bare id n [] h found = absurd (ground arith)
get-are_bare id n ((k, x) ∷ m) h found = elim (Str-discrete k id) [
  | yes this ↦ ground arith
  | no other ↦ get-are_bare id n m (ground arith) (ground arith)
]

layer-bare : are_bare (layer 3).nodes ≡ true
unfolding with_event_graph touch widen Map.modify Map.get Map.put Str-discrete add_edge_graph
    put_edge_graph Graph.ensure_node Graph.add_node deep_copy_graph copy_edges_graph copy_nodes
layer-bare = refl

deep_copy_lem_example :
    (dst : Graph ℕ) × (deep_copy (layer 3) ≡ some dst)
    × IsValid dst
    × ((from to : Str) → get_edge from to dst ≡ get_edge from to (layer 3))
    × ((id : Str) → Corresponds (get_node id (layer 3)) (get_node id dst))
unfolding get_node
deep_copy_lem_example = deep_copy_lem (layer 3) (layer-IsValid 3) (λ id n m found has.
    absurd (ground (arith, get-are_bare id n (layer 3).nodes layer-bare found)))

abbrev both : UnifiedView ℕ
both = record { base = layer 3; overlay = layer 5 }

visited_lem_example :
    (distinct (ids (visited both)) ≡ true)
    × ((id : Str) → mem id (ids (visited both)) ≡ is_some (View.get_node id both))
    × (node_count both ≡ length (visited both))
visited_lem_example = visited_lem both (layer-IsValid 5) (layer-IsValid 3)

view_neighbors_lem_example :
    (distinct (View.neighbors ann both) ≡ true)
    × (distinct (View.out_neighbors ann both) ≡ true)
    × (distinct (View.in_neighbors ann both) ≡ true)
    × (mem bob (View.neighbors ann both) ≡ (either_joins ann bob both || either_joins bob ann both))
    × (mem bob (View.out_neighbors ann both) ≡ either_joins ann bob both)
    × (mem bob (View.in_neighbors ann both) ≡ either_joins bob ann both)
view_neighbors_lem_example = view_neighbors_lem both ann bob (layer-IsValid 5) (layer-IsValid 3)

neighbors_lem_example :
    let out = joins ann bob (Map.get (edge_key ann bob) (layer 3).edges) in
    let into = joins bob ann (Map.get (edge_key bob ann) (layer 3).edges) in
    (distinct (Graph.neighbors ann (layer 3)) ≡ true)
    × (mem bob (Graph.neighbors ann (layer 3)) ≡ (out || into))
    × (mem bob (Graph.out_neighbors ann (layer 3)) ≡ out)
    × (mem bob (Graph.in_neighbors ann (layer 3)) ≡ into)
neighbors_lem_example = neighbors_lem (layer 3) (layer-IsValid 3) ann bob

abbrev node : Str → NodeData ℕ
node id = record {
  id = id;
  type = call;
  attributes = some ((call, 2) ∷ []);
  degree = 0;
  in_degree = 0;
  out_degree = 0;
  first_seen = 3;
  last_seen = 3;
}

abbrev single : Str → Graph ℕ
single id = record { nodes = (id, node id) ∷ []; edges = []; out = []; into = [] }
