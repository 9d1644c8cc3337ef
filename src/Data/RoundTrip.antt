-- ===== src/Data/RoundTrip.antt =====
-- graphToData and then graphFromData, of engine.go: what a storage gives back of a saved graph.
use itt_engine.Prelude.{
  ◌≡◌, refl, true, some, List, [], ◌∷◌, ◌++◌, map, append-nil, append_assoc, Str, str_key, Time,
  Float, arith, ◌∙◌, sym,
}
use itt_engine.Map
use itt_engine.Map.{Map, values}
use itt_engine.Graph.{Graph, NodeData, EdgeData, new, edge_key, get_edge, get_node}
use itt_engine.Graph.Valid.{IsValid}
use itt_engine.Graph.AddEdge.{add_edge-some}
use itt_engine.Immutable.Copy.{
  deep_copy_graph, deep_copy-some, deep_copy_graph-IsValid, get-edges-deep_copy,
  get-nodes-deep_copy,
}
use itt_engine.View.{for_each}
use itt_engine.Compact.{base_node, restore, fix_edge}
use itt_engine.Compact.Nodes.{node_type, add_all}
use itt_engine.Compact.Merge.{merge_all, merge_edge, merge_edge-IsValid}
use itt_engine.Compact.Loops.{restore_keeps}
use itt_engine.Compact.Base.{
  base_nodes, base_graph, base_nodes-IsValid, base_graph-IsValid, get-edges-base_graph,
  type-base_graph, copied_type,
}
use itt_engine.Data.{saved_node, saved_edge, add_nodes, graph_to_data, add_edges, graph_from_data}

-- a loop that appends one item a round
for_each-append :
    {A B : Type 0} (f : A → B) (xs : List A) (acc : List B)
    → for_each (λ x ys. (ys ++ (f x ∷ []), true)) xs acc ≡ acc ++ map f xs
unfolding for_each
for_each-append f [] acc = sym (append-nil acc)
for_each-append f (x ∷ xs) acc =
    for_each-append f xs (acc ++ (f x ∷ [])) ∙ append_assoc acc (f x ∷ []) (map f xs)

module _ {F : Type 0} ⦃float : Float F⦄ where
  add_nodes-saved :
      (m : Map Str (NodeData F)) (g : Graph F)
      → add_nodes (map saved_node (values m)) g ≡ add_all base_node m g
  unfolding add_nodes add_all
  add_nodes-saved [] g = refl
  add_nodes-saved ((k, n) ∷ m) g = add_nodes-saved m _

  add_edges-saved :
      (m : Map Str (EdgeData F)) (g : Graph F)
      → IsValid g
      → add_edges (map saved_edge (values m)) g ≡ some (merge_all restore restore_keeps m g)
  unfolding add_edges merge_all merge_edge fix_edge
  add_edges-saved [] g v = refl
  add_edges-saved ((k, e) ∷ m) g v =
      rw (add_edge-some e.from e.to e.weight e.type e.first_seen g v) (
        add_edges-saved m (merge_edge restore restore_keeps e g)
          (merge_edge-IsValid restore restore_keeps e g v))

  module _ (now : Time) (g : Graph F) (v : IsValid g) where
    graph_from_data-some :
        graph_from_data (graph_to_data now g) ≡ some (deep_copy_graph (base_graph g v))
    unfolding graph_from_data graph_to_data
    graph_from_data-some = rw (
      for_each-append saved_node (values g.nodes) [],
      for_each-append saved_edge (values g.edges) [],
      add_nodes-saved g.nodes new,
      add_edges-saved g.edges (base_nodes g v) (base_nodes-IsValid g v),
      deep_copy-some (base_graph g v) (base_graph-IsValid g v),
    )

    -- A valid graph that is saved and loaded is valid again, has the same edges, with their
    -- weights, counts and times, and has the same nodes of the same types.
    pub graph_from_data-graph_to_data :
        (g' : Graph F) × (graph_from_data (graph_to_data now g) ≡ some g')
        × IsValid g'
        × ((a b : Str) → get_edge a b g' ≡ get_edge a b g)
        × ((id : Str) → node_type (get_node id g') ≡ node_type (get_node id g))
    unfolding get_edge get_node
    graph_from_data-graph_to_data =
        let copied = base_graph g v in
        let valid = base_graph-IsValid g v in
        (
          deep_copy_graph copied,
          graph_from_data-some,
          deep_copy_graph-IsValid copied valid,
          λ a b.
              get-edges-deep_copy copied valid (edge_key a b)
              ∙ get-edges-base_graph g v (edge_key a b),
          λ id. ground (
            arith,
            get-nodes-deep_copy copied valid id,
            copied_type (Map.get id copied.nodes),
            type-base_graph g v id,
          ),
        )
