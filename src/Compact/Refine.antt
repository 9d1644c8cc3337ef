-- ===== src/Compact/Refine.antt =====
-- compact/compact.go against graph/view.go: the compacted graph shows what the view of the two
-- layers showed.
use itt_engine.Prelude.{◌≡◌, Option, none, some, Str, str_key, arith, ◌+◌, Float, Time, ◌∙◌, sub_ℕ}
use itt_engine.Map
use itt_engine.Map.{Map, OnSome, AllEntries, is_some, keys, distinct}
use itt_engine.Map.Entries.{entries_of_get}
use itt_engine.Graph
use itt_engine.Graph.{
  Graph, NodeData, EdgeData, edge_key, new, get_node, get_edge, node_count, edge_count, accumulate,
}
use itt_engine.Graph.Valid.{IsValid}
use itt_engine.Immutable.Copy.{
  deep_copy_graph, deep_copy-some, deep_copy_graph-IsValid, get-edges-deep_copy,
  get-nodes-deep_copy,
}
use itt_engine.View
use itt_engine.View.{UnifiedView, pick_edge, merge_edges}
use itt_engine.Compact.{overlay_node, copy_overlay_nodes, extend, compact, Stats}
use itt_engine.Compact.Nodes.{
  node_type, add_all, copy_base_nodes-eq, copy_overlay_nodes-eq, add_all-IsValid, edges-add_all,
  type-add_all,
}
use itt_engine.Compact.Merge.{merge_all, merge_all-IsValid, get-edges-merge_all, type-merge_all}
use itt_engine.Compact.Loops.{
  IsTimed, IsTimely, kept_edge, extend_keeps, overlay_keeps, copy_base_edges-some, merged_count,
  copy_overlay_edges-some, merged_shown,
}
use itt_engine.Compact.Base.{
  copied_type, keyed, backed, base_nodes, base_graph, base_nodes-IsValid, base_graph-IsValid,
  get-edges-base_graph, type-base_graph,
}

module _ {F : Type 0} ⦃float : Float F⦄ (base overlay : Graph F) (vb : IsValid base)
    (vo : IsValid overlay) where
  abbrev both_nodes : Graph F
  both_nodes = add_all overlay_node overlay.nodes (base_graph base vb)

  -- the graph that `Compact` copies at its end
  unfoldable pub merged_graph : Graph F
  merged_graph = merge_all extend extend_keeps overlay.edges both_nodes

  both_nodes-IsValid : IsValid both_nodes
  both_nodes-IsValid =
      add_all-IsValid overlay_node overlay_keeps overlay.nodes (base_graph base vb)
        (base_graph-IsValid base vb)

  pub merged_graph-IsValid : IsValid merged_graph
  unfolding merged_graph
  merged_graph-IsValid =
      merge_all-IsValid extend extend_keeps overlay.edges both_nodes both_nodes-IsValid

  type-both_nodes :
      (id : Str)
      → node_type (Map.get id both_nodes.nodes) ≡ elim (Map.get id overlay.nodes) [
        | none ↦ node_type (Map.get id base.nodes)
        | some n ↦ some n.type
      ]
  type-both_nodes id = ground (
    arith,
    type-add_all overlay_node overlay_keeps overlay.nodes (base_graph base vb) id
        (entries_of_get (λ k n. n.id ≡ k) overlay.nodes vo.nodes_distinct vo.nodes_named)
        vo.nodes_distinct,
    type-base_graph base vb id,
  )

  abbrev pub layers : UnifiedView F
  layers = record { base = base; overlay = overlay }

  type-merged_graph :
      (id : Str) → node_type (Map.get id merged_graph.nodes) ≡ node_type (View.get_node id layers)
  unfolding merged_graph View.get_node Graph.get_node
  type-merged_graph id = ground (
    arith,
    type-merge_all extend extend_keeps overlay.edges both_nodes id
        (backed overlay both_nodes vo (λ j h. ground (arith, type-both_nodes j))),
    type-both_nodes id,
  )

  module _ (tb : IsTimely base) (to : IsTimely overlay) where
    get-edges-merged_graph :
        (k : Str)
        → Map.get k merged_graph.edges
          ≡ kept_edge
              (Map.get k base.edges)
              (pick_edge (Map.get k base.edges) (Map.get k overlay.edges))
    unfolding merged_graph
    get-edges-merged_graph k = ground (
      arith,
      get-edges-merge_all extend extend_keeps overlay.edges both_nodes k (keyed overlay vo)
          vo.edges_distinct,
      edges-add_all overlay_node overlay_keeps overlay.nodes (base_graph base vb),
      get-edges-base_graph base vb k,
      merged_shown (Map.get k base.edges) (Map.get k overlay.edges) (tb.timed k) (to.timed k),
    )

    merged-IsTimed :
        (b o : Option (EdgeData F))
        → OnSome IsTimed b
        → OnSome IsTimed o
        → OnSome IsTimed (kept_edge b (pick_edge b o))
    unfolding pick_edge merge_edges
    merged-IsTimed none none p q = tt
    merged-IsTimed (some b) none p q = p
    merged-IsTimed none (some e) p q = q
    merged-IsTimed (some b) (some e) p q = ground arith

    module _ (start finish : Time) where
      compact_stats : Stats
      compact_stats = record {
        nodes_merged = (copy_overlay_nodes overlay.nodes 0 (base_graph base vb)).0;
        edges_merged = merged_count overlay.edges 0 both_nodes;
        overlay_before = node_count overlay + edge_count overlay;
        overlay_after = 0;
        duration = sub_ℕ finish start;
        timestamp = start;
      }

      compact-some :
          compact start finish base overlay ≡ some (deep_copy_graph merged_graph, compact_stats)
      unfolding compact compact_stats merged_graph
      compact-some = rw (
        copy_base_nodes-eq base.nodes new,
        copy_base_edges-some base.edges (base_nodes base vb) (base_nodes-IsValid base vb),
        copy_overlay_nodes-eq overlay.nodes 0 (base_graph base vb),
        copy_overlay_edges-some overlay.edges 0 both_nodes both_nodes-IsValid,
        deep_copy-some merged_graph merged_graph-IsValid,
      )

      -- `Compact` of two valid layers, whose edges are first seen no later than last and counted
      -- in 64 bits, does not panic. Its result is such a graph again; under any pair of endpoints
      -- it has the edge that the view of the layers shows, but for the endpoints and the type,
      -- which are the base's where the base has the edge; and it has the nodes that the view
      -- shows, of the same types.
      pub compact_lem :
          (result : Graph F) × (stats : Stats) × (compact start finish base overlay
            ≡ some (result, stats))
          × IsValid result
          × IsTimely result
          × ((from to : Str)
              → get_edge from to result
                ≡ kept_edge (get_edge from to base) (View.get_edge from to layers))
          × ((id : Str) → node_type (get_node id result) ≡ node_type (View.get_node id layers))
      unfolding get_edge get_node View.get_edge
      compact_lem = (
        deep_copy_graph merged_graph,
        compact_stats,
        compact-some,
        deep_copy_graph-IsValid merged_graph merged_graph-IsValid,
        record {
          timed = λ k. rw (result_edges k) (
              merged-IsTimed (Map.get k base.edges) (Map.get k overlay.edges) (tb.timed k)
                (to.timed k));
        },
        λ from to. result_edges (edge_key from to),
        λ id. ground (
          arith,
          get-nodes-deep_copy merged_graph merged_graph-IsValid id,
          type-merged_graph id,
          copied_type (Map.get id merged_graph.nodes),
        ),
      )
        where
          result_edges :
              (k : Str)
              → Map.get k (deep_copy_graph merged_graph).edges
                ≡ kept_edge
                    (Map.get k base.edges)
                    (pick_edge (Map.get k base.edges) (Map.get k overlay.edges))
          result_edges k =
              get-edges-deep_copy merged_graph merged_graph-IsValid k ∙ get-edges-merged_graph k
