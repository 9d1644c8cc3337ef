-- ===== src/Tests/Pointers.antt =====
-- graph/immutable.go on a heap with the layer of ann and bob.
use itt_engine.Prelude.{ℕ, ◌≡◌, refl, Str-discrete, [], ◌∷◌, some}
use itt_engine.Map
use itt_engine.Map.{values}
use itt_engine.Graph
use itt_engine.Graph.{Graph, edge_key, ensure_row, link}
use itt_engine.Graph.AddEdge.{add_edge_graph, put_edge_graph}
use itt_engine.Immutable
use itt_engine.Immutable.{copy_nodes, touch, widen}
use itt_engine.Immutable.Copy.{deep_copy_graph}
use itt_engine.Immutable.CopyLoops.{copy_edges_graph}
use itt_engine.Immutable.WithEvent.{with_event_graph}
use itt_engine.Heap.{Heap, Refs, with_event}
use itt_engine.Heap.Reads.{read}
use itt_engine.Heap.Copies.{Shows}
use itt_engine.Heap.Refine.{with_event-Shows}
use itt_engine.Tests.{nat_float, ann, bob, call, layer, layer-IsValid}

abbrev cells : Heap ℕ
cells = record { nodes = values (layer 3).nodes; edges = values (layer 3).edges }

abbrev refs : Refs
refs = record {
  nodes = (ann, 0) ∷ (bob, 1) ∷ [];
  edges = (edge_key ann bob, 0) ∷ [];
  out = (layer 3).out;
  into = (layer 3).into;
}

refs-Shows : Shows refs cells (layer 3)
unfolding read with_event_graph touch widen Map.modify Map.get Map.put Str-discrete add_edge_graph
    put_edge_graph Graph.ensure_node Graph.add_node deep_copy_graph copy_edges_graph copy_nodes
    edge_key
refs-Shows = record { nodes = refl; edges = refl; out = refl; into = refl }

with_event-Shows_example :
    (w : Refs × Heap ℕ) × (v' : Graph ℕ) × (with_event ann bob 4 call 9 refs cells ≡ some w)
    × (Immutable.with_event ann bob 4 call 9 (layer 3) ≡ some v')
    × Shows w.0 w.1 v'
    × ((other : Refs) (seen : Graph ℕ) → Shows other cells seen → Shows other w.1 seen)
with_event-Shows_example =
    with_event-Shows ann bob 4 call 9 refs cells (layer 3) refs-Shows (layer-IsValid 3)
