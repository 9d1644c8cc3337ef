-- ===== src/Tests/Kernels.antt =====
-- The rows and the kernel of gpu/ on the layer of ann and bob.
use itt_engine.Prelude.{
  ◌≡◌, refl, ℕ, suc, zero, ◌+◌, true, some, [], ◌∷◌, ◌++◌, none, Str, arith, Str-discrete, str_key,
}
use itt_engine.Map
use itt_engine.Graph
use itt_engine.Graph.{Graph, NodeData}
use itt_engine.Analysis.{GraphView, of_graph}
use itt_engine.Divergence
use itt_engine.Tension
use itt_engine.Gpu.{
  Arrays, holds, collect_neighbors, collect_from, read_row, read_from, compute_node_tension,
}
use itt_engine.Gpu.Serialize.{
  serialize_csr, serialize_csc, index_from, lay_out, count_degrees, fill, place, increment,
  prefix_sums, sort_rows, sort_slice, sort_csr_row,
}
use itt_engine.Sort.{sort_strings, rounds, shift}
use itt_engine.Parallel.{take, drop}
use itt_engine.Gpu.Kernel.{HasRow, compute_node_tension-calculate}
use itt_engine.Tests.{nat_float, ann, bob, call}

abbrev person : Str → NodeData ℕ
person id = record {
  id = id;
  type = [];
  degree = 1;
  in_degree = 0;
  out_degree = 0;
  attributes = none;
  first_seen = 3;
  last_seen = 3;
}

-- ann calls bob
abbrev graph : Graph ℕ
graph = record {
  nodes = (bob, person bob) ∷ (ann, person ann) ∷ [];
  edges =
      (
        ann ++ (0 ∷ bob),
        record {
          from = ann;
          to = bob;
          weight = 2;
          type = call;
          count = 1;
          first_seen = 3;
          last_seen = 3;
        },
      )
      ∷ [];
  out = (ann, (bob, true) ∷ []) ∷ [];
  into = (bob, (ann, true) ∷ []) ∷ [];
}

abbrev view : GraphView ℕ
view = of_graph graph

abbrev arrays : Arrays ℕ
arrays = record {
  csr_row_ptr = 0 ∷ 1 ∷ 1 ∷ [];
  csr_col_idx = 1 ∷ [];
  csr_values = 2 ∷ [];
  csc_col_ptr = 0 ∷ 0 ∷ 1 ∷ [];
  csc_row_idx = 0 ∷ [];
}

-- ann, bob and the names after them
abbrev letter : ℕ → Str
letter i = (97 + i) ∷ []

letter-apart : (i j : ℕ) → letter i ≡ letter j → i ≡ j
letter-apart i j h = grind arith

rows_of_ann : (n : ℕ) → holds n (0 ∷ []) ≡ true → HasRow arrays view letter n
unfolding holds read_row read_from Graph.get_edge Graph.edge_key Graph.out_neighbors Graph.row
    Map.get Str-discrete
rows_of_ann zero h = ((1, 2) ∷ [], refl, refl, refl)
rows_of_ann (suc n) h = absurd (ground arith)

compute_node_tension-calculate_example :
    compute_node_tension arrays 1 2 ≡ Tension.calculate Divergence.jsd view (letter 1)
unfolding collect_neighbors collect_from holds Graph.get_node Graph.neighbors Graph.collect
    Graph.row Map.get Map.put Str-discrete Graph.flag
compute_node_tension-calculate_example =
    compute_node_tension-calculate arrays view letter letter-apart 1 2 (0 ∷ []) (omega arith) refl
      refl refl rows_of_ann

-- the rows of the view are those arrays
laid_out :
    serialize_csr view
    ≡ some (record {
      rows = record {
        ptr = arrays.csr_row_ptr;
        idx = arrays.csr_col_idx;
        values = arrays.csr_values;
      };
      num_nodes = 2;
      num_edges = 1;
      node_ids = ann ∷ bob ∷ [];
      node_idx = index_from 0 (ann ∷ bob ∷ []) [];
    })
unfolding serialize_csr index_from lay_out count_degrees fill place increment prefix_sums sort_rows
    sort_slice sort_csr_row sort_strings rounds shift Graph.node_count Graph.edge_count Map.get
    Map.put Str-discrete take drop
laid_out = refl

laid_out_by_target :
    serialize_csc view (index_from 0 (ann ∷ bob ∷ []) [])
    ≡ some (record {
      rows = record { ptr = arrays.csc_col_ptr; idx = arrays.csc_row_idx; values = 2 ∷ [] };
      num_nodes = 2;
      num_edges = 1;
    })
unfolding serialize_csc index_from lay_out count_degrees fill place increment prefix_sums sort_rows
    sort_slice sort_csr_row rounds shift Graph.node_count Graph.edge_count Map.get Map.put
    Str-discrete take drop
laid_out_by_target = refl
