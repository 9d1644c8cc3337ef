-- ===== src/Tests/Analyses.antt =====
-- The analyses of analysis/ on concrete layers and lists.
use itt_engine.Prelude.{
  false, ℕ, ◌≡◌, ◌≤◌, refl, Bool, true, Option, none, some, List, [], ◌∷◌, Str, str_key, pos, arith,
  ◌↔◌, map, get_or, if◌then◌else◌, ◌==◌, Time, Str-discrete, ltb,
}
use itt_engine.Map
use itt_engine.Map.{Map, is_some, keys, distinct}
use itt_engine.Graph
use itt_engine.Graph.{Graph, NodeData}
use itt_engine.View
use itt_engine.View.{UnifiedView}
use itt_engine.View.Visits.{ids}
use itt_engine.Analysis.{GraphView, of_graph, of_view}
use itt_engine.Bfs.{bfs_distances}
use itt_engine.Bfs.Loop.{IsShortest}
use itt_engine.Bfs.Nodes.{bfs_distances-view}
use itt_engine.Curvature.{build_cost_matrix}
use itt_engine.Curvature.Costs.{build_cost_matrix-entry}
use itt_engine.Concealment.{calculate_node}
use itt_engine.Concealment.Cost.{weigh, calculate_node_lem}
use itt_engine.Sort.{less_str, sort_strings}
use itt_engine.Sort.Spec.{IsSorted, count, sort_strings_lem}
use itt_engine.Parallel
use itt_engine.Parallel.{Interleaves, partition_nodes, calculate_all, calculate_all_parallel}
use itt_engine.Parallel.Agree.{get-calculate_all_parallel}
use itt_engine.Detectability.{detectability, classify, is_detectable, cps}
use itt_engine.Detectability.Regions.{stands_out, detectability_agrees}
use itt_engine.Calibrator.{Calibrator, Choice, new_calibrator, observe_all, is_anomaly}
use itt_engine.Calibrator.Frozen.{verdict, observe_all-verdict}
use itt_engine.Aggregation.Maximum.{Holds}
use itt_engine.Indicators.{mark_keys, delta, indicators}
use itt_engine.Indicators.Spike.{tension_spike_lem}
use itt_engine.Tests.{nat_float, ann, bob, layer, layer-IsValid}

abbrev both : UnifiedView ℕ
both = record { base = layer 3; overlay = layer 5 }

bfs_distances-view_example :
    (dist : Map Str ℕ) × (bfs_distances (of_view both) ann 4 ≡ some dist)
    × ((id : Str) (d : ℕ)
        → (Map.get id dist ≡ some d) ↔ ((d ≤ 4) × IsShortest (λ u. View.neighbors u both) ann id d))
bfs_distances-view_example = bfs_distances-view both ann 4 (layer-IsValid 5) (layer-IsValid 3)

build_cost_matrix-entry_example :
    (cost : List (List ℕ)) × (dist : Map Str ℕ) × (build_cost_matrix (of_view both) (ann ∷ bob ∷ [])
      ≡ some cost)
    × (get_or (get_or cost 0 []) 1 0
        ≡ (if 0 == 1 then 0 else elim (Map.get bob dist) [ none ↦ 4 | some d ↦ d ]))
    × ((d : ℕ)
        → (Map.get bob dist ≡ some d)
          ↔ ((d ≤ 4) × IsShortest (λ u. View.neighbors u both) ann bob d))
build_cost_matrix-entry_example =
    build_cost_matrix-entry both (layer-IsValid 5) (layer-IsValid 3) (ann ∷ bob ∷ []) 0 1 ann bob
      refl refl

abbrev node : Str → NodeData ℕ
node id = record {
  id = id;
  type = [];
  degree = 1;
  in_degree = 0;
  out_degree = 1;
  attributes = none;
  first_seen = 3;
  last_seen = 3;
}

-- ann beside bob
abbrev pair : Graph ℕ
pair = record {
  nodes = (ann, node ann) ∷ (bob, node bob) ∷ [];
  edges = [];
  out = (ann, (bob, true) ∷ []) ∷ [];
  into = (bob, (ann, true) ∷ []) ∷ [];
}

abbrev one_each : Str → Option ℕ
one_each id = some 1

calculate_node_lem_example :
    (around : Map Str ℕ) × (calculate_node 1 one_each (of_graph pair) ann (pos 2)
      ≡ weigh 1 one_each 0 around)
    × (distinct (keys around) ≡ true)
    × ((v : Str) (d : ℕ)
        → (Map.get v around ≡ some d) ↔ ((d ≤ 2) × IsShortest (of_graph pair).neighbors ann v d))
unfolding Graph.get_node Map.get Str-discrete
calculate_node_lem_example = calculate_node_lem 1 one_each (of_graph pair) ann 2 refl

abbrev p : List ℕ
p = 1 ∷ 2 ∷ []

abbrev q : List ℕ
q = 3 ∷ 0 ∷ []

detectability_agrees_example :
    let d = detectability p 1 in
    (stands_out (classify p 1) ≡ is_detectable p 1)
    × (stands_out d.region ≡ ltb d.threshold d.snr)
    × ((if stands_out d.region then 0 else cps p 5 1) ≡ 0)
detectability_agrees_example =
    detectability_agrees refl refl (λ x. ground arith) (λ x y s h. ground arith) p 5 1

abbrev run : List (Time × ℕ)
run = (1, 4) ∷ (2, 6) ∷ (3, 90) ∷ []

abbrev opts : List (Choice ℕ)
opts = Choice.with_k 3 ∷ Choice.with_warmup_size (pos 2) ∷ []

observe_all-verdict_example :
    (c : Calibrator ℕ) × (observe_all (λ xs. xs) run (new_calibrator 0 opts) ≡ some c)
    × ((tension : ℕ)
        → verdict (λ xs. xs) 3 2 (map (λ r. r.1) run) tension ≡ some (is_anomaly tension c))
observe_all-verdict_example = observe_all-verdict (λ xs. xs) (λ xs. refl) 3 2 0 run (omega arith)

-- one node is too few for a second worker
abbrev lone : GraphView ℕ
lone = of_graph (record pair { nodes = (ann, node ann) ∷ [] })

one_turn : Interleaves (partition_nodes 4 (pos 2) (ids lone.nodes)) (ann ∷ [])
unfolding partition_nodes Parallel.chunks_from Parallel.take Parallel.drop
one_turn = Interleaves.next [] ann [] [] refl (Interleaves.done refl)

abbrev five : Str → ℕ
five id = 5

get-calculate_all_parallel_example :
    Map.get ann (calculate_all_parallel five lone (ann ∷ []))
    ≡ Map.get ann (calculate_all five lone)
get-calculate_all_parallel_example =
    get-calculate_all_parallel five lone 4 (pos 2) {schedule = ann ∷ []} ann (omega arith) one_turn

sort_strings_lem_example :
    IsSorted less_str (sort_strings (bob ∷ ann ∷ []))
    × ((p : Str → Bool) → count p (sort_strings (bob ∷ ann ∷ [])) ≡ count p (bob ∷ ann ∷ []))
sort_strings_lem_example = sort_strings_lem (bob ∷ ann ∷ [])

abbrev risen : Map Str ℕ
risen = (ann, 9) ∷ []

abbrev flat : Map Str ℕ
flat = (ann, 4) ∷ (bob, 2) ∷ []

tension_spike_lem_example :
    let spike = (indicators risen flat (pos 5) 7).tension_spike in
    let nodes = keys (mark_keys (keys flat) (mark_keys (keys risen) [])) in
    Holds spike (0 ∷ map (delta risen flat) nodes)
    × (ltb spike 0 ≡ false)
    × (ltb spike (delta risen flat bob) ≡ false)
unfolding Map.mem Str-discrete
tension_spike_lem_example =
    tension_spike_lem (λ x. ground arith) (λ x y h. ground arith) (λ x y h. ground arith)
      (λ x y z e h k. ground arith) refl risen flat (pos 5) 7 bob refl
