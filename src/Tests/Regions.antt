-- ===== src/Tests/Regions.antt =====
-- The analyses of snapshot.go on a concrete snapshot.
use itt_engine.Prelude.{
  Str-discrete, ℕ, ◌≡◌, refl, false, none, some, [], ◌∷◌, map, pos, arith, nat_key, ℕ_discrete,
  length,
}
use itt_engine.Map
use itt_engine.Graph
use itt_engine.Graph.{Graph}
use itt_engine.Graph.AddEdge
use itt_engine.Immutable
use itt_engine.Immutable.WithEvent
use itt_engine.Immutable.Copy
use itt_engine.Immutable.CopyLoops
use itt_engine.Mvcc.{Store}
use itt_engine.Cache
use itt_engine.Cache.{ResultsCache}
use itt_engine.Snapshot
use itt_engine.Snapshot.{Snapshot, Answer, graph_view}
use itt_engine.View.Visits.{ids}
use itt_engine.Analysis.{GraphView, of_graph}
use itt_engine.Bfs.Nodes.{bfs_distances-graph}
use itt_engine.Parallel
use itt_engine.Parallel.{Interleaves, partition_nodes}
use itt_engine.Analyze.Whole.{Results, analyze}
use itt_engine.Analyze.Nodes.{reading, expected, anomalous}
use itt_engine.Analyze.Agree.{analyze_lem}
use itt_engine.Divergence.{jsd}
use itt_engine.Divergence.Laws.{jsd-IsTotal}
use itt_engine.Aggregation.{agg_mean}
use itt_engine.Analyze.{Settings, RegionResult, CachedValue, Shared}
use itt_engine.Analyze.Calls
use itt_engine.Analyze.Calls.{analyze_region, summarize}
use itt_engine.Analyze.Total.{IsSettled}
use itt_engine.Analyze.Regions.{one_by_one, anomalies, unshared, analyze_region_lem}
use itt_engine.Analyze.Cached.{analyze_region_again}
use itt_engine.Tests.{nat_float, ann, bob, call, layer, layer-IsValid}

abbrev settings : Settings ℕ
settings = record {
  divergence = jsd;
  threshold_func = none;
  threshold = 1;
  curvature = none;
  curvature_alpha = 1;
  concealment_lambda = 1;
  concealment_hops = pos 2;
  detectability_alpha = 0;
  aggregation = none;
  sort_floats = λ xs. xs;
}

settings-IsSettled : IsSettled settings
settings-IsSettled = record { total = jsd-IsTotal; length_sorted = λ xs. refl }

abbrev store : Store ℕ
store = (1, record { id = 1; graph = layer 5; timestamp = 5; dirty = []; ref_count = 1 }) ∷ []

abbrev taken : Snapshot ℕ
taken = record { version = some 1; base = none; closed = false }

seen : graph_view taken store ≡ some (Snapshot.GraphView.flat (layer 5))
unfolding graph_view Snapshot.view_of Map.get ℕ_discrete
seen = refl

analyze_region_lem_example :
    (r : RegionResult ℕ) × ((analyze_region settings 9
        (ann ∷ call ∷ bob ∷ [])
        taken
        store
        unshared).0
      ≡ Answer.value r)
    × (r.nodes ≡ one_by_one settings 9 (ann ∷ call ∷ bob ∷ []) taken store)
    × (r.anomaly_count ≡ anomalies r.nodes)
    × (r.mean_tension ≡ agg_mean (map (λ t. t.tension) r.nodes))
analyze_region_lem_example =
    analyze_region_lem settings 9 1 taken store (Snapshot.GraphView.flat (layer 5)) refl refl seen
      (layer-IsValid 5) settings-IsSettled (ann ∷ call ∷ bob ∷ [])

-- a store whose graph is empty
abbrev bare : Store ℕ
bare = (1, record { id = 1; graph = Graph.new; timestamp = 5; dirty = []; ref_count = 1 }) ∷ []

abbrev empty_cache : ResultsCache (CachedValue ℕ)
empty_cache = record { entries = []; ttl = 60; hits = 0; misses = 0 }

abbrev sharing : Shared ℕ
sharing = record { calibrator = none; cache = some empty_cache }

abbrev nothing : RegionResult ℕ
nothing =
    summarize settings 9
      (record { nodes = []; tension_values = []; anomaly_count = 0; calibrator = none })

first : (analyze_region settings 9 (call ∷ []) taken bare sharing).0 ≡ Answer.value nothing
unfolding analyze_region Calls.find Cache.get Calls.region_afresh graph_view Snapshot.view_of
    Map.get Calls.survey Calls.survey_one Graph.get_node ℕ_discrete
first = refl

analyze_region_again_example :
    let sh = (analyze_region settings 9 (call ∷ []) taken bare sharing).1 in
    let again = analyze_region settings 50 (call ∷ []) taken bare sh in
    (again.0 ≡ Answer.value nothing) × (again.1.calibrator ≡ sh.calibrator)
unfolding Cache.get Map.get
analyze_region_again_example =
    analyze_region_again settings 9 50 1 (call ∷ []) (call ∷ []) taken taken bare bare sharing
      empty_cache nothing refl refl refl refl (omega arith) refl refl first

abbrev shown : GraphView ℕ
shown = of_graph (layer 5)

-- the goroutine of the second node stores first
turns : Interleaves (partition_nodes 4 (pos 2) (ids shown.nodes)) (bob ∷ ann ∷ [])
unfolding partition_nodes Parallel.chunks_from Parallel.take Parallel.drop
    WithEvent.with_event_graph Immutable.touch Immutable.widen Map.modify AddEdge.add_edge_graph
    AddEdge.put_edge_graph Map.get Graph.ensure_node Copy.deep_copy_graph CopyLoops.copy_edges_graph
    Immutable.copy_nodes Graph.add_node Map.put Str-discrete
turns =
    Interleaves.next ((ann ∷ []) ∷ []) bob [] [] refl
      (Interleaves.next [] ann [] ([] ∷ []) refl (Interleaves.done refl))

analyze_lem_example :
    (r : Results ℕ) × (analyze settings none (pos 0) 9 shown (bob ∷ ann ∷ []) none ≡ some (r, none))
    × (map reading r.tensions ≡ map (expected settings settings-IsSettled 9 shown) shown.nodes)
    × (r.anomalies ≡ anomalous r.tensions)
    × (r.stats.nodes_analyzed ≡ length shown.nodes)
    × (r.stats.anomaly_count ≡ length r.anomalies)
analyze_lem_example =
    analyze_lem settings settings-IsSettled shown 9 (pos 0) 4 (pos 2) (bob ∷ ann ∷ [])
      (λ src. bfs_distances-graph (layer 5) src 4 (layer-IsValid 5)) (omega arith) turns
