-- ===== src/Analyze.antt =====
-- snapshot.go: the analysis of a node and of a region. `none` is a panic, or a search that has used
-- up its fuel. What a result repeats (`Components`) or leaves at its zero (`Trend`) is left out.
pub mod Calls
pub mod Whole
pub mod Nodes
pub mod Agree
pub mod Total
pub mod Cached
pub mod Rounds
pub mod Regions
use itt_engine.Prelude.{
  ℕ, suc, ◌+◌, ◌==◌, Bool, true, false, Option, none, some, List, [], ◌∷◌, ◌++◌, map, Str, nat_key,
  Time, Float, ℤ, length, ltb, if◌then◌else◌, ◌>>=◌,
}
use itt_engine.Map
use itt_engine.Graph.{NodeData}
use itt_engine.Cache
use itt_engine.Cache.{CacheKey, ResultsCache}
use itt_engine.Event.{Error}
use itt_engine.Mvcc.{Store}
use itt_engine.Snapshot
use itt_engine.Snapshot.{Snapshot, Answer, graph_view}
use itt_engine.Analysis.{GraphView, of_graph, of_view}
use itt_engine.Divergence.{Divergence, sum_from}
use itt_engine.Tension
use itt_engine.Curvature
use itt_engine.Concealment
use itt_engine.Calibrator
use itt_engine.Calibrator.{Calibrator, observe}
use itt_engine.Detectability.{Detection, detectability, cps}
use itt_engine.Aggregation.{max_from}
use itt_engine.Sort.{sort_strings}

-- What the analysis reads of the `Builder`. `divergence` is JSD where none is set; the functions
-- that a user passes take the graph that the adapter wraps.
pub record Settings (F : Type 0) : Type 0 where
  pub divergence : Divergence F
  pub threshold_func : Option (NodeData F → F → Bool)
  pub threshold : F
  pub curvature : Option (GraphView F → Str → Str → F)
  pub curvature_alpha : F
  pub concealment_lambda : F
  pub concealment_hops : ℤ
  pub detectability_alpha : F
  pub aggregation : Option (List F → F)
  pub sort_floats : List F → List F

pub record TensionResult (F : Type 0) : Type 0 where
  pub node_id : Str
  pub tension : F
  pub degree : ℕ
  pub curvature : F
  pub anomaly : Bool
  pub confidence : F
  pub concealment : F

pub record RegionResult (F : Type 0) : Type 0 where
  pub nodes : List (TensionResult F)
  pub mean_tension : F
  pub max_tension : F
  pub anomaly_count : ℕ
  pub aggregated : F
  pub detectability : Detection F
  pub cps : F

-- what `cache.Set` is called with
pub data CachedValue (F : Type 0) : Type 0 where
  of_node : TensionResult F → CachedValue F
  of_region : RegionResult F → CachedValue F

-- the calibrator and the cache that the snapshots of an engine share, where they are set
pub record Shared (F : Type 0) : Type 0 where
  pub calibrator : Option (Calibrator F)
  pub cache : Option (ResultsCache (CachedValue F))

-- the variables of the loop of `AnalyzeRegion`
pub record Surveyed (F : Type 0) : Type 0 where
  pub nodes : List (TensionResult F)
  pub tension_values : List F
  pub anomaly_count : ℕ
  pub calibrator : Option (Calibrator F)

module _ {F : Type 0} ⦃float : Float F⦄ where
  abbrev pub analysis_view : Snapshot.GraphView F → GraphView F
  analysis_view (Snapshot.GraphView.layered v) = of_view v
  analysis_view (Snapshot.GraphView.flat g) = of_graph g

  module _ (settings : Settings F) where
    unfoldable pub is_anomaly : Option (Calibrator F) → NodeData F → F → Bool
    is_anomaly calibrator node tension =
        let static = float.lt settings.threshold tension in
        elim settings.threshold_func [
          | some f ↦ f node tension
          | none ↦ elim calibrator [
            | none ↦ static
            | some c ↦ if c.warmed_up then Calibrator.is_anomaly tension c else static
          ]
        ]

    -- `if s.config.calibrator != nil { s.config.calibrator.Observe(t) }`
    unfoldable pub observe_in : Time → F → Option (Calibrator F) → Option (Option (Calibrator F))
    observe_in now t none = some none
    observe_in now t (some c) = observe settings.sort_floats now t c >>= λ c'. some (some c')

    -- a loop over neighbours that adds to `curvSum` and `curvCount`
    unfoldable pub add_curvatures : (Str → Option F) → List Str → F × ℕ → Option (F × ℕ)
    add_curvatures compute [] r = some r
    add_curvatures compute (neighbor ∷ ids) (sum, count) = do
      c ← compute neighbor
      add_curvatures compute ids (float.add sum c, count + 1)

    unfoldable pub mean_curvature : GraphView F → (Str → Str → Option F) → Str → Option F
    mean_curvature gv compute id = do
      outs ← add_curvatures (λ n. compute id n) (gv.out_neighbors id) (float.nought, 0)
      all ← add_curvatures (λ n. compute n id) (gv.in_neighbors id) outs
      some (if ltb 0 all.1 then float.div all.0 (float.of_int all.1) else float.nought)

    unfoldable pub curvature_at : GraphView F → Str → Option F
    curvature_at gv id = elim settings.curvature [
      | some f ↦ mean_curvature gv (λ from to. some (f gv from to)) id
      | none ↦
          let cc = Curvature.new_curvature_calculator settings.curvature_alpha in
          if float.lt float.nought settings.curvature_alpha
          then mean_curvature gv (λ from to. Curvature.calculate cc gv from to) id
          else some float.nought
    ]

    unfoldable pub concealment_at : GraphView F → Str → Option F
    concealment_at gv id =
        if float.lt float.nought settings.concealment_lambda
        then Concealment.calculate_node settings.concealment_lambda
            (Tension.calculate settings.divergence gv) gv id settings.concealment_hops
        else some float.nought

    -- `math.Min(1.0, float64(n.Degree)/10.0)` for a positive degree
    unfoldable pub confidence_of : ℕ → F
    confidence_of degree =
        let share = float.div (float.of_int degree) (float.literal 10 0) in
        if ltb 0 degree
        then (if float.lt share float.one then share else float.one)
        else float.nought

    -- what `AnalyzeNode` does with a node of the graph
    unfoldable pub assess :
        Time
        → GraphView F
        → Str
        → NodeData F
        → Option (Calibrator F)
        → Option (TensionResult F × Option (Calibrator F))
    assess now gv id n calibrator = do
      t ← Tension.calculate settings.divergence gv id
      calibrator' ← observe_in now t calibrator
      curv ← curvature_at gv id
      concealment ← concealment_at gv id
      some (
        record {
          node_id = id;
          tension = t;
          degree = n.degree;
          curvature = curv;
          anomaly = is_anomaly calibrator' n t;
          confidence = confidence_of n.degree;
          concealment = concealment;
        },
        calibrator',
      )
