-- ===== src/Analyze/Whole.antt =====
-- `Analyze` of snapshot.go, less its look into the cache and its temporal summary. `schedule` is the
-- order in which the goroutines store the tensions; a GPU backend is a parameter; the median is
-- computed as in the calibrator.
use itt_engine.Prelude.{
  ℕ, ◌+◌, ◌==◌, ◌&&◌, Bool, Option, none, some, List, [], ◌∷◌, ◌++◌, map, Str, Str-discrete,
  str_key, Time, Float, ℤ, pos, length, ltb, ltb_ℤ, leb_ℤ, if◌then◌else◌, ◌>>=◌, ite,
}
use itt_engine.Map
use itt_engine.Map.{Map}
use itt_engine.Graph.{NodeData, EdgeData}
use itt_engine.Analysis.{GraphView}
use itt_engine.Divergence.{sum_from}
use itt_engine.Tension
use itt_engine.Curvature
use itt_engine.Curvature.{pair_key}
use itt_engine.Calibrator.{Calibrator, compute_median}
use itt_engine.Detectability.{Detection, detectability, spread_from}
use itt_engine.Aggregation.{max_from}
use itt_engine.Parallel.{calculate_all_parallel}
use itt_engine.Analyze.{
  Settings, TensionResult, is_anomaly, observe_in, concealment_at, confidence_of,
}

-- a `gpu.ComputeBackend`: whether it is available, and what `AnalyzeTensions` returns
pub record Backend (F : Type 0) : Type 0 where
  pub available : Bool
  pub analyze_tensions : GraphView F → Option (Map Str F)

pub record ResultStats (F : Type 0) : Type 0 where
  pub nodes_analyzed : ℕ
  pub mean_tension : F
  pub median_tension : F
  pub max_tension : F
  pub std_dev_tension : F
  pub anomaly_count : ℕ
  pub anomaly_rate : F

pub record Results (F : Type 0) : Type 0 where
  pub tensions : List (TensionResult F)
  pub anomalies : List (TensionResult F)
  pub stats : ResultStats F
  pub detectability : Detection F

-- the variables of the loop over the nodes
pub record Examined (F : Type 0) : Type 0 where
  pub results : List (TensionResult F)
  pub anomalies : List (TensionResult F)
  pub tension_values : List F
  pub calibrator : Option (Calibrator F)

module _ {F : Type 0} ⦃float : Float F⦄ where
  unfoldable pub compute_result_stats : (List F → List F) → List F → ℕ → Option (ResultStats F)
  compute_result_stats sort_floats values anomaly_count =
      let n = float.of_int (length values) in
      let mean = float.div (sum_from float.nought values) n in
      if length values == 0
      then some (record {
        nodes_analyzed = 0;
        mean_tension = float.nought;
        median_tension = float.nought;
        max_tension = float.nought;
        std_dev_tension = float.nought;
        anomaly_count = 0;
        anomaly_rate = float.nought;
      })
      else (compute_median sort_floats values >>= λ median. some (record {
        nodes_analyzed = length values;
        mean_tension = mean;
        median_tension = median;
        max_tension = max_from float.nought values;
        std_dev_tension = float.sqrt (float.div (spread_from mean float.nought values) n);
        anomaly_count = anomaly_count;
        anomaly_rate = float.div (float.of_int anomaly_count) n;
      }))

  -- the tensions by node; `none` in the map is a panic of the goroutine that computes it
  unfoldable pub compute_tensions :
      Settings F → Option (Backend F) → ℤ → GraphView F → List Str → Map Str (Option F)
  compute_tensions settings backend gpu_threshold gv schedule =
      let on_cpu = calculate_all_parallel (Tension.calculate settings.divergence gv) gv schedule in
      elim backend [
        | none ↦ on_cpu
        | some b ↦
            if b.available && ltb_ℤ (pos 0) gpu_threshold && leb_ℤ gpu_threshold (pos gv.node_count)
            then elim (b.analyze_tensions gv) [
              | none ↦ on_cpu
              | some m ↦ map (λ entry. (entry.0, some entry.1)) m
            ]
            else on_cpu
      ]

  -- `tensions[n.ID]`
  abbrev pub tension_of : Map Str (Option F) → Str → Option F
  tension_of tensions id = elim (Map.get id tensions) [ none ↦ some float.nought | some t ↦ t ]

  -- `edgeCurvatures`: nil where no curvature is asked for
  abbrev put_curvatures :
      (Str → Str → F) → List (EdgeData F) → Map (Str × Str) F → Map (Str × Str) F
  put_curvatures compute [] m = m
  put_curvatures compute (e ∷ es) m =
      put_curvatures compute es (Map.put (e.from, e.to) (compute e.from e.to) m)

  unfoldable pub edge_curvatures : Settings F → GraphView F → Option (Option (Map (Str × Str) F))
  edge_curvatures settings gv = elim settings.curvature [
    | some f ↦ some (some (put_curvatures (f gv) gv.edges []))
    | none ↦
        if float.lt float.nought settings.curvature_alpha
        then (Curvature.calculate_all (Curvature.new_curvature_calculator settings.curvature_alpha)
              gv
            >>= λ m. some (some m))
        else some none
  ]

  -- the loop that adds up the curvatures of the edges that touch a node
  abbrev touching : Str → Map (Str × Str) F → F × ℕ → F × ℕ
  touching id [] r = r
  touching id (((from, to), c) ∷ m) (sum, count) =
      ite (Str-discrete from id) (touching id m (float.add sum c, count + 1)) (
        ite (Str-discrete to id) (touching id m (float.add sum c, count + 1))
          (touching id m (sum, count)))

  unfoldable pub curvature_of : Option (Map (Str × Str) F) → Str → F
  curvature_of none id = float.nought
  curvature_of (some m) id =
      let (sum, count) = touching id m (float.nought, 0) in
      if ltb 0 count then float.div sum (float.of_int count) else float.nought

  module _ (settings : Settings F) (now : Time) (gv : GraphView F) (tensions : Map Str (Option F))
      (curvatures : Option (Map (Str × Str) F)) where
    abbrev pub result_for : NodeData F → F → Option (Calibrator F) → F → TensionResult F
    result_for n t calibrator concealment = record {
      node_id = n.id;
      tension = t;
      degree = n.degree;
      curvature = curvature_of curvatures n.id;
      anomaly = is_anomaly settings calibrator n t;
      confidence = confidence_of settings n.degree;
      concealment = concealment;
    }

    -- the callback of the loop over the nodes, and the loop
    unfoldable pub examine : NodeData F → Examined F → Option (Examined F)
    examine n w = do
      t ← tension_of tensions n.id
      calibrator ← observe_in settings now t w.calibrator
      concealment ← concealment_at settings gv n.id
      let r = result_for n t calibrator concealment
      some (record {
        results = w.results ++ (r ∷ []);
        anomalies = if r.anomaly then w.anomalies ++ (r ∷ []) else w.anomalies;
        tension_values = w.tension_values ++ (t ∷ []);
        calibrator = calibrator;
      })

    unfoldable pub examine_all : List (NodeData F) → Examined F → Option (Examined F)
    examine_all [] w = some w
    examine_all (n ∷ ns) w = do w' ← examine n w; examine_all ns w'

  unfoldable pub analyze :
      Settings F
      → Option (Backend F)
      → ℤ
      → Time
      → GraphView F
      → List Str
      → Option (Calibrator F)
      → Option (Results F × Option (Calibrator F))
  analyze settings backend gpu_threshold now gv schedule calibrator = do
    curvatures ← edge_curvatures settings gv
    let tensions = compute_tensions settings backend gpu_threshold gv schedule
    let begun : Examined F = record {
      results = [];
      anomalies = [];
      tension_values = [];
      calibrator = calibrator;
    }
    w ← examine_all settings now gv tensions curvatures gv.nodes begun
    stats ← compute_result_stats settings.sort_floats w.tension_values (length w.anomalies)
    let alpha =
        if float.lt float.nought settings.detectability_alpha
        then settings.detectability_alpha
        else float.literal 5 2
    some (
      record {
        tensions = w.results;
        anomalies = w.anomalies;
        stats = stats;
        detectability = detectability w.tension_values alpha;
      },
      w.calibrator,
    )
