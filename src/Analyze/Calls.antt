-- ===== src/Analyze/Calls.antt =====
-- `AnalyzeNode` and `AnalyzeRegion` of snapshot.go as a whole, with their cache. A call takes one
-- reading of the clock; `sort.Strings` and `strings.Join` are written out.
use itt_engine.Prelude.{
  ℕ, ltb, ◌+◌, ◌==◌, Option, none, some, List, [], ◌∷◌, ◌++◌, map, Str, Time, Float, length,
  if◌then◌else◌, ◌>>=◌,
}
use itt_engine.Cache
use itt_engine.Cache.{CacheKey}
use itt_engine.Event.{Error}
use itt_engine.Graph.{NodeData}
use itt_engine.Tension
use itt_engine.Curvature
use itt_engine.Curvature.{CurvatureCalculator, new_curvature_calculator}
use itt_engine.Concealment
use itt_engine.Calibrator.{observe}
use itt_engine.Mvcc.{Store}
use itt_engine.Snapshot.{Snapshot, Answer, graph_view}
use itt_engine.Analysis.{GraphView}
use itt_engine.Divergence.{sum_from}
use itt_engine.Detectability.{detectability, cps}
use itt_engine.Aggregation.{max_from}
use itt_engine.Sort.{sort_strings}
use itt_engine.Analyze.{
  Settings, TensionResult, RegionResult, CachedValue, Shared, Surveyed, analysis_view, assess,
  is_anomaly,
}

-- "node_analysis" and "region_analysis"
abbrev node_analysis : Str
node_analysis = 110 ∷ 111 ∷ 100 ∷ 101 ∷ 95 ∷ 97 ∷ 110 ∷ 97 ∷ 108 ∷ 121 ∷ 115 ∷ 105 ∷ 115 ∷ []

abbrev region_analysis : Str
region_analysis =
    114 ∷ 101 ∷ 103 ∷ 105 ∷ 111 ∷ 110 ∷ 95 ∷ 97 ∷ 110 ∷ 97 ∷ 108 ∷ 121 ∷ 115 ∷ 105 ∷ 115 ∷ []

-- `strings.Join(ids, ",")`
unfoldable pub join : List Str → Str
join [] = []
join (id ∷ []) = id
join (id ∷ id' ∷ ids) = id ++ (44 ∷ join (id' ∷ ids))

abbrev pub node_key : ℕ → Str → CacheKey
node_key p id = record { version_id = p; query_type = node_analysis; query_args = id }

unfoldable pub region_key : ℕ → List Str → CacheKey
region_key p ids = record {
  version_id = p;
  query_type = region_analysis;
  query_args = join (sort_strings ids);
}

module _ {F : Type 0} where
  -- `s.cache.Get(key)`, where there is a cache
  unfoldable pub find : CacheKey → Time → Shared F → Option (CachedValue F) × Shared F
  find key now sh = elim sh.cache [
    | none ↦ (none, sh)
    | some c ↦ let (found, c') = Cache.get key now c in (found, record sh { cache = some c' })
  ]

  -- `s.cache.Set(key, value)`, where there is a cache
  unfoldable pub keep : CacheKey → CachedValue F → Time → Shared F → Shared F
  keep key value now sh = elim sh.cache [
    | none ↦ sh
    | some c ↦ record sh { cache = some (Cache.set key value now c) }
  ]

  -- `cached.(*TensionResult)` and `cached.(*RegionResult)`
  abbrev pub as_node : Option (CachedValue F) → Option (TensionResult F)
  as_node none = none
  as_node (some (CachedValue.of_node r)) = some r
  as_node (some (CachedValue.of_region r)) = none

  abbrev pub as_region : Option (CachedValue F) → Option (RegionResult F)
  as_region none = none
  as_region (some (CachedValue.of_node r)) = none
  as_region (some (CachedValue.of_region r)) = some r

module _ {F : Type 0} ⦃float : Float F⦄ (settings : Settings F) (now : Time) where
  -- `AnalyzeNode` after its look into the cache
  unfoldable pub node_afresh :
      ℕ → Str → Snapshot F → Store F → Shared F → Answer (TensionResult F) × Shared F
  node_afresh p id s store sh = elim (graph_view s store) [
    | none ↦ (Answer.panic, sh)
    | some view ↦
        let gv = analysis_view view in
        elim (gv.get_node id) [
          | none ↦ (Answer.failed Error.node_not_found, sh)
          | some n ↦ elim (assess settings now gv id n sh.calibrator) [
            | none ↦ (Answer.panic, sh)
            | some r ↦ (
              Answer.value r.0,
              keep (node_key p id) (CachedValue.of_node r.0) now (record sh { calibrator = r.1 }),
            )
          ]
        ]
  ]

  unfoldable pub analyze_node :
      Str → Snapshot F → Store F → Shared F → Answer (TensionResult F) × Shared F
  analyze_node id s store sh =
      if s.closed then (Answer.failed Error.snapshot_closed, sh) else elim s.version [
        | none ↦ (Answer.panic, sh)
        | some p ↦
            let (found, sh') = find (node_key p id) now sh in
            elim (as_node found) [
              | some r ↦ (Answer.value r, sh')
              | none ↦ node_afresh p id s store sh'
            ]
      ]

  -- The loop of `AnalyzeRegion` has its own text for what it does with a node: a loop over the
  -- neighbours that adds to `curvSum` and `curvCount`, the curvature, and the confidence.
  unfoldable pub sum_curvatures : (Str → Option F) → List Str → F × ℕ → Option (F × ℕ)
  sum_curvatures compute [] r = some r
  sum_curvatures compute (neighbor ∷ ids) r = do
    c ← compute neighbor
    sum_curvatures compute ids (float.add r.0 c, r.1 + 1)

  unfoldable pub around : GraphView F → (Str → Str → Option F) → Str → Option F
  around gv compute id = do
    outs ← sum_curvatures (λ neighbor. compute id neighbor) (gv.out_neighbors id) (float.nought, 0)
    both ← sum_curvatures (λ neighbor. compute neighbor id) (gv.in_neighbors id) outs
    some (if ltb 0 both.1 then float.div both.0 (float.of_int both.1) else float.nought)

  -- `cc`: nil where the settings have a function, or no positive alpha
  unfoldable pub region_calculator : Option (CurvatureCalculator F)
  region_calculator = elim settings.curvature [
    | some f ↦ none
    | none ↦
        if float.lt float.nought settings.curvature_alpha
        then some (new_curvature_calculator settings.curvature_alpha)
        else none
  ]

  unfoldable pub region_curvature : GraphView F → Str → Option F
  region_curvature gv id = elim settings.curvature [
    | some f ↦ around gv (λ from to. some (f gv from to)) id
    | none ↦ elim region_calculator [
      | none ↦ some float.nought
      | some cc ↦ around gv (λ from to. Curvature.calculate cc gv from to) id
    ]
  ]

  unfoldable pub region_confidence : ℕ → F
  region_confidence degree =
      let share = float.div (float.of_int degree) (float.literal 10 0) in
      if ltb 0 degree then (if float.lt share float.one then share else float.one) else float.nought

  unfoldable pub region_concealment : GraphView F → Str → Option F
  region_concealment gv id =
      if float.lt float.nought settings.concealment_lambda
      then Concealment.calculate_node settings.concealment_lambda
          (Tension.calculate settings.divergence gv) gv id settings.concealment_hops
      else some float.nought

  -- the part of a round for a node that is there
  unfoldable pub survey_node : GraphView F → Str → NodeData F → Surveyed F → Option (Surveyed F)
  survey_node gv id n a = do
    t ← Tension.calculate settings.divergence gv id
    calibrator ← elim a.calibrator [
      | none ↦ some none
      | some c ↦ (observe settings.sort_floats now t c >>= λ c'. some (some c'))
    ]
    curv ← region_curvature gv id
    concealment ← region_concealment gv id
    let anomaly = is_anomaly settings calibrator n t
    let tr : TensionResult F = record {
      node_id = id;
      tension = t;
      degree = n.degree;
      curvature = curv;
      anomaly = anomaly;
      confidence = region_confidence n.degree;
      concealment = concealment;
    }
    some (record {
      nodes = a.nodes ++ (tr ∷ []);
      tension_values = a.tension_values ++ (t ∷ []);
      anomaly_count = if anomaly then a.anomaly_count + 1 else a.anomaly_count;
      calibrator = calibrator;
    })

  -- one round of the loop of `AnalyzeRegion`, and the loop
  unfoldable pub survey_one : GraphView F → Str → Surveyed F → Option (Surveyed F)
  survey_one gv id a = elim (gv.get_node id) [ none ↦ some a | some n ↦ survey_node gv id n a ]

  unfoldable pub survey : GraphView F → List Str → Surveyed F → Option (Surveyed F)
  survey gv [] a = some a
  survey gv (id ∷ ids) a = do a' ← survey_one gv id a; survey gv ids a'

  -- what `AnalyzeRegion` makes of the loop's variables
  unfoldable pub summarize : Surveyed F → RegionResult F
  summarize a =
      let values = a.tension_values in
      let mean =
        if length values == 0
        then float.nought
        else float.div (sum_from float.nought values) (float.of_int (length values)) in
      let alpha =
        if float.lt float.nought settings.detectability_alpha
        then settings.detectability_alpha
        else float.literal 5 2 in
      record {
        nodes = a.nodes;
        mean_tension = mean;
        max_tension = max_from float.nought values;
        anomaly_count = a.anomaly_count;
        aggregated = elim settings.aggregation [ none ↦ mean | some f ↦ f values ];
        detectability = detectability values alpha;
        cps =
            if float.lt float.nought settings.concealment_lambda
            then cps values (sum_from float.nought (map (λ r. r.concealment) a.nodes)) alpha
            else float.nought;
      }

  -- `AnalyzeRegion` after its look into the cache
  unfoldable pub region_afresh :
      ℕ → List Str → Snapshot F → Store F → Shared F → Answer (RegionResult F) × Shared F
  region_afresh p ids s store sh = elim (graph_view s store) [
    | none ↦ (Answer.panic, sh)
    | some view ↦
        let begun : Surveyed F = record {
          nodes = [];
          tension_values = [];
          anomaly_count = 0;
          calibrator = sh.calibrator;
        } in
        elim (survey (analysis_view view) ids begun) [
          | none ↦ (Answer.panic, sh)
          | some a ↦ (
            Answer.value (summarize a),
            keep (region_key p ids) (CachedValue.of_region (summarize a)) now
                (record sh { calibrator = a.calibrator }),
          )
        ]
  ]

  unfoldable pub analyze_region :
      List Str → Snapshot F → Store F → Shared F → Answer (RegionResult F) × Shared F
  analyze_region ids s store sh =
      if s.closed then (Answer.failed Error.snapshot_closed, sh) else elim s.version [
        | none ↦ (Answer.panic, sh)
        | some p ↦
            let (found, sh') = find (region_key p ids) now sh in
            elim (as_region found) [
              | some r ↦ (Answer.value r, sh')
              | none ↦ region_afresh p ids s store sh'
            ]
      ]
