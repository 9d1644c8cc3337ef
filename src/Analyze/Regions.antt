-- ===== src/Analyze/Regions.antt =====
-- `AnalyzeRegion` of snapshot.go beside `AnalyzeNode`, and the keys of the cache.
use itt_engine.Prelude.{
  ◌≡◌, refl, ℕ, ◌+◌, true, false, none, some, List, [], ◌∷◌, ◌++◌, map, Str, Time, Float, arith,
  if◌then◌else◌, Option-cases, inl, inr, append_assoc, append-nil, ◌∙◌, sym, ap,
}
use itt_engine.Map.{is_some}
use itt_engine.Graph.{NodeData}
use itt_engine.Mvcc.{Store}
use itt_engine.Snapshot
use itt_engine.Snapshot.{Snapshot, Answer, graph_view}
use itt_engine.Analysis.{GraphView}
use itt_engine.Aggregation.{agg_mean}
use itt_engine.Sort.{sort_strings, rounds}
use itt_engine.Analyze.{
  Settings, TensionResult, RegionResult, Shared, Surveyed, analysis_view, observe_in, assess,
}
use itt_engine.Analyze.Calls.{
  join, region_key, find, keep, node_afresh, analyze_node, survey_one, survey, summarize,
  region_afresh, analyze_region,
}
use itt_engine.Analyze.Rounds.{survey_node-assess}
use itt_engine.Analyze.Total.{IsReadable, IsSettled, readable-Searches, assess-total}

sort_strings-single : (z : Str) → sort_strings (z ∷ []) ≡ z ∷ []
unfolding sort_strings rounds
sort_strings-single z = refl

-- The region of the one node `x,y` and that of the nodes `x` and `y`, where sorting leaves these two
-- in their order, have one key in the cache.
pub region_key_shared :
    (p : ℕ) (x y : Str)
    → sort_strings (x ∷ y ∷ []) ≡ x ∷ y ∷ []
    → region_key p ((x ++ (44 ∷ y)) ∷ []) ≡ region_key p (x ∷ y ∷ [])
unfolding region_key join
region_key_shared p x y h = ground (arith, sort_strings-single (x ++ (44 ∷ y)))

module _ {F : Type 0} where
  -- the anomalies among results
  abbrev pub anomalies : List (TensionResult F) → ℕ
  anomalies [] = 0
  anomalies (r ∷ rs) = (if r.anomaly then 1 else 0) + anomalies rs

  -- neither a cache nor a calibrator
  abbrev pub unshared : Shared F
  unshared = record { calibrator = none; cache = none }

  abbrev pub results_of : Answer (TensionResult F) → List (TensionResult F)
  results_of Answer.panic = []
  results_of (Answer.failed e) = []
  results_of (Answer.value r) = r ∷ []

module _ {F : Type 0} ⦃float : Float F⦄ (settings : Settings F) (now : Time) where
  -- the results that `AnalyzeNode` returns for nodes, one by one
  abbrev pub one_by_one : List Str → Snapshot F → Store F → List (TensionResult F)
  one_by_one [] s store = []
  one_by_one (id ∷ ids) s store =
      results_of (analyze_node settings now id s store unshared).0 ++ one_by_one ids s store

  assess-uncalibrated :
      (gv : GraphView F) (id : Str) (n : NodeData F)
      → is_some (assess settings now gv id n none) ≡ true
      → (r : TensionResult F) × (assess settings now gv id n none ≡ some (r, none))
  unfolding assess observe_in
  assess-uncalibrated gv id n total = elim (Option-cases (assess settings now gv id n none)) [
    | inl bad ↦ absurd (ground arith)
    | inr ((r, none), found) ↦ (r, found)
    | inr ((r, some c), found) ↦ absurd (ground arith)
  ]

  module _ (p : ℕ) (s : Snapshot F) (store : Store F) (view : Snapshot.GraphView F)
      (open_ : s.closed ≡ false) (at : s.version ≡ some p) (seen : graph_view s store ≡ some view)
      (readable : IsReadable view) (settled : IsSettled settings) where
    -- a round of the loop appends what `AnalyzeNode` returns
    survey_one-results :
        (id : Str) (a : Surveyed F)
        → a.calibrator ≡ none
        → let found = results_of (analyze_node settings now id s store unshared).0 in
          (a' : Surveyed F) × (survey_one settings now (analysis_view view) id a ≡ some a')
          × (a'.nodes ≡ a.nodes ++ found)
          × (a'.tension_values ≡ a.tension_values ++ map (λ r. r.tension) found)
          × (a'.anomaly_count ≡ a.anomaly_count + anomalies found)
          × (a'.calibrator ≡ none)
    unfolding survey_one analyze_node node_afresh find keep
    survey_one-results id a uncalibrated =
        let gv = analysis_view view in
        elim (Option-cases (gv.get_node id)) [
          | inl missing ↦ (
            a,
            ground arith,
            ground (arith, append-nil a.nodes),
            ground (arith, append-nil a.tension_values),
            ground arith,
            uncalibrated,
          )
          | inr (n, there) ↦
              let round = survey_node-assess settings now gv id n a in
              let (r, runs) = assess-uncalibrated gv id n (
                assess-total settings settled now gv id n none (readable-Searches view readable)) in
              (
                record {
                  nodes = a.nodes ++ (r ∷ []);
                  tension_values = a.tension_values ++ (r.tension ∷ []);
                  anomaly_count = if r.anomaly then a.anomaly_count + 1 else a.anomaly_count;
                  calibrator = none;
                },
                ground arith,
                ground arith,
                ground arith,
                ground arith,
                refl,
              )
        ]

    anomalies-append :
        (xs ys : List (TensionResult F)) → anomalies (xs ++ ys) ≡ anomalies xs + anomalies ys
    anomalies-append [] ys = omega arith
    anomalies-append (x ∷ xs) ys = omega (arith, anomalies-append xs ys)

    map-append :
        (xs ys : List (TensionResult F))
        → map (λ r. r.tension) (xs ++ ys) ≡ map (λ r. r.tension) xs ++ map (λ r. r.tension) ys
    map-append [] ys = refl
    map-append (x ∷ xs) ys = ap (λ l. x.tension ∷ l) (map-append xs ys)

    survey-results :
        (ids : List Str) (a : Surveyed F)
        → a.calibrator ≡ none
        → let found = one_by_one ids s store in
          (a' : Surveyed F) × (survey settings now (analysis_view view) ids a ≡ some a')
          × (a'.nodes ≡ a.nodes ++ found)
          × (a'.tension_values ≡ a.tension_values ++ map (λ r. r.tension) found)
          × (a'.anomaly_count ≡ a.anomaly_count + anomalies found)
    unfolding survey
    survey-results [] a uncalibrated =
        (a, refl, sym (append-nil a.nodes), sym (append-nil a.tension_values), omega arith)
    survey-results (id ∷ ids) a uncalibrated =
        let first = results_of (analyze_node settings now id s store unshared).0 in
        let rest = one_by_one ids s store in
        let (a1, runs, nodes, tensions, count, next) = survey_one-results id a uncalibrated in
        let (a', more, nodes', tensions', count') = survey-results ids a1 next in
        (
          a',
          rw (runs, survey) more,
          nodes' ∙ ap (λ l. l ++ rest) nodes ∙ append_assoc a.nodes first rest,
          tensions'
              ∙ ap (λ l. l ++ map (λ r. r.tension) rest) tensions
              ∙ append_assoc a.tension_values (map (λ r. r.tension) first)
                  (map (λ r. r.tension) rest)
              ∙ ap (λ l. a.tension_values ++ l) (sym (map-append first rest)),
          omega (arith, anomalies-append first rest),
        )

    -- On an open snapshot of valid layers, with a divergence that has a value on lists of one
    -- length and a sorting that keeps the length, without a cache and a calibrator: `AnalyzeRegion`
    -- returns a result. Its nodes are the results that `AnalyzeNode` returns for the nodes of the
    -- list, one by one, less the missing ones; its count of anomalies is theirs, and its mean is
    -- what `AggMean` makes of their tensions.
    pub analyze_region_lem :
        (ids : List Str)
        → (r : RegionResult F) × ((analyze_region settings now ids s store unshared).0
            ≡ Answer.value r)
          × (r.nodes ≡ one_by_one ids s store)
          × (r.anomaly_count ≡ anomalies r.nodes)
          × (r.mean_tension ≡ agg_mean (map (λ t. t.tension) r.nodes))
    unfolding analyze_region region_afresh find summarize agg_mean
    analyze_region_lem ids =
        let begun : Surveyed F = record {
          nodes = [];
          tension_values = [];
          anomaly_count = 0;
          calibrator = none;
        } in
        let (a, runs, nodes, tensions, count) = survey-results ids begun refl in
        (summarize settings now a, ground arith, nodes, ground arith, ground arith)
