-- ===== src/Analyze/Nodes.antt =====
-- `Analyze` of snapshot.go on the processor: the results of its loop over the nodes.
use itt_engine.Prelude.{
  ◌≡◌, refl, ℕ, ◌+◌, true, Option, none, some, List, [], ◌∷◌, ◌++◌, map, Str, str_key, Time, Float,
  length, length-append, if◌then◌else◌, arith, Option-cases, inl, inr, append_assoc, append-nil,
  ◌∙◌, sym, ap, ◌==◌,
}
use itt_engine.Map
use itt_engine.Map.{Map, is_some, mem}
use itt_engine.Graph.{NodeData, EdgeData}
use itt_engine.View.Visits.{ids}
use itt_engine.Analysis.{GraphView}
use itt_engine.Calibrator.Frozen.{compute_median-total}
use itt_engine.Tension
use itt_engine.Tension.Total.{calculate-total}
use itt_engine.Curvature
use itt_engine.Curvature.{CurvatureCalculator, pair_key}
use itt_engine.Curvature.Costs.{Searches, curvature_returns}
use itt_engine.Analyze.{Settings, TensionResult, observe_in, concealment_at}
use itt_engine.Analyze.Total.{IsSettled, concealment_at-total}
use itt_engine.Analyze.Whole.{
  ResultStats, Examined, compute_result_stats, tension_of, edge_curvatures, examine, examine_all,
  result_for,
}

module _ {F : Type 0} where
  -- what a result says of its node
  abbrev pub reading : TensionResult F → Str × Option F
  reading r = (r.node_id, some r.tension)

  -- the anomalies of a list of results, in its order
  abbrev pub anomalous : List (TensionResult F) → List (TensionResult F)
  anomalous [] = []
  anomalous (r ∷ rs) = if r.anomaly then r ∷ anomalous rs else anomalous rs

  anomalous-append :
      (xs : List (TensionResult F)) (r : TensionResult F)
      → anomalous (xs ++ (r ∷ [])) ≡ (if r.anomaly then anomalous xs ++ (r ∷ []) else anomalous xs)
  anomalous-append [] r = ground arith
  anomalous-append (x ∷ xs) r = ground (arith, anomalous-append xs r)

  map-append_one :
      (xs : List (TensionResult F)) (r : TensionResult F)
      → map reading (xs ++ (r ∷ [])) ≡ map reading xs ++ (reading r ∷ [])
  map-append_one [] r = refl
  map-append_one (x ∷ xs) r = ap (λ l. reading x ∷ l) (map-append_one xs r)

module _ {F : Type 0} ⦃float : Float F⦄ (settings : Settings F) (settled : IsSettled settings)
    (now : Time) (gv : GraphView F) where
  abbrev pub expected : NodeData F → Str × Option F
  expected n = (n.id, Tension.calculate settings.divergence gv n.id)

  module _ (tensions : Map Str (Option F)) (curvatures : Option (Map (Str × Str) F)) where
    examine-lem :
        (n : NodeData F) (w : Examined F)
        → w.calibrator ≡ none
        → tension_of tensions n.id ≡ Tension.calculate settings.divergence gv n.id
        → (w' : Examined F) × (r : TensionResult F) × (examine settings now gv tensions curvatures n
              w
            ≡ some w')
          × (w'.results ≡ w.results ++ (r ∷ []))
          × (reading r ≡ expected n)
          × (w'.anomalies ≡ (if r.anomaly then w.anomalies ++ (r ∷ []) else w.anomalies))
          × (w'.tension_values ≡ w.tension_values ++ (r.tension ∷ []))
          × (w'.calibrator ≡ none)
    unfolding examine observe_in
    examine-lem n w uncalibrated same =
        let total = calculate-total settings.divergence gv settled.total n.id in
        let concealed = concealment_at-total settings settled gv n.id in
        elim (Option-cases (Tension.calculate settings.divergence gv n.id)) [
          | inl bad ↦ absurd (ground arith)
          | inr (t, found) ↦ elim (Option-cases (concealment_at settings gv n.id)) [
            | inl bad ↦ absurd (ground arith)
            | inr (c, costs) ↦
                let r : TensionResult F =
                  result_for settings now gv tensions curvatures n t none c in
                (
                  record {
                    results = w.results ++ (r ∷ []);
                    anomalies = if r.anomaly then w.anomalies ++ (r ∷ []) else w.anomalies;
                    tension_values = w.tension_values ++ (t ∷ []);
                    calibrator = none;
                  },
                  r,
                  ground arith,
                  refl,
                  ground arith,
                  refl,
                  refl,
                  refl,
                )
          ]
        ]

    pub examine_all-lem :
        (ns : List (NodeData F)) (w : Examined F)
        → w.calibrator ≡ none
        → w.anomalies ≡ anomalous w.results
        → ((id : Str)
            → mem id (ids ns) ≡ true
            → tension_of tensions id ≡ Tension.calculate settings.divergence gv id)
        → (w' : Examined F) × (examine_all settings now gv tensions curvatures ns w ≡ some w')
          × (map reading w'.results ≡ map reading w.results ++ map expected ns)
          × (w'.anomalies ≡ anomalous w'.results)
          × (length w'.results ≡ length w.results + length ns)
          × (length w'.tension_values ≡ length w.tension_values + length ns)
          × (w'.calibrator ≡ none)
    unfolding examine_all Map.mem
    examine_all-lem [] w uncalibrated flagged same = (
      w,
      refl,
      sym (append-nil (map reading w.results)),
      flagged,
      omega arith,
      omega arith,
      uncalibrated,
    )
    examine_all-lem (n ∷ ns) w uncalibrated flagged same =
        let (w1, r, runs, results, reads, anomalies, values, next) =
          examine-lem n w uncalibrated (same n.id (ground arith)) in
        let (w', more, all, marked, long, wide, last) =
          examine_all-lem ns w1 next (ground (arith, anomalous-append w.results r))
            (λ id m. same id (ground arith)) in
        (
          w',
          rw (runs, examine_all) more,
          all
              ∙ ap (λ l. map reading l ++ map expected ns) results
              ∙ ap (λ l. l ++ map expected ns) (map-append_one w.results r)
              ∙ ap (λ x. (map reading w.results ++ (x ∷ [])) ++ map expected ns) reads
              ∙ append_assoc (map reading w.results) (expected n ∷ []) (map expected ns),
          marked,
          ground (arith, length-append w.results (r ∷ [])),
          ground (arith, length-append w.tension_values (r.tension ∷ [])),
          last,
        )

  calculate_edges-total :
      (cc : CurvatureCalculator F) (es : List (EdgeData F)) (m : Map (Str × Str) F)
      → Searches gv
      → is_some (Curvature.calculate_edges cc gv es m) ≡ true
  unfolding Curvature.calculate_edges
  calculate_edges-total cc [] m search = refl
  calculate_edges-total cc (e ∷ es) m search =
      elim (Option-cases (Curvature.calculate cc gv e.from e.to)) [
        | inl bad ↦ absurd (ground (arith, curvature_returns cc gv e.from e.to search))
        | inr (c, found) ↦
            rw (found, Curvature.calculate_edges)
              (calculate_edges-total cc es (Map.put (e.from, e.to) c m) search)
      ]

  pub edge_curvatures-total : Searches gv → is_some (edge_curvatures settings gv) ≡ true
  unfolding edge_curvatures Curvature.calculate_all
  edge_curvatures-total search =
      let cc = Curvature.new_curvature_calculator settings.curvature_alpha in
      ground (arith, calculate_edges-total cc gv.edges [] search)

  pub stats_lem :
      (values : List F) (count : ℕ)
      → (s : ResultStats F) × (compute_result_stats settings.sort_floats values count ≡ some s)
        × (s.nodes_analyzed ≡ length values)
        × (s.anomaly_count ≡ (if length values == 0 then 0 else count))
  unfolding compute_result_stats
  stats_lem values count =
      let total = compute_median-total settings.sort_floats settled.length_sorted values in
      elim (Option-cases (compute_result_stats settings.sort_floats values count)) [
        | inl bad ↦ absurd (ground arith)
        | inr (s, found) ↦ (s, found, ground arith, ground arith)
      ]
