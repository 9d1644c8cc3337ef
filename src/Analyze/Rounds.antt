-- ===== src/Analyze/Rounds.antt =====
-- The text of `AnalyzeRegion` of snapshot.go for one node beside that of `AnalyzeNode`.
use itt_engine.Prelude.{
  ◌≡◌, refl, ℕ, ◌+◌, some, List, [], ◌∷◌, ◌++◌, Str, Time, Float, arith, Option, ◌>>=◌,
  if◌then◌else◌, Option-cases, inl, inr,
}
use itt_engine.Graph.{NodeData}
use itt_engine.Analysis.{GraphView}
use itt_engine.Tension
use itt_engine.Analyze.{
  Settings, Surveyed, add_curvatures, mean_curvature, curvature_at, concealment_at, confidence_of,
  observe_in, assess,
}
use itt_engine.Analyze.Calls.{
  sum_curvatures, around, region_calculator, region_curvature, region_confidence,
  region_concealment, survey_node,
}

module _ {F : Type 0} ⦃float : Float F⦄ (settings : Settings F) (now : Time) where
  sum_curvatures_lem :
      (compute : Str → Option F) (ids : List Str) (r : F × ℕ)
      → sum_curvatures settings now compute ids r ≡ add_curvatures settings compute ids r
  unfolding sum_curvatures add_curvatures
  sum_curvatures_lem compute [] r = refl
  sum_curvatures_lem compute (id ∷ ids) (sum, count) = elim (Option-cases (compute id)) [
    | inl bad ↦ ground arith
    | inr (c, found) ↦ ground (arith, sum_curvatures_lem compute ids (float.add sum c, count + 1))
  ]

  around_lem :
      (gv : GraphView F) (compute : Str → Str → Option F) (id : Str)
      → around settings now gv compute id ≡ mean_curvature settings gv compute id
  unfolding around mean_curvature
  around_lem gv compute id = simp (sum_curvatures_lem)

  region_curvature_lem :
      (gv : GraphView F) (id : Str)
      → region_curvature settings now gv id ≡ curvature_at settings gv id
  unfolding region_curvature curvature_at region_calculator
  region_curvature_lem gv id = grind (arith, around_lem)

  -- a round is the analysis of a node, and what the loop's variables make of it
  pub survey_node-assess :
      (gv : GraphView F) (id : Str) (n : NodeData F) (a : Surveyed F)
      → survey_node settings now gv id n a ≡ (
          assess settings now gv id n a.calibrator >>= λ r. some (record {
            nodes = a.nodes ++ (r.0 ∷ []);
            tension_values = a.tension_values ++ (r.0.tension ∷ []);
            anomaly_count = if r.0.anomaly then a.anomaly_count + 1 else a.anomaly_count;
            calibrator = r.1;
          }))
  unfolding survey_node assess region_confidence confidence_of region_concealment concealment_at
      observe_in
  survey_node-assess gv id n a =
      let curved = region_curvature_lem gv id in
      elim (Option-cases (Tension.calculate settings.divergence gv id)) [
        | inl bad ↦ ground arith
        | inr (t, computed) ↦ elim (Option-cases (observe_in settings now t a.calibrator)) [
          | inl bad ↦ ground arith
          | inr (c, seen) ↦ elim (Option-cases (curvature_at settings gv id)) [
            | inl bad ↦ ground arith
            | inr (curv, bends) ↦ elim (Option-cases (concealment_at settings gv id)) [
              | inl bad ↦ ground arith
              | inr (cost, hides) ↦ ground arith
            ]
          ]
        ]
      ]
