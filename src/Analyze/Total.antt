-- ===== src/Analyze/Total.antt =====
-- The analyses of snapshot.go do not panic.
use itt_engine.Prelude.{
  ◌≡◌, refl, ℕ, ◌+◌, true, Option, none, some, List, [], ◌∷◌, Str, Time, Float, arith, length,
  Option-cases, inl, inr,
}
use itt_engine.Map.{is_some}
use itt_engine.Graph.{NodeData}
use itt_engine.Graph.Valid.{IsValid}
use itt_engine.Snapshot
use itt_engine.Analysis.{GraphView}
use itt_engine.Bfs.Nodes.{bfs_distances-graph}
use itt_engine.Divergence.Laws.{IsTotal}
use itt_engine.Tension
use itt_engine.Tension.Total.{calculate-total}
use itt_engine.Curvature
use itt_engine.Curvature.Costs.{Searches, curvature_returns, view-Searches}
use itt_engine.Concealment.Cost.{calculate_node-total}
use itt_engine.Calibrator.{Calibrator}
use itt_engine.Calibrator.Frozen.{observe-total}
use itt_engine.Analyze.{
  Settings, analysis_view, observe_in, add_curvatures, mean_curvature, curvature_at, concealment_at,
  assess,
}

-- the layers that a snapshot reads
abbrev pub IsReadable : {F : Type 0} → Snapshot.GraphView F → Type 0
IsReadable (Snapshot.GraphView.layered v) = IsValid v.overlay × IsValid v.base
IsReadable (Snapshot.GraphView.flat g) = IsValid g

module _ {F : Type 0} ⦃float : Float F⦄ where
  pub readable-Searches :
      (view : Snapshot.GraphView F) → IsReadable view → Searches (analysis_view view)
  readable-Searches (Snapshot.GraphView.layered v) (vo, vb) = view-Searches v vo vb
  readable-Searches (Snapshot.GraphView.flat g) valid = λ src. bfs_distances-graph g src 4 valid

-- settings whose divergence has a value on any two lists of one length, and whose sorting keeps the
-- length
pub record IsSettled {F : Type 0} (settings : Settings F) : Type 0 where
  pub total : IsTotal settings.divergence
  pub length_sorted : (xs : List F) → length (settings.sort_floats xs) ≡ length xs

module _ {F : Type 0} ⦃float : Float F⦄ (settings : Settings F) where
  add_curvatures-total :
      (compute : Str → Option F) (ids : List Str) (r : F × ℕ)
      → ((id : Str) → is_some (compute id) ≡ true)
      → is_some (add_curvatures settings compute ids r) ≡ true
  unfolding add_curvatures
  add_curvatures-total compute [] r runs = refl
  add_curvatures-total compute (id ∷ ids) (sum, count) runs = elim (Option-cases (compute id)) [
    | inl bad ↦ absurd (ground (arith, runs id))
    | inr (c, found) ↦
        rw (found, add_curvatures)
          (add_curvatures-total compute ids (float.add sum c, count + 1) runs)
  ]

  mean_curvature-total :
      (gv : GraphView F) (compute : Str → Str → Option F) (id : Str)
      → ((from to : Str) → is_some (compute from to) ≡ true)
      → is_some (mean_curvature settings gv compute id) ≡ true
  unfolding mean_curvature
  mean_curvature-total gv compute id runs =
      let first =
        add_curvatures-total (λ n. compute id n) (gv.out_neighbors id) (float.nought, 0)
          (λ n. runs id n) in
      elim (Option-cases
        (add_curvatures settings (λ n. compute id n) (gv.out_neighbors id) (float.nought, 0))) [
          | inl bad ↦ absurd (ground arith)
          | inr (outs, found) ↦
              let second =
                add_curvatures-total (λ n. compute n id) (gv.in_neighbors id) outs
                  (λ n. runs n id) in
              ground arith
        ]

  curvature_at-total :
      (gv : GraphView F) (id : Str) → Searches gv → is_some (curvature_at settings gv id) ≡ true
  unfolding curvature_at
  curvature_at-total gv id search = elim (Option-cases settings.curvature) [
    | inl default ↦
        let cc = Curvature.new_curvature_calculator settings.curvature_alpha in
        ground (
          arith,
          mean_curvature-total gv (λ from to. Curvature.calculate cc gv from to) id
              (λ from to. curvature_returns cc gv from to search),
        )
    | inr (f, custom) ↦
        ground
          (arith, mean_curvature-total gv (λ from to. some (f gv from to)) id (λ from to. refl))
  ]

  module _ (settled : IsSettled settings) where
    pub concealment_at-total :
        (gv : GraphView F) (id : Str) → is_some (concealment_at settings gv id) ≡ true
    unfolding concealment_at
    concealment_at-total gv id = ground (
      arith,
      calculate_node-total settings.concealment_lambda (Tension.calculate settings.divergence gv) gv
          id settings.concealment_hops
          (λ v. calculate-total settings.divergence gv settled.total v),
    )

    observe_in-total :
        (now : Time) (t : F) (c : Option (Calibrator F))
        → is_some (observe_in settings now t c) ≡ true
    unfolding observe_in
    observe_in-total now t none = refl
    observe_in-total now t (some c) =
        ground (arith, observe-total settings.sort_floats settled.length_sorted now t c)

    pub assess-total :
        (now : Time) (gv : GraphView F) (id : Str) (n : NodeData F) (c : Option (Calibrator F))
        → Searches gv
        → is_some (assess settings now gv id n c) ≡ true
    unfolding assess
    assess-total now gv id n c search =
        let tension = calculate-total settings.divergence gv settled.total id in
        let curved = curvature_at-total gv id search in
        let concealed = concealment_at-total gv id in
        elim (Option-cases (Tension.calculate settings.divergence gv id)) [
          | inl bad ↦ absurd (ground arith)
          | inr (t, found) ↦ ground (arith, observe_in-total now t c)
        ]
