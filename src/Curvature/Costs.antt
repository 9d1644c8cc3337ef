-- ===== src/Curvature/Costs.antt =====
-- The cost matrix of analysis/curvature.go over the view of two layers, and that a curvature is
-- computed.
use itt_engine.Prelude.{
  ◌≡◌, refl, ℕ, zero, suc, ◌+◌, ◌≤◌, ◌==◌, true, none, some, List, [], ◌∷◌, Str, str_key, arith,
  Float, ◌↔◌, get_elem?, get_or, if◌then◌else◌,
}
use itt_engine.Map
use itt_engine.Map.{Map, is_some, keys}
use itt_engine.Graph.Valid.{IsValid}
use itt_engine.View
use itt_engine.View.{UnifiedView}
use itt_engine.Analysis.{GraphView, of_view}
use itt_engine.Bfs.{bfs_distances}
use itt_engine.Bfs.Loop.{IsShortest}
use itt_engine.Bfs.Nodes.{bfs_distances-view}
use itt_engine.Sort.{sort_strings}
use itt_engine.Curvature.{
  CurvatureCalculator, build_measure, cost_entry, cost_row, cost_rows, build_cost_matrix, mark_all,
  calculate,
}

module _ {F : Type 0} ⦃float : Float F⦄ where
  get-cost_row :
      (dist : Map Str ℕ) (i k j n : ℕ) (dsts : List Str) (dst : Str)
      → k + j ≡ n
      → get_elem? dsts j ≡ some dst
      → get_or (cost_row {F = F} dist i k dsts) j float.nought ≡ cost_entry dist i n dst
  unfolding cost_row
  get-cost_row dist i k j n [] dst sum h = absurd (ground arith)
  get-cost_row dist i k zero n (d ∷ dsts) dst sum h = ground arith
  get-cost_row dist i k (suc j) n (d ∷ dsts) dst sum h =
      get-cost_row dist i (k + 1) j n dsts dst (omega arith) h

  module _ (v : UnifiedView F) (vo : IsValid v.overlay) (vb : IsValid v.base) where
    cost_rows-some :
        (support srcs : List Str) (i : ℕ)
        → (cost : List (List F)) × (cost_rows (of_view v) support i srcs ≡ some cost)
    unfolding cost_rows
    cost_rows-some support [] i = ([], refl)
    cost_rows-some support (src ∷ srcs) i =
        let (dist, found, near) = bfs_distances-view v src 4 vo vb in
        let (rest, runs) = cost_rows-some support srcs (i + 1) in
        (cost_row dist i 0 support ∷ rest, rw (found, runs, cost_rows) refl)

    get-cost_rows :
        (support srcs : List Str) (i k n : ℕ) (src : Str) (dist : Map Str ℕ) (cost : List (List F))
        → k + i ≡ n
        → get_elem? srcs i ≡ some src
        → bfs_distances (of_view v) src 4 ≡ some dist
        → cost_rows (of_view v) support k srcs ≡ some cost
        → get_or cost i [] ≡ cost_row dist n 0 support
    unfolding cost_rows
    get-cost_rows support [] i k n src dist cost sum h found runs = absurd (ground arith)
    get-cost_rows support (s ∷ srcs) zero k n src dist cost sum h found runs =
        let (rest, more) = cost_rows-some support srcs (k + 1) in ground arith
    get-cost_rows support (s ∷ srcs) (suc i) k n src dist cost sum h found runs =
        let (first, here, near) = bfs_distances-view v s 4 vo vb in
        let (rest, more) = cost_rows-some support srcs (k + 1) in
        let tail =
          get-cost_rows support srcs i (k + 1) n src dist rest (omega arith) h found more in
        let shape : cost ≡ cost_row first k 0 support ∷ rest = ground arith in rw shape tail

    -- Over two valid layers `buildCostMatrix` returns. An entry of the matrix off the diagonal is
    -- the length of a shortest walk along neighbours between the two nodes of the support, where
    -- that is at most 4, and 4 else; an entry on the diagonal is 0.
    pub build_cost_matrix-entry :
        (support : List Str) (i j : ℕ) (src dst : Str)
        → get_elem? support i ≡ some src
        → get_elem? support j ≡ some dst
        → (cost : List (List F)) × (dist : Map Str ℕ) × (build_cost_matrix (of_view v) support
            ≡ some cost)
          × (get_or (get_or cost i []) j float.nought ≡ (
              if i == j
              then float.nought
              else elim (Map.get dst dist) [ none ↦ float.literal 4 0 | some d ↦ float.of_int d ]))
          × ((d : ℕ)
              → (Map.get dst dist ≡ some d)
                ↔ ((d ≤ 4) × IsShortest (λ u. View.neighbors u v) src dst d))
    unfolding build_cost_matrix cost_entry
    build_cost_matrix-entry support i j src dst hi hj =
        let (dist, found, near) = bfs_distances-view v src 4 vo vb in
        let (cost, runs) = cost_rows-some support support 0 in
        let row = get-cost_rows support support i 0 i src dist cost (omega arith) hi found runs in
        (
          cost,
          dist,
          runs,
          rw row (get-cost_row dist i 0 j j support dst (omega arith) hj),
          λ d. near dst d,
        )

  -- a graph whose searches of `buildCostMatrix` return
  abbrev pub Searches : GraphView F → Type 0
  Searches g = (src : Str) → is_some (bfs_distances g src 4) ≡ true

  cost_rows-total :
      (g : GraphView F) (support srcs : List Str) (i : ℕ)
      → Searches g
      → is_some (cost_rows g support i srcs) ≡ true
  unfolding cost_rows
  cost_rows-total g support [] i search = refl
  cost_rows-total g support (src ∷ srcs) i search =
      ground (arith, search src, cost_rows-total g support srcs (i + 1) search)

  pub curvature_returns :
      (cc : CurvatureCalculator F) (g : GraphView F) (from to : Str)
      → Searches g
      → is_some (calculate cc g from to) ≡ true
  unfolding calculate build_cost_matrix
  curvature_returns cc g from to search =
      let mu_from = build_measure cc g from in
      let mu_to = build_measure cc g to in
      let support = sort_strings (keys (mark_all (keys mu_to) (mark_all (keys mu_from) []))) in
      ground (arith, cost_rows-total g support support 0 search)

  pub view-Searches :
      (v : UnifiedView F) → IsValid v.overlay → IsValid v.base → Searches (of_view v)
  view-Searches v vo vb src =
      let (dist, found, near) = bfs_distances-view v src 4 vo vb in ground arith
