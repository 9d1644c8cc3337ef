-- ===== src/Curvature.antt =====
-- analysis/curvature.go: the Ollivier-Ricci curvature of edges. `bfsDistances` and `sortStrings`
-- have modules of their own. A matrix is the list of its rows; a vector and the rows beside it have
-- one length, so no read of `at` is out of bounds. `none` is a search that has used up its fuel.
pub mod Costs
use itt_engine.Prelude.{
  ℕ, zero, suc, ◌+◌, ◌==◌, Bool, true, Option, none, some, List, [], ◌∷◌, map, Str, str_key, Key,
  Float, length, get_or, if◌then◌else◌, ◌>>=◌, Str-discrete,
}
use itt_engine.Map
use itt_engine.Map.{Map, keys}
use itt_engine.Graph.{EdgeData}
use itt_engine.Analysis.{GraphView}
use itt_engine.Bfs.{bfs_distances}
use itt_engine.Sort.{sort_strings}

pub record CurvatureCalculator (F : Type 0) : Type 0 where
  pub alpha : F
  pub reg : F
  pub max_iter : ℕ

unfoldable pub Pair-discrete : Discrete (Str × Str)
unfolding Str-discrete
Pair-discrete = hlevel Str-discrete

-- the key `[2]string`
instance abbrev pub pair_key : Key (Str × Str)
pair_key = record { same = Pair-discrete }

-- `for id := range m { supportSet[id] = true }`
unfoldable pub mark_all : List Str → Map Str Bool → Map Str Bool
mark_all [] set = set
mark_all (id ∷ ids) set = mark_all ids (Map.put id true set)

module _ {F : Type 0} ⦃float : Float F⦄ where
  unfoldable pub new_curvature_calculator : F → CurvatureCalculator F
  new_curvature_calculator alpha = record { alpha = alpha; reg = float.literal 1 1; max_iter = 100 }

  abbrev at : List F → ℕ → F
  at xs i = get_or xs i float.nought

  -- `m[id]`: 0 for a missing key
  abbrev mass : Str → Map Str F → F
  mass id m = elim (Map.get id m) [ none ↦ float.nought | some x ↦ x ]

  -- the loop of `buildMeasure`
  unfoldable pub spread : F → List Str → Map Str F → Map Str F
  spread share [] measure = measure
  spread share (id ∷ ids) measure =
      spread share ids (Map.put id (float.add (mass id measure) share) measure)

  unfoldable pub build_measure : CurvatureCalculator F → GraphView F → Str → Map Str F
  build_measure cc g id =
      let neighbors = g.neighbors id in
      let share = float.div (float.sub float.one cc.alpha) (float.of_int (length neighbors)) in
      if length neighbors == 0
      then (id, float.one) ∷ []
      else spread share neighbors ((id, cc.alpha) ∷ [])

  -- an entry of the cost matrix, by the distances from its row's node
  unfoldable pub cost_entry : Map Str ℕ → ℕ → ℕ → Str → F
  cost_entry dist i j dst =
      if i == j
      then float.nought
      else elim (Map.get dst dist) [ none ↦ float.literal 4 0 | some d ↦ float.of_int d ]

  unfoldable pub cost_row : Map Str ℕ → ℕ → ℕ → List Str → List F
  cost_row dist i j [] = []
  cost_row dist i j (dst ∷ dsts) = cost_entry dist i j dst ∷ cost_row dist i (j + 1) dsts

  -- the rows from `i` on, whose nodes are the list
  unfoldable pub cost_rows : GraphView F → List Str → ℕ → List Str → Option (List (List F))
  cost_rows g support i [] = some []
  cost_rows g support i (src ∷ srcs) = do
    dist ← bfs_distances g src 4
    rest ← cost_rows g support (i + 1) srcs
    some (cost_row dist i 0 support ∷ rest)

  unfoldable pub build_cost_matrix : GraphView F → List Str → Option (List (List F))
  build_cost_matrix g support = cost_rows g support 0 support

  -- `sum += K[i][j] * u[i]` over the rows
  unfoldable pub column_sum : ℕ → List (List F) → ℕ → List F → F → F
  column_sum j [] i u sum = sum
  column_sum j (row ∷ rows) i u sum =
      column_sum j rows (i + 1) u (float.add sum (float.mul (at row j) (at u i)))

  -- `sum += K[i][j] * v[j]` over a row
  unfoldable pub row_sum : List F → ℕ → List F → F → F
  row_sum [] j v sum = sum
  row_sum (k ∷ row) j v sum = row_sum row (j + 1) v (float.add sum (float.mul k (at v j)))

  -- `if sum > 1e-300 { x = target / sum }`
  abbrev scaled : F → F → F → F
  scaled target sum x = if float.lt (float.literal 1 300) sum then float.div target sum else x

  -- the loop that sets `v`, from index `j` on
  unfoldable pub update_v : List (List F) → List F → List F → ℕ → List F → List F
  update_v kernel nu u j [] = []
  update_v kernel nu u j (x ∷ v) =
      scaled (at nu j) (column_sum j kernel 0 u float.nought) x ∷ update_v kernel nu u (j + 1) v

  -- the loop that sets `u`, from index `i` on
  unfoldable pub update_u : List (List F) → List F → List F → ℕ → List F → List F
  update_u [] mu v i u = u
  update_u (row ∷ rows) mu v i [] = []
  update_u (row ∷ rows) mu v i (x ∷ u) =
      scaled (at mu i) (row_sum row 0 v float.nought) x ∷ update_u rows mu v (i + 1) u

  unfoldable pub iterate : ℕ → List (List F) → List F → List F → List F → List F → List F × List F
  iterate zero kernel mu nu u v = (u, v)
  iterate (suc n) kernel mu nu u v =
      let v' = update_v kernel nu u 0 v in iterate n kernel mu nu (update_u kernel mu v' 0 u) v'

  -- the loop over `j` that adds up the transport cost of a row
  unfoldable pub transport_row : F → List F → List F → ℕ → List F → F → F
  transport_row x [] costs j v total = total
  transport_row x (k ∷ row) costs j v total =
      let gamma = float.mul (float.mul x k) (at v j) in
      transport_row x row costs (j + 1) v (float.add total (float.mul gamma (at costs j)))

  unfoldable pub transport : List (List F) → List (List F) → ℕ → List F → List F → F → F
  transport [] cost i u v total = total
  transport (row ∷ rows) cost i u v total =
      transport rows cost (i + 1) u v (transport_row (at u i) row (get_or cost i []) 0 v total)

  unfoldable pub sinkhorn : List F → List F → List (List F) → F → ℕ → F
  sinkhorn mu nu cost reg max_iter =
      let kernel = map (λ row. map (λ c. float.exp (float.div (float.neg c) reg)) row) cost in
      let (u, v) =
        iterate max_iter kernel mu nu (map (λ x. float.one) mu) (map (λ x. float.one) nu) in
      if length mu == 0
      then float.nought
      else if length nu == 0
      then float.nought
      else transport kernel cost 0 u v float.nought

  unfoldable pub calculate : CurvatureCalculator F → GraphView F → Str → Str → Option F
  calculate cc g from to = elim (g.get_edge from to) [
    | none ↦ some float.nought
    | some _ ↦
        let mu_from = build_measure cc g from in
        let mu_to = build_measure cc g to in
        let support = sort_strings (keys (mark_all (keys mu_to) (mark_all (keys mu_from) []))) in
        (build_cost_matrix g support >>= λ cost.
        let mu = map (λ id. mass id mu_from) support in
        let nu = map (λ id. mass id mu_to) support in
        some (float.sub float.one (sinkhorn mu nu cost cc.reg cc.max_iter)))
  ]

  -- the loop of `CalculateAll`
  unfoldable pub calculate_edges :
      CurvatureCalculator F
      → GraphView F
      → List (EdgeData F)
      → Map (Str × Str) F
      → Option (Map (Str × Str) F)
  calculate_edges cc g [] result = some result
  calculate_edges cc g (e ∷ es) result = do
    c ← calculate cc g e.from e.to
    calculate_edges cc g es (Map.put (e.from, e.to) c result)

  unfoldable pub calculate_all : CurvatureCalculator F → GraphView F → Option (Map (Str × Str) F)
  calculate_all cc g = calculate_edges cc g g.edges []
