-- ===== src/Concealment.antt =====
-- analysis/concealment.go: the cost of concealment, over the nodes around one by their distance.
-- `tau` stands for the call `cc.tension.Calculate` on the graph; `none` is a panic of it.
pub mod Levels
pub mod Cost
use itt_engine.Prelude.{
  ℕ, zero, suc, ◌+◌, Option, none, some, List, [], ◌∷◌, Str, ℤ, pos, negsuc, Float, ◌>>=◌,
}
use itt_engine.Map.{Map}
use itt_engine.Analysis.{GraphView}
use itt_engine.Bfs.{Search, scan}

module _ (next : Str → List Str) where
  -- the loop that fills `nextFrontier`, held as the queue, from the frontier of distance `k`
  unfoldable pub expand : ℕ → List Str → Search → Search
  expand k [] s = s
  expand k (vid ∷ vids) s = expand k vids (scan k (next vid) s)

module _ {F : Type 0} ⦃float : Float F⦄ (lambda : F) (tau : Str → Option F) where
  -- `tau * math.Exp(-cc.lambda*float64(k))`
  abbrev pub decayed : ℕ → F → F
  decayed k t = float.mul t (float.exp (float.mul (float.neg lambda) (float.of_int k)))

  -- the loop over the nodes at distance `k`
  unfoldable pub add_level : ℕ → List Str → F → Option F
  add_level k [] total = some total
  add_level k (vid ∷ vids) total = do t ← tau vid; add_level k vids (float.add total (decayed k t))

  -- the rounds from `k` on, of which `left` follow the next; the queue of `s` is the frontier
  unfoldable pub rounds : (Str → List Str) → ℕ → ℕ → F → Search → Option F
  rounds next zero k total s = add_level k s.queue total
  rounds next (suc left) k total s = do
    total' ← add_level k s.queue total
    rounds next left (k + 1) total' (expand next k s.queue (record s { queue = [] }))

  unfoldable pub calculate_node : GraphView F → Str → ℤ → Option F
  calculate_node g id max_hops = elim (g.get_node id) [
    | none ↦ some float.nought
    | some _ ↦ elim max_hops [
      | pos hops ↦
          rounds g.neighbors hops 0 float.nought (record { dist = (id, 0) ∷ []; queue = id ∷ [] })
      | negsuc _ ↦ some float.nought
    ]
  ]

  -- `Calculate`
  unfoldable pub calculate_from : GraphView F → List Str → ℤ → F → Option F
  calculate_from g [] max_hops total = some total
  calculate_from g (id ∷ ids) max_hops total = do
    cost ← calculate_node g id max_hops
    calculate_from g ids max_hops (float.add total cost)
