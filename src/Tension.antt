-- ===== src/Tension.antt =====
-- `TensionCalculator.Calculate` of analysis/tension.go; `none` is a panic of the divergence.
pub mod Total
use itt_engine.Prelude.{
  ℕ, ◌+◌, ◌==◌, Bool, Option, none, some, List, [], ◌∷◌, map, Str, Str-discrete, ite, Float, length,
  if◌then◌else◌, ◌>>=◌,
}
use itt_engine.Graph.{EdgeData}
use itt_engine.Analysis.{GraphView}
use itt_engine.Divergence.{Divergence, normalize}

module _ {F : Type 0} ⦃float : Float F⦄ (div : Divergence F) (g : GraphView F) where
  -- `original[i]`
  abbrev pub weight_to : Str → Str → F
  weight_to from to = elim (g.get_edge from to) [ none ↦ float.nought | some e ↦ e.weight ]

  -- `perturbedRaw[i]`
  abbrev pub perturbed_to : Str → Str → Str → F
  perturbed_to removed from to = ite (Str-discrete to removed) float.nought (weight_to from to)

  -- the loop of `Calculate`, with `totalDiv` and `count`
  unfoldable pub diverge : Str → List Str → F → ℕ → Option (F × ℕ)
  diverge removed [] total count = some (total, count)
  diverge removed (n ∷ ns) total count =
      let outs = g.out_neighbors n in
      let computed =
        div (normalize (map (weight_to n) outs)) (normalize (map (perturbed_to removed n) outs)) in
      if length outs == 0
      then diverge removed ns total count
      else (computed >>= λ d. diverge removed ns (float.add total d) (count + 1))

  unfoldable pub calculate : Str → Option F
  calculate id = elim (g.get_node id) [
    | none ↦ some float.nought
    | some _ ↦
        if length (g.neighbors id) == 0
        then some float.nought
        else (diverge id (g.neighbors id) float.nought 0 >>= λ r.
            some (if r.1 == 0 then float.nought else float.div r.0 (float.of_int r.1)))
  ]
