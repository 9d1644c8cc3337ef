-- ===== src/Tension/Total.antt =====
-- `Calculate` of analysis/tension.go does not panic.
use itt_engine.Prelude.{
  ◌≡◌, refl, ℕ, ◌+◌, true, List, [], ◌∷◌, map, Str, Float, arith, ◌∙◌, sym, Option-cases, inl, inr,
}
use itt_engine.Map.{is_some}
use itt_engine.Analysis.{GraphView}
use itt_engine.Divergence.{Divergence, normalize}
use itt_engine.Divergence.Laws.{IsTotal, length-normalize, length-map}
use itt_engine.Tension.{weight_to, perturbed_to, diverge, calculate}

module _ {F : Type 0} ⦃float : Float F⦄ (div : Divergence F) (g : GraphView F)
    (total : IsTotal div) where
  diverge-total :
      (removed : Str) (ns : List Str) (sum : F) (count : ℕ)
      → is_some (diverge div g removed ns sum count) ≡ true
  unfolding diverge
  diverge-total removed [] sum count = refl
  diverge-total removed (n ∷ ns) sum count =
      let outs = g.out_neighbors n in
      let before = map (weight_to div g n) outs in
      let after = map (perturbed_to div g removed n) outs in
      let same =
        length-normalize before
        ∙ length-map (weight_to div g n) outs
        ∙ sym (length-map (perturbed_to div g removed n) outs)
        ∙ sym (length-normalize after) in
      let computes = total (normalize before) (normalize after) same in
      elim (Option-cases (div (normalize before) (normalize after))) [
        | inl panics ↦ absurd (ground arith)
        | inr (d, found) ↦ ground (
          arith,
          diverge-total removed ns sum count,
          diverge-total removed ns (float.add sum d) (count + 1),
        )
      ]

  -- With a divergence that has a value on any two lists of one length, the tension of every node has
  -- a value: no read of the two distributions is out of bounds.
  pub calculate-total : (id : Str) → is_some (calculate div g id) ≡ true
  unfolding calculate
  calculate-total id = ground (arith, diverge-total id (g.neighbors id) float.nought 0)
