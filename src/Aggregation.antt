-- ===== src/Aggregation.antt =====
-- aggregation.go: the aggregation functions. `sort_floats` stands for `sort.Float64s` on a copy;
-- `none` is a read out of bounds.
pub mod Maximum
use itt_engine.Prelude.{
  ℕ, ◌-◌, ◌/◌, ◌%◌, ◌==◌, Option, some, List, [], ◌∷◌, Float, length, get_elem?, if◌then◌else◌,
  ◌>>=◌,
}
use itt_engine.Divergence.{sum_from}

module _ {F : Type 0} ⦃float : Float F⦄ where
  unfoldable pub agg_mean : List F → F
  agg_mean tensions =
      if length tensions == 0
      then float.nought
      else float.div (sum_from float.nought tensions) (float.of_int (length tensions))

  -- the loop of `AggMax`
  unfoldable pub max_from : F → List F → F
  max_from max [] = max
  max_from max (t ∷ ts) = max_from (if float.lt max t then t else max) ts

  unfoldable pub agg_max : List F → F
  agg_max [] = float.nought
  agg_max (t ∷ ts) = max_from t ts

  unfoldable pub agg_median : (List F → List F) → List F → Option F
  agg_median sort_floats tensions =
      let sorted = sort_floats tensions in
      let n = length sorted in
      if length tensions == 0
      then some float.nought
      else if n % 2 == 0
      then (do
        low ← get_elem? sorted (n / 2 - 1)
        high ← get_elem? sorted (n / 2)
        some (float.div (float.add low high) (float.literal 2 0)))
      else get_elem? sorted (n / 2)

  unfoldable pub agg_sum : List F → F
  agg_sum tensions = sum_from float.nought tensions
