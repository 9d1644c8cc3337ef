-- ===== src/Indicators.antt =====
-- The temporal indicators of analysis/temporal.go. A nil map of curvatures is `none`; the
-- calculator's own field is not read.
pub mod Spike
use itt_engine.Prelude.{
  ℕ, suc, ◌/◌, ◌%◌, ◌==◌, ◌&&◌, Bool, true, Option, none, some, List, [], ◌∷◌, Str, str_key, Key, ℤ,
  pos, negsuc, Float, Time, length, if◌then◌else◌,
}
use itt_engine.Map
use itt_engine.Map.{Map, keys, values}
use itt_engine.Divergence.{sum_from}
use itt_engine.Curvature.{pair_key}
use itt_engine.Phase.{TemporalIndicators}

-- `for k := range m { all[k] = true }`
unfoldable pub mark_keys : {K : Type 0} ⦃key : Key K⦄ → List K → Map K Bool → Map K Bool
mark_keys [] all = all
mark_keys (k ∷ ks) all = mark_keys ks (Map.put k true all)

module _ {F : Type 0} ⦃float : Float F⦄ where
  module _ {K : Type 0} ⦃key : Key K⦄ (current previous : Map K F) where
    -- `m[k]`: 0 for a missing key
    abbrev pub value_at : K → Map K F → F
    value_at k m = elim (Map.get k m) [ none ↦ float.nought | some x ↦ x ]

    abbrev pub delta : K → F
    delta k = float.abs (float.sub (value_at k current) (value_at k previous))

    -- the loop that computes the largest change
    unfoldable pub max_delta : List K → F → F
    max_delta [] max = max
    max_delta (k ∷ ks) max = max_delta ks (if float.lt max (delta k) then delta k else max)

    unfoldable pub largest_change : F
    largest_change =
        max_delta (keys (mark_keys (keys previous) (mark_keys (keys current) []))) float.nought

  unfoldable pub map_mean : Map Str F → F
  map_mean m =
      if length m == 0
      then float.nought
      else float.div (sum_from float.nought (values m)) (float.of_int (length m))

  -- `time.Duration.Seconds`, of nanoseconds
  abbrev pub seconds_of : ℕ → F
  seconds_of n =
      float.add (float.of_int (n / 1_000_000_000))
        (float.div (float.of_int (n % 1_000_000_000)) (float.of_int 1_000_000_000))

  abbrev pub seconds : ℤ → F
  seconds (pos n) = seconds_of n
  seconds (negsuc n) = float.neg (seconds_of (suc n))

  unfoldable pub decay : Map Str F → Map Str F → F → F
  decay current previous dt =
      let now = map_mean current in
      let before = map_mean previous in
      if float.lt float.nought dt
      then (if float.lt float.nought now && float.lt float.nought before
          then float.div (float.neg (float.sub (float.log now) (float.log before))) dt
          else float.nought)
      else float.nought

  unfoldable pub indicators_with_curvature :
      Map Str F
      → Map Str F
      → Option (Map (Str × Str) F)
      → Option (Map (Str × Str) F)
      → ℤ
      → Time
      → TemporalIndicators F
  indicators_with_curvature current previous current_curv prev_curv dt now = record {
    tension_spike = largest_change current previous;
    decay_exponent = decay current previous (seconds dt);
    curvature_shock = elim current_curv [
      | none ↦ float.nought
      | some c ↦ elim prev_curv [ none ↦ float.nought | some p ↦ largest_change c p ]
    ];
    timestamp = now;
  }

  unfoldable pub indicators : Map Str F → Map Str F → ℤ → Time → TemporalIndicators F
  indicators current previous dt now = indicators_with_curvature current previous none none dt now
