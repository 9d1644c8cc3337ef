-- ===== src/Phase.antt =====
-- ClassifyPhase of analysis/temporal.go: the phase that the indicators of a region put it in.
pub mod Bounds
use itt_engine.Prelude.{Bool, ◌&&◌, ◌||◌, if◌then◌else◌, Time, Float}

pub record TemporalIndicators (F : Type 0) : Type 0 where
  pub tension_spike : F
  pub decay_exponent : F
  pub curvature_shock : F
  pub timestamp : Time

pub data Phase : Type 0 where
  full_recovery scarred_recovery chronic_tension structural_collapse : Phase

pub record PhaseResult (F : Type 0) : Type 0 where
  pub phase : Phase
  pub rho : F
  pub pi : F

module _ {F : Type 0} ⦃float : Float F⦄ where
  abbrev pub two : F
  two = float.of_int 2

  -- 0.5
  abbrev pub half : F
  half = float.div float.one (float.of_int 2)

  -- 0.01
  abbrev pub hundredth : F
  hundredth = float.div float.one (float.of_int 100)

  -- `x >= y`
  abbrev pub at_least : F → F → Bool
  at_least x y = float.lt y x || float.eq x y

  -- the intensity of the suppression, capped at 2
  unfoldable pub suppression : TemporalIndicators F → F → F
  suppression indicators mean_tension =
      let rho =
        if float.lt indicators.decay_exponent float.nought
        then float.abs indicators.decay_exponent
        else if float.lt indicators.decay_exponent hundredth && float.lt float.nought mean_tension
        then mean_tension
        else float.nought in
      let total = float.add rho indicators.tension_spike in
      if float.lt two total then two else total

  -- the capacity to heal, clamped to [0, 1]
  unfoldable pub healing : F → F
  healing ratio =
      let capped = if float.lt float.one ratio then float.one else ratio in
      if float.lt capped float.nought then float.nought else capped

  unfoldable pub phase_of : F → F → Phase
  phase_of rho pi =
      if float.lt rho float.one
      then (if at_least pi half then Phase.full_recovery else Phase.scarred_recovery)
      else (if at_least pi half then Phase.chronic_tension else Phase.structural_collapse)

  -- the previous mean tension is not read
  unfoldable pub classify_phase : TemporalIndicators F → F → F → F → PhaseResult F
  classify_phase indicators mean_tension prev_mean_tension connectivity_ratio =
      let rho = suppression indicators mean_tension in
      let pi = healing connectivity_ratio in record { phase = phase_of rho pi; rho = rho; pi = pi }
