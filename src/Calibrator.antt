-- ===== src/Calibrator.antt =====
-- analysis/calibrator.go: the threshold of anomalies. `sort_floats` stands for `sort.Float64s` on a
-- copy; a call takes the reading of the clock that it makes; `none` is a read out of bounds.
pub mod Frozen
use itt_engine.Prelude.{
  ℕ, zero, suc, ◌+◌, ◌-◌, ◌/◌, ◌%◌, ◌==◌, Bool, true, false, not, ◌&&◌, Option, none, some, List,
  [], ◌∷◌, ◌++◌, map, Float, Time, length, get_elem?, ℤ, pos, leb_ℤ, if◌then◌else◌, ◌>>=◌,
}

pub record Calibrator (F : Type 0) : Type 0 where
  pub observations : List F
  pub k : F
  pub warmup_size : ℤ
  pub warmed_up : Bool
  pub median : F
  pub mad : F
  pub threshold : F
  pub last_recal : Time

pub record CalibratorStats (F : Type 0) : Type 0 where
  pub samples_observed : ℕ
  pub median : F
  pub mad : F
  pub threshold : F
  pub k : F
  pub is_warmed_up : Bool
  pub last_recalibration : Time

-- the calls that make a `CalibratorOption`
pub data Choice (F : Type 0) : Type 0 where
  with_k : F → Choice F
  with_warmup_size : ℤ → Choice F
  with_precomputed_baseline : F → F → Choice F

module _ {F : Type 0} ⦃float : Float F⦄ where
  unfoldable pub choose : Time → Choice F → Calibrator F → Calibrator F
  choose now (Choice.with_k k) c = record c { k = k }
  choose now (Choice.with_warmup_size n) c = record c { warmup_size = n }
  choose now (Choice.with_precomputed_baseline median mad) c = record c {
    median = median;
    mad = mad;
    threshold = float.add median (float.mul c.k mad);
    warmed_up = true;
    last_recal = now;
  }

  unfoldable pub choose_all : Time → List (Choice F) → Calibrator F → Calibrator F
  choose_all now [] c = c
  choose_all now (opt ∷ opts) c = choose_all now opts (choose now opt c)

  unfoldable pub new_calibrator : Time → List (Choice F) → Calibrator F
  new_calibrator now opts = choose_all now opts (record {
    observations = [];
    k = float.literal 3 0;
    warmup_size = pos 1000;
    warmed_up = false;
    median = float.nought;
    mad = float.nought;
    threshold = float.nought;
    last_recal = 0;
  })

  -- `Stats`
  unfoldable pub stats : Calibrator F → CalibratorStats F
  stats c = record {
    samples_observed = length c.observations;
    median = c.median;
    mad = c.mad;
    threshold = c.threshold;
    k = c.k;
    is_warmed_up = c.warmed_up;
    last_recalibration = c.last_recal;
  }

  unfoldable pub is_anomaly : F → Calibrator F → Bool
  is_anomaly tension c = if not c.warmed_up then false else float.lt c.threshold tension

  module _ (sort_floats : List F → List F) where
    unfoldable pub compute_median : List F → Option F
    compute_median data' =
        let sorted = sort_floats data' in
        let n = length sorted in
        if length data' == 0
        then some float.nought
        else if n % 2 == 0
        then (do
          low ← get_elem? sorted (n / 2 - 1)
          high ← get_elem? sorted (n / 2)
          some (float.div (float.add low high) (float.literal 2 0)))
        else get_elem? sorted (n / 2)

    -- the loop of `recalibrate`
    abbrev pub deviations : F → List F → List F
    deviations median obs = map (λ v. float.abs (float.sub v median)) obs

    unfoldable pub recalibrate_now : Time → Calibrator F → Option (Calibrator F)
    recalibrate_now now c = do
      median ← compute_median c.observations
      mad ← compute_median (deviations median c.observations)
      some (record c {
        median = median;
        mad = mad;
        threshold = float.add median (float.mul c.k mad);
        warmed_up = true;
        last_recal = now;
      })

    unfoldable pub observe : Time → F → Calibrator F → Option (Calibrator F)
    observe now tension c =
        let c' = record c { observations = c.observations ++ (tension ∷ []) } in
        if not c.warmed_up && leb_ℤ c.warmup_size (pos (length c'.observations))
        then recalibrate_now now c'
        else some c'

    -- `Recalibrate`
    unfoldable pub recalibrate : Time → Calibrator F → Option (Calibrator F)
    recalibrate now c = if length c.observations == 0 then some c else recalibrate_now now c

    -- calls of `Observe` in a row
    unfoldable pub observe_all : List (Time × F) → Calibrator F → Option (Calibrator F)
    observe_all [] c = some c
    observe_all ((now, tension) ∷ rest) c = do c' ← observe now tension c; observe_all rest c'
