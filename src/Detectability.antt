-- ===== src/Detectability.antt =====
-- analysis/yharim.go and analysis/detectability.go: whether tensions stand out of their noise.
pub mod Regions
use itt_engine.Prelude.{
  ℕ, ◌==◌, Bool, true, false, not, ◌||◌, List, [], ◌∷◌, Float, length, if◌then◌else◌,
}
use itt_engine.Divergence.{sum_from}

pub data Region : Type 0 where
  undetectable : Region
  weakly_detectable : Region
  strongly_detectable : Region

module _ {F : Type 0} ⦃float : Float F⦄ where
  -- `a <= b` of two floats
  abbrev pub le_float : F → F → Bool
  le_float a b = float.lt a b || float.eq a b

  unfoldable pub yharim_limit : F → F
  yharim_limit alpha =
      if le_float alpha float.nought
      then float.infinity
      else if le_float float.one alpha
      then float.nought
      else float.sqrt (float.mul (float.literal 2 0) (float.log (float.div float.one alpha)))

  -- the loop that sums the squares
  unfoldable pub spread_from : F → F → List F → F
  spread_from mean variance [] = variance
  spread_from mean variance (v ∷ vs) =
      let diff = float.sub v mean in spread_from mean (float.add variance (float.mul diff diff)) vs

  unfoldable pub snr : List F → F
  snr tensions =
      let n = float.of_int (length tensions) in
      let mean = float.div (sum_from float.nought tensions) n in
      let stddev = float.sqrt (float.div (spread_from mean float.nought tensions) n) in
      if length tensions == 0
      then float.nought
      else if float.eq mean float.nought
      then float.nought
      else if float.eq stddev float.nought
      then float.infinity
      else float.mul (float.div mean stddev) (float.sqrt n)

  unfoldable pub is_detectable : List F → F → Bool
  is_detectable tensions alpha = float.lt (yharim_limit alpha) (snr tensions)

  unfoldable pub classify : List F → F → Region
  classify tensions alpha =
      let limit = yharim_limit alpha in
      if length tensions == 0
      then Region.undetectable
      else if float.lt (float.mul (float.literal 2 0) limit) (snr tensions)
      then Region.strongly_detectable
      else if float.lt limit (snr tensions)
      then Region.weakly_detectable
      else Region.undetectable

-- `DetectabilityResult`
pub record Detection (F : Type 0) : Type 0 where
  pub snr : F
  pub threshold : F
  pub region : Region
  pub alpha : F

module _ {F : Type 0} ⦃float : Float F⦄ where
  unfoldable pub detectability : List F → F → Detection F
  detectability tensions alpha = record {
    snr = if length tensions == 0 then float.nought else snr tensions;
    threshold = yharim_limit alpha;
    region = classify tensions alpha;
    alpha = alpha;
  }

  -- `CPS`
  unfoldable pub cps : List F → F → F → F
  cps tensions cost alpha =
      let mean = float.div (sum_from float.nought tensions) (float.of_int (length tensions)) in
      let two = float.literal 2 0 in
      if not (is_detectable tensions alpha)
      then float.nought
      else if (length tensions == 0) || le_float cost float.nought
      then float.nought
      else if le_float mean float.nought
      then float.nought
      else float.sub
          (float.div two (float.add float.one (float.exp (float.neg (float.div cost mean)))))
          float.one
