-- ===== src/Detectability/Regions.antt =====
-- How the regions of analysis/detectability.go and the limit of analysis/yharim.go agree.
use itt_engine.Prelude.{◌≡◌, Bool, true, false, List, Float, arith, if◌then◌else◌}
use itt_engine.Detectability.{
  Region, yharim_limit, snr, is_detectable, classify, detectability, cps,
}

-- a region that `IsDetectable` is true of
abbrev pub stands_out : Region → Bool
stands_out Region.undetectable = false
stands_out Region.weakly_detectable = true
stands_out Region.strongly_detectable = true

module _ {F : Type 0} ⦃float : Float F⦄
    (infinity_sign : float.lt float.infinity float.nought ≡ false)
    (nought_sign : float.lt float.nought float.nought ≡ false)
    (sqrt_sign : (x : F) → float.lt (float.sqrt x) float.nought ≡ false)
    (double : (x y : F)
      → float.lt x float.nought ≡ false
      → float.lt (float.mul (float.literal 2 0) x) y ≡ true
      → float.lt x y ≡ true) where
  limit_sign : (alpha : F) → float.lt (yharim_limit alpha) float.nought ≡ false
  unfolding yharim_limit
  limit_sign alpha = ground (
    arith,
    infinity_sign,
    nought_sign,
    sqrt_sign (float.mul (float.literal 2 0) (float.log (float.div float.one alpha))),
  )

  -- Where infinity, 0 and square roots are not negative, and what is above twice a number that is
  -- not negative is above it: `Classify`, `IsDetectable` and the fields of the result of
  -- `Detectability` agree on every list of tensions, the empty one too, and `CPS` is 0 where they
  -- find nothing.
  pub detectability_agrees :
      (tensions : List F) (cost alpha : F)
      → let d = detectability tensions alpha in
        (stands_out (classify tensions alpha) ≡ is_detectable tensions alpha)
        × (stands_out d.region ≡ float.lt d.threshold d.snr)
        × ((if stands_out d.region then float.nought else cps tensions cost alpha) ≡ float.nought)
  unfolding classify is_detectable detectability cps snr
  detectability_agrees tensions cost alpha =
      let sign = limit_sign alpha in
      let far = double (yharim_limit alpha) (snr tensions) sign in
      (ground arith, ground arith, ground arith)
