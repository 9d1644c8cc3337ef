-- ===== src/Phase/Bounds.antt =====
-- The results of ClassifyPhase of analysis/temporal.go stay in their ranges.
use itt_engine.Prelude.{◌≡◌, false, ◌&&◌, Bool-cases, inl, inr, if◌then◌else◌, Float}
use itt_engine.Phase.{TemporalIndicators, classify_phase, suppression, healing, two, hundredth}

module _ {F : Type 0} ⦃float : Float F⦄ where
  capped_lem :
      (top x : F)
      → float.lt top top ≡ false
      → float.lt top (if float.lt top x then top else x) ≡ false
  capped_lem top x h = elim (Bool-cases (float.lt top x)) [
    | inl above ↦ rw above h
    | inr fits ↦ rw fits fits
  ]

  raised_lem :
      (x low : F)
      → float.lt low low ≡ false
      → float.lt (if float.lt x low then low else x) low ≡ false
  raised_lem x low h = elim (Bool-cases (float.lt x low)) [
    | inl below ↦ rw below h
    | inr fits ↦ rw fits fits
  ]

  -- Where 0, 1 and 2 are not below themselves and 1 is not below 0: the intensity that
  -- `ClassifyPhase` returns is not above 2, and its healing capacity is neither above 1 nor below 0.
  pub classify_phase-bounds :
      (indicators : TemporalIndicators F) (mean prev ratio : F)
      → float.lt float.nought float.nought ≡ false
      → float.lt float.one float.one ≡ false
      → float.lt two two ≡ false
      → float.lt float.one float.nought ≡ false
      → let r = classify_phase indicators mean prev ratio in
        (float.lt two r.rho ≡ false)
        × (float.lt float.one r.pi ≡ false)
        × (float.lt r.pi float.nought ≡ false)
  unfolding classify_phase suppression healing
  classify_phase-bounds indicators mean prev ratio h0 h1 h2 h10 =
      let total =
        float.add
          (if float.lt indicators.decay_exponent float.nought
            then float.abs indicators.decay_exponent
            else if float.lt indicators.decay_exponent hundredth && float.lt float.nought mean
            then mean
            else float.nought)
          indicators.tension_spike in
      let capped = if float.lt float.one ratio then float.one else ratio in
      (
        capped_lem two total h2,
        elim (Bool-cases (float.lt capped float.nought)) [
          | inl low ↦ rw low h10
          | inr fits ↦ rw fits (capped_lem float.one ratio h1)
        ],
        raised_lem capped float.nought h0,
      )
