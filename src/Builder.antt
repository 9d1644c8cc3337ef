-- ===== src/Builder.antt =====
-- itt.go and builder.go: the settings that `Build` checks or a setter adjusts, with their setters,
-- and the checks. The functions, the callbacks and the backends that a `Builder` passes on to the
-- engine unread are left out.
use itt_engine.Prelude.{
  ◌≡◌, ℕ, Bool, true, false, Option, none, some, if◌then◌else◌, ◌&&◌, ◌||◌, ℤ, pos, leb_ℤ, ltb_ℤ,
  Float, arith, ◌↔◌, ◌⊎◌,
}

pub data CompactionStrategy : Type 0 where
  compact_by_volume compact_by_time compact_manual : CompactionStrategy

pub record Builder (F : Type 0) : Type 0 where
  pub threshold : F
  pub gc_snapshot_warning : ℤ
  pub gc_snapshot_force : ℤ
  pub compaction_strategy : CompactionStrategy
  pub compaction_threshold : ℤ
  pub compaction_interval : ℤ
  pub curvature_alpha : F
  pub detectability_alpha : F
  pub concealment_lambda : F
  pub concealment_hops : ℤ
  pub temporal_capacity : ℤ
  pub diffusivity_alpha : F
  pub tension_spike_threshold : F
  pub gpu_threshold : ℤ
  pub cache_enabled : Bool
  pub cache_ttl : ℤ
  pub channel_size : ℤ

-- the check of `Build` that fails first; each is wrapped in `ErrInvalidConfig`
pub data Invalid : Type 0 where
  threshold_negative force_before_warning channel_size_not_positive : Invalid
  detectability_alpha_out_of_range concealment_lambda_negative : Invalid
  concealment_hops_negative gpu_threshold_negative : Invalid

abbrev seconds_60 : ℤ
seconds_60 = pos 60_000_000_000

module _ {F : Type 0} ⦃float : Float F⦄ where
  -- num / den
  abbrev ratio : ℕ → ℕ → F
  ratio num den = float.div (float.of_int num) (float.of_int den)

  unfoldable pub new_builder : Builder F
  new_builder = record {
    threshold = ratio 2 10;
    gc_snapshot_warning = pos 300_000_000_000;
    gc_snapshot_force = pos 900_000_000_000;
    compaction_strategy = CompactionStrategy.compact_by_volume;
    compaction_threshold = pos 10_000;
    compaction_interval = pos 0;
    curvature_alpha = float.nought;
    detectability_alpha = ratio 5 100;
    concealment_lambda = float.nought;
    concealment_hops = pos 0;
    temporal_capacity = pos 100;
    diffusivity_alpha = ratio 1 10;
    tension_spike_threshold = ratio 3 10;
    gpu_threshold = pos 0;
    cache_enabled = false;
    cache_ttl = pos 0;
    channel_size = pos 10_000;
  }

  -- `Curvature`, less the function that it stores
  unfoldable pub curvature : Builder F → Builder F
  curvature b =
      if float.eq b.curvature_alpha float.nought
      then record b { curvature_alpha = ratio 1 2 }
      else b

  unfoldable pub with_cache : ℤ → Builder F → Builder F
  with_cache ttl b = record b {
    cache_enabled = true;
    cache_ttl = if ltb_ℤ (pos 0) ttl then ttl else seconds_60;
  }

  -- `WithGPUBackend`, less the backend that it stores
  unfoldable pub with_gpu_backend : ℤ → Builder F → Builder F
  with_gpu_backend threshold b = record b { gpu_threshold = threshold }

  unfoldable pub concealment : F → ℤ → Builder F → Builder F
  concealment lambda max_hops b = record b {
    concealment_lambda = lambda;
    concealment_hops = max_hops;
  }

  -- `x <= y` of floats, false where one of them is not a number
  abbrev le : F → F → Bool
  le x y = float.lt x y || float.eq x y

  -- the checks of `Build`, in their order
  unfoldable pub invalid : Builder F → Option Invalid
  invalid b =
      if float.lt b.threshold float.nought
      then some Invalid.threshold_negative
      else if ltb_ℤ (pos 0) b.gc_snapshot_force
          && ltb_ℤ (pos 0) b.gc_snapshot_warning
          && ltb_ℤ b.gc_snapshot_force b.gc_snapshot_warning
      then some Invalid.force_before_warning
      else if leb_ℤ b.channel_size (pos 0)
      then some Invalid.channel_size_not_positive
      else if le b.detectability_alpha float.nought || le float.one b.detectability_alpha
      then some Invalid.detectability_alpha_out_of_range
      else if float.lt b.concealment_lambda float.nought
      then some Invalid.concealment_lambda_negative
      else if ltb_ℤ b.concealment_hops (pos 0)
      then some Invalid.concealment_hops_negative
      else if ltb_ℤ b.gpu_threshold (pos 0)
      then some Invalid.gpu_threshold_negative
      else none

  -- the conditions that the checks refuse, denied
  pub record IsConfig (b : Builder F) : Type 0 where
    pub threshold : float.lt b.threshold float.nought ≡ false
    pub timeouts :
        (leb_ℤ b.gc_snapshot_force (pos 0) ≡ true)
        ⊎ ((leb_ℤ b.gc_snapshot_warning (pos 0) ≡ true)
            ⊎ (leb_ℤ b.gc_snapshot_warning b.gc_snapshot_force ≡ true))
    pub channel_size : ltb_ℤ (pos 0) b.channel_size ≡ true
    pub alpha_above : le b.detectability_alpha float.nought ≡ false
    pub alpha_below : le float.one b.detectability_alpha ≡ false
    pub lambda : float.lt b.concealment_lambda float.nought ≡ false
    pub hops : leb_ℤ (pos 0) b.concealment_hops ≡ true
    pub gpu_threshold : leb_ℤ (pos 0) b.gpu_threshold ≡ true

  checked-IsConfig : (b : Builder F) → invalid b ≡ none → IsConfig b
  unfolding invalid
  checked-IsConfig b ok = record {
    threshold = ground arith;
    timeouts = ground arith;
    channel_size = ground arith;
    alpha_above = ground arith;
    alpha_below = ground arith;
    lambda = ground arith;
    hops = ground arith;
    gpu_threshold = ground arith;
  }

  IsConfig-checked : (b : Builder F) → IsConfig b → invalid b ≡ none
  unfolding invalid
  IsConfig-checked b c = ground (
    arith, c.threshold, c.timeouts, c.channel_size, c.alpha_above, c.alpha_below, c.lambda, c.hops,
    c.gpu_threshold,
  )

  -- The checks of `Build` pass just where none of the conditions that they refuse holds.
  pub invalid-IsConfig : (b : Builder F) → (invalid b ≡ none) ↔ IsConfig b
  invalid-IsConfig b = (checked-IsConfig b, IsConfig-checked b)
