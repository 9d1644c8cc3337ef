-- ===== src/Indicators/Spike.antt =====
-- The largest change that the indicators of analysis/temporal.go report.
use itt_engine.Prelude.{
  ◌≡◌, refl, Bool, true, false, ◌||◌, List, [], ◌∷◌, map, Key, Str, str_key, ℤ, Time, Float, arith,
  subst, sym,
}
use itt_engine.Map
use itt_engine.Map.{Map, mem, keys}
use itt_engine.Map.Laws.{mem-keys-put}
use itt_engine.Aggregation.{max_from}
use itt_engine.Aggregation.Maximum.{Holds, IsTop, max_from_lem}
use itt_engine.Indicators.{
  mark_keys, delta, max_delta, largest_change, indicators_with_curvature, indicators,
}

mem-keys-mark_keys :
    {K : Type 0} ⦃key : Key K⦄ (ks : List K) (m : Map K Bool) (k : K)
    → mem k (keys (mark_keys ks m)) ≡ (mem k (keys m) || mem k ks)
unfolding mark_keys Map.mem
mem-keys-mark_keys [] m k = ground arith
mem-keys-mark_keys (j ∷ ks) m k =
    ground (arith, mem-keys-mark_keys ks (Map.put j true m) k, mem-keys-put j k true m)

module _ {F : Type 0} ⦃float : Float F⦄ where
  IsTop-mem :
      {K : Type 0} ⦃key : Key K⦄ (f : K → F) (ks : List K) (top : F) (k : K)
      → IsTop top (map f ks)
      → mem k ks ≡ true
      → float.lt top (f k) ≡ false
  unfolding Map.mem
  IsTop-mem f [] top k t m = absurd (ground arith)
  IsTop-mem ⦃key⦄ f (j ∷ ks) top k (first, rest) m = elim (key.same j k) [
    | yes this ↦ rw (← this) first
    | no other ↦ IsTop-mem f ks top k rest (ground arith)
  ]

  module _ {K : Type 0} ⦃key : Key K⦄ (current previous : Map K F) where
    max_delta-max_from :
        (ks : List K) (max : F)
        → max_delta current previous ks max ≡ max_from max (map (delta current previous) ks)
    unfolding max_delta max_from
    max_delta-max_from [] max = refl
    max_delta-max_from (k ∷ ks) max = max_delta-max_from ks _

  module _ (irreflexive : (x : F) → float.lt x x ≡ false)
      (asymmetric : (x y : F) → float.lt x y ≡ true → float.lt y x ≡ false)
      (ordered : (x y : F) → float.lt x y ≡ true → float.eq y y ≡ true)
      (chain : (x y z : F)
        → float.eq y y ≡ true
        → float.lt x y ≡ false
        → float.lt y z ≡ false
        → float.lt x z ≡ false)
      (zero_is_number : float.eq float.nought float.nought ≡ true) where
    -- Let the order of floats be irreflexive and asymmetric, let only a number be above another value
    -- and "not below" be transitive through a number, and let 0 be a number: a number is what equals
    -- itself. Then the spike that `Indicators` reports is 0 or the change of some node, is not below 0,
    -- and is not below the change of any node of either map, whatever values are no numbers.
    pub tension_spike_lem :
        (current previous : Map Str F) (dt : ℤ) (now : Time) (v : Str)
        → (mem v (keys current) || mem v (keys previous)) ≡ true
        → let spike = (indicators current previous dt now).tension_spike in
          let nodes = keys (mark_keys (keys previous) (mark_keys (keys current) [])) in
          Holds spike (float.nought ∷ map (delta current previous) nodes)
          × (float.lt spike float.nought ≡ false)
          × (float.lt spike (delta current previous v) ≡ false)
    unfolding indicators indicators_with_curvature largest_change
    tension_spike_lem current previous dt now v known =
        let nodes = keys (mark_keys (keys previous) (mark_keys (keys current) [])) in
        let changes = map (delta current previous) nodes in
        let (held, (positive, top)) =
          max_from_lem irreflexive asymmetric ordered chain float.nought changes zero_is_number in
        let listed : mem v nodes ≡ true = ground (
          arith,
          mem-keys-mark_keys (keys previous) (mark_keys (keys current) []) v,
          mem-keys-mark_keys (keys current) [] v,
        ) in
        subst
          (λ spike.
            Holds spike (float.nought ∷ changes)
            × (float.lt spike float.nought ≡ false)
            × (float.lt spike (delta current previous v) ≡ false))
          (sym (max_delta-max_from current previous nodes float.nought))
          (
            held,
            positive,
            IsTop-mem (delta current previous) nodes (max_from float.nought changes) v top listed,
          )
