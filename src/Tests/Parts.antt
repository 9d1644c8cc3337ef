-- ===== src/Tests/Parts.antt =====
-- The cache, the history, the events and the settings on concrete values.
use itt_engine.Prelude.{
  false, ℕ, ◌≡◌, ◌≢◌, refl, ite, ℕ_discrete, Str-discrete, [], ◌∷◌, List, none, some, arith, length,
  if◌then◌else◌, ◌+◌, ◌-◌, ◌==◌, leb, ltb, min, get_elem?, pos,
}
use itt_engine.Map
use itt_engine.Map.{Map, distinct, keys}
use itt_engine.Cache
use itt_engine.Cache.{
  CacheKey, CacheKey-discrete, cache_key, ResultsCache, CachedEntry, invalidate_version,
  evict_expired, set,
}
use itt_engine.Cache.Reads.{get-set, get-evict_expired}
use itt_engine.History.{TensionSample, size_for, new_tension_history, slice, len, latest, previous}
use itt_engine.History.Ring.{drop}
use itt_engine.History.Reads.{history_lem, pushed}
use itt_engine.Event.{Event, validate, normalize}
use itt_engine.Event
use itt_engine.Phase.{TemporalIndicators, classify_phase}
use itt_engine.Phase.Bounds.{classify_phase-bounds}
use itt_engine.Builder.{new_builder, Builder}
use itt_engine.Tests.{nat_float, ann, bob, event, call}

abbrev key_at : ℕ → CacheKey
key_at version = record { version_id = version; query_type = call; query_args = ann }

abbrev entry : CachedEntry ℕ
entry = record { value = 6; computed_at = 1; expires_at = 9 }

abbrev cache : ResultsCache ℕ
cache = record {
  entries = (key_at 1, entry) ∷ (key_at 2, entry) ∷ [];
  ttl = 4;
  hits = 0;
  misses = 0;
}

get-set_example :
    (Cache.get (key_at 1) 7 (set (key_at 1) 5 4 cache)).0
    ≡ ite
        (CacheKey-discrete (key_at 1) (key_at 1))
        (if leb 7 (4 + 4) then some 5 else none)
        (Cache.get (key_at 1) 7 cache).0
get-set_example = get-set (key_at 1) (key_at 1) 5 4 7 cache

get-evict_expired_example :
    let (count, c) = evict_expired 10 cache in
    ((Cache.get (key_at 1) 12 c).0 ≡ (Cache.get (key_at 1) 12 cache).0)
    × (count + length c.entries ≡ 2)
unfolding Map.distinct Map.mem CacheKey-discrete ℕ_discrete Str-discrete
get-evict_expired_example = get-evict_expired (key_at 1) 10 12 cache refl (omega arith)

abbrev sample : ℕ → TensionSample ℕ
sample t = record { tension = t; timestamp = t; version = 0 }

abbrev samples : List (TensionSample ℕ)
samples = sample 1 ∷ sample 2 ∷ sample 3 ∷ []

history_lem_example :
    let h = pushed (new_tension_history (pos 2)) samples in
    (slice h ≡ drop (3 - size_for (pos 2)) samples)
    × (len h ≡ min 3 (size_for (pos 2)))
    × (latest h ≡ (if length samples == 0 then none else get_elem? samples (3 - 1)))
    × (previous h ≡ (if ltb (min 3 (size_for (pos 2))) 2 then none else get_elem? samples (3 - 2)))
unfolding size_for
history_lem_example = history_lem (pos 2) samples (omega arith) (omega arith)

validate-normalize_example :
    (ann ≢ [])
    × (bob ≢ [])
    × (validate (normalize 5 event) ≡ none)
    × ((normalize 5 event).timestamp ≢ 0)
unfolding validate ℕ_discrete Str-discrete
validate-normalize_example = Event.validate-normalize 5 event refl (omega arith) refl

abbrev indicators : TemporalIndicators ℕ
indicators = record { tension_spike = 4; decay_exponent = 0; curvature_shock = 0; timestamp = 7 }

classify_phase-bounds_example :
    let r = classify_phase indicators 3 1 5 in
    (ltb 2 r.rho ≡ false) × (ltb 1 r.pi ≡ false) × (ltb r.pi 0 ≡ false)
classify_phase-bounds_example = classify_phase-bounds indicators 3 1 5 refl refl refl refl

abbrev settings : Builder ℕ
settings = new_builder
