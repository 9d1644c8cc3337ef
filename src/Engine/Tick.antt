-- ===== src/Engine/Tick.antt =====
-- The tick of `gcWorker` in engine.go: the collection of versions, and of the results cached for
-- them. `onGC` only reads what it is given, which is `reported`.
use itt_engine.Prelude.{
  ◌≡◌, refl, ℕ, ◌==◌, Bool, true, false, Option, none, some, List, [], ◌∷◌, Time, ltb, arith,
  if◌then◌else◌, nat_key, Key, ℕ_discrete, length, not, ◌+◌,
}
use itt_engine.Map
use itt_engine.Map.{Map, is_some, mem, keys, distinct}
use itt_engine.Map.Laws.{distinct-keys-delete}
use itt_engine.Mvcc.{ref_count}
use itt_engine.Gc.{CollectStats, collect}
use itt_engine.Gc.Sweep.{picked}
use itt_engine.Gc.Collect.{IsTracking, collect-removed}
use itt_engine.Cache.{CacheKey, ResultsCache, cache_key, delete_where, get, invalidate_version}
use itt_engine.Cache.Reads.{get-invalidate_version}
use itt_engine.Engine.{Engine}

-- `for _, versionID := range stats.RemovedVersions { e.ResultsCache.InvalidateVersion(versionID) }`
unfoldable pub invalidate_all : {V : Type 0} → List ℕ → ResultsCache V → ResultsCache V
invalidate_all [] c = c
invalidate_all (id ∷ ids) c = invalidate_all ids (invalidate_version id c).1

pub record Ticked (F V : Type 0) : Type 0 where
  pub engine : Engine F
  pub cache : ResultsCache V
  pub reported : Option CollectStats

-- `cached` is `e.cacheEnabled && e.ResultsCache != nil`
unfoldable pub gc_tick : {F V : Type 0} → Bool → Time → Engine F → ResultsCache V → Ticked F V
gc_tick cached now e c =
    let r = collect now e.controller e.gc e.store in
    let e' = record e { gc = r.gc; store = r.store } in
    if ltb 0 r.stats.versions_removed
    then record {
      engine = e';
      cache = if cached then invalidate_all r.stats.removed_versions c else c;
      reported = some r.stats;
    }
    else record { engine = e'; cache = c; reported = none }

distinct-delete_where :
    {K V : Type 0} ⦃key : Key K⦄ (test : K → V → Bool) (m : Map K V) (r : ℕ × Map K V)
    → distinct (keys r.1) ≡ true
    → distinct (keys (delete_where test m r).1) ≡ true
unfolding delete_where
distinct-delete_where test [] r d = d
distinct-delete_where test ((k, v) ∷ m) r d = ground (
  arith,
  distinct-delete_where test m r,
  distinct-delete_where test m (r.0 + 1, Map.delete k r.1),
  distinct-keys-delete k r.1,
)

nothing_listed : (ids : List ℕ) (id : ℕ) → length ids ≡ 0 → mem id ids ≡ false
unfolding Map.mem
nothing_listed [] id h = refl
nothing_listed (x ∷ ids) id h = absurd (omega arith)

module _ {V : Type 0} where
  distinct-invalidate_version :
      (version : ℕ) (c : ResultsCache V)
      → distinct (keys c.entries) ≡ true
      → distinct (keys (invalidate_version version c).1.entries) ≡ true
  unfolding invalidate_version
  distinct-invalidate_version version c d =
      distinct-delete_where (λ k e. k.version_id == version) c.entries (0, c.entries) d

  get-invalidate_all :
      (ids : List ℕ) (j : CacheKey) (now : Time) (c : ResultsCache V)
      → distinct (keys c.entries) ≡ true
      → (get j now (invalidate_all ids c)).0
        ≡ (if mem j.version_id ids then none else (get j now c).0)
  unfolding invalidate_all Map.mem
  get-invalidate_all [] j now c d = refl
  get-invalidate_all (id ∷ ids) j now c d =
      let c' = (invalidate_version id c).1 in
      let rest = get-invalidate_all ids j now c' (distinct-invalidate_version id c d) in
      let first = (get-invalidate_version id j now c d).0 in
      elim (ℕ_discrete id j.version_id) [ yes same ↦ ground arith | no other ↦ ground arith ]

  -- Where each version is tracked once, under its number, and no key is cached twice: after a tick
  -- of `gcWorker` no read of the cache finds a result of a version that the tick has removed, that
  -- is one that was tracked, not current, and either held by no one or held for longer than a
  -- positive limit for forcing. Every other read finds what it found before. The tick calls `onGC`
  -- just when it has removed a version.
  pub gc_tick_lem :
      {F : Type 0} (now later : Time) (e : Engine F) (c : ResultsCache V) (j : CacheKey)
      → IsTracking e.gc
      → distinct (keys c.entries) ≡ true
      → let id = j.version_id in
        let gone =
          picked e.gc.config e.controller.current now
            (Map.get id e.gc.versions)
            (ref_count id e.store)
            id in
        let t = gc_tick true now e c in
        ((get j later t.cache).0 ≡ (if gone then none else (get j later c).0))
        × (is_some t.reported
            ≡ not (length (collect now e.controller e.gc e.store).stats.removed_versions == 0))
  unfolding gc_tick
  gc_tick_lem now later e c j t d =
      let r = collect now e.controller e.gc e.store in
      let (decided, single, counted) =
        collect-removed now e.controller e.gc e.store t j.version_id in
      let reads = get-invalidate_all r.stats.removed_versions j later c d in
      let unlisted = nothing_listed r.stats.removed_versions j.version_id in
      (ground arith, ground arith)
