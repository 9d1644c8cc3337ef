-- ===== src/Analyze/Cached.antt =====
-- Analyses of snapshot.go that are answered from the cache.
use itt_engine.Prelude.{
  ◌≡◌, refl, ℕ, ◌+◌, ◌≤◌, false, Option, none, some, List, [], Str, Time, Float, arith,
  Option-cases, inl, inr,
}
use itt_engine.Cache.{CacheKey, ResultsCache, get}
use itt_engine.Cache.Reads.{get-set}
use itt_engine.Mvcc.{Store}
use itt_engine.Snapshot.{Snapshot, Answer, graph_view}
use itt_engine.Calibrator.{Calibrator}
use itt_engine.Analyze.{Settings, RegionResult, CachedValue, Shared, Surveyed, analysis_view}
use itt_engine.Analyze.Calls.{region_key, find, keep, survey, region_afresh, analyze_region}

module _ {V : Type 0} where
  ttl-get : (k : CacheKey) (now : Time) (c : ResultsCache V) → (get k now c).1.ttl ≡ c.ttl
  unfolding get
  ttl-get k now c = ground arith

module _ {F : Type 0} where
  -- what a call has stored is found until its lifetime has passed
  find-keep :
      (k : CacheKey) (value : CachedValue F) (now later : Time) (sh : Shared F)
      (c : ResultsCache (CachedValue F))
      → sh.cache ≡ some c
      → later ≤ now + c.ttl
      → ((find k later (keep k value now sh)).0 ≡ some value)
        × ((find k later (keep k value now sh)).1.calibrator ≡ sh.calibrator)
  unfolding find keep
  find-keep k value now later sh c h live =
      let stored = get-set k k value now later c in (ground arith, ground arith)

module _ {F : Type 0} ⦃float : Float F⦄ (settings : Settings F) where
  -- a region that is analysed afresh is stored under its key
  region_afresh-keeps :
      (now : Time) (p : ℕ) (ids : List Str) (s : Snapshot F) (store : Store F) (sh : Shared F)
      (r : RegionResult F)
      → (region_afresh settings now p ids s store sh).0 ≡ Answer.value r
      → (calibrator : Option (Calibrator F)) × ((region_afresh settings now p ids s store sh).1
          ≡ keep
              (region_key p ids)
              (CachedValue.of_region r)
              now
              (record sh { calibrator = calibrator }))
  unfolding region_afresh
  region_afresh-keeps now p ids s store sh r h = elim (Option-cases (graph_view s store)) [
    | inl bad ↦ absurd (ground arith)
    | inr (view, seen) ↦
        let begun : Surveyed F = record {
          nodes = [];
          tension_values = [];
          anomaly_count = 0;
          calibrator = sh.calibrator;
        } in
        elim (Option-cases (survey settings now (analysis_view view) ids begun)) [
          | inl bad ↦ absurd (ground arith)
          | inr (a, found) ↦ (a.calibrator, ground arith)
        ]
  ]

  -- On open snapshots of one version, with a cache: where a region is not in the cache and
  -- `AnalyzeRegion` returns a result for it, then until the lifetime of the cache has passed
  -- `AnalyzeRegion` returns the same result for every region with the same key, and shows the
  -- calibrator no tension again.
  pub analyze_region_again :
      (now later : Time) (p : ℕ) (ids ids' : List Str) (s s' : Snapshot F) (store store' : Store F)
      (sh : Shared F) (c : ResultsCache (CachedValue F)) (r : RegionResult F)
      → s.version ≡ some p
      → s'.version ≡ some p
      → s'.closed ≡ false
      → sh.cache ≡ some c
      → later ≤ now + c.ttl
      → region_key p ids' ≡ region_key p ids
      → (get (region_key p ids) now c).0 ≡ none
      → (analyze_region settings now ids s store sh).0 ≡ Answer.value r
      → let sh' = (analyze_region settings now ids s store sh).1 in
        let again = analyze_region settings later ids' s' store' sh' in
        (again.0 ≡ Answer.value r) × (again.1.calibrator ≡ sh'.calibrator)
  unfolding analyze_region find
  analyze_region_again now later p ids ids' s s' store store' sh c r at at' open_ cached live same
        miss first =
      let k = region_key p ids in
      let sh1 : Shared F = record sh { cache = some (get k now c).1 } in
      let fresh : (region_afresh settings now p ids s store sh1).0 ≡ Answer.value r =
        ground arith in
      let (cal, kept) = region_afresh-keeps now p ids s store sh1 r fresh in
      let sh2 : Shared F = record sh1 { calibrator = cal } in
      let hit =
        find-keep k (CachedValue.of_region r) now later sh2 (get k now c).1 refl
          (ground (arith, ttl-get k now c)) in
      (ground (arith, hit, kept), ground (arith, hit, kept))
