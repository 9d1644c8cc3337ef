-- ===== src/Tests/Versions.antt =====
-- mvcc/version.go and mvcc/gc.go on a concrete store.
use itt_engine.Prelude.{
  ℕ, ◌≡◌, refl, ℕ_discrete, nat_key, [], ◌∷◌, none, some, true, false, arith, length, if◌then◌else◌,
  ◌==◌, not,
}
use itt_engine.Map
use itt_engine.Map.{Map, OnSome, is_some, mem, distinct, keys}
use itt_engine.Map.Laws.{map_option}
use itt_engine.Graph.{new}
use itt_engine.Mvcc.{Version, Store, Controller, ref_count}
use itt_engine.Gc.{Gc, TrackedVersion, collect}
use itt_engine.Gc.Sweep.{picked, left, untouched}
use itt_engine.Gc.Collect.{
  IsTracking, collect-removed, collect-kept, collect-ref_count, collect_keeps_current,
}
use itt_engine.Cache.{CacheKey, ResultsCache, get}
use itt_engine.Engine.{Engine}
use itt_engine.Engine.Tick.{gc_tick, gc_tick_lem}
use itt_engine.Tests.{gc_config}

abbrev held : ℕ → ℕ → Version ℕ
held id count = record { id = id; graph = new; timestamp = 0; dirty = []; ref_count = count }

-- versions 1, free, and 2, held too long; and 3, which is current
abbrev store : Store ℕ
store = (1, held 1 0) ∷ (2, held 2 2) ∷ (3, held 3 1) ∷ []

abbrev since_0 : ℕ → TrackedVersion
since_0 id = record { version = id; created_at = 0; warned = false }

abbrev gc : Gc
gc = record { config = gc_config; versions = (1, since_0 1) ∷ (2, since_0 2) ∷ (3, since_0 3) ∷ [] }

abbrev controller : Controller
controller = record { current = some 3 }

gc-IsTracking : IsTracking gc
unfolding Map.get Map.distinct Map.mem ℕ_discrete
gc-IsTracking = record { tracked = λ id. ground arith; single = refl }

collect-removed_example :
    let r = collect 20 controller gc store in
    (mem 2 r.stats.removed_versions
      ≡ picked gc_config (some 3) 20 (Map.get 2 gc.versions) (ref_count 2 store) 2)
    × (distinct r.stats.removed_versions ≡ true)
    × (r.stats.versions_removed ≡ length r.stats.removed_versions)
collect-removed_example = collect-removed 20 controller gc store gc-IsTracking 2

collect-kept_example :
    let r = collect 20 controller gc store in
    map_option untouched (Map.get 3 r.gc.versions) ≡ (
      if mem 3 r.stats.removed_versions then none else map_option untouched (Map.get 3 gc.versions))
collect-kept_example = collect-kept 20 controller gc store gc-IsTracking 3

collect-ref_count_example :
    ref_count 2 (collect 20 controller gc store).store
    ≡ left gc_config (some 3) 20 (Map.get 2 gc.versions) (ref_count 2 store) 2
collect-ref_count_example = collect-ref_count 20 controller gc store gc-IsTracking 2

collect_keeps_current_example :
    (mem 3 (collect 20 controller gc store).stats.removed_versions ≡ false)
    × (ref_count 3 (collect 20 controller gc store).store ≡ ref_count 3 store)
collect_keeps_current_example = collect_keeps_current 20 controller gc store gc-IsTracking 3 refl

abbrev keeper : Engine ℕ
keeper = record {
  store = store;
  controller = controller;
  version_id = 3;
  gc = gc;
  base = new;
  events_total = 0;
  overlay_count = 0;
  last_compact = 0;
  snapshots_active = 1;
}

abbrev query : CacheKey
query = record { version_id = 2; query_type = []; query_args = [] }

abbrev cached : ResultsCache ℕ
cached = record {
  entries = (query, record { value = 7; computed_at = 10; expires_at = 90 }) ∷ [];
  ttl = 80;
  hits = 0;
  misses = 0;
}

gc_tick_lem_example :
    let gone = picked gc_config (some 3) 20 (Map.get 2 gc.versions) (ref_count 2 store) 2 in
    let t = gc_tick true 20 keeper cached in
    ((get query 30 t.cache).0 ≡ (if gone then none else (get query 30 cached).0))
    × (is_some t.reported
        ≡ not (length (collect 20 controller gc store).stats.removed_versions == 0))
unfolding Map.distinct Map.mem
gc_tick_lem_example = gc_tick_lem 20 30 keeper cached query gc-IsTracking refl
