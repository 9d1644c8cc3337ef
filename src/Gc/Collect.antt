-- ===== src/Gc/Collect.antt =====
-- `Collect` of mvcc/gc.go as a whole: what it removes, what it keeps, and what it reports.
use itt_engine.Prelude.{
  ℕ, true, false, none, some, if◌then◌else◌, ◌==◌, ◌||◌, List, [], ◌∷◌, ◌++◌, length, nat_key, Time,
  ◌+◌, ◌≡◌, ◌≢◌, refl, ◌≤◌, arith, append_assoc, append-nil,
}
use itt_engine.Map
use itt_engine.Map.{Map, AllEntries, OnSome, is_some, keys, mem, distinct}
use itt_engine.Map.Laws.{map_option, get-delete}
use itt_engine.Map.Entries.{entries_of_get}
use itt_engine.Mvcc.{Store, ref_count, Controller, load}
use itt_engine.Gc.{
  Gc, TrackedVersion, CollectStats, Sweeping, sweep, remove_one, remove_all, no_stats, collect,
}
use itt_engine.Gc.Sweep.{
  IsTracked, untouched, picked, left, versions-sweep, to_remove-sweep, ref_count-sweep,
  distinct-sweep,
}

-- each version is tracked once, under its number
pub record IsTracking (gc : Gc) : Type 0 where
  pub tracked : (id : ℕ) → OnSome (IsTracked id) (Map.get id gc.versions)
  pub single : distinct (keys gc.versions) ≡ true

pub get-remove_all :
    (ids : List ℕ) (r : Map ℕ TrackedVersion × CollectStats) (q : ℕ)
    → Map.get q (remove_all ids r).0 ≡ (if mem q ids then none else Map.get q r.0)
unfolding remove_all remove_one Map.mem
get-remove_all [] r q = refl
get-remove_all (id ∷ ids) r q =
    ground (arith, get-remove_all ids (remove_one id r) q, get-delete id q r.0)

pub stats-remove_all :
    (ids : List ℕ) (r : Map ℕ TrackedVersion × CollectStats)
    → let stats = (remove_all ids r).1 in
      (stats.removed_versions ≡ r.1.removed_versions ++ ids)
      × (stats.versions_removed ≡ r.1.versions_removed + length ids)
unfolding remove_all remove_one
stats-remove_all [] r = ground (arith, append-nil r.1.removed_versions)
stats-remove_all (id ∷ ids) r =
    ground (
      arith,
      stats-remove_all ids (remove_one id r),
      append_assoc r.1.removed_versions (id ∷ []) ids,
    )

-- a lower bound of a list of numbers
abbrev pub IsBelow : ℕ → List ℕ → Type 0
IsBelow x [] = Unit
IsBelow x (y ∷ l) = (x ≤ y) × IsBelow x l

IsBelow-trans : (x y : ℕ) (l : List ℕ) → x ≤ y → IsBelow y l → IsBelow x l
IsBelow-trans x y [] h b = tt
IsBelow-trans x y (z ∷ l) h (b, c) = (omega arith, IsBelow-trans x y l h c)

-- once a minimum is held, the loop keeps the least number
oldest_of_held :
    (ids : List ℕ) (r : Map ℕ TrackedVersion × CollectStats)
    → r.1.oldest_removed ≢ 0
    → mem 0 ids ≡ false
    → let oldest = (remove_all ids r).1.oldest_removed in
      (oldest ≤ r.1.oldest_removed)
      × IsBelow oldest ids
      × ((mem oldest ids || (oldest == r.1.oldest_removed)) ≡ true)
unfolding remove_all remove_one Map.mem
oldest_of_held [] r h z = ground arith
oldest_of_held (id ∷ ids) r h z =
    let (below, all, found) = oldest_of_held ids (remove_one id r) (ground arith) (ground arith) in
    (ground (arith, below), (ground (arith, below), all), ground (arith, below, found))

-- Unless version 0 is among them, the oldest version that the second loop of `Collect` reports is
-- the least of those it removes.
pub oldest_removed_lem :
    (id : ℕ) (ids : List ℕ) (versions : Map ℕ TrackedVersion) (now : Time)
    → mem 0 (id ∷ ids) ≡ false
    → let oldest = (remove_all (id ∷ ids) (versions, no_stats now)).1.oldest_removed in
      IsBelow oldest (id ∷ ids) × (mem oldest (id ∷ ids) ≡ true)
unfolding remove_all remove_one Map.mem
oldest_removed_lem id ids versions now z =
    let (below, all, found) =
      oldest_of_held ids (remove_one id (versions, no_stats now)) (ground arith) (ground arith) in
    ((ground (arith, below), all), ground (arith, found))

-- Where version 0 is removed first, the version after it is reported as the oldest.
pub oldest_removed_zero :
    (id : ℕ) (versions : Map ℕ TrackedVersion) (now : Time)
    → (remove_all (0 ∷ id ∷ []) (versions, no_stats now)).1.oldest_removed ≡ id
unfolding remove_all remove_one
oldest_removed_zero id versions now = refl

module _ {F : Type 0} (now : Time) (controller : Controller) (gc : Gc) (store : Store F)
    (t : IsTracking gc) where
  abbrev start : Sweeping F
  start = record { store = store; versions = gc.versions; to_remove = []; calls = [] }

  abbrev swept : Sweeping F
  swept = sweep gc.config (load controller) now gc.versions start

  entries : AllEntries IsTracked gc.versions
  entries = entries_of_get IsTracked gc.versions t.single t.tracked

  removed-eq : (collect now controller gc store).stats.removed_versions ≡ swept.to_remove
  unfolding collect
  removed-eq = (stats-remove_all swept.to_remove (swept.versions, no_stats now)).0

  -- Where each version is tracked once, under its number: `Collect` removes exactly the tracked
  -- versions that are not current and are either held by no one or held for longer than a positive
  -- limit for forcing; it lists each once, and reports as many.
  pub collect-removed :
      (id : ℕ)
      → let r = collect now controller gc store in
        (mem id r.stats.removed_versions
          ≡ picked gc.config controller.current now
              (Map.get id gc.versions)
              (ref_count id store)
              id)
        × (distinct r.stats.removed_versions ≡ true)
        × (r.stats.versions_removed ≡ length r.stats.removed_versions)
  unfolding collect Map.mem Map.distinct
  collect-removed id =
      let removed = stats-remove_all swept.to_remove (swept.versions, no_stats now) in
      let decided =
        to_remove-sweep gc.config controller.current now gc.versions start id entries t.single in
      let single =
        distinct-sweep gc.config controller.current now gc.versions start entries t.single refl
          (λ q h. refl) in
      (ground (arith, removed, decided), ground (arith, removed, single), ground (arith, removed))

  -- Where each version is tracked once, under its number: what `Collect` does not remove stays
  -- tracked as it was, but for the flag that it was warned about, and what it removes is tracked
  -- no more.
  pub collect-kept :
      (id : ℕ)
      → let r = collect now controller gc store in
        map_option untouched (Map.get id r.gc.versions) ≡ (
          if mem id r.stats.removed_versions
          then none
          else map_option untouched (Map.get id gc.versions))
  unfolding collect
  collect-kept id = ground (
    arith,
    removed-eq,
    get-remove_all swept.to_remove (swept.versions, no_stats now) id,
    versions-sweep gc.config controller.current now gc.versions start id entries,
  )

  -- Where each version is tracked once, under its number: a positive count of a tracked version
  -- that is not current and has been held for longer than a positive limit for forcing becomes 0
  -- by `Collect`, and no other count changes.
  pub collect-ref_count :
      (id : ℕ)
      → ref_count id (collect now controller gc store).store
        ≡ left gc.config controller.current now (Map.get id gc.versions) (ref_count id store) id
  unfolding collect
  collect-ref_count id =
      ref_count-sweep gc.config controller.current now gc.versions start id entries t.single

  -- Where each version is tracked once, under its number: `Collect` does not remove the current
  -- version, and leaves its count.
  pub collect_keeps_current :
      (id : ℕ)
      → controller.current ≡ some id
      → (mem id (collect now controller gc store).stats.removed_versions ≡ false)
        × (ref_count id (collect now controller gc store).store ≡ ref_count id store)
  collect_keeps_current id h =
      (ground (arith, collect-removed id), ground (arith, collect-ref_count id))
