-- ===== src/Gc.antt =====
-- mvcc/gc.go: the collector of versions. Its goroutine (`Start`, `Stop`) only calls `Collect`.
pub mod Collect
pub mod Sweep
use itt_engine.Prelude.{
  ℕ, suc, zero, Bool, true, false, Option, none, some, if◌then◌else◌, ◌==◌, ◌&&◌, not, List, [],
  ◌∷◌, ◌++◌, ℤ, pos, sub_ℕ, leb_ℤ, ltb_ℤ, ltb, nat_key, Time, is_positive, ◌+◌, ◌*◌,
}
use itt_engine.Map
use itt_engine.Map.{Map, keys}
use itt_engine.Mvcc.{Version, Store, ref_count, release, Controller, load}

pub record GcConfig : Type 0 where
  pub interval : ℤ
  pub warning_timeout : ℤ
  pub force_timeout : ℤ

pub record TrackedVersion : Type 0 where
  pub version : ℕ
  pub created_at : Time
  pub warned : Bool

pub record CollectStats : Type 0 where
  pub versions_removed : ℕ
  pub removed_versions : List ℕ
  pub memory_freed : ℕ
  pub oldest_removed : ℕ
  pub timestamp : Time

-- the collector's own state; `controller` is passed to `collect`
pub record Gc : Type 0 where
  pub config : GcConfig
  pub versions : Map ℕ TrackedVersion

-- `NewGC`: an interval that is not positive becomes 30 s
unfoldable pub new_gc : GcConfig → Gc
new_gc cfg = record {
  config = if leb_ℤ cfg.interval (pos 0) then record cfg { interval = pos 30_000_000_000 } else cfg;
  versions = [];
}

-- `Track`; the key is the version's ID, which is its number in the store
unfoldable pub track : ℕ → Time → Gc → Gc
track p now gc = record gc {
  versions = Map.put p (record { version = p; created_at = now; warned = false }) gc.versions;
}

-- `timeout > 0 && age > timeout`
unfoldable pub exceeds : ℤ → ℤ → Bool
exceeds age timeout = ltb_ℤ (pos 0) timeout && ltb_ℤ timeout age

-- a call of `OnForce` or `OnWarning`
pub data Call : Type 0 where
  on_force : ℕ → ℤ → Call
  on_warning : ℕ → ℤ → Call

-- `for tv.version.RefCount() > 0 { tv.version.Release() }`, with fuel for its rounds
unfoldable pub release_all : {F : Type 0} → ℕ → ℕ → Store F → Store F
release_all zero p store = store
release_all (suc fuel) p store = elim (is_positive (ref_count p store)) [
  | true ↦ release_all fuel p (release p store)
  | false ↦ store
]

-- the variables of the first loop of `Collect`
pub record Sweeping (F : Type 0) : Type 0 where
  pub store : Store F
  pub versions : Map ℕ TrackedVersion
  pub to_remove : List ℕ
  pub calls : List Call

-- `current != nil && id == current.ID`
abbrev pub is_current : Option ℕ → ℕ → Bool
is_current current id = elim current [ none ↦ false | some c ↦ id == c ]

module _ {F : Type 0} (config : GcConfig) (current : Option ℕ) (now : Time) where
  -- one round for a version that is still held
  unfoldable pub sweep_held : ℕ → TrackedVersion → Sweeping F → Sweeping F
  sweep_held id tv s =
      let age = sub_ℕ now tv.created_at in
      if exceeds age config.force_timeout
      then record s {
        store = release_all (ref_count tv.version s.store) tv.version s.store;
        to_remove = s.to_remove ++ (id ∷ []);
        calls = s.calls ++ (on_force id age ∷ []);
      }
      else if exceeds age config.warning_timeout && not tv.warned
      then record s {
        versions = Map.modify id (λ t. record t { warned = true }) s.versions;
        calls = s.calls ++ (on_warning id age ∷ []);
      }
      else s

  -- one round of the first loop
  unfoldable pub sweep_one : ℕ → TrackedVersion → Sweeping F → Sweeping F
  sweep_one id tv s =
      if is_current current id
      then s
      else if ref_count tv.version s.store == 0
      then record s { to_remove = s.to_remove ++ (id ∷ []) }
      else sweep_held id tv s

  unfoldable pub sweep : Map ℕ TrackedVersion → Sweeping F → Sweeping F
  sweep [] s = s
  sweep ((id, tv) ∷ m) s = sweep m (sweep_one id tv s)

-- one round of the second loop; `stats.MemoryFreed` stays 0
unfoldable pub remove_one :
    ℕ → Map ℕ TrackedVersion × CollectStats → Map ℕ TrackedVersion × CollectStats
remove_one id (versions, stats) = (
  Map.delete id versions,
  record stats {
    versions_removed = stats.versions_removed + 1;
    removed_versions = stats.removed_versions ++ (id ∷ []);
    oldest_removed =
        if stats.oldest_removed == 0
        then id
        else if ltb id stats.oldest_removed
        then id
        else stats.oldest_removed;
  },
)

unfoldable pub remove_all :
    List ℕ → Map ℕ TrackedVersion × CollectStats → Map ℕ TrackedVersion × CollectStats
remove_all [] r = r
remove_all (id ∷ ids) r = remove_all ids (remove_one id r)

abbrev pub no_stats : Time → CollectStats
no_stats now = record {
  versions_removed = 0;
  removed_versions = [];
  memory_freed = 0;
  oldest_removed = 0;
  timestamp = now;
}

-- What `Collect` returns: the statistics, the callbacks made, and the new state. One reading of
-- the clock serves the sweep.
pub record Collected (F : Type 0) : Type 0 where
  pub stats : CollectStats
  pub calls : List Call
  pub gc : Gc
  pub store : Store F

unfoldable pub collect : {F : Type 0} → Time → Controller → Gc → Store F → Collected F
collect now controller gc store =
    let s =
      sweep gc.config (load controller) now gc.versions
        (record { store = store; versions = gc.versions; to_remove = []; calls = [] }) in
    let (versions, stats) = remove_all s.to_remove (s.versions, no_stats now) in
    record {
      stats = stats;
      calls = s.calls;
      gc = record gc { versions = versions };
      store = s.store;
    }
