-- ===== src/Mvcc.antt =====
-- mvcc/version.go: versions with a reference count, and the controller's pointer to the current one.
-- Versions are shared between the controller, the snapshots and the collector, so they stand in a
-- store, and a `*Version` is the number under which the store holds it.
pub mod Counting
use itt_engine.Prelude.{
  ℕ, Bool, true, false, Option, none, some, if◌then◌else◌, ◌==◌, ◌||◌, leb, ◌^◌, Str, str_key,
  nat_key, Time, add64, sub64, is_positive, not, [],
}
use itt_engine.Map
use itt_engine.Map.{Map}
use itt_engine.Graph.{Graph}

pub record Version (F : Type 0) : Type 0 where
  pub id : ℕ
  pub graph : Graph F
  pub timestamp : Time
  pub dirty : Map Str Bool
  pub ref_count : ℕ

abbrev pub Store : Type 0 → Type 0
Store F = Map ℕ (Version F)

-- `x > 0` of an `int64`, and so `!(x <= 0)`
module _ {F : Type 0} where
  unfoldable pub ref_count : ℕ → Store F → ℕ
  ref_count p store = elim (Map.get p store) [ none ↦ 0 | some v ↦ v.ref_count ]

  abbrev pub counted : (ℕ → ℕ) → Version F → Version F
  counted f v = record v { ref_count = f v.ref_count }

  -- `Version.Acquire`
  unfoldable pub acquire : ℕ → Store F → Store F
  acquire p store = Map.modify p (counted (λ c. add64 c 1)) store

  -- `Version.Release`: the loop ends in its first round where no other thread changes the count
  unfoldable pub release : ℕ → Store F → Store F
  release p store = Map.modify p (counted (λ c. if is_positive c then sub64 c 1 else c)) store

-- `Controller`: `current` is nil before the first `Store`
pub record Controller : Type 0 where
  pub current : Option ℕ

abbrev pub new_controller : Controller
new_controller = record { current = none }

abbrev pub store_version : ℕ → Controller → Controller
store_version p c = record { current = some p }

abbrev pub load : Controller → Option ℕ
load c = c.current

-- `Controller.Acquire`
unfoldable pub acquire_current : {F : Type 0} → Controller → Store F → Option ℕ × Store F
acquire_current c store = elim c.current [
  | none ↦ (none, store)
  | some p ↦ (some p, acquire p store)
]
