-- ===== src/Snapshot/Life.antt =====
-- The references that snapshots of snapshot.go hold.
use itt_engine.Prelude.{
  ℕ, ◌+◌, ◌<◌, ◌^◌, ◌≡◌, refl, true, false, some, nat_key, add64, Time, arith, ite, ℕ_discrete,
}
use itt_engine.Map
use itt_engine.Mvcc.{ref_count, acquire, acquire_current}
use itt_engine.Mvcc.Counting.{release-acquire}
use itt_engine.Gc.{track}
use itt_engine.Engine.{Engine}
use itt_engine.Snapshot.{Snapshot, snapshot, close}

module _ {F : Type 0} where
  -- Where a version is current, stored, and held fewer than 2 ^ 63 - 1 times, and the number of open
  -- snapshots is kept in 64 bits: a snapshot holds that version once more and no other version,
  -- closing the snapshot releases what it took, and closing it again changes nothing.
  pub close-snapshot :
      (now : Time) (e : Engine F) (p : ℕ)
      → e.controller.current ≡ some p
      → Map.contains p e.store ≡ true
      → ref_count p e.store + 1 < 2 ^ 63
      → e.snapshots_active < 2 ^ 64
      → (s : Snapshot F) × (e1 : Engine F) × (snapshot now e ≡ some (s, e1))
        × ((q : ℕ)
            → ref_count q e1.store
              ≡ ite (ℕ_discrete p q) (ref_count q e.store + 1) (ref_count q e.store))
        × (let (s2, e2) = close s e1 in
            ((q : ℕ) → ref_count q e2.store ≡ ref_count q e.store)
            × (e2.snapshots_active ≡ e.snapshots_active)
            × (close s2 e2 ≡ (s2, e2)))
  unfolding snapshot acquire_current close
  close-snapshot now e p current stored small active = (
    record { version = some p; base = some e.base; closed = false },
    record e {
      store = acquire p e.store;
      gc = track p now e.gc;
      snapshots_active = add64 e.snapshots_active 1;
    },
    rw current refl,
    λ q. (release-acquire p q e.store stored small).0,
    (λ q. (release-acquire p q e.store stored small).1, omega arith, refl),
  )
