-- ===== src/Tests/Snapshots.antt =====
-- snapshot.go on a concrete engine.
use itt_engine.Prelude.{ℕ, ◌+◌, ◌≡◌, refl, ite, ℕ_discrete, nat_key, str_key, some, false, arith}
use itt_engine.Map
use itt_engine.View
use itt_engine.View.{UnifiedView}
use itt_engine.Mvcc
use itt_engine.Mvcc.{ref_count}
use itt_engine.Engine
use itt_engine.Engine.{Engine, reset}
use itt_engine.Snapshot.{Snapshot, snapshot, close, view_of, view_edge, view_node}
use itt_engine.Snapshot.Reads.{view_of_lem}
use itt_engine.Snapshot.Life.{close-snapshot}
use itt_engine.Tests.{nat_float, ann, bob, layer, layer-IsValid, engine}

abbrev taken : Snapshot ℕ
taken = record { version = some 1; base = some (layer 3); closed = false }

view_of_lem_example :
    let v : UnifiedView ℕ = record { base = layer 3; overlay = layer 5 } in
    (view_node ann (view_of (some (layer 3)) (layer 5)) ≡ View.get_node ann v)
    × (view_edge ann bob (view_of (some (layer 3)) (layer 5)) ≡ View.get_edge ann bob v)
view_of_lem_example = view_of_lem (layer 3) (layer 5) ann ann bob (layer-IsValid 3)

close-snapshot_example :
    (s : Snapshot ℕ) × (e1 : Engine ℕ) × (snapshot 5 engine ≡ some (s, e1))
    × ((q : ℕ)
        → ref_count q e1.store
          ≡ ite (ℕ_discrete 1 q) (ref_count q engine.store + 1) (ref_count q engine.store))
    × (let (s2, e2) = close s e1 in
        ((q : ℕ) → ref_count q e2.store ≡ ref_count q engine.store)
        × (e2.snapshots_active ≡ engine.snapshots_active)
        × (close s2 e2 ≡ (s2, e2)))
unfolding reset Engine.publish Map.put Map.get Mvcc.ref_count ℕ_discrete
close-snapshot_example = close-snapshot 5 engine 1 refl refl (omega arith) (omega arith)
