-- ===== src/Tests/Races.antt =====
-- The engine of engine.go as it starts, and a compaction in the middle of `processEvent`.
use itt_engine.Prelude.{ℕ, ◌≡◌, refl, ite, Str, Str-discrete, [], ◌∷◌, some, none, true, pos, add64}
use itt_engine.Graph
use itt_engine.Graph.{Graph, edge_key, new}
use itt_engine.Map.{is_some}
use itt_engine.Gc.{new_gc}
use itt_engine.Compact.Loops.{new-IsValid}
use itt_engine.Snapshot.{snapshot}
use itt_engine.Engine.Start.{new_engine, first_base}
use itt_engine.Engine.Reach.{Reached, Step}
use itt_engine.Engine.Progress.{Reached-runs}
use itt_engine.Builder.{CompactionStrategy}
use itt_engine.Mvcc.{Version}
use itt_engine.Engine.{
  Engine, Config, publish, version, do_compact, apply_event, process_event, reset,
}
use itt_engine.Engine.Layers.{tally}
use itt_engine.Engine.Steps.{IsSound, observed, overlay-publish, new-IsTimely}
use itt_engine.Engine.Races.{stale_version_counted_twice}
use itt_engine.Tests.{
  nat_float, ann, bob, layer, layer-IsValid, layer-IsTimely, config, event, engine, engine-IsSound,
}

-- the engine with one event in its overlay
abbrev grown : Engine ℕ
grown = publish (layer 5) 5 [] engine

grown-IsSound : IsSound (layer 5) grown
unfolding publish
grown-IsSound = record {
  published = overlay-publish (layer 5) 5 [] engine;
  base_valid = engine-IsSound.base_valid;
  base_timely = engine-IsSound.base_timely;
  overlay_valid = layer-IsValid 5;
  overlay_timely = layer-IsTimely 5;
}

abbrev manual : Config ℕ
manual = record config { compaction_strategy = CompactionStrategy.compact_manual }

abbrev loaded : Version ℕ
loaded = version 2 (layer 5) 5 []

stale_version_counted_twice_example :
    (e1 : Engine ℕ) × (e2 : Engine ℕ) × (do_compact 8 grown ≡ some e1)
    × (apply_event manual 9 event loaded e1 ≡ some e2)
    × ((a b : Str)
        → observed a b e2
          ≡ add64
              (add64 (observed a b grown) (tally (Graph.get_edge a b (layer 5))))
              (ite (Str-discrete (edge_key ann bob) (edge_key a b)) 1 0))
stale_version_counted_twice_example =
    stale_version_counted_twice manual event (layer 5) 8 9 loaded grown refl grown-IsSound refl

-- what `newEngine` makes without a base
abbrev fresh : Engine ℕ
fresh = record {
  store = (0, version 0 new 4 []) ∷ [];
  controller = record { current = some 0 };
  version_id = 0;
  gc =
      new_gc
        (record { interval = pos 30_000_000_000; warning_timeout = pos 5; force_timeout = pos 10 });
  base = new;
  events_total = 0;
  overlay_count = 0;
  last_compact = 4;
  snapshots_active = 0;
}

fresh-Reached : Reached ℕ config (reset 5 fresh)
unfolding new_engine first_base
fresh-Reached =
    Reached.steps
      (Reached.starts {e = fresh} 4 (pos 5) (pos 10) none none refl new-IsValid new-IsTimely)
      (Step.resets 5)

Reached-runs_example :
    (overlay : Graph ℕ) × IsSound overlay (reset 5 fresh)
    × (is_some (process_event config 7 event (reset 5 fresh)) ≡ true)
    × (is_some (do_compact 7 (reset 5 fresh)) ≡ true)
    × (is_some (snapshot 7 (reset 5 fresh)) ≡ true)
Reached-runs_example = Reached-runs config (reset 5 fresh) 7 event fresh-Reached
