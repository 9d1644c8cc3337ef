-- ===== src/Engine/Start.antt =====
-- `newEngine` and `Compact` of engine.go. The channel and the cache that `newEngine` makes belong to
-- the lifecycle and to the cache, and the callbacks of the collector only write to the log.
use itt_engine.Prelude.{
  Option, none, some, [], ◌∷◌, Time, Float, ℤ, pos, ◌>>=◌, nat_key, if◌then◌else◌,
}
use itt_engine.Graph.{Graph, new}
use itt_engine.Mvcc.{new_controller, store_version}
use itt_engine.Gc.{new_gc}
use itt_engine.Data.{GraphData, graph_from_data}
use itt_engine.Event.{Error}
use itt_engine.Lifecycle.{Lifecycle, running}
use itt_engine.Engine.{Engine, version, do_compact}

-- what `Load` of the storage returns: an error, no data, or data
pub data Loaded (F : Type 0) : Type 0 where
  failed : Loaded F
  nothing : Loaded F
  loaded : GraphData F → Loaded F

module _ {F : Type 0} ⦃float : Float F⦄ where
  -- the base graph: the storage takes precedence over the one that is given
  unfoldable pub first_base : Option (GraphData F) → Option (Loaded F) → Option (Graph F)
  first_base base_graph storage = do
    given ← elim base_graph [ none ↦ some new | some d ↦ graph_from_data d ]
    elim storage [
      | none ↦ some given
      | some l ↦ elim l [
        | failed ↦ some given
        | nothing ↦ some given
        | loaded d ↦ graph_from_data d
      ]
    ]

  unfoldable pub new_engine :
      Time → ℤ → ℤ → Option (GraphData F) → Option (Loaded F) → Option (Engine F)
  new_engine now warning force base_graph storage = do
    base ← first_base base_graph storage
    some (record {
      store = (0, version 0 new now []) ∷ [];
      controller = store_version 0 new_controller;
      version_id = 0;
      gc = new_gc (record {
        interval = pos 30_000_000_000;
        warning_timeout = warning;
        force_timeout = force;
      });
      base = base;
      events_total = 0;
      overlay_count = 0;
      last_compact = now;
      snapshots_active = 0;
    })

-- what `Compact` returns: a panic, its error, or none
pub data Compacted (F : Type 0) : Type 0 where
  panic : Compacted F
  refused : Error → Compacted F
  done : Engine F → Compacted F

unfoldable pub force_compact :
    {F : Type 0} ⦃float : Float F⦄ → Time → Lifecycle F → Engine F → Compacted F
force_compact now l e =
    let next = do_compact now e in
    if running l
    then elim next [ none ↦ Compacted.panic | some e' ↦ Compacted.done e' ]
    else Compacted.refused Error.engine_stopped
