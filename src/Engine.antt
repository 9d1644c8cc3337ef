-- ===== src/Engine.antt =====
-- engine.go: the state that the worker, the callers and the collector share, and the steps that
-- change it. A pointer to a version is its ID, under which the store holds it. What follows a step,
-- that is the callbacks, the tensions that `checkAnomalies` records for them, and the save to the
-- storage, changes nothing of this state and is not modelled.
pub mod Counting
pub mod Isolation
pub mod Layers
pub mod Races
pub mod Start
pub mod Reach
pub mod Progress
pub mod Tick
pub mod Steps
use itt_engine.Prelude.{
  ℕ, ◌+◌, Bool, true, false, not, ◌&&◌, ◌||◌, Option, none, some, if◌then◌else◌, ◌==◌, leb, Str,
  Str-discrete, ite, str_key, nat_key, [], List, ◌∷◌, Time, Float, add64, sub64, less64, ◌>>=◌, ℤ,
  sub_ℕ, leb_ℤ,
}
use itt_engine.Map
use itt_engine.Map.{Map}
use itt_engine.Graph.{Graph, NodeData, new, get_node}
use itt_engine.Immutable.{with_event}
use itt_engine.Compact.{compact}
use itt_engine.Mvcc.{Version, Store, Controller, store_version, load, acquire_current}
use itt_engine.Gc.{Gc, track}
use itt_engine.Event.{Event}
use itt_engine.Builder.{CompactionStrategy}

-- what the steps read of the `Builder`
pub record Config (F : Type 0) : Type 0 where
  pub weight_func : Option (Event F → F)
  pub node_type_func : Option (Str → Str)
  pub compaction_strategy : CompactionStrategy
  pub compaction_threshold : ℕ
  pub compaction_interval : ℤ

pub record Engine (F : Type 0) : Type 0 where
  pub store : Store F
  pub controller : Controller
  pub version_id : ℕ
  pub gc : Gc
  pub base : Graph F
  pub events_total : ℕ
  pub overlay_count : ℕ
  pub last_compact : Time
  pub snapshots_active : ℕ

module _ {F : Type 0} where
  abbrev pub version : ℕ → Graph F → Time → Map Str Bool → Version F
  version id graph timestamp dirty = record {
    id = id;
    graph = graph;
    timestamp = timestamp;
    dirty = dirty;
    ref_count = 0;
  }

  -- `nextID := e.versionID.Add(1)`, and `e.vc.Store` of a version with that ID
  unfoldable pub publish : Graph F → Time → Map Str Bool → Engine F → Engine F
  publish graph timestamp dirty e =
      let next = add64 e.version_id 1 in
      record e {
        version_id = next;
        store = Map.put next (version next graph timestamp dirty) e.store;
        controller = store_version next e.controller;
      }

  unfoldable pub should_compact : Config F → Time → Engine F → Bool
  should_compact config now e = elim config.compaction_strategy [
    | CompactionStrategy.compact_by_volume ↦
        not (less64 e.overlay_count config.compaction_threshold)
    | CompactionStrategy.compact_by_time ↦
        leb_ℤ config.compaction_interval (sub_ℕ now e.last_compact)
    | CompactionStrategy.compact_manual ↦ false
  ]

  -- `Reset`
  unfoldable pub reset : Time → Engine F → Engine F
  reset now e = publish new now [] (record e { base = new; overlay_count = 0; last_compact = now })

  -- `if n, ok := g.GetNode(id); ok { n.Type = t }`, for a type that is not empty
  unfoldable pub set_type : Str → Str → Graph F → Graph F
  set_type id t g =
      ite (Str-discrete t []) g
        (record g { nodes = Map.modify id (λ n. record n { type = t }) g.nodes })

  -- the types that `nodeTypeFunc` gives to the endpoints
  unfoldable pub set_types : Config F → Event F → Graph F → Graph F
  set_types config ev g = elim config.node_type_func [
    | none ↦ g
    | some f ↦ set_type ev.target (f ev.target) (set_type ev.source (f ev.source) g)
  ]

  unfoldable pub weight_of : Config F → Event F → F
  weight_of config ev = elim config.weight_func [ none ↦ ev.weight | some f ↦ f ev ]

module _ {F : Type 0} ⦃float : Float F⦄ where
  -- the part of `doCompact` after its guard
  unfoldable pub compact_overlay : Time → Graph F → Engine F → Option (Engine F)
  compact_overlay now overlay e = do
    merged ← compact now now e.base overlay
    some (record (publish new now [] (record e { base = merged.0 })) {
      overlay_count = 0;
      last_compact = now;
    })

  unfoldable pub do_compact : Time → Engine F → Option (Engine F)
  do_compact now e = elim (load e.controller) [
    | none ↦ some e
    | some p ↦ elim (Map.get p e.store) [ none ↦ none | some v ↦ compact_overlay now v.graph e ]
  ]

  -- `processEvent` with the version that is current
  unfoldable pub apply_event : Config F → Time → Event F → Version F → Engine F → Option (Engine F)
  apply_event config now ev current e = do
    new_graph ←
        with_event ev.source ev.target (weight_of config ev) ev.type ev.timestamp current.graph
    let dirty = Map.put ev.target true (Map.put ev.source true [])
    let e' = publish (set_types config ev new_graph) ev.timestamp dirty e
    let e'' = record e' {
      events_total = add64 e.events_total 1;
      overlay_count = add64 e.overlay_count 1;
    }
    if should_compact config now e'' then do_compact now e'' else some e''

  unfoldable pub process_event : Config F → Time → Event F → Engine F → Option (Engine F)
  process_event config now ev e = elim (load e.controller) [
    | none ↦ some e
    | some p ↦ elim (Map.get p e.store) [ none ↦ none | some v ↦ apply_event config now ev v e ]
  ]

  -- the worker: it takes the events off the channel in their order, each at its time
  unfoldable pub process_all : Config F → List (Time × Event F) → Engine F → Option (Engine F)
  process_all config [] e = some e
  process_all config ((now, ev) ∷ evs) e = do
    e' ← process_event config now ev e
    process_all config evs e'
