-- ===== src/Snapshot.antt =====
-- snapshot.go, from the snapshot's making (`Snapshot` of engine.go) to its release, with the readers
-- of the graph. The lock of a snapshot makes each call one step.
pub mod Reads
pub mod Life
use itt_engine.Prelude.{
  ℕ, Bool, true, false, Option, none, some, if◌then◌else◌, Str, str_key, nat_key, List, Time, Float,
  add64, sub64, ltb, ◌>>=◌,
}
use itt_engine.Map
use itt_engine.Map.{values}
use itt_engine.Graph
use itt_engine.Graph.{Graph, NodeData, EdgeData}
use itt_engine.View
use itt_engine.View.{UnifiedView, for_each}
use itt_engine.Mvcc.{Version, Store, acquire_current, release}
use itt_engine.Gc.{track}
use itt_engine.Event.{Error}
use itt_engine.Engine.{Engine}

pub record Snapshot (F : Type 0) : Type 0 where
  pub version : Option ℕ
  pub base : Option (Graph F)
  pub closed : Bool

-- a dereference of a nil version panics
pub data Answer (A : Type 0) : Type 0 where
  panic : Answer A
  failed : Error → Answer A
  value : A → Answer A

-- the `GraphView` that a snapshot reads
pub data GraphView (F : Type 0) : Type 0 where
  layered : UnifiedView F → GraphView F
  flat : Graph F → GraphView F

module _ {F : Type 0} where
  unfoldable pub view_of : Option (Graph F) → Graph F → GraphView F
  view_of none overlay = GraphView.flat overlay
  view_of (some base) overlay =
      if ltb 0 (Graph.node_count base)
      then GraphView.layered (record { base = base; overlay = overlay })
      else GraphView.flat overlay

  unfoldable pub graph_view : Snapshot F → Store F → Option (GraphView F)
  graph_view s store = do p ← s.version; v ← Map.get p store; some (view_of s.base v.graph)

  -- `checkClosed`, and a reader's call of `graphView`
  unfoldable pub read : {A : Type 0} → (GraphView F → A) → Snapshot F → Store F → Answer A
  read f s store =
      if s.closed
      then Answer.failed Error.snapshot_closed
      else elim (graph_view s store) [ none ↦ Answer.panic | some gv ↦ Answer.value (f gv) ]

  abbrev pub view_node : Str → GraphView F → Option (NodeData F)
  view_node id (GraphView.layered v) = View.get_node id v
  view_node id (GraphView.flat g) = Graph.get_node id g

  abbrev pub view_neighbors : Str → GraphView F → List Str
  view_neighbors id (GraphView.layered v) = View.neighbors id v
  view_neighbors id (GraphView.flat g) = Graph.neighbors id g

  abbrev pub view_in_neighbors : Str → GraphView F → List Str
  view_in_neighbors id (GraphView.layered v) = View.in_neighbors id v
  view_in_neighbors id (GraphView.flat g) = Graph.in_neighbors id g

  abbrev pub view_out_neighbors : Str → GraphView F → List Str
  view_out_neighbors id (GraphView.layered v) = View.out_neighbors id v
  view_out_neighbors id (GraphView.flat g) = Graph.out_neighbors id g

  abbrev pub view_node_count : GraphView F → ℕ
  view_node_count (GraphView.layered v) = View.node_count v
  view_node_count (GraphView.flat g) = Graph.node_count g

  abbrev pub view_edge_count : GraphView F → ℕ
  view_edge_count (GraphView.layered v) = View.edge_count v
  view_edge_count (GraphView.flat g) = Graph.edge_count g

  abbrev pub node_count : Snapshot F → Store F → Answer ℕ
  node_count = read view_node_count

  abbrev pub edge_count : Snapshot F → Store F → Answer ℕ
  edge_count = read view_edge_count

  abbrev pub get_node : Str → Snapshot F → Store F → Answer (Option (NodeData F))
  get_node id = read (view_node id)

  abbrev pub neighbors : Str → Snapshot F → Store F → Answer (List Str)
  neighbors id = read (view_neighbors id)

  abbrev pub in_neighbors : Str → Snapshot F → Store F → Answer (List Str)
  in_neighbors id = read (view_in_neighbors id)

  abbrev pub out_neighbors : Str → Snapshot F → Store F → Answer (List Str)
  out_neighbors id = read (view_out_neighbors id)

  -- `ForEachNode`, with the state that the callback keeps
  abbrev pub view_for_each_node : {S : Type 0} → (NodeData F → S → S × Bool) → S → GraphView F → S
  view_for_each_node fn s (GraphView.layered v) = View.for_each_node fn v s
  view_for_each_node fn s (GraphView.flat g) = for_each fn (values g.nodes) s

  abbrev pub for_each_node :
      {S : Type 0} → (NodeData F → S → S × Bool) → S → Snapshot F → Store F → Answer S
  for_each_node fn st = read (view_for_each_node fn st)

  -- `Version`: 0 for a nil version
  unfoldable pub version_of : Snapshot F → Store F → ℕ
  version_of s store = elim s.version [
    | none ↦ 0
    | some p ↦ elim (Map.get p store) [ none ↦ 0 | some v ↦ v.id ]
  ]

  unfoldable pub timestamp : Snapshot F → Store F → Answer Time
  timestamp s store = if s.closed then Answer.failed Error.snapshot_closed else elim s.version [
    | none ↦ Answer.panic
    | some p ↦ elim (Map.get p store) [ none ↦ Answer.panic | some v ↦ Answer.value v.timestamp ]
  ]

  -- `Engine.Snapshot`; `none` is the panic of `Track` on a nil version
  unfoldable pub snapshot : Time → Engine F → Option (Snapshot F × Engine F)
  snapshot now e =
      let (acquired, store) = acquire_current e.controller e.store in
      elim acquired [
        | none ↦ none
        | some p ↦ some (
          record { version = some p; base = some e.base; closed = false },
          record e {
            store = store;
            gc = track p now e.gc;
            snapshots_active = add64 e.snapshots_active 1;
          },
        )
      ]

  -- `Close`, with the `onClose` that the engine gave
  unfoldable pub close : Snapshot F → Engine F → Snapshot F × Engine F
  close s e = if s.closed then (s, e) else (
    record s { closed = true },
    record e {
      store = elim s.version [ none ↦ e.store | some p ↦ release p e.store ];
      snapshots_active = sub64 e.snapshots_active 1;
    },
  )

module _ {F : Type 0} ⦃float : Float F⦄ where
  abbrev pub view_edge : Str → Str → GraphView F → Option (EdgeData F)
  view_edge from to (GraphView.layered v) = View.get_edge from to v
  view_edge from to (GraphView.flat g) = Graph.get_edge from to g

  abbrev pub get_edge : Str → Str → Snapshot F → Store F → Answer (Option (EdgeData F))
  get_edge from to = read (view_edge from to)

  abbrev pub view_for_each_edge : {S : Type 0} → (EdgeData F → S → S × Bool) → S → GraphView F → S
  view_for_each_edge fn s (GraphView.layered v) = View.for_each_edge fn v s
  view_for_each_edge fn s (GraphView.flat g) = for_each fn (values g.edges) s

  abbrev pub for_each_edge :
      {S : Type 0} → (EdgeData F → S → S × Bool) → S → Snapshot F → Store F → Answer S
  for_each_edge fn st = read (view_for_each_edge fn st)
