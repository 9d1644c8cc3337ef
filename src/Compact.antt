-- ===== src/Compact.antt =====
-- compact/compact.go: the overlay is merged into the base. A loop over `ForEach…` whose callback
-- always returns true is a recursion on the entries.
pub mod Base
pub mod Loops
pub mod Refine
pub mod Nodes
pub mod Merge
use itt_engine.Prelude.{
  ℕ, ◌∷◌, [], ◌+◌, List, Bool, true, false, Option, none, some, if◌then◌else◌, Str, str_key, add64,
  sub64, Time, after, Float, ◌>>=◌, length, ℤ, sub_ℕ, leb_ℤ, leb,
}
use itt_engine.Map
use itt_engine.Map.{Map, is_some}
use itt_engine.Graph.{
  Graph, NodeData, EdgeData, edge_key, new, add_node, add_edge, get_node, get_edge, node_count,
  edge_count,
}
use itt_engine.Immutable.{deep_copy}

pub data Strategy : Type 0 where
  by_volume by_time manual : Strategy

pub record Stats : Type 0 where
  pub nodes_merged : ℕ
  pub edges_merged : ℕ
  pub overlay_before : ℕ
  pub overlay_after : ℕ
  pub duration : ℤ
  pub timestamp : Time

module _ {F : Type 0} where
  -- the fields that step 1 copies: all but the attributes
  abbrev pub base_node : NodeData F → NodeData F
  base_node n = record n { attributes = none }

  -- the fields that step 3 copies
  abbrev pub overlay_node : NodeData F → NodeData F
  overlay_node n = record n { attributes = none; degree = 0; in_degree = 0; out_degree = 0 }

  unfoldable pub copy_base_nodes : Map Str (NodeData F) → Graph F → Graph F
  copy_base_nodes [] g = g
  copy_base_nodes ((k, n) ∷ m) g = copy_base_nodes m (add_node (base_node n) g)

  -- step 3, with the count of the nodes that were there
  unfoldable pub copy_overlay_nodes : Map Str (NodeData F) → ℕ → Graph F → ℕ × Graph F
  copy_overlay_nodes [] merged g = (merged, g)
  copy_overlay_nodes ((k, n) ∷ m) merged g =
      copy_overlay_nodes m (if is_some (get_node n.id g) then merged + 1 else merged)
        (add_node (overlay_node n) g)

  -- a write to the edge that `GetEdge` returns, if any
  unfoldable pub fix_edge : EdgeData F → (EdgeData F → EdgeData F) → Graph F → Graph F
  fix_edge e f g = record g { edges = Map.modify (edge_key e.from e.to) f g.edges }

  abbrev pub restore : EdgeData F → EdgeData F → EdgeData F
  restore e ge = record ge { count = e.count; last_seen = e.last_seen }

  abbrev pub extend : EdgeData F → EdgeData F → EdgeData F
  extend e ge = record ge {
    count = add64 ge.count (sub64 e.count 1);
    last_seen = if after e.last_seen ge.last_seen then e.last_seen else ge.last_seen;
  }

module _ {F : Type 0} ⦃float : Float F⦄ where
  unfoldable pub copy_base_edges : Map Str (EdgeData F) → Graph F → Option (Graph F)
  copy_base_edges [] g = some g
  copy_base_edges ((k, e) ∷ m) g = do
    g' ← add_edge e.from e.to e.weight e.type e.first_seen g
    copy_base_edges m (fix_edge e (restore e) g')

  unfoldable pub copy_overlay_edges : Map Str (EdgeData F) → ℕ → Graph F → Option (ℕ × Graph F)
  copy_overlay_edges [] merged g = some (merged, g)
  copy_overlay_edges ((k, e) ∷ m) merged g = do
    g' ← add_edge e.from e.to e.weight e.type e.first_seen g
    copy_overlay_edges m (if is_some (get_edge e.from e.to g) then merged + 1 else merged)
        (fix_edge e (extend e) g')

  -- `start` and `finish` are the readings of the clock at the two ends
  unfoldable pub compact : Time → Time → Graph F → Graph F → Option (Graph F × Stats)
  compact start finish base overlay = do
    g ← copy_base_edges base.edges (copy_base_nodes base.nodes new)
    let (nodes_merged, g') = copy_overlay_nodes overlay.nodes 0 g
    merged ← copy_overlay_edges overlay.edges 0 g'
    result ← deep_copy (merged.1)
    some (
      result,
      record {
        nodes_merged = nodes_merged;
        edges_merged = merged.0;
        overlay_before = node_count overlay + edge_count overlay;
        overlay_after = 0;
        duration = sub_ℕ finish start;
        timestamp = start;
      },
    )

-- `now` is the reading of the clock that `time.Since` makes.
unfoldable pub should_compact : Strategy → ℤ → ℤ → Time → ℤ → Time → Bool
should_compact Strategy.by_volume overlay_events threshold last_compaction interval now =
    leb_ℤ threshold overlay_events
should_compact Strategy.by_time overlay_events threshold last_compaction interval now =
    leb_ℤ interval (sub_ℕ now last_compaction)
should_compact Strategy.manual overlay_events threshold last_compaction interval now = false
