-- ===== src/Immutable.antt =====
-- graph/immutable.go: deep copies, and the copy-on-write step `WithEvent`. An `*ImmutableGraph` is
-- the graph that it wraps; its read methods are those of the graph.
pub mod Copy
pub mod CopyLoops
pub mod WithEvent
use itt_engine.Prelude.{
  ◌∷◌, [], Bool, ◌||◌, Option, none, some, if◌then◌else◌, ◌==◌, Str, str_key, Time, before, after,
  Float, ◌>>=◌,
}
use itt_engine.Map
use itt_engine.Map.{Map}
use itt_engine.Map.Entries.{copy_into}
use itt_engine.Graph.{Graph, NodeData, EdgeData, edge_key, new, link, ensure_row, add_edge}

-- the two bounds of a node's life that an event moves
unfoldable pub widen : {F : Type 0} → Time → NodeData F → NodeData F
widen ts n = record n {
  first_seen = if before ts n.first_seen || n.first_seen == 0 then ts else n.first_seen;
  last_seen = if after ts n.last_seen then ts else n.last_seen;
}

module _ {F : Type 0} where
  unfoldable pub copy_attributes : Option (Map Str F) → Option (Map Str F)
  copy_attributes none = none
  copy_attributes (some m) = some (copy_into m [])

  unfoldable pub copy_node : NodeData F → NodeData F
  copy_node n = record n { attributes = copy_attributes n.attributes }

  -- the first loop of `deepCopyGraph`
  unfoldable pub copy_nodes : Map Str (NodeData F) → Graph F → Graph F
  copy_nodes [] dst = dst
  copy_nodes ((k, n) ∷ m) dst = copy_nodes m (record dst {
    nodes = Map.put n.id (copy_node n) dst.nodes;
    out = ensure_row n.id dst.out;
    into = ensure_row n.id dst.into;
  })

  -- the second one
  unfoldable pub copy_edges : Map Str (EdgeData F) → Graph F → Option (Graph F)
  copy_edges [] dst = some dst
  copy_edges ((k, e) ∷ m) dst = do
    out ← link e.from e.to dst.out
    into ← link e.to e.from dst.into
    copy_edges m
        (record dst { edges = Map.put (edge_key e.from e.to) e dst.edges; out = out; into = into })

  unfoldable pub deep_copy : Graph F → Option (Graph F)
  deep_copy src = copy_edges src.edges (copy_nodes src.nodes new)

  -- `if n, ok := cp.GetNode(id); ok { … }` of `WithEvent`
  unfoldable pub touch : Str → Time → Graph F → Graph F
  touch id ts g = record g { nodes = Map.modify id (widen ts) g.nodes }

unfoldable pub with_event :
    {F : Type 0} ⦃float : Float F⦄ → Str → Str → F → Str → Time → Graph F → Option (Graph F)
with_event from to weight type ts ig = do
  cp ← deep_copy ig
  cp' ← add_edge from to weight type ts cp
  some (touch to ts (touch from ts cp'))
