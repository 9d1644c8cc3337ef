-- ===== src/Heap.antt =====
-- graph/immutable.go and the writes of graph/graph.go through pointers: a node or an edge is a cell
-- of a heap, and a graph holds the indices of its cells. What one call makes and no one else holds
-- yet, the maps of the copy among them, is passed along. `none` is a panic.
pub mod Cells
pub mod Isolation
pub mod Reads
pub mod Copies
pub mod Refine
use itt_engine.Prelude.{
  ℕ, ◌+◌, Bool, true, false, Option, none, some, List, [], ◌∷◌, ◌++◌, Str, str_key, Time, Float,
  length, get_elem?, set, if◌then◌else◌, ◌>>=◌,
}
use itt_engine.Map
use itt_engine.Map.{Map}
use itt_engine.Graph.{
  NodeData, EdgeData, Rows, edge_key, ensure_row, link, update_node, seen_node, count_out, count_in,
  accumulate, new_edge,
}
use itt_engine.Immutable.{widen, copy_node}

-- the cells of the nodes and of the edges
pub record Heap (F : Type 0) : Type 0 where
  pub nodes : List (NodeData F)
  pub edges : List (EdgeData F)

-- a `Graph`, with its `*NodeData` and `*EdgeData` as indices
pub record Refs : Type 0 where
  pub nodes : Map Str ℕ
  pub edges : Map Str ℕ
  pub out : Rows
  pub into : Rows

abbrev pub no_refs : Refs
no_refs = record { nodes = []; edges = []; out = []; into = [] }

module _ {F : Type 0} where
  -- an assignment to the fields of a node, and of an edge
  unfoldable pub write_node : ℕ → (NodeData F → NodeData F) → Heap F → Option (Heap F)
  write_node p f h = do n ← get_elem? h.nodes p; some (record h { nodes = set h.nodes p (f n) })

  unfoldable pub write_edge : ℕ → (EdgeData F → EdgeData F) → Heap F → Option (Heap F)
  write_edge p f h = do e ← get_elem? h.edges p; some (record h { edges = set h.edges p (f e) })

  -- `g.nodes[n.ID] = n` for a new cell, and the rows that follow
  unfoldable pub place_node : NodeData F → Refs → Heap F → Refs × Heap F
  place_node n g h = (
    record g {
      nodes = Map.put n.id (length h.nodes) g.nodes;
      out = ensure_row n.id g.out;
      into = ensure_row n.id g.into;
    },
    record h { nodes = h.nodes ++ (n ∷ []) },
  )

  -- an edge in a new cell, and its two rows
  unfoldable pub place_edge : EdgeData F → Refs → Heap F → Option (Refs × Heap F)
  place_edge e g h = do
    out ← link e.from e.to g.out
    into ← link e.to e.from g.into
    some (
      record g {
        edges = Map.put (edge_key e.from e.to) (length h.edges) g.edges;
        out = out;
        into = into;
      },
      record h { edges = h.edges ++ (e ∷ []) },
    )

  -- the two loops of `deepCopyGraph`
  unfoldable pub copy_nodes : Map Str ℕ → Refs → Heap F → Option (Refs × Heap F)
  copy_nodes [] g h = some (g, h)
  copy_nodes ((k, p) ∷ m) g h = do
    n ← get_elem? h.nodes p
    let next = place_node (copy_node n) g h
    copy_nodes m next.0 next.1

  unfoldable pub copy_edges : Map Str ℕ → Refs → Heap F → Option (Refs × Heap F)
  copy_edges [] g h = some (g, h)
  copy_edges ((k, p) ∷ m) g h = do
    e ← get_elem? h.edges p
    next ← place_edge e g h
    copy_edges m next.0 next.1

  unfoldable pub deep_copy : Refs → Heap F → Option (Refs × Heap F)
  deep_copy src h = do
    copied ← copy_nodes src.nodes no_refs h
    copy_edges src.edges copied.0 copied.1

  unfoldable pub add_node : NodeData F → Refs → Heap F → Option (Refs × Heap F)
  add_node n g h = elim (Map.get n.id g.nodes) [
    | some p ↦ (write_node p (update_node n) h >>= λ h'. some (g, h'))
    | none ↦ some (place_node n g h)
  ]

  unfoldable pub ensure_node : Str → Time → Refs → Heap F → Option (Refs × Heap F)
  ensure_node id ts g h =
      if Map.contains id g.nodes then some (g, h) else add_node (seen_node id ts) g h

  -- a write to the node of an ID: a nil pointer panics
  unfoldable pub write_at : Str → (NodeData F → NodeData F) → Refs → Heap F → Option (Heap F)
  write_at id f g h = do p ← Map.get id g.nodes; write_node p f h

  -- `if n, ok := cp.GetNode(id); ok { … }` of `WithEvent`
  unfoldable pub touch : Str → Time → Refs → Heap F → Option (Heap F)
  touch id ts g h = elim (Map.get id g.nodes) [ none ↦ some h | some p ↦ write_node p (widen ts) h ]

module _ {F : Type 0} ⦃float : Float F⦄ (from to : Str) (weight : F) (type : Str) (ts : Time) where
  -- the part of `AddEdge` after its two guards
  unfoldable pub put_edge : Refs → Heap F → Option (Refs × Heap F)
  put_edge g h = elim (Map.get (edge_key from to) g.edges) [
    | some p ↦ (write_edge p (accumulate weight ts) h >>= λ h'. some (g, h'))
    | none ↦ (do
      placed ← place_edge (new_edge from to weight type ts) g h
      h1 ← write_at from count_out placed.0 placed.1
      h2 ← write_at to count_in placed.0 h1
      some (placed.0, h2))
  ]

  unfoldable pub add_edge : Refs → Heap F → Option (Refs × Heap F)
  add_edge g h = do
    one ← ensure_node from ts g h
    two ← ensure_node to ts one.0 one.1
    put_edge two.0 two.1

  unfoldable pub with_event : Refs → Heap F → Option (Refs × Heap F)
  with_event ig h = do
    cp ← deep_copy ig h
    grown ← add_edge cp.0 cp.1
    h1 ← touch from ts grown.0 grown.1
    h2 ← touch to ts grown.0 h1
    some (grown.0, h2)
