-- ===== src/Immutable/CopyLoops.antt =====
-- The two loops of `deepCopyGraph` of graph/immutable.go.
use itt_engine.Prelude.{◌≡◌, refl, true, ◌||◌, none, some, Str, str_key, arith, ◌∷◌, []}
use itt_engine.Map
use itt_engine.Map.{Map, OnSome, AllEntries, is_some, keys, distinct}
use itt_engine.Map.Laws.{get-put, mem-keys, distinct-keys-put}
use itt_engine.Graph.{Graph, NodeData, EdgeData, edge_key, ensure_row}
use itt_engine.Graph.Valid.{linked, joins, contains-ensure_row, linked-ensure_row}
use itt_engine.Graph.AddEdge.{link_rows, link-some, contains-link_rows, linked-link_rows}
use itt_engine.Immutable.{copy_node, copy_nodes, copy_edges}

module _ {F : Type 0} where
  abbrev pub IsNamed : Str → NodeData F → Type 0
  IsNamed k n = n.id ≡ k

  -- an entry of `edges` whose rows the destination has
  abbrev pub IsReady : Graph F → Str → EdgeData F → Type 0
  IsReady dst k e =
      (edge_key e.from e.to ≡ k)
      × (Map.contains e.from dst.out ≡ true)
      × (Map.contains e.to dst.into ≡ true)

  pub get-copy_nodes :
      (m : Map Str (NodeData F)) (dst : Graph F) (id : Str)
      → AllEntries IsNamed m
      → distinct (keys m) ≡ true
      → Map.get id (copy_nodes m dst).nodes
        ≡ elim (Map.get id m) [ none ↦ Map.get id dst.nodes | some n ↦ some (copy_node n) ]
  unfolding copy_nodes Map.get distinct
  get-copy_nodes [] dst id a d = refl
  get-copy_nodes ((k, n) ∷ m) dst id (named, a) d =
      let next : Graph F = record dst {
        nodes = Map.put n.id (copy_node n) dst.nodes;
        out = ensure_row n.id dst.out;
        into = ensure_row n.id dst.into;
      } in
      ground
        (arith, get-copy_nodes m next id a, get-put n.id id (copy_node n) dst.nodes, mem-keys k m)

  -- the rows of the copy: one to each node, and none has an entry yet
  pub rows-copy_nodes :
      (m : Map Str (NodeData F)) (dst : Graph F) (id b : Str)
      → AllEntries IsNamed m
      → let g = copy_nodes m dst in
        (Map.contains id g.out ≡ (Map.contains id m || Map.contains id dst.out))
        × (Map.contains id g.into ≡ (Map.contains id m || Map.contains id dst.into))
        × (linked id b g.out ≡ linked id b dst.out)
        × (linked id b g.into ≡ linked id b dst.into)
        × (g.edges ≡ dst.edges)
  unfolding copy_nodes Map.get
  rows-copy_nodes [] dst id b a = (refl, refl, refl, refl, refl)
  rows-copy_nodes ((k, n) ∷ m) dst id b (named, a) =
      let next : Graph F = record dst {
        nodes = Map.put n.id (copy_node n) dst.nodes;
        out = ensure_row n.id dst.out;
        into = ensure_row n.id dst.into;
      } in
      ground (
        arith,
        rows-copy_nodes m next id b a,
        contains-ensure_row n.id id dst.out,
        contains-ensure_row n.id id dst.into,
        linked-ensure_row n.id id b dst.out,
        linked-ensure_row n.id id b dst.into,
      )

  pub keys-copy_nodes :
      (m : Map Str (NodeData F)) (dst : Graph F)
      → distinct (keys dst.nodes) ≡ true
      → distinct (keys (copy_nodes m dst).nodes) ≡ true
  unfolding copy_nodes
  keys-copy_nodes [] dst d = d
  keys-copy_nodes ((k, n) ∷ m) dst d =
      keys-copy_nodes m _ (distinct-keys-put n.id (copy_node n) dst.nodes d)

  -- what the second loop does for one edge whose rows are there
  unfoldable pub copy_edge : EdgeData F → Graph F → Graph F
  copy_edge e dst = record dst {
    edges = Map.put (edge_key e.from e.to) e dst.edges;
    out = link_rows e.from e.to dst.out;
    into = link_rows e.to e.from dst.into;
  }

  -- what it does for all of them
  unfoldable pub copy_edges_graph : Map Str (EdgeData F) → Graph F → Graph F
  unfolding copy_edge
  copy_edges_graph [] dst = dst
  copy_edges_graph ((k, e) ∷ m) dst = copy_edges_graph m (copy_edge e dst)

  pub IsReady-copy_edge :
      (e : EdgeData F) (m : Map Str (EdgeData F)) (dst : Graph F)
      → AllEntries (IsReady dst) m
      → AllEntries (IsReady (copy_edge e dst)) m
  unfolding copy_edge
  IsReady-copy_edge e [] dst a = tt
  IsReady-copy_edge e ((k, f) ∷ m) dst (r, a) = (
    ground (
      arith,
      contains-link_rows e.from e.to f.from dst.out,
      contains-link_rows e.to e.from f.to dst.into,
    ),
    IsReady-copy_edge e m dst a,
  )

  pub copy_edges-some :
      (m : Map Str (EdgeData F)) (dst : Graph F)
      → AllEntries (IsReady dst) m
      → copy_edges m dst ≡ some (copy_edges_graph m dst)
  unfolding copy_edges copy_edges_graph
  copy_edges-some [] dst a = refl
  copy_edges-some ((k, e) ∷ m) dst (r, a) =
      rw (link-some e.from e.to dst.out r.1, link-some e.to e.from dst.into r.2)
        (copy_edges-some m (copy_edge e dst) (IsReady-copy_edge e m dst a))

  pub get-copy_edges_graph :
      (m : Map Str (EdgeData F)) (dst : Graph F) (k : Str)
      → AllEntries (IsReady dst) m
      → distinct (keys m) ≡ true
      → Map.get k (copy_edges_graph m dst).edges
        ≡ elim (Map.get k m) [ none ↦ Map.get k dst.edges | some e ↦ some e ]
  unfolding copy_edges_graph Map.get distinct
  get-copy_edges_graph [] dst k a d = refl
  get-copy_edges_graph ((j, e) ∷ m) dst k (r, a) d = ground (
    arith,
    get-copy_edges_graph m (copy_edge e dst) k (IsReady-copy_edge e m dst a),
    get-put (edge_key e.from e.to) k e dst.edges,
    mem-keys j m,
  )

  pub rows-copy_edges_graph :
      (m : Map Str (EdgeData F)) (dst : Graph F) (id : Str)
      → let g = copy_edges_graph m dst in
        (Map.contains id g.out ≡ Map.contains id dst.out)
        × (Map.contains id g.into ≡ Map.contains id dst.into)
        × (g.nodes ≡ dst.nodes)
  unfolding copy_edges_graph
  rows-copy_edges_graph [] dst id = (refl, refl, refl)
  rows-copy_edges_graph ((j, e) ∷ m) dst id = ground (
    arith,
    rows-copy_edges_graph m (copy_edge e dst) id,
    contains-link_rows e.from e.to id dst.out,
    contains-link_rows e.to e.from id dst.into,
  )

  pub linked-copy_edges_graph :
      (m : Map Str (EdgeData F)) (dst : Graph F) (a b : Str)
      → AllEntries (IsReady dst) m
      → distinct (keys m) ≡ true
      → let g = copy_edges_graph m dst in
        (linked a b g.out ≡ (joins a b (Map.get (edge_key a b) m) || linked a b dst.out))
        × (linked b a g.into ≡ (joins a b (Map.get (edge_key a b) m) || linked b a dst.into))
  unfolding copy_edges_graph Map.get distinct
  linked-copy_edges_graph [] dst a b r d = (refl, refl)
  linked-copy_edges_graph ((j, e) ∷ m) dst a b (r, rs) d = ground (
    arith,
    linked-copy_edges_graph m (copy_edge e dst) a b (IsReady-copy_edge e m dst rs),
    linked-link_rows e.from e.to a b dst.out,
    linked-link_rows e.to e.from b a dst.into,
    mem-keys j m,
  )

  pub keys-copy_edges_graph :
      (m : Map Str (EdgeData F)) (dst : Graph F)
      → distinct (keys dst.edges) ≡ true
      → distinct (keys (copy_edges_graph m dst).edges) ≡ true
  unfolding copy_edges_graph
  keys-copy_edges_graph [] dst d = d
  keys-copy_edges_graph ((k, e) ∷ m) dst d =
      keys-copy_edges_graph m _ (distinct-keys-put (edge_key e.from e.to) e dst.edges d)
