-- ===== src/Graph/Valid.antt =====
-- The invariant of graph/graph.go: the maps are keyed by what they hold, every edge has its two
-- nodes, and `out` and `in` are the adjacency of `edges`.
use itt_engine.Prelude.{
  ◌≡◌, Bool, true, false, Option, none, some, ite, Str, Str-discrete, str_key, arith, [],
}
use itt_engine.Map
use itt_engine.Map.{Map, OnSome, is_some, keys, distinct}
use itt_engine.Map.Laws.{get-put, get-modify, keys-modify, distinct-keys-put}
use itt_engine.Graph.{Graph, NodeData, EdgeData, Rows, edge_key, ensure_row, add_node, update_node}

-- `rows[a][b]`
abbrev pub linked : Str → Str → Rows → Bool
linked a b rows = elim (Map.get a rows) [ none ↦ false | some r ↦ Map.contains b r ]

-- whether the edge under a key goes from `a` to `b`
abbrev pub joins : {F : Type 0} → Str → Str → Option (EdgeData F) → Bool
joins a b none = false
joins a b (some e) = ite (Str-discrete e.from a) (ite (Str-discrete e.to b) true false) false

-- an edge stands under its key, between two nodes
abbrev pub IsPlaced : {F : Type 0} → Map Str (NodeData F) → Str → EdgeData F → Type 0
IsPlaced nodes k e =
    (edge_key e.from e.to ≡ k)
    × (Map.contains e.from nodes ≡ true)
    × (Map.contains e.to nodes ≡ true)

pub record IsValid {F : Type 0} (g : Graph F) : Type 0 where
  pub nodes_named : (id : Str) → OnSome (λ n. n.id ≡ id) (Map.get id g.nodes)
  pub edges_placed : (k : Str) → OnSome (IsPlaced g.nodes k) (Map.get k g.edges)
  pub out_rows : (id : Str) → Map.contains id g.out ≡ Map.contains id g.nodes
  pub in_rows : (id : Str) → Map.contains id g.into ≡ Map.contains id g.nodes
  pub out_linked : (a b : Str) → linked a b g.out ≡ joins a b (Map.get (edge_key a b) g.edges)
  pub in_linked : (a b : Str) → linked b a g.into ≡ joins a b (Map.get (edge_key a b) g.edges)
  pub nodes_distinct : distinct (keys g.nodes) ≡ true
  pub edges_distinct : distinct (keys g.edges) ≡ true

-- more nodes leave every edge placed
pub IsPlaced-mono :
    {F : Type 0} (nodes nodes' : Map Str (NodeData F)) (k : Str) (e : Option (EdgeData F))
    → ((id : Str) → Map.contains id nodes ≡ true → Map.contains id nodes' ≡ true)
    → OnSome (IsPlaced nodes k) e
    → OnSome (IsPlaced nodes' k) e
IsPlaced-mono nodes nodes' k none grow h = tt
IsPlaced-mono nodes nodes' k (some e) grow (named, from, to) =
    (named, grow e.from from, grow e.to to)

pub contains-ensure_row :
    (id j : Str) (rows : Rows)
    → Map.contains j (ensure_row id rows) ≡ ite (Str-discrete id j) true (Map.contains j rows)
unfolding ensure_row
contains-ensure_row id j rows = ground (arith, get-put id j [] rows)

pub linked-ensure_row :
    (id a b : Str) (rows : Rows) → linked a b (ensure_row id rows) ≡ linked a b rows
unfolding ensure_row Map.get
linked-ensure_row id a b rows = ground (arith, get-put id a [] rows)

module _ {F : Type 0} where
  pub get-nodes-add_node :
      (n : NodeData F) (g : Graph F) (id : Str)
      → Map.get id (add_node n g).nodes
        ≡ ite
            (Str-discrete n.id id)
            (elim (Map.get id g.nodes) [ none ↦ some n | some old ↦ some (update_node n old) ])
            (Map.get id g.nodes)
  unfolding add_node
  get-nodes-add_node n g id =
      ground (arith, get-put n.id id n g.nodes, get-modify n.id id (update_node n) g.nodes)

  pub edges-add_node : (n : NodeData F) (g : Graph F) → (add_node n g).edges ≡ g.edges
  unfolding add_node
  edges-add_node n g = ground arith

  pub contains-add_node :
      (n : NodeData F) (g : Graph F) (id : Str)
      → Map.contains id (add_node n g).nodes
        ≡ ite (Str-discrete n.id id) true (Map.contains id g.nodes)
  contains-add_node n g id = ground (arith, get-nodes-add_node n g id)

  out-add_node :
      (n : NodeData F) (g : Graph F) (a b : Str) → linked a b (add_node n g).out ≡ linked a b g.out
  unfolding add_node
  out-add_node n g a b = ground (arith, linked-ensure_row n.id a b g.out)

  into-add_node :
      (n : NodeData F) (g : Graph F) (a b : Str)
      → linked a b (add_node n g).into ≡ linked a b g.into
  unfolding add_node
  into-add_node n g a b = ground (arith, linked-ensure_row n.id a b g.into)

  pub add_node-IsValid : (n : NodeData F) (g : Graph F) → IsValid g → IsValid (add_node n g)
  unfolding add_node update_node
  add_node-IsValid n g v = record {
    nodes_named = λ id. ground (arith, get-nodes-add_node n g id, v.nodes_named id);
    edges_placed = λ k. rw edges-add_node (
        IsPlaced-mono g.nodes (add_node n g).nodes k (Map.get k g.edges)
          (λ id h. ground (arith, contains-add_node n g id)) (v.edges_placed k));
    out_rows = λ id. ground (
      arith,
      contains-ensure_row n.id id g.out,
      v.out_rows id,
      v.out_rows n.id,
      contains-add_node n g id,
    );
    in_rows = λ id. ground (
      arith,
      contains-ensure_row n.id id g.into,
      v.in_rows id,
      v.in_rows n.id,
      contains-add_node n g id,
    );
    out_linked = λ a b. rw (out-add_node, edges-add_node) (v.out_linked a b);
    in_linked = λ a b. rw (into-add_node, edges-add_node) (v.in_linked a b);
    nodes_distinct = ground (
      arith,
      distinct-keys-put n.id n g.nodes,
      keys-modify n.id (update_node n) g.nodes,
      v.nodes_distinct,
    );
    edges_distinct = rw edges-add_node v.edges_distinct;
  }
