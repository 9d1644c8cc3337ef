-- ===== src/Graph/AddEdge.antt =====
-- `AddEdge` of graph/graph.go: on a valid graph it never writes to a nil map, and it keeps the
-- graph valid.
use itt_engine.Prelude.{
  ◌≡◌, true, none, some, ite, Str, Str-discrete, str_key, arith, Time, Float, if◌then◌else◌,
  Bool-cases, inl, inr,
}
use itt_engine.Map
use itt_engine.Map.{Map, OnSome, is_some, keys, distinct}
use itt_engine.Map.Laws.{get-put, get-modify, keys-modify, distinct-keys-put, map_option}
use itt_engine.Graph.{
  Graph, Rows, edge_key, link, seen_node, ensure_node, count_out, count_in, put_edge, add_edge,
  accumulate, new_edge,
}
use itt_engine.Graph.Valid.{
  IsValid, linked, joins, IsPlaced, IsPlaced-mono, add_node-IsValid, get-nodes-add_node,
  edges-add_node,
}

-- what `link` leaves where the row is there
unfoldable pub link_rows : Str → Str → Rows → Rows
link_rows a b rows = elim (Map.get a rows) [
  | none ↦ rows
  | some row ↦ Map.put a (Map.put b true row) rows
]

pub link-some :
    (a b : Str) (rows : Rows)
    → Map.contains a rows ≡ true
    → link a b rows ≡ some (link_rows a b rows)
unfolding link link_rows
link-some a b rows h = ground arith

pub contains-link_rows :
    (a b j : Str) (rows : Rows) → Map.contains j (link_rows a b rows) ≡ Map.contains j rows
unfolding link_rows
contains-link_rows a b j rows = grind (arith, get-put)

pub linked-link_rows :
    (a b x y : Str) (rows : Rows)
    → Map.contains a rows ≡ true
    → linked x y (link_rows a b rows)
      ≡ ite (Str-discrete a x) (ite (Str-discrete b y) true (linked x y rows)) (linked x y rows)
unfolding link_rows
linked-link_rows a b x y rows h = grind (arith, get-put)

module _ {F : Type 0} ⦃float : Float F⦄ (from to : Str) (weight : F) (type : Str) (ts : Time) where
  -- what `put_edge` leaves where no row is missing
  unfoldable pub put_edge_graph : Graph F → Graph F
  put_edge_graph g =
      if Map.contains (edge_key from to) g.edges
      then record g { edges = Map.modify (edge_key from to) (accumulate weight ts) g.edges }
      else record g {
        edges = Map.put (edge_key from to) (new_edge from to weight type ts) g.edges;
        out = link_rows from to g.out;
        into = link_rows to from g.into;
        nodes = Map.modify to count_in (Map.modify from count_out g.nodes);
      }

  -- what `AddEdge` leaves on a valid graph
  unfoldable pub add_edge_graph : Graph F → Graph F
  add_edge_graph g = put_edge_graph (ensure_node to ts (ensure_node from ts g))

  module _ (g : Graph F) where
    put_edge-some :
        IsValid g
        → Map.contains from g.nodes ≡ true
        → Map.contains to g.nodes ≡ true
        → put_edge from to weight type ts g ≡ some (put_edge_graph g)
    unfolding put_edge put_edge_graph
    put_edge-some v p q =
        ground
          (arith, link-some from to g.out, link-some to from g.into, v.out_rows from, v.in_rows to)

    pub get-edges-put_edge_graph :
        (k : Str)
        → Map.get k (put_edge_graph g).edges
          ≡ ite
              (Str-discrete (edge_key from to) k)
              (elim (Map.get k g.edges) [
                | none ↦ some (new_edge from to weight type ts)
                | some e ↦ some (accumulate weight ts e)
              ])
              (Map.get k g.edges)
    unfolding put_edge_graph
    get-edges-put_edge_graph k = ground (
      arith,
      get-put (edge_key from to) k (new_edge from to weight type ts) g.edges,
      get-modify (edge_key from to) k (accumulate weight ts) g.edges,
    )

    pub get-nodes-put_edge_graph :
        (id : Str)
        → Map.get id (put_edge_graph g).nodes ≡ (
            if Map.contains (edge_key from to) g.edges
            then Map.get id g.nodes
            else ite
                (Str-discrete to id)
                (map_option count_in (
                  ite
                    (Str-discrete from id)
                    (map_option count_out (Map.get id g.nodes))
                    (Map.get id g.nodes)))
                (ite
                  (Str-discrete from id)
                  (map_option count_out (Map.get id g.nodes))
                  (Map.get id g.nodes)))
    unfolding put_edge_graph
    get-nodes-put_edge_graph id = ground (
      arith,
      get-modify to id count_in (Map.modify from count_out g.nodes),
      get-modify from id count_out g.nodes,
    )

    pub contains-put_edge_graph :
        (id : Str) → Map.contains id (put_edge_graph g).nodes ≡ Map.contains id g.nodes
    contains-put_edge_graph id = ground (arith, get-nodes-put_edge_graph id)

    edges-IsPlaced-put_edge_graph :
        IsValid g
        → Map.contains from g.nodes ≡ true
        → Map.contains to g.nodes ≡ true
        → (k : Str)
        → OnSome (IsPlaced (put_edge_graph g).nodes k) (Map.get k (put_edge_graph g).edges)
    unfolding accumulate
    edges-IsPlaced-put_edge_graph v p q k =
        let old =
          IsPlaced-mono g.nodes (put_edge_graph g).nodes k (Map.get k g.edges)
            (λ id h. ground (arith, contains-put_edge_graph id)) (v.edges_placed k) in
        ground (
          arith,
          get-edges-put_edge_graph k,
          contains-put_edge_graph from,
          contains-put_edge_graph to,
        )

    pub out_linked-put_edge_graph :
        IsValid g
        → Map.contains from g.nodes ≡ true
        → (a b : Str)
        → linked a b (put_edge_graph g).out
          ≡ joins a b (Map.get (edge_key a b) (put_edge_graph g).edges)
    unfolding put_edge_graph accumulate
    out_linked-put_edge_graph v p a b = ground (
      arith,
      linked-link_rows from to a b g.out,
      v.out_rows from,
      v.out_linked a b,
      get-edges-put_edge_graph (edge_key a b),
    )

    in_linked-put_edge_graph :
        IsValid g
        → Map.contains to g.nodes ≡ true
        → (a b : Str)
        → linked b a (put_edge_graph g).into
          ≡ joins a b (Map.get (edge_key a b) (put_edge_graph g).edges)
    unfolding put_edge_graph accumulate
    in_linked-put_edge_graph v q a b = ground (
      arith,
      linked-link_rows to from b a g.into,
      v.in_rows to,
      v.in_linked a b,
      get-edges-put_edge_graph (edge_key a b),
    )

    put_edge_graph-IsValid :
        IsValid g
        → Map.contains from g.nodes ≡ true
        → Map.contains to g.nodes ≡ true
        → IsValid (put_edge_graph g)
    unfolding put_edge_graph
    put_edge_graph-IsValid v p q = record {
      nodes_named = λ id. ground (arith, get-nodes-put_edge_graph id, v.nodes_named id);
      edges_placed = edges-IsPlaced-put_edge_graph v p q;
      out_rows = λ id.
          ground
            (arith, contains-put_edge_graph id, contains-link_rows from to id g.out, v.out_rows id);
      in_rows = λ id.
          ground
            (arith, contains-put_edge_graph id, contains-link_rows to from id g.into, v.in_rows id);
      out_linked = out_linked-put_edge_graph v p;
      in_linked = in_linked-put_edge_graph v q;
      nodes_distinct = ground (
        arith,
        v.nodes_distinct,
        keys-modify to count_in (Map.modify from count_out g.nodes),
        keys-modify from count_out g.nodes,
      );
      edges_distinct = ground (
        arith,
        v.edges_distinct,
        keys-modify (edge_key from to) (accumulate weight ts) g.edges,
        distinct-keys-put (edge_key from to) (new_edge from to weight type ts) g.edges,
      );
    }

module _ {F : Type 0} (id : Str) (ts : Time) (g : Graph F) where
  pub ensure_node-IsValid : IsValid g → IsValid (ensure_node id ts g)
  unfolding ensure_node
  ensure_node-IsValid v = elim (Bool-cases (Map.contains id g.nodes)) [
    | inl h ↦ rw (h, ensure_node) v
    | inr h ↦ rw (h, ensure_node) (add_node-IsValid (seen_node id ts) g v)
  ]

  -- the node is there afterwards, and no other comes or goes
  pub get-nodes-ensure_node :
      (j : Str)
      → Map.get j (ensure_node id ts g).nodes
        ≡ ite
            (Str-discrete id j)
            (elim (Map.get j g.nodes) [ none ↦ some (seen_node id ts) | some n ↦ some n ])
            (Map.get j g.nodes)
  unfolding ensure_node
  get-nodes-ensure_node j = ground (arith, get-nodes-add_node (seen_node id ts) g j)

  pub edges-ensure_node : (ensure_node id ts g).edges ≡ g.edges
  unfolding ensure_node
  edges-ensure_node = ground (arith, edges-add_node (seen_node id ts) g)

module _ {F : Type 0} ⦃float : Float F⦄ (from to : Str) (weight : F) (type : Str) (ts : Time)
    (g : Graph F) (v : IsValid g) where
  both_there :
      let g' = ensure_node to ts (ensure_node from ts g) in
      IsValid g' × (Map.contains from g'.nodes ≡ true) × (Map.contains to g'.nodes ≡ true)
  both_there = (
    ensure_node-IsValid to ts (ensure_node from ts g) (ensure_node-IsValid from ts g v),
    ground (
      arith,
      get-nodes-ensure_node to ts (ensure_node from ts g) from,
      get-nodes-ensure_node from ts g from,
    ),
    ground (arith, get-nodes-ensure_node to ts (ensure_node from ts g) to),
  )

  pub add_edge-some :
      add_edge from to weight type ts g ≡ some (add_edge_graph from to weight type ts g)
  unfolding add_edge add_edge_graph
  add_edge-some =
      let (v', p, q) = both_there in
      put_edge-some from to weight type ts (ensure_node to ts (ensure_node from ts g)) v' p q

  pub add_edge_graph-IsValid : IsValid (add_edge_graph from to weight type ts g)
  unfolding add_edge_graph
  add_edge_graph-IsValid =
      let (v', p, q) = both_there in
      put_edge_graph-IsValid from to weight type ts (ensure_node to ts (ensure_node from ts g)) v' p
        q

  -- On a valid graph `AddEdge` does not panic, and leaves a valid graph.
  pub add_edge-IsValid : (g' : Graph F) × (add_edge from to weight type ts g ≡ some g') × IsValid g'
  add_edge-IsValid =
      (add_edge_graph from to weight type ts g, add_edge-some, add_edge_graph-IsValid)
