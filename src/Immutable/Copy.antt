-- ===== src/Immutable/Copy.antt =====
-- `deepCopyGraph` of graph/immutable.go: on a valid graph it does not panic, and the copy answers
-- every lookup as the source does.
use itt_engine.Prelude.{
  ◌≡◌, refl, Option-cases, inl, inr, true, false, Option, none, some, Str, str_key, arith, [],
}
use itt_engine.Map
use itt_engine.Map.{Map, OnSome, AllEntries, is_some, keys, distinct}
use itt_engine.Map.Laws.{map_option}
use itt_engine.Map.Entries.{entries_of_get, copy_into, get-copy_into}
use itt_engine.Graph.{Graph, NodeData, EdgeData, edge_key, new, get_edge, get_node}
use itt_engine.Graph.Valid.{IsValid, linked, joins, IsPlaced, IsPlaced-mono}
use itt_engine.Immutable.{copy_node, copy_attributes, copy_nodes, deep_copy}
use itt_engine.Immutable.CopyLoops.{
  IsNamed, IsReady, get-copy_nodes, rows-copy_nodes, keys-copy_nodes, copy_edges_graph,
  copy_edges-some, get-copy_edges_graph, rows-copy_edges_graph, linked-copy_edges_graph,
  keys-copy_edges_graph,
}

module _ {F : Type 0} where
  -- `n.Attributes[k]`, where there is a map
  abbrev pub attribute : Str → NodeData F → Option F
  attribute k n = elim n.attributes [ none ↦ none | some m ↦ Map.get k m ]

  -- what `deepCopyGraph` returns for a valid graph
  unfoldable pub deep_copy_graph : Graph F → Graph F
  deep_copy_graph src = copy_edges_graph src.edges (copy_nodes src.nodes new)

  -- The attributes of a node's copy, where the node has some with no key twice, answer every
  -- lookup as the node's own.
  pub copy_node-attributes :
      (n : NodeData F) (m : Map Str F) (k : Str)
      → n.attributes ≡ some m
      → distinct (keys m) ≡ true
      → (m' : Map Str F) × ((copy_node n).attributes ≡ some m') × (Map.get k m' ≡ Map.get k m)
  unfolding copy_node copy_attributes Map.get
  copy_node-attributes n m k e d =
      (copy_into m [], ground arith, ground (arith, get-copy_into m [] k))

  -- a node with the fields of another, whose attributes answer every lookup as the other's
  abbrev pub IsCopy : NodeData F → NodeData F → Type 0
  IsCopy n c =
      (c.id ≡ n.id)
      × (c.type ≡ n.type)
      × (c.degree ≡ n.degree)
      × (c.in_degree ≡ n.in_degree)
      × (c.out_degree ≡ n.out_degree)
      × (c.first_seen ≡ n.first_seen)
      × (c.last_seen ≡ n.last_seen)
      × (is_some c.attributes ≡ is_some n.attributes)
      × ((k : Str) → attribute k c ≡ attribute k n)

  -- what a lookup in a copy finds, by what it finds in the source
  abbrev pub Corresponds : Option (NodeData F) → Option (NodeData F) → Type 0
  Corresponds none found = found ≡ none
  Corresponds (some n) found = (c : NodeData F) × (found ≡ some c) × IsCopy n c

  copy_node-IsCopy :
      (n : NodeData F)
      → ((m : Map Str F) → n.attributes ≡ some m → distinct (keys m) ≡ true)
      → IsCopy n (copy_node n)
  unfolding copy_node copy_attributes Map.get
  copy_node-IsCopy n tidy = (
    refl,
    refl,
    refl,
    refl,
    refl,
    refl,
    refl,
    ground arith,
    λ k. elim (Option-cases n.attributes) [
      | inl bare ↦ ground arith
      | inr (m, found) ↦ ground (arith, get-copy_into m [] k, tidy m found)
    ],
  )

  module _ (src : Graph F) (v : IsValid src) where
    named : AllEntries IsNamed src.nodes
    named = entries_of_get IsNamed src.nodes v.nodes_distinct v.nodes_named

    -- the rows that the first loop leaves
    rows_made :
        (id b : Str)
        → let g = copy_nodes src.nodes new in
          (Map.contains id g.out ≡ Map.contains id src.nodes)
          × (Map.contains id g.into ≡ Map.contains id src.nodes)
          × (linked id b g.out ≡ false)
          × (linked id b g.into ≡ false)
          × (g.edges ≡ [])
    unfolding Map.get
    rows_made id b = ground (arith, rows-copy_nodes src.nodes new id b named)

    ready : AllEntries (IsReady (copy_nodes src.nodes new)) src.edges
    ready =
        entries_of_get (IsReady (copy_nodes src.nodes new)) src.edges v.edges_distinct
          (λ k. ready_at k (Map.get k src.edges) (v.edges_placed k))
      where
        ready_at :
            (k : Str) (e : Option (EdgeData F))
            → OnSome (IsPlaced src.nodes k) e
            → OnSome (IsReady (copy_nodes src.nodes new) k) e
        ready_at k none h = tt
        ready_at k (some e) h = ground (arith, rows_made e.from e.from, rows_made e.to e.to)

    pub deep_copy-some : deep_copy src ≡ some (deep_copy_graph src)
    unfolding deep_copy deep_copy_graph
    deep_copy-some = copy_edges-some src.edges (copy_nodes src.nodes new) ready

    pub get-nodes-deep_copy :
        (id : Str)
        → Map.get id (deep_copy_graph src).nodes ≡ map_option copy_node (Map.get id src.nodes)
    unfolding deep_copy_graph Map.get
    get-nodes-deep_copy id = ground (
      arith,
      rows-copy_edges_graph src.edges (copy_nodes src.nodes new) id,
      get-copy_nodes src.nodes new id named,
      v.nodes_distinct,
    )

    pub get-edges-deep_copy :
        (k : Str) → Map.get k (deep_copy_graph src).edges ≡ Map.get k src.edges
    unfolding deep_copy_graph Map.get
    get-edges-deep_copy k = ground (
      arith,
      get-copy_edges_graph src.edges (copy_nodes src.nodes new) k ready,
      v.edges_distinct,
      rows_made k k,
    )

    pub linked-deep_copy :
        (a b : Str)
        → (linked a b (deep_copy_graph src).out ≡ joins a b (Map.get (edge_key a b) src.edges))
          × (linked b a (deep_copy_graph src).into ≡ joins a b (Map.get (edge_key a b) src.edges))
    unfolding deep_copy_graph
    linked-deep_copy a b = ground (
      arith,
      linked-copy_edges_graph src.edges (copy_nodes src.nodes new) a b ready,
      v.edges_distinct,
      rows_made a b,
      rows_made b a,
    )

    rows-deep_copy :
        (id : Str)
        → (Map.contains id (deep_copy_graph src).out ≡ Map.contains id src.nodes)
          × (Map.contains id (deep_copy_graph src).into ≡ Map.contains id src.nodes)
    unfolding deep_copy_graph
    rows-deep_copy id =
        ground
          (arith, rows-copy_edges_graph src.edges (copy_nodes src.nodes new) id, rows_made id id)

    keys-deep_copy :
        (distinct (keys (deep_copy_graph src).nodes) ≡ true)
        × (distinct (keys (deep_copy_graph src).edges) ≡ true)
    unfolding deep_copy_graph distinct
    keys-deep_copy = ground (
      arith,
      rows-copy_edges_graph src.edges (copy_nodes src.nodes new) [],
      keys-copy_nodes src.nodes new,
      keys-copy_edges_graph src.edges (copy_nodes src.nodes new),
      rows_made [] [],
    )

    -- the copy is valid again
    pub deep_copy_graph-IsValid : IsValid (deep_copy_graph src)
    unfolding copy_node
    deep_copy_graph-IsValid = record {
      nodes_named = λ id. ground (arith, get-nodes-deep_copy id, v.nodes_named id);
      edges_placed = λ k. rw (get-edges-deep_copy k) (
          IsPlaced-mono src.nodes (deep_copy_graph src).nodes k (Map.get k src.edges)
            (λ id h. ground (arith, get-nodes-deep_copy id)) (v.edges_placed k));
      out_rows = λ id. ground (arith, rows-deep_copy id, get-nodes-deep_copy id);
      in_rows = λ id. ground (arith, rows-deep_copy id, get-nodes-deep_copy id);
      out_linked = λ a b. rw (get-edges-deep_copy (edge_key a b)) ((linked-deep_copy a b).0);
      in_linked = λ a b. rw (get-edges-deep_copy (edge_key a b)) ((linked-deep_copy a b).1);
      nodes_distinct = keys-deep_copy.0;
      edges_distinct = keys-deep_copy.1;
    }

    -- On a valid graph none of whose nodes has an attribute twice, `deepCopyGraph` does not panic. The
    -- copy is valid, and holds every edge as it was; it has just the nodes of the source, each with
    -- the same fields and attributes.
    pub deep_copy_lem :
        ((id : Str) (n : NodeData F) (m : Map Str F)
          → get_node id src ≡ some n
          → n.attributes ≡ some m
          → distinct (keys m) ≡ true)
        → (dst : Graph F) × (deep_copy src ≡ some dst)
          × IsValid dst
          × ((from to : Str) → get_edge from to dst ≡ get_edge from to src)
          × ((id : Str) → Corresponds (get_node id src) (get_node id dst))
    unfolding get_edge get_node
    deep_copy_lem tidy = (
      deep_copy_graph src,
      deep_copy-some,
      deep_copy_graph-IsValid,
      λ from to. get-edges-deep_copy (edge_key from to),
      λ id. copied id (Map.get id src.nodes) refl,
    )
      where
        copied :
            (id : Str) (found : Option (NodeData F))
            → Map.get id src.nodes ≡ found
            → Corresponds found (Map.get id (deep_copy_graph src).nodes)
        copied id none missing = ground (arith, get-nodes-deep_copy id)
        copied id (some n) there = (
          copy_node n,
          ground (arith, get-nodes-deep_copy id),
          copy_node-IsCopy n (λ m. tidy id n m there),
        )
