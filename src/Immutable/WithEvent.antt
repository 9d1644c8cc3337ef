-- ===== src/Immutable/WithEvent.antt =====
-- `WithEvent` of graph/immutable.go: it does not panic on a valid graph, and leaves a valid graph.
use itt_engine.Prelude.{
  ◌≡◌, refl, true, Option, none, some, ite, Str, Str-discrete, str_key, arith, Time, Float, ◌≤◌,
  ◌⊎◌, inl, inr, Option-cases, some-injective, sym, ◌∙◌,
}
use itt_engine.Map
use itt_engine.Map.{Map, OnSome, is_some, keys, distinct}
use itt_engine.Map.Laws.{get-modify, keys-modify, map_option}
use itt_engine.Graph.{
  Graph, NodeData, edge_key, get_edge, get_node, accumulate, new_edge, ensure_node,
}
use itt_engine.Graph.Valid.{IsValid, IsPlaced-mono}
use itt_engine.Graph.AddEdge.{
  add_edge_graph, add_edge-some, add_edge_graph-IsValid, get-edges-put_edge_graph,
  edges-ensure_node, get-nodes-ensure_node, contains-put_edge_graph,
}
use itt_engine.Immutable.{widen, touch, with_event}
use itt_engine.Immutable.Copy.{
  deep_copy_graph, deep_copy-some, deep_copy_graph-IsValid, get-edges-deep_copy,
  get-nodes-deep_copy,
}

module _ {F : Type 0} (id : Str) (ts : Time) (g : Graph F) where
  touch-IsValid : IsValid g → IsValid (touch id ts g)
  unfolding touch widen
  touch-IsValid v = record {
    nodes_named = λ j. ground (arith, get-modify id j (widen ts) g.nodes, v.nodes_named j);
    edges_placed = λ k.
        IsPlaced-mono g.nodes (Map.modify id (widen ts) g.nodes) k (Map.get k g.edges)
          (λ j h. ground (arith, get-modify id j (widen ts) g.nodes)) (v.edges_placed k);
    out_rows = λ j. ground (arith, get-modify id j (widen ts) g.nodes, v.out_rows j);
    in_rows = λ j. ground (arith, get-modify id j (widen ts) g.nodes, v.in_rows j);
    out_linked = v.out_linked;
    in_linked = v.in_linked;
    nodes_distinct = ground (arith, keys-modify id (widen ts) g.nodes, v.nodes_distinct);
    edges_distinct = v.edges_distinct;
  }

  edges-touch : (touch id ts g).edges ≡ g.edges
  unfolding touch
  edges-touch = refl

  pub get-nodes-touch :
      (j : Str)
      → Map.get j (touch id ts g).nodes
        ≡ ite (Str-discrete id j) (map_option (widen ts) (Map.get j g.nodes)) (Map.get j g.nodes)
  unfolding touch
  get-nodes-touch j = get-modify id j (widen ts) g.nodes

module _ {F : Type 0} ⦃float : Float F⦄ (from to : Str) (weight : F) (type : Str) (ts : Time)
    (g : Graph F) where
  -- the edges after `AddEdge`
  pub get-edges-add_edge_graph :
      (k : Str)
      → Map.get k (add_edge_graph from to weight type ts g).edges
        ≡ ite
            (Str-discrete (edge_key from to) k)
            (elim (Map.get k g.edges) [
              | none ↦ some (new_edge from to weight type ts)
              | some e ↦ some (accumulate weight ts e)
            ])
            (Map.get k g.edges)
  unfolding add_edge_graph
  get-edges-add_edge_graph k = ground (
    arith,
    get-edges-put_edge_graph from to weight type ts (ensure_node to ts (ensure_node from ts g)) k,
    edges-ensure_node to ts (ensure_node from ts g),
    edges-ensure_node from ts g,
  )

  pub contains-add_edge_graph :
      (id : Str)
      → Map.contains id (add_edge_graph from to weight type ts g).nodes ≡ (
          ite (Str-discrete from id) true (ite (Str-discrete to id) true (Map.contains id g.nodes)))
  unfolding add_edge_graph
  contains-add_edge_graph id = ground (
    arith,
    contains-put_edge_graph from to weight type ts (ensure_node to ts (ensure_node from ts g)) id,
    get-nodes-ensure_node to ts (ensure_node from ts g) id,
    get-nodes-ensure_node from ts g id,
  )

module _ {F : Type 0} ⦃float : Float F⦄ (from to : Str) (weight : F) (type : Str) (ts : Time)
    (g : Graph F) where
  -- what `WithEvent` returns for a valid graph
  unfoldable pub with_event_graph : Graph F
  with_event_graph =
      touch to ts (touch from ts (add_edge_graph from to weight type ts (deep_copy_graph g)))

  module _ (v : IsValid g) where
    pub with_event-some : with_event from to weight type ts g ≡ some with_event_graph
    unfolding with_event with_event_graph
    with_event-some = rw (
      deep_copy-some g v,
      add_edge-some from to weight type ts (deep_copy_graph g) (deep_copy_graph-IsValid g v),
    )

    pub with_event_graph-IsValid : IsValid with_event_graph
    unfolding with_event_graph
    with_event_graph-IsValid = touch-IsValid to ts _ (
        touch-IsValid from ts _ (
          add_edge_graph-IsValid from to weight type ts (deep_copy_graph g)
            (deep_copy_graph-IsValid g v)))

    pub get-edges-with_event_graph :
        (k : Str)
        → Map.get k with_event_graph.edges
          ≡ ite
              (Str-discrete (edge_key from to) k)
              (elim (Map.get k g.edges) [
                | none ↦ some (new_edge from to weight type ts)
                | some e ↦ some (accumulate weight ts e)
              ])
              (Map.get k g.edges)
    unfolding with_event_graph touch
    get-edges-with_event_graph k =
        rw (← get-edges-deep_copy g v k)
          (get-edges-add_edge_graph from to weight type ts (deep_copy_graph g) k)

    pub contains-with_event_graph :
        (id : Str)
        → Map.contains id with_event_graph.nodes
          ≡ ite
              (Str-discrete from id)
              true
              (ite (Str-discrete to id) true (Map.contains id g.nodes))
    unfolding with_event_graph
    contains-with_event_graph id = ground (
      arith,
      get-nodes-touch to ts
          (touch from ts (add_edge_graph from to weight type ts (deep_copy_graph g))) id,
      get-nodes-touch from ts (add_edge_graph from to weight type ts (deep_copy_graph g)) id,
      contains-add_edge_graph from to weight type ts (deep_copy_graph g) id,
      get-nodes-deep_copy g v id,
    )

    -- `WithEvent` does not panic on a valid graph. The new graph is valid; its edge under the key
    -- of the event is the old one with the event added, or a new one; every other edge is as it
    -- was; and its nodes are the old ones and the two endpoints.
    pub with_event_lem :
        (g' : Graph F) × (with_event from to weight type ts g ≡ some g')
        × IsValid g'
        × ((a b : Str)
            → get_edge a b g'
              ≡ ite
                  (Str-discrete (edge_key from to) (edge_key a b))
                  (elim (get_edge a b g) [
                    | none ↦ some (new_edge from to weight type ts)
                    | some e ↦ some (accumulate weight ts e)
                  ])
                  (get_edge a b g))
        × ((id : Str)
            → is_some (get_node id g')
              ≡ ite
                  (Str-discrete from id)
                  true
                  (ite (Str-discrete to id) true (is_some (get_node id g))))
    unfolding get_edge get_node
    with_event_lem = (
      with_event_graph,
      with_event-some,
      with_event_graph-IsValid,
      λ a b. get-edges-with_event_graph (edge_key a b),
      contains-with_event_graph,
    )

-- After an event both endpoints have been seen no later, and no earlier, than the event.
abbrev pub Covers : {F : Type 0} → Time → NodeData F → Type 0
Covers ts n = (n.first_seen ≤ ts) × (ts ≤ n.last_seen)

module _ {F : Type 0} (ts : Time) where
  widen-Covers : (n : NodeData F) → Covers ts (widen ts n)
  unfolding widen
  widen-Covers n = ground arith

  Covers-widen : (n : NodeData F) → Covers ts n → Covers ts (widen ts n)
  unfolding widen
  Covers-widen n h = ground arith

  Covers-touched :
      (from to id : Str) (o : Option (NodeData F))
      → (id ≡ from) ⊎ (id ≡ to)
      → OnSome (Covers ts) (
          ite
            (Str-discrete to id)
            (map_option (widen ts) (ite (Str-discrete from id) (map_option (widen ts) o) o))
            (ite (Str-discrete from id) (map_option (widen ts) o) o))
  Covers-touched from to id none h = ground arith
  Covers-touched from to id (some n) h =
      ground (arith, widen-Covers n, Covers-widen (widen ts n), widen-Covers (widen ts n))

module _ {F : Type 0} ⦃float : Float F⦄ (from to : Str) (weight : F) (type : Str) (ts : Time)
    (g : Graph F) where
  -- On a valid graph, the two endpoints of an event are nodes of the new graph, first seen no
  -- later and last seen no earlier than the event.
  pub with_event-Covers :
      (id : Str) {g' : Graph F}
      → IsValid g
      → with_event from to weight type ts g ≡ some g'
      → (id ≡ from) ⊎ (id ≡ to)
      → (n : NodeData F) × (get_node id g' ≡ some n) × Covers ts n
  unfolding get_node with_event_graph
  with_event-Covers id {g'} v e h =
      let added = add_edge_graph from to weight type ts (deep_copy_graph g) in
      let same : with_event_graph from to weight type ts g ≡ g' =
        some-injective _ _ (sym (with_event-some from to weight type ts g v) ∙ e) in
      let covers = Covers-touched ts from to id (Map.get id added.nodes) h in
      let there = contains-with_event_graph from to weight type ts g v id in
      let touched = get-nodes-touch to ts (touch from ts added) id in
      let first = get-nodes-touch from ts added id in
      rw (← same)
        (elim (Option-cases (Map.get id (with_event_graph from to weight type ts g).nodes)) [
          | inl gone ↦ absurd (ground (arith, there))
          | inr (n, found) ↦ (n, found, ground (arith, touched, first, covers))
        ])
