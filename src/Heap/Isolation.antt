-- ===== src/Heap/Isolation.antt =====
-- `WithEvent` of graph/immutable.go writes to no cell that was there before.
use itt_engine.Prelude.{
  ◌≡◌, refl, ℕ, some, [], ◌∷◌, Str, str_key, Time, Float, get_elem?, arith, Option-cases, inl, inr,
  Bool-cases,
}
use itt_engine.Map
use itt_engine.Map.{Map}
use itt_engine.Graph.{
  NodeData, edge_key, count_out, count_in, seen_node, update_node, new_edge, accumulate,
}
use itt_engine.Immutable.{copy_node, widen}
use itt_engine.Heap.{
  Heap, Refs, no_refs, write_node, write_edge, place_node, place_edge, copy_nodes, copy_edges,
  deep_copy, add_node, ensure_node, write_at, touch, put_edge, add_edge, with_event,
}
use itt_engine.Heap.Cells.{
  IsKept, IsFresh, IsApart, write_node-IsKept, write_edge-IsKept, place_node-IsApart,
  place_edge-IsApart,
}

module _ {F : Type 0} (old : Heap F) where
  copy_nodes-IsApart :
      (m : Map Str ℕ) (g : Refs) (h : Heap F) (w : Refs × Heap F)
      → IsFresh old g
      → IsKept old h
      → copy_nodes m g h ≡ some w
      → IsApart old w
  unfolding copy_nodes
  copy_nodes-IsApart [] g h w fresh k runs =
      let same : (g, h) ≡ w = ground arith in rw (← same) (fresh, k)
  copy_nodes-IsApart ((j, p) ∷ m) g h w fresh k runs = elim (Option-cases (get_elem? h.nodes p)) [
    | inl bad ↦ absurd (ground arith)
    | inr (n, found) ↦
        let next = place_node (copy_node n) g h in
        let (fresh', k') = place_node-IsApart old (copy_node n) g h fresh k in
        copy_nodes-IsApart m next.0 next.1 w fresh' k' (ground arith)
  ]

  copy_edges-IsApart :
      (m : Map Str ℕ) (g : Refs) (h : Heap F) (w : Refs × Heap F)
      → IsFresh old g
      → IsKept old h
      → copy_edges m g h ≡ some w
      → IsApart old w
  unfolding copy_edges
  copy_edges-IsApart [] g h w fresh k runs =
      let same : (g, h) ≡ w = ground arith in rw (← same) (fresh, k)
  copy_edges-IsApart ((j, p) ∷ m) g h w fresh k runs = elim (Option-cases (get_elem? h.edges p)) [
    | inl bad ↦ absurd (ground arith)
    | inr (e, found) ↦ elim (Option-cases (place_edge e g h)) [
      | inl bad ↦ absurd (ground arith)
      | inr (next, placed) ↦
          let (fresh', k') = place_edge-IsApart old e g h next fresh k placed in
          copy_edges-IsApart m next.0 next.1 w fresh' k' (ground arith)
    ]
  ]

  add_node-IsApart :
      (n : NodeData F) (g : Refs) (h : Heap F) (w : Refs × Heap F)
      → IsFresh old g
      → IsKept old h
      → add_node n g h ≡ some w
      → IsApart old w
  unfolding add_node
  add_node-IsApart n g h w fresh k runs = elim (Option-cases (Map.get n.id g.nodes)) [
    | inl missing ↦
        let same : place_node n g h ≡ w = ground arith in
        rw (← same) (place_node-IsApart old n g h fresh k)
    | inr (p, there) ↦ elim (Option-cases (write_node p (update_node n) h)) [
      | inl bad ↦ absurd (ground arith)
      | inr (h', written) ↦
          let same : (g, h') ≡ w = ground arith in
          rw (← same) (
            fresh,
            write_node-IsKept old p (update_node n) h h' (fresh.nodes n.id p there) k written,
          )
    ]
  ]

  ensure_node-IsApart :
      (id : Str) (ts : Time) (g : Refs) (h : Heap F) (w : Refs × Heap F)
      → IsFresh old g
      → IsKept old h
      → ensure_node id ts g h ≡ some w
      → IsApart old w
  unfolding ensure_node
  ensure_node-IsApart id ts g h w fresh k runs = elim (Bool-cases (Map.contains id g.nodes)) [
    | inl there ↦ let same : (g, h) ≡ w = ground arith in rw (← same) (fresh, k)
    | inr missing ↦ add_node-IsApart (seen_node id ts) g h w fresh k (ground arith)
  ]

  write_at-IsKept :
      (id : Str) (f : NodeData F → NodeData F) (g : Refs) (h h' : Heap F)
      → IsFresh old g
      → IsKept old h
      → write_at id f g h ≡ some h'
      → IsKept old h'
  unfolding write_at
  write_at-IsKept id f g h h' fresh k runs = elim (Option-cases (Map.get id g.nodes)) [
    | inl bad ↦ absurd (ground arith)
    | inr (p, there) ↦ write_node-IsKept old p f h h' (fresh.nodes id p there) k (ground arith)
  ]

  touch-IsKept :
      (id : Str) (ts : Time) (g : Refs) (h h' : Heap F)
      → IsFresh old g
      → IsKept old h
      → touch id ts g h ≡ some h'
      → IsKept old h'
  unfolding touch
  touch-IsKept id ts g h h' fresh k runs = elim (Option-cases (Map.get id g.nodes)) [
    | inl missing ↦ let same : h ≡ h' = ground arith in rw (← same) k
    | inr (p, there) ↦
        write_node-IsKept old p (widen ts) h h' (fresh.nodes id p there) k (ground arith)
  ]

  deep_copy-IsApart : (src : Refs) (w : Refs × Heap F) → deep_copy src old ≡ some w → IsApart old w
  unfolding deep_copy Map.get
  deep_copy-IsApart src w runs =
      let none_yet : IsFresh old no_refs = record {
        nodes = λ k p found. absurd (ground arith);
        edges = λ k p found. absurd (ground arith);
      } in
      let all : IsKept old old = record {
        nodes = λ p low. refl;
        edges = λ p low. refl;
        more_nodes = omega arith;
        more_edges = omega arith;
      } in
      elim (Option-cases (copy_nodes src.nodes no_refs old)) [
        | inl bad ↦ absurd (ground arith)
        | inr (copied, loops) ↦
            let (fresh, k) = copy_nodes-IsApart src.nodes no_refs old copied none_yet all loops in
            copy_edges-IsApart src.edges copied.0 copied.1 w fresh k (ground arith)
      ]

module _ {F : Type 0} ⦃float : Float F⦄ (from to : Str) (weight : F) (type : Str) (ts : Time)
    (old : Heap F) where
  put_edge-IsApart :
      (g : Refs) (h : Heap F) (w : Refs × Heap F)
      → IsFresh old g
      → IsKept old h
      → put_edge from to weight type ts g h ≡ some w
      → IsApart old w
  unfolding put_edge
  put_edge-IsApart g h w fresh k runs =
      let key = edge_key from to in
      let new = new_edge from to weight type ts in
      elim (Option-cases (Map.get key g.edges)) [
        | inr (p, there) ↦ elim (Option-cases (write_edge p (accumulate weight ts) h)) [
          | inl bad ↦ absurd (ground arith)
          | inr (h', written) ↦
              let same : (g, h') ≡ w = ground arith in
              rw (← same) (
                fresh,
                write_edge-IsKept old p (accumulate weight ts) h h' (fresh.edges key p there) k
                    written,
              )
        ]
        | inl missing ↦ elim (Option-cases (place_edge new g h)) [
          | inl bad ↦ absurd (ground arith)
          | inr (placed, first) ↦
              let (fresh', k') = place_edge-IsApart old new g h placed fresh k first in
              elim (Option-cases (write_at from count_out placed.0 placed.1)) [
                | inl bad ↦ absurd (ground arith)
                | inr (h1, second) ↦ elim (Option-cases (write_at to count_in placed.0 h1)) [
                  | inl bad ↦ absurd (ground arith)
                  | inr (h2, third) ↦
                      let k1 =
                        write_at-IsKept old from count_out placed.0 placed.1 h1 fresh' k' second in
                      let k2 = write_at-IsKept old to count_in placed.0 h1 h2 fresh' k1 third in
                      let same : (placed.0, h2) ≡ w = ground arith in rw (← same) (fresh', k2)
                ]
              ]
        ]
      ]

  add_edge-IsApart :
      (g : Refs) (h : Heap F) (w : Refs × Heap F)
      → IsFresh old g
      → IsKept old h
      → add_edge from to weight type ts g h ≡ some w
      → IsApart old w
  unfolding add_edge
  add_edge-IsApart g h w fresh k runs = elim (Option-cases (ensure_node from ts g h)) [
    | inl bad ↦ absurd (ground arith)
    | inr (one, first) ↦ elim (Option-cases (ensure_node to ts one.0 one.1)) [
      | inl bad ↦ absurd (ground arith)
      | inr (two, second) ↦
          let (fresh1, k1) = ensure_node-IsApart old from ts g h one fresh k first in
          let (fresh2, k2) = ensure_node-IsApart old to ts one.0 one.1 two fresh1 k1 second in
          put_edge-IsApart two.0 two.1 w fresh2 k2 (ground arith)
    ]
  ]

  -- The graph that `WithEvent` returns has no cell of the heap before the call, and every cell of
  -- that heap holds what it held.
  pub with_event-IsApart :
      (ig : Refs) (w : Refs × Heap F)
      → with_event from to weight type ts ig old ≡ some w
      → IsApart old w
  unfolding with_event
  with_event-IsApart ig w runs = elim (Option-cases (deep_copy ig old)) [
    | inl bad ↦ absurd (ground arith)
    | inr (cp, copied) ↦ elim (Option-cases (add_edge from to weight type ts cp.0 cp.1)) [
      | inl bad ↦ absurd (ground arith)
      | inr (grown, added) ↦ elim (Option-cases (touch from ts grown.0 grown.1)) [
        | inl bad ↦ absurd (ground arith)
        | inr (h1, first) ↦ elim (Option-cases (touch to ts grown.0 h1)) [
          | inl bad ↦ absurd (ground arith)
          | inr (h2, second) ↦
              let (fresh, k) = deep_copy-IsApart old ig cp copied in
              let (fresh', k') = add_edge-IsApart cp.0 cp.1 grown fresh k added in
              let k1 = touch-IsKept old from ts grown.0 grown.1 h1 fresh' k' first in
              let k2 = touch-IsKept old to ts grown.0 h1 h2 fresh' k1 second in
              let same : (grown.0, h2) ≡ w = ground arith in rw (← same) (fresh', k2)
        ]
      ]
    ]
  ]
