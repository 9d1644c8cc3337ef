-- ===== src/Heap/Refine.antt =====
-- `WithEvent` of graph/immutable.go through pointers beside the function on graphs as values.
use itt_engine.Prelude.{
  ◌≡◌, refl, true, none, some, Str, str_key, Time, Float, set, arith, Option-cases, Bool-cases, inl,
  inr, sym, ◌∙◌,
}
use itt_engine.Map
use itt_engine.Map.{Map}
use itt_engine.Graph
use itt_engine.Graph.{
  Graph, NodeData, EdgeData, edge_key, link, ensure_row, new, new_edge, accumulate, count_out,
  count_in, seen_node,
}
use itt_engine.Immutable
use itt_engine.Immutable.{copy_node, widen}
use itt_engine.Map.Laws.{get-modify}
use itt_engine.Graph.Valid.{IsValid}
use itt_engine.Graph.AddEdge.{add_edge_graph, add_edge-some, get-nodes-ensure_node}
use itt_engine.Immutable.Copy.{deep_copy_graph, deep_copy-some, deep_copy_graph-IsValid}
use itt_engine.Immutable.WithEvent.{contains-add_edge_graph, get-nodes-touch}
use itt_engine.Heap.Isolation.{with_event-IsApart}
use itt_engine.Heap.{Heap, Refs, write_edge, put_edge, add_edge, with_event}
use itt_engine.Heap.Reads.{read-kept, read-modify, get-read, get-some}
use itt_engine.Heap.Cells.{IsKept}
use itt_engine.Heap.Copies.{
  Shows, Owns, place_edge-Owns, write_at-Owns, deep_copy-Owns, ensure_node-Owns, touch-Owns,
}

module _ {F : Type 0} ⦃float : Float F⦄ (from to : Str) (weight : F) (type : Str) (ts : Time) where
  put_edge-Owns :
      (g : Refs) (h : Heap F) (v v' : Graph F)
      → Owns g h v
      → Map.contains from v.nodes ≡ true
      → Map.contains to v.nodes ≡ true
      → Graph.put_edge from to weight type ts v ≡ some v'
      → (w : Refs × Heap F) × (put_edge from to weight type ts g h ≡ some w) × Owns w.0 w.1 v'
  unfolding put_edge Graph.put_edge write_edge
  put_edge-Owns g h v v' o knows_from knows_to done =
      let key = edge_key from to in
      let e = new_edge from to weight type ts in
      let known = get-read h.edges key g.edges v.edges o.shows.edges in
      elim (Bool-cases (Map.contains key v.edges)) [
        | inl there ↦
            let (p, at) = get-some key g.edges (sym known ∙ there) in
            let (x, found, reads) =
              read-modify h.edges key p (accumulate weight ts) g.edges v.edges o.shows.edges o.edges
                at in
            let same : record v { edges = Map.modify key (accumulate weight ts) v.edges } ≡ v' =
              ground arith in
            (
              (g, record h { edges = set h.edges p (accumulate weight ts x) }),
              rw (at, found, put_edge, write_edge) refl,
              rw (← same) (record {
                shows = record {
                  nodes = o.shows.nodes;
                  edges = reads;
                  out = o.shows.out;
                  into = o.shows.into;
                };
                nodes = o.nodes;
                edges = o.edges;
              }),
            )
        | inr missing ↦ elim (Option-cases (link from to v.out)) [
          | inl bad ↦ absurd (ground arith)
          | inr (out, outs) ↦ elim (Option-cases (link to from v.into)) [
            | inl bad ↦ absurd (ground arith)
            | inr (into, ins) ↦
                let (next, placed, owns, hn, he, gn) = place_edge-Owns e g h v o outs ins in
                let (h1, first, owns1) =
                  write_at-Owns from count_out next.0 next.1 _ owns knows_from in
                let (h2, second, owns2) =
                  write_at-Owns to count_in next.0 h1 _ owns1
                    (ground (arith, get-modify from to count_out v.nodes)) in
                let grown : Graph F = record v {
                  edges = Map.put key e v.edges;
                  out = out;
                  into = into;
                  nodes = Map.modify to count_in (Map.modify from count_out v.nodes);
                } in
                let same : grown ≡ v' = ground arith in
                let absent : Map.get key g.edges ≡ none = ground arith in
                ((next.0, h2), rw (absent, placed, first, second, put_edge) refl, rw (← same) owns2)
          ]
        ]
      ]

  add_edge-Owns :
      (g : Refs) (h : Heap F) (v v' : Graph F)
      → Owns g h v
      → Graph.add_edge from to weight type ts v ≡ some v'
      → (w : Refs × Heap F) × (add_edge from to weight type ts g h ≡ some w) × Owns w.0 w.1 v'
  unfolding add_edge Graph.add_edge
  add_edge-Owns g h v v' o done =
      let (one, first, o1) = ensure_node-Owns from ts g h v o in
      let (two, second, o2) = ensure_node-Owns to ts one.0 one.1 _ o1 in
      let v1 = Graph.ensure_node from ts v in
      let (w, third, o3) =
        put_edge-Owns two.0 two.1 _ v' o2
          (ground
            (arith, get-nodes-ensure_node to ts v1 from, get-nodes-ensure_node from ts v from))
          (ground (arith, get-nodes-ensure_node to ts v1 to)) done in
      (w, rw (first, second, add_edge) third, o3)

  -- `WithEvent`, on a graph whose pointers lead to a valid graph, returns a graph whose pointers lead to
  -- what the event makes of that graph. Whatever graph read something in the heap before, reads the
  -- same after the call: the copy shares no cell that is written to.
  pub with_event-Shows :
      (ig : Refs) (h : Heap F) (v : Graph F)
      → Shows ig h v
      → IsValid v
      → (w : Refs × Heap F) × (v' : Graph F) × (with_event from to weight type ts ig h ≡ some w)
        × (Immutable.with_event from to weight type ts v ≡ some v')
        × Shows w.0 w.1 v'
        × ((other : Refs) (seen : Graph F) → Shows other h seen → Shows other w.1 seen)
  unfolding with_event Immutable.with_event
  with_event-Shows ig h v s valid =
      let grown_value = add_edge_graph from to weight type ts (deep_copy_graph v) in
      let (cp, copied, o) = deep_copy-Owns ig h v (deep_copy_graph v) s (deep_copy-some v valid) in
      let adds =
        add_edge-some from to weight type ts (deep_copy_graph v)
          (deep_copy_graph-IsValid v valid) in
      let (grown, added, o1) = add_edge-Owns cp.0 cp.1 (deep_copy_graph v) grown_value o adds in
      let has = contains-add_edge_graph from to weight type ts (deep_copy_graph v) in
      let (h1, first, o2) =
        touch-Owns from ts grown.0 grown.1 grown_value o1 (ground (arith, has from)) in
      let (h2, second, o3) =
        touch-Owns to ts grown.0 h1 _ o2
          (ground (arith, has to, get-nodes-touch from ts grown_value to)) in
      let runs : with_event from to weight type ts ig h ≡ some (grown.0, h2) =
        rw (copied, added, first, second, with_event) refl in
      let kept : IsKept h h2 =
        (with_event-IsApart from to weight type ts h ig (grown.0, h2) runs).1 in
      (
        (grown.0, h2),
        Immutable.touch to ts (Immutable.touch from ts grown_value),
        runs,
        rw (deep_copy-some v valid, adds, Immutable.with_event) refl,
        o3.shows,
        λ other seen before. record {
          nodes = read-kept h.nodes h2.nodes other.nodes seen.nodes kept.nodes before.nodes;
          edges = read-kept h.edges h2.edges other.edges seen.edges kept.edges before.edges;
          out = before.out;
          into = before.into;
        },
      )
