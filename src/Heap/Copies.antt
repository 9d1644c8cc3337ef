-- ===== src/Heap/Copies.antt =====
-- The copy of graph/immutable.go and the writes of graph/graph.go through pointers do what the
-- functions on graphs as values say.
use itt_engine.Prelude.{
  ◌≡◌, refl, ℕ, true, some, [], ◌∷◌, ◌++◌, Str, str_key, Time, length, set, arith, Option-cases,
  Bool-cases, inl, inr, sym, ◌∙◌, subst,
}
use itt_engine.Map
use itt_engine.Map.{Map}
use itt_engine.Graph
use itt_engine.Graph.{
  Graph, NodeData, EdgeData, edge_key, link, ensure_row, new, new_edge, accumulate, count_out,
  count_in, seen_node,
}
use itt_engine.Immutable
use itt_engine.Immutable.{copy_node, widen}
use itt_engine.Heap.{
  Heap, Refs, no_refs, write_node, place_node, place_edge, copy_nodes, copy_edges, deep_copy,
  add_node, ensure_node, write_at, touch,
}
use itt_engine.Heap.Reads.{
  Separate, read, read-append, read-put, Separate-put, read-modify, get-read, read-cons, get-some,
}

module _ {F : Type 0} where
  -- a graph whose pointers lead to a graph of nodes and edges
  pub record Shows (g : Refs) (h : Heap F) (v : Graph F) : Type 0 where
    pub nodes : read h.nodes g.nodes ≡ some v.nodes
    pub edges : read h.edges g.edges ≡ some v.edges
    pub out : g.out ≡ v.out
    pub into : g.into ≡ v.into

  -- and whose pointers differ
  pub record Owns (g : Refs) (h : Heap F) (v : Graph F) : Type 0 where
    pub shows : Shows g h v
    pub nodes : Separate g.nodes
    pub edges : Separate g.edges

  place_node-Owns :
      (n : NodeData F) (g : Refs) (h : Heap F) (v : Graph F)
      → Owns g h v
      → Owns (place_node n g h).0 (place_node n g h).1 (record v {
        nodes = Map.put n.id n v.nodes;
        out = ensure_row n.id v.out;
        into = ensure_row n.id v.into;
      })
  unfolding place_node
  place_node-Owns n g h v o = record {
    shows = record {
      nodes = read-put h.nodes n n.id g.nodes v.nodes o.shows.nodes;
      edges = o.shows.edges;
      out = rw o.shows.out refl;
      into = rw o.shows.into refl;
    };
    nodes = Separate-put h.nodes n.id g.nodes v.nodes o.shows.nodes o.nodes;
    edges = o.edges;
  }

  pub place_edge-Owns :
      (e : EdgeData F) (g : Refs) (h : Heap F) (v : Graph F) {out into : Graph.Rows}
      → Owns g h v
      → link e.from e.to v.out ≡ some out
      → link e.to e.from v.into ≡ some into
      → (w : Refs × Heap F) × (place_edge e g h ≡ some w)
        × Owns w.0 w.1
            (record v { edges = Map.put (edge_key e.from e.to) e v.edges; out = out; into = into })
        × (w.1.nodes ≡ h.nodes)
        × (w.1.edges ≡ h.edges ++ (e ∷ []))
        × (w.0.nodes ≡ g.nodes)
  unfolding place_edge
  place_edge-Owns e g h v {out = out} {into = into} o outs ins = (
    (
      record g {
        edges = Map.put (edge_key e.from e.to) (length h.edges) g.edges;
        out = out;
        into = into;
      },
      record h { edges = h.edges ++ (e ∷ []) },
    ),
    rw (o.shows.out, o.shows.into, outs, ins, place_edge) refl,
    record {
      shows = record {
        nodes = o.shows.nodes;
        edges = read-put h.edges e (edge_key e.from e.to) g.edges v.edges o.shows.edges;
        out = refl;
        into = refl;
      };
      nodes = o.nodes;
      edges = Separate-put h.edges (edge_key e.from e.to) g.edges v.edges o.shows.edges o.edges;
    },
    refl,
    refl,
    refl,
  )

  pub write_at-Owns :
      (id : Str) (f : NodeData F → NodeData F) (g : Refs) (h : Heap F) (v : Graph F)
      → Owns g h v
      → Map.contains id v.nodes ≡ true
      → (h' : Heap F) × (write_at id f g h ≡ some h')
        × Owns g h' (record v { nodes = Map.modify id f v.nodes })
  unfolding write_at write_node
  write_at-Owns id f g h v o known =
      let (p, there) =
        get-some id g.nodes (sym (get-read h.nodes id g.nodes v.nodes o.shows.nodes) ∙ known) in
      let (n, found, reads) =
        read-modify h.nodes id p f g.nodes v.nodes o.shows.nodes o.nodes there in
      (
        record h { nodes = set h.nodes p (f n) },
        rw (there, found, write_at, write_node) refl,
        record {
          shows = record {
            nodes = reads;
            edges = o.shows.edges;
            out = o.shows.out;
            into = o.shows.into;
          };
          nodes = o.nodes;
          edges = o.edges;
        },
      )

  copy_nodes-Owns :
      (m : Map Str ℕ) (r : Map Str (NodeData F)) (g : Refs) (h : Heap F) (v : Graph F)
      → read h.nodes m ≡ some r
      → Owns g h v
      → (w : Refs × Heap F) × (copy_nodes m g h ≡ some w)
        × Owns w.0 w.1 (Immutable.copy_nodes r v)
        × (w.1.edges ≡ h.edges)
  unfolding copy_nodes Immutable.copy_nodes read place_node copy_node
  copy_nodes-Owns [] r g h v reads o =
      let empty : [] ≡ r = ground arith in ((g, h), refl, rw (← empty) o, refl)
  copy_nodes-Owns ((k, p) ∷ m) r g h v reads o =
      let (n, rest, found, all, shape) = read-cons h.nodes k p m r reads in
      let next = place_node (copy_node n) g h in
      let (w, runs, owns, same) =
        copy_nodes-Owns m rest next.0 next.1 _ (read-append h.nodes (copy_node n) m rest all)
          (place_node-Owns (copy_node n) g h v o) in
      (
        w,
        rw (found, copy_nodes) runs,
        subst (λ x. Owns w.0 w.1 (Immutable.copy_nodes x v)) (sym shape) owns,
        same,
      )

  copy_edges-Owns :
      (m : Map Str ℕ) (r : Map Str (EdgeData F)) (g : Refs) (h : Heap F) (v v' : Graph F)
      → read h.edges m ≡ some r
      → Owns g h v
      → Immutable.copy_edges r v ≡ some v'
      → (w : Refs × Heap F) × (copy_edges m g h ≡ some w) × Owns w.0 w.1 v'
  unfolding copy_edges Immutable.copy_edges read
  copy_edges-Owns [] r g h v v' reads o done =
      let empty : [] ≡ r = ground arith in
      let same : v ≡ v' = ground arith in ((g, h), refl, rw (← same) o)
  copy_edges-Owns ((k, p) ∷ m) r g h v v' reads o done =
      let (e, rest, found, all, shape) = read-cons h.edges k p m r reads in
      elim (Option-cases (link e.from e.to v.out)) [
        | inl bad ↦ absurd (ground arith)
        | inr (out, outs) ↦ elim (Option-cases (link e.to e.from v.into)) [
          | inl bad ↦ absurd (ground arith)
          | inr (into, ins) ↦
              let (next, placed, owns, hn, he, gn) = place_edge-Owns e g h v o outs ins in
              let still : read next.1.edges m ≡ some rest =
                rw he (read-append h.edges e m rest all) in
              let (w, runs, owns') =
                copy_edges-Owns m rest next.0 next.1 _ v' still owns (ground arith) in
              (w, rw (found, placed, copy_edges) runs, owns')
        ]
      ]

  pub deep_copy-Owns :
      (src : Refs) (h : Heap F) (v v' : Graph F)
      → Shows src h v
      → Immutable.deep_copy v ≡ some v'
      → (w : Refs × Heap F) × (deep_copy src h ≡ some w) × Owns w.0 w.1 v'
  unfolding deep_copy Immutable.deep_copy read
  deep_copy-Owns src h v v' s done =
      let begun : Owns no_refs h new = record {
        shows = record { nodes = refl; edges = refl; out = refl; into = refl };
        nodes = tt;
        edges = tt;
      } in
      let (w, first, owns, same) = copy_nodes-Owns src.nodes v.nodes no_refs h new s.nodes begun in
      let (w', second, owns') =
        copy_edges-Owns src.edges v.edges w.0 w.1 _ v' (rw same s.edges) owns done in
      (w', rw (first, deep_copy) second, owns')

  pub ensure_node-Owns :
      (id : Str) (ts : Time) (g : Refs) (h : Heap F) (v : Graph F)
      → Owns g h v
      → (w : Refs × Heap F) × (ensure_node id ts g h ≡ some w)
        × Owns w.0 w.1 (Graph.ensure_node id ts v)
  unfolding ensure_node Graph.ensure_node add_node Graph.add_node
  ensure_node-Owns id ts g h v o =
      let known = get-read h.nodes id g.nodes v.nodes o.shows.nodes in
      elim (Bool-cases (Map.contains id v.nodes)) [
        | inl there ↦
            let same : Graph.ensure_node id ts v ≡ v = ground arith in
            ((g, h), ground arith, rw same o)
        | inr missing ↦
            let n = seen_node id ts in
            let grown : Graph F = record v {
              nodes = Map.put id n v.nodes;
              out = ensure_row id v.out;
              into = ensure_row id v.into;
            } in
            let same : Graph.ensure_node id ts v ≡ grown = ground arith in
            (place_node n g h, ground arith, rw same (place_node-Owns n g h v o))
      ]

  pub touch-Owns :
      (id : Str) (ts : Time) (g : Refs) (h : Heap F) (v : Graph F)
      → Owns g h v
      → Map.contains id v.nodes ≡ true
      → (h' : Heap F) × (touch id ts g h ≡ some h') × Owns g h' (Immutable.touch id ts v)
  unfolding touch Immutable.touch write_at
  touch-Owns id ts g h v o known =
      let (h', runs, owns) = write_at-Owns id (widen ts) g h v o known in
      let there = get-read h.nodes id g.nodes v.nodes o.shows.nodes in (h', ground arith, owns)
