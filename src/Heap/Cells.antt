-- ===== src/Heap/Cells.antt =====
-- The writes through pointers of graph/graph.go to cells that are new.
use itt_engine.Prelude.{
  ◌≡◌, refl, ℕ, zero, suc, ◌<◌, ◌≤◌, some, List, [], ◌∷◌, ◌++◌, Str, str_key, length, get_elem?,
  set, arith, Option-cases, inl, inr, length-append, length-set, ◌∙◌,
}
use itt_engine.Map
use itt_engine.Map.{Map}
use itt_engine.Map.Laws.{get-put}
use itt_engine.Graph.{NodeData, EdgeData, edge_key, link}
use itt_engine.Heap.{Heap, Refs, write_node, write_edge, place_node, place_edge}

get_elem-append :
    {A : Type 0} (xs ys : List A) (p : ℕ) → p < length xs → get_elem? (xs ++ ys) p ≡ get_elem? xs p
get_elem-append [] ys p h = absurd (omega arith)
get_elem-append (x ∷ xs) ys zero h = refl
get_elem-append (x ∷ xs) ys (suc p) h = get_elem-append xs ys p (omega arith)

get_elem-set :
    {A : Type 0} (xs : List A) (p q : ℕ) (v : A) → p < q → get_elem? (set xs q v) p ≡ get_elem? xs p
get_elem-set [] p q v h = refl
get_elem-set (x ∷ xs) p zero v h = absurd (omega arith)
get_elem-set (x ∷ xs) zero (suc q) v h = refl
get_elem-set (x ∷ xs) (suc p) (suc q) v h = get_elem-set xs p q v (omega arith)

module _ {F : Type 0} (old : Heap F) where
  -- the cells of a heap are those of the old one, and more
  pub record IsKept (h : Heap F) : Type 0 where
    pub nodes : (p : ℕ) → p < length old.nodes → get_elem? h.nodes p ≡ get_elem? old.nodes p
    pub edges : (p : ℕ) → p < length old.edges → get_elem? h.edges p ≡ get_elem? old.edges p
    pub more_nodes : length old.nodes ≤ length h.nodes
    pub more_edges : length old.edges ≤ length h.edges

  -- a graph all of whose cells are new
  pub record IsFresh (g : Refs) : Type 0 where
    pub nodes : (k : Str) (p : ℕ) → Map.get k g.nodes ≡ some p → length old.nodes ≤ p
    pub edges : (k : Str) (p : ℕ) → Map.get k g.edges ≡ some p → length old.edges ≤ p

  -- what the steps of a call keep
  abbrev pub IsApart : Refs × Heap F → Type 0
  IsApart w = IsFresh w.0 × IsKept w.1

  pub write_node-IsKept :
      (p : ℕ) (f : NodeData F → NodeData F) (h h' : Heap F)
      → length old.nodes ≤ p
      → IsKept h
      → write_node p f h ≡ some h'
      → IsKept h'
  unfolding write_node
  write_node-IsKept p f h h' above k runs = elim (Option-cases (get_elem? h.nodes p)) [
    | inl bad ↦ absurd (ground arith)
    | inr (n, found) ↦
        let ns : h'.nodes ≡ set h.nodes p (f n) = ground arith in
        let es : h'.edges ≡ h.edges = ground arith in
        record {
          nodes = λ q low. rw (ns, get_elem-set h.nodes q p (f n) (omega arith)) (k.nodes q low);
          edges = λ q low. rw es (k.edges q low);
          more_nodes = ground (arith, k.more_nodes, length-set h.nodes p (f n));
          more_edges = ground (arith, k.more_edges);
        }
  ]

  pub write_edge-IsKept :
      (p : ℕ) (f : EdgeData F → EdgeData F) (h h' : Heap F)
      → length old.edges ≤ p
      → IsKept h
      → write_edge p f h ≡ some h'
      → IsKept h'
  unfolding write_edge
  write_edge-IsKept p f h h' above k runs = elim (Option-cases (get_elem? h.edges p)) [
    | inl bad ↦ absurd (ground arith)
    | inr (e, found) ↦
        let es : h'.edges ≡ set h.edges p (f e) = ground arith in
        let ns : h'.nodes ≡ h.nodes = ground arith in
        record {
          nodes = λ q low. rw ns (k.nodes q low);
          edges = λ q low. rw (es, get_elem-set h.edges q p (f e) (omega arith)) (k.edges q low);
          more_nodes = ground (arith, k.more_nodes);
          more_edges = ground (arith, k.more_edges, length-set h.edges p (f e));
        }
  ]

  pub place_node-IsApart :
      (n : NodeData F) (g : Refs) (h : Heap F) → IsFresh g → IsKept h → IsApart (place_node n g h)
  unfolding place_node
  place_node-IsApart n g h fresh k = (
    record {
      nodes = λ j p found.
          ground (arith, get-put n.id j (length h.nodes) g.nodes, fresh.nodes j p, k.more_nodes);
      edges = fresh.edges;
    },
    record {
      nodes = λ q low.
          get_elem-append h.nodes (n ∷ []) q (ground (arith, k.more_nodes)) ∙ k.nodes q low;
      edges = k.edges;
      more_nodes = ground (arith, k.more_nodes, length-append h.nodes (n ∷ []));
      more_edges = k.more_edges;
    },
  )

  pub place_edge-IsApart :
      (e : EdgeData F) (g : Refs) (h : Heap F) (w : Refs × Heap F)
      → IsFresh g
      → IsKept h
      → place_edge e g h ≡ some w
      → IsApart w
  unfolding place_edge
  place_edge-IsApart e g h w fresh k runs =
      let key = edge_key e.from e.to in
      elim (Option-cases (link e.from e.to g.out)) [
        | inl bad ↦ absurd (ground arith)
        | inr (out, outs) ↦ elim (Option-cases (link e.to e.from g.into)) [
          | inl bad ↦ absurd (ground arith)
          | inr (into, ins) ↦
              let ns : w.0.nodes ≡ g.nodes = ground arith in
              let es : w.0.edges ≡ Map.put key (length h.edges) g.edges = ground arith in
              let hn : w.1.nodes ≡ h.nodes = ground arith in
              let he : w.1.edges ≡ h.edges ++ (e ∷ []) = ground arith in
              (
                record {
                  nodes = λ j p found. fresh.nodes j p (ground arith);
                  edges = λ j p found. ground (
                    arith,
                    get-put key j (length h.edges) g.edges,
                    fresh.edges j p,
                    k.more_edges,
                  );
                },
                record {
                  nodes = λ q low. rw hn (k.nodes q low);
                  edges = λ q low. rw he (
                      get_elem-append h.edges (e ∷ []) q (ground (arith, k.more_edges))
                      ∙ k.edges q low);
                  more_nodes = ground (arith, k.more_nodes);
                  more_edges = ground (arith, k.more_edges, length-append h.edges (e ∷ []));
                },
              )
        ]
      ]
