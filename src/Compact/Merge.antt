-- ===== src/Compact/Merge.antt =====
-- The loops of compact/compact.go over edges: `AddEdge`, and a fix of the edge's count and times.
use itt_engine.Prelude.{
  ◌≡◌, refl, true, Option, none, some, ite, Str, Str-discrete, str_key, arith, ◌∷◌, [], Float, ◌∙◌,
  Time,
}
use itt_engine.Map
use itt_engine.Map.{Map, OnSome, AllEntries, is_some, keys, distinct}
use itt_engine.Map.Laws.{get-modify, keys-modify, mem-keys, map_option}
use itt_engine.Graph.{Graph, NodeData, EdgeData, edge_key, accumulate, new_edge, ensure_node}
use itt_engine.Graph.Valid.{IsValid, IsPlaced}
use itt_engine.Graph.AddEdge.{
  add_edge_graph, add_edge_graph-IsValid, get-nodes-ensure_node, get-nodes-put_edge_graph,
}
use itt_engine.Immutable.WithEvent.{get-edges-add_edge_graph}
use itt_engine.Compact.{fix_edge}
use itt_engine.Graph.Valid.{joins}
use itt_engine.Compact.Nodes.{node_type}

abbrev pub IsKeyed : {F : Type 0} → Str → EdgeData F → Type 0
IsKeyed k e = edge_key e.from e.to ≡ k

-- the ends of an edge are nodes
abbrev pub IsBacked : {F : Type 0} → Graph F → Str → EdgeData F → Type 0
IsBacked g k e = (Map.contains e.from g.nodes ≡ true) × (Map.contains e.to g.nodes ≡ true)

module _ {F : Type 0} ⦃float : Float F⦄ (from to : Str) (weight : F) (type : Str) (ts : Time)
    (g : Graph F) where
  -- an edge between nodes that are there changes no node's type, and adds none
  pub type-add_edge_graph :
      (id : Str)
      → Map.contains from g.nodes ≡ true
      → Map.contains to g.nodes ≡ true
      → node_type (Map.get id (add_edge_graph from to weight type ts g).nodes)
        ≡ node_type (Map.get id g.nodes)
  unfolding add_edge_graph
  type-add_edge_graph id p q = ground (
    arith,
    get-nodes-put_edge_graph from to weight type ts (ensure_node to ts (ensure_node from ts g)) id,
    get-nodes-ensure_node to ts (ensure_node from ts g) id,
    get-nodes-ensure_node from ts g id,
  )

module _ {F : Type 0} ⦃float : Float F⦄ (fix : EdgeData F → EdgeData F → EdgeData F)
    (keeps : (e ge : EdgeData F) → ((fix e ge).from ≡ ge.from) × ((fix e ge).to ≡ ge.to)) where
  -- what a round leaves of the edge that was there
  abbrev pub merged : EdgeData F → Option (EdgeData F) → EdgeData F
  merged e none = fix e (new_edge e.from e.to e.weight e.type e.first_seen)
  merged e (some old) = fix e (accumulate e.weight e.first_seen old)

  -- one round of a loop over edges
  unfoldable pub merge_edge : EdgeData F → Graph F → Graph F
  merge_edge e g = fix_edge e (fix e) (add_edge_graph e.from e.to e.weight e.type e.first_seen g)

  unfoldable pub merge_all : Map Str (EdgeData F) → Graph F → Graph F
  merge_all [] g = g
  merge_all ((k, e) ∷ m) g = merge_all m (merge_edge e g)

  fixed_joins :
      (e : EdgeData F) (a b : Str) (o : Option (EdgeData F))
      → joins a b (map_option (fix e) o) ≡ joins a b o
  fixed_joins e a b none = refl
  fixed_joins e a b (some ge) = ground (arith, keeps e ge)

  fixed-IsPlaced :
      (nodes : Map Str (NodeData F)) (e : EdgeData F) (k : Str) (o : Option (EdgeData F))
      → OnSome (IsPlaced nodes k) o
      → OnSome (IsPlaced nodes k) (map_option (fix e) o)
  fixed-IsPlaced nodes e k none h = tt
  fixed-IsPlaced nodes e k (some ge) h = ground (arith, keeps e ge)

  fix_edge-IsValid : (e : EdgeData F) (g : Graph F) → IsValid g → IsValid (fix_edge e (fix e) g)
  unfolding fix_edge
  fix_edge-IsValid e g v = record {
    nodes_named = v.nodes_named;
    edges_placed = λ k. ground (
      arith,
      get-modify (edge_key e.from e.to) k (fix e) g.edges,
      v.edges_placed k,
      fixed-IsPlaced g.nodes e k (Map.get k g.edges),
    );
    out_rows = v.out_rows;
    in_rows = v.in_rows;
    out_linked = λ a b. ground (
      arith,
      get-modify (edge_key e.from e.to) (edge_key a b) (fix e) g.edges,
      v.out_linked a b,
      fixed_joins e a b (Map.get (edge_key a b) g.edges),
    );
    in_linked = λ a b. ground (
      arith,
      get-modify (edge_key e.from e.to) (edge_key a b) (fix e) g.edges,
      v.in_linked a b,
      fixed_joins e a b (Map.get (edge_key a b) g.edges),
    );
    nodes_distinct = v.nodes_distinct;
    edges_distinct = rw keys-modify v.edges_distinct;
  }

  pub merge_edge-IsValid : (e : EdgeData F) (g : Graph F) → IsValid g → IsValid (merge_edge e g)
  unfolding merge_edge
  merge_edge-IsValid e g v =
      fix_edge-IsValid e _ (add_edge_graph-IsValid e.from e.to e.weight e.type e.first_seen g v)

  pub merge_all-IsValid :
      (m : Map Str (EdgeData F)) (g : Graph F) → IsValid g → IsValid (merge_all m g)
  unfolding merge_all
  merge_all-IsValid [] g v = v
  merge_all-IsValid ((k, e) ∷ m) g v =
      merge_all-IsValid m (merge_edge e g) (merge_edge-IsValid e g v)

  get-edges-merge_edge :
      (e : EdgeData F) (g : Graph F) (k : Str)
      → Map.get k (merge_edge e g).edges
        ≡ ite
            (Str-discrete (edge_key e.from e.to) k)
            (some (merged e (Map.get k g.edges)))
            (Map.get k g.edges)
  unfolding merge_edge fix_edge
  get-edges-merge_edge e g k =
      let added = add_edge_graph e.from e.to e.weight e.type e.first_seen g in
      ground (
        arith,
        get-modify (edge_key e.from e.to) k (fix e) added.edges,
        get-edges-add_edge_graph e.from e.to e.weight e.type e.first_seen g k,
      )

  pub get-edges-merge_all :
      (m : Map Str (EdgeData F)) (g : Graph F) (k : Str)
      → AllEntries IsKeyed m
      → distinct (keys m) ≡ true
      → Map.get k (merge_all m g).edges ≡ elim (Map.get k m) [
        | none ↦ Map.get k g.edges
        | some e ↦ some (merged e (Map.get k g.edges))
      ]
  unfolding merge_all Map.get Map.distinct
  get-edges-merge_all [] g k a d = refl
  get-edges-merge_all ((j, e) ∷ m) g k (h, a) d =
      ground (
        arith,
        get-edges-merge_all m (merge_edge e g) k a,
        get-edges-merge_edge e g k,
        mem-keys j m,
      )

  type-merge_edge :
      (e : EdgeData F) (g : Graph F) (k id : Str)
      → IsBacked g k e
      → node_type (Map.get id (merge_edge e g).nodes) ≡ node_type (Map.get id g.nodes)
  unfolding merge_edge fix_edge
  type-merge_edge e g k id (p, q) =
      type-add_edge_graph e.from e.to e.weight e.type e.first_seen g id p q

  IsBacked-step :
      (e : EdgeData F) (g : Graph F) (k : Str) (m : Map Str (EdgeData F))
      → IsBacked g k e
      → AllEntries (IsBacked g) m
      → AllEntries (IsBacked (merge_edge e g)) m
  IsBacked-step e g k [] b a = tt
  IsBacked-step e g k ((j, f) ∷ m) b (h, a) = (
    ground (arith, type-merge_edge e g k f.from b, type-merge_edge e g k f.to b),
    IsBacked-step e g k m b a,
  )

  pub type-merge_all :
      (m : Map Str (EdgeData F)) (g : Graph F) (id : Str)
      → AllEntries (IsBacked g) m
      → node_type (Map.get id (merge_all m g).nodes) ≡ node_type (Map.get id g.nodes)
  unfolding merge_all
  type-merge_all [] g id a = refl
  type-merge_all ((k, e) ∷ m) g id (b, a) =
      type-merge_all m (merge_edge e g) id (IsBacked-step e g k m b a) ∙ type-merge_edge e g k id b
