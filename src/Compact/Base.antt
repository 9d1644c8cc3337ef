-- ===== src/Compact/Base.antt =====
-- Steps 1 and 2 of `Compact`, and the same loops of `graphFromData`: a graph copied by `AddNode` and
-- `AddEdge` has the edges of the graph it copies, and its nodes' types.
use itt_engine.Prelude.{◌≡◌, refl, true, Option, none, some, Str, str_key, arith, Float, ◌∙◌}
use itt_engine.Map
use itt_engine.Map.{Map, OnSome, AllEntries, is_some, keys, distinct}
use itt_engine.Map.Laws.{map_option}
use itt_engine.Map.Entries.{entries_of_get}
use itt_engine.Graph.{Graph, NodeData, EdgeData, new}
use itt_engine.Graph.Valid.{IsValid, IsPlaced}
use itt_engine.Immutable.{copy_node}
use itt_engine.Compact.{base_node, restore}
use itt_engine.Compact.Nodes.{node_type, add_all, add_all-IsValid, edges-add_all, type-add_all}
use itt_engine.Compact.Merge.{
  merge_all, merge_all-IsValid, get-edges-merge_all, type-merge_all, IsKeyed, IsBacked,
}
use itt_engine.Compact.Loops.{restore_keeps, base_keeps, new-IsValid}

module _ {F : Type 0} where
  pub copied_type : (o : Option (NodeData F)) → node_type (map_option copy_node o) ≡ node_type o
  unfolding copy_node
  copied_type none = refl
  copied_type (some n) = refl

module _ {F : Type 0} ⦃float : Float F⦄ where
  pub keyed : (g : Graph F) → IsValid g → AllEntries IsKeyed g.edges
  keyed g v =
      entries_of_get IsKeyed g.edges v.edges_distinct
        (λ k. key_of k (Map.get k g.edges) (v.edges_placed k))
    where
      key_of :
          (k : Str) (e : Option (EdgeData F)) → OnSome (IsPlaced g.nodes k) e → OnSome (IsKeyed k) e
      key_of k none h = tt
      key_of k (some e) h = h.0

  -- edges whose ends one graph has are backed by a graph that has those nodes
  pub backed :
      (src g : Graph F)
      → IsValid src
      → ((id : Str) → Map.contains id src.nodes ≡ true → Map.contains id g.nodes ≡ true)
      → AllEntries (IsBacked g) src.edges
  backed src g v grow =
      entries_of_get (IsBacked g) src.edges v.edges_distinct
        (λ k. ends k (Map.get k src.edges) (v.edges_placed k))
    where
      ends :
          (k : Str) (e : Option (EdgeData F))
          → OnSome (IsPlaced src.nodes k) e
          → OnSome (IsBacked g k) e
      ends k none h = tt
      ends k (some e) (_, p, q) = (grow e.from p, grow e.to q)

module _ {F : Type 0} ⦃float : Float F⦄ (base : Graph F) (vb : IsValid base) where
  abbrev pub base_nodes : Graph F
  base_nodes = add_all base_node base.nodes new

  abbrev pub base_graph : Graph F
  base_graph = merge_all restore restore_keeps base.edges base_nodes

  pub base_nodes-IsValid : IsValid base_nodes
  base_nodes-IsValid = add_all-IsValid base_node base_keeps base.nodes new new-IsValid

  pub base_graph-IsValid : IsValid base_graph
  base_graph-IsValid =
      merge_all-IsValid restore restore_keeps base.edges base_nodes base_nodes-IsValid

  type-base_nodes :
      (id : Str) → node_type (Map.get id base_nodes.nodes) ≡ node_type (Map.get id base.nodes)
  unfolding Map.get
  type-base_nodes id = ground (
    arith,
    type-add_all base_node base_keeps base.nodes new id
        (entries_of_get (λ k n. n.id ≡ k) base.nodes vb.nodes_distinct vb.nodes_named)
        vb.nodes_distinct,
  )

  pub get-edges-base_graph : (k : Str) → Map.get k base_graph.edges ≡ Map.get k base.edges
  unfolding Map.get
  get-edges-base_graph k = ground (
    arith,
    get-edges-merge_all restore restore_keeps base.edges base_nodes k (keyed base vb)
        vb.edges_distinct,
    edges-add_all base_node base_keeps base.nodes new,
  )

  pub type-base_graph :
      (id : Str) → node_type (Map.get id base_graph.nodes) ≡ node_type (Map.get id base.nodes)
  type-base_graph id =
      type-merge_all restore restore_keeps base.edges base_nodes id
        (backed base base_nodes vb (λ j h. ground (arith, type-base_nodes j)))
      ∙ type-base_nodes id
