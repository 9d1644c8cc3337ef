-- ===== src/View.antt =====
-- graph/view.go: the read-only merge of a base graph and an overlay. A callback passes its
-- captured state along and says whether to go on.
pub mod Edges
pub mod Visits
use itt_engine.Prelude.{
  ℕ, ◌∷◌, [], List, Bool, true, false, Option, none, some, if◌then◌else◌, Str, str_key, add64,
  before, after, Float, length,
}
use itt_engine.Map
use itt_engine.Map.{Map, values}
use itt_engine.Graph
use itt_engine.Graph.{Graph, NodeData, EdgeData, edge_key, flag, collect}

pub record UnifiedView (F : Type 0) : Type 0 where
  pub base : Graph F
  pub overlay : Graph F

-- `ForEachNode` and `ForEachEdge` of graph/graph.go: the callback stops the loop by `false`
unfoldable pub for_each : {A S : Type 0} → (A → S → S × Bool) → List A → S → S
for_each fn [] s = s
for_each fn (x ∷ xs) s =
    let (s', more) = fn x s in let rest = for_each fn xs s' in if more then rest else s'

-- the loop of `Neighbors`, `OutNeighbors` and `InNeighbors`: overlay first, then base
unfoldable pub collect_both : List Str → List Str → List Str
collect_both over under = let (seen, result) = collect over [] [] in (collect under seen result).1

module _ {F : Type 0} where
  unfoldable pub get_node : Str → UnifiedView F → Option (NodeData F)
  get_node id v = elim (Graph.get_node id v.overlay) [
    | some n ↦ some n
    | none ↦ Graph.get_node id v.base
  ]

  unfoldable pub neighbors : Str → UnifiedView F → List Str
  neighbors id v = collect_both (Graph.neighbors id v.overlay) (Graph.neighbors id v.base)

  unfoldable pub out_neighbors : Str → UnifiedView F → List Str
  out_neighbors id v =
      collect_both (Graph.out_neighbors id v.overlay) (Graph.out_neighbors id v.base)

  unfoldable pub in_neighbors : Str → UnifiedView F → List Str
  in_neighbors id v = collect_both (Graph.in_neighbors id v.overlay) (Graph.in_neighbors id v.base)

  -- `seen[n.ID] = true` for each node
  abbrev pub mark_node : NodeData F → Map Str Bool → Map Str Bool × Bool
  mark_node n seen = (Map.put n.id true seen, true)

  abbrev pub mark_edge : EdgeData F → Map Str Bool → Map Str Bool × Bool
  mark_edge e seen = (Map.put (edge_key e.from e.to) true seen, true)

  unfoldable pub node_count : UnifiedView F → ℕ
  node_count v =
      length
        (for_each mark_node (values v.base.nodes) (for_each mark_node (values v.overlay.nodes) []))

  unfoldable pub edge_count : UnifiedView F → ℕ
  edge_count v =
      length
        (for_each mark_edge (values v.base.edges) (for_each mark_edge (values v.overlay.edges) []))

  module _ {S : Type 0} (fn : NodeData F → S → S × Bool) where
    -- the callbacks of the two loops of `ForEachNode`
    abbrev pub first_visit : NodeData F → Map Str Bool × S → (Map Str Bool × S) × Bool
    first_visit n (seen, s) = let (s', more) = fn n s in ((Map.put n.id true seen, s'), more)

    abbrev pub second_visit : Map Str Bool → NodeData F → S → S × Bool
    second_visit seen n s = if flag n.id seen then (s, true) else fn n s

    unfoldable pub for_each_node : UnifiedView F → S → S
    for_each_node v s =
        let (seen, s') = for_each first_visit (values v.overlay.nodes) ([], s) in
        for_each (second_visit seen) (values v.base.nodes) s'

module _ {F : Type 0} ⦃float : Float F⦄ where
  unfoldable pub merge_edges : EdgeData F → EdgeData F → EdgeData F
  merge_edges base overlay = record {
    from = overlay.from;
    to = overlay.to;
    weight = float.add base.weight overlay.weight;
    type = overlay.type;
    count = add64 base.count overlay.count;
    first_seen =
        if before base.first_seen overlay.first_seen then base.first_seen else overlay.first_seen;
    last_seen =
        if after base.last_seen overlay.last_seen then base.last_seen else overlay.last_seen;
  }

  -- the three cases of `GetEdge`
  unfoldable pub pick_edge : Option (EdgeData F) → Option (EdgeData F) → Option (EdgeData F)
  pick_edge (some be) (some oe) = some (merge_edges be oe)
  pick_edge none (some oe) = some oe
  pick_edge (some be) none = some be
  pick_edge none none = none

  unfoldable pub get_edge : Str → Str → UnifiedView F → Option (EdgeData F)
  get_edge from to v = pick_edge (Graph.get_edge from to v.base) (Graph.get_edge from to v.overlay)

  -- what `ForEachEdge` shows for an edge of the overlay
  unfoldable pub shown_edge : Graph F → EdgeData F → EdgeData F
  shown_edge base oe = elim (Graph.get_edge oe.from oe.to base) [
    | some be ↦ merge_edges be oe
    | none ↦ oe
  ]

  module _ {S : Type 0} (fn : EdgeData F → S → S × Bool) where
    abbrev pub first_edge : Graph F → EdgeData F → Map Str Bool × S → (Map Str Bool × S) × Bool
    first_edge base oe (seen, s) =
        let (s', more) = fn (shown_edge base oe) s in
        ((Map.put (edge_key oe.from oe.to) true seen, s'), more)

    abbrev pub second_edge : Map Str Bool → EdgeData F → S → S × Bool
    second_edge seen be s = if flag (edge_key be.from be.to) seen then (s, true) else fn be s

    unfoldable pub for_each_edge : UnifiedView F → S → S
    for_each_edge v s =
        let (seen, s') = for_each (first_edge v.base) (values v.overlay.edges) ([], s) in
        for_each (second_edge seen) (values v.base.edges) s'
