-- ===== src/Analysis.antt =====
-- The interface `GraphView` of analysis/tension.go, that the analysis takes its graph by, and the two
-- graphs that fill it. A loop `ForEach…` whose callback always returns true goes through a list.
use itt_engine.Prelude.{ℕ, Option, List, [], ◌∷◌, ◌++◌, true, Bool, Str, Float}
use itt_engine.Map.{values}
use itt_engine.Graph
use itt_engine.Graph.{Graph, NodeData, EdgeData}
use itt_engine.View
use itt_engine.View.{UnifiedView}
use itt_engine.View.Visits.{visited}

pub record GraphView (F : Type 0) : Type 0 where
  pub get_node : Str → Option (NodeData F)
  pub get_edge : Str → Str → Option (EdgeData F)
  pub neighbors : Str → List Str
  pub out_neighbors : Str → List Str
  pub in_neighbors : Str → List Str
  pub node_count : ℕ
  pub edge_count : ℕ
  -- what `ForEachNode` and `ForEachEdge` meet
  pub nodes : List (NodeData F)
  pub edges : List (EdgeData F)

module _ {F : Type 0} where
  -- `*ImmutableGraph` as a `GraphView`
  abbrev pub of_graph : Graph F → GraphView F
  of_graph g = record {
    get_node = λ id. Graph.get_node id g;
    get_edge = λ from to. Graph.get_edge from to g;
    neighbors = λ id. Graph.neighbors id g;
    out_neighbors = λ id. Graph.out_neighbors id g;
    in_neighbors = λ id. Graph.in_neighbors id g;
    node_count = Graph.node_count g;
    edge_count = Graph.edge_count g;
    nodes = values g.nodes;
    edges = values g.edges;
  }

  abbrev record_edge : EdgeData F → List (EdgeData F) → List (EdgeData F) × Bool
  record_edge e l = (l ++ (e ∷ []), true)

module _ {F : Type 0} ⦃float : Float F⦄ where
  -- `*UnifiedView` as a `GraphView`
  abbrev pub of_view : UnifiedView F → GraphView F
  of_view v = record {
    get_node = λ id. View.get_node id v;
    get_edge = λ from to. View.get_edge from to v;
    neighbors = λ id. View.neighbors id v;
    out_neighbors = λ id. View.out_neighbors id v;
    in_neighbors = λ id. View.in_neighbors id v;
    node_count = View.node_count v;
    edge_count = View.edge_count v;
    nodes = visited v;
    edges = View.for_each_edge record_edge v [];
  }
