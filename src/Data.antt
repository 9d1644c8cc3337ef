-- ===== src/Data.antt =====
-- graphFromData and graphToData of engine.go, and the `GraphData` of types.go that a storage keeps.
-- Its metadata is written nowhere, and is left out, as are the attributes of its nodes.
pub mod RoundTrip
use itt_engine.Prelude.{
  ℕ, Bool, true, Option, none, some, List, [], ◌∷◌, ◌++◌, Str, str_key, Time, Float, ◌>>=◌,
}
use itt_engine.Map
use itt_engine.Map.{values}
use itt_engine.Graph.{Graph, NodeData, EdgeData, edge_key, new, add_node, add_edge}
use itt_engine.Immutable.{deep_copy}
use itt_engine.View.{for_each}

pub record Node : Type 0 where
  pub id : Str
  pub type : Str
  pub degree : ℕ
  pub in_degree : ℕ
  pub out_degree : ℕ
  pub first_seen : Time
  pub last_seen : Time

pub record Edge (F : Type 0) : Type 0 where
  pub from : Str
  pub to : Str
  pub weight : F
  pub type : Str
  pub count : ℕ
  pub first_seen : Time
  pub last_seen : Time

pub record GraphData (F : Type 0) : Type 0 where
  pub nodes : List Node
  pub edges : List (Edge F)
  pub timestamp : Time

module _ {F : Type 0} where
  abbrev pub node_of : Node → NodeData F
  node_of n = record {
    id = n.id;
    type = n.type;
    attributes = none;
    degree = n.degree;
    in_degree = n.in_degree;
    out_degree = n.out_degree;
    first_seen = n.first_seen;
    last_seen = n.last_seen;
  }

  unfoldable pub add_nodes : List Node → Graph F → Graph F
  add_nodes [] g = g
  add_nodes (n ∷ ns) g = add_nodes ns (add_node (node_of n) g)

  -- `ge.Count = ed.Count; ge.LastSeen = ed.LastSeen`
  abbrev pub fix_up : Edge F → EdgeData F → EdgeData F
  fix_up ed ge = record ge { count = ed.count; last_seen = ed.last_seen }

  abbrev pub saved_node : NodeData F → Node
  saved_node n = record {
    id = n.id;
    type = n.type;
    degree = n.degree;
    in_degree = n.in_degree;
    out_degree = n.out_degree;
    first_seen = n.first_seen;
    last_seen = n.last_seen;
  }

  abbrev pub saved_edge : EdgeData F → Edge F
  saved_edge e = record {
    from = e.from;
    to = e.to;
    weight = e.weight;
    type = e.type;
    count = e.count;
    first_seen = e.first_seen;
    last_seen = e.last_seen;
  }

  -- the callbacks of `graphToData`
  abbrev pub append_node : NodeData F → List Node → List Node × Bool
  append_node n nodes = (nodes ++ (saved_node n ∷ []), true)

  abbrev pub append_edge : EdgeData F → List (Edge F) → List (Edge F) × Bool
  append_edge e edges = (edges ++ (saved_edge e ∷ []), true)

  unfoldable pub graph_to_data : Time → Graph F → GraphData F
  graph_to_data now ig = record {
    nodes = for_each append_node (values ig.nodes) [];
    edges = for_each append_edge (values ig.edges) [];
    timestamp = now;
  }

module _ {F : Type 0} ⦃float : Float F⦄ where
  unfoldable pub add_edges : List (Edge F) → Graph F → Option (Graph F)
  add_edges [] g = some g
  add_edges (ed ∷ eds) g = do
    g' ← add_edge ed.from ed.to ed.weight ed.type ed.first_seen g
    add_edges eds (record g' { edges = Map.modify (edge_key ed.from ed.to) (fix_up ed) g'.edges })

  unfoldable pub graph_from_data : GraphData F → Option (Graph F)
  graph_from_data saved = do g ← add_edges saved.edges (add_nodes saved.nodes new); deep_copy g
