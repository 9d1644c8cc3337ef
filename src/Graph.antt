-- ===== src/Graph.antt =====
-- graph/graph.go: the mutable directed weighted graph. A write through a pointer that the graph
-- holds is a `modify` of its entry; a write to a nil map panics, and is `none`.
pub mod AddEdge
pub mod Keys
pub mod Neighbors
pub mod Valid
use itt_engine.Prelude.{
  ℕ, ◌++◌, ◌∷◌, [], List, str_key, Bool, true, false, Option, none, some, if◌then◌else◌, ◌==◌, Str,
  add64, Time, before, after, Float, ◌>>=◌, length,
}
use itt_engine.Map
use itt_engine.Map.{Map, is_some, keys, values}

pub record NodeData (F : Type 0) : Type 0 where
  pub id : Str
  pub type : Str
  pub degree : ℕ
  pub in_degree : ℕ
  pub out_degree : ℕ
  pub attributes : Option (Map Str F)
  pub first_seen : Time
  pub last_seen : Time

pub record EdgeData (F : Type 0) : Type 0 where
  pub from : Str
  pub to : Str
  pub weight : F
  pub type : Str
  pub count : ℕ
  pub first_seen : Time
  pub last_seen : Time

-- `from + "\x00" + to`
unfoldable pub edge_key : Str → Str → Str
edge_key from to = from ++ (0 ∷ to)

abbrev pub Rows : Type 0
Rows = Map Str (Map Str Bool)

-- `out` and `in` hold the adjacency.
pub record Graph (F : Type 0) : Type 0 where
  pub nodes : Map Str (NodeData F)
  pub edges : Map Str (EdgeData F)
  pub out : Rows
  pub into : Rows

-- `if rows[id] == nil { rows[id] = make(map[string]bool) }`
unfoldable pub ensure_row : Str → Rows → Rows
ensure_row id rows = if Map.contains id rows then rows else Map.put id [] rows

-- `rows[a][b] = true`
unfoldable pub link : Str → Str → Rows → Option Rows
link a b rows = elim (Map.get a rows) [
  | none ↦ none
  | some row ↦ some (Map.put a (Map.put b true row) rows)
]

module _ {F : Type 0} where
  abbrev pub new : Graph F
  new = record { nodes = []; edges = []; out = []; into = [] }

  -- what `AddNode` does to a node that is there
  unfoldable pub update_node : NodeData F → NodeData F → NodeData F
  update_node n existing = record existing {
    type = n.type;
    last_seen = if n.last_seen == 0 then existing.last_seen else n.last_seen;
  }

  unfoldable pub add_node : NodeData F → Graph F → Graph F
  add_node n g =
      if Map.contains n.id g.nodes
      then record g { nodes = Map.modify n.id (update_node n) g.nodes }
      else record g {
        nodes = Map.put n.id n g.nodes;
        out = ensure_row n.id g.out;
        into = ensure_row n.id g.into;
      }

  unfoldable pub get_node : Str → Graph F → Option (NodeData F)
  get_node id g = Map.get id g.nodes

  -- `&NodeData{ID: id, FirstSeen: ts, LastSeen: ts}`
  abbrev pub seen_node : Str → Time → NodeData F
  seen_node id ts = record {
    id = id;
    type = [];
    degree = 0;
    in_degree = 0;
    out_degree = 0;
    attributes = none;
    first_seen = ts;
    last_seen = ts;
  }

  unfoldable pub ensure_node : Str → Time → Graph F → Graph F
  ensure_node id ts g = if Map.contains id g.nodes then g else add_node (seen_node id ts) g

  abbrev pub count_out : NodeData F → NodeData F
  count_out n = record n { out_degree = add64 n.out_degree 1; degree = add64 n.degree 1 }

  abbrev pub count_in : NodeData F → NodeData F
  count_in n = record n { in_degree = add64 n.in_degree 1; degree = add64 n.degree 1 }

  unfoldable pub get_edge : Str → Str → Graph F → Option (EdgeData F)
  get_edge from to g = Map.get (edge_key from to) g.edges

module _ {F : Type 0} ⦃float : Float F⦄ where
  -- what `AddEdge` does to an edge that is there
  unfoldable pub accumulate : F → Time → EdgeData F → EdgeData F
  accumulate weight ts e = record e {
    weight = float.add e.weight weight;
    count = add64 e.count 1;
    first_seen = if before ts e.first_seen then ts else e.first_seen;
    last_seen = if after ts e.last_seen then ts else e.last_seen;
  }

  abbrev pub new_edge : Str → Str → F → Str → Time → EdgeData F
  new_edge from to weight type ts = record {
    from = from;
    to = to;
    weight = weight;
    type = type;
    count = 1;
    first_seen = ts;
    last_seen = ts;
  }

  -- the part of `AddEdge` after its two guards
  unfoldable pub put_edge : Str → Str → F → Str → Time → Graph F → Option (Graph F)
  put_edge from to weight type ts g =
      if Map.contains (edge_key from to) g.edges
      then some (record g { edges = Map.modify (edge_key from to) (accumulate weight ts) g.edges })
      else do
        out ← link from to g.out
        into ← link to from g.into
        some (record g {
          edges = Map.put (edge_key from to) (new_edge from to weight type ts) g.edges;
          out = out;
          into = into;
          nodes = Map.modify to count_in (Map.modify from count_out g.nodes);
        })

  unfoldable pub add_edge : Str → Str → F → Str → Time → Graph F → Option (Graph F)
  add_edge from to weight type ts g =
      put_edge from to weight type ts (ensure_node to ts (ensure_node from ts g))

-- `m[k]` of a `map[string]bool`: a missing key reads false
unfoldable pub flag : Str → Map Str Bool → Bool
flag k m = elim (Map.get k m) [ none ↦ false | some b ↦ b ]

-- `for id := range ids { if !seen[id] { seen[id] = true; result = append(result, id) } }`
unfoldable pub collect : List Str → Map Str Bool → List Str → Map Str Bool × List Str
collect [] seen result = (seen, result)
collect (id ∷ ids) seen result =
    if flag id seen
    then collect ids seen result
    else collect ids (Map.put id true seen) (result ++ (id ∷ []))

-- the keys of `rows[id]`; a nil map has none
unfoldable pub row : Str → Rows → List Str
row id rows = elim (Map.get id rows) [ none ↦ [] | some r ↦ keys r ]

module _ {F : Type 0} where
  unfoldable pub out_neighbors : Str → Graph F → List Str
  out_neighbors id g = row id g.out

  unfoldable pub in_neighbors : Str → Graph F → List Str
  in_neighbors id g = row id g.into

  unfoldable pub neighbors : Str → Graph F → List Str
  neighbors id g =
      let (seen, result) = collect (row id g.out) [] [] in (collect (row id g.into) seen result).1

  unfoldable pub node_count : Graph F → ℕ
  node_count g = length g.nodes

  unfoldable pub edge_count : Graph F → ℕ
  edge_count g = length g.edges
