-- ===== src/Gpu/Serialize.antt =====
-- gpu/serialize.go: the edges of a view as sorted rows, by source (CSR) and by target (CSC). The two
-- arrays of a row are one list of pairs; `none` is a read, a write or a slice out of bounds. An index
-- or a pointer stands for an `int32`: it counts nodes or edges, and has to stay below 2 ^ 31.
-- `sort.Strings` leaves the one order that the sort of analysis/curvature.go leaves.
use itt_engine.Prelude.{
  ℕ, zero, suc, ◌+◌, ◌-◌, ◌==◌, Bool, Option, none, some, List, [], ◌∷◌, ◌++◌, map, Str, str_key,
  Float, length, get_elem?, set, replicate, ltb, ◌||◌, if◌then◌else◌, ◌>>=◌,
}
use itt_engine.Map
use itt_engine.Map.{Map}
use itt_engine.Graph.{NodeData, EdgeData}
use itt_engine.Analysis.{GraphView}
use itt_engine.Parallel.{take, drop}
use itt_engine.Sort.{rounds, pred, sort_strings}

-- the sorted rows of a `CSRGraph` or of a `CSCGraph`: the pointers, the indices and the weights
pub record Layout (F : Type 0) : Type 0 where
  pub ptr : List ℕ
  pub idx : List ℕ
  pub values : List F

pub record CsrGraph (F : Type 0) : Type 0 where
  pub rows : Layout F
  pub num_nodes : ℕ
  pub num_edges : ℕ
  pub node_ids : List Str
  pub node_idx : Map Str ℕ

pub record CscGraph (F : Type 0) : Type 0 where
  pub rows : Layout F
  pub num_nodes : ℕ
  pub num_edges : ℕ

-- `for i, id := range nodeIDs { nodeIdx[id] = i }`
unfoldable pub index_from : ℕ → List Str → Map Str ℕ → Map Str ℕ
index_from i [] m = m
index_from i (id ∷ ids) m = index_from (i + 1) ids (Map.put id i m)

-- `ptr[i]++`
unfoldable pub increment : ℕ → List ℕ → Option (List ℕ)
increment i l = do x ← get_elem? l i; some (set l i (x + 1))

-- `for i := 1; i <= n; i++ { ptr[i] += ptr[i-1] }`, with the entry before
unfoldable pub prefix_sums : ℕ → List ℕ → List ℕ
prefix_sums before [] = []
prefix_sums before (x ∷ xs) = (before + x) ∷ prefix_sums (before + x) xs

module _ {F : Type 0} ⦃float : Float F⦄ where
  abbrev pub before : ℕ × F → ℕ × F → Bool
  before (c, _) (d, _) = ltb c d

  -- `sortCSRRow`
  unfoldable pub sort_csr_row : List (ℕ × F) → List (ℕ × F)
  sort_csr_row row = rounds before (0, float.nought) (pred (length row)) 1 row

  -- `sortCSRRow(idx[lo:hi], values[lo:hi])`
  unfoldable pub sort_slice : ℕ → ℕ → List (ℕ × F) → Option (List (ℕ × F))
  sort_slice lo hi entries =
      if ltb hi lo || ltb (length entries) hi
      then none
      else some
          (take lo entries ++ sort_csr_row (take (hi - lo) (drop lo entries)) ++ drop hi entries)

  -- the loop that sorts `k` rows from row `i` on
  unfoldable pub sort_rows : List ℕ → ℕ → ℕ → List (ℕ × F) → Option (List (ℕ × F))
  sort_rows ptr i zero entries = some entries
  sort_rows ptr i (suc k) entries = do
    lo ← get_elem? ptr i
    hi ← get_elem? ptr (i + 1)
    sorted ← sort_slice lo hi entries
    sort_rows ptr (i + 1) k sorted

  -- The two passes over the edges, by the end of an edge that names its row and the end that names its
  -- column.
  module _ (row_end col_end : EdgeData F → Str) (node_idx : Map Str ℕ) where
    unfoldable pub count_degrees : List (EdgeData F) → List ℕ → Option (List ℕ)
    count_degrees [] ptr = some ptr
    count_degrees (e ∷ es) ptr = elim (Map.get (row_end e) node_idx) [
      | none ↦ count_degrees es ptr
      | some r ↦ (increment (r + 1) ptr >>= λ ptr'. count_degrees es ptr')
    ]

    -- `pos := cursor[r]; cursor[r]++; idx[pos] = c; values[pos] = weight`
    unfoldable pub place : ℕ → ℕ → F → List ℕ × List (ℕ × F) → Option (List ℕ × List (ℕ × F))
    place r c weight (cursor, entries) = do
      pos ← get_elem? cursor r
      if ltb pos (length entries)
          then some (set cursor r (pos + 1), set entries pos (c, weight))
          else none

    unfoldable pub fill : List (EdgeData F) → List ℕ × List (ℕ × F) → Option (List ℕ × List (ℕ × F))
    fill [] w = some w
    fill (e ∷ es) w = elim (Map.get (row_end e) node_idx) [
      | none ↦ fill es w
      | some r ↦ elim (Map.get (col_end e) node_idx) [
        | none ↦ fill es w
        | some c ↦ (place r c e.weight w >>= λ w'. fill es w')
      ]
    ]

    unfoldable pub lay_out : ℕ → ℕ → List (EdgeData F) → Option (Layout F)
    lay_out n num_edges edges = do
      counts ← count_degrees edges (replicate (n + 1) 0)
      let ptr = prefix_sums 0 counts
      (cursor, entries) ← fill edges (take n ptr, replicate num_edges (0, float.nought))
      sorted ← sort_rows ptr 0 n entries
      some (record { ptr = ptr; idx = map (λ r. r.0) sorted; values = map (λ r. r.1) sorted })

  unfoldable pub serialize_csr : GraphView F → Option (CsrGraph F)
  serialize_csr g =
      let n = g.node_count in
      let node_ids = sort_strings (map NodeData.id g.nodes) in
      let node_idx = index_from 0 node_ids [] in
      if n == 0
      then some (record {
        rows = record { ptr = 0 ∷ []; idx = []; values = [] };
        num_nodes = 0;
        num_edges = 0;
        node_ids = [];
        node_idx = [];
      })
      else (lay_out (λ e. e.from) (λ e. e.to) node_idx n g.edge_count g.edges >>= λ rows.
          some (record {
            rows = rows;
            num_nodes = n;
            num_edges = g.edge_count;
            node_ids = node_ids;
            node_idx = node_idx;
          }))

  unfoldable pub serialize_csc : GraphView F → Map Str ℕ → Option (CscGraph F)
  serialize_csc g node_idx =
      let n = g.node_count in
      if n == 0
      then some (record {
        rows = record { ptr = 0 ∷ []; idx = []; values = [] };
        num_nodes = 0;
        num_edges = 0;
      })
      else (lay_out (λ e. e.to) (λ e. e.from) node_idx n g.edge_count g.edges >>= λ rows.
          some (record { rows = rows; num_nodes = n; num_edges = g.edge_count }))
