-- ===== src/Graph/Neighbors.antt =====
-- `Neighbors` of graph/graph.go, and the deduplicating loop that graph/view.go repeats.
use itt_engine.Prelude.{
  ◌≡◌, refl, Bool, true, false, ◌||◌, ite, Str, Str-discrete, str_key, arith, ◌∷◌, [], ◌++◌, List,
  Bool-cases, inl, inr,
}
use itt_engine.Map
use itt_engine.Map.{Map, mem, distinct, keys}
use itt_engine.Map.Laws.{get-put, mem-keys}
use itt_engine.Map.Members.{mem-append, distinct-append_one}
use itt_engine.Graph.{
  Graph, Rows, flag, collect, row, neighbors, out_neighbors, in_neighbors, edge_key,
}
use itt_engine.Graph.Valid.{IsValid, linked, joins}

-- `seen` holds just what `result` lists, and `result` lists nothing twice
pub record IsTracked (seen : Map Str Bool) (result : List Str) : Type 0 where
  pub marked : (x : Str) → flag x seen ≡ mem x result
  pub single : distinct result ≡ true

pub flag-put :
    (id x : Str) (seen : Map Str Bool)
    → flag x (Map.put id true seen) ≡ ite (Str-discrete id x) true (flag x seen)
unfolding flag
flag-put id x seen = ground (arith, get-put id x true seen)

IsTracked-put :
    (id : Str) (seen : Map Str Bool) (result : List Str)
    → flag id seen ≡ false
    → IsTracked seen result
    → IsTracked (Map.put id true seen) (result ++ (id ∷ []))
unfolding Map.mem
IsTracked-put id seen result new t = record {
  marked = λ x. ground (arith, flag-put id x seen, t.marked x, mem-append x result (id ∷ []));
  single = ground (arith, distinct-append_one id result, t.marked id, t.single);
}

-- The loop keeps track, and lists what was listed and what it went through.
pub collect-IsTracked :
    (ids : List Str) (seen : Map Str Bool) (result : List Str)
    → IsTracked seen result
    → let (seen', result') = collect ids seen result in
      IsTracked seen' result' × ((x : Str) → mem x result' ≡ (mem x ids || mem x result))
unfolding collect Map.mem
collect-IsTracked [] seen result t = (t, λ x. refl)
collect-IsTracked (id ∷ ids) seen result t = elim (Bool-cases (flag id seen)) [
  | inl old ↦
      let (t', m) = collect-IsTracked ids seen result t in
      rw old (t', λ x. ground (arith, m x, t.marked x, t.marked id))
  | inr fresh ↦
      let (t', m) =
        collect-IsTracked ids (Map.put id true seen) (result ++ (id ∷ []))
          (IsTracked-put id seen result fresh t) in
      rw fresh (t', λ x. ground (arith, m x, mem-append x result (id ∷ [])))
]

pub IsTracked-empty : IsTracked [] []
unfolding flag Map.get Map.mem Map.distinct
IsTracked-empty = record { marked = λ x. refl; single = refl }

-- Two rounds of the loop list the union of two lists, with no repetition.
pub collect_twice :
    (xs ys : List Str)
    → let (seen, result) = collect xs [] [] in
      let all = (collect ys seen result).1 in
      (distinct all ≡ true) × ((x : Str) → mem x all ≡ (mem x xs || mem x ys))
collect_twice xs ys =
    let (t, m) = collect-IsTracked xs [] [] IsTracked-empty in
    let (seen, result) = collect xs [] [] in
    let (t', m') = collect-IsTracked ys seen result t in
    (t'.single, λ x. ground (arith, m' x, m x, nothing x))
  where
    nothing : (x : Str) → mem x [] ≡ false
    nothing x = unfold Map.mem in refl

mem-row : (a b : Str) (rows : Rows) → mem b (row a rows) ≡ linked a b rows
unfolding row Map.mem
mem-row a b rows = grind (arith, mem-keys {V = Bool})

module _ {F : Type 0} (g : Graph F) (v : IsValid g) where
  -- On a valid graph `Neighbors` lists, once each, the nodes that an edge to or from the node
  -- joins it with; `OutNeighbors` and `InNeighbors` list those of one direction.
  pub neighbors_lem :
      (a b : Str)
      → let out = joins a b (Map.get (edge_key a b) g.edges) in
        let into = joins b a (Map.get (edge_key b a) g.edges) in
        (distinct (neighbors a g) ≡ true)
        × (mem b (neighbors a g) ≡ (out || into))
        × (mem b (out_neighbors a g) ≡ out)
        × (mem b (in_neighbors a g) ≡ into)
  unfolding neighbors out_neighbors in_neighbors
  neighbors_lem a b =
      let (single, both) = collect_twice (row a g.out) (row a g.into) in
      (
        single,
        ground (
          arith,
          both b,
          mem-row a b g.out,
          mem-row a b g.into,
          v.out_linked a b,
          v.in_linked b a,
        ),
        ground (arith, mem-row a b g.out, v.out_linked a b),
        ground (arith, mem-row a b g.into, v.in_linked b a),
      )
