-- ===== src/Bfs.antt =====
-- `bfsDistances` of analysis/curvature.go. The fuel counts the rounds of its loop; `none` is a run
-- that has used it up.
pub mod Scan
pub mod Loop
pub mod Nodes
use itt_engine.Prelude.{
  ℕ, zero, suc, ◌+◌, Option, none, some, List, [], ◌∷◌, ◌++◌, Str, str_key, leb, if◌then◌else◌,
}
use itt_engine.Map
use itt_engine.Map.{Map}
use itt_engine.Analysis.{GraphView}

-- the variables `dist` and `queue`
pub record Search : Type 0 where
  pub dist : Map Str ℕ
  pub queue : List Str

-- `dist[id]`: 0 for a missing key
abbrev pub distance : Str → Search → ℕ
distance id s = elim (Map.get id s.dist) [ none ↦ 0 | some d ↦ d ]

-- the body of the inner loop, which `d` is the distance of
unfoldable pub offer : ℕ → Str → Search → Search
offer d neighbor s = elim (Map.get neighbor s.dist) [
  | none ↦ record { dist = Map.put neighbor (d + 1) s.dist; queue = s.queue ++ (neighbor ∷ []) }
  | some _ ↦ s
]

unfoldable pub scan : ℕ → List Str → Search → Search
scan d [] s = s
scan d (neighbor ∷ ids) s = scan d ids (offer d neighbor s)

module _ (next : Str → List Str) (max_depth : ℕ) where
  -- a round, after `current` has left the queue
  unfoldable pub visit : Str → Search → Search
  visit current s =
      let d = distance current s in if leb max_depth d then s else scan d (next current) s

  unfoldable pub loop : ℕ → Search → Option (Map Str ℕ)
  loop zero s = elim s.queue [ [] ↦ some s.dist | _ ∷ _ ↦ none ]
  loop (suc fuel) s = elim s.queue [
    | [] ↦ some s.dist
    | current ∷ rest ↦ loop fuel (visit current (record s { queue = rest }))
  ]

abbrev pub begin : Str → Search
begin src = record { dist = (src, 0) ∷ []; queue = src ∷ [] }

-- each node is queued once, and so is a source that is no node
unfoldable pub bfs_distances : {F : Type 0} → GraphView F → Str → ℕ → Option (Map Str ℕ)
bfs_distances g src max_depth = loop g.neighbors max_depth (suc g.node_count) (begin src)
