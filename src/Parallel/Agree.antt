-- ===== src/Parallel/Agree.antt =====
-- `CalculateAllParallel` of analysis/parallel.go gives the results of `CalculateAll`, however its
-- goroutines take turns.
use itt_engine.Prelude.{
  ◌≡◌, refl, ℕ, true, some, List, [], ◌∷◌, ◌++◌, ite, Str, Str-discrete, str_key, arith,
  if◌then◌else◌, ℤ, ◌<◌,
}
use itt_engine.Map
use itt_engine.Map.{Map, mem, keys, distinct}
use itt_engine.Map.Laws.{get-put, distinct-keys-put}
use itt_engine.Map.Entries.{get-copy_into}
use itt_engine.Map.Members.{mem-append}
use itt_engine.Analysis.{GraphView}
use itt_engine.View.Visits.{ids}
use itt_engine.Parallel.{
  concat, Interleaves, done, next, store_all, calculate_all, calculate_all_parallel, workers_for,
  partition_nodes,
}
use itt_engine.Parallel.Chunks.{partition_nodes_lem}

mem-concat_swap :
    (k x : Str) (xs : List Str) (before after : List (List Str))
    → mem k (concat (before ++ ((x ∷ xs) ∷ after)))
      ≡ ite (Str-discrete x k) true (mem k (concat (before ++ (xs ∷ after))))
unfolding Map.mem
mem-concat_swap k x xs [] after = refl
mem-concat_swap k x xs (c ∷ before) after = ground (
  arith,
  mem-concat_swap k x xs before after,
  mem-append k c (concat (before ++ ((x ∷ xs) ∷ after))),
  mem-append k c (concat (before ++ (xs ∷ after))),
)

-- a schedule makes the stores of all chunks, and no other
mem-Interleaves :
    {cs : List (List Str)} {l : List Str} (k : Str) → Interleaves cs l → mem k l ≡ mem k (concat cs)
unfolding Map.mem
mem-Interleaves k (done empty) = rw empty refl
mem-Interleaves k (next before x xs after e rest) =
    rw e (ground (arith, mem-concat_swap k x xs before after, mem-Interleaves k rest))

module _ {V : Type 0} (calculate : Str → V) where
  pub get-store_all :
      (order : List Str) (m : Map Str V) (k : Str)
      → Map.get k (store_all calculate order m)
        ≡ (if mem k order then some (calculate k) else Map.get k m)
  unfolding store_all Map.mem
  get-store_all [] m k = refl
  get-store_all (id ∷ order) m k = elim (Str-discrete id k) [
    | yes same ↦ rw same (
        ground
          (arith, get-store_all order (Map.put k (calculate k) m) k, get-put k k (calculate k) m))
    | no other ↦
        ground (
          arith,
          get-store_all order (Map.put id (calculate id) m) k,
          get-put id k (calculate id) m,
        )
  ]

  distinct-store_all :
      (order : List Str) (m : Map Str V)
      → distinct (keys m) ≡ true
      → distinct (keys (store_all calculate order m)) ≡ true
  unfolding store_all
  distinct-store_all [] m d = d
  distinct-store_all (id ∷ order) m d =
      distinct-store_all order (Map.put id (calculate id) m)
        (distinct-keys-put id (calculate id) m d)

  -- Where the goroutines take turns in any way over the chunks of at least one worker, the results
  -- of `CalculateAllParallel` are, for every node, those of `CalculateAll`.
  pub get-calculate_all_parallel :
      {F : Type 0} (g : GraphView F) (cpus : ℕ) (workers : ℤ) {schedule : List Str} (k : Str)
      → 0 < workers_for cpus workers
      → Interleaves (partition_nodes cpus workers (ids g.nodes)) schedule
      → Map.get k (calculate_all_parallel calculate g schedule)
        ≡ Map.get k (calculate_all calculate g)
  unfolding calculate_all_parallel calculate_all Map.get Map.distinct
  get-calculate_all_parallel g cpus workers {schedule} k some_worker turns =
      let (all, few, sized) = partition_nodes_lem cpus workers (ids g.nodes) some_worker in
      let stored = mem-Interleaves k turns in
      ground (
        arith,
        all,
        stored,
        get-store_all schedule [] k,
        get-store_all (ids g.nodes) [] k,
        get-copy_into (store_all calculate schedule []) [] k,
        distinct-store_all schedule [],
      )
