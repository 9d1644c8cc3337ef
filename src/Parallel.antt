-- ===== src/Parallel.antt =====
-- analysis/parallel.go: the nodes are cut into chunks, and a goroutine for each chunk stores the
-- tensions of its nodes. `cpus` is what `runtime.NumCPU` returns.
pub mod Chunks
pub mod Agree
use itt_engine.Prelude.{
  ◌==◌, ℕ, zero, suc, ◌+◌, ◌-◌, ◌*◌, ◌/◌, Bool, true, false, List, [], ◌∷◌, ◌++◌, Str, str_key, ltb,
  leb, length, if◌then◌else◌, ℤ, pos, pos_part, leb_ℤ, ◌≡◌, min,
}
use itt_engine.Map
use itt_engine.Map.{Map}
use itt_engine.Map.Entries.{copy_into}
use itt_engine.Analysis.{GraphView}
use itt_engine.View.Visits.{ids}

-- `l[:n]` and `l[n:]`
module _ {A : Type 0} where
  unfoldable pub take : ℕ → List A → List A
  take zero l = []
  take (suc n) [] = []
  take (suc n) (x ∷ xs) = x ∷ take n xs

  unfoldable pub drop : ℕ → List A → List A
  drop zero l = l
  drop (suc n) [] = []
  drop (suc n) (x ∷ xs) = drop n xs

  -- `nodes[i:end]`
  abbrev pub slice : ℕ → ℕ → List A → List A
  slice i end l = take (end - i) (drop i l)

  -- the loop of `partitionNodes`; the fuel counts its rounds
  unfoldable pub chunks_from : ℕ → ℕ → ℕ → List A → List (List A)
  chunks_from zero size i nodes = []
  chunks_from (suc fuel) size i nodes =
      let rest = chunks_from fuel size (i + size) nodes in
      let end = if ltb (length nodes) (i + size) then length nodes else i + size in
      if ltb i (length nodes) then slice i end nodes ∷ rest else []

abbrev pub workers_for : ℕ → ℤ → ℕ
workers_for cpus workers = if leb_ℤ workers (pos 0) then cpus else pos_part workers

unfoldable pub partition_nodes : {A : Type 0} → ℕ → ℤ → List A → List (List A)
partition_nodes cpus workers nodes =
    let size = (length nodes + workers_for cpus workers - 1) / workers_for cpus workers in
    if length nodes == 0 then [] else chunks_from (length nodes) size 0 nodes

abbrev pub concat : {A : Type 0} → List (List A) → List A
concat [] = []
concat (c ∷ cs) = c ++ concat cs

-- The schedules of some goroutines, each of which makes its stores in order.
pub data Interleaves {A : Type 0} : List (List A) → List A → Type 0 where
  done : {cs : List (List A)} → concat cs ≡ [] → Interleaves cs []
  next :
      {cs : List (List A)} {l : List A} (before : List (List A)) (x : A) (xs : List A)
      (after : List (List A))
      → cs ≡ before ++ ((x ∷ xs) ∷ after)
      → Interleaves (before ++ (xs ∷ after)) l
      → Interleaves cs (x ∷ l)

module _ {V : Type 0} (calculate : Str → V) where
  -- `resultMap.Store(id, tension)` and `result[n.ID] = …`, for some nodes in turn
  unfoldable pub store_all : List Str → Map Str V → Map Str V
  store_all [] m = m
  store_all (id ∷ ids) m = store_all ids (Map.put id (calculate id) m)

  -- `CalculateAll` of analysis/tension.go
  unfoldable pub calculate_all : {F : Type 0} → GraphView F → Map Str V
  calculate_all g = store_all (ids g.nodes) []

  -- `CalculateAllParallel`, where the goroutines have stored in the order `schedule`
  unfoldable pub calculate_all_parallel : {F : Type 0} → GraphView F → List Str → Map Str V
  calculate_all_parallel g schedule =
      if ltb (length (ids g.nodes)) 100
      then calculate_all g
      else copy_into (store_all schedule []) []
