-- ===== src/Gpu.antt =====
-- gpu/jsd_kernel.go: the tension of a node over flat arrays. Indices are natural numbers: an `int32`
-- below 0 is no index, and none that the loops reach is past the `int32` that ends a row. `none` is a
-- panic: an index out of range, or a slice of negative length.

pub mod Serialize
pub mod Rows
pub mod Kernel
use itt_engine.Prelude.{
  ℕ, zero, suc, ◌+◌, ◌-◌, ◌==◌, Bool, true, false, Option, none, some, List, [], ◌∷◌, ◌++◌, map,
  Float, length, get_elem?, ltb, if◌then◌else◌, ◌>>=◌, ◌||◌,
}
use itt_engine.Divergence.{sum_from}

-- the arrays of `ComputeNodeTension`
pub record Arrays (F : Type 0) : Type 0 where
  pub csr_row_ptr : List ℕ
  pub csr_col_idx : List ℕ
  pub csr_values : List F
  pub csc_col_ptr : List ℕ
  pub csc_row_idx : List ℕ

module _ {F : Type 0} ⦃float : Float F⦄ where
  abbrev kernel_epsilon : F
  kernel_epsilon = float.literal 1 12

  abbrev kernel_half : F
  kernel_half = float.literal 5 1

  unfoldable pub normalize : List F → List F
  normalize dist =
      let total = sum_from float.nought dist in
      let uniform = float.div float.one (float.of_int (length dist)) in
      if float.eq total float.nought
      then map (λ _. uniform) dist
      else map (λ v. float.div v total) dist

  -- the loop of `klDiv`, from a partial sum on
  unfoldable pub kl_from : F → List F → List F → Option F
  kl_from sum [] q = some sum
  kl_from sum (x ∷ p) [] = none
  kl_from sum (x ∷ p) (y ∷ q) =
      let pi = float.add x kernel_epsilon in
      let qi = float.add y kernel_epsilon in
      let term = float.mul pi (float.log2 (float.div pi qi)) in
      kl_from (if float.lt kernel_epsilon pi then float.add sum term else sum) p q

  -- the loop of `jsd`
  unfoldable pub mixture : List F → List F → Option (List F)
  mixture [] q = some []
  mixture (x ∷ p) [] = none
  mixture (x ∷ p) (y ∷ q) = do
    rest ← mixture p q
    some (float.add (float.mul kernel_half x) (float.mul kernel_half y) ∷ rest)

  unfoldable pub jsd : List F → List F → Option F
  jsd p q = do
    m ← mixture p q
    a ← kl_from float.nought p m
    b ← kl_from float.nought q m
    some (float.add (float.mul kernel_half a) (float.mul kernel_half b))

-- a loop of `collectNeighbors` over `k` entries; `seen` holds what `result` holds
unfoldable pub holds : ℕ → List ℕ → Bool
holds x [] = false
holds x (y ∷ ys) = x == y || holds x ys

unfoldable pub collect_from : List ℕ → ℕ → ℕ → List ℕ → Option (List ℕ)
collect_from entries i zero result = some result
collect_from entries i (suc k) result = do
  target ← get_elem? entries i
  collect_from entries (i + 1) k (if holds target result then result else result ++ (target ∷ []))

module _ {F : Type 0} ⦃float : Float F⦄ (a : Arrays F) where
  unfoldable pub collect_neighbors : ℕ → Option (List ℕ)
  collect_neighbors node = do
    out_start ← get_elem? a.csr_row_ptr node
    out_end ← get_elem? a.csr_row_ptr (node + 1)
    outs ← collect_from a.csr_col_idx out_start (out_end - out_start) []
    in_start ← get_elem? a.csc_col_ptr node
    in_end ← get_elem? a.csc_col_ptr (node + 1)
    collect_from a.csc_row_idx in_start (in_end - in_start) outs

  -- the loop that reads the targets and the weights of a row
  unfoldable pub read_from : ℕ → ℕ → Option (List (ℕ × F))
  read_from i zero = some []
  read_from i (suc k) = do
    w ← get_elem? a.csr_values i
    target ← get_elem? a.csr_col_idx i
    rest ← read_from (i + 1) k
    some ((target, w) ∷ rest)

  unfoldable pub read_row : ℕ → Option (List (ℕ × F))
  read_row n = do
    out_start ← get_elem? a.csr_row_ptr n
    out_end ← get_elem? a.csr_row_ptr (n + 1)
    if ltb out_end out_start then none else read_from out_start (out_end - out_start)

  -- `perturbed[i]`
  abbrev pub perturbed_weight : ℕ → ℕ × F → F
  perturbed_weight node (target, w) = if target == node then float.nought else w

  -- the loop over the neighbors, with `totalDiv` and `count`
  unfoldable pub diverge : ℕ → List ℕ → F → ℕ → Option (F × ℕ)
  diverge node [] total count = some (total, count)
  diverge node (n ∷ ns) total count = do
    row ← read_row n
    let original = map (λ r. r.1) row
    let perturbed = map (perturbed_weight node) row
    let computed = jsd (normalize original) (normalize perturbed)
    if length row == 0
        then diverge node ns total count
        else (computed >>= λ d. diverge node ns (float.add total d) (count + 1))

  unfoldable pub compute_node_tension : ℕ → ℕ → Option F
  compute_node_tension node num_nodes =
      if ltb node num_nodes
      then (collect_neighbors node >>= λ neighbors.
          if length neighbors == 0
          then some float.nought
          else (diverge node neighbors float.nought 0 >>= λ r.
              some (if r.1 == 0 then float.nought else float.div r.0 (float.of_int r.1))))
      else some float.nought

  -- the loop of `ComputeAllTensions`, for `k` nodes from `i` on
  unfoldable pub tensions_from : ℕ → ℕ → ℕ → Option (List F)
  tensions_from num_nodes i zero = some []
  tensions_from num_nodes i (suc k) = do
    t ← compute_node_tension i num_nodes
    rest ← tensions_from num_nodes (i + 1) k
    some (t ∷ rest)

  unfoldable pub compute_all_tensions : ℕ → Option (List F)
  compute_all_tensions num_nodes = tensions_from num_nodes 0 num_nodes
