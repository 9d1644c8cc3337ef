-- ===== src/Parallel/Chunks.antt =====
-- `partitionNodes` of analysis/parallel.go cuts a list in order, into no more chunks than workers.
use itt_engine.Prelude.{
  ◌==◌, ◌≡◌, refl, ℕ, zero, suc, ◌+◌, ◌-◌, ◌*◌, ◌/◌, ◌≤◌, ◌<◌, min, true, false, List, [], ◌∷◌,
  ◌++◌, ltb, length, ℤ, arith, ap, sym, dec_lt, append-nil,
}
use native.Mathlib.Nat.{lt-div-mul-add, mul_comm, zero-mul}
use itt_engine.Parallel.{take, drop, chunks_from, workers_for, partition_nodes, concat}

-- the size of a chunk is enough for the workers to take all
size_enough : (n w : ℕ) → 0 < w → 0 < n → (0 < (n + w - 1) / w) × (n ≤ 0 + w * ((n + w - 1) / w))
size_enough n w p q =
    let near = lt-div-mul-add {a = n + w - 1} {b = w} p in
    let size = (n + w - 1) / w in
    let swap = mul_comm size w in
    (
      elim (dec_lt 0 size) [
        | yes big ↦ big
        | no small ↦
            let none_left : size ≡ 0 = omega arith in
            let flat : size * w ≡ 0 = rw none_left (zero-mul w) in absurd (omega arith)
      ],
      omega arith,
    )

module _ {A : Type 0} where
  drop-all : (n : ℕ) (l : List A) → length l ≤ n → drop n l ≡ []
  unfolding drop
  drop-all zero [] h = refl
  drop-all zero (x ∷ l) h = absurd (omega arith)
  drop-all (suc n) [] h = refl
  drop-all (suc n) (x ∷ l) h = drop-all n l (omega arith)

  take-all : (n : ℕ) (l : List A) → length l ≤ n → take n l ≡ l
  unfolding take
  take-all zero [] h = refl
  take-all zero (x ∷ l) h = absurd (omega arith)
  take-all (suc n) [] h = refl
  take-all (suc n) (x ∷ l) h = ap (◌∷◌ x) (take-all n l (omega arith))

  length-drop : (n : ℕ) (l : List A) → length (drop n l) ≡ length l - n
  unfolding drop
  length-drop zero l = omega arith
  length-drop (suc n) [] = omega arith
  length-drop (suc n) (x ∷ l) = omega (arith, length-drop n l)

  length-take : (n : ℕ) (l : List A) → length (take n l) ≡ min n (length l)
  unfolding take
  length-take zero l = omega arith
  length-take (suc n) [] = omega arith
  length-take (suc n) (x ∷ l) = omega (arith, length-take n l)

  take-append-drop : (n : ℕ) (l : List A) → take n l ++ drop n l ≡ l
  unfolding take drop
  take-append-drop zero l = refl
  take-append-drop (suc n) [] = refl
  take-append-drop (suc n) (x ∷ l) = ap (◌∷◌ x) (take-append-drop n l)

  drop-nil : (n : ℕ) → drop {A = A} n [] ≡ []
  unfolding drop
  drop-nil zero = refl
  drop-nil (suc n) = refl

  drop-drop : (m n k : ℕ) (l : List A) → m + n ≡ k → drop n (drop m l) ≡ drop k l
  unfolding drop
  drop-drop zero n k l e = let same : n ≡ k = omega arith in rw same refl
  drop-drop (suc m) n zero l e = absurd (omega arith)
  drop-drop (suc m) n (suc k) [] e = drop-nil n
  drop-drop (suc m) n (suc k) (x ∷ l) e = drop-drop m n k l (omega arith)

  concat-chunks_from :
      (fuel size i : ℕ) (nodes : List A)
      → 0 < size
      → length nodes - i ≤ fuel
      → concat (chunks_from fuel size i nodes) ≡ drop i nodes
  unfolding chunks_from
  concat-chunks_from zero size i nodes p h = sym (drop-all i nodes (omega arith))
  concat-chunks_from (suc fuel) size i nodes p h =
      let rest = concat-chunks_from fuel size (i + size) nodes p (omega arith) in
      elim (dec_lt i (length nodes)) [
        | no past ↦
            let out : ltb i (length nodes) ≡ false = ground arith in
            rw (out, chunks_from) (sym (drop-all i nodes (omega arith)))
        | yes inside ↦
            let within : ltb i (length nodes) ≡ true = ground arith in
            elim (dec_lt (length nodes) (i + size)) [
              | yes last ↦
                  let short : ltb (length nodes) (i + size) ≡ true = ground arith in
                  let whole =
                    take-all (length nodes - i) (drop i nodes)
                      (omega (arith, length-drop i nodes)) in
                  let gone = drop-all (i + size) nodes (omega arith) in
                  ground (arith, rest, whole, gone, append-nil (drop i nodes))
              | no more ↦
                  let full : ltb (length nodes) (i + size) ≡ false = ground arith in
                  let wide : i + size - i ≡ size = omega arith in
                  rw (within, full, rest, wide, ← drop-drop i size (i + size) nodes refl)
                    (take-append-drop size (drop i nodes))
            ]
      ]

  -- none is empty, and none is longer than a size
  abbrev pub AllSized : ℕ → List (List A) → Type 0
  AllSized size [] = Unit
  AllSized size (c ∷ cs) = (0 < length c) × (length c ≤ size) × AllSized size cs

  chunks_from-AllSized :
      (fuel size i : ℕ) (nodes : List A) → 0 < size → AllSized size (chunks_from fuel size i nodes)
  unfolding chunks_from
  chunks_from-AllSized zero size i nodes p = tt
  chunks_from-AllSized (suc fuel) size i nodes p = ground (
    arith,
    chunks_from-AllSized fuel size (i + size) nodes p,
    length-take (i + size - i) (drop i nodes),
    length-take (length nodes - i) (drop i nodes),
    length-drop i nodes,
  )

  length-chunks_from :
      (fuel size i m : ℕ) (nodes : List A)
      → length nodes ≤ i + m * size
      → length (chunks_from fuel size i nodes) ≤ m
  unfolding chunks_from
  length-chunks_from zero size i m nodes h = omega arith
  length-chunks_from (suc fuel) size i zero nodes h = ground arith
  length-chunks_from (suc fuel) size i (suc m) nodes h =
      ground (arith, length-chunks_from fuel size (i + size) m nodes (grind arith))

  -- With at least one worker, `partitionNodes` cuts the nodes in their order: the chunks, one after
  -- the other, are the nodes; they are no more than the workers; and none is empty, or longer than
  -- the nodes divided by the workers, rounded up.
  pub partition_nodes_lem :
      (cpus : ℕ) (workers : ℤ) (nodes : List A)
      → 0 < workers_for cpus workers
      → let w = workers_for cpus workers in
        let chunks = partition_nodes cpus workers nodes in
        (concat chunks ≡ nodes) × (length chunks ≤ w) × AllSized ((length nodes + w - 1) / w) chunks
  unfolding partition_nodes drop
  partition_nodes_lem cpus workers [] p = (refl, omega arith, tt)
  partition_nodes_lem cpus workers (x ∷ nodes) p =
      let w = workers_for cpus workers in
      let all = x ∷ nodes in
      let size = (length all + w - 1) / w in
      let (big, enough) = size_enough (length all) w p (omega arith) in
      let filled : (length all == 0) ≡ false = ground arith in
      (
        rw filled (concat-chunks_from (length all) size 0 all big (omega arith)),
        rw filled (length-chunks_from (length all) size 0 w all enough),
        rw filled (chunks_from-AllSized (length all) size 0 all big),
      )
