-- ===== src/Gpu/Kernel.antt =====
-- The kernel of gpu/jsd_kernel.go beside `Calculate` of analysis/tension.go.
use itt_engine.Prelude.{
  ◌≡◌, refl, ℕ, ◌+◌, ◌<◌, true, some, List, [], ◌∷◌, map, Str, Float, arith, ap, Option-cases, inl,
  inr,
}
use itt_engine.Map.{is_some}
use itt_engine.Analysis.{GraphView}
use itt_engine.Divergence
use itt_engine.Divergence.Laws.{length-map}
use itt_engine.Tension
use itt_engine.Tension.{weight_to, perturbed_to}
use itt_engine.Gpu.{
  Arrays, normalize, kl_from, mixture, jsd, collect_neighbors, read_row, perturbed_weight, diverge,
  compute_node_tension, holds,
}

module _ {F : Type 0} ⦃float : Float F⦄ where
  normalize_lem : (dist : List F) → normalize dist ≡ Divergence.normalize dist
  unfolding normalize Divergence.normalize
  normalize_lem dist = refl

  kl_from_lem : (p q : List F) (sum : F) → kl_from sum p q ≡ Divergence.kl_from sum p q
  unfolding kl_from Divergence.kl_from
  kl_from_lem [] q sum = refl
  kl_from_lem (x ∷ p) [] sum = refl
  kl_from_lem (x ∷ p) (y ∷ q) sum = kl_from_lem p q _

  mixture_lem : (p q : List F) → mixture p q ≡ Divergence.mixture p q
  unfolding mixture Divergence.mixture
  mixture_lem [] q = refl
  mixture_lem (x ∷ p) [] = refl
  mixture_lem (x ∷ p) (y ∷ q) = ground (arith, mixture_lem p q)

  jsd_lem : (p q : List F) → jsd p q ≡ Divergence.jsd p q
  unfolding jsd Divergence.jsd Divergence.kl_div
  jsd_lem p q = simp (mixture_lem, kl_from_lem)

  module _ (a : Arrays F) (g : GraphView F) (name : ℕ → Str) where
    -- the row of a node lists its outgoing neighbors, by their indices, and the weights of its edges
    abbrev pub HasRow : ℕ → Type 0
    HasRow n =
        (row : List (ℕ × F)) × (read_row a n ≡ some row)
        × (g.out_neighbors (name n) ≡ map (λ r. name r.0) row)
        × (map (λ r. r.1) row ≡ map (weight_to Divergence.jsd g (name n)) (map (λ r. name r.0) row))

    module _ (apart : (i j : ℕ) → name i ≡ name j → i ≡ j) where
      perturbed_one :
          (node n t : ℕ) (w : F)
          → w ≡ weight_to Divergence.jsd g (name n) (name t)
          → perturbed_weight a node (t, w)
            ≡ perturbed_to Divergence.jsd g (name node) (name n) (name t)
      perturbed_one node n t w h = grind (arith, apart, ap name)

      perturbed_weight_lem :
          (node n : ℕ) (row : List (ℕ × F))
          → map (λ r. r.1) row ≡ map (weight_to Divergence.jsd g (name n)) (map (λ r. name r.0) row)
          → map (perturbed_weight a node) row
            ≡ map (perturbed_to Divergence.jsd g (name node) (name n)) (map (λ r. name r.0) row)
      perturbed_weight_lem node n [] h = refl
      perturbed_weight_lem node n ((t, w) ∷ row) h =
          let one = perturbed_one node n t w in
          let rest = perturbed_weight_lem node n row in ground arith

      -- the divergence that a neighbor adds
      distance_lem :
          (node n : ℕ) (row : List (ℕ × F))
          → g.out_neighbors (name n) ≡ map (λ r. name r.0) row
          → map (λ r. r.1) row ≡ map (weight_to Divergence.jsd g (name n)) (map (λ r. name r.0) row)
          → jsd (normalize (map (λ r. r.1) row)) (normalize (map (perturbed_weight a node) row))
            ≡ Divergence.jsd
                (Divergence.normalize
                  (map (weight_to Divergence.jsd g (name n)) (g.out_neighbors (name n))))
                (Divergence.normalize (
                  map
                    (perturbed_to Divergence.jsd g (name node) (name n))
                    (g.out_neighbors (name n))))
      distance_lem node n row outs weights =
          let perturbed = perturbed_weight_lem node n row weights in
          rw (jsd_lem, normalize_lem, normalize_lem, outs, perturbed, weights) refl

      diverge_lem :
          (node : ℕ) (ns : List ℕ) (total : F) (count : ℕ)
          → ((n : ℕ) → holds n ns ≡ true → HasRow n)
          → diverge a node ns total count
            ≡ Tension.diverge Divergence.jsd g (name node) (map name ns) total count
      unfolding diverge Tension.diverge holds
      diverge_lem node [] total count rows = refl
      diverge_lem node (n ∷ ns) total count rows =
          let (row, reads, outs, weights) = rows n (ground arith) in
          let rest : (t : F) (c : ℕ)
              → diverge a node ns t c
                ≡ Tension.diverge Divergence.jsd g (name node) (map name ns) t c =
            λ t c. diverge_lem node ns t c (λ m h. rows m (ground arith)) in
          let distance = distance_lem node n row outs weights in
          let long = length-map (λ r. name r.0) row in
          elim (Option-cases (
            jsd (normalize (map (λ r. r.1) row)) (normalize (map (perturbed_weight a node) row)))) [
              | inl panics ↦ grind (arith, rest total count)
              | inr (d, found) ↦
                  grind (arith, rest total count, rest (float.add total d) (count + 1))
            ]

      -- Let different indices name different nodes of a view, and let the row of each neighbor of a
      -- node hold the outgoing edges that the view lists for it, in the same order. For a node of the
      -- view with an index below the number of nodes, whose neighbors the kernel collects in the
      -- order of the view, the kernel returns what `Calculate` returns with the Jensen-Shannon
      -- divergence, panics included.
      pub compute_node_tension-calculate :
          (node num_nodes : ℕ) (ns : List ℕ)
          → node < num_nodes
          → is_some (g.get_node (name node)) ≡ true
          → collect_neighbors a node ≡ some ns
          → g.neighbors (name node) ≡ map name ns
          → ((n : ℕ) → holds n ns ≡ true → HasRow n)
          → compute_node_tension a node num_nodes ≡ Tension.calculate Divergence.jsd g (name node)
      unfolding compute_node_tension Tension.calculate
      compute_node_tension-calculate node num_nodes ns below known collects lists rows =
          let same = diverge_lem node ns float.nought 0 rows in
          let long = length-map name ns in grind arith
