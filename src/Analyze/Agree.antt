-- ===== src/Analyze/Agree.antt =====
-- `Analyze` of snapshot.go beside the tension calculator, under every schedule of the goroutines.
use itt_engine.Prelude.{
  ◌≡◌, refl, ℕ, true, none, some, List, [], ◌∷◌, map, Str, str_key, Time, Float, ℤ, length,
  if◌then◌else◌, arith, Option-cases, inl, inr, ◌<◌, ◌==◌,
}
use itt_engine.Map.{mem}
use itt_engine.View.Visits.{ids}
use itt_engine.Analysis.{GraphView}
use itt_engine.Tension
use itt_engine.Curvature.Costs.{Searches}
use itt_engine.Parallel.{Interleaves, partition_nodes, workers_for, calculate_all}
use itt_engine.Parallel.Agree.{get-store_all, get-calculate_all_parallel}
use itt_engine.Detectability.{detectability}
use itt_engine.Analyze.{Settings}
use itt_engine.Analyze.Total.{IsSettled}
use itt_engine.Analyze.Whole.{
  Results, Examined, compute_tensions, tension_of, edge_curvatures, analyze,
}
use itt_engine.Analyze.Nodes.{
  reading, expected, anomalous, examine_all-lem, edge_curvatures-total, stats_lem,
}

module _ {F : Type 0} ⦃float : Float F⦄ (settings : Settings F) (settled : IsSettled settings)
    (gv : GraphView F) where
  -- the map of the tensions holds, for every node, what the calculator computes
  tension_of-compute_tensions :
      (gpu_threshold : ℤ) (cpus : ℕ) (workers : ℤ) (schedule : List Str) (id : Str)
      → 0 < workers_for cpus workers
      → Interleaves (partition_nodes cpus workers (ids gv.nodes)) schedule
      → mem id (ids gv.nodes) ≡ true
      → tension_of (compute_tensions settings none gpu_threshold gv schedule) id
        ≡ Tension.calculate settings.divergence gv id
  unfolding compute_tensions calculate_all
  tension_of-compute_tensions gpu_threshold cpus workers schedule id some_worker turns m =
      let calculate = Tension.calculate settings.divergence gv in
      let parallel =
        get-calculate_all_parallel calculate gv cpus workers {schedule = schedule} id some_worker
          turns in
      let stored = get-store_all calculate (ids gv.nodes) [] id in ground arith

  no_results :
      {A B : Type 0} (xs : List A) (ys : List B)
      → length xs ≡ length ys
      → (length ys == 0) ≡ true
      → xs ≡ []
  no_results [] ys h e = refl
  no_results (x ∷ xs) ys h e = absurd (ground arith)

  -- Without a GPU backend and a calibrator, with a divergence that has a value on lists of one
  -- length, a sorting that keeps the length, and searches that return: however the goroutines of
  -- at least one worker take turns, `Analyze` returns a result. It has one reading for each node
  -- that the graph shows, in that order, with the tension that `Calculate` computes for it alone;
  -- the anomalies are the readings that are marked as such, in their order, and the statistics
  -- count both.
  pub analyze_lem :
      (now : Time) (gpu_threshold : ℤ) (cpus : ℕ) (workers : ℤ) (schedule : List Str)
      → Searches gv
      → 0 < workers_for cpus workers
      → Interleaves (partition_nodes cpus workers (ids gv.nodes)) schedule
      → (r : Results F) × (analyze settings none gpu_threshold now gv schedule none
          ≡ some (r, none))
        × (map reading r.tensions ≡ map (expected settings settled now gv) gv.nodes)
        × (r.anomalies ≡ anomalous r.tensions)
        × (r.stats.nodes_analyzed ≡ length gv.nodes)
        × (r.stats.anomaly_count ≡ length r.anomalies)
  unfolding analyze
  analyze_lem now gpu_threshold cpus workers schedule search some_worker turns =
      let tensions = compute_tensions settings none gpu_threshold gv schedule in
      elim (Option-cases (edge_curvatures settings gv)) [
        | inl bad ↦ absurd (ground (arith, edge_curvatures-total settings settled now gv search))
        | inr (curvatures, curved) ↦
            let begun : Examined F = record {
              results = [];
              anomalies = [];
              tension_values = [];
              calibrator = none;
            } in
            let (w, runs, reads, marked, long, wide, last) =
              examine_all-lem settings settled now gv tensions curvatures gv.nodes begun refl refl
                (λ id m.
                  tension_of-compute_tensions gpu_threshold cpus workers schedule id some_worker
                    turns m) in
            let (s, counts, nodes, found) =
              stats_lem settings settled now gv w.tension_values (length w.anomalies) in
            let empty = no_results w.results w.tension_values (ground arith) in
            (
              record {
                tensions = w.results;
                anomalies = w.anomalies;
                stats = s;
                detectability = detectability w.tension_values (
                    if float.lt float.nought settings.detectability_alpha
                    then settings.detectability_alpha
                    else float.literal 5 2);
              },
              ground arith,
              reads,
              marked,
              ground arith,
              ground arith,
            )
      ]
