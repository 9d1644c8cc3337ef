-- ===== src/Calibrator/Frozen.antt =====
-- What a calibrator of analysis/calibrator.go calls an anomaly after a run of observations.
use itt_engine.Prelude.{
  ◌≡◌, refl, ℕ, zero, suc, ◌+◌, ◌-◌, ◌/◌, ◌%◌, ◌==◌, pos, leb_ℤ, none, ◌≤◌, ◌<◌, Bool, true, false,
  not, ◌&&◌, Option, some, List, [], ◌∷◌, ◌++◌, map, Float, Time, length, get_elem?, length-append,
  leb, if◌then◌else◌, ◌>>=◌, arith, Option-cases, Bool-cases, inl, inr, append_assoc, append-nil,
  ap, ◌∙◌, sym,
}
use itt_engine.Map.{is_some}
use itt_engine.Parallel.{take}
use itt_engine.Calibrator.{
  Calibrator, compute_median, deviations, recalibrate_now, observe, observe_all, is_anomaly, Choice,
  choose, choose_all, new_calibrator,
}

get_elem-lt : {A : Type 0} (xs : List A) (i : ℕ) → i < length xs → is_some (get_elem? xs i) ≡ true
get_elem-lt [] i h = absurd (omega arith)
get_elem-lt (x ∷ xs) zero h = refl
get_elem-lt (x ∷ xs) (suc i) h = get_elem-lt xs i (omega arith)

get_elem-suc :
    {A : Type 0} (x : A) (xs : List A) (i j : ℕ) → i ≡ j + 1 → get_elem? (x ∷ xs) i ≡ get_elem? xs j
get_elem-suc x xs zero j h = absurd (omega arith)
get_elem-suc x xs (suc i) j h = ap (get_elem? xs) (omega arith)

take-all : {A : Type 0} (n : ℕ) (xs : List A) → length xs ≤ n → take n xs ≡ xs
unfolding take
take-all zero [] h = refl
take-all (suc n) [] h = refl
take-all zero (x ∷ xs) h = absurd (omega arith)
take-all (suc n) (x ∷ xs) h = ground (arith, take-all n xs)

take-append : {A : Type 0} (n : ℕ) (xs ys : List A) → n ≤ length xs → take n (xs ++ ys) ≡ take n xs
unfolding take
take-append zero xs ys h = ground arith
take-append (suc n) [] ys h = absurd (omega arith)
take-append (suc n) (x ∷ xs) ys h = ground (arith, take-append n xs ys)

module _ {F : Type 0} ⦃float : Float F⦄ (sort_floats : List F → List F) where
  -- The item in the middle of a list, or the mean of the two that are: a walk over the list beside
  -- one that is twice as fast.
  unfoldable pub midway : List F → List F → Option F
  midway (x ∷ slow) (a ∷ []) = some x
  midway (x ∷ y ∷ slow) (a ∷ b ∷ []) = some (float.div (float.add x y) (float.literal 2 0))
  midway (x ∷ slow) (a ∷ b ∷ c ∷ fast) = midway slow (c ∷ fast)
  midway slow fast = none

  -- the median of a list, 0 for an empty one
  unfoldable pub median_of : List F → Option F
  median_of [] = some float.nought
  median_of (x ∷ xs) = midway (sort_floats (x ∷ xs)) (sort_floats (x ∷ xs))

  -- median plus k times the median of the distances from it, of a list
  unfoldable pub baseline : F → List F → Option F
  baseline k xs = do
    median ← median_of xs
    mad ← median_of (map (λ v. float.abs (float.sub v median)) xs)
    some (float.add median (float.mul k mad))

  -- what the calibrator says of a tension, by the tensions observed before it
  unfoldable pub verdict : F → ℕ → List F → F → Option Bool
  verdict k size xs tension =
      if leb size (length xs)
      then (baseline k (take size xs) >>= λ t. some (float.lt t tension))
      else some false

  module _ (length_sorted : (xs : List F) → length (sort_floats xs) ≡ length xs) where
    pub compute_median-total : (xs : List F) → is_some (compute_median sort_floats xs) ≡ true
    unfolding compute_median
    compute_median-total xs =
        let n = length (sort_floats xs) in
        ground (
          arith,
          length_sorted xs,
          get_elem-lt (sort_floats xs) (n / 2 - 1),
          get_elem-lt (sort_floats xs) (n / 2),
        )

    midway_lem :
        (slow fast : List F)
        → 1 ≤ length fast
        → length fast ≤ length slow
        → midway slow fast ≡ (
            let n = length fast in
            if n % 2 == 0
            then (do
              low ← get_elem? slow (n / 2 - 1)
              high ← get_elem? slow (n / 2)
              some (float.div (float.add low high) (float.literal 2 0)))
            else get_elem? slow (n / 2))
    unfolding midway
    midway_lem [] [] some_ long = absurd (omega arith)
    midway_lem [] (a ∷ fast) some_ long = absurd (omega arith)
    midway_lem (x ∷ slow) [] some_ long = absurd (omega arith)
    midway_lem (x ∷ slow) (a ∷ []) some_ long = refl
    midway_lem (x ∷ []) (a ∷ b ∷ []) some_ long = absurd (omega arith)
    midway_lem (x ∷ y ∷ slow) (a ∷ b ∷ []) some_ long = refl
    midway_lem (x ∷ slow) (a ∷ b ∷ c ∷ fast) some_ long =
        let rest = midway_lem slow (c ∷ fast) (omega arith) (omega arith) in
        let n = length (c ∷ fast) in
        let halves : (n + 2) / 2 ≡ n / 2 + 1 = omega arith in
        let parity : (n + 2) % 2 ≡ n % 2 = omega arith in
        let high = get_elem-suc x slow ((n + 2) / 2) (n / 2) halves in
        elim (Bool-cases (n % 2 == 0)) [
          | inl even ↦
              let two : 2 ≤ n = ground arith in
              let low = get_elem-suc x slow ((n + 2) / 2 - 1) (n / 2 - 1) (omega arith) in
              ground arith
          | inr odd ↦ ground arith
        ]

    compute_median_lem : (xs : List F) → compute_median sort_floats xs ≡ median_of xs
    unfolding compute_median median_of
    compute_median_lem [] = refl
    compute_median_lem (x ∷ xs) =
        let sorted = sort_floats (x ∷ xs) in
        ground (arith, length_sorted (x ∷ xs), midway_lem sorted sorted)

    -- A calibrator that warms up: it has done so when it has enough observations, with the
    -- threshold of the first of them.
    pub record IsFollowing (k : F) (size : ℕ) (c : Calibrator F) : Type 0 where
      pub k_kept : c.k ≡ k
      pub size_kept : c.warmup_size ≡ pos size
      pub warm : c.warmed_up ≡ leb size (length c.observations)
      pub frozen :
          (if leb size (length c.observations)
            then baseline k (take size c.observations)
            else some c.threshold)
          ≡ some c.threshold

    recalibrate_now-lem :
        (now : Time) (c : Calibrator F)
        → (c' : Calibrator F) × (recalibrate_now sort_floats now c ≡ some c')
          × (c'.observations ≡ c.observations)
          × (c'.k ≡ c.k)
          × (c'.warmup_size ≡ c.warmup_size)
          × (c'.warmed_up ≡ true)
          × (baseline c.k c.observations ≡ some c'.threshold)
    unfolding recalibrate_now baseline
    recalibrate_now-lem now c = elim (Option-cases (compute_median sort_floats c.observations)) [
      | inl bad ↦ absurd (ground (arith, compute_median-total c.observations))
      | inr (median, found) ↦
          let devs = deviations sort_floats median c.observations in
          elim (Option-cases (compute_median sort_floats devs)) [
            | inl bad ↦ absurd (ground (arith, compute_median-total devs))
            | inr (mad, spread) ↦ (
              record c {
                median = median;
                mad = mad;
                threshold = float.add median (float.mul c.k mad);
                warmed_up = true;
                last_recal = now;
              },
              rw (found, spread, recalibrate_now) refl,
              refl,
              refl,
              refl,
              refl,
              rw
                  (
                    baseline,
                    ← compute_median_lem c.observations,
                    found,
                    ← compute_median_lem devs,
                    spread,
                  )
                  refl,
            )
          ]
    ]

    pub observe-total :
        (now : Time) (tension : F) (c : Calibrator F)
        → is_some (observe sort_floats now tension c) ≡ true
    unfolding observe
    observe-total now tension c =
        let c1 : Calibrator F = record c { observations = c.observations ++ (tension ∷ []) } in
        let (c', runs, obs, kk, size, warm, base) = recalibrate_now-lem now c1 in ground arith

    module _ (k : F) (size : ℕ) where
      observe-IsFollowing :
          (now : Time) (tension : F) (c : Calibrator F)
          → IsFollowing k size c
          → 1 ≤ size
          → (c' : Calibrator F) × (observe sort_floats now tension c ≡ some c')
            × IsFollowing k size c'
            × (c'.observations ≡ c.observations ++ (tension ∷ []))
      unfolding observe
      observe-IsFollowing now tension c v h =
          let more = c.observations ++ (tension ∷ []) in
          let c1 : Calibrator F = record c { observations = more } in
          let long : length more ≡ length c.observations + 1 =
            length-append c.observations (tension ∷ []) in
          elim (Bool-cases (not c.warmed_up && leb_ℤ c.warmup_size (pos (length more)))) [
            | inl due ↦
                let (c', runs, same, k_same, size_same, warm, base) = recalibrate_now-lem now c1 in
                (
                  c',
                  rw (due, observe) runs,
                  record {
                    k_kept = k_same ∙ v.k_kept;
                    size_kept = size_same ∙ v.size_kept;
                    warm = ground (arith, v.warm, v.size_kept);
                    frozen = ground (arith, v.warm, v.size_kept, v.k_kept, take-all size more);
                  },
                  same,
                )
            | inr early ↦ (
              c1,
              rw (early, observe) refl,
              record {
                k_kept = v.k_kept;
                size_kept = v.size_kept;
                warm = ground (arith, v.warm, v.size_kept);
                frozen = ground (
                  arith,
                  v.warm,
                  v.size_kept,
                  v.frozen,
                  take-append size c.observations (tension ∷ []),
                );
              },
              refl,
            )
          ]

      observe_all-IsFollowing :
          (run : List (Time × F)) (c : Calibrator F)
          → IsFollowing k size c
          → 1 ≤ size
          → (c' : Calibrator F) × (observe_all sort_floats run c ≡ some c')
            × IsFollowing k size c'
            × (c'.observations ≡ c.observations ++ map (λ r. r.1) run)
      unfolding observe_all
      observe_all-IsFollowing [] c v h = (c, refl, v, sym (append-nil c.observations))
      observe_all-IsFollowing ((now, tension) ∷ run) c v h =
          let (c1, first, v1, seen) = observe-IsFollowing now tension c v h in
          let (c', rest, v', all) = observe_all-IsFollowing run c1 v1 h in
          (
            c',
            rw (first, observe_all) rest,
            v',
            all
                ∙ ap (λ obs. obs ++ map (λ r. r.1) run) seen
                ∙ append_assoc c.observations (tension ∷ []) (map (λ r. r.1) run),
          )

      new-IsFollowing :
          (now : Time)
          → 1 ≤ size
          → IsFollowing k size
              (new_calibrator now (Choice.with_k k ∷ Choice.with_warmup_size (pos size) ∷ []))
      unfolding new_calibrator choose_all choose
      new-IsFollowing now h = record {
        k_kept = refl;
        size_kept = refl;
        warm = ground arith;
        frozen = ground arith;
      }

      -- Where sorting keeps the length: a calibrator made with a factor and a positive warm-up size
      -- takes any run of observations without a panic. It calls nothing an anomaly before it has
      -- observed as many tensions as that size. From then on it calls an anomaly what is above the
      -- median of the first so many plus the factor times the median of their distances from it,
      -- whatever it has observed since; the median is the item in the middle of the sorted list, or
      -- the mean of the two that are.
      pub observe_all-verdict :
          (now : Time) (run : List (Time × F))
          → 1 ≤ size
          → let opts = Choice.with_k k ∷ Choice.with_warmup_size (pos size) ∷ [] in
            (c : Calibrator F) × (observe_all sort_floats run (new_calibrator now opts) ≡ some c)
            × ((tension : F)
                → verdict k size (map (λ r. r.1) run) tension ≡ some (is_anomaly tension c))
      unfolding verdict is_anomaly new_calibrator choose_all choose
      observe_all-verdict now run h =
          let opts = Choice.with_k k ∷ Choice.with_warmup_size (pos size) ∷ [] in
          let (c, runs, v, seen) =
            observe_all-IsFollowing run (new_calibrator now opts) (new-IsFollowing now h) h in
          (c, runs, λ tension. ground (arith, v.warm, v.frozen, seen))
