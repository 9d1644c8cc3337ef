-- ===== src/History/Reads.antt =====
-- What `Len`, `Latest`, `Previous` and `Slice` of analysis/temporal.go read from the ring buffer.
use itt_engine.Prelude.{
  ℕ, zero, suc, ◌+◌, ◌-◌, ◌%◌, ◌^◌, ◌==◌, ◌≤◌, ◌<◌, ◌≡◌, refl, ap, sym, none, some, if◌then◌else◌,
  List, [], ◌∷◌, ◌++◌, arith, Float, length, get_elem?, get_or, length-append, dec_lt, min, ◌∙◌,
  length-replicate, ℤ, Bool-cases, inl, inr, ltb, append_assoc, append-nil, subst,
}
use native.Mathlib.Nat.{mod-add-mod, mod-eq_of_lt, mod-eq-sub-mod, mod-lt}
use itt_engine.History.{
  TensionSample, TensionHistory, zero_sample, size_for, new_tension_history, push, len, latest,
  previous, window, slice,
}
use itt_engine.History.Ring.{drop, Holds, push-Holds, get_elem?-eq-get_or}

drop-all {ℓ} : {A : Type ℓ} (xs : List A) → drop (length xs) xs ≡ []
unfolding drop
drop-all [] = refl
drop-all (x ∷ xs) = drop-all xs

drop-step {ℓ} :
    {A : Type ℓ} (j : ℕ) (xs : List A) (d : A)
    → j < length xs
    → drop j xs ≡ get_or xs j d ∷ drop (suc j) xs
unfolding drop
drop-step j [] d h = absurd (omega arith)
drop-step zero (x ∷ xs) d h = refl
drop-step (suc j) (x ∷ xs) d h = drop-step j xs d (omega arith)

-- going back `k` steps from the head of a ring of `n` places
back_mod : (l n k : ℕ) → 0 < n → k ≤ n → k ≤ l → (l % n + n - k) % n ≡ (l - k) % n
back_mod l n k p q r =
    let e : l % n + n - k ≡ l % n + (n - k) = omega arith in
    let f : l + (n - k) ≡ l - k + n = omega arith in
    let g : l - k + n - n ≡ l - k = omega arith in
    ap (λ i. i % n) e
    ∙ mod-add-mod l n (n - k)
    ∙ ap (λ i. i % n) f
    ∙ mod-eq-sub-mod {n = l - k + n} {m = n} (omega arith)
    ∙ ap (λ i. i % n) g

module _ {F : Type 0} ⦃float : Float F⦄ (h : TensionHistory F) (all : List (TensionSample F))
    (v : Holds h all) (few : length all < 2 ^ 63) where
  window-drop :
      (n start j : ℕ)
      → start % h.size ≡ j % h.size
      → j + n ≡ length all
      → length all ≤ j + h.size
      → window h start n ≡ drop j all
  unfolding window
  window-drop zero start j e p q = sym (ap (λ i. drop i all) (omega arith) ∙ drop-all all)
  window-drop (suc n) start j e p q =
      let there : j < length all = omega arith in
      let next : (start + 1) % h.size ≡ (j + 1) % h.size =
        sym (mod-add-mod start h.size 1) ∙ ap (λ i. (i + 1) % h.size) e ∙ mod-add-mod j h.size 1 in
      let one : j + 1 ≡ suc j = omega arith in
      rw
        (
          e,
          v.kept j there q,
          window-drop n (start + 1) (j + 1) next (omega arith) (omega arith),
          one,
        )
        (sym (drop-step j all zero_sample there))

  len_lem : len h ≡ min (length all) h.size
  unfolding len
  len_lem = ground (arith, v.counted, v.small, v.positive)

  -- a read `k` places before the head finds the `k`-th sample from the end
  read_back :
      (k : ℕ)
      → 0 < k
      → k ≤ length all
      → k ≤ h.size
      → get_elem? h.samples ((h.head + h.size - k) % h.size) ≡ get_elem? all (length all - k)
  read_back k pos_k p q =
      let at : (h.head + h.size - k) % h.size ≡ (length all - k) % h.size =
        ap (λ i. (i + h.size - k) % h.size) v.placed
        ∙ back_mod (length all) h.size k v.positive q p in
      let inside : (length all - k) % h.size < length h.samples =
        omega (arith, mod-lt (length all - k) v.positive, v.room) in
      ap (λ i. get_elem? h.samples i) at
      ∙ get_elem?-eq-get_or h.samples ((length all - k) % h.size) zero_sample inside
      ∙ ap some (v.kept (length all - k) (omega arith) (omega arith))
      ∙ sym (get_elem?-eq-get_or all (length all - k) zero_sample (omega arith))

  latest_lem : latest h ≡ (if length all == 0 then none else get_elem? all (length all - 1))
  unfolding latest
  latest_lem = elim (Bool-cases (length all == 0)) [
    | inl e ↦ ground (arith, v.counted)
    | inr e ↦
        ground
          (arith, v.counted, v.positive, read_back 1 (omega arith) (ground arith) (omega arith))
  ]

  previous_lem :
      previous h
      ≡ (if ltb (min (length all) h.size) 2 then none else get_elem? all (length all - 2))
  unfolding previous
  previous_lem = elim (dec_lt (min (length all) h.size) 2) [
    | yes few_left ↦ ground (arith, len_lem, v.small)
    | no more ↦
        ground (arith, len_lem, v.small, read_back 2 (omega arith) (omega arith) (omega arith))
  ]

  slice_lem : slice h ≡ drop (length all - h.size) all
  unfolding slice
  slice_lem = elim (dec_lt h.size (length all)) [
    | yes wrapped ↦
        let e : h.head % h.size ≡ (length all - h.size) % h.size =
          ap (λ i. i % h.size) v.placed
          ∙ mod-eq_of_lt (mod-lt (length all) v.positive)
          ∙ mod-eq-sub-mod {n = length all} {m = h.size} (omega arith) in
        ground (
          arith,
          len_lem,
          v.counted,
          v.small,
          v.positive,
          window-drop h.size h.head (length all - h.size) e (omega arith) (omega arith),
        )
    | no fits ↦
        let none_gone : length all - h.size ≡ 0 = omega arith in
        rw none_gone (elim (dec_lt 0 (length all)) [
          | yes some_in ↦ ground (
            arith,
            len_lem,
            v.counted,
            v.small,
            v.positive,
            window-drop (length all) 0 0 refl (omega arith) (omega arith),
          )
          | no empty ↦
              let at : 0 ≡ length all = omega arith in
              let gone : drop 0 all ≡ [] = ap (λ i. drop i all) at ∙ drop-all all in
              ground (arith, len_lem, v.counted, v.positive, gone)
        ])
  ]

size_for-pos : (capacity : ℤ) → 0 < size_for capacity
unfolding size_for
size_for-pos capacity = ground arith

-- the buffer after some samples
abbrev pub pushed :
    {F : Type 0} ⦃float : Float F⦄ → TensionHistory F → List (TensionSample F) → TensionHistory F
pushed h [] = h
pushed h (s ∷ l) = pushed (push s h) l

module _ {F : Type 0} ⦃float : Float F⦄ where
  Holds-pushed :
      (l all : List (TensionSample F)) (h : TensionHistory F)
      → length all + length l < 2 ^ 63
      → Holds h all
      → Holds (pushed h l) (all ++ l)
  Holds-pushed [] all h few v = rw append-nil v
  Holds-pushed (s ∷ l) all h few v =
      subst (λ x. Holds (pushed (push s h) l) x) (append_assoc all (s ∷ []) l)
        (Holds-pushed l (all ++ (s ∷ [])) (push s h) (omega (arith, length-append all (s ∷ [])))
          (push-Holds h all s (omega arith) v))

  new-Holds :
      (capacity : ℤ) → size_for capacity < 2 ^ 63 → Holds {F = F} (new_tension_history capacity) []
  unfolding new_tension_history
  new-Holds capacity small = record {
    positive = size_for-pos capacity;
    small = small;
    room = length-replicate (size_for capacity) zero_sample;
    counted = refl;
    placed = omega arith;
    kept = λ j p q. absurd (omega arith);
  }

  pub size-pushed : (l : List (TensionSample F)) (h : TensionHistory F) → (pushed h l).size ≡ h.size
  unfolding push
  size-pushed [] h = refl
  size-pushed (s ∷ l) h = size-pushed l (push s h)

  -- After any pushes into a new buffer, the pushes and its room fewer than 2 ^ 63, `Slice` is the
  -- last of the samples in order, as many as the buffer has room for; `Len` is their number;
  -- `Latest` is the last sample, and `Previous` the one before it where the buffer holds two.
  pub history_lem :
      (capacity : ℤ) (all : List (TensionSample F))
      → size_for capacity < 2 ^ 63
      → length all < 2 ^ 63
      → let size = size_for capacity in
        let h = pushed {F = F} (new_tension_history capacity) all in
        (slice h ≡ drop (length all - size) all)
        × (len h ≡ min (length all) size)
        × (latest h ≡ (if length all == 0 then none else get_elem? all (length all - 1)))
        × (previous h
            ≡ (if ltb (min (length all) size) 2 then none else get_elem? all (length all - 2)))
  unfolding new_tension_history
  history_lem capacity all small few =
      let h = pushed (new_tension_history capacity) all in
      let v : Holds h all =
        Holds-pushed all [] (new_tension_history capacity) (omega arith)
          (new-Holds capacity small) in
      subst
        (λ size.
          (slice h ≡ drop (length all - size) all)
          × (len h ≡ min (length all) size)
          × (latest h ≡ (if length all == 0 then none else get_elem? all (length all - 1)))
          × (previous h
              ≡ (if ltb (min (length all) size) 2 then none else get_elem? all (length all - 2))))
        (size-pushed all (new_tension_history capacity))
        (
          slice_lem h all v few,
          len_lem h all v few,
          latest_lem h all v few,
          previous_lem h all v few,
        )
