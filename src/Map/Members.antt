-- ===== src/Map/Members.antt =====
-- Membership in lists of keys, and their freedom from repetition.
use itt_engine.Prelude.{
  ◌≡◌, refl, true, false, ◌||◌, List, [], ◌∷◌, ◌++◌, ite, Key, arith, length, suc,
}
use itt_engine.Map.{mem, distinct}

module _ {K : Type 0} ⦃key : Key K⦄ where
  pub mem-append : (x : K) (xs ys : List K) → mem x (xs ++ ys) ≡ (mem x xs || mem x ys)
  unfolding mem
  mem-append x [] ys = refl
  mem-append x (y ∷ xs) ys = ground (arith, mem-append x xs ys)

  -- appending a new key
  pub distinct-append_one :
      (y : K) (xs : List K)
      → mem y xs ≡ false
      → distinct xs ≡ true
      → distinct (xs ++ (y ∷ [])) ≡ true
  unfolding mem distinct
  distinct-append_one y [] m d = refl
  distinct-append_one y (x ∷ xs) m d =
      ground (arith, distinct-append_one y xs, mem-append x xs (y ∷ []))

  -- appending a list of other keys
  pub distinct-append :
      (xs ys : List K)
      → distinct xs ≡ true
      → distinct ys ≡ true
      → ((x : K) → mem x xs ≡ true → mem x ys ≡ false)
      → distinct (xs ++ ys) ≡ true
  unfolding mem distinct
  distinct-append [] ys d e apart = e
  distinct-append (x ∷ xs) ys d e apart =
      let rest = distinct-append xs ys (ground arith) e (λ z m. apart z (ground arith)) in
      let fresh = apart x (ground arith) in ground (arith, mem-append x xs ys)

  remove : K → List K → List K
  remove k [] = []
  remove k (x ∷ xs) = ite (key.same x k) (remove k xs) (x ∷ remove k xs)

  mem-remove : (k x : K) (xs : List K) → mem x (remove k xs) ≡ ite (key.same k x) false (mem x xs)
  unfolding mem remove
  mem-remove k x [] = ground arith
  mem-remove k x (y ∷ xs) = ground (arith, mem-remove k x xs)

  remove_absent : (k : K) (xs : List K) → mem k xs ≡ false → remove k xs ≡ xs
  unfolding mem remove
  remove_absent k [] h = refl
  remove_absent k (x ∷ xs) h = ground (arith, remove_absent k xs)

  distinct-remove : (k : K) (xs : List K) → distinct xs ≡ true → distinct (remove k xs) ≡ true
  unfolding remove distinct
  distinct-remove k [] d = d
  distinct-remove k (x ∷ xs) d = ground (arith, distinct-remove k xs, mem-remove k x xs)

  length-remove :
      (k : K) (xs : List K)
      → distinct xs ≡ true
      → mem k xs ≡ true
      → length xs ≡ suc (length (remove k xs))
  unfolding mem remove distinct
  length-remove k [] d m = absurd (ground arith)
  length-remove k (x ∷ xs) d m = ground (arith, length-remove k xs, remove_absent k xs)

  -- Two lists without repetition that hold the same keys are equally long.
  pub length_eq_of_mem :
      (xs ys : List K)
      → distinct xs ≡ true
      → distinct ys ≡ true
      → ((x : K) → mem x xs ≡ mem x ys)
      → length xs ≡ length ys
  unfolding mem distinct
  length_eq_of_mem [] [] d e h = refl
  length_eq_of_mem [] (y ∷ ys) d e h = absurd (ground (arith, h y))
  length_eq_of_mem (x ∷ xs) ys d e h =
      let rest =
        length_eq_of_mem xs (remove x ys) (ground arith) (distinct-remove x ys e)
          (λ z. ground (arith, h z, mem-remove x z ys)) in
      ground (arith, length-remove x ys e, h x)
