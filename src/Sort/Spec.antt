-- ===== src/Sort/Spec.antt =====
-- The insertion sort in place of analysis/curvature.go sorts, and keeps every item as often.
use itt_engine.Prelude.{
  ◌≡◌, refl, ℕ, suc, ◌+◌, Bool, true, false, List, [], ◌∷◌, Str, length, get_or, set, if◌then◌else◌,
  arith, Bool-cases, inl, inr,
}
use itt_engine.Sort.{less_str, shift, rounds, sort_strings, pred}

-- how many items pass a test
abbrev pub count : {A : Type 0} → (A → Bool) → List A → ℕ
count p [] = 0
count p (x ∷ xs) = (if p x then 1 else 0) + count p xs

-- no item lies above a later one
module _ {A : Type 0} (less : A → A → Bool) where
  abbrev pub AllAbove : A → List A → Type 0
  AllAbove x [] = Unit
  AllAbove x (y ∷ ys) = (less y x ≡ false) × AllAbove x ys

  abbrev pub IsSorted : List A → Type 0
  IsSorted [] = Unit
  IsSorted (x ∷ xs) = AllAbove x xs × IsSorted xs

  abbrev AllBelow : A → List A → Type 0
  AllBelow x [] = Unit
  AllBelow x (y ∷ ys) = (less x y ≡ false) × AllBelow x ys

  abbrev IsFalling : List A → Type 0
  IsFalling [] = Unit
  IsFalling (x ∷ xs) = AllBelow x xs × IsFalling xs

  -- the insertion of a key into the items before it, the last one first
  insert : A → List A → List A
  insert key [] = key ∷ []
  insert key (r ∷ rs) = if less key r then r ∷ insert key rs else key ∷ r ∷ rs

  insert_all : List A → List A → List A
  insert_all rs [] = rs
  insert_all rs (x ∷ xs) = insert_all (insert x rs) xs

module _ {A : Type 0} where
  abbrev back : List A → List A → List A
  back [] ys = ys
  back (x ∷ xs) ys = back xs (x ∷ ys)

  get_or-back :
      (rs ys : List A) (i k : ℕ) (d : A)
      → i ≡ length rs + k
      → get_or (back rs ys) i d ≡ get_or ys k d
  get_or-back [] ys i k d e = let same : i ≡ k = omega arith in rw same refl
  get_or-back (r ∷ rs) ys i k d e = get_or-back rs (r ∷ ys) i (suc k) d (omega arith)

  set-back :
      (rs ys : List A) (i k : ℕ) (v : A)
      → i ≡ length rs + k
      → set (back rs ys) i v ≡ back rs (set ys k v)
  set-back [] ys i k v e = let same : i ≡ k = omega arith in rw same refl
  set-back (r ∷ rs) ys i k v e = set-back rs (r ∷ ys) i (suc k) v (omega arith)

module _ {A : Type 0} (less : A → A → Bool) (nothing : A) where
  shift-back :
      (key hole : A) (rs rest : List A)
      → shift less nothing key (length rs) (back rs (hole ∷ rest)) ≡ back (insert less key rs) rest
  unfolding shift insert
  shift-back key hole [] rest = refl
  shift-back key hole (r ∷ rs) rest =
      let read = get_or-back rs (r ∷ hole ∷ rest) (length rs) 0 nothing (omega arith) in
      let moved = set-back rs (r ∷ hole ∷ rest) (suc (length rs)) 1 r (omega arith) in
      let placed = set-back rs (r ∷ hole ∷ rest) (suc (length rs)) 1 key (omega arith) in
      ground (arith, read, moved, placed, shift-back key r rs (r ∷ rest))

  length-insert : (key : A) (rs : List A) → length (insert less key rs) ≡ suc (length rs)
  unfolding insert
  length-insert key [] = refl
  length-insert key (r ∷ rs) = ground (arith, length-insert key rs)

  rounds-back :
      (rs rest : List A) (i : ℕ)
      → i ≡ length rs
      → rounds less nothing (length rest) i (back rs rest) ≡ back (insert_all less rs rest) []
  unfolding rounds insert_all
  rounds-back rs [] i e = refl
  rounds-back rs (x ∷ rest) i e =
      let read = get_or-back rs (x ∷ rest) i 0 nothing (omega arith) in
      let shifted = shift-back x x rs rest in
      let next = rounds-back (insert less x rs) rest (i + 1) (omega (arith, length-insert x rs)) in
      ground (arith, read, shifted, next)

module _ {A : Type 0} (less : A → A → Bool) (asym : (a b : A) → less a b ≡ true → less b a ≡ false)
    (trans : (a b c : A) → less b a ≡ false → less c b ≡ false → less c a ≡ false) where
  AllBelow-weaken :
      (x y : A) (rs : List A) → less x y ≡ false → AllBelow less y rs → AllBelow less x rs
  AllBelow-weaken x y [] h b = tt
  AllBelow-weaken x y (r ∷ rs) h (p, b) = (trans r y x p h, AllBelow-weaken x y rs h b)

  AllBelow-insert :
      (x key : A) (rs : List A)
      → less x key ≡ false
      → AllBelow less x rs
      → AllBelow less x (insert less key rs)
  unfolding insert
  AllBelow-insert x key [] h b = (h, tt)
  AllBelow-insert x key (r ∷ rs) h (p, b) = ground (arith, AllBelow-insert x key rs)

  insert-IsFalling :
      (key : A) (rs : List A) → IsFalling less rs → IsFalling less (insert less key rs)
  unfolding insert
  insert-IsFalling key [] f = (tt, tt)
  insert-IsFalling key (r ∷ rs) (b, f) = elim (Bool-cases (less key r)) [
    | inl under ↦
        rw (under, insert)
          ((AllBelow-insert r key rs (asym key r under) b, insert-IsFalling key rs f))
    | inr over ↦ rw (over, insert) (((over, AllBelow-weaken key r rs over b), (b, f)))
  ]

  insert_all-IsFalling :
      (rs xs : List A) → IsFalling less rs → IsFalling less (insert_all less rs xs)
  unfolding insert_all
  insert_all-IsFalling rs [] f = f
  insert_all-IsFalling rs (x ∷ xs) f =
      insert_all-IsFalling (insert less x rs) xs (insert-IsFalling x rs f)

  -- what has come back lies below what follows
  Spans : List A → List A → Type 0
  Spans [] zs = Unit
  Spans (r ∷ rs) zs = AllAbove less r zs × Spans rs zs

  Spans-cons : (r : A) (rs zs : List A) → AllBelow less r rs → Spans rs zs → Spans rs (r ∷ zs)
  unfolding Spans
  Spans-cons r [] zs b s = tt
  Spans-cons r (q ∷ rs) zs (p, b) (a, s) = ((p, a), Spans-cons r rs zs b s)

  back-IsSorted :
      (rs zs : List A)
      → IsFalling less rs
      → IsSorted less zs
      → Spans rs zs
      → IsSorted less (back rs zs)
  unfolding Spans
  back-IsSorted [] zs f sorted s = sorted
  back-IsSorted (r ∷ rs) zs (b, f) sorted (a, s) =
      back-IsSorted rs (r ∷ zs) f (a, sorted) (Spans-cons r rs zs b s)

  Spans-nil : (rs : List A) → Spans rs []
  unfolding Spans
  Spans-nil [] = tt
  Spans-nil (r ∷ rs) = (tt, Spans-nil rs)

module _ {A : Type 0} (less : A → A → Bool) (p : A → Bool) where
  count-back : (rs zs : List A) → count p (back rs zs) ≡ count p rs + count p zs
  count-back [] zs = omega arith
  count-back (r ∷ rs) zs = omega (arith, count-back rs (r ∷ zs))

  count-insert : (key : A) (rs : List A) → count p (insert less key rs) ≡ count p (key ∷ rs)
  unfolding insert
  count-insert key [] = refl
  count-insert key (r ∷ rs) = ground (arith, count-insert key rs)

  count-insert_all : (rs xs : List A) → count p (insert_all less rs xs) ≡ count p rs + count p xs
  unfolding insert_all
  count-insert_all rs [] = omega arith
  count-insert_all rs (x ∷ xs) =
      omega (arith, count-insert_all (insert less x rs) xs, count-insert x rs)

less_str-asym : (a b : Str) → less_str a b ≡ true → less_str b a ≡ false
less_str-asym [] [] h = refl
less_str-asym [] (y ∷ b) h = refl
less_str-asym (x ∷ a) [] h = absurd (ground arith)
less_str-asym (x ∷ a) (y ∷ b) h = ground (arith, less_str-asym a b)

less_str-nil : (c : Str) → less_str c [] ≡ false
less_str-nil [] = refl
less_str-nil (z ∷ c) = refl

less_str_trans : (a b c : Str) → less_str b a ≡ false → less_str c b ≡ false → less_str c a ≡ false
less_str_trans [] b c h k = less_str-nil c
less_str_trans (x ∷ a) [] c h k = ground arith
less_str_trans (x ∷ a) (y ∷ b) [] h k = ground arith
less_str_trans (x ∷ a) (y ∷ b) (z ∷ c) h k = ground (arith, less_str_trans a b c)

-- The rounds over a whole list sort it by an asymmetric order whose failure is transitive, and keep
-- every item as often as it was.
pub rounds_lem :
    {A : Type 0} (less : A → A → Bool) (nothing : A)
    → ((a b : A) → less a b ≡ true → less b a ≡ false)
    → ((a b c : A) → less b a ≡ false → less c b ≡ false → less c a ≡ false)
    → (s : List A)
    → IsSorted less (rounds less nothing (pred (length s)) 1 s)
      × ((p : A → Bool) → count p (rounds less nothing (pred (length s)) 1 s) ≡ count p s)
unfolding rounds
rounds_lem less nothing asym steps [] = (tt, λ p. refl)
rounds_lem less nothing asym steps (x ∷ xs) =
    let done = rounds-back less nothing (x ∷ []) xs 1 refl in
    let falling = insert_all-IsFalling less asym steps (x ∷ []) xs (tt, tt) in
    let rs = insert_all less (x ∷ []) xs in
    (
      rw done (back-IsSorted less asym steps rs [] falling tt (Spans-nil less asym steps rs)),
      λ p. ground (arith, done, count-back less p rs [], count-insert_all less p (x ∷ []) xs),
    )

-- `sortStrings` leaves the strings in the order of their bytes, and every string as often as it was.
pub sort_strings_lem :
    (s : List Str)
    → IsSorted less_str (sort_strings s) × ((p : Str → Bool) → count p (sort_strings s) ≡ count p s)
unfolding sort_strings
sort_strings_lem s = rounds_lem less_str [] less_str-asym less_str_trans s
