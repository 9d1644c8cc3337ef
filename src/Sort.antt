-- ===== src/Sort.antt =====
-- The insertion sort in place of analysis/curvature.go (`sortStrings`), over the order of its items.
pub mod Spec
use itt_engine.Prelude.{
  ℕ, zero, suc, ◌+◌, Bool, true, false, List, [], ◌∷◌, Str, ltb, ◌==◌, length, get_or, set,
  if◌then◌else◌,
}

-- `a < b` of strings, byte by byte
abbrev pub less_str : Str → Str → Bool
less_str [] [] = false
less_str [] (y ∷ ys) = true
less_str (x ∷ xs) [] = false
less_str (x ∷ xs) (y ∷ ys) = if ltb x y then true else (if x == y then less_str xs ys else false)

module _ {A : Type 0} (less : A → A → Bool) (nothing : A) where
  -- The inner loop, for `j` one above the variable of the code; and the write after it. No read is
  -- out of bounds.
  unfoldable pub shift : A → ℕ → List A → List A
  shift key zero s = set s 0 key
  shift key (suc j) s =
      let rest = shift key j (set s (suc j) (get_or s j nothing)) in
      if less key (get_or s j nothing) then rest else set s (suc j) key

  -- the outer loop, for a count of rounds from round `i` on
  unfoldable pub rounds : ℕ → ℕ → List A → List A
  rounds zero i s = s
  rounds (suc n) i s = rounds n (i + 1) (shift (get_or s i nothing) i s)

abbrev pub pred : ℕ → ℕ
pred zero = 0
pred (suc n) = n

unfoldable pub sort_strings : List Str → List Str
sort_strings s = rounds less_str [] (pred (length s)) 1 s
