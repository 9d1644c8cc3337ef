-- ===== src/Divergence.antt =====
-- analysis/divergence.go: divergences of two distributions. The loops read both lists at the indices
-- of the first; `none` is the panic of a second list that is shorter.
pub mod Laws
use itt_engine.Prelude.{
  ℕ, zero, suc, Bool, true, false, Option, none, some, List, [], ◌∷◌, map, Str, Float, length,
  if◌then◌else◌, ◌>>=◌,
}

-- a `DivergenceFunc`, by what it computes
abbrev pub Divergence : Type 0 → Type 0
Divergence F = List F → List F → Option F

module _ {F : Type 0} ⦃float : Float F⦄ where
  abbrev epsilon : F
  epsilon = float.literal 1 12

  abbrev one_half : F
  one_half = float.literal 5 1

  -- the loop of `klDiv`, from a partial sum on
  unfoldable pub kl_from : F → List F → List F → Option F
  kl_from sum [] q = some sum
  kl_from sum (x ∷ p) [] = none
  kl_from sum (x ∷ p) (y ∷ q) =
      let pi = float.add x epsilon in
      let qi = float.add y epsilon in
      let term = float.mul pi (float.log2 (float.div pi qi)) in
      kl_from (if float.lt epsilon pi then float.add sum term else sum) p q

  unfoldable pub kl_div : List F → List F → Option F
  kl_div p q = kl_from float.nought p q

  -- the loop of `JSD.Compute`
  unfoldable pub mixture : List F → List F → Option (List F)
  mixture [] q = some []
  mixture (x ∷ p) [] = none
  mixture (x ∷ p) (y ∷ q) = do
    rest ← mixture p q
    some (float.add (float.mul one_half x) (float.mul one_half y) ∷ rest)

  -- `JSD.Compute`
  unfoldable pub jsd : Divergence F
  jsd p q = do
    m ← mixture p q
    a ← kl_div p m
    b ← kl_div q m
    some (float.add (float.mul one_half a) (float.mul one_half b))

  -- `KL.Compute`
  unfoldable pub kl : Divergence F
  kl p q = kl_div p q

  -- the loop of `Hellinger.Compute`
  unfoldable pub squares_from : F → List F → List F → Option F
  squares_from sum [] q = some sum
  squares_from sum (x ∷ p) [] = none
  squares_from sum (x ∷ p) (y ∷ q) =
      let diff = float.sub (float.sqrt x) (float.sqrt y) in
      squares_from (float.add sum (float.mul diff diff)) p q

  -- `Hellinger.Compute`
  unfoldable pub hellinger : Divergence F
  hellinger p q = do
    sum ← squares_from float.nought p q
    some (float.sqrt (float.div sum (float.literal 2 0)))

  -- `for _, v := range dist { total += v }`
  unfoldable pub sum_from : F → List F → F
  sum_from total [] = total
  sum_from total (v ∷ vs) = sum_from (float.add total v) vs

  unfoldable pub normalize : List F → List F
  normalize dist =
      let total = sum_from float.nought dist in
      if float.eq total float.nought
      then map (λ v. float.div float.one (float.of_int (length dist))) dist
      else map (λ v. float.div v total) dist
