-- ===== src/Divergence/Laws.antt =====
-- The divergences of analysis/divergence.go are defined on lists of one length.
use itt_engine.Prelude.{
  ◌≡◌, refl, suc, some, List, [], ◌∷◌, map, Float, length, arith, ap, true, ◌∙◌, sym, Option-cases,
  inl, inr,
}
use itt_engine.Map.{is_some}
use itt_engine.Divergence.{
  Divergence, one_half, kl_from, kl_div, mixture, jsd, kl, squares_from, hellinger, normalize,
}

-- a divergence that does not panic on two lists of one length
abbrev pub IsTotal : {F : Type 0} → Divergence F → Type 0
IsTotal {F} div = (p q : List F) → length p ≡ length q → is_some (div p q) ≡ true

pub length-map {ℓ κ} :
    {A : Type ℓ} {B : Type κ} (f : A → B) (xs : List A) → length (map f xs) ≡ length xs
length-map f [] = refl
length-map f (x ∷ xs) = ap suc (length-map f xs)

module _ {F : Type 0} ⦃float : Float F⦄ where
  kl_from-total : (p q : List F) (sum : F) → length p ≡ length q → is_some (kl_from sum p q) ≡ true
  unfolding kl_from
  kl_from-total [] q sum h = refl
  kl_from-total (x ∷ p) [] sum h = absurd (ground arith)
  kl_from-total (x ∷ p) (y ∷ q) sum h = kl_from-total p q _ (ground arith)

  mixture-total :
      (p q : List F)
      → length p ≡ length q
      → (m : List F) × (mixture p q ≡ some m) × (length m ≡ length p)
  unfolding mixture
  mixture-total [] q h = ([], refl, refl)
  mixture-total (x ∷ p) [] h = absurd (ground arith)
  mixture-total (x ∷ p) (y ∷ q) h =
      let (m, runs, long) = mixture-total p q (ground arith) in
      elim (Option-cases (mixture (x ∷ p) (y ∷ q))) [
        | inl panics ↦ absurd (ground arith)
        | inr (all, found) ↦ (all, found, ground arith)
      ]

  squares_from-total :
      (p q : List F) (sum : F) → length p ≡ length q → is_some (squares_from sum p q) ≡ true
  unfolding squares_from
  squares_from-total [] q sum h = refl
  squares_from-total (x ∷ p) [] sum h = absurd (ground arith)
  squares_from-total (x ∷ p) (y ∷ q) sum h = squares_from-total p q _ (ground arith)

  pub kl-IsTotal : IsTotal {F = F} kl
  unfolding kl kl_div
  kl-IsTotal p q h = kl_from-total p q float.nought h

  pub jsd-IsTotal : IsTotal {F = F} jsd
  unfolding jsd kl_div
  jsd-IsTotal p q h =
      let (m, mixes, long) = mixture-total p q h in
      let left = kl_from-total p m float.nought (sym long) in
      let right = kl_from-total q m float.nought (sym h ∙ sym long) in ground arith

  pub hellinger-IsTotal : IsTotal {F = F} hellinger
  unfolding hellinger
  hellinger-IsTotal p q h = ground (arith, squares_from-total p q float.nought h)

  pub length-normalize : (dist : List F) → length (normalize dist) ≡ length dist
  unfolding normalize
  length-normalize dist = grind (arith, length-map {A = F} {B = F})

  module _ (comm : (x y : F) → float.add x y ≡ float.add y x) where
    mixture_comm : (p q : List F) → length p ≡ length q → mixture p q ≡ mixture q p
    unfolding mixture
    mixture_comm [] [] h = refl
    mixture_comm [] (y ∷ q) h = absurd (ground arith)
    mixture_comm (x ∷ p) [] h = absurd (ground arith)
    mixture_comm (x ∷ p) (y ∷ q) h =
        let rest = mixture_comm p q (ground arith) in grind (arith, comm)

    jsd-some :
        (p q : List F) {m : List F} {a b : F}
        → mixture p q ≡ some m
        → kl_div p m ≡ some a
        → kl_div q m ≡ some b
        → jsd p q ≡ some (float.add (float.mul one_half a) (float.mul one_half b))
    unfolding jsd
    jsd-some p q mixes left right = ground arith

    -- On distributions of one length, where the addition of floats commutes, the Jensen-Shannon
    -- divergence has a value, and is symmetric.
    pub jsd-symmetric :
        (p q : List F) → length p ≡ length q → (jsd p q ≡ jsd q p) × (is_some (jsd p q) ≡ true)
    unfolding jsd
    jsd-symmetric p q h =
        let (m, mixes, long) = mixture-total p q h in
        let same = mixture_comm p q h in
        (
          elim (Option-cases (kl_div p m)) [
            | inl bad ↦ elim (Option-cases (kl_div q m)) [
              | inl worse ↦ ground arith
              | inr (b, right) ↦ ground arith
            ]
            | inr (a, left) ↦ elim (Option-cases (kl_div q m)) [
              | inl worse ↦ ground arith
              | inr (b, right) ↦
                  jsd-some p q mixes left right
                  ∙ ap some (comm (float.mul one_half a) (float.mul one_half b))
                  ∙ sym (jsd-some q p (sym same ∙ mixes) right left)
            ]
          ],
          jsd-IsTotal p q h,
        )
