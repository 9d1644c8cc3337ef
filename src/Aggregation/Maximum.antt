-- ===== src/Aggregation/Maximum.antt =====
-- What `AggMax` of aggregation.go returns.
use itt_engine.Prelude.{
  ◌≡◌, refl, subst, sym, true, false, List, [], ◌∷◌, Float, arith, Bool-cases, inl, inr, ◌⊎◌,
}
use itt_engine.Aggregation.{max_from, agg_max}

module _ {F : Type 0} ⦃float : Float F⦄ where
  -- a value that a list holds
  abbrev pub Holds : F → List F → Type 0
  Holds v [] = ⊥
  Holds v (t ∷ ts) = (v ≡ t) ⊎ Holds v ts

  -- a value that nothing of a list is above
  abbrev pub IsTop : F → List F → Type 0
  IsTop v [] = Unit
  IsTop v (t ∷ ts) = (float.lt v t ≡ false) × IsTop v ts

  module _ (irreflexive : (x : F) → float.lt x x ≡ false)
      (asymmetric : (x y : F) → float.lt x y ≡ true → float.lt y x ≡ false)
      (ordered : (x y : F) → float.lt x y ≡ true → float.eq y y ≡ true)
      (chain : (x y z : F)
        → float.eq y y ≡ true
        → float.lt x y ≡ false
        → float.lt y z ≡ false
        → float.lt x z ≡ false) where
    pub max_from_lem :
        (max : F) (ts : List F)
        → float.eq max max ≡ true
        → Holds (max_from max ts) (max ∷ ts) × IsTop (max_from max ts) (max ∷ ts)
    unfolding max_from
    max_from_lem max [] number = (inl refl, (irreflexive max, tt))
    max_from_lem max (t ∷ ts) number = elim (Bool-cases (float.lt max t)) [
      | inl above ↦
          let (held, (top, rest)) = max_from_lem t ts (ordered max t above) in
          let goes : max_from max (t ∷ ts) ≡ max_from t ts = ground arith in
          subst (λ v. Holds v (max ∷ t ∷ ts) × IsTop v (max ∷ t ∷ ts)) (sym goes)
            (
              inr held,
              (
                chain (max_from t ts) t max (ordered max t above) top (asymmetric max t above),
                (top, rest),
              ),
            )
      | inr below ↦
          let (held, (top, rest)) = max_from_lem max ts number in
          let goes : max_from max (t ∷ ts) ≡ max_from max ts = ground arith in
          subst (λ v. Holds v (max ∷ t ∷ ts) × IsTop v (max ∷ t ∷ ts)) (sym goes)
            (
              elim held [ inl first ↦ inl first | inr later ↦ inr (inr later) ],
              (top, (chain (max_from max ts) max t number top below, rest)),
            )
    ]

    -- Under laws of the order that hold of floats: `AggMax` of a list whose first tension is a number
    -- is a tension of the list, and no tension of the list is above it.
    pub agg_max_lem :
        (t : F) (ts : List F)
        → float.eq t t ≡ true
        → Holds (agg_max (t ∷ ts)) (t ∷ ts) × IsTop (agg_max (t ∷ ts)) (t ∷ ts)
    unfolding agg_max
    agg_max_lem t ts number = max_from_lem t ts number
