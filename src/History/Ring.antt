-- ===== src/History/Ring.antt =====
-- The ring buffer of analysis/temporal.go holds the last samples pushed, in order.
use itt_engine.Prelude.{
  ℕ, zero, suc, ◌+◌, ◌-◌, ◌%◌, ◌^◌, ◌≤◌, ◌<◌, ◌≡◌, ◌≢◌, refl, ap, some, List, [], ◌∷◌, ◌++◌, arith,
  Float, length, get_elem?, get_or, set, length-set, length-append, get_or-set_self, get_or-set_ne,
  dec_lt, ◌∙◌, sym,
}
use native.Mathlib.Nat.{mod-add-mod, mod-eq_of_lt, mod-eq-sub-mod, mod-lt}
use itt_engine.History.{TensionSample, TensionHistory, zero_sample, push}

unfoldable pub drop {ℓ} : {A : Type ℓ} → ℕ → List A → List A
drop zero xs = xs
drop (suc n) [] = []
drop (suc n) (x ∷ xs) = drop n xs

pub get_or-append_lt {ℓ} :
    {A : Type ℓ} (xs : List A) (y d : A) (i : ℕ)
    → i < length xs
    → get_or (xs ++ (y ∷ [])) i d ≡ get_or xs i d
get_or-append_lt [] y d i h = absurd (omega arith)
get_or-append_lt (x ∷ xs) y d zero h = refl
get_or-append_lt (x ∷ xs) y d (suc i) h = get_or-append_lt xs y d i (omega arith)

pub get_or-append_last {ℓ} :
    {A : Type ℓ} (xs : List A) (y d : A) → get_or (xs ++ (y ∷ [])) (length xs) d ≡ y
get_or-append_last [] y d = refl
get_or-append_last (x ∷ xs) y d = get_or-append_last xs y d

pub get_elem?-eq-get_or {ℓ} :
    {A : Type ℓ} (xs : List A) (i : ℕ) (d : A)
    → i < length xs
    → get_elem? xs i ≡ some (get_or xs i d)
get_elem?-eq-get_or [] i d h = absurd (omega arith)
get_elem?-eq-get_or (x ∷ xs) zero d h = refl
get_elem?-eq-get_or (x ∷ xs) (suc i) d h = get_elem?-eq-get_or xs i d (omega arith)

-- a step shorter than the ring does not come back to its start
add-mod-ne : (n h k : ℕ) → h < n → suc k < n → (h + suc k) % n ≢ h
add-mod-ne n h k p q = elim (dec_lt (h + suc k) n) [
  | yes short ↦ omega (arith, mod-eq_of_lt short)
  | no long ↦ omega (
    arith,
    mod-eq-sub-mod {n = h + suc k} {m = n} (omega arith),
    mod-eq_of_lt {n = h + suc k - n} {m = n} (omega arith),
  )
]

mod-ne : (n i d : ℕ) → suc d < n → (i + suc d) % n ≢ i % n
mod-ne n i d p e = add-mod-ne n (i % n) d (mod-lt i (omega arith)) p (mod-add-mod i n (suc d) ∙ e)

module _ {F : Type 0} ⦃float : Float F⦄ where
  -- the buffer after the samples of `all` were pushed, oldest first
  pub record Holds (h : TensionHistory F) (all : List (TensionSample F)) : Type 0 where
    pub positive : 0 < h.size
    pub small : h.size < 2 ^ 63
    pub room : length h.samples ≡ h.size
    pub counted : h.count ≡ length all
    pub placed : h.head ≡ length all % h.size
    pub kept :
        (j : ℕ)
        → j < length all
        → length all ≤ j + h.size
        → get_or h.samples (j % h.size) zero_sample ≡ get_or all j zero_sample

  module _ (h : TensionHistory F) (all : List (TensionSample F)) (s : TensionSample F)
      (v : Holds h all) where
    kept-push :
        (j : ℕ)
        → j < length all + 1
        → length all + 1 ≤ j + h.size
        → get_or (set h.samples h.head s) (j % h.size) zero_sample
          ≡ get_or (all ++ (s ∷ [])) j zero_sample
    kept-push j p q = elim (dec_lt j (length all)) [
      | yes old ↦
          let d : ℕ = length all - j - 1 in
          let e : length all ≡ j + suc d = omega arith in
          let apart : h.head ≢ j % h.size = λ c.
            mod-ne h.size j d (omega arith) (ap (λ n. n % h.size) (sym e) ∙ sym v.placed ∙ c) in
          get_or-set_ne h.samples s zero_sample apart
          ∙ v.kept j old (omega arith)
          ∙ sym (get_or-append_lt all s zero_sample j old)
      | no last ↦
          let e : j ≡ length all = omega arith in
          let at : h.head ≡ j % h.size = v.placed ∙ ap (λ n. n % h.size) (sym e) in
          let inside : h.head < length h.samples =
            omega (arith, v.placed, mod-lt (length all) v.positive, v.room) in
          ap (λ i. get_or (set h.samples h.head s) i zero_sample) (sym at)
          ∙ get_or-set_self h.samples h.head s zero_sample inside
          ∙ sym (get_or-append_last all s zero_sample)
          ∙ ap (λ i. get_or (all ++ (s ∷ [])) i zero_sample) (sym e)
    ]

  pub push-Holds :
      (h : TensionHistory F) (all : List (TensionSample F)) (s : TensionSample F)
      → length all + 1 < 2 ^ 63
      → Holds h all
      → Holds (push s h) (all ++ (s ∷ []))
  unfolding push
  push-Holds h all s few v = record {
    positive = v.positive;
    small = v.small;
    room = ground (arith, length-set h.samples h.head s, v.room);
    counted = ground (arith, length-append all (s ∷ []), v.counted);
    placed =
        ground (arith, length-append all (s ∷ []), v.placed, mod-add-mod (length all) h.size 1);
    kept = λ j p q.
        kept-push h all s v j (ground (arith, length-append all (s ∷ [])))
          (ground (arith, length-append all (s ∷ [])));
  }
