-- ===== src/Gpu/Rows.antt =====
-- `sortCSRRow` of gpu/serialize.go sorts a row by its indices.
use itt_engine.Prelude.{◌≡◌, ℕ, Bool, List, Float, arith}
use itt_engine.Sort.Spec.{IsSorted, count, rounds_lem}
use itt_engine.Gpu.Serialize.{before, sort_csr_row}

module _ {F : Type 0} ⦃float : Float F⦄ where
  -- The indices of a sorted row rise, and every index stands beside the weight that it had, as often
  -- as it did.
  pub sort_csr_row_lem :
      (row : List (ℕ × F))
      → IsSorted before (sort_csr_row row)
        × ((p : ℕ × F → Bool) → count p (sort_csr_row row) ≡ count p row)
  unfolding sort_csr_row
  sort_csr_row_lem row =
      rounds_lem before (0, float.nought) (λ (a, v) (b, w) h. ground arith)
        (λ (a, u) (b, v) (c, w) h k. ground arith) row
