-- ===== src/Mvcc/Counting.antt =====
-- The reference count of mvcc/version.go.
use itt_engine.Prelude.{
  ℕ, ◌+◌, ◌^◌, ◌<◌, ◌≡◌, true, ite, ℕ_discrete, arith, if◌then◌else◌, is_positive, sub64, add64,
  nat_key,
}
use itt_engine.Map
use itt_engine.Map.{Map, is_some}
use itt_engine.Map.Laws.{get-modify}
use itt_engine.Mvcc.{Store, ref_count, acquire, release}

module _ {F : Type 0} where
  pub ref_count-acquire :
      (p q : ℕ) (store : Store F)
      → Map.contains p store ≡ true
      → ref_count q (acquire p store)
        ≡ ite (ℕ_discrete p q) (add64 (ref_count q store) 1) (ref_count q store)
  unfolding ref_count acquire
  ref_count-acquire p q store h =
      ground (arith, get-modify p q (λ v. record v { ref_count = add64 v.ref_count 1 }) store)

  pub ref_count-release :
      (p q : ℕ) (store : Store F)
      → ref_count q (release p store)
        ≡ ite
            (ℕ_discrete p q)
            (if is_positive (ref_count q store)
              then sub64 (ref_count q store) 1
              else ref_count q store)
            (ref_count q store)
  unfolding ref_count release
  ref_count-release p q store = ground (
    arith,
    get-modify p q
        (λ v. record v {
          ref_count = if is_positive v.ref_count then sub64 v.ref_count 1 else v.ref_count;
        })
        store,
  )

  -- Below the bound of `int64`, an acquisition of a stored version raises its count by one and no
  -- other count, and the release that follows restores every count.
  pub release-acquire :
      (p q : ℕ) (store : Store F)
      → Map.contains p store ≡ true
      → ref_count p store + 1 < 2 ^ 63
      → (ref_count q (acquire p store)
          ≡ ite (ℕ_discrete p q) (ref_count q store + 1) (ref_count q store))
        × (ref_count q (release p (acquire p store)) ≡ ref_count q store)
  release-acquire p q store h small = (
    ground (arith, ref_count-acquire p q store),
    ground (arith, ref_count-release p q (acquire p store), ref_count-acquire p q store),
  )
