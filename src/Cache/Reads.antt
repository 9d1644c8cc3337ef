-- ===== src/Cache/Reads.antt =====
-- What a read of the cache of cache/results_cache.go finds after each operation.
use itt_engine.Prelude.{
  ℕ, suc, ◌+◌, ◌==◌, ◌≡◌, ◌≤◌, refl, Bool, true, false, Option, none, some, ite, if◌then◌else◌, Key,
  Time, after, leb, arith, length, [], ◌∷◌, Bool-cases, inl, inr,
}
use itt_engine.Map
use itt_engine.Map.{Map, is_some, keys, mem, distinct}
use itt_engine.Map.Laws.{get-put, get-delete, mem-keys, distinct-keys-delete, mem-keys-delete}
use itt_engine.Cache.{
  CacheKey, CacheKey-discrete, cache_key, ResultsCache, delete_where, get, set, invalidate_version,
  evict_expired,
}

module _ {K V : Type 0} ⦃key : Key K⦄ where
  -- what a deleting iteration leaves under a key
  abbrev pub surviving : (K → V → Bool) → K → Option V → Option V
  surviving test k none = none
  surviving test k (some v) = if test k v then none else some v

  -- the loop deletes the keys whose entry in the list passes the test
  pub get-delete_where :
      (test : K → V → Bool) (m : Map K V) (r : ℕ × Map K V) (q : K)
      → distinct (keys m) ≡ true
      → Map.get q (delete_where test m r).1 ≡ elim (Map.get q m) [
        | none ↦ Map.get q r.1
        | some v ↦ if test q v then none else Map.get q r.1
      ]
  unfolding delete_where Map.get Map.distinct
  get-delete_where test [] r q d = refl
  get-delete_where test ((k, v) ∷ m) r q d = ground (
    arith,
    get-delete_where test m (r.0 + 1, Map.delete k r.1) q,
    get-delete_where test m r q,
    get-delete k q r.1,
    mem-keys k m,
  )

  length-delete_absent :
      (k : K) (m : Map K V) → mem k (keys m) ≡ false → length (Map.delete k m) ≡ length m
  unfolding Map.delete Map.mem
  length-delete_absent k [] h = refl
  length-delete_absent k ((j, v) ∷ m) h = ground (arith, length-delete_absent k m)

  length-delete :
      (k : K) (m : Map K V)
      → distinct (keys m) ≡ true
      → mem k (keys m) ≡ true
      → length m ≡ suc (length (Map.delete k m))
  unfolding Map.delete Map.mem Map.distinct
  length-delete k [] d h = absurd (ground arith)
  length-delete k ((j, v) ∷ m) d h = ground (arith, length-delete k m, length-delete_absent k m)

  -- the loop counts what it deletes
  pub length-delete_where :
      (test : K → V → Bool) (m : Map K V) (r : ℕ × Map K V)
      → distinct (keys m) ≡ true
      → distinct (keys r.1) ≡ true
      → ((k : K) → mem k (keys m) ≡ true → mem k (keys r.1) ≡ true)
      → let (count, m') = delete_where test m r in count + length m' ≡ r.0 + length r.1
  unfolding delete_where Map.mem Map.distinct
  length-delete_where test [] r d e sub = refl
  length-delete_where test ((k, v) ∷ m) r d e sub = elim (Bool-cases (test k v)) [
    | inl hit ↦
        let rest =
          length-delete_where test m (r.0 + 1, Map.delete k r.1) (ground arith)
            (distinct-keys-delete k r.1 e)
            (λ j h. ground (arith, sub j, mem-keys-delete k j r.1)) in
        ground (arith, length-delete k r.1 e, sub k)
    | inr pass ↦
        let rest = length-delete_where test m r (ground arith) e (λ j h. ground (arith, sub j)) in
        ground arith
  ]

module _ {V : Type 0} where
  -- A read finds, until its lifetime has passed, what was stored last under its key, and nothing
  -- later; storing under one key changes no read of another.
  pub get-set :
      (k j : CacheKey) (value : V) (now later : Time) (c : ResultsCache V)
      → (get j later (set k value now c)).0
        ≡ ite
            (CacheKey-discrete k j)
            (if leb later (now + c.ttl) then some value else none)
            (get j later c).0
  unfolding get set
  get-set k j value now later c = ground (
    arith,
    get-put k j (record { value = value; computed_at = now; expires_at = now + c.ttl }) c.entries,
  )

  -- In a cache with no key twice, after the invalidation of a version no read under it succeeds,
  -- every other read is as before, and the number returned is that of the entries removed.
  pub get-invalidate_version :
      (version : ℕ) (j : CacheKey) (now : Time) (c : ResultsCache V)
      → distinct (keys c.entries) ≡ true
      → let (count, c') = invalidate_version version c in
        ((get j now c').0 ≡ (if j.version_id == version then none else (get j now c).0))
        × (count + length c'.entries ≡ length c.entries)
  unfolding get invalidate_version
  get-invalidate_version version j now c d = (
    ground (arith, get-delete_where (λ k e. k.version_id == version) c.entries (0, c.entries) j d),
    ground (
      arith,
      length-delete_where (λ k e. k.version_id == version) c.entries (0, c.entries) d d (λ k h. h),
    ),
  )

  -- In a cache with no key twice, eviction changes no read made at its time or later, and returns
  -- the number of the entries that it removes.
  pub get-evict_expired :
      (j : CacheKey) (now later : Time) (c : ResultsCache V)
      → distinct (keys c.entries) ≡ true
      → now ≤ later
      → let (count, c') = evict_expired now c in
        ((get j later c').0 ≡ (get j later c).0) × (count + length c'.entries ≡ length c.entries)
  unfolding get evict_expired
  get-evict_expired j now later c d h = (
    ground (arith, get-delete_where (λ k e. after now e.expires_at) c.entries (0, c.entries) j d),
    ground (
      arith,
      length-delete_where (λ k e. after now e.expires_at) c.entries (0, c.entries) d d (λ k h. h),
    ),
  )
