-- ===== src/Cache.antt =====
-- cache/results_cache.go: results cached by version and query. A call takes the reading of the
-- clock that it makes; the lock makes each call one step.
pub mod Reads
use itt_engine.Prelude.{
  ℕ, ◌+◌, ◌==◌, Bool, Option, none, some, if◌then◌else◌, Str, Str-discrete, ℕ_discrete, Key, Time,
  after, ltb, ℤ, pos, pos_part, leb_ℤ, Float, add64, length, [], ◌∷◌, ◌*◌,
}
use itt_engine.Map
use itt_engine.Map.{Map}

pub record CacheKey : Type 0 where
  pub version_id : ℕ
  pub query_type : Str
  pub query_args : Str

unfoldable pub CacheKey-discrete : Discrete CacheKey
unfolding ℕ_discrete Str-discrete
CacheKey-discrete = hlevel (ℕ_discrete, Str-discrete)

instance abbrev pub cache_key : Key CacheKey
cache_key = record { same = CacheKey-discrete }

pub record CachedEntry (V : Type 0) : Type 0 where
  pub value : V
  pub computed_at : Time
  pub expires_at : Time

pub record ResultsCache (V : Type 0) : Type 0 where
  pub entries : Map CacheKey (CachedEntry V)
  pub ttl : ℕ
  pub hits : ℕ
  pub misses : ℕ

-- `for k, v := range m { if test(k, v) { delete(m, k); count++ } }`
module _ {K V : Type 0} ⦃key : Key K⦄ where
  unfoldable pub delete_where : (K → V → Bool) → Map K V → ℕ × Map K V → ℕ × Map K V
  delete_where test [] r = r
  delete_where test ((k, v) ∷ m) r =
      delete_where test m (if test k v then (r.0 + 1, Map.delete k r.1) else r)

module _ {V : Type 0} where
  unfoldable pub new_results_cache : ℤ → ResultsCache V
  new_results_cache ttl = record {
    entries = [];
    ttl = if leb_ℤ ttl (pos 0) then 60_000_000_000 else pos_part ttl;
    hits = 0;
    misses = 0;
  }

  unfoldable pub get : CacheKey → Time → ResultsCache V → Option V × ResultsCache V
  get k now c = elim (Map.get k c.entries) [
    | none ↦ (none, record c { misses = add64 c.misses 1 })
    | some cached ↦
        if after now cached.expires_at
        then (none, record c { misses = add64 c.misses 1 })
        else (some cached.value, record c { hits = add64 c.hits 1 })
  ]

  unfoldable pub set : CacheKey → V → Time → ResultsCache V → ResultsCache V
  set k value now c = record c {
    entries =
        Map.put k (record { value = value; computed_at = now; expires_at = now + c.ttl }) c.entries;
  }

  unfoldable pub invalidate_version : ℕ → ResultsCache V → ℕ × ResultsCache V
  invalidate_version version c =
      let (count, entries) =
        delete_where (λ k e. k.version_id == version) c.entries (0, c.entries) in
      (count, record c { entries = entries })

  unfoldable pub evict_expired : Time → ResultsCache V → ℕ × ResultsCache V
  evict_expired now c =
      let (count, entries) =
        delete_where (λ k e. after now e.expires_at) c.entries (0, c.entries) in
      (count, record c { entries = entries })

  unfoldable pub clear : ResultsCache V → ResultsCache V
  clear c = record c { entries = []; hits = 0; misses = 0 }

pub record CacheStats (F : Type 0) : Type 0 where
  pub entries : ℕ
  pub hits : ℕ
  pub misses : ℕ
  pub hit_rate : F
  pub size_mb : F

unfoldable pub stats : {F V : Type 0} ⦃float : Float F⦄ → ResultsCache V → CacheStats F
stats ⦃float⦄ c =
    let total = add64 c.hits c.misses in
    record {
      entries = length c.entries;
      hits = c.hits;
      misses = c.misses;
      hit_rate =
          if ltb 0 total
          then float.div (float.of_int c.hits) (float.of_int total)
          else float.nought;
      size_mb = float.mul (float.of_int (length c.entries)) (float.of_int 5);
    }
