-- ===== src/Map/Laws.antt =====
-- What the operations of a map do to its lookups, its keys and its size.
use itt_engine.Prelude.{
  suc, ◌≡◌, refl, true, false, Option, none, some, [], ◌∷◌, ite, Key, arith, length,
}
use itt_engine.Map.{Map, keys, get, put, delete, modify, contains, mem, distinct}

abbrev pub map_option {ℓ} : {V : Type ℓ} → (V → V) → Option V → Option V
map_option f none = none
map_option f (some v) = some (f v)

module _ {K V : Type 0} ⦃key : Key K⦄ where
  pub get-put :
      (k j : K) (v : V) (m : Map K V) → get j (put k v m) ≡ ite (key.same k j) (some v) (get j m)
  unfolding get put
  get-put k j v [] = ground arith
  get-put k j v ((i, w) ∷ m) = ground (arith, get-put k j v m)

  pub get-delete : (k j : K) (m : Map K V) → get j (delete k m) ≡ ite (key.same k j) none (get j m)
  unfolding get delete
  get-delete k j [] = ground arith
  get-delete k j ((i, w) ∷ m) = ground (arith, get-delete k j m)

  pub get-modify :
      (k j : K) (f : V → V) (m : Map K V)
      → get j (modify k f m) ≡ ite (key.same k j) (map_option f (get j m)) (get j m)
  unfolding get modify
  get-modify k j f [] = ground arith
  get-modify k j f ((i, w) ∷ m) = ground (arith, get-modify k j f m)

  -- a key is in the map when it is among the keys that an iteration meets
  pub mem-keys : (k : K) (m : Map K V) → mem k (keys m) ≡ contains k m
  unfolding mem get
  mem-keys k [] = refl
  mem-keys k ((i, w) ∷ m) = ground (arith, mem-keys k m)

  pub mem-keys-put :
      (k j : K) (v : V) (m : Map K V)
      → mem j (keys (put k v m)) ≡ ite (key.same k j) true (mem j (keys m))
  unfolding mem put
  mem-keys-put k j v [] = refl
  mem-keys-put k j v ((i, w) ∷ m) = ground (arith, mem-keys-put k j v m)

  pub distinct-keys-put :
      (k : K) (v : V) (m : Map K V) → distinct (keys m) ≡ true → distinct (keys (put k v m)) ≡ true
  unfolding distinct mem put
  distinct-keys-put k v [] h = refl
  distinct-keys-put k v ((i, w) ∷ m) h =
      ground (arith, distinct-keys-put k v m, mem-keys-put k i v m)

  pub mem-keys-delete :
      (k j : K) (m : Map K V)
      → mem j (keys (delete k m)) ≡ ite (key.same k j) false (mem j (keys m))
  unfolding mem delete
  mem-keys-delete k j [] = ground arith
  mem-keys-delete k j ((i, w) ∷ m) = ground (arith, mem-keys-delete k j m)

  pub distinct-keys-delete :
      (k : K) (m : Map K V) → distinct (keys m) ≡ true → distinct (keys (delete k m)) ≡ true
  unfolding distinct mem delete
  distinct-keys-delete k [] h = refl
  distinct-keys-delete k ((i, w) ∷ m) h =
      ground (arith, distinct-keys-delete k m, mem-keys-delete k i m)

  pub keys-modify : (k : K) (f : V → V) (m : Map K V) → keys (modify k f m) ≡ keys m
  unfolding modify
  keys-modify k f [] = refl
  keys-modify k f ((i, w) ∷ m) = ground (arith, keys-modify k f m)

  -- `m[k] = v` grows the map by one entry for a new key, and by none for an old one
  pub length-put :
      (k : K) (v : V) (m : Map K V)
      → length (put k v m) ≡ elim (get k m) [ none ↦ suc (length m) | some _ ↦ length m ]
  unfolding get put
  length-put k v [] = refl
  length-put k v ((i, w) ∷ m) = ground (arith, length-put k v m)
