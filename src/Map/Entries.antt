-- ===== src/Map/Entries.antt =====
-- What holds of every lookup holds of every entry of an iteration, and copies made by iterations.
use itt_engine.Prelude.{◌≡◌, refl, true, none, some, [], ◌∷◌, Key, arith}
use itt_engine.Map.{Map, OnSome, AllEntries, keys, get, put, distinct}
use itt_engine.Map.Laws.{get-put, mem-keys}

module _ {K V : Type 0} ⦃key : Key K⦄ where
  -- a lookup past the first entry
  get-tail :
      (P : K → V → Type 0) (k j : K) (v : V) (m : Map K V)
      → distinct (keys ((k, v) ∷ m)) ≡ true
      → OnSome (P j) (get j ((k, v) ∷ m))
      → OnSome (P j) (get j m)
  unfolding get distinct
  get-tail P k j v m d h = ground (arith, mem-keys k m)

  pub entries_of_get :
      (P : K → V → Type 0) (m : Map K V)
      → distinct (keys m) ≡ true
      → ((k : K) → OnSome (P k) (get k m))
      → AllEntries P m
  unfolding distinct get
  entries_of_get P [] d h = tt
  entries_of_get P ((k, v) ∷ m) d h =
      (ground (arith, h k), entries_of_get P m (ground arith) (λ j. get-tail P k j v m d (h j)))

  -- `for k, v := range m { acc[k] = v }`
  unfoldable pub copy_into : Map K V → Map K V → Map K V
  copy_into [] acc = acc
  copy_into ((k, v) ∷ m) acc = copy_into m (put k v acc)

  pub get-copy_into :
      (m acc : Map K V) (j : K)
      → distinct (keys m) ≡ true
      → get j (copy_into m acc) ≡ elim (get j m) [ none ↦ get j acc | some v ↦ some v ]
  unfolding copy_into get distinct
  get-copy_into [] acc j d = refl
  get-copy_into ((k, v) ∷ m) acc j d =
      ground (arith, get-copy_into m (put k v acc) j, get-put k j v acc, mem-keys k m)
