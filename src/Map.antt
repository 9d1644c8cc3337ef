-- ===== src/Map.antt =====
-- Go maps as association lists. An iteration (`range`) goes through the list in its order; Go
-- leaves that order open, and the theorems hold for every list, so for every order.
pub mod Entries
pub mod Laws
pub mod Members
use itt_engine.Prelude.{Bool, true, false, Option, none, some, List, [], ◌∷◌, ite, Key, not, ◌&&◌}

abbrev pub Map : Type 0 → Type 0 → Type 0
Map K V = List (K × V)

abbrev pub is_some {ℓ} : {V : Type ℓ} → Option V → Bool
is_some none = false
is_some (some v) = true

-- a property of what a map holds under a key, if anything
abbrev pub OnSome {ℓ} : {V : Type ℓ} → (V → Type 0) → Option V → Type 0
OnSome P none = Unit
OnSome P (some v) = P v

-- a property of every entry that an iteration meets
abbrev pub AllEntries : {K V : Type 0} → (K → V → Type 0) → Map K V → Type 0
AllEntries P [] = Unit
AllEntries P (e ∷ m) = P e.0 e.1 × AllEntries P m

module _ {K V : Type 0} where
  abbrev pub keys : Map K V → List K
  keys [] = []
  keys (e ∷ m) = e.0 ∷ keys m

  abbrev pub values : Map K V → List V
  values [] = []
  values (e ∷ m) = e.1 ∷ values m

module _ {K V : Type 0} ⦃key : Key K⦄ where
  -- `v, ok := m[k]`
  unfoldable pub get : K → Map K V → Option V
  get k [] = none
  get k ((j, v) ∷ m) = ite (key.same j k) (some v) (get k m)

  -- `m[k] = v`
  unfoldable pub put : K → V → Map K V → Map K V
  put k v [] = (k, v) ∷ []
  put k v ((j, w) ∷ m) = ite (key.same j k) ((j, v) ∷ m) ((j, w) ∷ put k v m)

  -- `delete(m, k)`
  unfoldable pub delete : K → Map K V → Map K V
  delete k [] = []
  delete k ((j, w) ∷ m) = ite (key.same j k) (delete k m) ((j, w) ∷ delete k m)

  -- A write through the pointer `m[k]`, where there is one.
  unfoldable pub modify : K → (V → V) → Map K V → Map K V
  modify k f [] = []
  modify k f ((j, w) ∷ m) = ite (key.same j k) ((j, f w) ∷ m) ((j, w) ∷ modify k f m)

  -- `_, ok := m[k]`
  abbrev pub contains : K → Map K V → Bool
  contains k m = is_some (get k m)

module _ {K : Type 0} ⦃key : Key K⦄ where
  unfoldable pub mem : K → List K → Bool
  mem k [] = false
  mem k (j ∷ l) = ite (key.same j k) true (mem k l)

  -- no key twice
  unfoldable pub distinct : List K → Bool
  distinct [] = true
  distinct (k ∷ l) = not (mem k l) && distinct l
