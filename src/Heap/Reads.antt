-- ===== src/Heap/Reads.antt =====
-- What the pointers of a graph lead to, and what a write does to it.
use itt_engine.Prelude.{
  ◌≡◌, refl, ◌≢◌, ℕ, zero, suc, ◌<◌, true, Option, some, List, [], ◌∷◌, ◌++◌, Str, Str-discrete,
  str_key, length, get_elem?, set, arith, Option-cases, inl, inr, ◌>>=◌, ap,
}
use itt_engine.Map
use itt_engine.Map.{Map}

get_elem-found :
    {A : Type 0} (xs ys : List A) (p : ℕ) (v : A)
    → get_elem? xs p ≡ some v
    → (get_elem? (xs ++ ys) p ≡ some v) × (p < length xs)
get_elem-found [] ys p v h = absurd (ground arith)
get_elem-found (x ∷ xs) ys zero v h = (h, omega arith)
get_elem-found (x ∷ xs) ys (suc p) v h =
    let (found, low) = get_elem-found xs ys p v h in (found, omega arith)

get_elem-end : {A : Type 0} (xs : List A) (v : A) → get_elem? (xs ++ (v ∷ [])) (length xs) ≡ some v
get_elem-end [] v = refl
get_elem-end (x ∷ xs) v = get_elem-end xs v

get_elem-set_ne :
    {A : Type 0} (xs : List A) (p q : ℕ) (v : A) → q ≢ p → get_elem? (set xs q v) p ≡ get_elem? xs p
get_elem-set_ne [] p q v h = refl
get_elem-set_ne (x ∷ xs) zero zero v h = absurd (h refl)
get_elem-set_ne (x ∷ xs) (suc p) zero v h = refl
get_elem-set_ne (x ∷ xs) zero (suc q) v h = refl
get_elem-set_ne (x ∷ xs) (suc p) (suc q) v h = get_elem-set_ne xs p q v (λ e. h (ap suc e))

get_elem-set_self :
    {A : Type 0} (xs : List A) (p : ℕ) (v w : A)
    → get_elem? xs p ≡ some w
    → get_elem? (set xs p v) p ≡ some v
get_elem-set_self [] p v w h = absurd (ground arith)
get_elem-set_self (x ∷ xs) zero v w h = refl
get_elem-set_self (x ∷ xs) (suc p) v w h = get_elem-set_self xs p v w h

pub get-some :
    (k : Str) (m : Map Str ℕ) → Map.contains k m ≡ true → (p : ℕ) × (Map.get k m ≡ some p)
get-some k m h = elim (Option-cases (Map.get k m)) [
  | inl bad ↦ absurd (ground arith)
  | inr (p, found) ↦ (p, found)
]

-- no pointer of a map is the given one
abbrev pub Absent : ℕ → Map Str ℕ → Type 0
Absent p [] = Unit
Absent p ((k, q) ∷ m) = (p ≢ q) × Absent p m

-- no two keys lead to one cell
abbrev pub Separate : Map Str ℕ → Type 0
Separate [] = Unit
Separate ((k, p) ∷ m) = Absent p m × Separate m

Absent-put : (k : Str) (q r : ℕ) (m : Map Str ℕ) → r ≢ q → Absent r m → Absent r (Map.put k q m)
unfolding Map.put
Absent-put k q r [] h a = (h, tt)
Absent-put k q r ((j, s) ∷ m) h (first, rest) = elim (Str-discrete j k) [
  | yes this ↦ let same : Map.put k q ((j, s) ∷ m) ≡ (j, q) ∷ m = ground arith in rw same (h, rest)
  | no other ↦
      let next : Map.put k q ((j, s) ∷ m) ≡ (j, s) ∷ Map.put k q m = ground arith in
      rw next (first, Absent-put k q r m h rest)
]

Absent-get : (k : Str) (p q : ℕ) (m : Map Str ℕ) → Absent q m → Map.get k m ≡ some p → p ≢ q
unfolding Map.get
Absent-get k p q [] a found = absurd (ground arith)
Absent-get k p q ((j, r) ∷ m) (first, rest) found = elim (Str-discrete j k) [
  | yes this ↦ λ e. first (ground arith)
  | no other ↦ Absent-get k p q m rest (ground arith)
]

module _ {A : Type 0} where
  -- the map with the cells in place of the pointers; `none` is a pointer out of the heap
  unfoldable pub read : List A → Map Str ℕ → Option (Map Str A)
  read cells [] = some []
  read cells ((k, p) ∷ m) = do a ← get_elem? cells p; rest ← read cells m; some ((k, a) ∷ rest)

  pub read-cons :
      (cells : List A) (k : Str) (p : ℕ) (m : Map Str ℕ) (r : Map Str A)
      → read cells ((k, p) ∷ m) ≡ some r
      → (a : A) × (rest : Map Str A) × (get_elem? cells p ≡ some a)
        × (read cells m ≡ some rest)
        × (r ≡ (k, a) ∷ rest)
  unfolding read
  read-cons cells k p m r h = elim (Option-cases (get_elem? cells p)) [
    | inl bad ↦ absurd (ground arith)
    | inr (a, found) ↦ elim (Option-cases (read cells m)) [
      | inl bad ↦ absurd (ground arith)
      | inr (rest, all) ↦ (a, rest, found, all, ground arith)
    ]
  ]

  -- a new cell changes nothing
  pub read-append :
      (cells : List A) (x : A) (m : Map Str ℕ) (r : Map Str A)
      → read cells m ≡ some r
      → read (cells ++ (x ∷ [])) m ≡ some r
  unfolding read
  read-append cells x [] r h = h
  read-append cells x ((k, p) ∷ m) r h =
      let (a, rest, found, all, shape) = read-cons cells k p m r h in
      let (still, low) = get_elem-found cells (x ∷ []) p a found in
      let tail = read-append cells x m rest all in ground arith

  -- a key that leads to a new cell
  pub read-put :
      (cells : List A) (x : A) (k : Str) (m : Map Str ℕ) (r : Map Str A)
      → read cells m ≡ some r
      → read (cells ++ (x ∷ [])) (Map.put k (length cells) m) ≡ some (Map.put k x r)
  unfolding read Map.put
  read-put cells x k [] r h = ground (arith, get_elem-end cells x)
  read-put cells x k ((j, p) ∷ m) r h =
      let (a, rest, found, all, shape) = read-cons cells j p m r h in
      let (still, low) = get_elem-found cells (x ∷ []) p a found in
      let tail = read-put cells x k m rest all in
      let kept = read-append cells x m rest all in
      let last = get_elem-end cells x in
      elim (Str-discrete j k) [ yes this ↦ ground arith | no other ↦ ground arith ]

  -- the pointers of a map that reads are below the end of the heap
  Absent-end :
      (cells : List A) (m : Map Str ℕ) (r : Map Str A)
      → read cells m ≡ some r
      → Absent (length cells) m
  Absent-end cells [] r h = tt
  Absent-end cells ((k, p) ∷ m) r h =
      let (a, rest, found, all, shape) = read-cons cells k p m r h in
      let (still, low) = get_elem-found cells [] p a found in
      ((λ e. absurd (omega arith)), Absent-end cells m rest all)

  pub Separate-put :
      (cells : List A) (k : Str) (m : Map Str ℕ) (r : Map Str A)
      → read cells m ≡ some r
      → Separate m
      → Separate (Map.put k (length cells) m)
  unfolding Map.put
  Separate-put cells k [] r h s = (tt, tt)
  Separate-put cells k ((j, p) ∷ m) r h (alone, s) =
      let (a, rest, found, all, shape) = read-cons cells j p m r h in
      let (still, low) = get_elem-found cells [] p a found in
      let q = length cells in
      elim (Str-discrete j k) [
        | yes this ↦
            let same : Map.put k q ((j, p) ∷ m) ≡ (j, q) ∷ m = ground arith in
            rw same (Absent-end cells m rest all, s)
        | no other ↦
            let next : Map.put k q ((j, p) ∷ m) ≡ (j, p) ∷ Map.put k q m = ground arith in
            rw next (
              Absent-put k q p m (λ e. absurd (omega arith)) alone,
              Separate-put cells k m rest all s,
            )
      ]

  -- a write to a cell that the map does not lead to
  read-set :
      (cells : List A) (p : ℕ) (v : A) (m : Map Str ℕ)
      → Absent p m
      → read (set cells p v) m ≡ read cells m
  unfolding read
  read-set cells p v [] a = refl
  read-set cells p v ((k, q) ∷ m) (apart, rest) =
      rw (get_elem-set_ne cells q p v apart, read-set cells p v m rest) refl

  -- a write to the cell of a key
  pub read-modify :
      (cells : List A) (k : Str) (p : ℕ) (f : A → A) (m : Map Str ℕ) (r : Map Str A)
      → read cells m ≡ some r
      → Separate m
      → Map.get k m ≡ some p
      → (a : A) × (get_elem? cells p ≡ some a)
        × (read (set cells p (f a)) m ≡ some (Map.modify k f r))
  unfolding read Map.modify Map.get
  read-modify cells k p f [] r h s there = absurd (ground arith)
  read-modify cells k p f ((j, q) ∷ m) r h (alone, s) there =
      let (a, rest, found, all, shape) = read-cons cells j q m r h in
      elim (Str-discrete j k) [
        | yes this ↦
            let one : q ≡ p = ground arith in
            let here : get_elem? cells p ≡ some a = ground arith in
            let own = get_elem-set_self cells p (f a) a here in
            let others = read-set cells p (f a) m (rw (← one) alone) in (a, here, ground arith)
        | no other ↦
            let (b, here, tail) = read-modify cells k p f m rest all s (ground arith) in
            let differ : p ≢ q = Absent-get k p q m alone (ground arith) in
            let kept = get_elem-set_ne cells q p (f b) differ in (b, here, ground arith)
      ]

  -- what a lookup leads to
  pub get-read :
      (cells : List A) (k : Str) (m : Map Str ℕ) (r : Map Str A)
      → read cells m ≡ some r
      → Map.contains k r ≡ Map.contains k m
  unfolding read Map.get
  get-read cells k [] r h = ground arith
  get-read cells k ((j, q) ∷ m) r h =
      let (a, rest, found, all, shape) = read-cons cells j q m r h in
      let tail = get-read cells k m rest all in ground arith

  -- a heap that keeps the cells of another reads what that reads
  pub read-kept :
      (cells cells' : List A) (m : Map Str ℕ) (r : Map Str A)
      → ((p : ℕ) → p < length cells → get_elem? cells' p ≡ get_elem? cells p)
      → read cells m ≡ some r
      → read cells' m ≡ some r
  unfolding read
  read-kept cells cells' [] r keeps h = h
  read-kept cells cells' ((k, p) ∷ m) r keeps h =
      let (a, rest, found, all, shape) = read-cons cells k p m r h in
      let (still, low) = get_elem-found cells [] p a found in
      let same = keeps p low in let tail = read-kept cells cells' m rest keeps all in ground arith
