-- ===== src/History.antt =====
-- The ring buffer of tensions, `TensionHistory` of analysis/temporal.go.
pub mod Reads
pub mod Ring
use itt_engine.Prelude.{
  add64, less64, ℕ, zero, suc, ◌+◌, ◌-◌, ◌%◌, ◌==◌, Bool, Option, none, some, if◌then◌else◌, List,
  [], ◌∷◌, ltb, leb, Time, Float, length, get_elem?, set, replicate, get_or, ℤ, pos, pos_part,
  leb_ℤ,
}

pub record TensionSample (F : Type 0) : Type 0 where
  pub tension : F
  pub timestamp : Time
  pub version : ℕ

pub record TensionHistory (F : Type 0) : Type 0 where
  pub samples : List (TensionSample F)
  pub size : ℕ
  pub head : ℕ
  pub count : ℕ

-- `if capacity <= 0 { capacity = 100 }`
unfoldable pub size_for : ℤ → ℕ
size_for capacity = if leb_ℤ capacity (pos 0) then 100 else pos_part capacity

module _ {F : Type 0} ⦃float : Float F⦄ where
  -- `TensionSample{}`
  abbrev pub zero_sample : TensionSample F
  zero_sample = record { tension = float.nought; timestamp = 0; version = 0 }

  unfoldable pub new_tension_history : ℤ → TensionHistory F
  new_tension_history capacity =
      let size = size_for capacity in
      record { samples = replicate size zero_sample; size = size; head = 0; count = 0 }

  -- An index out of range panics; `Ring.IsValid` rules that out, and the write below is then made.
  unfoldable pub push : TensionSample F → TensionHistory F → TensionHistory F
  push s h = record h {
    samples = set h.samples h.head s;
    head = (h.head + 1) % h.size;
    count = add64 h.count 1;
  }

  -- `Len`
  unfoldable pub len : TensionHistory F → ℕ
  len h = if less64 h.count h.size then h.count else h.size

  unfoldable pub latest : TensionHistory F → Option (TensionSample F)
  latest h = if h.count == 0 then none else get_elem? h.samples ((h.head + h.size - 1) % h.size)

  unfoldable pub previous : TensionHistory F → Option (TensionSample F)
  previous h =
      if less64 (len h) 2 then none else get_elem? h.samples ((h.head + h.size - 2) % h.size)

  -- `n` samples from the position `start + i` on, going round
  unfoldable pub window : TensionHistory F → ℕ → ℕ → List (TensionSample F)
  window h start zero = []
  window h start (suc n) = get_or h.samples (start % h.size) zero_sample ∷ window h (start + 1) n

  unfoldable pub slice : TensionHistory F → List (TensionSample F)
  slice h =
      let n = len h in
      if n == 0 then [] else if less64 h.size h.count then window h h.head n else window h 0 n
