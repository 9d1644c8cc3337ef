-- ===== src/Graph/Keys.antt =====
-- `edgeKey` of graph/graph.go: when the joined key tells two pairs of endpoints apart.
use itt_engine.Prelude.{
  ◌≡◌, Bool, true, false, [], ◌∷◌, append_assoc, Str, if◌then◌else◌, ◌==◌, arith,
}
use itt_engine.Graph.{edge_key}

-- no zero byte in the string
abbrev pub no_nul : Str → Bool
no_nul [] = true
no_nul (x ∷ xs) = if x == 0 then false else no_nul xs

-- Two edges whose sources hold no zero byte have one key only if their endpoints are the same.
pub edge_key_injective :
    (a c b d : Str)
    → no_nul a ≡ true
    → no_nul c ≡ true
    → edge_key a b ≡ edge_key c d
    → (a ≡ c) × (b ≡ d)
unfolding edge_key
edge_key_injective [] [] b d p q e = ground arith
edge_key_injective [] (y ∷ c) b d p q e = ground arith
edge_key_injective (x ∷ a) [] b d p q e = ground arith
edge_key_injective (x ∷ a) (y ∷ c) b d p q e = ground (arith, edge_key_injective a c b d)

-- With a zero byte in a source, two different pairs of endpoints share their key.
pub edge_key_shared : (a b c : Str) → edge_key (edge_key a b) c ≡ edge_key a (edge_key b c)
unfolding edge_key
edge_key_shared a b c = append_assoc a (0 ∷ b) (0 ∷ c)
