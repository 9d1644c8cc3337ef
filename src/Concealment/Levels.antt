-- ===== src/Concealment/Levels.antt =====
-- The frontiers of analysis/concealment.go: each is what lies at one distance from the source.
use itt_engine.Prelude.{
  ◌≡◌, ℕ, ◌+◌, Bool, true, false, ◌||◌, ◌&&◌, not, none, some, List, [], ◌∷◌, Str, str_key, arith,
  if◌then◌else◌, Bool-cases, inl, inr,
}
use itt_engine.Map
use itt_engine.Map.{Map, is_some, mem, distinct}
use itt_engine.Map.Laws.{get-put}
use itt_engine.Map.Members.{mem-append, distinct-append_one}
use itt_engine.Bfs.{Search, offer, scan}
use itt_engine.Bfs.Scan.{get-scan}
use itt_engine.Concealment.{expand}

-- what a scan queues is what it gives a distance
mem-scan :
    (d : ℕ) (ids : List Str) (s : Search) (id : Str)
    → mem id (scan d ids s).queue
      ≡ (mem id s.queue || (not (is_some (Map.get id s.dist)) && mem id ids))
unfolding scan offer Map.mem
mem-scan d [] s id = ground arith
mem-scan d (j ∷ ids) s id = ground (
  arith,
  mem-scan d ids (offer d j s) id,
  get-put j id (d + 1) s.dist,
  mem-append id s.queue (j ∷ []),
)

-- nothing is queued twice, where what is queued has a distance
abbrev pub IsQueued : Search → Type 0
IsQueued s =
    (distinct s.queue ≡ true)
    × ((id : Str) → mem id s.queue ≡ true → is_some (Map.get id s.dist) ≡ true)

IsQueued-offer : (d : ℕ) (j : Str) (s : Search) → IsQueued s → IsQueued (offer d j s)
unfolding offer Map.mem
IsQueued-offer d j s (single, known) = (
  ground (arith, distinct-append_one j s.queue, known j),
  λ id m. ground (arith, known id, get-put j id (d + 1) s.dist, mem-append id s.queue (j ∷ [])),
)

IsQueued-scan : (d : ℕ) (ids : List Str) (s : Search) → IsQueued s → IsQueued (scan d ids s)
unfolding scan
IsQueued-scan d [] s q = q
IsQueued-scan d (j ∷ ids) s q = IsQueued-scan d ids (offer d j s) (IsQueued-offer d j s q)

module _ (next : Str → List Str) where
  -- a neighbour of a frontier
  abbrev pub linked : Str → List Str → Bool
  linked id [] = false
  linked id (u ∷ us) = mem id (next u) || linked id us

  pub linked-elim :
      (id : Str) (us : List Str)
      → linked id us ≡ true
      → (u : Str) × (mem u us ≡ true) × (mem id (next u) ≡ true)
  unfolding Map.mem
  linked-elim id [] h = absurd (ground arith)
  linked-elim id (u ∷ us) h = elim (Bool-cases (mem id (next u))) [
    | inl near ↦ (u, ground arith, near)
    | inr far ↦ let (w, held, near) = linked-elim id us (ground arith) in (w, ground arith, near)
  ]

  pub linked-intro :
      (id u : Str) (us : List Str) → mem u us ≡ true → mem id (next u) ≡ true → linked id us ≡ true
  unfolding Map.mem
  linked-intro id u [] m near = absurd (ground arith)
  linked-intro id u (w ∷ us) m near = ground (arith, linked-intro id u us)

  pub get-expand :
      (k : ℕ) (us : List Str) (s : Search) (id : Str)
      → Map.get id (expand next k us s).dist ≡ elim (Map.get id s.dist) [
        | none ↦ (if linked id us then some (k + 1) else none)
        | some e ↦ some e
      ]
  unfolding expand
  get-expand k [] s id = ground arith
  get-expand k (u ∷ us) s id =
      ground (arith, get-expand k us (scan k (next u) s) id, get-scan k (next u) s id)

  pub mem-expand :
      (k : ℕ) (us : List Str) (s : Search) (id : Str)
      → mem id (expand next k us s).queue
        ≡ (mem id s.queue || (not (is_some (Map.get id s.dist)) && linked id us))
  unfolding expand
  mem-expand k [] s id = ground arith
  mem-expand k (u ∷ us) s id = ground (
    arith,
    mem-expand k us (scan k (next u) s) id,
    mem-scan k (next u) s id,
    get-scan k (next u) s id,
  )

  pub IsQueued-expand :
      (k : ℕ) (us : List Str) (s : Search) → IsQueued s → IsQueued (expand next k us s)
  unfolding expand
  IsQueued-expand k [] s q = q
  IsQueued-expand k (u ∷ us) s q =
      IsQueued-expand k us (scan k (next u) s) (IsQueued-scan k (next u) s q)
