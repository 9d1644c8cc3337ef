-- ===== src/Bfs/Scan.antt =====
-- The inner loop of `bfsDistances` of analysis/curvature.go: what it gives a distance and queues.
use itt_engine.Prelude.{
  ◌≡◌, ℕ, ◌+◌, ◌≤◌, ◌<◌, true, none, some, List, [], ◌∷◌, ◌++◌, Str, str_key, arith, length,
  length-append, if◌then◌else◌, Option-cases, inl, inr,
}
use itt_engine.Map
use itt_engine.Map.{Map, is_some, mem}
use itt_engine.Map.Laws.{get-put}
use itt_engine.Map.Members.{mem-append}
use itt_engine.Bfs.{Search, offer, scan}

-- The distances of the queue, in its order, lie between two bounds and never fall.
abbrev pub Levels : Map Str ℕ → ℕ → ℕ → List Str → Type 0
Levels dist lo hi [] = Unit
Levels dist lo hi (id ∷ ids) =
    (d : ℕ) × (Map.get id dist ≡ some d) × (lo ≤ d) × (d ≤ hi) × Levels dist d hi ids

-- a distance that is known stays as it is
abbrev pub Extends : Map Str ℕ → Map Str ℕ → Type 0
Extends dist dist' = (id : Str) (d : ℕ) → Map.get id dist ≡ some d → Map.get id dist' ≡ some d

pub Levels-Extends :
    (dist dist' : Map Str ℕ) (lo hi : ℕ) (ids : List Str)
    → Extends dist dist'
    → Levels dist lo hi ids
    → Levels dist' lo hi ids
Levels-Extends dist dist' lo hi [] ext l = tt
Levels-Extends dist dist' lo hi (id ∷ ids) ext (d, e, p, q, l) =
    (d, ext id d e, p, q, Levels-Extends dist dist' d hi ids ext l)

pub Levels-weaken :
    (dist : Map Str ℕ) (lo hi hi' : ℕ) (ids : List Str)
    → hi ≤ hi'
    → Levels dist lo hi ids
    → Levels dist lo hi' ids
Levels-weaken dist lo hi hi' [] h l = tt
Levels-weaken dist lo hi hi' (id ∷ ids) h (d, e, p, q, l) =
    (d, e, p, omega arith, Levels-weaken dist d hi hi' ids h l)

Levels-append :
    (dist : Map Str ℕ) (lo hi : ℕ) (ids : List Str) (id : Str)
    → lo ≤ hi
    → Map.get id dist ≡ some hi
    → Levels dist lo hi ids
    → Levels dist lo hi (ids ++ (id ∷ []))
Levels-append dist lo hi [] id h e l = (hi, e, h, omega arith, tt)
Levels-append dist lo hi (j ∷ ids) id h e (d, e', p, q, l) =
    (d, e', p, q, Levels-append dist d hi ids id q e l)

-- the ids of a list that have no distance yet
abbrev pub unseen : List Str → Map Str ℕ → ℕ
unseen [] dist = 0
unseen (id ∷ ids) dist = (if is_some (Map.get id dist) then 0 else 1) + unseen ids dist

unseen-put-le :
    (id : Str) (d : ℕ) (ids : List Str) (dist : Map Str ℕ)
    → unseen ids (Map.put id d dist) ≤ unseen ids dist
unseen-put-le id d [] dist = omega arith
unseen-put-le id d (j ∷ ids) dist = ground (arith, unseen-put-le id d ids dist, get-put id j d dist)

unseen-put :
    (id : Str) (d : ℕ) (ids : List Str) (dist : Map Str ℕ)
    → mem id ids ≡ true
    → Map.get id dist ≡ none
    → unseen ids (Map.put id d dist) < unseen ids dist
unfolding Map.mem
unseen-put id d [] dist m fresh = absurd (ground arith)
unseen-put id d (j ∷ ids) dist m fresh =
    ground (arith, unseen-put id d ids dist, unseen-put-le id d ids dist, get-put id j d dist)

offer-Extends : (d : ℕ) (id : Str) (s : Search) → Extends s.dist (offer d id s).dist
unfolding offer
offer-Extends d id s j e h = ground (arith, get-put id j (d + 1) s.dist)

pub scan-Extends : (d : ℕ) (ids : List Str) (s : Search) → Extends s.dist (scan d ids s).dist
unfolding scan
scan-Extends d [] s j e h = h
scan-Extends d (id ∷ ids) s j e h =
    scan-Extends d ids (offer d id s) j e (offer-Extends d id s j e h)

pub Levels-offer :
    (d : ℕ) (id : Str) (s : Search)
    → Levels s.dist d (d + 1) s.queue
    → Levels (offer d id s).dist d (d + 1) (offer d id s).queue
unfolding offer
Levels-offer d id s l = elim (Option-cases (Map.get id s.dist)) [
  | inl fresh ↦
      let dist' = Map.put id (d + 1) s.dist in
      let ext : Extends s.dist dist' = λ j e h. ground (arith, get-put id j (d + 1) s.dist) in
      rw (fresh, offer)
        (Levels-append dist' d (d + 1) s.queue id (omega arith)
          (ground (arith, get-put id id (d + 1) s.dist))
          (Levels-Extends s.dist dist' d (d + 1) s.queue ext l))
  | inr (e, found) ↦ rw (found, offer) l
]

pub Levels-scan :
    (d : ℕ) (ids : List Str) (s : Search)
    → Levels s.dist d (d + 1) s.queue
    → Levels (scan d ids s).dist d (d + 1) (scan d ids s).queue
unfolding scan
Levels-scan d [] s l = l
Levels-scan d (id ∷ ids) s l = Levels-scan d ids (offer d id s) (Levels-offer d id s l)

-- The scan gives the neighbours that had no distance the next one, and nothing else.
pub get-scan :
    (d : ℕ) (ids : List Str) (s : Search) (id : Str)
    → Map.get id (scan d ids s).dist ≡ elim (Map.get id s.dist) [
      | none ↦ (if mem id ids then some (d + 1) else none)
      | some e ↦ some e
    ]
unfolding scan offer Map.mem
get-scan d [] s id = ground arith
get-scan d (j ∷ ids) s id =
    ground (arith, get-scan d ids (offer d j s) id, get-put j id (d + 1) s.dist)

-- It queues what it gives a distance.
pub mem-queue-scan :
    (d : ℕ) (ids : List Str) (s : Search) (id : Str)
    → mem id s.queue ≡ true
    → mem id (scan d ids s).queue ≡ true
unfolding scan offer
mem-queue-scan d [] s id m = m
mem-queue-scan d (j ∷ ids) s id m =
    mem-queue-scan d ids (offer d j s) id (ground (arith, mem-append id s.queue (j ∷ [])))

pub fresh-queue-scan :
    (d : ℕ) (ids : List Str) (s : Search) (id : Str)
    → Map.get id s.dist ≡ none
    → mem id ids ≡ true
    → mem id (scan d ids s).queue ≡ true
unfolding scan offer Map.mem
fresh-queue-scan d [] s id f m = absurd (ground arith)
fresh-queue-scan d (j ∷ ids) s id f m = ground (
  arith,
  fresh-queue-scan d ids (offer d j s) id,
  mem-queue-scan d ids (offer d j s) id,
  get-put j id (d + 1) s.dist,
  mem-append id s.queue (j ∷ []),
)

-- The work left does not grow: what is queued was unseen.
pub work-scan :
    (d : ℕ) (ids all : List Str) (s : Search)
    → ((id : Str) → mem id ids ≡ true → mem id all ≡ true)
    → unseen all (scan d ids s).dist + length (scan d ids s).queue
      ≤ unseen all s.dist + length s.queue
unfolding scan offer Map.mem
work-scan d [] all s sub = omega arith
work-scan d (id ∷ ids) all s sub =
    let rest = work-scan d ids all (offer d id s) (λ j m. sub j (ground arith)) in
    ground (arith, rest, sub id, unseen-put id (d + 1) all s.dist, length-append s.queue (id ∷ []))
