-- ===== src/Bfs/Loop.antt =====
-- The outer loop of `bfsDistances` of analysis/curvature.go: it ends, with the distances that are no
-- larger than the depth.
use itt_engine.Prelude.{
  ◌≡◌, refl, ℕ, zero, suc, ◌+◌, ◌≤◌, ◌<◌, true, false, none, some, List, [], ◌∷◌, Str, Str-discrete,
  str_key, arith, length, leb, if◌then◌else◌, Option-cases, List-cases, inl, inr, ◌⊎◌, ◌↔◌, dec_lt,
}
use itt_engine.Map
use itt_engine.Map.{Map, mem}
use itt_engine.Bfs.{Search, distance, scan, visit, loop, begin}
use itt_engine.Bfs.Scan.{
  Levels, Levels-weaken, Extends, scan-Extends, Levels-scan, get-scan, mem-queue-scan,
  fresh-queue-scan, work-scan, unseen,
}

-- walks of a length
pub data Walk (next : Str → List Str) (src : Str) : Str → ℕ → Type 0 where
  here : Walk next src src 0
  step : {u v : Str} {k : ℕ} → Walk next src u k → mem v (next u) ≡ true → Walk next src v (k + 1)

-- the length of a shortest walk
abbrev pub IsShortest : (Str → List Str) → Str → Str → ℕ → Type 0
IsShortest next src v d = Walk next src v d × ((k : ℕ) → Walk next src v k → d ≤ k)

module _ (next : Str → List Str) (max_depth : ℕ) (src : Str) where
  abbrev pub Reached : Search → Str → ℕ → Type 0
  Reached s v d = (e : ℕ) × (Map.get v s.dist ≡ some e) × (e ≤ d)

  pub record Inv (s : Search) : Type 0 where
    pub level : ℕ
    pub levels : Levels s.dist level (level + 1) s.queue
    pub bound : (id : Str) (d : ℕ) → Map.get id s.dist ≡ some d → d ≤ level + 1
    pub shallow : (id : Str) (d : ℕ) → Map.get id s.dist ≡ some d → d ≤ max_depth
    pub sound : (id : Str) (d : ℕ) → Map.get id s.dist ≡ some d → Walk next src id d
    pub expanded :
        (u v : Str) (d : ℕ)
        → Map.get u s.dist ≡ some d
        → d < max_depth
        → mem v (next u) ≡ true
        → (mem u s.queue ≡ true) ⊎ Reached s v (d + 1)
    pub source : Map.get src s.dist ≡ some 0

  module _ (s : Search) (current : Str) (rest : List Str) (v : Inv s)
      (popped : s.queue ≡ current ∷ rest) (d : ℕ) (at : Map.get current s.dist ≡ some d)
      (lo : v.level ≤ d) (hi : d ≤ v.level + 1) (below : Levels s.dist d (v.level + 1) rest) where
    abbrev behind : Search
    behind = record s { queue = rest }

    -- a node that lies at the greatest depth is left as it is
    Inv-behind : max_depth ≤ d → Inv behind
    unfolding Map.mem
    Inv-behind deep = record {
      level = d;
      levels = Levels-weaken s.dist d (v.level + 1) (d + 1) rest (omega arith) below;
      bound = λ id e h. omega (arith, v.bound id e h);
      shallow = v.shallow;
      sound = v.sound;
      expanded = λ u w e h less m. elim (v.expanded u w e h less m) [
        | inl waits ↦ inl (ground (arith, popped))
        | inr reached ↦ inr reached
      ];
      source = v.source;
    }

    abbrev scanned : Search
    scanned = scan d (next current) behind

    get-scanned :
        (id : Str)
        → Map.get id scanned.dist ≡ elim (Map.get id s.dist) [
          | none ↦ (if mem id (next current) then some (d + 1) else none)
          | some e ↦ some e
        ]
    get-scanned id = get-scan d (next current) behind id

    kept : Extends s.dist scanned.dist
    kept = scan-Extends d (next current) behind

    expanded-scanned :
        (u w : Str) (e : ℕ)
        → Map.get u scanned.dist ≡ some e
        → e < max_depth
        → mem w (next u) ≡ true
        → (mem u scanned.queue ≡ true) ⊎ Reached scanned w (e + 1)
    unfolding Map.mem
    expanded-scanned u w e h less m = elim (Option-cases (Map.get u s.dist)) [
      | inl fresh ↦
          inl (fresh-queue-scan d (next current) behind u fresh (ground (arith, get-scanned u)))
      | inr (e', old) ↦
          let same : e' ≡ e = ground (arith, get-scanned u) in
          elim (v.expanded u w e (ground arith) less m) [
            | inl waits ↦ elim (Str-discrete current u) [
              | yes this ↦ inr (elim (Option-cases (Map.get w s.dist)) [
                | inl new ↦ (d + 1, ground (arith, get-scanned w), ground arith)
                | inr (f, seen) ↦ (f, kept w f seen, ground (arith, v.bound w f seen))
              ])
              | no other ↦ inl (mem-queue-scan d (next current) behind u (ground (arith, popped)))
            ]
            | inr (f, found, le) ↦ inr (f, kept w f found, le)
          ]
    ]

    Inv-scanned : d < max_depth → Inv scanned
    Inv-scanned room = record {
      level = d;
      levels =
          Levels-scan d (next current) behind
            (Levels-weaken s.dist d (v.level + 1) (d + 1) rest (omega arith) below);
      bound = λ id e h. elim (Option-cases (Map.get id s.dist)) [
        | inl fresh ↦ ground (arith, get-scanned id)
        | inr (f, old) ↦ ground (arith, get-scanned id, v.bound id f old)
      ];
      shallow = λ id e h. elim (Option-cases (Map.get id s.dist)) [
        | inl fresh ↦ ground (arith, get-scanned id)
        | inr (f, old) ↦ ground (arith, get-scanned id, v.shallow id f old)
      ];
      sound = λ id e h. elim (Option-cases (Map.get id s.dist)) [
        | inl fresh ↦
            let new : mem id (next current) ≡ true = ground (arith, get-scanned id) in
            let far : d + 1 ≡ e = ground (arith, get-scanned id) in
            rw (← far) (step (v.sound current d at) new)
        | inr (f, old) ↦ v.sound id e (ground (arith, get-scanned id))
      ];
      expanded = expanded-scanned;
      source = kept src 0 v.source;
    }

  Inv-visit :
      (s : Search) (current : Str) (rest : List Str)
      → Inv s
      → s.queue ≡ current ∷ rest
      → Inv (visit next max_depth current (record s { queue = rest }))
  unfolding visit
  Inv-visit s current rest v popped =
      let (d, at, lo, hi, below) = (rw popped at v.levels) in
      elim (dec_lt d max_depth) [
        | yes room ↦
            let more : leb max_depth d ≡ false = ground arith in
            rw (at, distance, more) (Inv-scanned s current rest v popped d at lo hi below room)
        | no deep ↦
            let shut : leb max_depth d ≡ true = ground arith in
            rw (at, distance, shut)
              (Inv-behind s current rest v popped d at lo hi below (omega arith))
      ]

  pub Inv-begin : Inv (begin src)
  unfolding Map.get Map.mem
  Inv-begin = record {
    level = 0;
    levels = (0, ground arith, omega arith, omega arith, tt);
    bound = λ id d h. ground arith;
    shallow = λ id d h. ground arith;
    sound = λ id d h. elim (Str-discrete src id) [
      | yes this ↦ let zero_is : 0 ≡ d = ground arith in rw (← this, ← zero_is) here
      | no other ↦ absurd (ground arith)
    ];
    expanded = λ u v d h less m. inl (ground arith);
    source = ground arith;
  }

  module _ (all : List Str) (closed : (u v : Str) → mem v (next u) ≡ true → mem v all ≡ true) where
    abbrev work : Search → ℕ
    work s = unseen all s.dist + length s.queue

    work-visit : (current : Str) (s : Search) → work (visit next max_depth current s) ≤ work s
    unfolding visit
    work-visit current s =
        ground (arith, work-scan (distance current s) (next current) all s (closed current))

    -- with fuel for the work left, the loop returns a state whose queue is empty
    pub loop-Inv :
        (fuel : ℕ) (s : Search)
        → Inv s
        → work s ≤ fuel
        → (t : Search) × (loop next max_depth fuel s ≡ some t.dist) × Inv t × (t.queue ≡ [])
    unfolding loop
    loop-Inv zero s v h = (s, ground arith, v, ground arith)
    loop-Inv (suc fuel) s v h = elim (List-cases s.queue) [
      | inl empty ↦ (s, rw (empty, loop) refl, v, empty)
      | inr (current, rest, popped) ↦
          let behind : Search = record s { queue = rest } in
          let (t, runs, inv, empty) =
            loop-Inv fuel (visit next max_depth current behind) (Inv-visit s current rest v popped)
              (ground (arith, work-visit current behind)) in
          (t, rw (popped, loop) runs, inv, empty)
    ]

  -- with an empty queue every short walk is accounted for
  complete :
      (t : Search)
      → Inv t
      → t.queue ≡ []
      → {v : Str} {k : ℕ} → Walk next src v k
      → k ≤ max_depth
      → Reached t v k
  unfolding Map.mem
  complete t inv empty here h = (0, inv.source, omega arith)
  complete t inv empty (step {u} {v} {k} walk m) h =
      let (d, at, le) = complete t inv empty walk (omega arith) in
      elim (inv.expanded u v d at (omega arith) m) [
        | inl waits ↦ absurd (ground (arith, empty))
        | inr (e, found, near) ↦ (e, found, omega arith)
      ]

  pub shortest :
      (t : Search) (v : Str) (d : ℕ)
      → Inv t
      → t.queue ≡ []
      → (Map.get v t.dist ≡ some d) ↔ ((d ≤ max_depth) × IsShortest next src v d)
  shortest t v d inv empty = (
    λ found. (
      inv.shallow v d found,
      (
        inv.sound v d found,
        λ k walk. elim (dec_lt max_depth k) [
          | yes far ↦ omega (arith, inv.shallow v d found)
          | no near ↦ let (e, at, le) = complete t inv empty walk (omega arith) in ground arith
        ],
      ),
    ),
    λ (h, (walk, least)).
        let (e, at, le) = complete t inv empty walk h in
        let back = least e (inv.sound v e at) in ground arith,
  )
