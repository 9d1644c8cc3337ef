-- ===== src/Concealment/Cost.antt =====
-- What `CalculateNode` of analysis/concealment.go sums.
use itt_engine.Prelude.{
  ◌≡◌, refl, ℕ, zero, suc, ◌+◌, ◌≤◌, true, Option, some, List, [], ◌∷◌, ◌++◌, Str, Str-discrete,
  str_key, arith, if◌then◌else◌, Option-cases, Bool-cases, inl, inr, ◌↔◌, Float, ◌>>=◌, ℤ, pos,
  negsuc, ap, dec_lt,
}
use itt_engine.Map
use itt_engine.Map.{Map, is_some, mem, distinct, keys}
use itt_engine.Map.Laws.{mem-keys}
use itt_engine.Map.Members.{distinct-append}
use itt_engine.Analysis.{GraphView}
use itt_engine.Bfs.{Search}
use itt_engine.Bfs.Loop.{Walk, IsShortest}
use itt_engine.Concealment.{expand, add_level, rounds, calculate_node, decayed}
use itt_engine.Concealment.Levels.{
  linked, linked-elim, linked-intro, get-expand, mem-expand, IsQueued-expand,
}

-- nodes with their distance
abbrev tagged : ℕ → List Str → Map Str ℕ
tagged k [] = []
tagged k (v ∷ vs) = (v, k) ∷ tagged k vs

keys-tagged : (k : ℕ) (vs : List Str) (m : Map Str ℕ) → keys (tagged k vs ++ m) ≡ vs ++ keys m
keys-tagged k [] m = refl
keys-tagged k (v ∷ vs) m = ap (λ l. v ∷ l) (keys-tagged k vs m)

get-tagged :
    (k : ℕ) (vs : List Str) (m : Map Str ℕ) (id : Str)
    → Map.get id (tagged k vs ++ m) ≡ (if mem id vs then some k else Map.get id m)
unfolding Map.get Map.mem
get-tagged k [] m id = ground arith
get-tagged k (v ∷ vs) m id = ground (arith, get-tagged k vs m id)

module _ (next : Str → List Str) where
  abbrev beyond : ℕ → Search → Search
  beyond k s = expand next k s.queue (record s { queue = [] })

  -- the nodes that the rounds meet
  abbrev met : ℕ → ℕ → Search → Map Str ℕ
  met zero k s = tagged k s.queue ++ []
  met (suc left) k s = tagged k s.queue ++ met left (k + 1) (beyond k s)

  module _ (src : Str) where
    -- at distance `k` every nearer node is known, and the queue is what lies at that distance
    pub record Inv (k : ℕ) (s : Search) : Type 0 where
      pub sound :
          (id : Str) (d : ℕ) → Map.get id s.dist ≡ some d → (d ≤ k) × IsShortest next src id d
      pub complete :
          (id : Str) (d : ℕ)
          → Walk next src id d
          → d ≤ k
          → (e : ℕ) × (Map.get id s.dist ≡ some e) × (e ≤ d)
      pub front : (id : Str) → (mem id s.queue ≡ true) ↔ (Map.get id s.dist ≡ some k)
      pub single : distinct s.queue ≡ true

    frontier :
        (k : ℕ) (s : Search) (id : Str)
        → Inv k s
        → (mem id s.queue ≡ true) ↔ IsShortest next src id k
    frontier k s id v = (
      λ m. (v.sound id k ((v.front id).0 m)).1,
      λ (walk, least).
          let (e, found, le) = v.complete id k walk (omega arith) in
          let (far, (back, lowest)) = v.sound id e found in
          let reached = least e back in (v.front id).1 (ground arith),
    )

    -- the end of a walk that is one longer is known or linked
    complete-beyond :
        (k : ℕ) (s : Search) (id : Str) (d : ℕ)
        → Inv k s
        → Walk next src id d
        → d ≤ k + 1
        → (e : ℕ) × (Map.get id (beyond k s).dist ≡ some e) × (e ≤ d)
    complete-beyond k s id d v Walk.here h =
        let (e, found, le) = v.complete id 0 Walk.here (omega arith) in
        (e, ground (arith, get-expand next k s.queue (record s { queue = [] }) id), le)
    complete-beyond k s id d v (Walk.step {u = u} {k = n} walk near) h =
        let (e, found, le) = v.complete u n walk (omega arith) in
        let grown = get-expand next k s.queue (record s { queue = [] }) id in
        elim (Option-cases (Map.get id s.dist)) [
          | inr (f, old) ↦ elim (dec_lt (n + 1) f) [
            | yes less ↦
                let (g, again, ge) =
                  v.complete id (n + 1) (Walk.step walk near)
                    (omega (arith, (v.sound id f old).0)) in
                (g, ground arith, ge)
            | no more ↦ (f, ground arith, omega arith)
          ]
          | inl fresh ↦ elim (dec_lt n k) [
            | yes short ↦
                let (g, again, ge) = v.complete id (n + 1) (Walk.step walk near) (omega arith) in
                absurd (ground arith)
            | no long ↦
                let (near_e, (back, least)) = v.sound u e found in
                let at = least n walk in
                elim (dec_lt e k) [
                  | yes low ↦
                      let (g, again, ge) =
                        v.complete id (e + 1) (Walk.step back near) (omega arith) in
                      absurd (ground arith)
                  | no high ↦
                      let held = (v.front u).1 (ground arith) in
                      let joined = linked-intro next id u s.queue held near in
                      (k + 1, ground arith, omega arith)
                ]
          ]
        ]

    Inv-beyond : (k : ℕ) (s : Search) → Inv k s → Inv (k + 1) (beyond k s)
    unfolding Map.mem Map.distinct
    Inv-beyond k s v = record {
      sound = λ id d h.
          let grown = get-expand next k s.queue (record s { queue = [] }) id in
          elim (Option-cases (Map.get id s.dist)) [
            | inr (e, old) ↦
                let same : e ≡ d = ground arith in
                let (le, best) = v.sound id e old in (omega arith, rw (← same) best)
            | inl fresh ↦
                let joined : linked next id s.queue ≡ true = ground arith in
                let same : k + 1 ≡ d = ground arith in
                let (u, held, near) = linked-elim next id s.queue joined in
                let walk = (v.sound u k ((v.front u).0 held)).1.0 in
                (
                  omega arith,
                  rw (← same) (
                    Walk.step walk near,
                    λ n other. elim (dec_lt k n) [
                      | yes more ↦ omega arith
                      | no few ↦
                          let (e, found, le) = v.complete id n other (omega arith) in
                          absurd (ground arith)
                    ],
                  ),
                )
          ];
      complete = λ id d walk h. complete-beyond k s id d v walk h;
      front = λ id.
          let grown = get-expand next k s.queue (record s { queue = [] }) id in
          let queued = mem-expand next k s.queue (record s { queue = [] }) id in
          (
            λ m. ground arith,
            λ h. elim (Option-cases (Map.get id s.dist)) [
              | inr (e, old) ↦ absurd (ground (arith, v.sound id e old))
              | inl fresh ↦ ground arith
            ],
          );
      single =
          (IsQueued-expand next k s.queue (record s { queue = [] })
            (ground arith, λ id m. absurd (ground arith))).0;
    }

    -- what the rounds meet is what lies within their distances, each node once
    get-met :
        (left k : ℕ) (s : Search) (id : Str) (d : ℕ)
        → Inv k s
        → (Map.get id (met left k s) ≡ some d)
          ↔ ((k ≤ d) × (d ≤ k + left) × IsShortest next src id d)
    unfolding Map.get
    get-met zero k s id d v =
        let split = get-tagged k s.queue [] id in
        (
          λ h.
              let same : k ≡ d = ground arith in
              let held : mem id s.queue ≡ true = ground arith in
              (omega arith, omega arith, rw (← same) ((frontier k s id v).0 held)),
          λ (ge, le, best).
              let same : d ≡ k = omega arith in
              let held = (frontier k s id v).1 (rw same at best) in ground arith,
        )
    get-met (suc left) k s id d v =
        let more = met left (k + 1) (beyond k s) in
        let split = get-tagged k s.queue more id in
        let (there, back) = get-met left (k + 1) (beyond k s) id d (Inv-beyond k s v) in
        (
          λ h. elim (Bool-cases (mem id s.queue)) [
            | inl held ↦
                let same : k ≡ d = ground arith in
                (omega arith, omega arith, rw (← same) ((frontier k s id v).0 held))
            | inr other ↦
                let (ge, le, best) = there (ground arith) in (omega arith, omega arith, best)
          ],
          λ (ge, le, best). elim (Bool-cases (mem id s.queue)) [
            | inl held ↦
                let (walk, least) = (frontier k s id v).0 held in
                let up = (best.1) k walk in ground arith
            | inr other ↦ elim (dec_lt k d) [
              | yes less ↦ let found = back (omega arith, omega arith, best) in ground arith
              | no here ↦
                  let same : d ≡ k = omega arith in
                  let held = (frontier k s id v).1 (rw same at best) in absurd (ground arith)
            ]
          ],
        )

    distinct-met : (left k : ℕ) (s : Search) → Inv k s → distinct (keys (met left k s)) ≡ true
    unfolding Map.mem Map.distinct
    distinct-met zero k s v =
        rw (keys-tagged k s.queue []) (distinct-append s.queue [] v.single refl (λ id m. refl))
    distinct-met (suc left) k s v =
        let more = met left (k + 1) (beyond k s) in
        rw (keys-tagged k s.queue more) (
          distinct-append s.queue (keys more) v.single
            (distinct-met left (k + 1) (beyond k s) (Inv-beyond k s v))
            (λ id m. elim (Option-cases (Map.get id more)) [
              | inl fresh ↦ ground (arith, mem-keys id more)
              | inr (d, found) ↦
                  let (ge, le, best) =
                    (get-met left (k + 1) (beyond k s) id d (Inv-beyond k s v)).0 found in
                  let (walk, least) = (frontier k s id v).0 m in
                  let up = (best.1) k walk in absurd (omega arith)
            ]))

module _ {F : Type 0} ⦃float : Float F⦄ (lambda : F) (tau : Str → Option F) where
  -- the decayed tensions of nodes with a distance, added up in their order
  unfoldable pub weigh : F → Map Str ℕ → Option F
  weigh total [] = some total
  weigh total ((v, k) ∷ m) = do t ← tau v; weigh (float.add total (decayed lambda tau k t)) m

  weigh-tagged :
      (k : ℕ) (vs : List Str) (m : Map Str ℕ) (total : F)
      → weigh total (tagged k vs ++ m) ≡ (add_level lambda tau k vs total >>= λ t. weigh t m)
  unfolding weigh add_level
  weigh-tagged k [] m total = refl
  weigh-tagged k (v ∷ vs) m total = elim (Option-cases (tau v)) [
    | inl bad ↦ ground arith
    | inr (t, found) ↦
        rw (found, weigh, add_level)
          (weigh-tagged k vs m (float.add total (decayed lambda tau k t)))
  ]

  rounds-weigh :
      (next : Str → List Str) (left k : ℕ) (total : F) (s : Search)
      → rounds lambda tau next left k total s ≡ weigh total (met next left k s)
  unfolding rounds weigh
  rounds-weigh next zero k total s = elim (Option-cases (add_level lambda tau k s.queue total)) [
    | inl bad ↦ ground (arith, weigh-tagged k s.queue [] total)
    | inr (t, found) ↦ ground (arith, weigh-tagged k s.queue [] total)
  ]
  rounds-weigh next (suc left) k total s =
      let more = met next left (k + 1) (beyond next k s) in
      elim (Option-cases (add_level lambda tau k s.queue total)) [
        | inl bad ↦ ground (arith, weigh-tagged k s.queue more total)
        | inr (t, found) ↦ ground (
          arith,
          weigh-tagged k s.queue more total,
          rounds-weigh next left (k + 1) t (beyond next k s),
        )
      ]

  start_complete :
      (next : Str → List Str) (src : Str)
      → {id : Str} {d : ℕ} → Walk next src id d
      → d ≤ 0
      → (e : ℕ) × (Map.get id ((src, 0) ∷ []) ≡ some e) × (e ≤ d)
  unfolding Map.get
  start_complete next src Walk.here h = (0, ground arith, omega arith)
  start_complete next src (Walk.step w m) h = absurd (omega arith)

  Inv-start :
      (next : Str → List Str) (src : Str)
      → Inv next src 0 (record { dist = (src, 0) ∷ []; queue = src ∷ [] })
  unfolding Map.get Map.mem Map.distinct
  Inv-start next src = record {
    sound = λ id d h. elim (Str-discrete src id) [
      | yes this ↦
          let same : 0 ≡ d = ground arith in
          rw (← same, ← this) (omega arith, (Walk.here, λ k walk. omega arith))
      | no other ↦ absurd (ground arith)
    ];
    complete = λ id d walk h. start_complete next src walk h;
    front = λ id. (λ m. ground arith, λ h. ground arith);
    single = refl;
  }

  -- On a node of the graph, `CalculateNode` adds up the decayed tensions of a list of nodes. The
  -- list has each node once, and has a node with a distance just when that is the length of a
  -- shortest walk to it along neighbours and is no larger than the hops.
  pub calculate_node_lem :
      (g : GraphView F) (id : Str) (hops : ℕ)
      → is_some (g.get_node id) ≡ true
      → (around : Map Str ℕ) × (calculate_node lambda tau g id (pos hops)
          ≡ weigh float.nought around)
        × (distinct (keys around) ≡ true)
        × ((v : Str) (d : ℕ)
            → (Map.get v around ≡ some d) ↔ ((d ≤ hops) × IsShortest g.neighbors id v d))
  unfolding calculate_node
  calculate_node_lem g id hops there =
      let start : Search = record { dist = (id, 0) ∷ []; queue = id ∷ [] } in
      let v = Inv-start g.neighbors id in
      (
        met g.neighbors hops 0 start,
        ground (arith, rounds-weigh g.neighbors hops 0 float.nought start),
        distinct-met g.neighbors id hops 0 start v,
        λ w d.
            let (to, from) = get-met g.neighbors id hops 0 start w d v in
            (
              λ h. let (ge, le, best) = to h in (omega arith, best),
              λ (le, best). from (omega arith, omega arith, best),
            ),
      )

  weigh-total :
      (total : F) (m : Map Str ℕ)
      → ((v : Str) → is_some (tau v) ≡ true)
      → is_some (weigh total m) ≡ true
  unfolding weigh
  weigh-total total [] tensions = refl
  weigh-total total ((v, k) ∷ m) tensions = elim (Option-cases (tau v)) [
    | inl bad ↦ absurd (ground (arith, tensions v))
    | inr (t, found) ↦
        rw (found, weigh) (weigh-total (float.add total (decayed lambda tau k t)) m tensions)
  ]

  pub calculate_node-total :
      (g : GraphView F) (id : Str) (hops : ℤ)
      → ((v : Str) → is_some (tau v) ≡ true)
      → is_some (calculate_node lambda tau g id hops) ≡ true
  unfolding calculate_node
  calculate_node-total g id (negsuc n) tensions = ground arith
  calculate_node-total g id (pos n) tensions =
      let start : Search = record { dist = (id, 0) ∷ []; queue = id ∷ [] } in
      ground (
        arith,
        rounds-weigh g.neighbors n 0 float.nought start,
        weigh-total float.nought (met g.neighbors n 0 start) tensions,
      )
