-- ===== src/Gc/Sweep.antt =====
-- The first loop of `Collect` of mvcc/gc.go: which versions it picks, and what it does to their
-- reference counts.
use itt_engine.Prelude.{
  ℕ, suc, zero, Bool, true, false, Option, none, some, ite, if◌then◌else◌, ◌==◌, ◌&&◌, ◌||◌, not,
  [], ◌∷◌, ◌++◌, sub_ℕ, nat_key, ℕ_discrete, Time, is_positive, ◌≡◌, refl, ◌≤◌, arith, Bool-cases,
  inl, inr, ◌∙◌,
}
use itt_engine.Map
use itt_engine.Map.{Map, AllEntries, OnSome, is_some, keys, mem, distinct}
use itt_engine.Map.Laws.{map_option, get-modify, mem-keys}
use itt_engine.Map.Members.{mem-append, distinct-append_one}
use itt_engine.Mvcc.{Store, ref_count, release}
use itt_engine.Mvcc.Counting.{ref_count-release}
use itt_engine.Gc.{
  GcConfig, TrackedVersion, Sweeping, exceeds, is_current, release_all, sweep_held, sweep_one,
  sweep,
}

-- what a forced release leaves of a count
abbrev pub drained : ℕ → ℕ
drained c = if is_positive c then 0 else c

-- The loop of a forced release ends within as many rounds as the version's count: with fuel for
-- those, that count is 0 after it if it was positive, else as it was, and no other count changes.
pub ref_count-release_all :
    {F : Type 0} (fuel p q : ℕ) (store : Store F)
    → ref_count p store ≤ fuel
    → ref_count q (release_all fuel p store)
      ≡ ite (ℕ_discrete p q) (drained (ref_count q store)) (ref_count q store)
unfolding release_all
ref_count-release_all zero p q store h = ground arith
ref_count-release_all (suc fuel) p q store h = elim (Bool-cases (is_positive (ref_count p store))) [
  | inl more ↦
      rw (more, release_all)
        (ground (
          arith,
          ref_count-release_all fuel p q (release p store),
          ref_count-release p p store,
          ref_count-release p q store,
        ))
  | inr done ↦ rw (done, release_all) (ground arith)
]

-- a version is tracked under its number
abbrev pub IsTracked : ℕ → TrackedVersion → Type 0
IsTracked id tv = tv.version ≡ id

-- a tracked version but for its flag `warned`
abbrev pub untouched : TrackedVersion → TrackedVersion
untouched tv = record tv { warned = false }

module _ (config : GcConfig) (current : Option ℕ) (now : Time) where
  -- held, not current, and past the limit: released by force
  abbrev pub is_forced : ℕ → ℕ → TrackedVersion → Bool
  is_forced count id tv =
      not (is_current current id)
      && (not (count == 0) && exceeds (sub_ℕ now tv.created_at) config.force_timeout)

  -- not current, and orphaned or released by force
  abbrev pub is_removable : ℕ → ℕ → TrackedVersion → Bool
  is_removable count id tv =
      not (is_current current id)
      && (count == 0 || exceeds (sub_ℕ now tv.created_at) config.force_timeout)

  -- what the loop decides of one number
  abbrev pub picked : Option TrackedVersion → ℕ → ℕ → Bool
  picked none count q = false
  picked (some tv) count q = is_removable count q tv

  abbrev pub left : Option TrackedVersion → ℕ → ℕ → ℕ
  left none count q = count
  left (some tv) count q = if is_forced count q tv then drained count else count

module _ {F : Type 0} (config : GcConfig) (current : Option ℕ) (now : Time) where
  module _ (id : ℕ) (tv : TrackedVersion) (s : Sweeping F) (named : tv.version ≡ id) where
    to_remove-sweep_one : (sweep_one config current now id tv s).to_remove ≡ (
        if is_removable config current now (ref_count id s.store) id tv
        then s.to_remove ++ (id ∷ [])
        else s.to_remove)
    unfolding sweep_one sweep_held
    to_remove-sweep_one = ground arith

    ref_count-sweep_one :
        (q : ℕ)
        → ref_count q (sweep_one config current now id tv s).store ≡ (
            if is_forced config current now (ref_count id s.store) id tv
            then ite (ℕ_discrete id q) (drained (ref_count q s.store)) (ref_count q s.store)
            else ref_count q s.store)
    unfolding sweep_one sweep_held
    ref_count-sweep_one q =
        ground (arith, ref_count-release_all (ref_count id s.store) id q s.store)

    versions-sweep_one :
        (q : ℕ)
        → map_option untouched (Map.get q (sweep_one config current now id tv s).versions)
          ≡ map_option untouched (Map.get q s.versions)
    unfolding sweep_one sweep_held
    versions-sweep_one q =
        ground (arith, get-modify id q (λ t. record t { warned = true }) s.versions)

  pub versions-sweep :
      (m : Map ℕ TrackedVersion) (s : Sweeping F) (q : ℕ)
      → AllEntries IsTracked m
      → map_option untouched (Map.get q (sweep config current now m s).versions)
        ≡ map_option untouched (Map.get q s.versions)
  unfolding sweep
  versions-sweep [] s q a = refl
  versions-sweep ((id, tv) ∷ m) s q (e, a) =
      versions-sweep m (sweep_one config current now id tv s) q a ∙ versions-sweep_one id tv s e q

  pub to_remove-sweep :
      (m : Map ℕ TrackedVersion) (s : Sweeping F) (q : ℕ)
      → AllEntries IsTracked m
      → distinct (keys m) ≡ true
      → mem q (sweep config current now m s).to_remove
        ≡ (picked config current now (Map.get q m) (ref_count q s.store) q || mem q s.to_remove)
  unfolding sweep Map.get Map.mem Map.distinct
  to_remove-sweep [] s q a d = refl
  to_remove-sweep ((id, tv) ∷ m) s q (e, a) d = ground (
    arith,
    to_remove-sweep m (sweep_one config current now id tv s) q a,
    to_remove-sweep_one id tv s e,
    ref_count-sweep_one id tv s e q,
    mem-append q s.to_remove (id ∷ []),
    mem-keys id m,
  )

  pub ref_count-sweep :
      (m : Map ℕ TrackedVersion) (s : Sweeping F) (q : ℕ)
      → AllEntries IsTracked m
      → distinct (keys m) ≡ true
      → ref_count q (sweep config current now m s).store
        ≡ left config current now (Map.get q m) (ref_count q s.store) q
  unfolding sweep Map.get Map.mem Map.distinct
  ref_count-sweep [] s q a d = refl
  ref_count-sweep ((id, tv) ∷ m) s q (e, a) d = ground (
    arith,
    ref_count-sweep m (sweep_one config current now id tv s) q a,
    ref_count-sweep_one id tv s e q,
    mem-keys id m,
  )

  pub distinct-sweep :
      (m : Map ℕ TrackedVersion) (s : Sweeping F)
      → AllEntries IsTracked m
      → distinct (keys m) ≡ true
      → distinct s.to_remove ≡ true
      → ((q : ℕ) → mem q (keys m) ≡ true → mem q s.to_remove ≡ false)
      → distinct (sweep config current now m s).to_remove ≡ true
  unfolding sweep Map.mem Map.distinct
  distinct-sweep [] s a d ds apart = ds
  distinct-sweep ((id, tv) ∷ m) s (e, a) d ds apart =
      let step = to_remove-sweep_one id tv s e in
      let fresh = apart id (ground arith) in
      distinct-sweep m (sweep_one config current now id tv s) a (ground arith)
        (ground (arith, distinct-append_one id s.to_remove))
        (λ q h. ground (arith, apart q, mem-append q s.to_remove (id ∷ [])))
