-- ===== src/Engine/Isolation.antt =====
-- The versions that snapshots hold are immutable: no step of engine.go changes one that is stored.
use itt_engine.Prelude.{
  ◌≡◌, Bool, true, some, Str, str_key, nat_key, arith, ◌∷◌, [], List, ℕ, ◌+◌, ◌*◌, ◌<◌, ◌≤◌, ◌^◌,
  Float, Time, add64, Bool-cases, Option-cases, inl, inr, length,
}
use itt_engine.Map
use itt_engine.Map.{Map}
use itt_engine.Map.Laws.{get-put}
use itt_engine.Graph.{Graph, new}
use itt_engine.Immutable.{with_event}
use itt_engine.Compact.{compact}
use itt_engine.Mvcc.{Version, load}
use itt_engine.Event.{Event}
use itt_engine.Engine.{
  Engine, Config, publish, version, should_compact, set_types, weight_of, compact_overlay,
  do_compact, apply_event, process_event, process_all,
}

-- e' came from e by steps that publish at most n versions
pub record Follows {F : Type 0} (n : ℕ) (e e' : Engine F) : Type 0 where
  pub later : e.version_id ≤ e'.version_id
  pub bounded : e'.version_id ≤ e.version_id + n
  pub kept : (p : ℕ) → p ≤ e.version_id → Map.get p e'.store ≡ Map.get p e.store

module _ {F : Type 0} where
  publish-Follows :
      (g : Graph F) (ts : Time) (dirty : Map Str Bool) (e : Engine F)
      → e.version_id + 1 < 2 ^ 64
      → Follows 1 e (publish g ts dirty e)
  unfolding publish
  publish-Follows g ts dirty e h = record {
    later = omega arith;
    bounded = omega arith;
    kept = λ p below.
        let next = add64 e.version_id 1 in
        ground (arith, get-put next p (version next g ts dirty) e.store);
  }

  Follows-trans :
      (m n : ℕ) (e1 e2 e3 : Engine F) → Follows m e1 e2 → Follows n e2 e3 → Follows (m + n) e1 e3
  Follows-trans m n e1 e2 e3 f g = record {
    later = ground (arith, f.later, g.later);
    bounded = ground (arith, f.bounded, g.bounded);
    kept = λ p below. ground (arith, f.later, f.kept p, g.kept p);
  }

module _ {F : Type 0} ⦃float : Float F⦄ where
  compact_overlay-Follows :
      (now : Time) (g : Graph F) (e : Engine F) {e' : Engine F}
      → e.version_id + 1 < 2 ^ 64
      → compact_overlay now g e ≡ some e'
      → Follows 1 e e'
  unfolding compact_overlay
  compact_overlay-Follows now g e {e'} h runs = elim (Option-cases (compact now now e.base g)) [
    | inl panics ↦ absurd (ground (arith, runs))
    | inr (merged, compacts) ↦
        let below = publish-Follows new now [] (record e { base = merged.0 }) h in
        record {
          later = ground (arith, runs, below.later);
          bounded = ground (arith, runs, below.bounded);
          kept = λ p le. ground (arith, runs, below.kept p);
        }
  ]

  do_compact-Follows :
      (now : Time) (e : Engine F) {e' : Engine F}
      → e.version_id + 1 < 2 ^ 64
      → do_compact now e ≡ some e'
      → Follows 1 e e'
  unfolding do_compact
  do_compact-Follows now e {e'} h runs = elim (Option-cases (load e.controller)) [
    | inl nothing ↦ record {
      later = ground (arith, runs);
      bounded = ground (arith, runs);
      kept = λ p le. ground (arith, runs);
    }
    | inr (p, current) ↦ elim (Option-cases (Map.get p e.store)) [
      | inl gone ↦ absurd (ground (arith, runs))
      | inr (v, found) ↦ compact_overlay-Follows now v.graph e h (ground (arith, runs))
    ]
  ]

  apply_event-Follows :
      (config : Config F) (now : Time) (ev : Event F) (v : Version F) (e : Engine F) {e' : Engine F}
      → e.version_id + 2 < 2 ^ 64
      → apply_event config now ev v e ≡ some e'
      → Follows 2 e e'
  unfolding apply_event
  apply_event-Follows config now ev v e {e'} h runs =
      elim (Option-cases
        (with_event ev.source ev.target (weight_of config ev) ev.type ev.timestamp v.graph)) [
          | inl panics ↦ absurd (ground (arith, runs))
          | inr (g, advances) ↦
              let dirty = Map.put ev.target true (Map.put ev.source true []) in
              let e1 = publish (set_types config ev g) ev.timestamp dirty e in
              let e2 : Engine F = record e1 {
                events_total = add64 e.events_total 1;
                overlay_count = add64 e.overlay_count 1;
              } in
              let first =
                publish-Follows (set_types config ev g) ev.timestamp dirty e (omega arith) in
              let followed : Follows 1 e e2 = record {
                later = first.later;
                bounded = first.bounded;
                kept = first.kept;
              } in
              elim (Bool-cases (should_compact config now e2)) [
                | inl due ↦ Follows-trans 1 1 e e2 e' followed (
                    do_compact-Follows now e2 (ground (arith, first.bounded))
                      (ground (arith, runs)))
                | inr idle ↦ record {
                  later = ground (arith, runs, followed.later);
                  bounded = ground (arith, runs, followed.bounded);
                  kept = λ p le. ground (arith, runs, followed.kept p);
                }
              ]
        ]

  pub process_event-Follows :
      (config : Config F) (now : Time) (ev : Event F) (e : Engine F) {e' : Engine F}
      → e.version_id + 2 < 2 ^ 64
      → process_event config now ev e ≡ some e'
      → Follows 2 e e'
  unfolding process_event
  process_event-Follows config now ev e {e'} h runs = elim (Option-cases (load e.controller)) [
    | inl nothing ↦ record {
      later = ground (arith, runs);
      bounded = ground (arith, runs);
      kept = λ p le. ground (arith, runs);
    }
    | inr (p, current) ↦ elim (Option-cases (Map.get p e.store)) [
      | inl gone ↦ absurd (ground (arith, runs))
      | inr (v, found) ↦ apply_event-Follows config now ev v e h (ground (arith, runs))
    ]
  ]

  -- the same of any number of events
  pub process_all-Follows :
      (config : Config F) (evs : List (Time × Event F)) (e : Engine F) {e' : Engine F}
      → e.version_id + 2 * length evs < 2 ^ 64
      → process_all config evs e ≡ some e'
      → Follows (2 * length evs) e e'
  unfolding process_all
  process_all-Follows config [] e {e'} h runs = record {
    later = ground (arith, runs);
    bounded = ground (arith, runs);
    kept = λ p le. ground (arith, runs);
  }
  process_all-Follows config ((now, ev) ∷ evs) e {e'} h runs =
      elim (Option-cases (process_event config now ev e)) [
        | inl panics ↦ absurd (ground (arith, runs))
        | inr (e1, one) ↦
            let first = process_event-Follows config now ev e (omega arith) one in
            let rest =
              process_all-Follows config evs e1 {e' = e'} (ground (arith, first.bounded))
                (ground (arith, runs)) in
            record {
              later = ground (arith, first.later, rest.later);
              bounded = ground (arith, first.bounded, rest.bounded);
              kept = λ p le. ground (arith, first.later, first.kept p, rest.kept p);
            }
      ]

  -- While the version IDs do not wrap, processing events, with the compactions between them, gives
  -- out at most two IDs for each event, and changes none of the versions that the store held under
  -- the IDs given out before.
  pub store-process_all :
      (config : Config F) (evs : List (Time × Event F)) (e : Engine F) {e' : Engine F} (p : ℕ)
      → e.version_id + 2 * length evs < 2 ^ 64
      → p ≤ e.version_id
      → process_all config evs e ≡ some e'
      → (Map.get p e'.store ≡ Map.get p e.store)
        × (e.version_id ≤ e'.version_id)
        × (e'.version_id ≤ e.version_id + 2 * length evs)
  store-process_all config evs e {e'} p few given runs =
      let all = process_all-Follows config evs e {e' = e'} few runs in
      (all.kept p given, all.later, all.bounded)
