-- ===== src/Engine/Steps.antt =====
-- The steps of engine.go on a started engine, in closed form: `doCompact`, and `processEvent` up
-- to `shouldCompact`.
use itt_engine.Prelude.{
  ◌≡◌, refl, Bool, true, Option, none, some, Str, str_key, nat_key, arith, [], ℕ, ◌>>=◌, Float,
  if◌then◌else◌, Time, ◌∙◌, add64,
}
use itt_engine.Map
use itt_engine.Map.{Map}
use itt_engine.Map.Laws.{get-put}
use itt_engine.Graph
use itt_engine.Graph.{Graph, edge_key, new}
use itt_engine.Graph.Valid.{IsValid}
use itt_engine.Immutable.WithEvent.{with_event_graph, with_event-some}
use itt_engine.View
use itt_engine.View.{pick_edge}
use itt_engine.Compact.{compact, Stats}
use itt_engine.Compact.Loops.{IsTimely, new-IsValid}
use itt_engine.Compact.Refine.{compact_lem}
use itt_engine.Mvcc.{load}
use itt_engine.Event.{Event}
use itt_engine.Engine.{
  Engine, Config, publish, version, should_compact, set_types, weight_of, compact_overlay,
  do_compact, apply_event, process_event,
}
use itt_engine.Engine.Layers.{tally, edges-set_types, tally-kept_edge, pick_edge-none}

module _ {F : Type 0} where
  -- `e.vc.Load().Graph`
  unfoldable pub overlay_of : Engine F → Option (Graph F)
  overlay_of e = do p ← load e.controller; v ← Map.get p e.store; some v.graph

  pub overlay-publish :
      (g : Graph F) (ts : Time) (dirty : Map Str Bool) (e : Engine F)
      → overlay_of (publish g ts dirty e) ≡ some g
  unfolding overlay_of publish
  overlay-publish g ts dirty e =
      let next = add64 e.version_id 1 in
      ground (arith, get-put next next (version next g ts dirty) e.store)

-- A started engine: a version is current, whose graph is the overlay, and the two layers are valid,
-- with edges first seen no later than last and counted in 64 bits.
pub record IsSound {F : Type 0} (overlay : Graph F) (e : Engine F) : Type 0 where
  pub published : overlay_of e ≡ some overlay
  pub base_valid : IsValid e.base
  pub base_timely : IsTimely e.base
  pub overlay_valid : IsValid overlay
  pub overlay_timely : IsTimely overlay

module _ {F : Type 0} ⦃float : Float F⦄ where
  -- the count of the edge that the view of the two layers shows
  unfoldable pub observed : Str → Str → Engine F → ℕ
  observed a b e = elim (overlay_of e) [
    | none ↦ 0
    | some g ↦ tally (View.get_edge a b (record { base = e.base; overlay = g }))
  ]

  pub new-IsTimely : IsTimely (new {F = F})
  unfolding Map.get
  new-IsTimely = record { timed = λ k. tt }

  do_compact-overlay :
      (now : Time) {g : Graph F} (e : Engine F)
      → overlay_of e ≡ some g
      → do_compact now e ≡ compact_overlay now g e
  unfolding do_compact overlay_of
  do_compact-overlay now e h = ground arith

  pub observed-overlay :
      (a b : Str) {g : Graph F} (e : Engine F)
      → overlay_of e ≡ some g
      → observed a b e ≡ tally (View.get_edge a b (record { base = e.base; overlay = g }))
  unfolding observed
  observed-overlay a b e h = rw (h, observed) refl

  compacted : Time → Graph F → Engine F → Engine F
  compacted now merged e = record (publish new now [] (record e { base = merged })) {
    overlay_count = 0;
    last_compact = now;
  }

  overlay-compacted :
      (now : Time) (merged : Graph F) (e : Engine F)
      → overlay_of (compacted now merged e) ≡ some new
  unfolding compacted overlay_of
  overlay-compacted now merged e = overlay-publish new now [] (record e { base = merged })

  base-compacted :
      (now : Time) (merged : Graph F) (e : Engine F) → (compacted now merged e).base ≡ merged
  unfolding compacted publish
  base-compacted now merged e = refl

  compact_overlay-some :
      (now : Time) (g merged : Graph F) (e : Engine F) {stats : Stats}
      → compact now now e.base g ≡ some (merged, stats)
      → compact_overlay now g e ≡ some (compacted now merged e)
  unfolding compact_overlay compacted
  compact_overlay-some now g merged e h = rw h refl

  -- an empty overlay shows the base's edge
  tally-new :
      (a b : Str) (g : Graph F)
      → tally (View.get_edge a b (record { base = g; overlay = new }))
        ≡ tally (Graph.get_edge a b g)
  unfolding View.get_edge Graph.get_edge Map.get
  tally-new a b g = pick_edge-none (Map.get (edge_key a b) g.edges)

  module _ (now : Time) (overlay : Graph F) (e : Engine F) (s : IsSound overlay e) where
    -- On a started engine `doCompact` does not panic, leaves a started engine with an empty
    -- overlay, and changes no count that the view shows.
    pub do_compact_lem :
        (e' : Engine F) × (do_compact now e ≡ some e')
        × IsSound new e'
        × ((a b : Str) → observed a b e' ≡ observed a b e)
    do_compact_lem =
        let (merged, stats, runs, valid, timely, edges, nodes) =
          compact_lem e.base overlay s.base_valid s.overlay_valid s.base_timely s.overlay_timely now
            now in
        (
          compacted now merged e,
          do_compact-overlay now e s.published ∙ compact_overlay-some now overlay merged e runs,
          record {
            published = overlay-compacted now merged e;
            base_valid = rw base-compacted valid;
            base_timely = rw base-compacted timely;
            overlay_valid = new-IsValid;
            overlay_timely = new-IsTimely;
          },
          λ a b. rw (
            observed-overlay a b (compacted now merged e) (overlay-compacted now merged e),
            observed-overlay a b e s.published,
            base-compacted,
            tally-new,
            edges a b,
            tally-kept_edge,
          ),
        )

  -- the overlay after an event
  unfoldable pub advanced : Config F → Event F → Graph F → Graph F
  advanced config ev g =
      set_types config ev
        (with_event_graph ev.source ev.target (weight_of config ev) ev.type ev.timestamp g)

  pub edges-advanced :
      (config : Config F) (ev : Event F) (g : Graph F)
      → (advanced config ev g).edges
        ≡ (with_event_graph ev.source ev.target (weight_of config ev) ev.type ev.timestamp g).edges
  unfolding advanced
  edges-advanced config ev g =
      edges-set_types config ev
        (with_event_graph ev.source ev.target (weight_of config ev) ev.type ev.timestamp g)

  -- the engine before `shouldCompact`
  unfoldable pub stepped : Config F → Event F → Graph F → Engine F → Engine F
  stepped config ev g e =
      let dirty = Map.put ev.target true (Map.put ev.source true []) in
      let e' = publish (advanced config ev g) ev.timestamp dirty e in
      record e' { events_total = add64 e.events_total 1; overlay_count = add64 e.overlay_count 1 }

  pub overlay-stepped :
      (config : Config F) (ev : Event F) (g : Graph F) (e : Engine F)
      → overlay_of (stepped config ev g e) ≡ some (advanced config ev g)
  unfolding stepped overlay_of
  overlay-stepped config ev g e =
      overlay-publish (advanced config ev g) ev.timestamp
        (Map.put ev.target true (Map.put ev.source true [])) e

  pub base-stepped :
      (config : Config F) (ev : Event F) (g : Graph F) (e : Engine F)
      → (stepped config ev g e).base ≡ e.base
  unfolding stepped publish
  base-stepped config ev g e = refl

  pub process_event-stepped :
      (config : Config F) (now : Time) (ev : Event F) {g : Graph F} (e : Engine F)
      → IsValid g
      → overlay_of e ≡ some g
      → process_event config now ev e ≡ (
          if should_compact config now (stepped config ev g e)
          then do_compact now (stepped config ev g e)
          else some (stepped config ev g e))
  unfolding process_event apply_event stepped advanced overlay_of
  process_event-stepped config now ev {g} e v h =
      ground
        (arith, with_event-some ev.source ev.target (weight_of config ev) ev.type ev.timestamp g v)
