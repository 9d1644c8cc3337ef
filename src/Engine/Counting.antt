-- ===== src/Engine/Counting.antt =====
-- `processEvent`, `doCompact` and `Reset` of engine.go: they do not panic, keep both layers valid,
-- and count each event once on the edge that the view of the layers shows, however compactions fall.
use itt_engine.Prelude.{
  ◌%◌, ◌^◌, ◌≡◌, refl, some, ite, Str, Str-discrete, str_key, nat_key, arith, ◌∷◌, [], List, ℕ, ◌+◌,
  Float, Time, ◌∙◌, add64, Bool-cases, inl, inr,
}
use itt_engine.Map
use itt_engine.Map.{Map}
use itt_engine.Graph
use itt_engine.Graph.{Graph, edge_key, new}
use itt_engine.Immutable.WithEvent.{
  with_event_graph, with_event_graph-IsValid, get-edges-with_event_graph,
}
use itt_engine.View
use itt_engine.View.{pick_edge}
use itt_engine.Compact.Loops.{new-IsValid}
use itt_engine.Event.{Event}
use itt_engine.Engine.{
  Engine, Config, publish, should_compact, weight_of, process_event, process_all,
}
use itt_engine.Engine.Layers.{
  tally, edges-set_types, set_types-IsValid, with_event_graph-IsTimely, tally_counts,
}
use itt_engine.Engine.{reset}
use itt_engine.Engine.Steps.{
  IsSound, observed, observed-overlay, do_compact_lem, advanced, edges-advanced, stepped,
  overlay-stepped, base-stepped, process_event-stepped, new-IsTimely, overlay-publish,
}

module _ {F : Type 0} ⦃float : Float F⦄ where
  module _ (config : Config F) (ev : Event F) (overlay : Graph F) (e : Engine F)
      (s : IsSound overlay e) where
    stepped-IsSound : IsSound (advanced config ev overlay) (stepped config ev overlay e)
    unfolding advanced
    stepped-IsSound =
        let next =
          with_event_graph ev.source ev.target (weight_of config ev) ev.type ev.timestamp overlay in
        let timely =
          with_event_graph-IsTimely ev.source ev.target (weight_of config ev) ev.type ev.timestamp
            overlay s.overlay_valid s.overlay_timely in
        record {
          published = overlay-stepped config ev overlay e;
          base_valid = rw base-stepped s.base_valid;
          base_timely = rw base-stepped s.base_timely;
          overlay_valid = set_types-IsValid config ev next (
              with_event_graph-IsValid ev.source ev.target (weight_of config ev) ev.type
                ev.timestamp overlay s.overlay_valid);
          overlay_timely = record {
            timed = λ k. rw (edges-set_types config ev next) (timely.timed k);
          };
        }

    counted_once :
        (a b : Str)
        → tally (View.get_edge a b (record { base = e.base; overlay = advanced config ev overlay }))
          ≡ ite
              (Str-discrete (edge_key ev.source ev.target) (edge_key a b))
              (add64 (tally (View.get_edge a b (record { base = e.base; overlay = overlay }))) 1)
              (tally (View.get_edge a b (record { base = e.base; overlay = overlay })))
    unfolding View.get_edge Graph.get_edge
    counted_once a b = ground (
      arith,
      edges-advanced config ev overlay,
      get-edges-with_event_graph ev.source ev.target (weight_of config ev) ev.type ev.timestamp
          overlay s.overlay_valid (edge_key a b),
      tally_counts ev.source ev.target (weight_of config ev) ev.type ev.timestamp
          (Map.get (edge_key a b) e.base.edges) (Map.get (edge_key a b) overlay.edges)
          (s.base_timely.timed (edge_key a b)) (s.overlay_timely.timed (edge_key a b)),
    )

    -- an event is counted on the edges that have its key, and on no other
    observed-stepped :
        (a b : Str)
        → observed a b (stepped config ev overlay e)
          ≡ ite
              (Str-discrete (edge_key ev.source ev.target) (edge_key a b))
              (add64 (observed a b e) 1)
              (observed a b e)
    observed-stepped a b =
        rw
          (
            observed-overlay a b (stepped config ev overlay e)
                (overlay-stepped config ev overlay e),
            observed-overlay a b e s.published,
            base-stepped,
          )
          (counted_once a b)

    -- On a started engine, `processEvent` does not panic and leaves a started engine, with or
    -- without a compaction. The edges that the view shows under the key of the event count one
    -- more, modulo 2 ^ 64, and every other edge counts as many as before.
    pub process_event_lem :
        (now : Time)
        → (overlay' : Graph F) × (e' : Engine F) × (process_event config now ev e ≡ some e')
          × IsSound overlay' e'
          × ((a b : Str)
              → observed a b e'
                ≡ ite
                    (Str-discrete (edge_key ev.source ev.target) (edge_key a b))
                    (add64 (observed a b e) 1)
                    (observed a b e))
    process_event_lem now =
        let e1 = stepped config ev overlay e in
        let runs = process_event-stepped config now ev e s.overlay_valid s.published in
        elim (Bool-cases (should_compact config now e1)) [
          | inl yes_ ↦
              let (e2, compacts, sound, same) =
                do_compact_lem now (advanced config ev overlay) e1 stepped-IsSound in
              (new, e2, ground (arith, runs), sound, λ a b. same a b ∙ observed-stepped a b)
          | inr no_ ↦ (
            advanced config ev overlay,
            e1,
            ground (arith, runs),
            stepped-IsSound,
            observed-stepped,
          )
        ]

  -- `Reset` leaves a started engine with an empty overlay, whose view counts no event on any edge.
  pub reset_lem :
      (now : Time) (e : Engine F)
      → IsSound new (reset now e) × ((a b : Str) → observed a b (reset now e) ≡ 0)
  unfolding reset publish View.get_edge Graph.get_edge Map.get View.pick_edge
  reset_lem now e =
      let published =
        overlay-publish new now []
          (record e { base = new; overlay_count = 0; last_compact = now }) in
      (
        record {
          published = published;
          base_valid = new-IsValid;
          base_timely = new-IsTimely;
          overlay_valid = new-IsValid;
          overlay_timely = new-IsTimely;
        },
        λ a b. observed-overlay a b (reset now e) published ∙ refl,
      )

-- how many of the events have the key of the edge from a to b
abbrev pub matching : {F : Type 0} → Str → Str → List (Time × Event F) → ℕ
matching a b [] = 0
matching a b ((now, ev) ∷ evs) =
    ite (Str-discrete (edge_key ev.source ev.target) (edge_key a b)) 1 0 + matching a b evs

module _ {F : Type 0} ⦃float : Float F⦄ (config : Config F) where
  -- A started engine processes any events without a panic, whatever the compactions between them:
  -- the count of the edge that the view shows from a to b grows by the number of the events with
  -- that edge's key, modulo 2 ^ 64.
  pub process_all_lem :
      (evs : List (Time × Event F)) (overlay : Graph F) (e : Engine F)
      → IsSound overlay e
      → (overlay' : Graph F) × (e' : Engine F) × (process_all config evs e ≡ some e')
        × IsSound overlay' e'
        × ((a b : Str) → observed a b e' % 2 ^ 64 ≡ (observed a b e + matching a b evs) % 2 ^ 64)
  unfolding process_all
  process_all_lem [] overlay e s = (overlay, e, refl, s, λ a b. omega arith)
  process_all_lem ((now, ev) ∷ evs) overlay e s =
      let (overlay1, e1, runs, s1, one) = process_event_lem config ev overlay e s now in
      let (overlay2, e2, rest, s2, all) = process_all_lem evs overlay1 e1 s1 in
      (overlay2, e2, rw (runs, rest) refl, s2, λ a b. ground (arith, one a b, all a b))
