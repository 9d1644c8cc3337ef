-- ===== src/Engine/Races.antt =====
-- `processEvent` of engine.go takes no lock: the steps between its load of the current version and
-- its store of the next, when a compaction comes in between.
use itt_engine.Prelude.{
  ◌≡◌, refl, Option, none, some, ite, Str, Str-discrete, str_key, arith, ℕ, Float, Time, ◌∙◌, add64,
  ap, sym,
}
use itt_engine.Map
use itt_engine.Map.{Map, OnSome}
use itt_engine.Graph
use itt_engine.Graph.{Graph, EdgeData, edge_key, new, accumulate}
use itt_engine.Graph.Valid.{IsValid}
use itt_engine.Immutable.WithEvent.{with_event-some, get-edges-with_event_graph}
use itt_engine.View
use itt_engine.View.{pick_edge, merge_edges}
use itt_engine.Compact.Loops.{IsTimed, IsTimely}
use itt_engine.Mvcc.{Version}
use itt_engine.Event.{Event}
use itt_engine.Builder.{CompactionStrategy}
use itt_engine.Engine.{Engine, Config, should_compact, weight_of, do_compact, apply_event}
use itt_engine.Engine.Layers.{tally, with_event_graph-IsTimely, pick_edge-none}
use itt_engine.Engine.Steps.{
  IsSound, observed, observed-overlay, do_compact_lem, advanced, edges-advanced, stepped,
  overlay-stepped, base-stepped,
}

add64_assoc : (x y z : ℕ) → add64 x (add64 y z) ≡ add64 (add64 x y) z
add64_assoc x y z = omega arith

-- the count that a view shows is that of both layers
tally-pick_edge :
    {F : Type 0} ⦃float : Float F⦄ (b o : Option (EdgeData F))
    → OnSome IsTimed b
    → OnSome IsTimed o
    → tally (pick_edge b o) ≡ add64 (tally b) (tally o)
unfolding pick_edge merge_edges
tally-pick_edge none none hb ho = refl
tally-pick_edge none (some e) hb ho = omega (arith, ho.1)
tally-pick_edge (some b) none hb ho = omega (arith, hb.1)
tally-pick_edge (some b) (some e) hb ho = ground arith

module _ {F : Type 0} ⦃float : Float F⦄ (config : Config F) (ev : Event F) (overlay : Graph F) where
  -- the overlay's own count of an edge after the event
  tally-advanced :
      (a b : Str)
      → IsValid overlay
      → OnSome IsTimed (Map.get (edge_key a b) overlay.edges)
      → tally (Graph.get_edge a b (advanced config ev overlay))
        ≡ add64
            (tally (Graph.get_edge a b overlay))
            (ite (Str-discrete (edge_key ev.source ev.target) (edge_key a b)) 1 0)
  unfolding Graph.get_edge accumulate
  tally-advanced a b valid timed = ground (
    arith,
    edges-advanced config ev overlay,
    get-edges-with_event_graph ev.source ev.target (weight_of config ev) ev.type ev.timestamp
        overlay valid (edge_key a b),
  )

  -- an event applied over a base that another overlay has been merged into
  observed-unrelated :
      (a b : Str) (e : Engine F)
      → IsSound new e
      → IsValid overlay
      → IsTimely overlay
      → observed a b (stepped config ev overlay e)
        ≡ add64 (observed a b e) (tally (Graph.get_edge a b (advanced config ev overlay)))
  unfolding View.get_edge Graph.get_edge Map.get
  observed-unrelated a b e s valid timely =
      let k = edge_key a b in
      let next =
        with_event_graph-IsTimely ev.source ev.target (weight_of config ev) ev.type ev.timestamp
          overlay valid timely in
      let timed : OnSome IsTimed (Map.get k (advanced config ev overlay).edges) =
        rw (edges-advanced config ev overlay) (next.timed k) in
      observed-overlay a b (stepped config ev overlay e) (overlay-stepped config ev overlay e)
      ∙ rw (base-stepped, observed-overlay a b e s.published)
          (tally-pick_edge (Map.get k e.base.edges) (Map.get k (advanced config ev overlay).edges)
              (s.base_timely.timed k) timed
            ∙ ap (λ n. add64 n (tally (Map.get k (advanced config ev overlay).edges)))
                (sym (pick_edge-none (Map.get k e.base.edges))))

  apply_event-stale :
      (later : Time) (v : Version F) (e : Engine F)
      → config.compaction_strategy ≡ CompactionStrategy.compact_manual
      → IsValid overlay
      → v.graph ≡ overlay
      → apply_event config later ev v e ≡ some (stepped config ev overlay e)
  unfolding apply_event stepped advanced should_compact
  apply_event-stale later v e manual valid loaded = ground (
    arith,
    with_event-some ev.source ev.target (weight_of config ev) ev.type ev.timestamp overlay valid,
  )

  -- Where compactions are manual: when a compaction falls between the load of the current version
  -- in `processEvent` and the rest of it, neither panics, but every event that the overlay held is
  -- counted a second time on the edge that the view shows, and the event itself once.
  pub stale_version_counted_twice :
      (now later : Time) (v : Version F) (e : Engine F)
      → config.compaction_strategy ≡ CompactionStrategy.compact_manual
      → IsSound overlay e
      → v.graph ≡ overlay
      → (e1 : Engine F) × (e2 : Engine F) × (do_compact now e ≡ some e1)
        × (apply_event config later ev v e1 ≡ some e2)
        × ((a b : Str)
            → observed a b e2
              ≡ add64
                  (add64 (observed a b e) (tally (Graph.get_edge a b overlay)))
                  (ite (Str-discrete (edge_key ev.source ev.target) (edge_key a b)) 1 0))
  stale_version_counted_twice now later v e manual s loaded =
      let (e1, compacts, sound, same) = do_compact_lem now overlay e s in
      (
        e1,
        stepped config ev overlay e1,
        compacts,
        apply_event-stale later v e1 manual s.overlay_valid loaded,
        λ a b.
            let unrelated = observed-unrelated a b e1 sound s.overlay_valid s.overlay_timely in
            let counted =
              tally-advanced a b s.overlay_valid (s.overlay_timely.timed (edge_key a b)) in
            unrelated
            ∙ rw (same a b, counted)
                (add64_assoc (observed a b e) (tally (Graph.get_edge a b overlay))
                  (ite (Str-discrete (edge_key ev.source ev.target) (edge_key a b)) 1 0)),
      )
