-- ===== src/Engine/Progress.antt =====
-- No state that the engine of engine.go reaches makes a call of it panic.
use itt_engine.Prelude.{◌≡◌, Bool, true, some, Time, Float, arith, Option-cases, inl, inr}
use itt_engine.Map.{is_some}
use itt_engine.Graph.{Graph, new}
use itt_engine.Mvcc.{acquire, acquire_current}
use itt_engine.Event.{Event}
use itt_engine.Cache.{ResultsCache}
use itt_engine.Engine.{Engine, Config, process_event, do_compact}
use itt_engine.Engine.Steps.{IsSound, overlay_of, do_compact_lem}
use itt_engine.Engine.Counting.{process_event_lem, reset_lem}
use itt_engine.Engine.Tick.{gc_tick}
use itt_engine.Engine.Reach.{
  Step, Reached, graph_at-acquire, graph_at-release, graph_at-collect, new_engine-IsSound,
  IsSound-kept,
}
use itt_engine.Snapshot.{Snapshot, snapshot, close}

module _ {F : Type 0} ⦃float : Float F⦄ where
  snapshot-IsSound :
      (now : Time) (overlay : Graph F) (e e' : Engine F) (s : Snapshot F)
      → IsSound overlay e
      → snapshot now e ≡ some (s, e')
      → IsSound overlay e'
  unfolding snapshot acquire_current
  snapshot-IsSound now overlay e e' s sound taken = elim (Option-cases e.controller.current) [
    | inl none_ ↦ absurd (ground arith)
    | inr (p, at) ↦
        let shape : e'.store ≡ acquire p e.store = ground arith in
        IsSound-kept overlay e e' sound (ground arith) (ground arith)
          (λ q. rw shape (graph_at-acquire p q e.store))
  ]

  close-IsSound :
      (overlay : Graph F) (e : Engine F) (s : Snapshot F)
      → IsSound overlay e
      → IsSound overlay (close s e).1
  unfolding close
  close-IsSound overlay e s sound =
      IsSound-kept overlay e (close s e).1 sound (ground arith) (ground arith) (λ q.
        elim (Option-cases s.version) [
          | inl none_ ↦ ground arith
          | inr (p, at) ↦ ground (arith, graph_at-release p q e.store)
        ])

  tick-IsSound :
      {V : Type 0} (cached : Bool) (now : Time) (overlay : Graph F) (e : Engine F)
      (c : ResultsCache V)
      → IsSound overlay e
      → IsSound overlay (gc_tick cached now e c).engine
  unfolding gc_tick
  tick-IsSound cached now overlay e c sound =
      IsSound-kept overlay e (gc_tick cached now e c).engine sound (ground arith) (ground arith)
        (λ q. graph_at-collect cached now q e c)

  Step-IsSound :
      {V : Type 0} {config : Config F} {e e' : Engine F} (overlay : Graph F)
      → IsSound overlay e
      → Step V config e e'
      → (overlay' : Graph F) × IsSound overlay' e'
  Step-IsSound {config = config} {e = e} {e' = e'} overlay sound (Step.processes now ev runs) =
      let (overlay', e1, same, sound', counts) = process_event_lem config ev overlay e sound now in
      let one : e1 ≡ e' = ground arith in (overlay', rw (← one) sound')
  Step-IsSound {e = e} {e' = e'} overlay sound (Step.compacts now runs) =
      let (e1, same, sound', counts) = do_compact_lem now overlay e sound in
      let one : e1 ≡ e' = ground arith in (new, rw (← one) sound')
  Step-IsSound {e = e} overlay sound (Step.resets now) = (new, (reset_lem now e).0)
  Step-IsSound {e = e} {e' = e'} overlay sound (Step.takes now s taken) =
      (overlay, snapshot-IsSound now overlay e e' s sound taken)
  Step-IsSound {e = e} overlay sound (Step.closes s) = (overlay, close-IsSound overlay e s sound)
  Step-IsSound {e = e} overlay sound (Step.collects cached now c) =
      (overlay, tick-IsSound cached now overlay e c sound)

  Reached-IsSound :
      {V : Type 0} {config : Config F} {e : Engine F}
      → Reached V config e
      → (overlay : Graph F) × IsSound overlay e
  Reached-IsSound {e = e} (Reached.starts now warning force base storage made valid timely) =
      (new, new_engine-IsSound now warning force base storage e made valid timely)
  Reached-IsSound (Reached.steps before step) =
      let (overlay, sound) = Reached-IsSound before in Step-IsSound overlay sound step

  -- Take an engine that `newEngine` makes, where the base it loads is valid, with every edge first
  -- seen no later than last and counted in 64 bits. Through any events that the worker processes,
  -- compactions, resets, snapshots taken and closed, and ticks of the collector, in any order, it
  -- keeps a current version, and its base and that version's graph are such graphs. In every state
  -- that it reaches so, the next event, a compaction and a snapshot are carried out without a panic.
  pub Reached-runs :
      {V : Type 0} (config : Config F) (e : Engine F) (now : Time) (ev : Event F)
      → Reached V config e
      → (overlay : Graph F) × IsSound overlay e
        × (is_some (process_event config now ev e) ≡ true)
        × (is_some (do_compact now e) ≡ true)
        × (is_some (snapshot now e) ≡ true)
  unfolding snapshot acquire_current overlay_of
  Reached-runs config e now ev reached =
      let (overlay, sound) = Reached-IsSound reached in
      let (overlay', e1, runs, sound', counts) = process_event_lem config ev overlay e sound now in
      let (e2, compacts, sound'', same) = do_compact_lem now overlay e sound in
      (
        overlay,
        sound,
        ground arith,
        ground arith,
        elim (Option-cases e.controller.current) [
          | inl none_ ↦ absurd (ground (arith, sound.published))
          | inr (p, at) ↦ ground arith
        ],
      )
