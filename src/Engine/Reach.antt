-- ===== src/Engine/Reach.antt =====
-- The engine of engine.go as a state machine: its calls, the worker and the collector take their
-- steps in any order.
use itt_engine.Prelude.{
  ◌≡◌, refl, ℕ, zero, suc, Bool, Option, none, some, [], ◌∷◌, Time, Float, ℤ, arith, nat_key,
  if◌then◌else◌, ◌∙◌, Bool-cases, inl, inr, add64, sub64, is_positive, Option-cases,
}
use itt_engine.Map
use itt_engine.Map.{Map, is_some}
use itt_engine.Map.Laws.{get-modify}
use itt_engine.Graph.{Graph, new}
use itt_engine.Graph.Valid.{IsValid}
use itt_engine.Compact.Loops.{IsTimely, new-IsValid}
use itt_engine.Mvcc.{Store, counted, ref_count, acquire, release}
use itt_engine.Gc.{
  GcConfig, TrackedVersion, Sweeping, release_all, sweep_held, sweep_one, sweep, collect,
}
use itt_engine.Data.{GraphData}
use itt_engine.Event.{Event}
use itt_engine.Cache.{ResultsCache}
use itt_engine.Engine.{Engine, Config, process_event, do_compact, reset}
use itt_engine.Engine.Steps.{IsSound, overlay_of, new-IsTimely}
use itt_engine.Engine.Start.{Loaded, first_base, new_engine}
use itt_engine.Engine.Tick.{gc_tick}
use itt_engine.Snapshot.{Snapshot, snapshot, close}

module _ {F : Type 0} where
  -- the graph of a version
  abbrev pub graph_at : ℕ → Store F → Option (Graph F)
  graph_at p store = elim (Map.get p store) [ none ↦ none | some v ↦ some v.graph ]

  graph_at-counted :
      (f : ℕ → ℕ) (p q : ℕ) (store : Store F)
      → graph_at q (Map.modify p (counted f) store) ≡ graph_at q store
  graph_at-counted f p q store = ground (arith, get-modify p q (counted f) store)

  pub graph_at-acquire :
      (p q : ℕ) (store : Store F) → graph_at q (acquire p store) ≡ graph_at q store
  unfolding acquire
  graph_at-acquire p q store = graph_at-counted (λ c. add64 c 1) p q store

  pub graph_at-release :
      (p q : ℕ) (store : Store F) → graph_at q (release p store) ≡ graph_at q store
  unfolding release
  graph_at-release p q store =
      graph_at-counted (λ c. if is_positive c then sub64 c 1 else c) p q store

  graph_at-release_all :
      (fuel p q : ℕ) (store : Store F) → graph_at q (release_all fuel p store) ≡ graph_at q store
  unfolding release_all
  graph_at-release_all zero p q store = refl
  graph_at-release_all (suc fuel) p q store = elim (Bool-cases (is_positive (ref_count p store))) [
    | inl more ↦
        rw (more, release_all)
          (graph_at-release_all fuel p q (release p store) ∙ graph_at-release p q store)
    | inr done ↦ rw (done, release_all) refl
  ]

  graph_at-sweep :
      (config : GcConfig) (current : Option ℕ) (now : Time) (q : ℕ) (m : Map ℕ TrackedVersion)
      (s : Sweeping F)
      → graph_at q (sweep config current now m s).store ≡ graph_at q s.store
  unfolding sweep sweep_one sweep_held
  graph_at-sweep config current now q [] s = refl
  graph_at-sweep config current now q ((id, tv) ∷ m) s =
      let rest = graph_at-sweep config current now q m (sweep_one config current now id tv s) in
      let freed = graph_at-release_all (ref_count tv.version s.store) tv.version q s.store in
      ground arith

  pub graph_at-collect :
      {V : Type 0} (cached : Bool) (now : Time) (q : ℕ) (e : Engine F) (c : ResultsCache V)
      → graph_at q (gc_tick cached now e c).engine.store ≡ graph_at q e.store
  unfolding gc_tick collect
  graph_at-collect cached now q e c =
      let swept : Sweeping F = record {
        store = e.store;
        versions = e.gc.versions;
        to_remove = [];
        calls = [];
      } in
      ground (arith, graph_at-sweep e.gc.config e.controller.current now q e.gc.versions swept)

module _ {F : Type 0} ⦃float : Float F⦄ (V : Type 0) (config : Config F) where
  -- One step of the engine: the worker processes an event; a caller compacts, resets, takes a
  -- snapshot or closes one; the collector ticks.
  pub data Step : Engine F → Engine F → Type 0 where
    processes :
        {e e' : Engine F} (now : Time) (ev : Event F)
        → process_event config now ev e ≡ some e'
        → Step e e'
    compacts : {e e' : Engine F} (now : Time) → do_compact now e ≡ some e' → Step e e'
    resets : {e : Engine F} (now : Time) → Step e (reset now e)
    takes :
        {e e' : Engine F} (now : Time) (s : Snapshot F) → snapshot now e ≡ some (s, e') → Step e e'
    closes : {e : Engine F} (s : Snapshot F) → Step e (close s e).1
    collects :
        {e : Engine F} (cached : Bool) (now : Time) (c : ResultsCache V)
        → Step e (gc_tick cached now e c).engine

  -- The engines that `newEngine` and any steps lead to, where the base that is
  -- loaded is valid, with every edge first seen no later than last and counted in 64 bits.
  pub data Reached : Engine F → Type 0 where
    starts :
        {e : Engine F} (now : Time) (warning force : ℤ) (base_graph : Option (GraphData F))
        (storage : Option (Loaded F))
        → new_engine now warning force base_graph storage ≡ some e
        → IsValid e.base
        → IsTimely e.base
        → Reached e
    steps : {e e' : Engine F} → Reached e → Step e e' → Reached e'

module _ {F : Type 0} ⦃float : Float F⦄ where
  pub new_engine-IsSound :
      (now : Time) (warning force : ℤ) (base_graph : Option (GraphData F))
      (storage : Option (Loaded F)) (e : Engine F)
      → new_engine now warning force base_graph storage ≡ some e
      → IsValid e.base
      → IsTimely e.base
      → IsSound new e
  unfolding new_engine overlay_of Map.get
  new_engine-IsSound now warning force base_graph storage e made valid timely = record {
    published = elim (Option-cases (first_base base_graph storage)) [
      | inl bad ↦ absurd (ground arith)
      | inr (base, found) ↦ ground arith
    ];
    base_valid = valid;
    base_timely = timely;
    overlay_valid = new-IsValid;
    overlay_timely = new-IsTimely;
  }

  -- a step that keeps the base, the current version and the graphs of the versions
  pub IsSound-kept :
      (overlay : Graph F) (e e' : Engine F)
      → IsSound overlay e
      → e'.base ≡ e.base
      → e'.controller.current ≡ e.controller.current
      → ((q : ℕ) → graph_at q e'.store ≡ graph_at q e.store)
      → IsSound overlay e'
  unfolding overlay_of
  IsSound-kept overlay e e' s base current graphs = record {
    published = elim (Option-cases e.controller.current) [
      | inl bad ↦ absurd (ground (arith, s.published))
      | inr (p, at) ↦ ground (arith, s.published, graphs p)
    ];
    base_valid = rw base s.base_valid;
    base_timely = rw base s.base_timely;
    overlay_valid = s.overlay_valid;
    overlay_timely = s.overlay_timely;
  }
