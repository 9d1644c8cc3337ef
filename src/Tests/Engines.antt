-- ===== src/Tests/Engines.antt =====
-- engine.go, compact/compact.go and the lifecycle on concrete engines.
use itt_engine.Prelude.{
  nat_key, ℕ, ◌+◌, ◌≡◌, refl, Str, Str-discrete, ℕ_discrete, [], ◌∷◌, some, true, false, ◌%◌, ◌^◌,
  arith,
}
use itt_engine.Graph.{Graph, new, get_edge, get_node}
use itt_engine.Graph.Valid.{IsValid}
use itt_engine.View
use itt_engine.Compact.{Stats, compact}
use itt_engine.Compact.Nodes.{node_type}
use itt_engine.Compact.Loops.{IsTimely, kept_edge}
use itt_engine.Compact.Refine.{compact_lem}
use itt_engine.Event.{Event, Error, validate, normalize}
use itt_engine.Data.{graph_from_data, graph_to_data}
use itt_engine.Data.RoundTrip.{graph_from_data-graph_to_data}
use itt_engine.Engine.{Engine, process_all}
use itt_engine.Engine.Steps.{IsSound, observed}
use itt_engine.Engine.Counting.{process_all_lem, matching}
use itt_engine.Lifecycle.{Lifecycle, Outcome, add_event, add_events, stop, cancel, finish, running}
use itt_engine.Lifecycle.Batches.{add_events_lem, add_events-bad, add_event-stop}
use itt_engine.Tests.{
  nat_float, layer, layer-IsValid, layer-IsTimely, config, event, events, engine, engine-IsSound,
}

process_all_lem_example :
    (overlay' : Graph ℕ) × (e' : Engine ℕ) × (process_all config events engine ≡ some e')
    × IsSound overlay' e'
    × ((a b : Str)
        → observed a b e' % 2 ^ 64 ≡ (observed a b engine + matching a b events) % 2 ^ 64)
process_all_lem_example = process_all_lem config events new engine engine-IsSound

compact_lem_example :
    (result : Graph ℕ) × (stats : Stats) × (compact 8 9 (layer 3) (layer 5) ≡ some (result, stats))
    × IsValid result
    × IsTimely result
    × ((from to : Str)
        → get_edge from to result
          ≡ kept_edge
              (get_edge from to (layer 3))
              (View.get_edge from to (record { base = layer 3; overlay = layer 5 })))
    × ((id : Str)
        → node_type (get_node id result)
          ≡ node_type (View.get_node id (record { base = layer 3; overlay = layer 5 })))
compact_lem_example =
    compact_lem (layer 3) (layer 5) (layer-IsValid 3) (layer-IsValid 5) (layer-IsTimely 3)
      (layer-IsTimely 5) 8 9

graph_from_data-graph_to_data_example :
    (g' : Graph ℕ) × (graph_from_data (graph_to_data 9 (layer 3)) ≡ some g')
    × IsValid g'
    × ((a b : Str) → get_edge a b g' ≡ get_edge a b (layer 3))
    × ((id : Str) → node_type (get_node id g') ≡ node_type (get_node id (layer 3)))
graph_from_data-graph_to_data_example = graph_from_data-graph_to_data 9 (layer 3) (layer-IsValid 3)

abbrev live : Lifecycle ℕ
live = record {
  started = true;
  stopped = false;
  cancelled = false;
  working = true;
  queue = event ∷ [];
}

abbrev halted : Lifecycle ℕ
halted = record { started = false; stopped = true; cancelled = true; working = false; queue = [] }

-- an event without a source
abbrev anonymous : Event ℕ
anonymous = record event { source = [] }

add_events-bad_example :
    add_events 8 false ((5, event) ∷ (6, anonymous) ∷ (7, event) ∷ []) live
    ≡ Outcome.failed Error.empty_source live
unfolding validate Str-discrete
add_events-bad_example =
    add_events-bad 8 false ((5, event) ∷ []) 6 anonymous ((7, event) ∷ []) Error.empty_source live
      (refl, tt) refl

add_events_lem_example :
    add_events 8 false ((5, event) ∷ (6, event) ∷ []) live
    ≡ Outcome.ok (record live { queue = event ∷ normalize 5 event ∷ normalize 6 event ∷ [] })
unfolding running validate Str-discrete
add_events_lem_example =
    add_events_lem 8 false ((5, event) ∷ (6, event) ∷ []) live (refl, (refl, tt)) refl refl
      (omega arith)

add_event-stop_example :
    (l : Lifecycle ℕ) × (add_event 8 false 5 event halted ≡ Outcome.ok l)
    × (running l ≡ true)
    × (l.queue ≡ normalize 5 event ∷ [])
unfolding stop cancel finish validate ℕ_discrete Str-discrete
add_event-stop_example = add_event-stop 8 false 5 event live halted refl (omega arith) refl
