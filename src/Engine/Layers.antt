-- ===== src/Engine/Layers.antt =====
-- What the steps of engine.go do to the two layers: the types that are set, an event, a compaction.
use itt_engine.Prelude.{
  ◌≡◌, refl, Option, none, some, ite, Str, Str-discrete, str_key, arith, [], ℕ, Float, Time, ◌∙◌,
  add64,
}
use itt_engine.Map
use itt_engine.Map.{Map, OnSome}
use itt_engine.Map.Laws.{get-modify, keys-modify}
use itt_engine.Graph.{Graph, NodeData, EdgeData, edge_key, new_edge, accumulate}
use itt_engine.Graph.Valid.{IsValid, IsPlaced-mono}
use itt_engine.Immutable.WithEvent.{with_event_graph, get-edges-with_event_graph}
use itt_engine.View.{pick_edge, merge_edges}
use itt_engine.Compact.Loops.{IsTimed, IsTimely, kept_edge}
use itt_engine.Engine.{Config, set_type, set_types}
use itt_engine.Event.{Event}

-- the events that an edge stands for
abbrev pub tally : {F : Type 0} → Option (EdgeData F) → ℕ
tally none = 0
tally (some e) = e.count

module _ {F : Type 0} where
  edges-set_type : (id t : Str) (g : Graph F) → (set_type id t g).edges ≡ g.edges
  unfolding set_type
  edges-set_type id t g = ground arith

  retyped : Str → NodeData F → NodeData F
  retyped t n = record n { type = t }

  retyped-IsValid :
      (id t : Str) (g : Graph F)
      → IsValid g
      → IsValid (record g { nodes = Map.modify id (retyped t) g.nodes })
  unfolding retyped
  retyped-IsValid id t g v = record {
    nodes_named = λ j. ground (arith, get-modify id j (retyped t) g.nodes, v.nodes_named j);
    edges_placed = λ k.
        IsPlaced-mono g.nodes (Map.modify id (retyped t) g.nodes) k (Map.get k g.edges)
          (λ j h. ground (arith, get-modify id j (retyped t) g.nodes)) (v.edges_placed k);
    out_rows = λ j. ground (arith, get-modify id j (retyped t) g.nodes, v.out_rows j);
    in_rows = λ j. ground (arith, get-modify id j (retyped t) g.nodes, v.in_rows j);
    out_linked = v.out_linked;
    in_linked = v.in_linked;
    nodes_distinct = ground (arith, keys-modify id (retyped t) g.nodes, v.nodes_distinct);
    edges_distinct = v.edges_distinct;
  }

  set_type-IsValid : (id t : Str) (g : Graph F) → IsValid g → IsValid (set_type id t g)
  unfolding set_type retyped
  set_type-IsValid id t g v =
      elim (Str-discrete t [])
        as (λ d. IsValid (ite d g (record g { nodes = Map.modify id (retyped t) g.nodes }))) [
          | yes p ↦ v
          | no p ↦ retyped-IsValid id t g v
        ]

  pub edges-set_types :
      (config : Config F) (ev : Event F) (g : Graph F) → (set_types config ev g).edges ≡ g.edges
  unfolding set_types
  edges-set_types config ev g =
      let typed : Option (Str → Str) → Graph F = λ o. elim o [
        | none ↦ g
        | some f ↦ set_type ev.target (f ev.target) (set_type ev.source (f ev.source) g)
      ] in
      elim config.node_type_func as (λ o. (typed o).edges ≡ g.edges) [
        | none ↦ refl
        | some f ↦
            edges-set_type ev.target (f ev.target) (set_type ev.source (f ev.source) g)
            ∙ edges-set_type ev.source (f ev.source) g
      ]

  pub set_types-IsValid :
      (config : Config F) (ev : Event F) (g : Graph F) → IsValid g → IsValid (set_types config ev g)
  unfolding set_types
  set_types-IsValid config ev g v =
      elim config.node_type_func
        as (λ o. IsValid (elim o [
          | none ↦ g
          | some f ↦ set_type ev.target (f ev.target) (set_type ev.source (f ev.source) g)
        ])) [
          | none ↦ v
          | some f ↦
              set_type-IsValid ev.target (f ev.target) (set_type ev.source (f ev.source) g)
                (set_type-IsValid ev.source (f ev.source) g v)
        ]

module _ {F : Type 0} ⦃float : Float F⦄ where
  pub tally-kept_edge : (b shown : Option (EdgeData F)) → tally (kept_edge b shown) ≡ tally shown
  tally-kept_edge none shown = refl
  tally-kept_edge (some b) none = refl
  tally-kept_edge (some b) (some e) = refl

  pub pick_edge-none : (b : Option (EdgeData F)) → tally (pick_edge b none) ≡ tally b
  unfolding pick_edge
  pick_edge-none none = refl
  pick_edge-none (some b) = refl

  accumulate-IsTimed :
      (weight : F) (ts : Time) (e : EdgeData F) → IsTimed e → IsTimed (accumulate weight ts e)
  unfolding accumulate
  accumulate-IsTimed weight ts e h = ground arith

  pub with_event_graph-IsTimely :
      (from to : Str) (weight : F) (type : Str) (ts : Time) (g : Graph F)
      → IsValid g
      → IsTimely g
      → IsTimely (with_event_graph from to weight type ts g)
  with_event_graph-IsTimely from to weight type ts g v t = record {
    timed = λ k.
        rw (get-edges-with_event_graph from to weight type ts g v k)
          (timed_after k (Map.get k g.edges) (t.timed k));
  }
    where
      timed_after :
          (k : Str) (o : Option (EdgeData F))
          → OnSome IsTimed o
          → OnSome IsTimed (
              ite
                (Str-discrete (edge_key from to) k)
                (elim o [
                  | none ↦ some (new_edge from to weight type ts)
                  | some e ↦ some (accumulate weight ts e)
                ])
                o)
      timed_after k none h = ground arith
      timed_after k (some e) h = ground (arith, accumulate-IsTimed weight ts e)

  -- one more event on the overlay's edge is one more on the edge that the view shows
  pub tally_counts :
      (from to : Str) (weight : F) (type : Str) (ts : Time) (b o : Option (EdgeData F))
      → OnSome IsTimed b
      → OnSome IsTimed o
      → tally (
          pick_edge b (elim o [
            | none ↦ some (new_edge from to weight type ts)
            | some e ↦ some (accumulate weight ts e)
          ]))
        ≡ add64 (tally (pick_edge b o)) 1
  unfolding pick_edge merge_edges accumulate
  tally_counts from to weight type ts none none hb ho = refl
  tally_counts from to weight type ts none (some e) hb ho = refl
  tally_counts from to weight type ts (some b) none hb ho = refl
  tally_counts from to weight type ts (some b) (some e) hb ho = omega arith
