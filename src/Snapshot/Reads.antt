-- ===== src/Snapshot/Reads.antt =====
-- What a snapshot of snapshot.go reads: always the two layers, and always the same.
use itt_engine.Prelude.{
  ℕ, ◌+◌, ◌*◌, ◌<◌, ◌≤◌, ◌^◌, ◌≡◌, refl, false, Option, none, some, Str, str_key, nat_key, List, [],
  ◌∷◌, Time, Float, length, arith, ltb, Bool-cases, inl, inr,
}
use itt_engine.Map
use itt_engine.Map.{Map, OnSome}
use itt_engine.Graph
use itt_engine.Graph.{Graph, NodeData, EdgeData, edge_key}
use itt_engine.Graph.Valid.{IsValid, IsPlaced}
use itt_engine.View
use itt_engine.View.{UnifiedView, pick_edge}
use itt_engine.Event.{Event}
use itt_engine.Engine.{Engine, Config, process_all}
use itt_engine.Engine.Isolation.{process_all-Follows}
use itt_engine.Snapshot.{Snapshot, GraphView, view_of, graph_view, read, view_node, view_edge}

module _ {F : Type 0} ⦃float : Float F⦄ where
  -- A snapshot of a published version answers every reader alike before and after any events, with
  -- their compactions, while the version IDs do not wrap.
  pub read-process_all :
      {A : Type 0} (f : GraphView F → A) (s : Snapshot F) (p : ℕ) (config : Config F)
      (evs : List (Time × Event F)) (e : Engine F) {e' : Engine F}
      → s.version ≡ some p
      → p ≤ e.version_id
      → e.version_id + 2 * length evs < 2 ^ 64
      → process_all config evs e ≡ some e'
      → read f s e'.store ≡ read f s e.store
  unfolding read graph_view
  read-process_all f s p config evs e {e'} held published few runs =
      let kept = (process_all-Follows config evs e {e' = e'} few runs).kept p published in
      rw (held, kept) refl

  -- a graph without nodes has no edges
  no_edge :
      (g : Graph F) (k : Str) (o : Option (EdgeData F))
      → g.nodes ≡ []
      → OnSome (IsPlaced g.nodes k) o
      → o ≡ none
  unfolding Map.get
  no_edge g k none h p = refl
  no_edge g k (some e) h p = absurd (ground (arith, p))

  no_nodes : (m : Map Str (NodeData F)) → ltb 0 (length m) ≡ false → m ≡ []
  no_nodes [] h = refl
  no_nodes (e ∷ m) h = absurd (ground arith)

  -- Where the base is valid, the view that a snapshot picks shows the nodes and the edges of both
  -- layers, also where it leaves out a base without nodes.
  pub view_of_lem :
      (base overlay : Graph F) (id from to : Str)
      → IsValid base
      → let v : UnifiedView F = record { base = base; overlay = overlay } in
        (view_node id (view_of (some base) overlay) ≡ View.get_node id v)
        × (view_edge from to (view_of (some base) overlay) ≡ View.get_edge from to v)
  unfolding view_of View.get_node View.get_edge Graph.get_node Graph.get_edge pick_edge
      Graph.node_count Map.get
  view_of_lem base overlay id from to valid = elim (Bool-cases (ltb 0 (length base.nodes))) [
    | inl some_nodes ↦ ground arith
    | inr nothing ↦
        let empty = no_nodes base.nodes nothing in
        let bare =
          no_edge base (edge_key from to) (Map.get (edge_key from to) base.edges) empty
            (valid.edges_placed (edge_key from to)) in
        ground (arith, empty, bare)
  ]
