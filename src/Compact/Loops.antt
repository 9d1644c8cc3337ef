-- ===== src/Compact/Loops.antt =====
-- The loops of compact/compact.go in closed form, and what they make of one edge.
use itt_engine.Prelude.{
  ◌≡◌, refl, Option, none, some, Str, str_key, arith, ◌∷◌, [], ℕ, ◌+◌, Float, if◌then◌else◌, ◌≤◌,
  ◌<◌, ◌^◌, add64-add64-sub64,
}
use itt_engine.Map
use itt_engine.Map.{Map, OnSome, AllEntries, is_some, keys, distinct}
use itt_engine.Map.Laws.{map_option}
use itt_engine.Graph.{Graph, NodeData, EdgeData, new, get_edge, accumulate}
use itt_engine.Graph.Valid.{IsValid}
use itt_engine.Graph.AddEdge.{add_edge-some}
use itt_engine.View.{pick_edge, merge_edges}
use itt_engine.Compact.{
  base_node, overlay_node, restore, extend, copy_base_edges, copy_overlay_edges,
}
use itt_engine.Compact.Merge.{merged, merge_edge, merge_all, merge_edge-IsValid}

-- an edge first seen no later than last, whose count is a 64-bit pattern
abbrev pub IsTimed : {F : Type 0} → EdgeData F → Type 0
IsTimed e = (e.first_seen ≤ e.last_seen) × (e.count < 2 ^ 64)

pub record IsTimely {F : Type 0} (g : Graph F) : Type 0 where
  pub timed : (k : Str) → OnSome IsTimed (Map.get k g.edges)

-- Compaction keeps the endpoints and the type of the base's edge; the view shows the overlay's.
abbrev pub kept_edge :
    {F : Type 0} → Option (EdgeData F) → Option (EdgeData F) → Option (EdgeData F)
kept_edge none shown = shown
kept_edge (some b) shown =
    map_option (λ e. record e { from = b.from; to = b.to; type = b.type }) shown

module _ {F : Type 0} where
  pub restore_keeps :
      (e ge : EdgeData F) → ((restore e ge).from ≡ ge.from) × ((restore e ge).to ≡ ge.to)
  restore_keeps e ge = (refl, refl)

  pub extend_keeps :
      (e ge : EdgeData F) → ((extend e ge).from ≡ ge.from) × ((extend e ge).to ≡ ge.to)
  extend_keeps e ge = (refl, refl)

  pub base_keeps : (n : NodeData F) → ((base_node n).id ≡ n.id) × ((base_node n).type ≡ n.type)
  base_keeps n = (refl, refl)

  pub overlay_keeps :
      (n : NodeData F) → ((overlay_node n).id ≡ n.id) × ((overlay_node n).type ≡ n.type)
  overlay_keeps n = (refl, refl)

  pub new-IsValid : IsValid (new {F = F})
  unfolding Map.get Map.distinct
  new-IsValid = record {
    nodes_named = λ id. tt;
    edges_placed = λ k. tt;
    out_rows = λ id. refl;
    in_rows = λ id. refl;
    out_linked = λ a b. refl;
    in_linked = λ a b. refl;
    nodes_distinct = refl;
    edges_distinct = refl;
  }

module _ {F : Type 0} ⦃float : Float F⦄ where
  pub copy_base_edges-some :
      (m : Map Str (EdgeData F)) (g : Graph F)
      → IsValid g
      → copy_base_edges m g ≡ some (merge_all restore restore_keeps m g)
  unfolding copy_base_edges merge_all merge_edge
  copy_base_edges-some [] g v = refl
  copy_base_edges-some ((k, e) ∷ m) g v =
      rw (add_edge-some e.from e.to e.weight e.type e.first_seen g v) (
        copy_base_edges-some m (merge_edge restore restore_keeps e g)
          (merge_edge-IsValid restore restore_keeps e g v))

  -- the count of the overlay's edges that were there
  unfoldable pub merged_count : Map Str (EdgeData F) → ℕ → Graph F → ℕ
  merged_count [] c g = c
  merged_count ((k, e) ∷ m) c g =
      merged_count m (if is_some (get_edge e.from e.to g) then c + 1 else c)
        (merge_edge extend extend_keeps e g)

  pub copy_overlay_edges-some :
      (m : Map Str (EdgeData F)) (c : ℕ) (g : Graph F)
      → IsValid g
      → copy_overlay_edges m c g ≡ some (merged_count m c g, merge_all extend extend_keeps m g)
  unfolding copy_overlay_edges merge_all merge_edge merged_count
  copy_overlay_edges-some [] c g v = refl
  copy_overlay_edges-some ((k, e) ∷ m) c g v =
      rw (add_edge-some e.from e.to e.weight e.type e.first_seen g v) (
        copy_overlay_edges-some m _ (merge_edge extend extend_keeps e g)
          (merge_edge-IsValid extend extend_keeps e g v))

  -- what the two loops make of one key is what the view shows, but for the endpoints and the type
  pub merged_shown :
      (b o : Option (EdgeData F))
      → OnSome IsTimed b
      → OnSome IsTimed o
      → elim o [ none ↦ b | some e ↦ some (merged extend extend_keeps e b) ]
        ≡ kept_edge b (pick_edge b o)
  unfolding pick_edge merge_edges accumulate
  merged_shown none none p q = refl
  merged_shown (some b) none p q = refl
  merged_shown none (some e) p q = ground arith
  merged_shown (some b) (some e) p q = ground (arith, add64-add64-sub64 b.count e.count)

  pub restored : (e : EdgeData F) → merged restore restore_keeps e none ≡ e
  restored e = refl
