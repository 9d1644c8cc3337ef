-- ===== src/Compact/Nodes.antt =====
-- The loops of compact/compact.go over nodes: which nodes they leave, and of which type.
use itt_engine.Prelude.{◌≡◌, refl, true, Option, none, some, Str, str_key, arith, ◌∷◌, [], ℕ}
use itt_engine.Map
use itt_engine.Map.{Map, OnSome, AllEntries, is_some, keys, distinct}
use itt_engine.Map.Laws.{mem-keys}
use itt_engine.Graph.{Graph, NodeData, add_node, update_node}
use itt_engine.Graph.Valid.{IsValid, add_node-IsValid, get-nodes-add_node, edges-add_node}
use itt_engine.Compact.{base_node, overlay_node, copy_base_nodes, copy_overlay_nodes}

-- presence and type of a node
abbrev pub node_type : {F : Type 0} → Option (NodeData F) → Option Str
node_type none = none
node_type (some n) = some n.type

module _ {F : Type 0} where
  abbrev pub IsNamed : Str → NodeData F → Type 0
  IsNamed k n = n.id ≡ k

  -- nodes added one by one, by the fields that a loop copies
  unfoldable pub add_all : (NodeData F → NodeData F) → Map Str (NodeData F) → Graph F → Graph F
  add_all fields [] g = g
  add_all fields ((k, n) ∷ m) g = add_all fields m (add_node (fields n) g)

  pub copy_base_nodes-eq :
      (m : Map Str (NodeData F)) (g : Graph F) → copy_base_nodes m g ≡ add_all base_node m g
  unfolding copy_base_nodes add_all
  copy_base_nodes-eq [] g = refl
  copy_base_nodes-eq ((k, n) ∷ m) g = copy_base_nodes-eq m (add_node (base_node n) g)

  pub copy_overlay_nodes-eq :
      (m : Map Str (NodeData F)) (c : ℕ) (g : Graph F)
      → (copy_overlay_nodes m c g).1 ≡ add_all overlay_node m g
  unfolding copy_overlay_nodes add_all
  copy_overlay_nodes-eq [] c g = refl
  copy_overlay_nodes-eq ((k, n) ∷ m) c g = copy_overlay_nodes-eq m _ (add_node (overlay_node n) g)

  module _ (fields : NodeData F → NodeData F)
      (keeps : (n : NodeData F) → ((fields n).id ≡ n.id) × ((fields n).type ≡ n.type)) where
    pub add_all-IsValid :
        (m : Map Str (NodeData F)) (g : Graph F) → IsValid g → IsValid (add_all fields m g)
    unfolding add_all
    add_all-IsValid [] g v = v
    add_all-IsValid ((k, n) ∷ m) g v =
        add_all-IsValid m (add_node (fields n) g) (add_node-IsValid (fields n) g v)

    pub edges-add_all :
        (m : Map Str (NodeData F)) (g : Graph F) → (add_all fields m g).edges ≡ g.edges
    unfolding add_all
    edges-add_all [] g = refl
    edges-add_all ((k, n) ∷ m) g =
        ground (arith, edges-add_all m (add_node (fields n) g), edges-add_node (fields n) g)

    -- the added node's type wins
    pub type-add_all :
        (m : Map Str (NodeData F)) (g : Graph F) (id : Str)
        → AllEntries IsNamed m
        → distinct (keys m) ≡ true
        → node_type (Map.get id (add_all fields m g).nodes)
          ≡ elim (Map.get id m) [ none ↦ node_type (Map.get id g.nodes) | some n ↦ some n.type ]
    unfolding add_all Map.get Map.distinct update_node
    type-add_all [] g id a d = refl
    type-add_all ((k, n) ∷ m) g id (e, a) d = ground (
      arith,
      type-add_all m (add_node (fields n) g) id a,
      get-nodes-add_node (fields n) g id,
      keeps n,
      mem-keys k m,
    )
