-- ===== src/View/Visits.antt =====
-- `ForEachNode` and `NodeCount` of graph/view.go: which nodes a full visit meets.
use itt_engine.Prelude.{
  sym, ◌≡◌, refl, Bool, true, not, ◌||◌, ◌&&◌, Str, str_key, arith, ◌∷◌, [], ◌++◌, List,
  if◌then◌else◌, length, suc, append_assoc, append-nil, ap, ◌∙◌,
}
use itt_engine.Map
use itt_engine.Map.{Map, OnSome, AllEntries, is_some, mem, distinct, keys, values}
use itt_engine.Map.Laws.{mem-keys, mem-keys-put, distinct-keys-put}
use itt_engine.Map.Entries.{entries_of_get}
use itt_engine.Map.Members.{mem-append, distinct-append, length_eq_of_mem}
use itt_engine.Graph
use itt_engine.Graph.{Graph, NodeData, flag}
use itt_engine.Graph.Valid.{IsValid}
use itt_engine.Graph.Neighbors.{flag-put}
use itt_engine.View
use itt_engine.View.{
  UnifiedView, for_each, first_visit, second_visit, for_each_node, node_count, mark_node,
}

length-keys : {V : Type 0} (m : Map Str V) → length (keys m) ≡ length m
length-keys [] = refl
length-keys (e ∷ m) = ap suc (length-keys m)

module _ {F : Type 0} where
  abbrev pub ids : List (NodeData F) → List Str
  ids [] = []
  ids (n ∷ l) = n.id ∷ ids l

  -- the callback that records what it is called with, and goes on
  abbrev pub record_node : NodeData F → List (NodeData F) → List (NodeData F) × Bool
  record_node n l = (l ++ (n ∷ []), true)

  -- all that `ForEachNode` calls a callback with that never stops it
  unfoldable pub visited : UnifiedView F → List (NodeData F)
  visited v = for_each_node record_node v []

  -- the nodes with no mark
  unfoldable pub unseen : Map Str Bool → List (NodeData F) → List (NodeData F)
  unseen seen [] = []
  unseen seen (n ∷ l) = if flag n.id seen then unseen seen l else n ∷ unseen seen l

  first_loop :
      (l : List (NodeData F)) (seen : Map Str Bool) (s : List (NodeData F)) (x : Str)
      → let (seen', s') = for_each (first_visit record_node) l (seen, s) in
        (s' ≡ s ++ l) × (flag x seen' ≡ (mem x (ids l) || flag x seen))
  unfolding for_each Map.mem
  first_loop [] seen s x = (rw append-nil, refl)
  first_loop (n ∷ l) seen s x =
      let (grown, marked) = first_loop l (Map.put n.id true seen) (s ++ (n ∷ [])) x in
      (rw grown (append_assoc s (n ∷ []) l), ground (arith, marked, flag-put n.id x seen))

  second_loop :
      (l : List (NodeData F)) (seen : Map Str Bool) (s : List (NodeData F))
      → for_each (second_visit record_node seen) l s ≡ s ++ unseen seen l
  unfolding for_each unseen
  second_loop [] seen s = rw append-nil
  second_loop (n ∷ l) seen s = ground (
    arith,
    second_loop l seen s,
    second_loop l seen (s ++ (n ∷ [])),
    append_assoc s (n ∷ []) (unseen seen l),
  )

  -- the marks that the first loop leaves
  unfoldable pub marks : UnifiedView F → Map Str Bool
  marks v = (for_each (first_visit record_node) (values v.overlay.nodes) ([], [])).0

  visited-eq :
      (v : UnifiedView F)
      → visited v ≡ values v.overlay.nodes ++ unseen (marks v) (values v.base.nodes)
  unfolding visited for_each_node marks
  visited-eq v =
      second_loop (values v.base.nodes) (marks v) _
      ∙ ap (λ s. s ++ unseen (marks v) (values v.base.nodes))
          (first_loop (values v.overlay.nodes) [] [] []).0

  flag-marks :
      (v : UnifiedView F) (x : Str) → flag x (marks v) ≡ mem x (ids (values v.overlay.nodes))
  unfolding marks flag Map.get
  flag-marks v x = ground (arith, (first_loop (values v.overlay.nodes) [] [] x).1)

  abbrev IsNamed : Str → NodeData F → Type 0
  IsNamed k n = n.id ≡ k

  ids-values : (m : Map Str (NodeData F)) → AllEntries IsNamed m → ids (values m) ≡ keys m
  ids-values [] a = refl
  ids-values ((k, n) ∷ m) (e, a) = ground (arith, ids-values m a)

  ids-append : (l r : List (NodeData F)) → ids (l ++ r) ≡ ids l ++ ids r
  ids-append [] r = refl
  ids-append (n ∷ l) r = ap (◌∷◌ n.id) (ids-append l r)

  mem-unseen :
      (seen : Map Str Bool) (l : List (NodeData F)) (x : Str)
      → mem x (ids (unseen seen l)) ≡ (mem x (ids l) && not (flag x seen))
  unfolding Map.mem unseen
  mem-unseen seen [] x = refl
  mem-unseen seen (n ∷ l) x = ground (arith, mem-unseen seen l x)

  distinct-unseen :
      (seen : Map Str Bool) (l : List (NodeData F))
      → distinct (ids l) ≡ true
      → distinct (ids (unseen seen l)) ≡ true
  unfolding Map.distinct unseen
  distinct-unseen seen [] d = refl
  distinct-unseen seen (n ∷ l) d = ground (arith, distinct-unseen seen l, mem-unseen seen l n.id)

  -- the keys that `NodeCount` counts
  counted :
      (l : List (NodeData F)) (seen : Map Str Bool) (x : Str)
      → distinct (keys seen) ≡ true
      → let seen' = for_each mark_node l seen in
        (distinct (keys seen') ≡ true) × (mem x (keys seen') ≡ (mem x (ids l) || mem x (keys seen)))
  unfolding for_each Map.mem
  counted [] seen x d = (d, refl)
  counted (n ∷ l) seen x d = ground (
    arith,
    counted l (Map.put n.id true seen) x,
    distinct-keys-put n.id true seen,
    mem-keys-put n.id x true seen,
  )

  length-ids : (l : List (NodeData F)) → length (ids l) ≡ length l
  length-ids [] = refl
  length-ids (n ∷ l) = ap suc (length-ids l)

  module _ (v : UnifiedView F) (vo : IsValid v.overlay) (vb : IsValid v.base) where
    over_ids : ids (values v.overlay.nodes) ≡ keys v.overlay.nodes
    over_ids =
        ids-values v.overlay.nodes
          (entries_of_get IsNamed v.overlay.nodes vo.nodes_distinct vo.nodes_named)

    under_ids : ids (values v.base.nodes) ≡ keys v.base.nodes
    under_ids =
        ids-values v.base.nodes
          (entries_of_get IsNamed v.base.nodes vb.nodes_distinct vb.nodes_named)

    mem-visited : (id : Str) → mem id (ids (visited v)) ≡ is_some (View.get_node id v)
    unfolding View.get_node Graph.get_node
    mem-visited id =
        rw (visited-eq v, ids-append)
          (ground (
            arith,
            mem-append id (ids (values v.overlay.nodes))
                (ids (unseen (marks v) (values v.base.nodes))),
            mem-unseen (marks v) (values v.base.nodes) id,
            flag-marks v id,
            over_ids,
            under_ids,
            mem-keys id v.overlay.nodes,
            mem-keys id v.base.nodes,
          ))

    distinct-visited : distinct (ids (visited v)) ≡ true
    distinct-visited =
        rw (visited-eq v, ids-append)
          (distinct-append (ids (values v.overlay.nodes))
            (ids (unseen (marks v) (values v.base.nodes))) (rw over_ids vo.nodes_distinct)
            (distinct-unseen (marks v) (values v.base.nodes) (rw under_ids vb.nodes_distinct))
            (λ x m. ground (arith, mem-unseen (marks v) (values v.base.nodes) x, flag-marks v x)))

    mem-ids-visited :
        (x : Str)
        → mem x (ids (visited v))
          ≡ (mem x (ids (values v.base.nodes)) || mem x (ids (values v.overlay.nodes)))
    mem-ids-visited x =
        rw (visited-eq v, ids-append)
          (ground (
            arith,
            mem-append x (ids (values v.overlay.nodes))
                (ids (unseen (marks v) (values v.base.nodes))),
            mem-unseen (marks v) (values v.base.nodes) x,
            flag-marks v x,
          ))

    node_count-visited : node_count v ≡ length (visited v)
    unfolding node_count Map.mem Map.distinct
    node_count-visited =
        let over = for_each mark_node (values v.overlay.nodes) [] in
        let all = for_each mark_node (values v.base.nodes) over in
        let first = λ (x : Str). counted (values v.overlay.nodes) [] x refl in
        let second = λ (x : Str). counted (values v.base.nodes) over x (first x).0 in
        sym (length-keys all)
        ∙ length_eq_of_mem (keys all) (ids (visited v)) (second []).0 distinct-visited
            (λ x. ground (arith, (first x).1, (second x).1, mem-ids-visited x))
        ∙ length-ids (visited v)

    -- Over two valid layers a full `ForEachNode` meets each node that `GetNode` finds exactly
    -- once, and no other; `NodeCount` is the number of its calls.
    pub visited_lem :
        (distinct (ids (visited v)) ≡ true)
        × ((id : Str) → mem id (ids (visited v)) ≡ is_some (View.get_node id v))
        × (node_count v ≡ length (visited v))
    visited_lem = (distinct-visited, mem-visited, node_count-visited)
