-- ===== src/Tree/Search.antt =====
-- Searches and traversals of the tree: `find`, `find_with_parent`, `find_all`, `visit`,
-- `node_count`, `flatten`, `apply_bounds_map` and the `UiTree` methods over them.
use gpui_agent.Base.{
  ℕ, ◌+◌, String, Option, none, some, List, [], ◌∷◌, ◌++◌, ◌==◌, string_eq, nat_eq, if◌then◌else◌,
}
use gpui_agent.Tree.Rect.{Bounds}
use gpui_agent.Tree.{Attrs, UiNode, Nodes, node, nil, cons}

-- `Option::or_else`, as `find_map` uses it.
abbrev pub or_else {ℓ} : {A : Type ℓ} → Option A → Option A → Option A
or_else none o = o
or_else (some a) o = some a

module _ {F : Type 0} where
  unfoldable mutual
    pub find : UiNode F → String → Option (UiNode F)
    find (node a cs) id = if a.id == id then some (node a cs) else find_in cs id

    -- `find_map` over the children
    pub find_in : Nodes F → String → Option (UiNode F)
    find_in nil id = none
    find_in (cons n ns) id = or_else (find n id) (find_in ns id)

  unfoldable mutual
    pub find_with_parent : UiNode F → String → Option String → Option (UiNode F × Option String)
    find_with_parent (node a cs) id parent_id =
        if a.id == id then some (node a cs, parent_id) else find_with_parent_in cs id (some a.id)

    pub find_with_parent_in : Nodes F → String → Option String → Option (UiNode F × Option String)
    find_with_parent_in nil id parent_id = none
    find_with_parent_in (cons n ns) id parent_id =
        or_else (find_with_parent n id parent_id) (find_with_parent_in ns id parent_id)

  -- `collect_id` with the vector that it extends.
  unfoldable mutual
    pub collect_id : UiNode F → String → List (UiNode F) → List (UiNode F)
    collect_id (node a cs) id out =
        collect_ids cs id (if a.id == id then out ++ node a cs ∷ [] else out)

    pub collect_ids : Nodes F → String → List (UiNode F) → List (UiNode F)
    collect_ids nil id out = out
    collect_ids (cons n ns) id out = collect_ids ns id (collect_id n id out)

  unfoldable pub find_all : UiNode F → String → List (UiNode F)
  unfolding collect_id
  find_all n id = collect_id n id []

  unfoldable mutual
    pub node_count : UiNode F → ℕ
    node_count (node a cs) = 1 + nodes_count cs

    pub nodes_count : Nodes F → ℕ
    nodes_count nil = 0
    nodes_count (cons n ns) = node_count n + nodes_count ns

  abbrev pub set_bounds : Attrs F → Option (Bounds F) → Attrs F
  set_bounds a none = a
  set_bounds a (some b) = record a { bounds = b }

  -- `apply_bounds_map`, with the map as a lookup function.
  unfoldable mutual
    pub apply_bounds : (String → Option (Bounds F)) → UiNode F → UiNode F
    apply_bounds m (node a cs) = node (set_bounds a (m a.id)) (apply_bounds_in m cs)

    pub apply_bounds_in : (String → Option (Bounds F)) → Nodes F → Nodes F
    apply_bounds_in m nil = nil
    apply_bounds_in m (cons n ns) = cons (apply_bounds m n) (apply_bounds_in m ns)

  -- `visit` with the state that its closure changes.
  module _ {A : Type 0} (f : A → UiNode F → A) where
    unfoldable mutual
      pub visit : A → UiNode F → A
      visit s (node a cs) = visit_in (f s (node a cs)) cs

      pub visit_in : A → Nodes F → A
      visit_in s nil = s
      visit_in s (cons n ns) = visit_in (visit s n) ns

  unfoldable pub flatten : UiNode F → List (UiNode F)
  unfolding visit
  flatten n = visit (λ out m. out ++ m ∷ []) [] n
