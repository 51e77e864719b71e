-- ===== src/Tree/Roots.antt =====
-- The methods of `UiTree`, which go over its top-level nodes.
use Prim.Native.String.{compare}
use text.Mathlib.Text
use gpui_agent.Base.{
  ℕ, ◌+◌, ◌==◌, string_eq, nat_eq, if◌then◌else◌, Bool, String, Option, List, [], ◌∷◌, ◌++◌, map,
  ltb, length, filter,
}
use gpui_agent.Error.{Error, Result, ok, err}
use gpui_agent.Tree.Rect.{Bounds}
use gpui_agent.Tree.{UiNode, attrs, UiTree}
use gpui_agent.Tree.Search.{find_in, collect_ids, visit_in, nodes_count, apply_bounds_in}

-- `*counts.entry(id).or_insert(0) += 1` on a `BTreeMap`, whose keys stand in order.
unfoldable pub bump : String → List (String × ℕ) → List (String × ℕ)
bump id [] = (id, 1) ∷ []
bump id ((k, n) ∷ m) =
    if k == id
    then (k, n + 1) ∷ m
    else if Text.is_lt (compare id k)
    then (id, 1) ∷ (k, n) ∷ m
    else (k, n) ∷ bump id m

module _ {F : Type 0} where
  unfoldable pub find : UiTree F → String → Option (UiNode F)
  find t id = find_in t.nodes id

  unfoldable pub find_all : UiTree F → String → List (UiNode F)
  find_all t id = collect_ids t.nodes id []

  unfoldable pub flatten : UiTree F → List (UiNode F)
  flatten t = visit_in (λ out m. out ++ m ∷ []) [] t.nodes

  unfoldable pub node_count : UiTree F → ℕ
  node_count t = nodes_count t.nodes

  unfoldable pub apply_bounds : (String → Option (Bounds F)) → UiTree F → UiTree F
  apply_bounds m t = record t { nodes = apply_bounds_in m t.nodes }

  -- `found.len()` decides: none, one or several.
  abbrev pub require_one : String → List (UiNode F) → Result (UiNode F)
  require_one id [] = err (Error.not_found id)
  require_one id (n ∷ []) = ok n
  require_one id (n ∷ m ∷ ns) = err (Error.duplicate_id id (length (n ∷ m ∷ ns)))

  unfoldable pub require_id : UiTree F → String → Result (UiNode F)
  unfolding find_all
  require_id t id = require_one id (find_all t id)

  -- The number of visited nodes under each id: `counts` of `duplicate_ids`, as a list of entries.
  abbrev count_up : List (String × ℕ) → UiNode F → List (String × ℕ)
  count_up counts n = bump (attrs n).id counts

  unfoldable pub duplicate_ids : UiTree F → List String
  unfolding bump
  duplicate_ids t = map (λ (id, n). id) (filter (λ (id, n). ltb 1 n) (visit_in count_up [] t.nodes))

  unfoldable pub ids_are_unique : UiTree F → Bool
  unfolding duplicate_ids
  ids_are_unique t = length (duplicate_ids t) == 0
