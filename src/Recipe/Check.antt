-- ===== src/Recipe/Check.antt =====
-- `validate_recipe` and `apply_params` of crates/gpui-agent-recipe/src/recipe.rs.
pub mod Applies
pub mod Valid
use gpui_agent.Base.{
  ℕ, String, Bool, true, false, Option, none, some, List, [], ◌∷◌, ◌==◌, ◌&&◌, not, string_eq,
  nat_eq, leb, any, find, length,
}
use gpui_agent.Base.Text.{Text, codes, trim, is_some}
use gpui_agent.Base.Map
use gpui_agent.Base.Map.{Map}
use gpui_agent.Base.Set
use gpui_agent.Error.{Error, Result, ok, err, ensure, map_ok, ◌>>=◌, ◌>>◌}
use gpui_agent.Keybinding.{is_quit_binding}
use gpui_agent.Protocol.{Op}
use gpui_agent.Recipe.{Recipe, RecipeStep, recipe_format_version, max_recipe_steps}
use gpui_agent.Recipe.Params.{
  string_has_placeholder, collect_placeholders_in_op, substitute_op_in_place,
}
use gpui_agent.Recipe.Registry.{Registry, OpSchema, SchemaKind}
use gpui_agent.Recipe.Registry

-- `s.trim().is_empty()`
abbrev pub is_blank : String → Bool
is_blank s = length (trim (codes s)) == 0

abbrev undeclared : Option String → Result (Unit {0})
undeclared none = ok tt
undeclared (some name) = err (Error.undeclared_placeholder name)

unfoldable pub validate_placeholders_declared : Op → List String → Result (Unit {0})
unfolding collect_placeholders_in_op
validate_placeholders_declared op params =
    undeclared (find (λ name. not (any (λ p. p == name) params)) (collect_placeholders_in_op op []))

-- The first loop: the ids, each seen once.
unfoldable pub check_ids : List RecipeStep → List String → Result (List String)
unfolding trim string_has_placeholder Set.contains Set.insert
check_ids [] ids = ok ids
check_ids (step ∷ steps) ids = do
  ensure (not (is_blank step.id)) Error.step_id_empty
  ensure (not (string_has_placeholder step.id)) (Error.id_with_params step.id)
  ensure (not (Set.contains step.id ids)) (Error.duplicate_step step.id)
  check_ids steps (Set.insert step.id ids)

unfoldable pub check_needs : String → List String → List String → Result (Unit {0})
unfolding string_has_placeholder Set.contains
check_needs id [] ids = ok tt
check_needs id (need ∷ needs) ids = do
  ensure (not (string_has_placeholder need)) (Error.need_with_params id need)
  ensure (Set.contains need ids) (Error.unknown_need_of id need)
  ensure (not (need == id)) (Error.self_need id)
  check_needs id needs ids

abbrev check_schema : String → Option OpSchema → Result (Unit {0})
check_schema name none = err (Error.unregistered_invoke name)
check_schema name (some schema) = elim schema.kind [
  | SchemaKind.invoke ↦ ok tt
  | SchemaKind.protocol ↦ err (Error.not_an_invoke name)
  | SchemaKind.id ↦ err (Error.not_an_invoke name)
]

-- The checks of the operation itself.
unfoldable pub check_op : Op → Registry → Result (Unit {0})
unfolding is_quit_binding Registry.get
check_op (Op.keybinding r) registry =
    ensure (not (is_quit_binding (codes r.binding) && not r.confirm))
      (Error.unconfirmed_quit r.binding)
check_op (Op.invoke name args) registry = check_schema name (Registry.get name registry)
check_op _ registry = ok tt

-- The second loop.
unfoldable pub check_steps :
    List RecipeStep → List String → List String → Registry → Result (Unit {0})
unfolding check_needs validate_placeholders_declared check_op
check_steps [] ids params registry = ok tt
check_steps (step ∷ steps) ids params registry = do
  check_needs step.id step.needs ids
  validate_placeholders_declared step.op params
  check_op step.op registry
  check_steps steps ids params registry

-- The checks in front of the loops.
unfoldable pub check_header : Recipe → Result (Unit {0})
unfolding trim
check_header recipe = do
  ensure (recipe.v == recipe_format_version) (Error.unsupported_recipe_version recipe.v)
  ensure (not (is_blank recipe.name)) Error.recipe_name_empty
  ensure (not (length recipe.steps == 0)) Error.recipe_without_steps
  ensure (leb (length recipe.steps) max_recipe_steps) (Error.too_many_steps (length recipe.steps))

unfoldable pub validate_recipe : Recipe → Registry → Result (Unit {0})
unfolding check_header check_ids check_steps
validate_recipe recipe registry = do
  check_header recipe
  ids ← check_ids recipe.steps []
  check_steps recipe.steps ids recipe.params registry

abbrev require_set : List String → Map String → Result (Unit {0})
require_set [] set = ok tt
require_set (name ∷ names) set =
    ensure (is_some (Map.get name set)) (Error.missing_set name) >> require_set names set

unfoldable pub substitute_steps : List RecipeStep → Map String → Result (List RecipeStep)
unfolding substitute_op_in_place
substitute_steps [] set = ok []
substitute_steps (step ∷ steps) set = do
  op ← substitute_op_in_place step.op set
  rest ← substitute_steps steps set
  ok (record step { op = op } ∷ rest)

unfoldable pub apply_params : Recipe → Map String → Result Recipe
unfolding Map.get substitute_steps
apply_params recipe set = do
  require_set recipe.params set
  steps ← substitute_steps recipe.steps set
  ok (record recipe { steps = steps })
