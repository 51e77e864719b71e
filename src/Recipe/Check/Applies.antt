-- ===== src/Recipe/Check/Applies.antt =====
-- A recipe that passes `validate_recipe` can be bound to parameters, recipe.rs.
use gpui_agent.Base.{
  ◌≡◌, refl, String, Bool, true, false, List, [], ◌∷◌, map, not, any, All, All-map, All-find_none,
  find, arith, ap, sym, ◌∙◌, subst, ◌==◌, string_eq, inl, inr, Bool-cases, Option-cases,
}
use text.Mathlib.TextEquality.{eq_iff}
use gpui_agent.Base.Map.{Map}
use gpui_agent.Error.{ok, >>-eq-ok, >>=-eq-ok}
use gpui_agent.Protocol.{Op}
use gpui_agent.Recipe.{Recipe, RecipeStep}
use gpui_agent.Recipe.Registry.{Registry}
use gpui_agent.Recipe.Params.{collect_placeholders_in_op}
use gpui_agent.Recipe.Params.Bound.{IsBound, substitute-IsBound}
use gpui_agent.Recipe.Params.Texts.{expanded, map_texts}
use gpui_agent.Recipe.Check.{
  undeclared, validate_placeholders_declared, check_ids, check_needs, check_op, check_steps,
  check_header, validate_recipe, require_set, substitute_steps, apply_params,
}

-- Every placeholder of the operation is a parameter of the recipe.
abbrev pub Declared : List String → Op → Type 0
Declared params op =
    All (λ name. any (λ p. p == name) params ≡ true) (collect_placeholders_in_op op [])

not-eq_false : (b : Bool) → not b ≡ false → b ≡ true
not-eq_false b h = ground (arith, h)

pub validate-Declared :
    (op : Op) (params : List String)
    → validate_placeholders_declared op params ≡ ok tt
    → Declared params op
unfolding validate_placeholders_declared
validate-Declared op params h =
    let names = collect_placeholders_in_op op [] in
    let undeclared_at = λ (name : String). not (any (λ p. p == name) params) in
    elim (Option-cases (find undeclared_at names)) [
      | inl e ↦
          All-map (λ name. undeclared_at name ≡ false) (λ name. any (λ p. p == name) params ≡ true)
            names (λ name. not-eq_false _) (All-find_none undeclared_at names e)
      | inr (name, e) ↦ cc (sym h ∙ ap undeclared e)
    ]

check_steps-Declared :
    (steps : List RecipeStep) (ids params : List String) (registry : Registry)
    → check_steps steps ids params registry ≡ ok tt
    → All (λ step. Declared params step.op) steps
unfolding check_steps
check_steps-Declared [] ids params registry h = tt
check_steps-Declared (step ∷ steps) ids params registry h =
    let (n, h1) = >>-eq-ok (check_needs step.id step.needs ids) _ h in
    let (d, h2) = >>-eq-ok (validate_placeholders_declared step.op params) _ h1 in
    let (o, rest) = >>-eq-ok (check_op step.op registry) _ h2 in
    (validate-Declared step.op params d, check_steps-Declared steps ids params registry rest)

any-IsBound :
    (set : Map String) (name : String) (params : List String)
    → All (IsBound set) params
    → any (λ p. p == name) params ≡ true
    → IsBound set name
any-IsBound set name [] h m = cc
any-IsBound set name (p ∷ params) h m = elim (Bool-cases (p == name)) [
  | inl same ↦ subst (IsBound set) ((eq_iff p name).0 same) h.0
  | inr other ↦ any-IsBound set name params h.1 (ground (arith, other))
]

require_set-IsBound :
    (set : Map String) (params : List String)
    → All (IsBound set) params
    → require_set params set ≡ ok tt
require_set-IsBound set [] h = refl
require_set-IsBound set (p ∷ params) h = ground (arith, require_set-IsBound set params h.1)

-- What `apply_params` may not touch.
abbrev pub graph : RecipeStep → String × List String × Bool
graph step = (step.id, step.needs, step.screenshot)

-- The step with its texts expanded
abbrev pub expanded_step : Map String → RecipeStep → RecipeStep
expanded_step set step = record step { op = map_texts (expanded set) step.op }

substitute_steps-Declared :
    (set : Map String) (params : List String) (steps : List RecipeStep)
    → All (IsBound set) params
    → All (λ step. Declared params step.op) steps
    → substitute_steps steps set ≡ ok (map (expanded_step set) steps)
unfolding substitute_steps
substitute_steps-Declared set params [] b h = refl
substitute_steps-Declared set params (step ∷ steps) b h =
    let covered =
      All-map _ (IsBound set) (collect_placeholders_in_op step.op [])
        (λ name m. any-IsBound set name params b m) h.0 in
    rw (substitute-IsBound set step.op [] covered, substitute_steps-Declared set params steps b h.1)
      refl

pub graph-expanded :
    (set : Map String) (steps : List RecipeStep)
    → map graph (map (expanded_step set) steps) ≡ map graph steps
graph-expanded set [] = refl
graph-expanded set (step ∷ steps) = ap (◌∷◌ (graph step)) (graph-expanded set steps)

-- A recipe that `validate_recipe` accepts, with a value for each of its parameters, is bound
-- without an error: in every text of every operation each placeholder is replaced by its value, and
-- nothing else of the recipe changes, neither header, ids, needs and flags nor the other fields of
-- the operations.
pub apply_params-validated :
    (recipe : Recipe) (registry : Registry) (set : Map String)
    → validate_recipe recipe registry ≡ ok tt
    → All (IsBound set) recipe.params
    → apply_params recipe set ≡ ok (record recipe { steps = map (expanded_step set) recipe.steps })
unfolding validate_recipe apply_params
apply_params-validated recipe registry set h b =
    let (header, h1) = >>-eq-ok (check_header recipe) _ h in
    let (ids, i, checked) =
      >>=-eq-ok (check_ids recipe.steps [])
        (λ ids. check_steps recipe.steps ids recipe.params registry) h1 in
    let declared = check_steps-Declared recipe.steps ids recipe.params registry checked in
    rw
      (
        require_set-IsBound set recipe.params b,
        substitute_steps-Declared set recipe.params recipe.steps b declared,
      )
      refl
