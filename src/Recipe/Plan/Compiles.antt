-- ===== src/Recipe/Plan/Compiles.antt =====
-- Which recipes `compile_plan` compiles, plan.rs.
use gpui_agent.Base.{
  ℕ, ◌<◌, ◌≡◌, refl, sym, ap, ◌∙◌, subst, String, true, List, [], ◌∷◌, map, arith, All, All-map,
  All-zip,
}
use gpui_agent.Base.Map.{Map}
use gpui_agent.Base.Set
use gpui_agent.Error.{ok, is_ok}
use gpui_agent.Recipe.{Recipe, RecipeStep}
use gpui_agent.Recipe.Registry.{Registry}
use gpui_agent.Recipe.Params.Bound.{IsBound}
use gpui_agent.Recipe.Check.{validate_recipe}
use gpui_agent.Recipe.Check.Applies.{graph, graph-expanded, expanded_step, apply_params-validated}
use gpui_agent.Recipe.Check.Valid.{IsAccepted, IsKnownNeed, validate_recipe-IsValid}
use gpui_agent.Recipe.Plan.{PlannedStep, bind, compile_plan}
use gpui_agent.Recipe.Plan.Schedule.Complete.{IsOrdered, schedule-IsOrdered}

-- What is said of ids and needs is said of the graph.
graph-All :
    (P : String → List String → Type 0) (steps : List RecipeStep)
    → All (λ step. P step.id step.needs) steps
    → All (λ g. P g.0 g.1) (map graph steps)
graph-All P [] h = tt
graph-All P (step ∷ steps) (h, rest) = (h, graph-All P steps rest)

All-graph :
    (P : String → List String → Type 0) (steps : List RecipeStep)
    → All (λ g. P g.0 g.1) (map graph steps)
    → All (λ step. P step.id step.needs) steps
All-graph P [] h = tt
All-graph P (step ∷ steps) (h, rest) = (h, All-graph P steps rest)

ids-graph :
    (steps : List RecipeStep) → map (λ g. g.0) (map graph steps) ≡ map (λ step. step.id) steps
ids-graph [] = refl
ids-graph (step ∷ steps) = ap (◌∷◌ step.id) (ids-graph steps)

abbrev Stands : (String → ℕ) → List String → String → List String → Type 0
Stands rank ids id needs =
    All (λ need. (Set.contains need ids ≡ true) × (rank need < rank id)) needs

IsOrdered-graph :
    (rank : String → ℕ) (old new : List RecipeStep)
    → map graph new ≡ map graph old
    → IsOrdered rank old
    → IsOrdered rank new
IsOrdered-graph rank old new same h =
    let ids = sym (ids-graph old) ∙ ap (map (λ g. g.0)) (sym same) ∙ ids-graph new in
    let here = subst (λ names. All (λ step. Stands rank names step.id step.needs) old) ids h in
    let names = map (λ step. step.id) new in
    All-graph (Stands rank names) new (
      subst (All (λ g. Stands rank names g.0 g.1)) (sym same)
        (graph-All (Stands rank names) old here))

-- A rank of the names under which each step stands above its needs.
abbrev pub IsAcyclic : (String → ℕ) → List RecipeStep → Type 0
IsAcyclic rank = All (λ step. All (λ need. rank need < rank step.id) step.needs)

valid-IsOrdered :
    (rank : String → ℕ) (recipe : Recipe) (registry : Registry)
    → validate_recipe recipe registry ≡ ok tt
    → IsAcyclic rank recipe.steps
    → IsOrdered rank recipe.steps
valid-IsOrdered rank recipe registry h low =
    let ids = map (λ step. step.id) recipe.steps in
    let valid = validate_recipe-IsValid recipe registry h in
    let less = λ (id need : String). rank need < rank id in
    All-map (λ step. IsAccepted ids recipe.params registry step × All (less step.id) step.needs)
      (λ step. Stands rank ids step.id step.needs) recipe.steps
      (λ step both.
        All-map (λ need. IsKnownNeed ids step.id need × less step.id need)
          (λ need. (Set.contains need ids ≡ true) × less step.id need) step.needs
          (λ need m. (m.0.1, m.1))
          (All-zip (IsKnownNeed ids step.id) (less step.id) step.needs both.0.0 both.1))
      (All-zip (IsAccepted ids recipe.params registry) (λ step. All (less step.id) step.needs)
        recipe.steps valid.accepted low)

bind-IsOrdered :
    (params : List String) (rank : String → ℕ) (recipe : Recipe) (set : Map String)
    (registry : Registry)
    → validate_recipe recipe registry ≡ ok tt
    → All (IsBound set) recipe.params
    → IsOrdered rank recipe.steps
    → (bound : Recipe) × (bind params recipe set ≡ ok bound) × IsOrdered rank bound.steps
bind-IsOrdered [] rank recipe set registry h b low = (recipe, refl, low)
bind-IsOrdered (p ∷ ps) rank recipe set registry h b low =
    let steps = map (expanded_step set) recipe.steps in
    (
      record recipe { steps = steps },
      apply_params-validated recipe registry set h b,
      IsOrdered-graph rank recipe.steps steps (graph-expanded set recipe.steps) low,
    )

module _ (fingerprint_plan : String → List PlannedStep → String) where
  -- A recipe that `validate_recipe` accepts compiles to a plan when each of its parameters is set
  -- and its needs are acyclic, that is, when some rank of the names falls along every need.
  pub compile_plan-compiles :
      (recipe : Recipe) (set : Map String) (registry : Registry) (rank : String → ℕ)
      → validate_recipe recipe registry ≡ ok tt
      → All (IsBound set) recipe.params
      → IsAcyclic rank recipe.steps
      → is_ok (compile_plan fingerprint_plan recipe set registry) ≡ true
  unfolding compile_plan
  compile_plan-compiles recipe set registry rank h b low =
      let ordered = valid-IsOrdered rank recipe registry h low in
      let (bound, e, fine) = bind-IsOrdered recipe.params rank recipe set registry h b ordered in
      ground (arith, h, e, schedule-IsOrdered bound.steps rank fine)
