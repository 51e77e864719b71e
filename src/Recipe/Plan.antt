-- ===== src/Recipe/Plan.antt =====
-- Compiling a recipe: `compile_plan` and `order_check` of crates/gpui-agent-recipe/src/plan.rs.
-- `fingerprint_plan` hashes serde's text of the steps and is a parameter.
pub mod Schedule
pub mod Compiles
use gpui_agent.Base.{
  ℕ, zero, suc, ◌-◌, String, Bool, true, false, Option, none, some, List, [], ◌∷◌, map, ◌==◌,
  nat_eq, any, all, filter, ◌&&◌, string_eq, if◌then◌else◌, not,
}
use mathlib.Core.List.{reverse}
use gpui_agent.Base.Text.{codes}
use gpui_agent.Base.Map.{Map}
use gpui_agent.Base.Set
use gpui_agent.Error.{Error, Result, ok, err, ◌>>=◌, ◌>>◌}
use gpui_agent.Keybinding.{is_quit_binding}
use gpui_agent.Protocol.{Op, KeybindingRequest}
use gpui_agent.Recipe.{Recipe, RecipeStep}
use gpui_agent.Recipe.Registry
use gpui_agent.Recipe.Registry.{Registry, OpSchema, SchemaKind, Effect, effect_eq}
use gpui_agent.Recipe.Check.{validate_recipe, apply_params}
use gpui_agent.Recipe.Plan.Schedule.{schedule, id_at, step_at, is_implicit}

pub record PlannedStep : Type 0 where
  pub id : String
  pub op : Op
  pub needs : List String
  pub screenshot : Bool
  pub effects : List Effect
  pub schema : Option String
  pub idempotent : Bool

pub record Plan : Type 0 where
  pub name : String
  pub app : Option String
  pub steps : List PlannedStep
  pub waves : List (List String)
  pub effects : List Effect
  pub requires_yes : Bool
  pub fingerprint : String

pub record OrderCheck : Type 0 where
  pub order_dependent : Bool
  pub forward_waves : List (List String)
  pub reverse_waves : List (List String)

abbrev pub Annotation : Type 0
Annotation = Option String × List Effect × Bool

abbrev pub of_schema : OpSchema → Annotation
of_schema schema = (some schema.name, schema.effects, schema.idempotent)

abbrev pub of_found : Option OpSchema → Annotation
of_found none = (none, Effect.write ∷ [], false)
of_found (some schema) = of_schema schema

unfoldable pub lookup : String → Registry → Annotation
unfolding Registry.get
lookup name registry = of_found (Registry.get name registry)

abbrev pub of_keybinding : KeybindingRequest → Annotation → Annotation
of_keybinding r (name, effects, idempotent) =
    if is_quit_binding (codes r.binding)
    then (name, Effect.exit ∷ [], idempotent)
    else (name, effects, idempotent)

abbrev pub of_invoke : Option OpSchema → Registry → Annotation
of_invoke none registry = lookup "invoke" registry
of_invoke (some schema) registry = elim schema.kind [
  | SchemaKind.invoke ↦ of_schema schema
  | SchemaKind.protocol ↦ lookup "invoke" registry
  | SchemaKind.id ↦ lookup "invoke" registry
]

unfoldable pub annotate : Op → Registry → Annotation
unfolding lookup is_quit_binding Registry.get
annotate Op.hello registry = lookup "hello" registry
annotate (Op.wait ms) registry = lookup "wait" registry
annotate (Op.wait_until ms spec) registry = lookup "wait_until" registry
annotate (Op.snapshot since format bounds) registry = lookup "snapshot" registry
annotate Op.revision registry = lookup "revision" registry
annotate (Op.click target delivery fp) registry = lookup "click" registry
annotate (Op.type target text delivery fp) registry = lookup "type" registry
annotate (Op.set_value target value fp) registry = lookup "set_value" registry
annotate (Op.key target pressed delivery fp) registry = lookup "key" registry
annotate (Op.keybinding r) registry = of_keybinding r (lookup "keybinding" registry)
annotate Op.keybindings registry = lookup "keybindings" registry
annotate (Op.events cursor limit) registry = lookup "events" registry
annotate (Op.assert spec) registry = lookup "assert" registry
annotate (Op.screenshot spec) registry = lookup "screenshot" registry
annotate Op.shutdown registry = lookup "shutdown" registry
annotate (Op.invoke name args) registry = of_invoke (Registry.get name registry) registry

-- The needs that the plan shows: in an implicit sequence each step needs the one before it.
abbrev pub shown_needs : Bool → List RecipeStep → ℕ → RecipeStep → List String
shown_needs true steps zero step = []
shown_needs true steps (suc i) step = id_at steps i ∷ []
shown_needs false steps i step = step.needs

abbrev pub annotated : List String → RecipeStep → Annotation → PlannedStep
annotated needs step (schema, effects, idempotent) = record {
  id = step.id;
  op = step.op;
  needs = needs;
  screenshot = step.screenshot;
  effects = effects;
  schema = schema;
  idempotent = idempotent;
}

abbrev pub planned_step : List RecipeStep → Registry → ℕ → RecipeStep → PlannedStep
planned_step steps registry i step =
    annotated (shown_needs (is_implicit steps) steps i step) step (annotate step.op registry)

abbrev pub planned_at :
    List RecipeStep → Registry → ℕ → Option RecipeStep → List PlannedStep → List PlannedStep
planned_at steps registry i none rest = rest
planned_at steps registry i (some step) rest = planned_step steps registry i step ∷ rest

unfoldable pub planned_steps : List RecipeStep → Registry → List ℕ → List PlannedStep
unfolding annotate id_at step_at
planned_steps steps registry [] = []
planned_steps steps registry (i ∷ ordered) =
    planned_at steps registry i (step_at steps i) (planned_steps steps registry ordered)

abbrev pub has_effect : Effect → List PlannedStep → Bool
has_effect e steps = any (λ step. any (λ f. f == e) step.effects) steps

-- The set of all effects, in order.
abbrev pub all_effects : List PlannedStep → List Effect
all_effects steps = filter (λ e. has_effect e steps) (Effect.read ∷ Effect.write ∷ Effect.exit ∷ [])

-- The recipe with its parameters, or the recipe itself if it has none.
abbrev pub bind : List String → Recipe → Map String → Result Recipe
bind [] recipe set = ok recipe
bind (p ∷ ps) recipe set = apply_params recipe set

-- `BTreeSet::from_iter`
unfoldable pub to_set : List String → List String
unfolding Set.insert
to_set [] = []
to_set (k ∷ ks) = Set.insert k (to_set ks)

abbrev set_beq : List String → List String → Bool
set_beq [] [] = true
set_beq [] (b ∷ bs) = false
set_beq (a ∷ rest) [] = false
set_beq (a ∷ rest) (b ∷ bs) = a == b && set_beq rest bs

abbrev sets_beq : List (List String) → List (List String) → Bool
sets_beq [] [] = true
sets_beq [] (b ∷ bs) = false
sets_beq (a ∷ rest) [] = false
sets_beq (a ∷ rest) (b ∷ bs) = set_beq a b && sets_beq rest bs

module _ (fingerprint_plan : String → List PlannedStep → String) where
  abbrev pub plan_of : Recipe → Registry → List ℕ × List (List String) → Plan
  plan_of bound registry (ordered, waves) =
      let steps = planned_steps bound.steps registry ordered in
      record {
        name = bound.name;
        app = bound.app;
        steps = steps;
        waves = waves;
        effects = all_effects steps;
        requires_yes = has_effect Effect.exit steps;
        fingerprint = fingerprint_plan bound.name steps;
      }

  unfoldable pub compile_plan : Recipe → Map String → Registry → Result Plan
  unfolding validate_recipe apply_params schedule planned_steps
  compile_plan recipe set registry = do
    validate_recipe recipe registry
    bound ← bind recipe.params recipe set
    order ← schedule bound.steps
    ok (plan_of bound registry order)

  unfoldable pub order_check : Recipe → Map String → Registry → Result OrderCheck
  unfolding compile_plan to_set
  order_check recipe set registry = do
    forward ← compile_plan recipe set registry
    backward ← compile_plan (record recipe { steps = reverse recipe.steps }) set registry
    ok record {
      order_dependent = not (sets_beq (map to_set forward.waves) (map to_set backward.waves));
      forward_waves = forward.waves;
      reverse_waves = backward.waves;
    }
