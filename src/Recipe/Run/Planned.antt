-- ===== src/Recipe/Run/Planned.antt =====
-- Compiled plans, run: plan.rs and run.rs.
use gpui_agent.Base.{
  ℕ, zero, suc, ◌≤◌, ◌<◌, ◌≡◌, refl, sym, ap, subst, String, Bool, true, false, Option, none, some,
  List, [], ◌∷◌, map, ◌==◌, nat_eq, ◌||◌, string_eq, arith, length, any, find, inl, inr, Bool-cases,
}
use text.Mathlib.TextEquality.{eq_iff}
use native.Mathlib.Decide.{ℕ_discrete}
use gpui_agent.Base.Count.{count, bit_self, count-append}
use gpui_agent.Base.Map.{Map}
use gpui_agent.Base.Text.{codes}
use gpui_agent.Error.{ok, >>-eq-ok, >>=-eq-ok, ◌>>=◌}
use gpui_agent.Keybinding.{is_quit_binding}
use gpui_agent.Protocol.{Op}
use gpui_agent.Recipe.{Recipe, RecipeStep}
use gpui_agent.Recipe.Registry.{Registry, OpSchema, SchemaKind, Effect, effect_eq}
use gpui_agent.Recipe.Registry
use gpui_agent.Recipe.Check.{validate_recipe}
use gpui_agent.Recipe.Plan.{
  Plan, PlannedStep, planned_steps, planned_at, planned_step, plan_of, bind, compile_plan, annotate,
  lookup, of_found, of_invoke, has_effect,
}
use gpui_agent.Recipe.Plan.Schedule.{schedule, step_at, id_at}
use gpui_agent.Recipe.Plan.Schedule.Order.{concat}
use gpui_agent.Recipe.Plan.Schedule.Correct.{schedule-IsSchedule}
use gpui_agent.Recipe.Run.{wave_steps, run_plan_with_screenshots}
use gpui_agent.Recipe.Run.Report.{Outcome, Client, ScreenshotCapture}
use gpui_agent.Recipe.Run.Finished.{ArePlanned, IsReported, run-IsReported, run-needs_yes}

step_at-id :
    (steps : List RecipeStep) (k : ℕ)
    → k < length steps
    → (step : RecipeStep) × (step_at steps k ≡ some step) × (step.id ≡ id_at steps k)
unfolding step_at id_at
step_at-id [] k h = absurd (omega (arith, h))
step_at-id (step ∷ steps) zero h = (step, refl, refl)
step_at-id (step ∷ steps) (suc k) h = step_at-id steps k (omega (arith, h))

-- A step that is found in the rest of a plan is found in the plan.
find_more :
    (steps : List RecipeStep) (registry : Registry) (i : ℕ) (id : String) (o : Option RecipeStep)
    (rest : List PlannedStep) (found : PlannedStep)
    → find (λ step. step.id == id) rest ≡ some found
    → (first : PlannedStep) × (find (λ step. step.id == id) (planned_at steps registry i o rest)
        ≡ some first)
find_more steps registry i id none rest found h = (found, h)
find_more steps registry i id (some step) rest found h = elim (Bool-cases (step.id == id)) [
  | inl same ↦ (planned_step steps registry i step, ground (arith, same))
  | inr other ↦ (found, ground (arith, other, h))
]

find_here :
    (steps : List RecipeStep) (registry : Registry) (i : ℕ) (id : String) (step : RecipeStep)
    (rest : List PlannedStep)
    → step.id ≡ id
    → find (λ step. step.id == id) (planned_at steps registry i (some step) rest)
      ≡ some (planned_step steps registry i step)
find_here steps registry i id step rest h = ground (arith, h, (eq_iff step.id id).1 h)

-- Every step that is ordered is planned, under its id.
find-planned :
    (steps : List RecipeStep) (registry : Registry) (ordered : List ℕ) (k : ℕ)
    → 1 ≤ count k ordered
    → k < length steps
    → (found : PlannedStep) × (find
          (λ step. step.id == id_at steps k)
          (planned_steps steps registry ordered)
        ≡ some found)
unfolding planned_steps
find-planned steps registry [] k h b = absurd (omega (arith, h))
find-planned steps registry (i ∷ ordered) k h b =
    let rest = planned_steps steps registry ordered in
    let id = id_at steps k in
    elim (ℕ_discrete i k) [
      | yes e ↦
          let (step, at_k, named) = step_at-id steps k b in
          let here = subst (λ j. step_at steps j ≡ some step) (sym e) at_k in
          (
            planned_step steps registry i step,
            subst
                (λ o.
                  find (λ s. s.id == id) (planned_at steps registry i o rest)
                  ≡ some (planned_step steps registry i step))
                (sym here) (find_here steps registry i id step rest named),
          )
      | no o ↦
          let (found, e) = find-planned steps registry ordered k (ground (arith, h, o)) b in
          find_more steps registry i id (step_at steps i) rest found e
    ]

planned_wave :
    (steps : List RecipeStep) (registry : Registry) (ordered w : List ℕ)
    → ((k : ℕ) → 1 ≤ count k w → (1 ≤ count k ordered) × (k < length steps))
    → (found : List PlannedStep) × (wave_steps
          (planned_steps steps registry ordered)
          (map (id_at steps) w)
        ≡ some found)
unfolding wave_steps
planned_wave steps registry ordered [] h = ([], refl)
planned_wave steps registry ordered (k ∷ w) h =
    let (here, below) = h k (omega (arith, bit_self k)) in
    let (step, e) = find-planned steps registry ordered k here below in
    let (rest, f) = planned_wave steps registry ordered w (λ j c. h j (omega (arith, c))) in
    (step ∷ rest, ground (arith, e, f))

planned_waves :
    (steps : List RecipeStep) (registry : Registry) (ordered : List ℕ) (ws : List (List ℕ))
    → ((k : ℕ) → 1 ≤ count k (concat ws) → (1 ≤ count k ordered) × (k < length steps))
    → ArePlanned (planned_steps steps registry ordered) (map (map (id_at steps)) ws)
planned_waves steps registry ordered [] h = tt
planned_waves steps registry ordered (w ∷ ws) h = (
  planned_wave steps registry ordered w
      (λ k c. h k (omega (arith, c, count-append k w (concat ws)))),
  planned_waves steps registry ordered ws
      (λ k c. h k (omega (arith, c, count-append k w (concat ws)))),
)

module _ (fingerprint_plan : String → List PlannedStep → String) where
  -- What a compiled plan was made of.
  compiled :
      (recipe : Recipe) (set : Map String) (registry : Registry) (plan : Plan)
      → compile_plan fingerprint_plan recipe set registry ≡ ok plan
      → (bound : Recipe) × (ordered : List ℕ) × (waves : List (List String)) × (schedule bound.steps
          ≡ ok (ordered, waves))
        × (plan ≡ plan_of fingerprint_plan bound registry (ordered, waves))
  unfolding compile_plan
  compiled recipe set registry plan h =
      let (checked, h1) = >>-eq-ok (validate_recipe recipe registry) _ h in
      let (bound, b, h2) =
        >>=-eq-ok (bind recipe.params recipe set)
          (λ bound.
            schedule bound.steps >>= λ order. ok (plan_of fingerprint_plan bound registry order))
          h1 in
      let ((ordered, waves), s, h3) =
        >>=-eq-ok (schedule bound.steps)
          (λ order. ok (plan_of fingerprint_plan bound registry order)) h2 in
      (bound, ordered, waves, s, cc h3)

  compiled-ArePlanned :
      (recipe : Recipe) (set : Map String) (registry : Registry) (plan : Plan)
      → compile_plan fingerprint_plan recipe set registry ≡ ok plan
      → ArePlanned plan.steps plan.waves
  compiled-ArePlanned recipe set registry plan h =
      let (bound, ordered, waves, s, made) = compiled recipe set registry plan h in
      let (ws, good) = schedule-IsSchedule bound.steps ordered waves s in
      let inside : (k : ℕ)
          → 1 ≤ count k (concat ws)
          → (1 ≤ count k ordered) × (k < length bound.steps) =
        λ k c. ground (arith, good.once k, ap (count k) good.order) in
      let planned = planned_waves bound.steps registry ordered ws inside in
      subst (λ p. ArePlanned p.steps p.waves) (sym made)
        (subst (ArePlanned (planned_steps bound.steps registry ordered)) (sym good.names) planned)

  -- A run of a compiled plan ends in one of three ways. It finishes, and the receipt is marked ok and
  -- lists every step of the waves in their order, each ok. Or it fails at a step: the receipt is not
  -- ok, its steps are the beginning of the waves in order, and the failing step is the first that is
  -- not ok. Or it asks for `--yes`, which the plan needs and was not given.
  pub run-compiled :
      {F V C : Type 0} (client : Client F V C) (recipe : Recipe) (set : Map String)
      (registry : Registry) (plan : Plan) (yes_given : Bool) (shots : Option ScreenshotCapture)
      (c : C)
      → compile_plan fingerprint_plan recipe set registry ≡ ok plan
      → IsReported client plan yes_given (run_plan_with_screenshots client plan yes_given shots c).0
  run-compiled client recipe set registry plan yes_given shots c h =
      run-IsReported client plan yes_given shots c (compiled-ArePlanned recipe set registry plan h)

abbrev has_exit : List Effect → Bool
has_exit effects = any (λ f. f == Effect.exit) effects

abbrev found_exits : Option OpSchema → Bool
found_exits none = false
found_exits (some schema) = has_exit schema.effects

abbrev invoke_exits : Option OpSchema → Bool
invoke_exits none = false
invoke_exits (some schema) = elim schema.kind [
  | SchemaKind.invoke ↦ has_exit schema.effects
  | SchemaKind.protocol ↦ false
  | SchemaKind.id ↦ false
]

-- The registry lists `shutdown` with the effect Exit, as `protocol_registry` does.
abbrev pub lists_shutdown : Registry → Bool
lists_shutdown registry = found_exits (Registry.get "shutdown" registry)

-- An operation that ends the application: a `shutdown`, a binding that quits, and an `invoke` that is
-- registered with the effect Exit.
abbrev pub exits : Registry → Op → Bool
exits registry (Op.keybinding r) = is_quit_binding (codes r.binding)
exits registry Op.shutdown = true
exits registry (Op.invoke name args) = invoke_exits (Registry.get name registry)
exits registry _ = false

found-exits : (o : Option OpSchema) → found_exits o ≡ true → has_exit (of_found o).1 ≡ true
found-exits none h = cc
found-exits (some schema) h = h

invoke-exits :
    (o : Option OpSchema) (registry : Registry)
    → invoke_exits o ≡ true
    → has_exit (of_invoke o registry).1 ≡ true
invoke-exits none registry h = cc
invoke-exits (some schema) registry h = ground (arith, h)

exits-annotate :
    (registry : Registry) (op : Op)
    → lists_shutdown registry ≡ true
    → exits registry op ≡ true
    → has_exit (annotate op registry).1 ≡ true
unfolding annotate lookup
exits-annotate registry (Op.keybinding r) l h = rw h refl
exits-annotate registry Op.shutdown l h = found-exits (Registry.get "shutdown" registry) l
exits-annotate registry (Op.invoke name args) l h =
    invoke-exits (Registry.get name registry) registry h
exits-annotate registry op l h = cc

or_true : (b : Bool) → (b || true) ≡ true
or_true true = refl
or_true false = refl

exits_more :
    (steps : List RecipeStep) (registry : Registry) (i : ℕ) (o : Option RecipeStep)
    (rest : List PlannedStep)
    → lists_shutdown registry ≡ true
    → any (λ step. exits registry step.op) (planned_at steps registry i o rest) ≡ true
    → (any (λ step. exits registry step.op) rest ≡ true → has_effect Effect.exit rest ≡ true)
    → has_effect Effect.exit (planned_at steps registry i o rest) ≡ true
exits_more steps registry i none rest l h later = later h
exits_more steps registry i (some step) rest l h later =
    elim (Bool-cases (exits registry step.op)) [
      | inl quits ↦ rw (exits-annotate registry step.op l quits) refl
      | inr other ↦
          let more : any (λ step. exits registry step.op) rest ≡ true = rw other at h in
          rw (later more) (or_true _)
    ]

exits-planned :
    (steps : List RecipeStep) (registry : Registry) (ordered : List ℕ)
    → lists_shutdown registry ≡ true
    → any (λ step. exits registry step.op) (planned_steps steps registry ordered) ≡ true
    → has_effect Effect.exit (planned_steps steps registry ordered) ≡ true
unfolding planned_steps
exits-planned steps registry [] l h = cc
exits-planned steps registry (i ∷ ordered) l h =
    exits_more steps registry i (step_at steps i) (planned_steps steps registry ordered) l h
      (exits-planned steps registry ordered l)

module _ (fingerprint_plan : String → List PlannedStep → String) where
  -- Over a registry that lists `shutdown` with the effect Exit, a compiled plan with a step that ends
  -- the application, be it a `shutdown`, a binding that quits or an `invoke` that is registered with
  -- the effect Exit, sends nothing without `--yes`: the client is left as it was.
  pub exits-needs_yes :
      {F V C : Type 0} (client : Client F V C) (recipe : Recipe) (set : Map String)
      (registry : Registry) (plan : Plan) (shots : Option ScreenshotCapture) (c : C)
      → lists_shutdown registry ≡ true
      → compile_plan fingerprint_plan recipe set registry ≡ ok plan
      → any (λ step. exits registry step.op) plan.steps ≡ true
      → run_plan_with_screenshots client plan false shots c ≡ (Outcome.needs_yes, c)
  exits-needs_yes client recipe set registry plan shots c l h quits =
      let (bound, ordered, waves, s, made) = compiled fingerprint_plan recipe set registry plan h in
      let steps = planned_steps bound.steps registry ordered in
      let quits' = subst (λ p. any (λ step. exits registry step.op) p.steps ≡ true) made quits in
      let asks = exits-planned bound.steps registry ordered l quits' in
      run-needs_yes client plan shots c (subst (λ p. p.requires_yes ≡ true) (sym made) asks)
