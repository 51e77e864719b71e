-- ===== src/Recipe/Check/Valid.antt =====
-- Which recipes `validate_recipe` accepts, recipe.rs.
use gpui_agent.Base.{
  ◌≤◌, ◌≡◌, refl, sym, ap, ◌∙◌, String, Bool, true, false, some, List, [], ◌∷◌, map, ◌==◌, ◌||◌,
  nat_eq, string_eq, arith, length, inl, inr, Option-cases, All, All-map,
}
use gpui_agent.Base.Text.{codes}
use gpui_agent.Base.Set
use gpui_agent.Error.{ok-injective, ok, >>-eq-ok, >>=-eq-ok}
use gpui_agent.Protocol.{Op}
use gpui_agent.Recipe.{Recipe, RecipeStep, recipe_format_version, max_recipe_steps}
use gpui_agent.Recipe.Registry.{Registry, OpSchema, SchemaKind}
use gpui_agent.Recipe.Registry
use gpui_agent.Recipe.Check.Applies.{Declared, validate-Declared}
use gpui_agent.Keybinding.{is_quit_binding}
use gpui_agent.Recipe.Params.{string_has_placeholder}
use gpui_agent.Recipe.Check.{
  is_blank, check_schema, check_ids, check_needs, check_op, check_steps, check_header,
  validate_recipe, validate_placeholders_declared,
}

-- The name of a step: not blank, without parameters, and not among those before it.
abbrev IsNamed : String → List String → Type 0
IsNamed id seen =
    (is_blank id ≡ false) × (string_has_placeholder id ≡ false) × (Set.contains id seen ≡ false)

-- No two steps have one name. `seen` are the names so far.
abbrev pub AreNamed : List RecipeStep → List String → Type 0
AreNamed [] seen = Unit
AreNamed (step ∷ steps) seen = IsNamed step.id seen × AreNamed steps (Set.insert step.id seen)

abbrev pub IsKnownNeed : List String → String → String → Type 0
IsKnownNeed ids id need =
    (string_has_placeholder need ≡ false) × (Set.contains need ids ≡ true) × ((need == id) ≡ false)

abbrev ids_of : List RecipeStep → List String
ids_of = map (λ step. step.id)

check_ids-ids :
    (steps : List RecipeStep) (seen ids : List String)
    → check_ids steps seen ≡ ok ids
    → AreNamed steps seen
      × ((k : String) → Set.contains k ids ≡ (Set.contains k (ids_of steps) || Set.contains k seen))
unfolding check_ids Set.contains
check_ids-ids [] seen ids h = (tt, λ k. ap (Set.contains k) (ok-injective _ _ (sym h)))
check_ids-ids (step ∷ steps) seen ids h =
    let named : IsNamed step.id seen = ground arith in
    let more : check_ids steps (Set.insert step.id seen) ≡ ok ids = ground arith in
    let (fine, same) = check_ids-ids steps (Set.insert step.id seen) ids more in
    ((named, fine), λ k. ground (arith, same k, Set.contains-insert k step.id seen))

check_needs-known :
    (id : String) (needs ids : List String)
    → check_needs id needs ids ≡ ok tt
    → All (IsKnownNeed ids id) needs
unfolding check_needs
check_needs-known id [] ids h = tt
check_needs-known id (need ∷ needs) ids h =
    let known : IsKnownNeed ids id need = ground arith in
    let rest : check_needs id needs ids ≡ ok tt = ground arith in
    (known, check_needs-known id needs ids rest)

-- A keybinding that quits carries its confirmation, and an invocation has a contract.
abbrev pub IsAllowed : Registry → Op → Type 0
IsAllowed registry (Op.keybinding r) = is_quit_binding (codes r.binding) ≡ true → r.confirm ≡ true
IsAllowed registry (Op.invoke name args) =
    (schema : OpSchema) × (Registry.get name registry ≡ some schema)
    × (schema.kind ≡ SchemaKind.invoke)
IsAllowed registry _ = Unit

invoke_kind :
    (name : String) (schema : OpSchema)
    → check_schema name (some schema) ≡ ok tt
    → schema.kind ≡ SchemaKind.invoke
invoke_kind name schema h = ground arith

check_op-IsAllowed :
    (op : Op) (registry : Registry) → check_op op registry ≡ ok tt → IsAllowed registry op
unfolding check_op
check_op-IsAllowed (Op.keybinding r) registry h = λ quit. ground (arith, quit)
check_op-IsAllowed (Op.invoke name args) registry h =
    elim (Option-cases (Registry.get name registry)) [
      | inl e ↦ cc (sym h ∙ ap (check_schema name) e)
      | inr (schema, e) ↦ (schema, e, invoke_kind name schema (sym (ap (check_schema name) e) ∙ h))
    ]
check_op-IsAllowed Op.hello registry h = tt
check_op-IsAllowed Op.revision registry h = tt
check_op-IsAllowed Op.keybindings registry h = tt
check_op-IsAllowed Op.shutdown registry h = tt
check_op-IsAllowed (Op.snapshot a b c) registry h = tt
check_op-IsAllowed (Op.events a b) registry h = tt
check_op-IsAllowed (Op.click a b c) registry h = tt
check_op-IsAllowed (Op.type a b c d) registry h = tt
check_op-IsAllowed (Op.set_value a b c) registry h = tt
check_op-IsAllowed (Op.key a b c d) registry h = tt
check_op-IsAllowed (Op.assert spec) registry h = tt
check_op-IsAllowed (Op.wait ms) registry h = tt
check_op-IsAllowed (Op.wait_until ms spec) registry h = tt
check_op-IsAllowed (Op.screenshot spec) registry h = tt

abbrev pub IsAccepted : List String → List String → Registry → RecipeStep → Type 0
IsAccepted ids params registry step =
    All (IsKnownNeed ids step.id) step.needs
    × (Declared params step.op × IsAllowed registry step.op)

check_steps-IsAccepted :
    (steps : List RecipeStep) (ids params : List String) (registry : Registry)
    → check_steps steps ids params registry ≡ ok tt
    → All (IsAccepted ids params registry) steps
unfolding check_steps
check_steps-IsAccepted [] ids params registry h = tt
check_steps-IsAccepted (step ∷ steps) ids params registry h =
    let (needs, h1) = >>-eq-ok (check_needs step.id step.needs ids) _ h in
    let (declared, h2) = >>-eq-ok (validate_placeholders_declared step.op params) _ h1 in
    let (op, rest) = >>-eq-ok (check_op step.op registry) _ h2 in
    (
      (
        check_needs-known step.id step.needs ids needs,
        (validate-Declared step.op params declared, check_op-IsAllowed step.op registry op),
      ),
      check_steps-IsAccepted steps ids params registry rest,
    )

or-none : (k : String) (b : Bool) → (b || Set.contains k []) ≡ b
unfolding Set.contains
or-none k true = refl
or-none k false = refl

IsAccepted-same :
    (ids names params : List String) (registry : Registry) (step : RecipeStep)
    → ((k : String) → Set.contains k ids ≡ Set.contains k names)
    → IsAccepted ids params registry step
    → IsAccepted names params registry step
IsAccepted-same ids names params registry step same (needs, rest) = (
  All-map (IsKnownNeed ids step.id) (IsKnownNeed names step.id) step.needs
      (λ need (fresh, known, other). (fresh, sym (same need) ∙ known, other)) needs,
  rest,
)

header-facts :
    (recipe : Recipe)
    → check_header recipe ≡ ok tt
    → (recipe.v ≡ recipe_format_version)
      × ((is_blank recipe.name ≡ false)
          × ((1 ≤ length recipe.steps) × (length recipe.steps ≤ max_recipe_steps)))
unfolding check_header
header-facts recipe h = ground arith

pub record IsValid (recipe : Recipe) (registry : Registry) : Type 0 where
  pub version : recipe.v ≡ recipe_format_version
  pub titled : is_blank recipe.name ≡ false
  pub some_steps : 1 ≤ length recipe.steps
  pub few_steps : length recipe.steps ≤ max_recipe_steps
  pub named : AreNamed recipe.steps []
  pub accepted : All (IsAccepted (ids_of recipe.steps) recipe.params registry) recipe.steps

-- A recipe that `validate_recipe` accepts has version 1, a name, 1 to 256 steps with ids that are
-- distinct, not blank and without parameters; each need is the id of another step; each placeholder
-- is declared; a keybinding that quits is confirmed, and each invoke has a schema of that kind.
pub validate_recipe-IsValid :
    (recipe : Recipe) (registry : Registry)
    → validate_recipe recipe registry ≡ ok tt
    → IsValid recipe registry
unfolding validate_recipe
validate_recipe-IsValid recipe registry h =
    let (header, h1) = >>-eq-ok (check_header recipe) _ h in
    let (ids, i, checked) =
      >>=-eq-ok (check_ids recipe.steps [])
        (λ ids. check_steps recipe.steps ids recipe.params registry) h1 in
    let (named, same) = check_ids-ids recipe.steps [] ids i in
    let (version, (titled, (some_steps, few_steps))) = header-facts recipe header in
    record {
      version = version;
      titled = titled;
      some_steps = some_steps;
      few_steps = few_steps;
      named = named;
      accepted =
          All-map (IsAccepted ids recipe.params registry)
            (IsAccepted (ids_of recipe.steps) recipe.params registry) recipe.steps
            (λ step.
              IsAccepted-same ids (ids_of recipe.steps) recipe.params registry step
                (λ k. same k ∙ or-none k (Set.contains k (ids_of recipe.steps))))
            (check_steps-IsAccepted recipe.steps ids recipe.params registry checked);
    }
