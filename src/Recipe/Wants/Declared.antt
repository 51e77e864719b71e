-- ===== src/Recipe/Wants/Declared.antt =====
-- What `parse_wants` makes: recipe.rs.
use gpui_agent.Base.{
  ℕ, suc, ◌≤◌, ◌≡◌, refl, sym, ap, ◌∙◌, subst, String, Bool, true, Option, none, List, [], ◌∷◌,
  ◌==◌, ◌||◌, string_eq, arith, length, any, All, All-map, All-append, inl, inr, if-both, nat_eq,
}
use text.Mathlib.TextEquality.{eq_iff}
use gpui_agent.Base.Set
use gpui_agent.Error.{ok-injective, Result, ok, err, Result-cases, >>=-eq-ok, ◌>>=◌, map_ok}
use gpui_agent.Json.{Value}
use gpui_agent.Protocol.{Op}
use gpui_agent.Recipe.{Recipe, RecipeStep, recipe_format_version}
use gpui_agent.Recipe.Params.{collect_placeholders_in_op}
use gpui_agent.Recipe.Params.Collected.{op-Adds}
use gpui_agent.Recipe.Check.Applies.{Declared}
use gpui_agent.Recipe.Wants.{
  Wanted, add_step, wants_step, parse_wants_step, at_line, wants_tokens, is_comment, wants_line,
  wants_lines, wanted_recipe, parse_wants,
}
use gpui_agent.Recipe.Wants.Tokens.{tokenize, lines}
use gpui_agent.Todo.Strings.{trim_string}

any-contains :
    (name : String) (params : List String) → any (λ p. p == name) params ≡ Set.contains name params
unfolding Set.contains
any-contains name [] = refl
any-contains name (p ∷ params) = ap (λ b. p == name || b) (any-contains name params)

-- Each placeholder of the operation is in the set.
abbrev Within : List String → Op → Type 0
Within params op = All (λ name. Set.contains name params ≡ true) (collect_placeholders_in_op op [])

contains_front :
    (xs : List String) (x k : String) → Set.contains k xs ≡ true → Set.contains k (x ∷ xs) ≡ true
unfolding Set.contains
contains_front xs x k h = ground (arith, h)

All-contains : (xs : List String) → All (λ x. Set.contains x xs ≡ true) xs
unfolding Set.contains
All-contains [] = tt
All-contains (x ∷ xs) = (
  ground (arith, (eq_iff x x).1 refl),
  All-map (λ y. Set.contains y xs ≡ true) (λ y. Set.contains y (x ∷ xs) ≡ true) xs
      (λ y h. contains_front xs x y h) (All-contains xs),
)

-- The steps need nothing, and the parameters cover their placeholders.
abbrev IsCovered : Wanted → Type 0
IsCovered w = All (λ step. (step.needs ≡ []) × Within w.params step.op) w.steps

Within-more :
    (op : Op) (params : List String) (step : RecipeStep)
    → (step.needs ≡ []) × Within params step.op
    → (step.needs ≡ []) × Within (collect_placeholders_in_op op params) step.op
Within-more op params step (bare, within) = (
  bare,
  All-map (λ name. Set.contains name params ≡ true)
      (λ name. Set.contains name (collect_placeholders_in_op op params) ≡ true)
      (collect_placeholders_in_op step.op []) (λ name h. ground (arith, h, op-Adds op name params))
      within,
)

Within-new : (op : Op) (params : List String) → Within (collect_placeholders_in_op op params) op
Within-new op params =
    let own = collect_placeholders_in_op op [] in
    All-map (λ name. Set.contains name own ≡ true)
      (λ name. Set.contains name (collect_placeholders_in_op op params) ≡ true) own
      (λ name h. ground (arith, h, op-Adds op name params)) (All-contains own)

Within-Declared : (params : List String) (op : Op) → Within params op → Declared params op
Within-Declared params op within =
    All-map (λ name. Set.contains name params ≡ true) (λ name. any (λ p. p == name) params ≡ true)
      (collect_placeholders_in_op op []) (λ name h. any-contains name params ∙ h) within

add_step-IsCovered :
    (w : Wanted) (step : RecipeStep) → step.needs ≡ [] → IsCovered w → IsCovered (add_step w step)
add_step-IsCovered w step bare h =
    let params = collect_placeholders_in_op step.op w.params in
    let P = λ (s : RecipeStep). (s.needs ≡ []) × Within params s.op in
    All-append P w.steps (step ∷ [])
      (All-map (λ s. (s.needs ≡ []) × Within w.params s.op) P w.steps
        (λ s. Within-more step.op w.params s) h)
      ((bare, Within-new step.op w.params), tt)

-- So it is after lines that were read without an error.
abbrev Covers : Result Wanted → Type 0
Covers (err e) = Unit
Covers (ok w) = IsCovered w

module _ (from_json : String → Option Value) where
  added-Covers :
      (n : ℕ) (w : Wanted) (id : String) (shot : Bool) (r : Result Op)
      → IsCovered w
      → Covers (map_ok (add_step w) (at_line from_json n (map_ok (wants_step from_json id shot) r)))
  added-Covers n w id shot (err e) h = tt
  added-Covers n w id shot (ok op) h = add_step-IsCovered w (wants_step from_json id shot op) refl h

  tokens-Covers :
      (n : ℕ) (w : Wanted) (tokens : List String)
      → IsCovered w
      → Covers (wants_tokens from_json n w tokens)
  unfolding parse_wants_step
  tokens-Covers n w [] h = h
  tokens-Covers n w (t ∷ ts) h = added-Covers n w _ _ _ h

  line-Covers :
      (n : ℕ) (line : String) (w : Wanted) → IsCovered w → Covers (wants_line from_json n line w)
  unfolding wants_line
  line-Covers n line w h =
      let parsed : Covers (tokenize line >>= wants_tokens from_json n w) =
        elim (Result-cases (tokenize line)) [
          | inl (tokens, e) ↦
              subst (λ r. Covers (r >>= wants_tokens from_json n w)) (sym e)
                (tokens-Covers n w tokens h)
          | inr (error, e) ↦ subst (λ r. Covers (r >>= wants_tokens from_json n w)) (sym e) tt
        ] in
      if-both Covers (is_comment from_json line) h parsed

  lines-Covers :
      (n : ℕ) (raw : List String) (w : Wanted)
      → IsCovered w
      → Covers (wants_lines from_json n raw w)
  unfolding wants_lines
  lines-Covers n [] w h = h
  lines-Covers n (line ∷ rest) w h =
      let motive =
        λ (r : Result Wanted). Covers (r >>= λ more. wants_lines from_json (suc n) rest more) in
      let read = line-Covers n (trim_string line) w h in
      elim (Result-cases (wants_line from_json n (trim_string line) w)) [
        | inr (error, e) ↦ subst motive (sym e) tt
        | inl (more, e) ↦
            subst motive (sym e) (lines-Covers (suc n) rest more (subst Covers e read))
      ]

  made-Declared :
      (name : String) (w : Wanted) (steps : List RecipeStep) (recipe : Recipe)
      → wanted_recipe from_json name w steps ≡ ok recipe
      → All (λ step. (step.needs ≡ []) × Declared w.params step.op) steps
      → (recipe.v ≡ recipe_format_version)
        × (1 ≤ length recipe.steps)
        × All (λ step. (step.needs ≡ []) × Declared recipe.params step.op) recipe.steps
  made-Declared name w [] recipe h all = cc
  made-Declared name w (s ∷ ss) recipe h all =
      let made : Recipe = record {
        v = recipe_format_version;
        name = name;
        app = none;
        params = w.params;
        steps = s ∷ ss;
      } in
      subst
        (λ r.
          (r.v ≡ recipe_format_version)
          × (1 ≤ length r.steps)
          × All (λ step. (step.needs ≡ []) × Declared r.params step.op) r.steps)
        (ok-injective made recipe h) (refl, omega arith, all)

  pub parse_wants-Declared :
      (text name : String) (recipe : Recipe)
      → parse_wants from_json text name ≡ ok recipe
      → (recipe.v ≡ recipe_format_version)
        × (1 ≤ length recipe.steps)
        × All (λ step. (step.needs ≡ []) × Declared recipe.params step.op) recipe.steps
  unfolding parse_wants
  parse_wants-Declared text name recipe h =
      let start : Wanted = record { steps = []; params = [] } in
      let (w, e, made) =
        >>=-eq-ok (wants_lines from_json 1 (lines text) start)
          (λ w. wanted_recipe from_json name w w.steps) h in
      let covered = subst Covers e (lines-Covers 1 (lines text) start tt) in
      made-Declared name w w.steps recipe made (
        All-map (λ step. (step.needs ≡ []) × Within w.params step.op)
          (λ step. (step.needs ≡ []) × Declared w.params step.op) w.steps
          (λ step (bare, within). (bare, Within-Declared w.params step.op within)) covered)
