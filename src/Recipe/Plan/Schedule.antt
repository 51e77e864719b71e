-- ===== src/Recipe/Plan/Schedule.antt =====
-- The order of the steps: `schedule` of crates/gpui-agent-recipe/src/plan.rs, Kahn's algorithm in
-- waves.
pub mod Edges
pub mod Waves
pub mod Order
pub mod Sound
pub mod Correct
pub mod Complete
use gpui_agent.Base.{
  ℕ, zero, suc, ◌+◌, ◌-◌, String, Bool, true, false, Option, none, some, List, [], ◌∷◌, ◌++◌, map,
  ◌==◌, nat_eq, all, if◌then◌else◌, length,
}
use gpui_agent.Base.Map
use gpui_agent.Base.Map.{Map, str_lt}
use gpui_agent.Base.Vec.{get_or, modify, replicate}
use gpui_agent.Error.{Error, Result, ok, err, ◌>>=◌}
use gpui_agent.Recipe.{RecipeStep}

-- `steps.get(i)`, and `steps[i].id` for an index in range
unfoldable pub step_at : List RecipeStep → ℕ → Option RecipeStep
step_at [] i = none
step_at (step ∷ steps) zero = some step
step_at (step ∷ steps) (suc i) = step_at steps i

unfoldable pub id_at : List RecipeStep → ℕ → String
id_at [] i = ""
id_at (step ∷ steps) zero = step.id
id_at (step ∷ steps) (suc i) = id_at steps i

abbrev pub is_empty {ℓ} : {A : Type ℓ} → List A → Bool
is_empty [] = true
is_empty (x ∷ xs) = false

-- No step has needs: the steps are a sequence.
abbrev pub is_implicit : List RecipeStep → Bool
is_implicit steps = all (λ step. is_empty step.needs) steps

unfoldable pub index_from : ℕ → List RecipeStep → Map ℕ → Map ℕ
unfolding Map.insert
index_from i [] m = m
index_from i (step ∷ steps) m = index_from (suc i) steps (Map.insert step.id i m)

pub record Graph : Type 0 where
  pub indegree : List ℕ
  pub adj : List (List ℕ)

abbrev add_edge : ℕ → ℕ → Graph → Graph
add_edge j i g = record {
  indegree = modify i (λ d. d + 1) g.indegree;
  adj = modify j (λ v. v ++ i ∷ []) g.adj;
}

abbrev pub with_need {ℓ} : {A : Type ℓ} → String → Option ℕ → (ℕ → Result A) → Result A
with_need need none rest = err (Error.unknown_need need)
with_need need (some j) rest = rest j

unfoldable pub add_needs : Map ℕ → ℕ → List String → Graph → Result Graph
unfolding Map.get
add_needs index i [] g = ok g
add_needs index i (need ∷ needs) g =
    with_need need (Map.get need index) (λ j. add_needs index i needs (add_edge j i g))

unfoldable pub add_steps : Map ℕ → ℕ → List RecipeStep → Graph → Result Graph
unfolding add_needs
add_steps index i [] g = ok g
add_steps index i (step ∷ steps) g = do
  h ← add_needs index i step.needs g
  add_steps index (suc i) steps h

unfoldable pub zeros_from : ℕ → List ℕ → List ℕ
zeros_from i [] = []
zeros_from i (d ∷ ds) = let rest = zeros_from (suc i) ds in if d == 0 then i ∷ rest else rest

-- `sort_by_key`, which is stable
unfoldable pub place : List RecipeStep → ℕ → List ℕ → List ℕ
unfolding id_at
place steps i [] = i ∷ []
place steps i (j ∷ js) =
    let rest = j ∷ place steps i js in
    if str_lt (id_at steps j) (id_at steps i) then rest else i ∷ j ∷ js

unfoldable pub sort_by_id : List RecipeStep → List ℕ → List ℕ
unfolding place
sort_by_id steps [] = []
sort_by_id steps (i ∷ is) = place steps i (sort_by_id steps is)

-- The steps that wait for a finished one: `indegree` and `next` after the inner loop.
unfoldable pub relax : List ℕ → List ℕ → List ℕ → List ℕ × List ℕ
relax [] indegree next = (indegree, next)
relax (j ∷ js) indegree next =
    let lowered = modify j (λ d. d - 1) indegree in
    relax js lowered (if get_or lowered j 1 == 0 then next ++ j ∷ [] else next)

pub record Progress : Type 0 where
  pub indegree : List ℕ
  pub ordered : List ℕ
  pub remaining : ℕ

abbrev finish : ℕ → Progress → List ℕ → Progress
finish i p indegree = record {
  indegree = indegree;
  ordered = p.ordered ++ i ∷ [];
  remaining = p.remaining - 1;
}

unfoldable pub run_wave : List (List ℕ) → List ℕ → List ℕ → Progress → Progress × List ℕ
unfolding relax
run_wave adj [] next p = (p, next)
run_wave adj (i ∷ wave) next p =
    let (indegree, more) = relax (get_or adj i []) p.indegree next in
    run_wave adj wave more (finish i p indegree)

-- `while !ready.is_empty()`, on fuel: the progress, the waves and what is still ready.
unfoldable pub run_waves :
    List RecipeStep
    → List (List ℕ)
    → ℕ
    → List ℕ
    → List (List String)
    → Progress
    → Progress × List (List String) × List ℕ
unfolding sort_by_id run_wave id_at
run_waves steps adj zero ready waves p = (p, waves, ready)
run_waves steps adj (suc fuel) [] waves p = (p, waves, [])
run_waves steps adj (suc fuel) (i ∷ is) waves p =
    let wave = sort_by_id steps (i ∷ is) in
    let (after, next) = run_wave adj wave [] p in
    run_waves steps adj fuel next (waves ++ map (id_at steps) wave ∷ []) after

abbrev ended : Progress × List (List String) × List ℕ → Result (List ℕ × List (List String))
ended (p, waves, ready) =
    if p.remaining == 0 then ok (p.ordered, waves) else err Error.dependency_cycle

abbrev pub range_from : ℕ → ℕ → List ℕ
range_from i zero = []
range_from i (suc n) = i ∷ range_from (suc i) n

-- The state in which the loop begins
abbrev initial : List RecipeStep → Graph → Progress
initial steps g = record { indegree = g.indegree; ordered = []; remaining = length steps }

abbrev pub no_edges : List RecipeStep → Graph
no_edges steps = record { indegree = replicate (length steps) 0; adj = replicate (length steps) [] }

-- Each round of the loop takes a step at least, so one round more than there are steps will do.
unfoldable pub run_graph : List RecipeStep → Graph → Progress × List (List String) × List ℕ
unfolding run_waves zeros_from
run_graph steps g =
    run_waves steps g.adj (suc (length steps)) (zeros_from 0 g.indegree) [] (initial steps g)

-- The part for a recipe with needs
unfoldable pub schedule_needs : List RecipeStep → Result (List ℕ × List (List String))
unfolding index_from add_steps run_graph
schedule_needs steps =
    add_steps (index_from 0 steps []) 0 steps (no_edges steps) >>= λ g. ended (run_graph steps g)

unfoldable pub schedule : List RecipeStep → Result (List ℕ × List (List String))
unfolding schedule_needs
schedule steps =
    if is_implicit steps
    then ok (range_from 0 (length steps), map (λ step. step.id ∷ []) steps)
    else schedule_needs steps
