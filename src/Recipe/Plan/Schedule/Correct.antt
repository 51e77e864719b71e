-- ===== src/Recipe/Plan/Schedule/Correct.antt =====
-- `schedule` lists every step once, after those that it needs, plan.rs.
use gpui_agent.Base.{
  ℕ, zero, suc, ◌+◌, ◌≤◌, ◌≡◌, refl, sym, ap, ◌∙◌, subst, String, Bool, true, List, [], ◌∷◌, ◌++◌,
  map, nat_eq, arith, length, inl, inr, Bool-cases, All, if◌then◌else◌, ltb, ◌&&◌,
}
use native.Mathlib.Nat.{zero-add, add-zero}
use gpui_agent.Base.Count.{bit, count}
use gpui_agent.Error.{Result, ok, ◌>>=◌, Result-cases}
use gpui_agent.Recipe.{RecipeStep}
use gpui_agent.Recipe.Plan.Schedule.{
  Graph, no_edges, initial, index_from, add_steps, zeros_from, run_graph, ended, schedule,
  schedule_needs, is_empty, id_at, is_implicit, range_from,
}
use gpui_agent.Recipe.Plan.Schedule.Edges.{
  AddedAll, IsIndex, index_from-IsIndex, add_steps-AddedAll, no_edges-IsGraph,
}
use gpui_agent.Recipe.Plan.Schedule.Sound.{
  needs_at, IsAfterNeeds, IsSchedule, Scheduled, ended-Scheduled, initial-IsRunning,
}
use gpui_agent.Recipe.Plan.Schedule.Order.{concat, run_waves-ends}

-- The sequence of a recipe without needs
count-range_from :
    (i n k : ℕ) → count k (range_from i n) ≡ (if ltb k i then 0 else bit (ltb k (i + n)))
count-range_from i zero k = ground arith
count-range_from i (suc n) k = ground (arith, count-range_from (suc i) n k)

abbrev single {ℓ} : {A : Type ℓ} → A → List A
single x = x ∷ []

concat-single : (xs : List ℕ) → concat (map single xs) ≡ xs
concat-single [] = refl
concat-single (x ∷ xs) = ap (◌∷◌ x) (concat-single xs)

single_names :
    (f : ℕ → String) (i : ℕ) (steps : List RecipeStep)
    → ((d : ℕ) → f (i + d) ≡ id_at steps d)
    → map (map f) (map single (range_from i (length steps))) ≡ map (λ step. step.id ∷ []) steps
unfolding id_at
single_names f i [] h = refl
single_names f i (step ∷ steps) h =
    let first : f i ≡ step.id = ap f (sym (add-zero i)) ∙ h 0 in
    let later : (d : ℕ) → f (suc i + d) ≡ id_at steps d =
      λ d. let shift : suc i + d ≡ i + suc d = omega arith in ap f shift ∙ h (suc d) in
    cc (first, single_names f (suc i) steps later)

empty-nil {ℓ} : {A : Type ℓ} (xs : List A) → is_empty xs ≡ true → xs ≡ []
empty-nil [] h = refl
empty-nil (x ∷ xs) h = cc

&&-left : (a b : Bool) → (a && b) ≡ true → a ≡ true
&&-left a b h = ground (arith, h)

&&-right : (a b : Bool) → (a && b) ≡ true → b ≡ true
&&-right a b h = ground (arith, h)

needs_at-none : (steps : List RecipeStep) (k : ℕ) → is_implicit steps ≡ true → needs_at steps k ≡ []
needs_at-none [] k h = refl
needs_at-none (step ∷ steps) zero h = empty-nil step.needs (&&-left _ _ h)
needs_at-none (step ∷ steps) (suc k) h = needs_at-none steps k (&&-right _ _ h)

single_after :
    (steps : List RecipeStep) (done is : List ℕ)
    → is_implicit steps ≡ true
    → IsAfterNeeds steps done (map single is)
single_after steps done [] h = tt
single_after steps done (i ∷ is) h =
    let nothing = λ (need : String). (j : ℕ) × (1 ≤ count j done) × (id_at steps j ≡ need) in
    (
      (λ k c. subst (All nothing) (sym (needs_at-none steps k h)) tt),
      single_after steps (done ++ i ∷ []) is h,
    )

implicit-IsSchedule :
    (steps : List RecipeStep)
    → is_implicit steps ≡ true
    → IsSchedule steps
        (range_from 0 (length steps))
        (map (λ step. step.id ∷ []) steps)
        (map single (range_from 0 (length steps)))
implicit-IsSchedule steps h = record {
  order = sym (concat-single (range_from 0 (length steps)));
  names = sym (single_names (id_at steps) 0 steps (λ d. ap (id_at steps) (zero-add d)));
  once = λ k. ground (arith, count-range_from 0 (length steps) k);
  after_needs = single_after steps [] (range_from 0 (length steps)) h;
}

schedule_needs-Scheduled : (steps : List RecipeStep) → Scheduled steps (schedule_needs steps)
unfolding schedule_needs
schedule_needs-Scheduled steps =
    let n = length steps in
    let index = index_from 0 steps [] in
    let named : IsIndex n (id_at steps) index = λ k j h. index_from-IsIndex steps k j h in
    let motive = λ (r : Result Graph). Scheduled steps (r >>= λ g. ended (run_graph steps g)) in
    let added =
      add_steps-AddedAll n (id_at steps) index 0 steps (no_edges steps) named (omega arith)
        (no_edges-IsGraph steps) in
    elim (Result-cases (add_steps index 0 steps (no_edges steps))) [
      | inr (e, f) ↦ subst motive (sym f) tt
      | inl (g, f) ↦
          let (good, (grow, met)) =
            subst (AddedAll n (id_at steps) (no_edges steps) 0 steps) f added in
          subst motive (sym f) (ended-Scheduled steps g good met)
    ]

schedule-Scheduled : (steps : List RecipeStep) → Scheduled steps (schedule steps)
unfolding schedule
schedule-Scheduled steps =
    let answer : Bool → Result (List ℕ × List (List String)) = λ b.
      if b
      then ok (range_from 0 (length steps), map (λ step. step.id ∷ []) steps)
      else schedule_needs steps in
    elim (Bool-cases (is_implicit steps)) [
      | inl plain ↦
          subst (λ b. Scheduled steps (answer b)) (sym plain)
            (map single (range_from 0 (length steps)), implicit-IsSchedule steps plain)
      | inr needs ↦
          subst (λ b. Scheduled steps (answer b)) (sym needs) (schedule_needs-Scheduled steps)
    ]

-- When `schedule` succeeds, its waves list the number of every step exactly once, `ordered` is their
-- concatenation, and each name that a step needs is the id of a step of an earlier wave.
pub schedule-IsSchedule :
    (steps : List RecipeStep) (ordered : List ℕ) (waves : List (List String))
    → schedule steps ≡ ok (ordered, waves)
    → (ws : List (List ℕ)) × IsSchedule steps ordered waves ws
schedule-IsSchedule steps ordered waves h = subst (Scheduled steps) h (schedule-Scheduled steps)

-- The loop of `schedule`, which has one round more than there are steps, ends because nothing is
-- ready, on the graph of any recipe.
pub schedule-ends :
    (steps : List RecipeStep) (g : Graph)
    → add_steps (index_from 0 steps []) 0 steps (no_edges steps) ≡ ok g
    → (run_graph steps g).2 ≡ []
unfolding run_graph
schedule-ends steps g h =
    let n = length steps in
    let added =
      add_steps-AddedAll n (id_at steps) (index_from 0 steps []) 0 steps (no_edges steps)
        (index_from-IsIndex steps) (omega arith) (no_edges-IsGraph steps) in
    let good = (subst (AddedAll n (id_at steps) (no_edges steps) 0 steps) h added).0 in
    run_waves-ends steps n g good (suc n) (zeros_from 0 g.indegree) [] (initial steps g)
      (initial-IsRunning steps g good) (omega arith)
