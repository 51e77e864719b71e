-- ===== src/Recipe/Plan/Schedule/Sound.antt =====
-- What `schedule` answers, plan.rs.
use gpui_agent.Base.{
  ℕ, zero, suc, ◌+◌, ◌≤◌, ◌<◌, ◌≡◌, refl, sym, ap, ◌∙◌, subst, String, Bool, List, [], ◌∷◌, ◌++◌,
  map, ◌==◌, nat_eq, arith, length, inl, inr, Bool-cases, All, All-map, if◌then◌else◌, ltb,
}
use native.Mathlib.Decide.{dec_lt}
use native.Mathlib.Nat.{zero-add, add-zero}
use gpui_agent.Base.Count.{bit, count, sum, sum-eq, sum_zero, sum_full, count-append, sum-count}
use gpui_agent.Error.{Error, Result, ok, err}
use gpui_agent.Recipe.{RecipeStep}
use gpui_agent.Recipe.Plan.Schedule.{
  Graph, Progress, initial, zeros_from, run_waves, run_graph, ended, id_at,
}
use gpui_agent.Recipe.Plan.Schedule.Edges.{edges, IsGraph, IsMet, AllMet}
use gpui_agent.Recipe.Plan.Schedule.Waves.{IsRunning, pending, tail_left, is_free}
use gpui_agent.Recipe.Plan.Schedule.Order.{
  concat, IsSettled, run_waves-HasRun, listed_once, listed_inside,
}

-- `steps[i].needs`
abbrev pub needs_at : List RecipeStep → ℕ → List String
needs_at [] i = []
needs_at (step ∷ steps) zero = step.needs
needs_at (step ∷ steps) (suc i) = needs_at steps i

-- Each need of each member of a wave names a step of an earlier wave.
abbrev pub IsAfterNeeds : List RecipeStep → List ℕ → List (List ℕ) → Type 0
IsAfterNeeds steps done [] = Unit
IsAfterNeeds steps done (w ∷ ws) =
    ((k : ℕ)
      → 1 ≤ count k w
      → All (λ need. (j : ℕ) × (1 ≤ count j done) × (id_at steps j ≡ need)) (needs_at steps k))
    × IsAfterNeeds steps (done ++ w) ws

-- The waves `ws` of numbers of steps list every step once, each after the steps that it needs.
pub record IsSchedule (steps : List RecipeStep) (ordered : List ℕ) (waves : List (List String))
    (ws : List (List ℕ)) : Type 0 where
  pub order : ordered ≡ concat ws
  pub names : waves ≡ map (map (id_at steps)) ws
  pub once : (k : ℕ) → count k ordered ≡ bit (ltb k (length steps))
  pub after_needs : IsAfterNeeds steps [] ws

abbrev pub Scheduled : List RecipeStep → Result (List ℕ × List (List String)) → Type 0
Scheduled steps (err e) = Unit
Scheduled steps (ok (ordered, waves)) = (ws : List (List ℕ)) × IsSchedule steps ordered waves ws

count-zeros_from_below : (i : ℕ) (ds : List ℕ) (k : ℕ) → k < i → count k (zeros_from i ds) ≡ 0
unfolding zeros_from
count-zeros_from_below i [] k h = refl
count-zeros_from_below i (d ∷ ds) k h =
    ground (arith, count-zeros_from_below (suc i) ds k (omega arith))

count-zeros_from : (i : ℕ) (ds : List ℕ) (k : ℕ) → count (i + k) (zeros_from i ds) ≡ is_free ds k
unfolding zeros_from
count-zeros_from i [] k = refl
count-zeros_from i (d ∷ ds) zero =
    ground (arith, count-zeros_from_below (suc i) ds (i + 0) (omega arith))
count-zeros_from i (d ∷ ds) (suc k) =
    let shift : suc i + k ≡ i + suc k = omega arith in
    let rest =
      subst (λ m. count m (zeros_from (suc i) ds) ≡ is_free ds k) shift
        (count-zeros_from (suc i) ds k) in
    ground (arith, rest)

pub initial-IsRunning :
    (steps : List RecipeStep) (g : Graph)
    → IsGraph (length steps) g
    → IsRunning (length steps) g (zeros_from 0 g.indegree) [] (initial steps g)
initial-IsRunning steps g good = record {
  size = good.vertices;
  degree = λ k b.
      good.degrees k b ∙ sum-eq (length steps) (λ j. edges g j k) (tail_left g [] k) (λ j c. refl);
  listed = λ k. omega (
    arith,
    subst (λ m. count m (zeros_from 0 g.indegree) ≡ is_free g.indegree k) (zero-add k)
        (count-zeros_from 0 g.indegree k),
  );
}

AllMet-at :
    (n : ℕ) (name : ℕ → String) (i : ℕ) (steps : List RecipeStep) (g : Graph) (k : ℕ)
    → AllMet n name i steps g
    → All (IsMet n name g (i + k)) (needs_at steps k)
AllMet-at n name i [] g k h = tt
AllMet-at n name i (step ∷ steps) g zero h =
    subst (λ m. All (IsMet n name g m) step.needs) (sym (add-zero i)) h.0
AllMet-at n name i (step ∷ steps) g (suc k) h =
    let shift : suc i + k ≡ i + suc k = omega arith in
    subst (λ m. All (IsMet n name g m) (needs_at steps k)) shift
      (AllMet-at n name (suc i) steps g k h.1)

module _ (steps : List RecipeStep) (g : Graph) (good : IsGraph (length steps) g) where
  met_by :
      (done : List ℕ) (k : ℕ) (need : String)
      → pending (length steps) g done k ≡ 0
      → IsMet (length steps) (id_at steps) g k need
      → (j : ℕ) × (1 ≤ count j done) × (id_at steps j ≡ need)
  met_by done k need settled (j, below, named, edge) =
      let tail = sum_zero (length steps) j (tail_left g done k) settled below in
      (j, ground (arith, tail), named)

  settled-IsAfterNeeds :
      (done : List ℕ) (ws : List (List ℕ))
      → AllMet (length steps) (id_at steps) 0 steps g
      → IsSettled steps (length steps) g good done ws
      → IsAfterNeeds steps done ws
  settled-IsAfterNeeds done [] met h = tt
  settled-IsAfterNeeds done (w ∷ ws) met (first, rest) =
      let needs_met = λ (k : ℕ).
        subst (λ m. All (IsMet (length steps) (id_at steps) g m) (needs_at steps k)) (zero-add k)
          (AllMet-at (length steps) (id_at steps) 0 steps g k met) in
      (
        (λ k h.
            All-map (IsMet (length steps) (id_at steps) g k)
              (λ need. (j : ℕ) × (1 ≤ count j done) × (id_at steps j ≡ need)) (needs_at steps k)
              (λ need. met_by done k need (first k h)) (needs_met k)),
        settled-IsAfterNeeds (done ++ w) ws met rest,
      )

  -- A loop that has run out of remaining steps has listed each once.
  once_listed :
      (p : Progress) (ready : List ℕ)
      → IsRunning (length steps) g ready [] p
      → length steps ≤ length p.ordered
      → (k : ℕ) → count k p.ordered ≡ bit (ltb k (length steps))
  once_listed p ready r full k =
      let n = length steps in
      let done = p.ordered in
      let most : (j : ℕ) → count j done ≤ 1 =
        λ j. omega (arith, listed_once steps n g good ready p r j, count-append j done ready) in
      let inside : (j : ℕ) → n ≤ j → count j done ≡ 0 = λ j b.
        omega (arith, listed_inside steps n g good ready p r j b, count-append j done ready) in
      elim (dec_lt k n) [
        | yes below ↦
            let full_sum : n ≤ sum n (λ j. count j done) =
              omega (arith, full, sum-count n done inside) in
            ground (arith, below, sum_full n k (λ j. count j done) most full_sum below)
        | no above ↦ ground (arith, above, inside k (omega (arith, above)))
      ]

  pub ended-Scheduled :
      AllMet (length steps) (id_at steps) 0 steps g → Scheduled steps (ended (run_graph steps g))
  unfolding run_graph
  ended-Scheduled met =
      let n = length steps in
      let begin = initial-IsRunning steps g good in
      let (ws, ran) =
        run_waves-HasRun steps n g good (suc n) (zeros_from 0 g.indegree) [] (initial steps g)
          begin in
      let run = run_waves steps g.adj (suc n) (zeros_from 0 g.indegree) [] (initial steps g) in
      let answer : Bool → Result (List ℕ × List (List String)) =
        λ b. if b then ok (run.0.ordered, run.1) else err Error.dependency_cycle in
      elim (Bool-cases (run.0.remaining == 0)) [
        | inr more ↦ subst (λ b. Scheduled steps (answer b)) (sym more) tt
        | inl none_left ↦
            let gone : run.0.remaining ≡ 0 = ground (arith, none_left) in
            let full : n ≤ length run.0.ordered =
              omega (arith, gone, ran.left, ap length ran.order) in
            subst (λ b. Scheduled steps (answer b)) (sym none_left)
              (
                ws,
                record {
                  order = ran.order;
                  names = ran.names;
                  once = once_listed run.0 run.2 ran.running full;
                  after_needs = settled-IsAfterNeeds [] ws met ran.settled;
                },
              )
      ]
