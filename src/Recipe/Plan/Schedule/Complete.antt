-- ===== src/Recipe/Plan/Schedule/Complete.antt =====
-- `schedule` accepts every recipe whose needs can be ordered, plan.rs.
use gpui_agent.Base.{
  ℕ, zero, suc, ◌+◌, ◌≤◌, ◌<◌, ◌≡◌, sym, ap, ◌∙◌, subst, String, true, Option, List, [], ◌∷◌, map,
  nat_eq, arith, length, inl, inr, Option-cases, All, All-map,
}
use native.Mathlib.Decide.{dec_lt, ℕ_discrete}
use native.Mathlib.Nat.{zero-add, add-zero}
use gpui_agent.Base.Count.{count, sum-eq, sum_none, sum_ones, count-append, sum-count}
use gpui_agent.Base.Text.{is_some}
use gpui_agent.Base.Map
use gpui_agent.Base.Set
use gpui_agent.Base.Map.{Map}
use gpui_agent.Error.{Result, ok, err, is_ok, ◌>>=◌, Result-cases}
use gpui_agent.Recipe.{RecipeStep}
use gpui_agent.Recipe.Plan.Schedule.{
  Graph, Progress, no_edges, initial, index_from, with_need, add_edge, add_needs, add_steps,
  zeros_from, run_waves, run_graph, ended, schedule, schedule_needs, id_at,
}
use gpui_agent.Recipe.Plan.Schedule.Edges.{
  edges, IsGraph, IsIndex, index_from-IsIndex, index_from_complete, add_edge-IsGraph,
  no_edges-IsGraph, no_edges_bare, edges_self, edges_other,
}
use gpui_agent.Recipe.Plan.Schedule.Waves.{IsRunning, tail_left}
use gpui_agent.Recipe.Plan.Schedule.Order.{run_waves-HasRun, run_waves-ends, listed_inside}
use gpui_agent.Recipe.Plan.Schedule.Sound.{initial-IsRunning}

abbrev Succeeds : (Graph → Type 0) → Result Graph → Type 0
Succeeds P (err e) = ⊥
Succeeds P (ok g) = P g

module _ (n : ℕ) (name : ℕ → String) (rank : String → ℕ) where
  -- Every edge goes to a name of higher rank.
  abbrev IsRanked : Graph → Type 0
  IsRanked g = (j k : ℕ) → 1 ≤ edges g j k → rank (name j) < rank (name k)

  abbrev IsFine : Graph → Type 0
  IsFine g = IsGraph n g × IsRanked g

  add_edge-IsRanked :
      (g : Graph) (i j : ℕ)
      → IsGraph n g
      → i < n
      → j < n
      → rank (name j) < rank (name i)
      → IsRanked g
      → IsRanked (add_edge j i g)
  add_edge-IsRanked g i j good hi hj less ranked a k h = elim (ℕ_discrete j a) [
    | no o ↦ ranked a k (omega (arith, h, edges_other n g good i j hi hj a k o))
    | yes e ↦ elim (ℕ_discrete i k) [
      | yes f ↦
          subst (λ c. rank (name c) < rank (name k)) e
            (subst (λ c. rank (name j) < rank (name c)) f less)
      | no f ↦
          let old = subst (λ c. 1 ≤ edges (add_edge j i g) c k) (sym e) h in
          let kept : 1 ≤ edges g j k = ground (arith, old, f, edges_self n g good i j hi hj k) in
          subst (λ c. rank (name c) < rank (name k)) e (ranked j k kept)
    ]
  ]

  module _ (index : Map ℕ) (ix : IsIndex n name index) where
    -- A need that the index knows and that has lower rank.
    abbrev IsLower : String → String → Type 0
    IsLower id need = (is_some (Map.get need index) ≡ true) × (rank need < rank id)

    add_needs-Succeeds :
        (i : ℕ) (needs : List String) (g : Graph)
        → i < n
        → All (IsLower (name i)) needs
        → IsFine g
        → Succeeds IsFine (add_needs index i needs g)
    unfolding add_needs
    add_needs-Succeeds i [] g hi low fine = fine
    add_needs-Succeeds i (need ∷ needs) g hi (first, low) (good, ranked) =
        let rest = λ (j : ℕ). add_needs index i needs (add_edge j i g) in
        let motive = λ (o : Option ℕ). Succeeds IsFine (with_need need o rest) in
        elim (Option-cases (Map.get need index)) [
          | inl e ↦ cc (sym (ap is_some e) ∙ first.0)
          | inr (j, e) ↦
              let (hj, named) = ix need j e in
              let less = subst (λ k. rank k < rank (name i)) (sym named) first.1 in
              subst motive (sym e) (
                add_needs-Succeeds i needs (add_edge j i g) hi low (
                  add_edge-IsGraph n g good i j hi hj,
                  add_edge-IsRanked g i j good hi hj less ranked,
                ))
        ]

    add_steps-Succeeds :
        (i : ℕ) (steps : List RecipeStep) (g : Graph)
        → i + length steps ≤ n
        → ((d : ℕ) → name (i + d) ≡ id_at steps d)
        → All (λ step. All (IsLower step.id) step.needs) steps
        → IsFine g
        → Succeeds IsFine (add_steps index i steps g)
    unfolding add_steps id_at
    add_steps-Succeeds i [] g b names low fine = fine
    add_steps-Succeeds i (step ∷ steps) g b names (first, low) fine =
        let here : name i ≡ step.id = ap name (sym (add-zero i)) ∙ names 0 in
        let own = subst (λ id. All (IsLower id) step.needs) (sym here) first in
        let done = add_needs-Succeeds i step.needs g (omega arith) own fine in
        let later : (d : ℕ) → name (suc i + d) ≡ id_at steps d =
          λ d. let shift : suc i + d ≡ i + suc d = omega arith in ap name shift ∙ names (suc d) in
        let motive =
          λ (r : Result Graph). Succeeds IsFine (r >>= λ h. add_steps index (suc i) steps h) in
        elim (Result-cases (add_needs index i step.needs g)) [
          | inr (e, f) ↦ absurd (subst (Succeeds IsFine) f done)
          | inl (h, f) ↦ subst motive (sym f) (
              add_steps-Succeeds (suc i) steps h (omega arith) later low
                (subst (Succeeds IsFine) f done))
        ]

module _ (steps : List RecipeStep) (g : Graph) (good : IsGraph (length steps) g) (rank : String → ℕ)
    (ranked : IsRanked (length steps) (id_at steps) rank g) where
  all_listed :
      (p : Progress)
      → IsRunning (length steps) g [] [] p
      → (r k : ℕ) → rank (id_at steps k) < r
      → k < length steps
      → count k p.ordered ≡ 1
  all_listed p run zero k h b = absurd (omega arith)
  all_listed p run (suc r) k h b =
      let n = length steps in
      let tails : (j : ℕ) → j < n → tail_left g p.ordered k j ≡ 0 = λ j c.
        elim (dec_lt 0 (edges g j k)) [
          | no edgeless ↦ ground (arith, edgeless)
          | yes edge ↦
              let less = ranked j k (omega (arith, edge)) in
              ground (arith, all_listed p run r j (omega (arith, less, h)) c)
        ] in
      let settled = sum-eq n (tail_left g p.ordered k) (λ j. 0) tails ∙ sum_none n in
      ground (arith, run.listed k, run.degree k b ∙ settled)

  ended-succeeds : is_ok (ended (run_graph steps g)) ≡ true
  unfolding run_graph
  ended-succeeds =
      let n = length steps in
      let ready = zeros_from 0 g.indegree in
      let begin = initial-IsRunning steps g good in
      let (ws, ran) = run_waves-HasRun steps n g good (suc n) ready [] (initial steps g) begin in
      let run = run_waves steps g.adj (suc n) ready [] (initial steps g) in
      let over =
        run_waves-ends steps n g good (suc n) ready [] (initial steps g) begin (omega arith) in
      let last = subst (λ rest. IsRunning n g rest [] run.0) over ran.running in
      let each : (k : ℕ) → k < n → count k run.0.ordered ≡ 1 =
        λ k b. all_listed run.0 last (suc (rank (id_at steps k))) k (omega arith) b in
      let inside : (k : ℕ) → n ≤ k → count k run.0.ordered ≡ 0 = λ k b.
        omega (
          arith,
          listed_inside steps n g good [] run.0 last k b,
          count-append k run.0.ordered [],
        ) in
      let full : n ≡ length run.0.ordered =
        sym (sum_ones n (λ k. count k run.0.ordered) each) ∙ sum-count n run.0.ordered inside in
      let gone : run.0.remaining ≡ 0 = omega (arith, ran.left, ap length ran.order, full) in
      ground (arith, gone)

no_edges-IsRanked :
    (steps : List RecipeStep) (rank : String → ℕ)
    → IsRanked (length steps) (id_at steps) rank (no_edges steps)
no_edges-IsRanked steps rank j k h = absurd (omega (arith, h, no_edges_bare steps j k))

-- A rank of the names under which each step stands above all that it needs.
abbrev pub IsOrdered : (String → ℕ) → List RecipeStep → Type 0
IsOrdered rank steps =
    All
      (λ step.
        All
          (λ need.
            (Set.contains need (map (λ other. other.id) steps) ≡ true) × (rank need < rank step.id))
          step.needs)
      steps

schedule_needs-succeeds :
    (steps : List RecipeStep) (rank : String → ℕ)
    → IsOrdered rank steps
    → is_ok (schedule_needs steps) ≡ true
unfolding schedule_needs
schedule_needs-succeeds steps rank h =
    let n = length steps in
    let name = id_at steps in
    let index = index_from 0 steps [] in
    let ix = index_from-IsIndex steps in
    let ids = map (λ other. other.id) steps in
    let below = λ (id need : String). rank need < rank id in
    let low : All (λ step. All (IsLower n name rank index ix step.id) step.needs) steps =
      All-map (λ step. All (λ need. (Set.contains need ids ≡ true) × below step.id need) step.needs)
        (λ step. All (IsLower n name rank index ix step.id) step.needs) steps
        (λ step.
          All-map (λ need. (Set.contains need ids ≡ true) × below step.id need)
            (IsLower n name rank index ix step.id) step.needs
            (λ need m. (index_from_complete 0 steps [] need (inr m.0), m.1)))
        h in
    let made =
      add_steps-Succeeds n name rank index ix 0 steps (no_edges steps) (omega arith)
        (λ d. ap name (zero-add d)) low (no_edges-IsGraph steps, no_edges-IsRanked steps rank) in
    elim (Result-cases (add_steps index 0 steps (no_edges steps))) [
      | inr (e, f) ↦ absurd (subst (Succeeds (IsFine n name rank)) f made)
      | inl (g, f) ↦
          let (good, ranked) = subst (Succeeds (IsFine n name rank)) f made in
          subst (λ r. is_ok (r >>= λ g. ended (run_graph steps g)) ≡ true) (sym f)
            (ended-succeeds steps g good rank ranked)
    ]

-- `schedule` succeeds on every list of steps in which each need is the id of a step, when some rank
-- of the names puts each step above all that it needs: it refuses nothing but cycles.
pub schedule-IsOrdered :
    (steps : List RecipeStep) (rank : String → ℕ)
    → IsOrdered rank steps
    → is_ok (schedule steps) ≡ true
unfolding schedule
schedule-IsOrdered steps rank h = ground (arith, schedule_needs-succeeds steps rank h)
