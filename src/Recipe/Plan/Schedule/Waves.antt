-- ===== src/Recipe/Plan/Schedule/Waves.antt =====
-- The loop of `schedule` over the waves, plan.rs.
use gpui_agent.Base.{
  ℕ, ◌+◌, ◌-◌, ◌≤◌, ◌<◌, ◌≡◌, refl, sym, ap, ◌∙◌, List, [], ◌∷◌, ◌++◌, append-nil, append_assoc,
  ◌==◌, nat_eq, arith, length, if◌then◌else◌,
}
use native.Mathlib.Decide.{dec_lt}
use gpui_agent.Base.Count.{bit, bit_self, count, sum, sum_bump, count-append, count_other}
use gpui_agent.Base.Vec.{get_or, modify, get_or-modify, length-modify, get_or-beyond}
use gpui_agent.Recipe.{RecipeStep}
use gpui_agent.Recipe.Plan.Schedule.{Graph, Progress, relax, run_wave, finish, place, sort_by_id}
use gpui_agent.Recipe.Plan.Schedule.Edges.{edges, IsGraph}

-- Sorting a wave keeps its members.
count-place :
    (steps : List RecipeStep) (k i : ℕ) (js : List ℕ)
    → count k (place steps i js) ≡ count k (i ∷ js)
unfolding place
count-place steps k i [] = refl
count-place steps k i (j ∷ js) = ground (arith, count-place steps k i js)

pub count-sort_by_id :
    (steps : List RecipeStep) (k : ℕ) (is : List ℕ) → count k (sort_by_id steps is) ≡ count k is
unfolding sort_by_id
count-sort_by_id steps k [] = refl
count-sort_by_id steps k (i ∷ is) =
    count-place steps k i (sort_by_id steps is)
    ∙ ap (λ c. bit (i == k) + c) (count-sort_by_id steps k is)

-- A vertex that has no unfinished edge is listed once, any other not at all.
abbrev pub is_free : List ℕ → ℕ → ℕ
is_free indegree k = bit (get_or indegree k 1 == 0)

module _ (n : ℕ) where
  -- The inner loop: the degrees count the edges that are `left` and those still to take away.
  pub record IsRelaxing (left : ℕ → ℕ) (held : ℕ → ℕ) (js indegree next : List ℕ) : Type 0 where
    pub size : length indegree ≡ n
    pub degree : (k : ℕ) → k < n → get_or indegree k 1 ≡ left k + count k js
    pub inside : (k : ℕ) → n ≤ k → count k js ≡ 0
    pub listed : (k : ℕ) → held k + count k next ≡ is_free indegree k

  relaxing-below :
      (left held : ℕ → ℕ) (j : ℕ) (js indegree next : List ℕ)
      → IsRelaxing left held (j ∷ js) indegree next
      → j < n
  relaxing-below left held j js indegree next good = elim (dec_lt j n) [
    | yes below ↦ below
    | no above ↦ absurd (omega (arith, above, bit_self j, good.inside j (omega (arith, above))))
  ]

  relax_listed :
      (left held : ℕ → ℕ) (j : ℕ) (js indegree next : List ℕ)
      → IsRelaxing left held (j ∷ js) indegree next
      → (k : ℕ)
      → let lowered = modify j (λ d. d - 1) indegree in
        held k + count k (if get_or lowered j 1 == 0 then next ++ j ∷ [] else next)
        ≡ is_free lowered k
  relax_listed left held j js indegree next good k =
      let hj = relaxing-below left held j js indegree next good in
      let low =
        λ (a : ℕ). get_or-modify j a (λ d. d - 1) indegree 1 (omega (arith, hj, good.size)) in
      ground (arith, low k, low j, count-append k next (j ∷ []), good.listed k, good.degree j hj)

  relax_step :
      (left held : ℕ → ℕ) (j : ℕ) (js indegree next : List ℕ)
      → IsRelaxing left held (j ∷ js) indegree next
      → let lowered = modify j (λ d. d - 1) indegree in
        IsRelaxing left held js lowered (if get_or lowered j 1 == 0 then next ++ j ∷ [] else next)
  relax_step left held j js indegree next good =
      let hj = relaxing-below left held j js indegree next good in
      record {
        size = length-modify j (λ d. d - 1) indegree ∙ good.size;
        degree = λ k b. ground (
          arith,
          get_or-modify j k (λ d. d - 1) indegree 1 (omega (arith, hj, good.size)),
          good.degree k b,
        );
        inside = λ k b. omega (arith, good.inside k b);
        listed = relax_listed left held j js indegree next good;
      }

  pub relax-IsRelaxing :
      (left held : ℕ → ℕ) (js indegree next : List ℕ)
      → IsRelaxing left held js indegree next
      → IsRelaxing left held [] (relax js indegree next).0 (relax js indegree next).1
  unfolding relax
  relax-IsRelaxing left held [] indegree next good = good
  relax-IsRelaxing left held (j ∷ js) indegree next good =
      relax-IsRelaxing left held js _ _ (relax_step left held j js indegree next good)

-- The edges to `k` whose tail is not yet done
abbrev pub tail_left : Graph → List ℕ → ℕ → ℕ → ℕ
tail_left g done k j = if count j done == 0 then edges g j k else 0

abbrev pub pending : ℕ → Graph → List ℕ → ℕ → ℕ
pending n g done k = sum n (tail_left g done k)

module _ (n : ℕ) (g : Graph) where
  -- The state inside a wave. What is done, what the wave still holds and what comes next are the
  -- vertices with no pending edge, each listed once.
  pub record IsRunning (wave next : List ℕ) (p : Progress) : Type 0 where
    pub size : length p.indegree ≡ n
    pub degree : (k : ℕ) → k < n → get_or p.indegree k 1 ≡ pending n g p.ordered k
    pub listed : (k : ℕ) → count k p.ordered + (count k wave + count k next) ≡ is_free p.indegree k

  module _ (good : IsGraph n g) where
    pub running-free :
        (i : ℕ) (wave next : List ℕ) (p : Progress)
        → IsRunning wave next p
        → 1 ≤ count i p.ordered + (count i wave + count i next)
        → (i < n) × (pending n g p.ordered i ≡ 0)
    running-free i wave next p r h =
        let none_left : get_or p.indegree i 1 ≡ 0 = ground (arith, r.listed i) in
        elim (dec_lt i n) [
          | yes below ↦ (below, omega (arith, none_left, r.degree i below))
          | no above ↦
              let high : length p.indegree ≤ i = omega (arith, above, r.size) in
              absurd (omega (arith, none_left, get_or-beyond p.indegree i 1 high))
        ]

    pending_step :
        (done : List ℕ) (i k : ℕ)
        → i < n
        → count i done ≡ 0
        → pending n g done k ≡ pending n g (done ++ i ∷ []) k + edges g i k
    pending_step done i k hi fresh =
        sum_bump n i (edges g i k) (tail_left g done k) (tail_left g (done ++ i ∷ []) k) hi
          (ground (arith, fresh, count-append i done (i ∷ []), bit_self i))
          (λ a o. ground (arith, count-append a done (i ∷ []), count_other a i [] o))

    run_step :
        (i : ℕ) (wave next : List ℕ) (p : Progress)
        → IsRunning (i ∷ wave) next p
        → let (indegree, more) = relax (get_or g.adj i []) p.indegree next in
          IsRunning wave more (finish i p indegree)
    run_step i wave next p r =
        let (hi, free) = running-free i (i ∷ wave) next p r (omega (arith, bit_self i)) in
        let fresh : count i p.ordered ≡ 0 = ground (arith, r.listed i, bit_self i) in
        let left = pending n g (p.ordered ++ i ∷ []) in
        let held = λ (k : ℕ). count k p.ordered + count k (i ∷ wave) in
        let begin : IsRelaxing n left held (get_or g.adj i []) p.indegree next = record {
          size = r.size;
          degree = λ k b. omega (arith, r.degree k b, pending_step p.ordered i k hi fresh);
          inside = λ k b. good.bounded i k b;
          listed = λ k. omega (arith, r.listed k);
        } in
        let end = relax-IsRelaxing n left held (get_or g.adj i []) p.indegree next begin in
        record {
          size = end.size;
          degree = λ k b. omega (arith, end.degree k b);
          listed = λ k. omega (arith, end.listed k, count-append k p.ordered (i ∷ []));
        }

    pub run_wave-IsRunning :
        (wave next : List ℕ) (p : Progress)
        → IsRunning wave next p
        → IsRunning [] (run_wave g.adj wave next p).1 (run_wave g.adj wave next p).0
    unfolding run_wave
    run_wave-IsRunning [] next p r = r
    run_wave-IsRunning (i ∷ wave) next p r = run_wave-IsRunning wave _ _ (run_step i wave next p r)

    pub ordered-run_wave :
        (wave next : List ℕ) (p : Progress)
        → (run_wave g.adj wave next p).0.ordered ≡ p.ordered ++ wave
    unfolding run_wave
    ordered-run_wave [] next p = sym (append-nil p.ordered)
    ordered-run_wave (i ∷ wave) next p =
        ordered-run_wave wave _ _ ∙ append_assoc p.ordered (i ∷ []) wave

    pub remaining-run_wave :
        (wave next : List ℕ) (p : Progress)
        → (run_wave g.adj wave next p).0.remaining ≡ p.remaining - length wave
    unfolding run_wave
    remaining-run_wave [] next p = omega arith
    remaining-run_wave (i ∷ wave) next p = omega (arith, remaining-run_wave wave _ _)
