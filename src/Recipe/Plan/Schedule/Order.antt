-- ===== src/Recipe/Plan/Schedule/Order.antt =====
-- Whole runs of the loop of `schedule`, plan.rs.
use gpui_agent.Base.{
  ℕ, zero, suc, ◌+◌, ◌-◌, ◌≤◌, ◌<◌, ◌≡◌, refl, sym, ap, ◌∙◌, subst, String, List, [], ◌∷◌, ◌++◌,
  map, append-nil, append_assoc, arith, length, length-append,
}
use gpui_agent.Base.Count.{count, count-append, sum-count, sum-le}
use gpui_agent.Base.Vec.{get_or-beyond}
use gpui_agent.Recipe.{RecipeStep}
use gpui_agent.Recipe.Plan.Schedule.{Graph, Progress, run_wave, place, sort_by_id, run_waves, id_at}
use gpui_agent.Recipe.Plan.Schedule.Edges.{IsGraph}
use gpui_agent.Recipe.Plan.Schedule.Waves.{
  IsRunning, pending, count-sort_by_id, running-free, run_wave-IsRunning, ordered-run_wave,
  remaining-run_wave,
}

abbrev pub concat {ℓ} : {A : Type ℓ} → List (List A) → List A
concat [] = []
concat (w ∷ ws) = w ++ concat ws

length-place :
    (steps : List RecipeStep) (i : ℕ) (js : List ℕ) → length (place steps i js) ≡ suc (length js)
unfolding place
length-place steps i [] = refl
length-place steps i (j ∷ js) = ground (arith, length-place steps i js)

length-sort_by_id :
    (steps : List RecipeStep) (is : List ℕ) → length (sort_by_id steps is) ≡ length is
unfolding sort_by_id
length-sort_by_id steps [] = refl
length-sort_by_id steps (i ∷ is) =
    omega (arith, length-place steps i (sort_by_id steps is), length-sort_by_id steps is)

module _ (steps : List RecipeStep) (n : ℕ) (g : Graph) (good : IsGraph n g) where
  -- No edge to a member of a wave is pending when the wave begins.
  abbrev pub IsSettled : List ℕ → List (List ℕ) → Type 0
  IsSettled done [] = Unit
  IsSettled done (w ∷ ws) =
      ((k : ℕ) → 1 ≤ count k w → pending n g done k ≡ 0) × IsSettled (done ++ w) ws

  -- From `p` and `waves`, the waves `ws` have been run.
  pub record HasRun (p : Progress) (waves : List (List String)) (ws : List (List ℕ)) (p' : Progress)
      (waves' : List (List String)) (ready : List ℕ) : Type 0 where
    pub order : p'.ordered ≡ p.ordered ++ concat ws
    pub names : waves' ≡ waves ++ map (map (id_at steps)) ws
    pub left : p'.remaining ≡ p.remaining - length (concat ws)
    pub settled : IsSettled p.ordered ws
    pub running : IsRunning n g ready [] p'

  sorted-IsRunning :
      (ready : List ℕ) (p : Progress)
      → IsRunning n g ready [] p
      → IsRunning n g (sort_by_id steps ready) [] p
  sorted-IsRunning ready p r = record {
    size = r.size;
    degree = r.degree;
    listed = λ k. omega (arith, r.listed k, count-sort_by_id steps k ready);
  }

  swapped-IsRunning :
      (next : List ℕ) (p : Progress) → IsRunning n g [] next p → IsRunning n g next [] p
  swapped-IsRunning next p r = record {
    size = r.size;
    degree = r.degree;
    listed = λ k. omega (arith, r.listed k);
  }

  settled_first :
      (w : List ℕ) (p : Progress)
      → IsRunning n g w [] p
      → (k : ℕ) → 1 ≤ count k w
      → pending n g p.ordered k ≡ 0
  settled_first w p r k h = (running-free n g good k w [] p r (omega arith)).1

  pub run_waves-HasRun :
      (fuel : ℕ) (ready : List ℕ) (waves : List (List String)) (p : Progress)
      → IsRunning n g ready [] p
      → let (p', waves', rest) = run_waves steps g.adj fuel ready waves p in
        (ws : List (List ℕ)) × HasRun p waves ws p' waves' rest
  unfolding run_waves
  run_waves-HasRun zero ready waves p r = (
    [],
    record {
      order = sym (append-nil p.ordered);
      names = sym (append-nil waves);
      left = omega arith;
      settled = tt;
      running = r;
    },
  )
  run_waves-HasRun (suc fuel) [] waves p r = (
    [],
    record {
      order = sym (append-nil p.ordered);
      names = sym (append-nil waves);
      left = omega arith;
      settled = tt;
      running = r;
    },
  )
  run_waves-HasRun (suc fuel) (i ∷ is) waves p r =
      let w = sort_by_id steps (i ∷ is) in
      let sorted = sorted-IsRunning (i ∷ is) p r in
      let p1 = (run_wave g.adj w [] p).0 in
      let next = (run_wave g.adj w [] p).1 in
      let after = swapped-IsRunning next p1 (run_wave-IsRunning n g good w [] p sorted) in
      let named = waves ++ map (id_at steps) w ∷ [] in
      let (ws, ran) = run_waves-HasRun fuel next named p1 after in
      let ordered = ordered-run_wave n g good w [] p in
      (
        w ∷ ws,
        record {
          order =
              ran.order
              ∙ ap (λ done. done ++ concat ws) ordered
              ∙ append_assoc p.ordered w (concat ws);
          names =
              ran.names
              ∙ append_assoc waves (map (id_at steps) w ∷ []) (map (map (id_at steps)) ws);
          left =
              omega
                (arith, ran.left, remaining-run_wave n g good w [] p, length-append w (concat ws));
          settled =
              (settled_first w p sorted, subst (λ done. IsSettled done ws) ordered ran.settled);
          running = ran.running;
        },
      )

  -- No vertex is listed twice, and none that is out of range.
  pub listed_once :
      (ready : List ℕ) (p : Progress)
      → IsRunning n g ready [] p
      → (k : ℕ) → count k (p.ordered ++ ready) ≤ 1
  listed_once ready p r k = ground (arith, r.listed k, count-append k p.ordered ready)

  pub listed_inside :
      (ready : List ℕ) (p : Progress)
      → IsRunning n g ready [] p
      → (k : ℕ) → n ≤ k
      → count k (p.ordered ++ ready) ≡ 0
  listed_inside ready p r k b = ground (
    arith,
    r.listed k,
    count-append k p.ordered ready,
    get_or-beyond p.indegree k 1 (omega (arith, r.size, b)),
  )

  pub listed-le :
      (ready : List ℕ) (p : Progress)
      → IsRunning n g ready [] p
      → length p.ordered + length ready ≤ n
  listed-le ready p r =
      let all = p.ordered ++ ready in
      omega (
        arith,
        length-append p.ordered ready,
        sum-count n all (listed_inside ready p r),
        sum-le n (λ k. count k all) (listed_once ready p r),
      )

  -- More rounds than vertices leave nothing ready.
  pub run_waves-ends :
      (fuel : ℕ) (ready : List ℕ) (waves : List (List String)) (p : Progress)
      → IsRunning n g ready [] p
      → n < fuel + length p.ordered
      → (run_waves steps g.adj fuel ready waves p).2 ≡ []
  unfolding run_waves
  run_waves-ends zero ready waves p r h = absurd (omega (arith, listed-le ready p r))
  run_waves-ends (suc fuel) [] waves p r h = refl
  run_waves-ends (suc fuel) (i ∷ is) waves p r h =
      let w = sort_by_id steps (i ∷ is) in
      let sorted = sorted-IsRunning (i ∷ is) p r in
      let (p1, next) = run_wave g.adj w [] p in
      let after = swapped-IsRunning next p1 (run_wave-IsRunning n g good w [] p sorted) in
      let longer = ap length (ordered-run_wave n g good w [] p) in
      run_waves-ends fuel next (waves ++ map (id_at steps) w ∷ []) p1 after
        (omega (arith, longer, length-append p.ordered w, length-sort_by_id steps (i ∷ is)))
