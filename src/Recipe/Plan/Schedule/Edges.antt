-- ===== src/Recipe/Plan/Schedule/Edges.antt =====
-- The graph that `schedule` builds from the needs, plan.rs.
use gpui_agent.Base.{
  ℕ, suc, ◌+◌, ◌≤◌, ◌<◌, ◌≡◌, ◌≢◌, ◌⊎◌, sym, ap, ◌∙◌, subst, String, true, Option, some, List, [],
  ◌∷◌, ◌++◌, ◌==◌, nat_eq, string_eq, arith, map, inl, inr, Bool-cases, Option-cases, length, All,
  All-map,
}
use text.Mathlib.TextEquality.{eq_iff}
use native.Mathlib.Decide.{ℕ_discrete}
use native.Mathlib.Nat.{le_trans}
use gpui_agent.Base.Map
use gpui_agent.Base.Set
use gpui_agent.Base.Text.{is_some}
use gpui_agent.Base.Map.{Map}
use gpui_agent.Base.Count.{bit, bit_self, count, sum, sum_bump, sum-eq, sum_none, count-append}
use gpui_agent.Base.Vec.{
  get_or, get_or-modify_self, get_or-modify_other, get_or-modify, length-modify, get_or-replicate,
  get_or-replicate_below, length-replicate,
}
use gpui_agent.Error.{Result, ok, err, ◌>>=◌, Result-cases}
use gpui_agent.Recipe.{RecipeStep}
use gpui_agent.Recipe.Plan.Schedule.{
  id_at, index_from, Graph, add_edge, with_need, add_needs, add_steps, no_edges,
}

-- The edges from `j` to `k`.
abbrev pub edges : Graph → ℕ → ℕ → ℕ
edges g j k = count k (get_or g.adj j [])

pub record IsGraph (n : ℕ) (g : Graph) : Type 0 where
  pub vertices : length g.indegree ≡ n
  pub rows : length g.adj ≡ n
  pub degrees : (k : ℕ) → k < n → get_or g.indegree k 1 ≡ sum n (λ j. edges g j k)
  pub bounded : (j k : ℕ) → n ≤ k → edges g j k ≡ 0

module _ (n : ℕ) (g : Graph) (good : IsGraph n g) (i j : ℕ) (hi : i < n) (hj : j < n) where
  pub edges_self : (k : ℕ) → edges (add_edge j i g) j k ≡ edges g j k + bit (i == k)
  edges_self k =
      let row = get_or-modify_self j (λ v. v ++ i ∷ []) g.adj [] (omega (arith, good.rows)) in
      omega (arith, ap (count k) row, count-append k (get_or g.adj j []) (i ∷ []))

  pub edges_other : (a k : ℕ) → j ≢ a → edges (add_edge j i g) a k ≡ edges g a k
  edges_other a k o = ap (count k) (get_or-modify_other j a (λ v. v ++ i ∷ []) g.adj [] o)

  sum-add_edge :
      (k : ℕ) → sum n (λ a. edges (add_edge j i g) a k) ≡ sum n (λ a. edges g a k) + bit (i == k)
  sum-add_edge k =
      sum_bump n j (bit (i == k)) (λ a. edges (add_edge j i g) a k) (λ a. edges g a k) hj
        (edges_self k) (λ a o. edges_other a k o)

  degree-add_edge :
      (k : ℕ) → get_or (add_edge j i g).indegree k 1 ≡ get_or g.indegree k 1 + bit (i == k)
  degree-add_edge k =
      ground (arith, get_or-modify i k (λ d. d + 1) g.indegree 1 (omega (arith, good.vertices)))

  bounded-add_edge : (a k : ℕ) → n ≤ k → edges (add_edge j i g) a k ≡ 0
  bounded-add_edge a k b = elim (ℕ_discrete j a) [
    | yes e ↦
        subst (λ c. edges (add_edge j i g) c k ≡ 0) e
          (ground (arith, edges_self k, good.bounded j k b))
    | no o ↦ edges_other a k o ∙ good.bounded a k b
  ]

  pub add_edge-IsGraph : IsGraph n (add_edge j i g)
  add_edge-IsGraph = record {
    vertices = length-modify i (λ d. d + 1) g.indegree ∙ good.vertices;
    rows = length-modify j (λ v. v ++ i ∷ []) g.adj ∙ good.rows;
    degrees = λ k b. omega (arith, good.degrees k b, degree-add_edge k, sum-add_edge k);
    bounded = bounded-add_edge;
  }

-- The index maps a name to a step of that name.
pub index_from_sound :
    (i : ℕ) (steps : List RecipeStep) (m : Map ℕ) (k : String) (j : ℕ)
    → Map.get k (index_from i steps m) ≡ some j
    → (Map.get k m ≡ some j) ⊎ ((d : ℕ) × (j ≡ i + d) × (d < length steps) × (id_at steps d ≡ k))
unfolding index_from id_at
index_from_sound i [] m k j h = inl h
index_from_sound i (step ∷ steps) m k j h =
    elim (index_from_sound (suc i) steps (Map.insert step.id i m) k j h) [
      | inr (d, e, b, named) ↦ inr (suc d, omega (arith, e), omega (arith, b), named)
      | inl old ↦ elim (Bool-cases (step.id == k)) [
        | inl same ↦
            let place_eq : j ≡ i + 0 = ground (arith, Map.get-insert k step.id i m, old, same) in
            inr (0, place_eq, omega arith, (eq_iff step.id k).0 same)
        | inr other ↦ inl (ground (arith, Map.get-insert k step.id i m, old, other))
      ]
    ]

-- Every name of a step is in the index.
pub index_from_complete :
    (i : ℕ) (steps : List RecipeStep) (m : Map ℕ) (k : String)
    → (is_some (Map.get k m) ≡ true) ⊎ (Set.contains k (map (λ step. step.id) steps) ≡ true)
    → is_some (Map.get k (index_from i steps m)) ≡ true
unfolding index_from Set.contains
index_from_complete i [] m k (inl h) = h
index_from_complete i [] m k (inr h) = cc
index_from_complete i (step ∷ steps) m k (inl h) =
    index_from_complete (suc i) steps (Map.insert step.id i m) k
      (inl (ground (arith, Map.get-insert k step.id i m, h)))
index_from_complete i (step ∷ steps) m k (inr h) = elim (Bool-cases (step.id == k)) [
  | inl same ↦
      index_from_complete (suc i) steps (Map.insert step.id i m) k
        (inl (ground (arith, Map.get-insert k step.id i m, same)))
  | inr other ↦
      index_from_complete (suc i) steps (Map.insert step.id i m) k (inr (ground (arith, other, h)))
]

module _ (n : ℕ) (name : ℕ → String) where
  -- The index maps a name to a vertex of that name.
  abbrev pub IsIndex : Map ℕ → Type 0
  IsIndex index = (k : String) (j : ℕ) → Map.get k index ≡ some j → (j < n) × (name j ≡ k)

  -- A vertex with the needed name has an edge to `i`.
  abbrev pub IsMet : Graph → ℕ → String → Type 0
  IsMet g i need = (j : ℕ) × (j < n) × (name j ≡ need) × (1 ≤ edges g j i)

  abbrev Grows : Graph → Graph → Type 0
  Grows g h = (j k : ℕ) → edges g j k ≤ edges h j k

  IsMet-grow : (g h : Graph) (i : ℕ) (need : String) → Grows g h → IsMet g i need → IsMet h i need
  IsMet-grow g h i need grow (j, b, e, m) = (j, b, e, le_trans m (grow j i))

  Grows-add_edge : (g : Graph) (i j : ℕ) → IsGraph n g → i < n → j < n → Grows g (add_edge j i g)
  Grows-add_edge g i j good hi hj a k = elim (ℕ_discrete j a) [
    | yes e ↦
        subst (λ c. edges g c k ≤ edges (add_edge j i g) c k) e
          (omega (arith, edges_self n g good i j hi hj k))
    | no o ↦ omega (arith, edges_other n g good i j hi hj a k o)
  ]

  -- What a run of the loop over the needs of step `i` has made of the graph `g`.
  abbrev Added : Graph → ℕ → List String → Result Graph → Type 0
  Added g i needs (err e) = Unit
  Added g i needs (ok h) = IsGraph n h × (Grows g h × All (IsMet h i) needs)

  Added-cons :
      (g : Graph) (i j : ℕ) (need : String) (needs : List String) (r : Result Graph)
      → IsGraph n g
      → i < n
      → j < n
      → name j ≡ need
      → Added (add_edge j i g) i needs r
      → Added g i (need ∷ needs) r
  Added-cons g i j need needs (err e) good hi hj named a = tt
  Added-cons g i j need needs (ok h) good hi hj named (fine, (grow, met)) =
      let first : 1 ≤ edges h j i =
        omega (arith, edges_self n g good i j hi hj i, grow j i, bit_self i) in
      (
        fine,
        (
          λ a k. le_trans (Grows-add_edge g i j good hi hj a k) (grow a k),
          ((j, hj, named, first), met),
        ),
      )

  pub add_needs-Added :
      (index : Map ℕ) (i : ℕ) (needs : List String) (g : Graph)
      → IsIndex index
      → i < n
      → IsGraph n g
      → Added g i needs (add_needs index i needs g)
  unfolding add_needs
  add_needs-Added index i [] g ix hi good = (good, (λ j k. omega arith, tt))
  add_needs-Added index i (need ∷ needs) g ix hi good =
      let rest = λ (j : ℕ). add_needs index i needs (add_edge j i g) in
      let result = λ (o : Option ℕ). with_need need o rest in
      elim (Option-cases (Map.get need index)) [
        | inl e ↦ subst (λ o. Added g i (need ∷ needs) (result o)) (sym e) tt
        | inr (j, e) ↦
            let (hj, named) = ix need j e in
            let fine = add_edge-IsGraph n g good i j hi hj in
            let more = add_needs-Added index i needs (add_edge j i g) ix hi fine in
            subst (λ o. Added g i (need ∷ needs) (result o)) (sym e)
              (Added-cons g i j need needs (rest j) good hi hj named more)
      ]

  -- The needs of the steps from number `i` on are met.
  abbrev pub AllMet : ℕ → List RecipeStep → Graph → Type 0
  AllMet i [] h = Unit
  AllMet i (step ∷ steps) h = All (IsMet h i) step.needs × AllMet (suc i) steps h

  abbrev pub AddedAll : Graph → ℕ → List RecipeStep → Result Graph → Type 0
  AddedAll g i steps (err e) = Unit
  AddedAll g i steps (ok h) = IsGraph n h × (Grows g h × AllMet i steps h)

  All-grow :
      (g h : Graph) (i : ℕ) (needs : List String)
      → Grows g h
      → All (IsMet g i) needs
      → All (IsMet h i) needs
  All-grow g h i needs grow met =
      All-map (IsMet g i) (IsMet h i) needs (λ need. IsMet-grow g h i need grow) met

  AddedAll-cons :
      (g h : Graph) (i : ℕ) (step : RecipeStep) (steps : List RecipeStep) (r : Result Graph)
      → Grows g h
      → All (IsMet h i) step.needs
      → AddedAll h (suc i) steps r
      → AddedAll g i (step ∷ steps) r
  AddedAll-cons g h i step steps (err e) grow met a = tt
  AddedAll-cons g h i step steps (ok k) grow met (good, (more, all_met)) =
      (good, (λ a b. le_trans (grow a b) (more a b), (All-grow h k i step.needs more met, all_met)))

  pub add_steps-AddedAll :
      (index : Map ℕ) (i : ℕ) (steps : List RecipeStep) (g : Graph)
      → IsIndex index
      → i + length steps ≤ n
      → IsGraph n g
      → AddedAll g i steps (add_steps index i steps g)
  unfolding add_steps
  add_steps-AddedAll index i [] g ix b good = (good, (λ j k. omega arith, tt))
  add_steps-AddedAll index i (step ∷ steps) g ix b good =
      let rest = λ (h : Graph). add_steps index (suc i) steps h in
      let motive = λ (r : Result Graph). AddedAll g i (step ∷ steps) (r >>= rest) in
      let added = add_needs-Added index i step.needs g ix (omega arith) good in
      elim (Result-cases (add_needs index i step.needs g)) [
        | inr (e, f) ↦ subst motive (sym f) tt
        | inl (h, f) ↦
            let (fine, (grow, met)) = subst (Added g i step.needs) f added in
            subst motive (sym f) (
              AddedAll-cons g h i step steps (rest h) grow met
                (add_steps-AddedAll index (suc i) steps h ix (omega arith) fine))
      ]

pub no_edges_bare : (steps : List RecipeStep) (j k : ℕ) → edges (no_edges steps) j k ≡ 0
no_edges_bare steps j k = ap (count k) (get_or-replicate (length steps) j [])

pub no_edges-IsGraph : (steps : List RecipeStep) → IsGraph (length steps) (no_edges steps)
no_edges-IsGraph steps = record {
  vertices = length-replicate (length steps) 0;
  rows = length-replicate (length steps) [];
  degrees = λ k b.
      let n = length steps in
      omega (
        arith,
        get_or-replicate_below {A = ℕ} n k 0 1 b,
        sum_none n,
        sum-eq n (λ j. edges (no_edges steps) j k) (λ j. 0) (λ j c. no_edges_bare steps j k),
      );
  bounded = λ j k b. no_edges_bare steps j k;
}

none_found : (k : String) (j : ℕ) → Map.get {V = ℕ} k [] ≢ some j
unfolding Map.get
none_found k j h = cc

pub index_from-IsIndex :
    (steps : List RecipeStep) → IsIndex (length steps) (id_at steps) (index_from 0 steps [])
index_from-IsIndex steps k j h = elim (index_from_sound 0 steps [] k j h) [
  | inl old ↦ absurd (none_found k j old)
  | inr (d, e, b, named) ↦
      let same : d ≡ j = omega (arith, e) in
      (subst (λ i. i < length steps) same b, subst (λ i. id_at steps i ≡ k) same named)
]
