-- ===== src/Recipe/Run/Finished.antt =====
-- How a run ends, and what its receipt says: run.rs.
use gpui_agent.Base.{
  ℕ, ◌≡◌, refl, sym, ap, ◌∙◌, subst, String, Bool, true, false, Option, none, some, List, [], ◌∷◌,
  ◌++◌, map, not, ◌==◌, ◌&&◌, string_eq, append-nil, append_assoc, arith, All, find, find-holds,
  some-injective, if◌then◌else◌, if-both, inl, inr, Bool-cases,
}
use text.Mathlib.TextEquality.{eq_iff}
use gpui_agent.Recipe.Plan.{Plan, PlannedStep}
use gpui_agent.Recipe.Plan.Schedule.Order.{concat}
use gpui_agent.Recipe.Run.Report.{
  ScreenshotCapture, wave_can_pipeline, Receipt, Outcome, Client, Flow, next, stop, then_next,
}
use gpui_agent.Recipe.Run.{
  run_wave, wave_steps, with_steps, run_waves, begin, finish, make_dir, run_plan_with_screenshots,
}
use gpui_agent.Recipe.Run.Pipeline.{run_pipeline-Fits}
use gpui_agent.Recipe.Run.{
  run_wave, wave_steps, with_steps, cons_found, run_waves, begin, finish, make_dir,
  run_plan_with_screenshots,
}
use gpui_agent.Recipe.Run.Clean.{IsClean, IsBroken, Fits, then_next-Fits, run_steps-Fits}

-- Each wave names planned steps only.
abbrev pub ArePlanned : List PlannedStep → List (List String) → Type 0
ArePlanned steps = All (λ wave. (found : List PlannedStep) × (wave_steps steps wave ≡ some found))

cons_found-some :
    (first : Option PlannedStep) (more : Option (List PlannedStep)) (found : List PlannedStep)
    → cons_found first more ≡ some found
    → (step : PlannedStep) × (rest : List PlannedStep) × (first ≡ some step)
      × (more ≡ some rest)
      × (found ≡ step ∷ rest)
cons_found-some none more found h = cc
cons_found-some (some step) none found h = cc
cons_found-some (some step) (some rest) found h =
    (step, rest, refl, refl, sym (some-injective (step ∷ rest) found h))

wave_steps-ids :
    (steps : List PlannedStep) (wave : List String) (found : List PlannedStep)
    → wave_steps steps wave ≡ some found
    → map (λ step. step.id) found ≡ wave
unfolding wave_steps
wave_steps-ids steps [] found h = ap (map (λ step. step.id)) (sym (some-injective [] found h))
wave_steps-ids steps (id ∷ wave) found h =
    let (step, rest, first, more, parts) =
      cons_found-some (find (λ step. step.id == id) steps) (wave_steps steps wave) found h in
    let named = (eq_iff step.id id).0 (find-holds (λ step. step.id == id) steps step first) in
    ap (map (λ step. step.id)) parts ∙ cc (named, wave_steps-ids steps wave rest more)

module _ {F V C : Type 0} (client : Client F V C) where
  run_wave-Fits :
      (shots : Option ScreenshotCapture) (started index : ℕ) (wave : List PlannedStep)
      (ids : List String) (r : Receipt F V) (c : C)
      → IsClean ids r
      → Fits (ids ++ map (λ step. step.id) wave) (run_wave client shots started index wave r c)
  unfolding run_wave
  run_wave-Fits none started index [] ids r c h =
      run_steps-Fits client none started index [] ids r c h
  run_wave-Fits (some shots) started index [] ids r c h =
      run_steps-Fits client (some shots) started index [] ids r c h
  run_wave-Fits shots started index (first ∷ rest) ids r c h =
      let wave = first ∷ rest in
      if-both (Fits (ids ++ map (λ step. step.id) wave)) (wave_can_pipeline wave shots)
        (run_pipeline-Fits client started index first rest ids r c h)
        (run_steps-Fits client shots started index wave ids r c h)

  run_waves-Fits :
      (shots : Option ScreenshotCapture) (steps : List PlannedStep) (started index : ℕ)
      (waves : List (List String)) (ids : List String) (r : Receipt F V) (c : C)
      → ArePlanned steps waves
      → IsClean ids r
      → Fits (ids ++ concat waves) (run_waves client shots steps started index waves r c)
  unfolding run_waves
  run_waves-Fits shots steps started index [] ids r c planned h =
      subst (λ l. IsClean l r) (sym (append-nil ids)) h
  run_waves-Fits shots steps started index (wave ∷ waves) ids r c ((found, e), planned) h =
      let rest = λ (noted : Receipt F V) (count : ℕ) (after : C).
        run_waves client shots steps started count waves noted after in
      let run = λ (o : Option (List PlannedStep)).
        with_steps client o (λ f. run_wave client shots started index f r c) c in
      let first =
        subst (λ l. Fits (ids ++ l) (run_wave client shots started index found r c))
          (wave_steps-ids steps wave found e) (run_wave-Fits shots started index found ids r c h) in
      let here = subst (λ o. Fits (ids ++ wave) (run o)) (sym e) first in
      subst (λ l. Fits l (then_next (run (wave_steps steps wave)) rest))
        (append_assoc ids wave (concat waves))
        (then_next-Fits (ids ++ wave) (concat waves) (run (wave_steps steps wave)) rest here
          (λ noted count after clean.
            run_waves-Fits shots steps started count waves (ids ++ wave) noted after planned clean))

  -- What an outcome says of the plan and of the flag `--yes`.
  abbrev pub IsReported : Plan → Bool → Outcome F V → Type 0
  IsReported plan yes_given (Outcome.finished r) = IsClean (concat plan.waves) r
  IsReported plan yes_given Outcome.needs_yes = (plan.requires_yes ≡ true) × (yes_given ≡ false)
  IsReported plan yes_given (Outcome.failed id error r) = IsBroken (concat plan.waves) id r
  IsReported plan yes_given Outcome.missing_step = ⊥

  finish-IsReported :
      (plan : Plan) (yes_given : Bool) (started : ℕ) (flow : Flow F V C)
      → Fits (concat plan.waves) flow
      → IsReported plan yes_given (finish client started flow).0
  finish-IsReported plan yes_given started (next r index c) h = record {
    flag = h.flag;
    steps_ids = h.steps_ids;
    all_ok = h.all_ok;
  }
  finish-IsReported plan yes_given started (stop (Outcome.failed id error r) c) h = h
  finish-IsReported plan yes_given started (stop (Outcome.finished r) c) h = elim h [ ]
  finish-IsReported plan yes_given started (stop Outcome.needs_yes c) h = elim h [ ]
  finish-IsReported plan yes_given started (stop Outcome.missing_step c) h = elim h [ ]

  -- A run of a plan whose waves name planned steps ends in one of three ways. It finishes, and the
  -- receipt is marked ok and lists every step of the waves in their order, each ok. Or it fails at a
  -- step: the receipt is not ok, its steps are the beginning of the waves in order, and the failing
  -- step is the first that is not ok. Or it asks for `--yes`, which the plan needs and was not given.
  pub run-IsReported :
      (plan : Plan) (yes_given : Bool) (shots : Option ScreenshotCapture) (c : C)
      → ArePlanned plan.steps plan.waves
      → IsReported plan yes_given (run_plan_with_screenshots client plan yes_given shots c).0
  unfolding run_plan_with_screenshots
  run-IsReported plan yes_given shots c planned =
      let ready = make_dir client shots c in
      let started = client.millis ready in
      let flow = run_waves client shots plan.steps started 0 plan.waves (begin client plan) ready in
      let fresh : IsClean [] (begin client plan) = record {
        flag = refl;
        steps_ids = refl;
        all_ok = tt;
      } in
      let done = finish-IsReported plan yes_given started flow (
        run_waves-Fits shots plan.steps started 0 plan.waves [] (begin client plan) ready planned
          fresh) in
      let outcome : Bool → Outcome F V × C =
        λ b. if b then (Outcome.needs_yes, c) else finish client started flow in
      elim (Bool-cases (plan.requires_yes && not yes_given)) [
        | inl asks ↦
            subst (λ b. IsReported plan yes_given (outcome b).0) (sym asks)
              (ground (arith, asks), ground (arith, asks))
        | inr runs ↦ subst (λ b. IsReported plan yes_given (outcome b).0) (sym runs) done
      ]

  -- A plan that needs `--yes` and does not get it does nothing: the client is left as it was.
  pub run-needs_yes :
      (plan : Plan) (shots : Option ScreenshotCapture) (c : C)
      → plan.requires_yes ≡ true
      → run_plan_with_screenshots client plan false shots c ≡ (Outcome.needs_yes, c)
  unfolding run_plan_with_screenshots
  run-needs_yes plan shots c h = rw h refl
