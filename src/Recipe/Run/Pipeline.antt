-- ===== src/Recipe/Run/Pipeline.antt =====
-- What the receipts say of a wave that is pipelined: run.rs.
use gpui_agent.Base.{
  ℕ, ◌-◌, ◌≡◌, refl, sym, ap, ◌∙◌, subst, String, true, false, Option, none, some, List, [], ◌∷◌,
  ◌++◌, map, string_eq, append-nil, append_assoc, arith, length, All-append, inl, inr, Bool-cases,
  Option-cases,
}
use gpui_agent.Error.{Error, Result, Result-cases}
use gpui_agent.Host.{Response}
use gpui_agent.Recipe.Plan.{PlannedStep}
use gpui_agent.Recipe.Run.Report.{StepReceipt, Receipt, Client}
use gpui_agent.Recipe.Run.Step.{
  unanswered, zip_answers, first_failure, after_answers, pipelined, pipeline_failed, run_pipeline,
}
use gpui_agent.Recipe.Run.Clean.{
  receipt_ids, receipt_ids-append, AllOk, IsClean, Fits, ids_push, reused-IsClean,
}

module _ {F V : Type 0} where
  ids-zip_answers :
      (wave : List PlannedStep) (answers : List (Response F V)) (elapsed : ℕ)
      → length answers ≡ length wave
      → receipt_ids (zip_answers wave answers elapsed) ≡ map (λ step. step.id) wave
  unfolding zip_answers
  ids-zip_answers [] answers elapsed h = refl
  ids-zip_answers (step ∷ steps) [] elapsed h = absurd (omega (arith, h))
  ids-zip_answers (step ∷ steps) (resp ∷ answers) elapsed h =
      ap (◌∷◌ step.id) (ids-zip_answers steps answers elapsed (omega (arith, h)))

  no_failure-AllOk : (rs : List (StepReceipt F V)) → first_failure rs ≡ none → AllOk rs
  unfolding first_failure
  no_failure-AllOk [] h = tt
  no_failure-AllOk (r ∷ rs) h =
      let good : r.ok ≡ true = ground (arith, h) in
      let rest : first_failure rs ≡ none = ground (arith, h, good) in
      (good, no_failure-AllOk rs rest)

  -- Where the first failure stands.
  abbrev Failure : List (StepReceipt F V) → String → Type 0
  Failure rs id =
      (before : List (StepReceipt F V)) × (bad : StepReceipt F V) × (after : List (StepReceipt F V))
      × (rs ≡ before ++ bad ∷ after)
      × AllOk before
      × (bad.ok ≡ false)
      × (bad.id ≡ id)

  first_failure-Failure :
      (rs : List (StepReceipt F V)) (id : String) (error : Error)
      → first_failure rs ≡ some (id, error)
      → Failure rs id
  unfolding first_failure
  first_failure-Failure [] id error h = cc
  first_failure-Failure (r ∷ rs) id error h = elim (Bool-cases r.ok) [
    | inr failed ↦
        let here : r.id ≡ id = ground (arith, h, failed) in ([], r, rs, refl, tt, failed, here)
    | inl good ↦
        let rest : first_failure rs ≡ some (id, error) = ground (arith, h, good) in
        let (before, bad, after, parts, fine, failed, named) =
          first_failure-Failure rs id error rest in
        (r ∷ before, bad, after, ap (◌∷◌ r) parts, (good, fine), failed, named)
  ]

length-ops :
    (wave : List PlannedStep) → length (map {A = PlannedStep} (λ step. step.op) wave) ≡ length wave
length-ops [] = refl
length-ops (step ∷ wave) = omega (arith, length-ops wave)

module _ {F V C : Type 0} (client : Client F V C) where
  answered-Fits :
      (started index : ℕ) (ids wave : List String) (r : Receipt F V) (rs : List (StepReceipt F V))
      (c : C)
      → IsClean ids r
      → receipt_ids rs ≡ wave
      → Fits (ids ++ wave) (
          after_answers client started index
            (record r { session_reused = client.has_session c; steps = r.steps ++ rs })
            c
            (first_failure rs))
  answered-Fits started index ids wave r rs c h same =
      let noted = record r { session_reused = client.has_session c; steps = r.steps ++ rs } in
      let motive = λ (f : Option (String × Error)).
        Fits (ids ++ wave) (after_answers client started index noted c f) in
      let named =
        receipt_ids-append r.steps rs
        ∙ ap (λ l. l ++ receipt_ids rs) h.steps_ids
        ∙ ap (λ l. ids ++ l) same in
      elim (Option-cases (first_failure rs)) [
        | inl e ↦ subst motive (sym e) (record {
          flag = h.flag;
          steps_ids = named;
          all_ok = All-append (λ r. r.ok ≡ true) r.steps rs h.all_ok (no_failure-AllOk rs e);
        })
        | inr ((id, error), e) ↦
            let (before, bad, after, parts, fine, failed, its_id) =
              first_failure-Failure rs id error e in
            subst motive (sym e) (record {
              flag = refl;
              before = r.steps ++ before;
              bad = bad;
              after = after;
              skipped = [];
              parts =
                  ap (λ l. r.steps ++ l) parts ∙ sym (append_assoc r.steps before (bad ∷ after));
              before_ok = All-append (λ r. r.ok ≡ true) r.steps before h.all_ok fine;
              bad_failed = failed;
              bad_id = its_id;
              in_order = append-nil (receipt_ids (r.steps ++ rs)) ∙ named;
            })
      ]

  failed-Fits :
      (started before index : ℕ) (ids : List String) (first : PlannedStep) (rest : List PlannedStep)
      (r : Receipt F V) (error : Error) (c : C)
      → IsClean ids r
      → Fits
          (ids ++ map (λ step. step.id) (first ∷ rest))
          (pipeline_failed client started before r c error (first ∷ rest))
  failed-Fits started before index ids first rest r error c h =
      let s = unanswered first error (client.millis c - before) none in
      let base = reused-IsClean client ids r (client.has_session c) h in
      let named = ids_push ids r.steps s h.steps_ids in
      record {
        flag = refl;
        before = r.steps;
        bad = s;
        after = [];
        skipped = map (λ step. step.id) rest;
        parts = refl;
        before_ok = h.all_ok;
        bad_failed = refl;
        bad_id = refl;
        in_order =
            ap (λ l. l ++ map (λ step. step.id) rest) named
            ∙ append_assoc ids (first.id ∷ []) (map (λ step. step.id) rest);
      }

  pub run_pipeline-Fits :
      (started index : ℕ) (first : PlannedStep) (rest : List PlannedStep) (ids : List String)
      (r : Receipt F V) (c : C)
      → IsClean ids r
      → Fits
          (ids ++ map (λ step. step.id) (first ∷ rest))
          (run_pipeline client started index (first ∷ rest) r c)
  unfolding run_pipeline
  run_pipeline-Fits started index first rest ids r c h =
      let wave = first ∷ rest in
      let ops = map {A = PlannedStep} (λ step. step.op) wave in
      let before = client.millis c in
      let answer = client.rpc_pipeline ops c in
      let motive = λ (a : Result (List (Response F V))).
        Fits (ids ++ map (λ step. step.id) wave)
          (pipelined client started before index wave r (a, answer.1)) in
      elim (Result-cases answer.0) [
        | inr (error, e) ↦
            subst motive (sym e)
              (failed-Fits started before index ids first rest r error answer.1 h)
        | inl (answers, e) ↦
            let elapsed = client.millis answer.1 - before in
            let complete = client.pipeline_complete ops c answers e ∙ length-ops wave in
            subst motive (sym e) (
              answered-Fits started index ids (map (λ step. step.id) wave) r
                (zip_answers wave answers elapsed) answer.1 h
                (ids-zip_answers wave answers elapsed complete))
      ]
