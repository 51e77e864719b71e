-- ===== src/Recipe/Run/Clean.antt =====
-- What the receipts say while the steps of a wave run one by one: run.rs.
use gpui_agent.Base.{
  ℕ, suc, ◌-◌, ◌≡◌, refl, sym, ap, ◌∙◌, subst, String, Bool, true, false, Option, none, some, List,
  [], ◌∷◌, ◌++◌, map, string_eq, append-nil, append_assoc, All, All-append, if◌then◌else◌, inl, inr,
  Bool-cases,
}
use gpui_agent.Error.{Result, ok, err}
use gpui_agent.Host.{Response}
use gpui_agent.Recipe.Plan.{PlannedStep}
use gpui_agent.Recipe.Run.Report.{
  ScreenshotReceipt, ScreenshotCapture, StepReceipt, Receipt, Outcome, Client, Flow, next, stop,
  then_next,
}
use gpui_agent.Recipe.Run.Step.{
  capture_screenshot, push_step, push_shot, fail, answered, unanswered, settle_step, or_text,
  request_failed, run_step, run_steps,
}

module _ {F V : Type 0} where
  abbrev pub receipt_ids : List (StepReceipt F V) → List String
  receipt_ids = map {A = StepReceipt F V} (λ r. r.id)

  abbrev pub AllOk : List (StepReceipt F V) → Type 0
  AllOk = All {A = StepReceipt F V} (λ r. r.ok ≡ true)

  pub receipt_ids-append :
      (xs ys : List (StepReceipt F V)) → receipt_ids (xs ++ ys) ≡ receipt_ids xs ++ receipt_ids ys
  receipt_ids-append [] ys = refl
  receipt_ids-append (x ∷ xs) ys = ap (◌∷◌ x.id) (receipt_ids-append xs ys)

  -- Everything so far has succeeded, and these are the steps.
  pub record IsClean (ids : List String) (r : Receipt F V) : Type 0 where
    pub flag : r.ok ≡ true
    pub steps_ids : receipt_ids r.steps ≡ ids
    pub all_ok : AllOk r.steps

  -- The receipts up to the failing one are in order and successful, and it is the named step; the
  -- steps of the receipt and those that were `skipped` are the steps `ids`.
  pub record IsBroken (ids : List String) (id : String) (r : Receipt F V) : Type 0 where
    pub flag : r.ok ≡ false
    pub before : List (StepReceipt F V)
    pub bad : StepReceipt F V
    pub after : List (StepReceipt F V)
    pub skipped : List String
    pub parts : r.steps ≡ before ++ bad ∷ after
    pub before_ok : AllOk before
    pub bad_failed : bad.ok ≡ false
    pub bad_id : bad.id ≡ id
    pub in_order : receipt_ids r.steps ++ skipped ≡ ids

  -- An outcome of a run that has the steps `ids` to do.
  abbrev pub EndsBroken : List String → Outcome F V → Type 0
  EndsBroken ids (Outcome.finished r) = ⊥
  EndsBroken ids Outcome.needs_yes = ⊥
  EndsBroken ids (Outcome.failed id error r) = IsBroken ids id r
  EndsBroken ids Outcome.missing_step = ⊥

  pub broken_more :
      (ids more : List String) (o : Outcome F V) → EndsBroken ids o → EndsBroken (ids ++ more) o
  broken_more ids more (Outcome.finished r) b = elim b [ ]
  broken_more ids more Outcome.needs_yes b = elim b [ ]
  broken_more ids more Outcome.missing_step b = elim b [ ]
  broken_more ids more (Outcome.failed id error r) b = record {
    flag = b.flag;
    before = b.before;
    bad = b.bad;
    after = b.after;
    skipped = b.skipped ++ more;
    parts = b.parts;
    before_ok = b.before_ok;
    bad_failed = b.bad_failed;
    bad_id = b.bad_id;
    in_order =
        sym (append_assoc (receipt_ids r.steps) b.skipped more) ∙ ap (λ l. l ++ more) b.in_order;
  }

module _ {F V C : Type 0} where
  abbrev pub Fits : List String → Flow F V C → Type 0
  Fits ids (next r index c) = IsClean ids r
  Fits ids (stop outcome c) = EndsBroken ids outcome

  pub then_next-Fits :
      (ids more : List String) (flow : Flow F V C) (rest : Receipt F V → ℕ → C → Flow F V C)
      → Fits ids flow
      → ((r : Receipt F V) (index : ℕ) (c : C)
          → IsClean ids r
          → Fits (ids ++ more) (rest r index c))
      → Fits (ids ++ more) (then_next flow rest)
  then_next-Fits ids more (next r index c) rest h k = k r index c h
  then_next-Fits ids more (stop outcome c) rest h k = broken_more ids more outcome h

module _ {F V : Type 0} where
  pub ids_push :
      (ids : List String) (rs : List (StepReceipt F V)) (s : StepReceipt F V)
      → receipt_ids rs ≡ ids
      → receipt_ids (rs ++ s ∷ []) ≡ ids ++ s.id ∷ []
  ids_push ids rs s h = receipt_ids-append rs (s ∷ []) ∙ ap (λ l. l ++ s.id ∷ []) h

  push-IsClean :
      (ids : List String) (r : Receipt F V) (shot : Option ScreenshotReceipt) (s : StepReceipt F V)
      → IsClean ids r
      → s.ok ≡ true
      → IsClean (ids ++ s.id ∷ []) (push_step (push_shot r shot) s)
  push-IsClean ids r none s h good = record {
    flag = h.flag;
    steps_ids = ids_push ids r.steps s h.steps_ids;
    all_ok = All-append (λ r. r.ok ≡ true) r.steps (s ∷ []) h.all_ok (good, tt);
  }
  push-IsClean ids r (some shot) s h good = record {
    flag = h.flag;
    steps_ids = ids_push ids r.steps s h.steps_ids;
    all_ok = All-append (λ r. r.ok ≡ true) r.steps (s ∷ []) h.all_ok (good, tt);
  }

  steps-push_shot :
      (r : Receipt F V) (shot : Option ScreenshotReceipt) → (push_shot r shot).steps ≡ r.steps
  steps-push_shot r none = refl
  steps-push_shot r (some shot) = refl

module _ {F V C : Type 0} (client : Client F V C) where
  push-IsBroken :
      (ids : List String) (r : Receipt F V) (shot : Option ScreenshotReceipt) (s : StepReceipt F V)
      (started : ℕ) (c : C)
      → IsClean ids r
      → s.ok ≡ false
      → IsBroken (ids ++ s.id ∷ []) s.id (fail client started c (push_step (push_shot r shot) s))
  push-IsBroken ids r shot s started c h failed = record {
    flag = refl;
    before = r.steps;
    bad = s;
    after = [];
    skipped = [];
    parts = ap (λ rs. rs ++ s ∷ []) (steps-push_shot r shot);
    before_ok = h.all_ok;
    bad_failed = failed;
    bad_id = refl;
    in_order =
        append-nil (receipt_ids ((push_shot r shot).steps ++ s ∷ []))
        ∙ ids_push ids (push_shot r shot).steps s
            (ap receipt_ids (steps-push_shot r shot) ∙ h.steps_ids);
  }

  pub reused-IsClean :
      (ids : List String) (r : Receipt F V) (b : Bool)
      → IsClean ids r
      → IsClean ids (record r { session_reused = b })
  reused-IsClean ids r b h = record { flag = h.flag; steps_ids = h.steps_ids; all_ok = h.all_ok }

  settle_step-Fits :
      (shots : Option ScreenshotCapture) (started before index : ℕ) (step : PlannedStep)
      (ids : List String) (r : Receipt F V) (answer : Result (Response F V) × C)
      → IsClean ids r
      → Fits (ids ++ step.id ∷ []) (settle_step client shots started before index step r answer)
  settle_step-Fits shots started before index step ids r (ok resp, c) h =
      let base = reused-IsClean ids r (client.has_session c) h in
      let (shot, after) = capture_screenshot client shots index step c in
      let s = answered step resp (client.millis after - before) shot in
      let noted =
        push_step (push_shot (record r { session_reused = client.has_session c }) shot) s in
      let answer : Bool → Flow F V C = λ b.
        if b
        then next noted index after
        else stop
            (Outcome.failed step.id (or_text resp.error request_failed)
              (fail client started after noted))
            after in
      elim (Bool-cases resp.ok) [
        | inl good ↦
            subst (λ b. Fits (ids ++ step.id ∷ []) (answer b)) (sym good)
              (push-IsClean ids (record r { session_reused = client.has_session c }) shot s base
                good)
        | inr bad ↦
            subst (λ b. Fits (ids ++ step.id ∷ []) (answer b)) (sym bad)
              (push-IsBroken ids (record r { session_reused = client.has_session c }) shot s started
                after base bad)
      ]
  settle_step-Fits shots started before index step ids r (err error, c) h =
      let base = reused-IsClean ids r (client.has_session c) h in
      let (shot, after) = capture_screenshot client shots index step c in
      push-IsBroken ids (record r { session_reused = client.has_session c }) shot
        (unanswered step error (client.millis after - before) shot) started after base refl

  pub run_steps-Fits :
      (shots : Option ScreenshotCapture) (started index : ℕ) (steps : List PlannedStep)
      (ids : List String) (r : Receipt F V) (c : C)
      → IsClean ids r
      → Fits (ids ++ map (λ step. step.id) steps) (run_steps client shots started index steps r c)
  unfolding run_steps
  run_steps-Fits shots started index [] ids r c h =
      subst (λ l. IsClean l r) (sym (append-nil ids)) h
  run_steps-Fits shots started index (step ∷ steps) ids r c h =
      let more = map {A = PlannedStep} (λ step. step.id) steps in
      let first =
        settle_step-Fits shots started (client.millis c) (suc index) step ids r
          (client.rpc_op step.op c) h in
      subst (λ l. Fits l (run_steps client shots started index (step ∷ steps) r c))
        (append_assoc ids (step.id ∷ []) more)
        (then_next-Fits (ids ++ step.id ∷ []) more (run_step client shots started index step r c)
          (λ noted count after. run_steps client shots started count steps noted after) first
          (λ noted count after clean.
            run_steps-Fits shots started count steps (ids ++ step.id ∷ []) noted after clean))
