-- ===== src/Recipe/Run/Step.antt =====
-- One step or one pipelined wave of a run: `run_plan_with_screenshots` and `capture_screenshot` of
-- crates/gpui-agent-recipe/src/run.rs.
use gpui_agent.Base.{
  ℕ, suc, ◌-◌, String, false, Option, none, some, List, [], ◌∷◌, ◌++◌, map, not, nat_eq, string_eq,
  if◌then◌else◌,
}
use gpui_agent.Error.{Error, Result, ok, err}
use gpui_agent.Host.{Response}
use gpui_agent.Modes.{ScreenshotMode}
use gpui_agent.Protocol.{Op}
use gpui_agent.Recipe.Plan.{PlannedStep}
use gpui_agent.Recipe.Run.Report.{
  ScreenshotReceipt, ScreenshotCapture, wants, step_file, StepReceipt, Receipt, Outcome, Client,
  Flow, next, stop, then_next,
}

abbrev pub or_text : Option Error → Error → Error
or_text none e = e
or_text (some given) e = given

abbrev pub request_failed : Error
request_failed = Error.host_error "request failed"

module _ {F V : Type 0} where
  abbrev shot_of : String → Result (Response F V) → ScreenshotReceipt
  shot_of path (ok resp) = record {
    path = path;
    ok = resp.ok;
    error =
        if resp.ok then none else some (or_text resp.error (Error.host_error "screenshot failed"));
  }
  shot_of path (err e) = record { path = path; ok = false; error = some e }

  abbrev pub push_step : Receipt F V → StepReceipt F V → Receipt F V
  push_step receipt step = record receipt { steps = receipt.steps ++ step ∷ [] }

  abbrev pub push_shot : Receipt F V → Option ScreenshotReceipt → Receipt F V
  push_shot receipt none = receipt
  push_shot receipt (some shot) = record receipt { screenshots = receipt.screenshots ++ shot ∷ [] }

  abbrev pub answered : PlannedStep → Response F V → ℕ → Option ScreenshotReceipt → StepReceipt F V
  answered step resp elapsed shot = record {
    id = step.id;
    ok = resp.ok;
    error = resp.error;
    elapsed_ms = elapsed;
    result = resp.result;
    screenshot = shot;
  }

  abbrev pub unanswered : PlannedStep → Error → ℕ → Option ScreenshotReceipt → StepReceipt F V
  unanswered step e elapsed shot = record {
    id = step.id;
    ok = false;
    error = some e;
    elapsed_ms = elapsed;
    result = none;
    screenshot = shot;
  }

  -- The receipts of a pipelined wave, with the first failure.
  unfoldable pub zip_answers : List PlannedStep → List (Response F V) → ℕ → List (StepReceipt F V)
  zip_answers [] answers elapsed = []
  zip_answers (step ∷ steps) [] elapsed = []
  zip_answers (step ∷ steps) (resp ∷ answers) elapsed =
      answered step resp elapsed none ∷ zip_answers steps answers elapsed

  unfoldable pub first_failure : List (StepReceipt F V) → Option (String × Error)
  first_failure [] = none
  first_failure (r ∷ rs) =
      let rest = first_failure rs in
      if not r.ok then some (r.id, or_text r.error request_failed) else rest

module _ {F V C : Type 0} (client : Client F V C) where
  abbrev rpc_screenshot : String → C → Result (Response F V) × C
  rpc_screenshot name = client.rpc_op (
      Op.screenshot (record {
        path = some name;
        mode = ScreenshotMode.viewport;
        target = none;
        max_height_px = none;
      }))

  abbrev capture_wanted : ScreenshotCapture → ℕ → String → C → Option ScreenshotReceipt × C
  capture_wanted capture index id c =
      let name = step_file index id in
      let (answer, after) = rpc_screenshot name c in
      (some (shot_of (client.join_path capture.dir name) answer), after)

  unfoldable pub capture_screenshot :
      Option ScreenshotCapture → ℕ → PlannedStep → C → Option ScreenshotReceipt × C
  unfolding step_file
  capture_screenshot none index step c = (none, c)
  capture_screenshot (some capture) index step c =
      let taken = capture_wanted capture index step.id c in
      if wants capture step then taken else (none, c)

  -- The failed receipt that an error carries
  abbrev pub fail : ℕ → C → Receipt F V → Receipt F V
  fail started c receipt = record receipt { ok = false; elapsed_ms = client.millis c - started }

  abbrev pub after_answers : ℕ → ℕ → Receipt F V → C → Option (String × Error) → Flow F V C
  after_answers started index receipt c none = next receipt index c
  after_answers started index receipt c (some (id, error)) =
      stop (Outcome.failed id error (fail started c receipt)) c

  -- The receipt of a pipeline that failed as a whole names the first step of the wave.
  abbrev pub pipeline_failed : ℕ → ℕ → Receipt F V → C → Error → List PlannedStep → Flow F V C
  pipeline_failed started step_started receipt c error [] = stop Outcome.missing_step c
  pipeline_failed started step_started receipt c error (first ∷ rest) =
      let noted =
        push_step (record receipt { session_reused = client.has_session c })
          (unanswered first error (client.millis c - step_started) none) in
      stop (Outcome.failed first.id error (fail started c noted)) c

  abbrev pub pipelined :
      ℕ → ℕ → ℕ → List PlannedStep → Receipt F V → Result (List (Response F V)) × C → Flow F V C
  pipelined started step_started index wave receipt (ok answers, c) =
      let receipts = zip_answers wave answers (client.millis c - step_started) in
      let noted = record receipt {
        session_reused = client.has_session c;
        steps = receipt.steps ++ receipts;
      } in
      after_answers started index noted c (first_failure receipts)
  pipelined started step_started index wave receipt (err error, c) =
      pipeline_failed started step_started receipt c error wave

  unfoldable pub run_pipeline : ℕ → ℕ → List PlannedStep → Receipt F V → C → Flow F V C
  unfolding zip_answers first_failure
  run_pipeline started index wave receipt c =
      pipelined started (client.millis c) index wave receipt
        (client.rpc_pipeline (map {A = PlannedStep} (λ step. step.op) wave) c)

  -- The receipt of one answered or failed operation, with its screenshot.
  abbrev pub settle_step :
      Option ScreenshotCapture
      → ℕ
      → ℕ
      → ℕ
      → PlannedStep
      → Receipt F V
      → Result (Response F V) × C
      → Flow F V C
  settle_step screenshots started step_started index step receipt (ok resp, c) =
      let (shot, after) = capture_screenshot screenshots index step c in
      let noted =
        push_step (push_shot (record receipt { session_reused = client.has_session c }) shot)
          (answered step resp (client.millis after - step_started) shot) in
      if resp.ok
      then next noted index after
      else stop
          (Outcome.failed step.id (or_text resp.error request_failed) (fail started after noted))
          after
  settle_step screenshots started step_started index step receipt (err error, c) =
      let (shot, after) = capture_screenshot screenshots index step c in
      let noted =
        push_step (push_shot (record receipt { session_reused = client.has_session c }) shot)
          (unanswered step error (client.millis after - step_started) shot) in
      stop (Outcome.failed step.id error (fail started after noted)) after

  unfoldable pub run_step :
      Option ScreenshotCapture → ℕ → ℕ → PlannedStep → Receipt F V → C → Flow F V C
  unfolding capture_screenshot
  run_step screenshots started index step receipt c =
      settle_step screenshots started (client.millis c) (suc index) step receipt
        (client.rpc_op step.op c)

  unfoldable pub run_steps :
      Option ScreenshotCapture → ℕ → ℕ → List PlannedStep → Receipt F V → C → Flow F V C
  unfolding run_step
  run_steps screenshots started index [] receipt c = next receipt index c
  run_steps screenshots started index (step ∷ steps) receipt c =
      then_next (run_step screenshots started index step receipt c)
        (λ noted shots after. run_steps screenshots started shots steps noted after)
