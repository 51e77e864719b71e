-- ===== src/Recipe/Run.antt =====
-- Running a plan: `run_plan_with_screenshots` of crates/gpui-agent-recipe/src/run.rs.
pub mod Report
pub mod Step
pub mod Clean
pub mod Pipeline
pub mod Finished
pub mod Planned
pub mod Session
use Prim.Native.Char.{Char, code}
use Prim.Native.String
use gpui_agent.Base.{
  ℕ, zero, suc, ◌+◌, ◌-◌, ◌≡◌, String, Bool, true, false, Option, none, some, List, [], ◌∷◌, ◌++◌,
  map, not, ◌==◌, ◌&&◌, ◌||◌, nat_eq, string_eq, all, find, length, ltb, if◌then◌else◌,
}
use gpui_agent.Base.Text.{is_ascii_alphanumeric}
use gpui_agent.Error.{Error, Result, ok, err}
use gpui_agent.Host.{Response, Payload}
use gpui_agent.Modes.{ScreenshotMode}
use gpui_agent.Protocol.{Op, ScreenshotSpec}
use gpui_agent.Recipe.Registry.{Effect}
use gpui_agent.Recipe.Plan.{Plan, PlannedStep}
use gpui_agent.Todo.Strings.{◌<>◌, show}
use gpui_agent.Recipe.Run.Report.{
  ScreenshotReceipt, ScreenshotCapture, wants, step_file, wave_can_pipeline, StepReceipt, Receipt,
  Outcome, Client, Flow, next, stop, then_next,
}
use gpui_agent.Recipe.Run.Step.{run_pipeline, run_steps}

abbrev pub cons_found : Option PlannedStep → Option (List PlannedStep) → Option (List PlannedStep)
cons_found (some step) (some steps) = some (step ∷ steps)
cons_found _ _ = none

-- The planned steps that a wave names
unfoldable pub wave_steps : List PlannedStep → List String → Option (List PlannedStep)
wave_steps steps [] = some []
wave_steps steps (id ∷ ids) = cons_found (find (λ step. step.id == id) steps) (wave_steps steps ids)

module _ {F V C : Type 0} (client : Client F V C) where
  unfoldable pub run_wave :
      Option ScreenshotCapture → ℕ → ℕ → List PlannedStep → Receipt F V → C → Flow F V C
  unfolding wave_can_pipeline run_pipeline run_steps
  run_wave screenshots started index wave receipt c =
      if wave_can_pipeline wave screenshots
      then run_pipeline client started index wave receipt c
      else run_steps client screenshots started index wave receipt c

  abbrev pub with_steps :
      Option (List PlannedStep) → (List PlannedStep → Flow F V C) → C → Flow F V C
  with_steps none run c = stop Outcome.missing_step c
  with_steps (some wave) run c = run wave

  unfoldable pub run_waves :
      Option ScreenshotCapture
      → List PlannedStep
      → ℕ
      → ℕ
      → List (List String)
      → Receipt F V
      → C
      → Flow F V C
  unfolding wave_steps run_wave
  run_waves screenshots steps started index [] receipt c = next receipt index c
  run_waves screenshots steps started index (wave ∷ waves) receipt c =
      then_next
        (with_steps (wave_steps steps wave)
          (λ found. run_wave screenshots started index found receipt c) c)
        (λ noted shots after. run_waves screenshots steps started shots waves noted after)

  abbrev pub make_dir : Option ScreenshotCapture → C → C
  make_dir none c = c
  make_dir (some capture) c = client.create_dir_all capture.dir c

  abbrev pub begin : Plan → Receipt F V
  begin plan = record {
    ok = true;
    recipe = plan.name;
    fingerprint = plan.fingerprint;
    session_reused = false;
    steps = [];
    screenshots = [];
    elapsed_ms = 0;
  }

  abbrev pub finish : ℕ → Flow F V C → Outcome F V × C
  finish started (stop outcome c) = (outcome, c)
  finish started (next receipt index c) = (
    Outcome.finished (record receipt {
      elapsed_ms = client.millis c - started;
      session_reused = client.has_session c;
    }),
    c,
  )

  unfoldable pub run_plan_with_screenshots :
      Plan → Bool → Option ScreenshotCapture → C → Outcome F V × C
  unfolding run_waves
  run_plan_with_screenshots plan yes_given screenshots c =
      let ready = make_dir screenshots c in
      let started = client.millis ready in
      if plan.requires_yes && not yes_given
      then (Outcome.needs_yes, c)
      else finish started (run_waves screenshots plan.steps started 0 plan.waves (begin plan) ready)

  unfoldable pub run_plan : Plan → Bool → C → Outcome F V × C
  unfolding run_plan_with_screenshots
  run_plan plan yes_given c = run_plan_with_screenshots plan yes_given none c
