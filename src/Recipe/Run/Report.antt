-- ===== src/Recipe/Run/Report.antt =====
-- The receipts of a run, the files of its screenshots and what it needs of the client: receipt.rs and
-- run.rs of crates/gpui-agent-recipe/src.
use Prim.Native.Char.{code}
use gpui_agent.Base.{
  ℕ, ◌≡◌, String, Bool, true, false, Option, none, some, List, not, ◌==◌, ◌&&◌, ◌||◌, nat_eq,
  string_eq, all, length, ltb, if◌then◌else◌,
}
use gpui_agent.Base.Text.{is_ascii_alphanumeric}
use gpui_agent.Error.{Error, Result, ok}
use gpui_agent.Host.{Response, Payload}
use gpui_agent.Protocol.{Op}
use gpui_agent.Recipe.Registry.{Effect}
use gpui_agent.Recipe.Plan.{PlannedStep}
use gpui_agent.Todo.Strings.{◌<>◌, show}

pub record ScreenshotReceipt : Type 0 where
  pub path : String
  pub ok : Bool
  pub error : Option Error

pub record ScreenshotCapture : Type 0 where
  pub dir : String
  pub flagged_only : Bool

-- `ScreenshotCapture::wants`
abbrev pub wants : ScreenshotCapture → PlannedStep → Bool
wants capture step = not capture.flagged_only || step.screenshot

sanitized : String → String
unfolding is_ascii_alphanumeric
sanitized String.[] = ""
sanitized (String.◌∷◌ c s) =
    let keep = is_ascii_alphanumeric (code c) || code c == b'-' || code c == b'_' in
    if keep then String.◌∷◌ c (sanitized s) else "_" <> sanitized s

abbrev or_step : String → String
or_step String.[] = "step"
or_step (String.◌∷◌ c s) = String.◌∷◌ c s

unfoldable pub sanitize_step_id : String → String
unfolding sanitized
sanitize_step_id id = or_step (sanitized id)

-- `{index:03}`
abbrev padded : ℕ → String
padded n = if ltb n 10 then "00" <> show n else if ltb n 100 then "0" <> show n else show n

-- The last component of `ScreenshotCapture::step_path`
unfoldable pub step_file : ℕ → String → String
unfolding show sanitize_step_id
step_file index id = padded index <> ("-" <> (sanitize_step_id id <> ".png"))

unfoldable pub step_is_read_only : PlannedStep → Bool
step_is_read_only step =
    not (length step.effects == 0)
    && all
        (λ effect. elim effect [ Effect.read ↦ true | Effect.write ↦ false | Effect.exit ↦ false ])
        step.effects

abbrev is_none {ℓ} : {A : Type ℓ} → Option A → Bool
is_none none = true
is_none (some a) = false

unfoldable pub wave_can_pipeline : List PlannedStep → Option ScreenshotCapture → Bool
unfolding step_is_read_only
wave_can_pipeline steps screenshots =
    is_none screenshots && ltb 1 (length steps) && all step_is_read_only steps

pub record StepReceipt (F V : Type 0) : Type 0 where
  pub id : String
  pub ok : Bool
  pub error : Option Error
  pub elapsed_ms : ℕ
  pub result : Option (Payload F V)
  pub screenshot : Option ScreenshotReceipt

pub record Receipt (F V : Type 0) : Type 0 where
  pub ok : Bool
  pub recipe : String
  pub fingerprint : String
  pub session_reused : Bool
  pub steps : List (StepReceipt F V)
  pub screenshots : List ScreenshotReceipt
  pub elapsed_ms : ℕ

-- What `run_plan` ends with. `missing_step` is the panic of a wave that names no planned step.
pub data Outcome (F V : Type 0) : Type 0 where
  finished : Receipt F V → Outcome F V
  needs_yes : Outcome F V
  failed : String → Error → Receipt F V → Outcome F V
  missing_step : Outcome F V

-- The client, with the clock and the file system that a run uses, on a state `C`. `rpc_pipeline`
-- answers each operation, or fails as a whole.
pub record Client (F V C : Type 0) : Type 0 where
  pub rpc_op : Op → C → Result (Response F V) × C
  pub rpc_pipeline : List Op → C → Result (List (Response F V)) × C
  pub has_session : C → Bool
  pub millis : C → ℕ
  pub create_dir_all : String → C → C
  pub join_path : String → String → String
  pub pipeline_complete :
      (ops : List Op) (c : C) (answers : List (Response F V))
      → (rpc_pipeline ops c).0 ≡ ok answers
      → length answers ≡ length ops

-- How a wave ends: the run goes on with the receipt and the number of screenshots, or it is over.
pub data Flow (F V C : Type 0) : Type 0 where
  next : Receipt F V → ℕ → C → Flow F V C
  stop : Outcome F V → C → Flow F V C

abbrev pub then_next :
    {F V C : Type 0} → Flow F V C → (Receipt F V → ℕ → C → Flow F V C) → Flow F V C
then_next (next receipt index c) rest = rest receipt index c
then_next (stop outcome c) rest = stop outcome c
