-- ===== src/Tests/Recipes.antt =====
-- The theorems on recipes at a concrete recipe: one parameter, three steps in three waves, the last
-- of which quits the application.
use gpui_agent.Base.{
  ℕ, suc, ◌+◌, ◌≤◌, ◌≡◌, refl, ap, sym, ◌∙◌, String, true, false, Option, none, some, All, List, [],
  ◌∷◌, map, ◌==◌, nat_eq, string_eq, arith, length, if◌then◌else◌,
}
use gpui_agent.Base.Map.{Map, get}
use gpui_agent.Base.Set
use gpui_agent.Error.{Error, ok-injective, Result, ok, err, is_ok}
use gpui_agent.Client.{
  Wire, AgentClient, rpc_op, rpc_once, has_session, rpc_pipeline, pipeline_retry,
}
use gpui_agent.Client.Once.{Ended, journal, Lines, numbered, pipeline_retry-Ended}
use gpui_agent.Client.Answered.{serving, replies, IsAnswered, Reliable}
use gpui_agent.Client.Answered.Whole.{rpc_pipeline-IsAnswered}
use gpui_agent.Recipe.Run.Session.{session_client}
use gpui_agent.Host.{Response, success}
use gpui_agent.Modes.{DeliveryMode, KeybindingScope}
use gpui_agent.Protocol.{Op}
use gpui_agent.Recipe.{Recipe, RecipeStep, recipe_format_version}
use gpui_agent.Recipe.Registry.{Registry, OpSchema, SchemaKind, Effect}
use gpui_agent.Json.{Value}
use gpui_agent.Recipe.Wants.{parse_wants}
use gpui_agent.Recipe.Wants.Declared.{parse_wants-Declared}
use gpui_agent.Recipe.Check.{validate_recipe, apply_params}
use gpui_agent.Recipe.Check.Applies.{Declared, expanded_step, apply_params-validated}
use gpui_agent.Recipe.Check.Valid.{IsValid, validate_recipe-IsValid}
use gpui_agent.Recipe.Plan.{Plan, PlannedStep, compile_plan}
use gpui_agent.Recipe.Plan.Compiles.{compile_plan-compiles}
use gpui_agent.Recipe.Plan.Schedule.{schedule, index_from, add_steps, run_graph}
use gpui_agent.Recipe.Plan.Schedule.Sound.{IsSchedule}
use gpui_agent.Recipe.Plan.Schedule.Correct.{schedule-IsSchedule, schedule-ends}
use gpui_agent.Recipe.Run.{run_plan_with_screenshots}
use gpui_agent.Recipe.Run.Report.{Client, Outcome}
use gpui_agent.Recipe.Run.Finished.{IsReported}
use gpui_agent.Recipe.Run.Planned.{run-compiled, exits-needs_yes}

abbrev step : String → List String → Op → RecipeStep
step id needs op = record { id = id; needs = needs; screenshot = false; op = op }

abbrev quit : Op
quit = Op.keybinding (record {
  binding = "app.quit";
  chord = none;
  scope = KeybindingScope.focused;
  confirm = true;
  activate = true;
})

abbrev steps : List RecipeStep
steps =
    step "leave" ("save" ∷ []) quit
    ∷ step "save" ("open" ∷ []) (Op.click "save-${item}" DeliveryMode.semantic none)
    ∷ step "open" [] (Op.click "open" DeliveryMode.semantic none)
    ∷ []

abbrev recipe : Recipe
recipe = record { v = 1; name = "demo"; app = none; params = "item" ∷ []; steps = steps }

abbrev values : Map String
values = ("item", "7") ∷ []

abbrev no_schemas : Registry
no_schemas = []

abbrev rank : String → ℕ
rank id = if id == "open" then 0 else if id == "save" then 1 else 2

-- Answers every operation and counts them.
abbrev answers : List Op → List (Response ℕ ℕ)
answers [] = []
answers (op ∷ ops) = success "1" ∷ answers ops

length-answers : (ops : List Op) → length (answers ops) ≡ length ops
length-answers [] = refl
length-answers (op ∷ ops) = ap suc (length-answers ops)

abbrev counter : Client ℕ ℕ ℕ
counter = record {
  rpc_op = λ op c. (ok (success "1"), c + 1);
  rpc_pipeline = λ ops c. (ok (answers ops), c + 1);
  has_session = λ c. true;
  millis = λ c. c;
  create_dir_all = λ dir c. c;
  join_path = λ dir file. file;
  pipeline_complete =
      λ ops c given h. ap length (ok-injective given (answers ops) (sym h)) ∙ length-answers ops;
}

abbrev unhashed : String → List PlannedStep → String
unhashed name planned = name

abbrev some_plan : Plan
some_plan = record {
  name = "";
  app = none;
  steps = [];
  waves = [];
  effects = [];
  requires_yes = false;
  fingerprint = "";
}

abbrev plan_or : Result Plan → Plan
plan_or (ok plan) = plan
plan_or (err e) = some_plan

abbrev plan : Plan
unfolding compile_plan
plan = plan_or (compile_plan unhashed recipe values no_schemas)

schedule-IsSchedule_example :
    (ws : List (List ℕ)) × IsSchedule steps
      (2 ∷ 1 ∷ 0 ∷ [])
      (("open" ∷ []) ∷ ("save" ∷ []) ∷ ("leave" ∷ []) ∷ [])
      ws
unfolding schedule
schedule-IsSchedule_example =
    schedule-IsSchedule steps (2 ∷ 1 ∷ 0 ∷ []) (("open" ∷ []) ∷ ("save" ∷ []) ∷ ("leave" ∷ []) ∷ [])
      refl

compile_plan-compiles_example : is_ok (compile_plan unhashed recipe values no_schemas) ≡ true
unfolding validate_recipe get
compile_plan-compiles_example =
    compile_plan-compiles unhashed recipe values no_schemas rank refl (refl, tt)
      ((omega arith, tt), ((omega arith, tt), (tt, tt)))

schedule-ends_example :
    (run_graph steps (record { indegree = 1 ∷ 1 ∷ 0 ∷ []; adj = [] ∷ (0 ∷ []) ∷ (1 ∷ []) ∷ [] })).2
    ≡ []
unfolding index_from add_steps
schedule-ends_example =
    schedule-ends steps (record { indegree = 1 ∷ 1 ∷ 0 ∷ []; adj = [] ∷ (0 ∷ []) ∷ (1 ∷ []) ∷ [] })
      refl

validate_recipe-IsValid_example : IsValid recipe no_schemas
unfolding validate_recipe
validate_recipe-IsValid_example = validate_recipe-IsValid recipe no_schemas refl

apply_params-validated_example :
    apply_params recipe values
    ≡ ok (record recipe { steps = map (expanded_step values) recipe.steps })
unfolding validate_recipe get
apply_params-validated_example = apply_params-validated recipe no_schemas values refl (refl, tt)

run-compiled_example :
    IsReported counter plan true (run_plan_with_screenshots counter plan true none 0).0
unfolding compile_plan
run-compiled_example = run-compiled unhashed counter recipe values no_schemas plan true none 0 refl

abbrev shutdown_schema : OpSchema
shutdown_schema = record {
  name = "shutdown";
  kind = SchemaKind.protocol;
  description = "";
  effects = Effect.exit ∷ [];
  idempotent = false;
  verified = false;
  required = [];
  args = [];
  result = none;
  keywords = [];
}

abbrev protocol : Registry
protocol = ("shutdown", shutdown_schema) ∷ []

abbrev ending : Recipe
ending = record recipe { params = []; steps = step "stop" [] Op.shutdown ∷ [] }

abbrev ending_plan : Registry → Plan
unfolding compile_plan
ending_plan registry = plan_or (compile_plan unhashed ending values registry)

exits-needs_yes_example :
    run_plan_with_screenshots counter (ending_plan protocol) false none 0 ≡ (Outcome.needs_yes, 0)
unfolding compile_plan
exits-needs_yes_example =
    exits-needs_yes unhashed counter ending values protocol (ending_plan protocol) none 0 refl refl
      refl

-- Over a registry that does not list it, `shutdown` needs no `--yes`: one operation is sent.
unlisted_shutdown : (run_plan_with_screenshots counter (ending_plan no_schemas) false none 0).1 ≡ 1
unfolding run_plan_with_screenshots compile_plan success
unlisted_shutdown = refl

-- What the run does, by evaluation.
finished_plan : Outcome ℕ ℕ → ℕ
finished_plan (Outcome.finished r) = length r.steps
finished_plan _ = 0

three_steps : finished_plan (run_plan_with_screenshots counter plan true none 0).0 ≡ 3
unfolding finished_plan run_plan_with_screenshots compile_plan success
three_steps = refl

save_is_bound :
    apply_params recipe values
    ≡ ok (record recipe {
      steps =
          step "leave" ("save" ∷ []) quit
          ∷ step "save" ("open" ∷ []) (Op.click "save-7" DeliveryMode.semantic none)
          ∷ step "open" [] (Op.click "open" DeliveryMode.semantic none)
          ∷ [];
    })
unfolding apply_params
save_is_bound = refl

-- A recipe in lines, read.
abbrev text : String
text = "# log in\nclick $user\ntype --delivery virtual name \"Ada L\"\n\nassert ok --visible"

abbrev no_json : String → Option Value
no_json raw = none

abbrev recipe_or : Result Recipe → Recipe
recipe_or (ok r) = r
recipe_or (err e) = recipe

abbrev lines_recipe : Recipe
unfolding parse_wants
lines_recipe = recipe_or (parse_wants no_json text "login")

parse_wants-Declared_example :
    (lines_recipe.v ≡ recipe_format_version)
    × (1 ≤ length lines_recipe.steps)
    × All (λ s. (s.needs ≡ []) × Declared lines_recipe.params s.op) lines_recipe.steps
unfolding parse_wants
parse_wants-Declared_example = parse_wants-Declared no_json text "login" lines_recipe refl

read_steps :
    (lines_recipe.params ≡ "user" ∷ [])
    × (map (λ s. s.id) lines_recipe.steps ≡ "s1" ∷ "s2" ∷ "s3" ∷ [])
unfolding parse_wants Set.insert
read_steps = (refl, refl)

read_type :
    parse_wants no_json "type --delivery virtual name \"Ada L\"" "t"
    ≡ ok (record {
      v = 1;
      name = "t";
      app = none;
      params = [];
      steps = step "s1" [] (Op.type "name" "Ada L" DeliveryMode.virtual none) ∷ [];
    })
unfolding parse_wants
read_type = refl

-- A socket that answers every line; its state is the number of lines read.
abbrev loopback : Wire ℕ ℕ ℕ
loopback = record {
  open_session = λ w. (ok tt, w);
  set_io_timeout = λ op w. (ok tt, w);
  send_line = λ id op w. (ok tt, w);
  flush = λ w. (ok tt, w);
  read_line = λ w. (ok (some (success "1")), w + 1);
  sleep = λ w. w;
  tries = λ w. 2;
}

abbrev fresh_client : AgentClient ℕ
fresh_client = record { next_id = 1; session = false; wire = 0 }

-- A socket whose second line fails once it has been written to
abbrev broken_pipe : Wire ℕ ℕ ℕ
broken_pipe = record loopback {
  send_line = λ id op w. (if id == 2 then err (Error.host_error "broken pipe") else ok tt, w);
}

abbrev journalled : AgentClient (ℕ × Lines)
journalled = record { next_id = 1; session = false; wire = (0, []) }

pipeline_retry-Ended_example :
    Ended []
      (numbered 1 (Op.hello ∷ Op.revision ∷ []))
      (pipeline_retry (journal broken_pipe) (Op.hello ∷ Op.revision ∷ []) journalled).0
      (pipeline_retry (journal broken_pipe) (Op.hello ∷ Op.revision ∷ []) journalled).1.wire.1
pipeline_retry-Ended_example =
    pipeline_retry-Ended broken_pipe (Op.hello ∷ Op.revision ∷ []) journalled

written_once :
    (pipeline_retry (journal broken_pipe) (Op.hello ∷ Op.revision ∷ []) journalled).1.wire.1
    ≡ (1, Op.hello) ∷ []
unfolding pipeline_retry
written_once = refl

-- A socket that loses its first answer: a pipeline of one operation sends it again.
abbrev lost_answer : Wire ℕ ℕ ℕ
lost_answer = record loopback {
  read_line = λ w. (if w == 0 then ok none else ok (some (success "1")), w + 1);
}

written_twice :
    (rpc_pipeline (journal lost_answer) (Op.revision ∷ []) journalled).1.wire.1
    ≡ (1, Op.revision) ∷ (1, Op.revision) ∷ []
unfolding rpc_pipeline success
written_twice = refl

-- A request on its own leaves no session.
once : has_session (rpc_once loopback Op.hello fresh_client).1 ≡ false
unfolding rpc_once success
once = refl

abbrev respond : ℕ → Op → Response ℕ ℕ
respond id op = record (success "1") { rev = some id }

rpc_pipeline-IsAnswered_example :
    let r = rpc_pipeline (serving respond lost_answer) (Op.hello ∷ Op.revision ∷ []) journalled in
    IsAnswered (Reliable lost_answer) (replies respond 1 (Op.hello ∷ Op.revision ∷ [])) 3 r.0 r.1
rpc_pipeline-IsAnswered_example =
    rpc_pipeline-IsAnswered respond lost_answer (Op.hello ∷ Op.revision ∷ []) journalled
      (λ live. refl)

loopback-Reliable : Reliable loopback
loopback-Reliable = record {
  opens = λ w. refl;
  sets = λ op w. refl;
  sends = λ id op w. refl;
  flushes = λ w. refl;
  reads = λ w. refl;
  tried = λ w. omega arith;
}

-- Both answers arrive, and the run of two lines takes the ids 1 and 2.
answered_both :
    (rpc_pipeline (serving respond loopback) (Op.hello ∷ Op.revision ∷ []) journalled).0
    ≡ ok (respond 1 Op.hello ∷ respond 2 Op.revision ∷ [])
unfolding rpc_pipeline success
answered_both = refl

-- The plan over that socket
served :
    finished_plan
      (run_plan_with_screenshots
        (session_client loopback (λ w. w) (λ dir w. w) (λ dir file. file))
        plan
        true
        none
        fresh_client).0
    ≡ 3
unfolding finished_plan run_plan_with_screenshots compile_plan success rpc_op
served = refl
