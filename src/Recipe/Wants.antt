-- ===== src/Recipe/Wants.antt =====
-- The line format of recipes: `parse_wants` of crates/gpui-agent-recipe/src/recipe.rs. What serde_json
-- makes of a text is a parameter.
pub mod Tokens
pub mod Flags
pub mod Declared
use gpui_agent.Base.{
  ℕ, suc, ◌+◌, String, Bool, true, false, Option, none, some, List, [], ◌∷◌, ◌++◌, ◌==◌, ◌||◌, not,
  nat_eq, string_eq, if◌then◌else◌, length, filter, any,
}
use gpui_agent.Base.Text.{codes, starts_with, is_some, parse_u64}
use gpui_agent.Error.{Error, Result, ok, err, map_ok, ◌>>=◌, ◌>>◌}
use gpui_agent.Json
use gpui_agent.Json.{Value, Fields}
use gpui_agent.Protocol.{Op}
use gpui_agent.Recipe.{Recipe, RecipeStep, recipe_format_version}
use gpui_agent.Recipe.Params.{collect_placeholders_in_op}
use gpui_agent.Recipe.Wants.Tokens.{tokenize, each_token, lines, split_once, replace_char}
use gpui_agent.Recipe.Wants.Flags.{
  or_needs, take_delivery, parse_keybinding_wants, parse_screenshot_op, parse_assert_spec,
}
use gpui_agent.Todo.Strings.{◌<>◌, show, trim_string}

-- The variables of the loop of `parse_wait_until_op`
pub record WaitArgs : Type 0 where
  pub timeout_ms : Option ℕ
  pub rest : List String

abbrev timeout : String → Option ℕ → Result (Option ℕ)
timeout raw none = err (Error.bad_number "timeout_ms" raw)
timeout raw (some n) = ok (some n)

-- `strip_prefix("timeout_ms=")`: the text behind the first `=`, if `timeout_ms` stands before it.
abbrev wait_word : String → WaitArgs → Option (String × String) → Result (WaitArgs × Bool)
wait_word token a none = ok (record a { rest = a.rest ++ token ∷ [] }, false)
wait_word token a (some (field, raw)) =
    if field == "timeout_ms"
    then map_ok (λ ms. (record a { timeout_ms = ms }, false)) (timeout raw (parse_u64 (codes raw)))
    else ok (record a { rest = a.rest ++ token ∷ [] }, false)

unfoldable pub wait_token : String → Option String → WaitArgs → Result (WaitArgs × Bool)
unfolding parse_u64 split_once
wait_token token next a =
    if token == "--timeout-ms" || token == "--timeout_ms"
    then (or_needs next "wait_until --timeout-ms needs a number" >>= λ raw.
        map_ok (λ ms. (record a { timeout_ms = ms }, true)) (timeout raw (parse_u64 (codes raw))))
    else wait_word token a (split_once b'=' token)

unfoldable pub parse_wait_until_op : List String → Result Op
unfolding wait_token each_token parse_assert_spec
parse_wait_until_op tokens = do
  a ← each_token wait_token false tokens (record { timeout_ms = none; rest = [] })
  timeout_ms ← or_needs a.timeout_ms "wait_until needs --timeout-ms"
  spec ← parse_assert_spec a.rest
  ok (Op.wait_until timeout_ms spec)

abbrev two : String → List String → Result (String × String)
two message (a ∷ b ∷ rest) = ok (a, b)
two message _ = err (Error.wants_needs message)

abbrev one_of : String → List String → Result String
one_of message [] = err (Error.wants_needs message)
one_of message (a ∷ rest) = ok a

-- The variables of the loop of `parse_wants`
pub record Wanted : Type 0 where
  pub steps : List RecipeStep
  pub params : List String

abbrev pub add_step : Wanted → RecipeStep → Wanted
add_step w step = record {
  steps = w.steps ++ step ∷ [];
  params = collect_placeholders_in_op step.op w.params;
}

-- A line of a `.wants` file with the first token apart
module _ (from_json : String → Option Value) where
  abbrev json_or_text : String → Option Value → Value
  json_or_text raw none = Value.string raw
  json_or_text raw (some v) = v

  abbrev invoke_arg :
      String → Option (String × String) → Fields → (Fields → Result Fields) → Result Fields
  invoke_arg token none map rest = err (Error.expected_key_value token)
  invoke_arg token (some (field, raw)) map rest =
      rest (Json.insert field (json_or_text raw (from_json raw)) map)

  unfoldable pub invoke_args : List String → Fields → Result Fields
  unfolding split_once Json.insert
  invoke_args [] map = ok map
  invoke_args (token ∷ tokens) map =
      invoke_arg token (split_once b'=' token) map (invoke_args tokens)

  abbrev parse_invoke : List String → Result Op
  parse_invoke [] = err (Error.wants_needs "invoke needs a name")
  parse_invoke (name ∷ tokens) =
      map_ok (λ map. Op.invoke name (Value.object map)) (invoke_args tokens Fields.empty)

  abbrev parse_click : List String → Result Op
  parse_click tokens = do
    (delivery, rest) ← take_delivery tokens
    target ← one_of "click needs a target" rest
    ok (Op.click target delivery none)

  abbrev parse_type : List String → Result Op
  parse_type tokens = do
    (delivery, rest) ← take_delivery tokens
    (target, text) ← two "type needs target and text" rest
    ok (Op.type target text delivery none)

  abbrev parse_key : List String → Result Op
  parse_key tokens = do
    (delivery, rest) ← take_delivery tokens
    (target, pressed) ← two "key needs target and key name" rest
    ok (Op.key target pressed delivery none)

  abbrev parse_set_value : List String → Result Op
  parse_set_value tokens =
      map_ok (λ (target, value). Op.set_value target value none)
        (two "set-value needs target and value" tokens)

  unfoldable pub parse_op : String → List String → Result Op
  unfolding take_delivery parse_wait_until_op parse_keybinding_wants parse_screenshot_op
      parse_assert_spec invoke_args
  parse_op name tokens =
      if name == "wait"
      then ok (Op.wait none)
      else if name == "wait_until"
      then parse_wait_until_op tokens
      else if name == "hello"
      then ok Op.hello
      else if name == "snapshot"
      then ok (Op.snapshot none none none)
      else if name == "revision"
      then ok Op.revision
      else if name == "shutdown"
      then ok Op.shutdown
      else if name == "click"
      then parse_click tokens
      else if name == "type"
      then parse_type tokens
      else if name == "set_value"
      then parse_set_value tokens
      else if name == "key"
      then parse_key tokens
      else if name == "keybindings" || name == "keybinding.list"
      then ok Op.keybindings
      else if name == "keybinding"
      then parse_keybinding_wants tokens
      else if name == "assert"
      then map_ok Op.assert (parse_assert_spec tokens)
      else if name == "screenshot"
      then parse_screenshot_op tokens
      else if name == "invoke"
      then parse_invoke tokens
      else err (Error.unknown_op name)

  abbrev pub op_of_tokens : List String → Result Op
  op_of_tokens [] = err (Error.wants_needs "missing op")
  op_of_tokens (name ∷ tokens) = parse_op (replace_char b'-' "_" name) tokens

  abbrev pub wants_step : String → Bool → Op → RecipeStep
  wants_step id screenshot op = record { id = id; needs = []; screenshot = screenshot; op = op }

  unfoldable pub parse_wants_step : List String → String → Result RecipeStep
  unfolding parse_op replace_char
  parse_wants_step tokens id =
      map_ok (wants_step id (any (λ t. t == "--screenshot") tokens))
        (op_of_tokens (filter (λ t. not (t == "--screenshot")) tokens))

  abbrev pub at_line {ℓ} : {A : Type ℓ} → ℕ → Result A → Result A
  at_line n (ok a) = ok a
  at_line n (err e) = err (Error.bad_wants_line n e)

  abbrev pub is_comment : String → Bool
  is_comment line = line == "" || starts_with (codes "#") (codes line)

  abbrev pub wants_tokens : ℕ → Wanted → List String → Result Wanted
  wants_tokens n w [] = ok w
  wants_tokens n w (t ∷ ts) =
      map_ok (add_step w) (at_line n (parse_wants_step (t ∷ ts) ("s" <> show (length w.steps + 1))))

  -- One line, trimmed, with its number from 1
  unfoldable pub wants_line : ℕ → String → Wanted → Result Wanted
  unfolding parse_wants_step collect_placeholders_in_op tokenize show starts_with
  wants_line n line w =
      let parsed = tokenize line >>= wants_tokens n w in if is_comment line then ok w else parsed

  unfoldable pub wants_lines : ℕ → List String → Wanted → Result Wanted
  unfolding wants_line trim_string
  wants_lines n [] w = ok w
  wants_lines n (raw ∷ rest) w = do
    more ← wants_line n (trim_string raw) w
    wants_lines (suc n) rest more

  abbrev pub wanted_recipe : String → Wanted → List RecipeStep → Result Recipe
  wanted_recipe name w [] = err Error.recipe_without_steps
  wanted_recipe name w (s ∷ ss) = ok record {
    v = recipe_format_version;
    name = name;
    app = none;
    params = w.params;
    steps = s ∷ ss;
  }

  unfoldable pub parse_wants : String → String → Result Recipe
  unfolding wants_lines lines
  parse_wants text name = do
    w ← wants_lines 1 (lines text) (record { steps = []; params = [] })
    wanted_recipe name w w.steps

  -- `Recipe::from_json` is serde's: `recipe_json` is what it answers.
  unfoldable pub parse_recipe_source :
      (String → Result Recipe) → String → String → Bool → Result Recipe
  unfolding parse_wants trim_string starts_with
  parse_recipe_source recipe_json text name force_json =
      let trimmed = trim_string text in
      if force_json || starts_with (codes "{") (codes trimmed)
      then recipe_json trimmed
      else parse_wants trimmed name
