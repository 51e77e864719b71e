-- ===== src/Recipe/Wants/Flags.antt =====
-- The arguments of the lines of a `.wants` file: crates/gpui-agent-recipe/src/recipe.rs.
use gpui_agent.Base.{
  ℕ, ◌^◌, String, Bool, true, false, Option, none, some, List, [], ◌∷◌, ◌==◌, ◌||◌, ◌&&◌, not,
  nat_eq, string_eq, option_eq, if◌then◌else◌, ltb, length,
}
use gpui_agent.Base.Text.{codes, trim, parse_u64, starts_with, is_some}
use gpui_agent.Error.{Error, Result, ok, err, ensure, map_ok, ◌>>=◌, ◌>>◌}
use gpui_agent.Modes.{DeliveryMode, KeybindingScope, ScreenshotMode, is_scrolled}
use gpui_agent.Modes.Delivery
use gpui_agent.Modes.Scope
use gpui_agent.Modes.Screenshot
use gpui_agent.Protocol.{AssertSpec, ScreenshotSpec, Op}
use gpui_agent.Recipe.Wants.Tokens.{split_once, each_token}

-- `ok_or_else` with a message that has no values
abbrev pub or_needs {ℓ} : {A : Type ℓ} → Option A → String → Result A
or_needs none message = err (Error.wants_needs message)
or_needs (some a) message = ok a

abbrev parsed_mode {ℓ} : {A : Type ℓ} → Option A → String → String → Result A
parsed_mode none kind raw = err (Error.bad_mode kind raw)
parsed_mode (some a) kind raw = ok a

abbrev pub is_flag : String → Bool
is_flag token = starts_with (codes "-") (codes token)

-- `take_delivery`: the mode and the other tokens.
unfoldable pub take_delivery : List String → Result (DeliveryMode × List String)
unfolding Delivery.from_str
take_delivery [] = ok (DeliveryMode.semantic, [])
take_delivery (t ∷ []) =
    if t == "--delivery"
    then err (Error.wants_needs "--delivery needs semantic or virtual")
    else ok (DeliveryMode.semantic, t ∷ [])
take_delivery (t ∷ raw ∷ rest) =
    if t == "--delivery"
    then map_ok (λ mode. (mode, rest)) (parsed_mode (Delivery.from_str (codes raw)) "delivery" raw)
    else ok (DeliveryMode.semantic, t ∷ raw ∷ rest)

-- A flag that may be followed by `true` or `false`: its value, and whether it was followed so.
abbrev pub optional_bool : Option String → Bool × Bool
optional_bool none = (true, false)
optional_bool (some t) =
    if t == "true" then (true, true) else if t == "false" then (false, true) else (true, false)

-- The variables of the loop of `parse_keybinding_wants`
pub record KeybindingArgs : Type 0 where
  pub binding : Option String
  pub chord : Option String
  pub scope : Option KeybindingScope
  pub confirm : Bool
  pub activate : Bool

unfoldable pub keybinding_token :
    String → Option String → KeybindingArgs → Result (KeybindingArgs × Bool)
unfolding Scope.from_str starts_with
keybinding_token token next a =
    if token == "--id" || token == "--binding"
    then map_ok (λ v. (record a { binding = some v }, true)) (or_needs next "keybinding needs --id")
    else if token == "--scope"
    then (or_needs next "--scope needs focused or global" >>= λ raw.
        map_ok (λ v. (record a { scope = some v }, true))
          (parsed_mode (Scope.from_str (codes raw)) "scope" raw))
    else if token == "--chord"
    then map_ok (λ v. (record a { chord = some v }, true)) (or_needs next "--chord needs a value")
    else if token == "--confirm"
    then (let (value, took) = optional_bool next in ok (record a { confirm = value }, took))
    else if token == "--activate"
    then (let (value, took) = optional_bool next in ok (record a { activate = value }, took))
    else if not (is_flag token) && not (is_some a.binding)
    then ok (record a { binding = some token }, false)
    else err (Error.bad_token "keybinding" token)

abbrev no_keybinding : KeybindingArgs
no_keybinding = record {
  binding = none;
  chord = none;
  scope = none;
  confirm = false;
  activate = false;
}

unfoldable pub parse_keybinding_wants : List String → Result Op
unfolding keybinding_token each_token
parse_keybinding_wants tokens = do
  a ← each_token keybinding_token false tokens no_keybinding
  binding ← or_needs a.binding "keybinding needs --id"
  scope ← or_needs a.scope "keybinding needs --scope focused|global"
  ok (
      Op.keybinding (record {
        binding = binding;
        chord = a.chord;
        scope = scope;
        confirm = a.confirm;
        activate = a.activate;
      }))

abbrev below : ℕ → Option ℕ → Option ℕ
below bound none = none
below bound (some n) = if ltb n bound then some n else none

-- A number, of 32 bits for a height and of 64 for a time
abbrev number : String → String → ℕ → Result ℕ
number kind raw bits = elim (below (2 ^ bits) (parse_u64 (codes raw))) [
  | none ↦ err (Error.bad_number kind raw)
  | some n ↦ ok n
]

unfoldable pub screenshot_token :
    String → Option String → ScreenshotSpec → Result (ScreenshotSpec × Bool)
unfolding Screenshot.from_str starts_with parse_u64
screenshot_token token next a =
    if token == "--out"
    then map_ok (λ v. (record a { path = some v }, true)) (or_needs next "--out needs a path")
    else if token == "--mode"
    then (or_needs next "--mode needs viewport or scrolled" >>= λ raw.
        map_ok (λ v. (record a { mode = v }, true))
          (parsed_mode (Screenshot.from_str (codes raw)) "mode" raw))
    else if token == "--target"
    then map_ok (λ v. (record a { target = some v }, true))
        (or_needs next "--target needs a scroll-view id")
    else if token == "--max-height-px"
    then (or_needs next "--max-height-px needs a number" >>= λ raw.
        map_ok (λ v. (record a { max_height_px = some v }, true)) (number "max_height_px" raw 32))
    else if not (is_flag token) && not (is_some a.path)
    then ok (record a { path = some token }, false)
    else err (Error.bad_token "screenshot" token)

abbrev no_screenshot : ScreenshotSpec
no_screenshot = record {
  path = none;
  mode = ScreenshotMode.viewport;
  target = none;
  max_height_px = none;
}

abbrev blank_target : Option String → Bool
blank_target none = true
blank_target (some t) = length (trim (codes t)) == 0

unfoldable pub parse_screenshot_op : List String → Result Op
unfolding screenshot_token each_token trim
parse_screenshot_op tokens = do
  a ← each_token screenshot_token false tokens no_screenshot
  ensure (not (is_scrolled a.mode && blank_target a.target))
      (Error.wants_needs "screenshot mode=scrolled requires --target")
  ok (Op.screenshot a)

unfoldable pub parse_bool : String → Result Bool
parse_bool raw =
    if raw == "true"
    then ok true
    else if raw == "false"
    then ok false
    else err (Error.expected_bool raw)

unfoldable pub apply_assert_kv : AssertSpec → String → String → Result AssertSpec
unfolding parse_bool
apply_assert_kv spec field raw =
    if field == "name"
    then ok (record spec { name = some raw })
    else if field == "value"
    then ok (record spec { value = some raw })
    else if field == "role"
    then ok (record spec { role = some raw })
    else if field == "checked"
    then map_ok (λ b. record spec { checked = some b }) (parse_bool raw)
    else if field == "exists"
    then map_ok (λ b. record spec { exists = some b }) (parse_bool raw)
    else if field == "visible"
    then map_ok (λ b. record spec { visible = some b }) (parse_bool raw)
    else if field == "in_viewport" || field == "in-viewport"
    then map_ok (λ b. record spec { in_viewport = some b }) (parse_bool raw)
    else if field == "target" || field == "id"
    then ok (record spec { target = raw })
    else err (Error.unknown_assert_field field)

-- The cases behind the flags: `key=value`, the target, or neither.
abbrev assert_word : AssertSpec → String → Option (String × String) → Result (AssertSpec × Bool)
assert_word spec token (some (field, raw)) =
    map_ok (λ s. (s, false)) (apply_assert_kv spec field raw)
assert_word spec token none =
    if spec.target == "" && not (is_flag token)
    then ok (record spec { target = token }, false)
    else err (Error.bad_token "assert" token)

unfoldable pub assert_token : String → Option String → AssertSpec → Result (AssertSpec × Bool)
unfolding apply_assert_kv split_once starts_with
assert_token token next spec =
    if token == "--id" || token == "--target"
    then map_ok (λ v. (record spec { target = v }, true)) (or_needs next "missing assert target")
    else if token == "--name"
    then map_ok (λ v. (record spec { name = some v }, true)) (or_needs next "missing --name")
    else if token == "--value"
    then map_ok (λ v. (record spec { value = some v }, true)) (or_needs next "missing --value")
    else if token == "--role"
    then map_ok (λ v. (record spec { role = some v }, true)) (or_needs next "missing --role")
    else if token == "--checked"
    then (let (value, took) = optional_bool next in ok (record spec { checked = some value }, took))
    else if token == "--exists"
    then (let (value, took) = optional_bool next in ok (record spec { exists = some value }, took))
    else if token == "--absent"
    then ok (record spec { exists = some false }, false)
    else if token == "--visible"
    then (let (value, took) = optional_bool next in ok (record spec { visible = some value }, took))
    else if token == "--in-viewport" || token == "--in_viewport"
    then (let (value, took) = optional_bool next in
        ok (record spec { in_viewport = some value }, took))
    else assert_word spec token (split_once b'=' token)

abbrev no_spec : AssertSpec
no_spec = record {
  target = "";
  name = none;
  value = none;
  role = none;
  checked = none;
  exists = none;
  visible = none;
  in_viewport = none;
}

unfoldable pub parse_assert_spec : List String → Result AssertSpec
unfolding assert_token each_token
parse_assert_spec tokens = do
  spec ← each_token assert_token false tokens no_spec
  ensure (not (spec.target == "")) (Error.wants_needs "assert needs a target")
  ok spec
