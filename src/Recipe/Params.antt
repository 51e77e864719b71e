-- ===== src/Recipe/Params.antt =====
-- Parameters `$name` and `${name}` in the operations of a recipe: the placeholder functions of
-- crates/gpui-agent-recipe/src/recipe.rs. The source scans bytes; a byte of a character that is not
-- ASCII is none of those it looks for, so the scan is over characters here.
pub mod Bound
pub mod Texts
pub mod Collected
use Prim.Native.Char.{Char, code}
use Prim.Native.String
use mathlib.Core.Option
use gpui_agent.Base.{
  ℕ, zero, suc, ◌+◌, String, Bool, true, false, Option, none, some, List, [], ◌∷◌, ◌==◌, ◌||◌, ◌&&◌,
  not, nat_eq, if◌then◌else◌, length,
}
use gpui_agent.Base.Text.{codes, is_ascii_alphabetic, is_ascii_alphanumeric}
use gpui_agent.Base.Map
use gpui_agent.Base.Map.{Map}
use gpui_agent.Base.Set
use gpui_agent.Todo.Strings.{◌<>◌}
use gpui_agent.Json.{Value, Values, Fields}
use gpui_agent.Error.{Error, Result, ok, err, map_ok, ◌>>=◌}
use gpui_agent.Protocol.{AssertSpec, ScreenshotSpec, Op}

abbrev is_word : ℕ → Bool
is_word c = is_ascii_alphanumeric c || c == b'_'

all_words : String → Bool
unfolding is_ascii_alphanumeric
all_words String.[] = true
all_words (String.◌∷◌ c s) = is_word (code c) && all_words s

unfoldable pub is_ident : String → Bool
unfolding is_ascii_alphabetic all_words
is_ident String.[] = false
is_ident (String.◌∷◌ c s) = (is_ascii_alphabetic (code c) || code c == b'_') && all_words s

-- The longest prefix of letters, digits and `_`
take_word : String → String
unfolding is_ascii_alphanumeric
take_word String.[] = ""
take_word (String.◌∷◌ c s) =
    let more = String.◌∷◌ c (take_word s) in if is_word (code c) then more else ""

-- The text in front of the first `}`
before_brace : String → Option String
before_brace String.[] = none
before_brace (String.◌∷◌ c s) =
    let more = Option.map (String.◌∷◌ c) (before_brace s) in
    if code c == b'}' then some "" else more

abbrev braced : Option String → Option (String × ℕ)
braced none = none
braced (some name) = if is_ident name then some (name, length (codes name) + 2) else none

abbrev bare : String → Option (String × ℕ)
bare String.[] = none
bare (String.◌∷◌ c s) =
    let name = String.◌∷◌ c s in if is_ident name then some (name, length (codes name)) else none

-- The name that follows a `$`, with the number of characters behind the `$` that it takes up.
unfoldable pub parse_placeholder : String → Option (String × ℕ)
unfolding is_ident take_word before_brace
parse_placeholder String.[] = none
parse_placeholder (String.◌∷◌ c s) =
    if code c == b'{' then braced (before_brace s) else bare (take_word (String.◌∷◌ c s))

-- What stands at a character: a placeholder or the character itself.
unfoldable pub placeholder_at : Char → String → Option (String × ℕ)
unfolding parse_placeholder
placeholder_at c s = if code c == b'$' then parse_placeholder s else none

abbrev skipped : Option (String × ℕ) → ℕ
skipped none = 0
skipped (some (name, n)) = n

abbrev noted : Option (String × ℕ) → List String → List String
noted none out = out
noted (some (name, n)) out = Set.insert name out

-- The loop, with a count of characters that a placeholder has taken up.
collect_from : ℕ → String → List String → List String
unfolding placeholder_at
collect_from skip String.[] out = out
collect_from (suc skip) (String.◌∷◌ c s) out = collect_from skip s out
collect_from zero (String.◌∷◌ c s) out =
    let found = placeholder_at c s in collect_from (skipped found) s (noted found out)

unfoldable pub collect_placeholders : String → List String → List String
unfolding collect_from
collect_placeholders s out = collect_from 0 s out

abbrev collect_option : Option String → List String → List String
collect_option none out = out
collect_option (some s) out = collect_placeholders s out

abbrev has_any {ℓ} : {A : Type ℓ} → List A → Bool
has_any [] = false
has_any (x ∷ xs) = true

unfoldable pub string_has_placeholder : String → Bool
unfolding collect_placeholders
string_has_placeholder s = has_any (collect_placeholders s [])

unfoldable mutual
  pub collect_placeholders_in_value : Value → List String → List String
  collect_placeholders_in_value (Value.string s) out = collect_placeholders s out
  collect_placeholders_in_value (Value.array xs) out = collect_in_values xs out
  collect_placeholders_in_value (Value.object fs) out = collect_in_fields fs out
  collect_placeholders_in_value _ out = out

  pub collect_in_values : Values → List String → List String
  collect_in_values Values.nil out = out
  collect_in_values (Values.cons x xs) out =
      collect_in_values xs (collect_placeholders_in_value x out)

  pub collect_in_fields : Fields → List String → List String
  collect_in_fields Fields.empty out = out
  collect_in_fields (Fields.field k v fs) out =
      collect_in_fields fs (collect_placeholders_in_value v out)

abbrev collect_in_assert : AssertSpec → List String → List String
collect_in_assert spec out =
    collect_option spec.role
      (collect_option spec.value (collect_option spec.name (collect_placeholders spec.target out)))

unfoldable pub collect_placeholders_in_op : Op → List String → List String
unfolding collect_placeholders collect_placeholders_in_value
collect_placeholders_in_op (Op.wait_until timeout_ms spec) out = collect_in_assert spec out
collect_placeholders_in_op (Op.assert spec) out = collect_in_assert spec out
collect_placeholders_in_op (Op.click target delivery fp) out = collect_placeholders target out
collect_placeholders_in_op (Op.type target text delivery fp) out =
    collect_placeholders text (collect_placeholders target out)
collect_placeholders_in_op (Op.set_value target value fp) out =
    collect_placeholders value (collect_placeholders target out)
collect_placeholders_in_op (Op.key target pressed delivery fp) out =
    collect_placeholders pressed (collect_placeholders target out)
collect_placeholders_in_op (Op.keybinding r) out =
    collect_option r.chord (collect_placeholders r.binding out)
collect_placeholders_in_op (Op.invoke name args) out =
    collect_placeholders_in_value args (collect_placeholders name out)
collect_placeholders_in_op (Op.screenshot spec) out =
    collect_option spec.target (collect_option spec.path out)
collect_placeholders_in_op _ out = out

contains_dollar : String → Bool
contains_dollar String.[] = false
contains_dollar (String.◌∷◌ c s) = code c == b'$' || contains_dollar s

abbrev bound : String → Option String → Result String
bound name none = err (Error.missing_set name)
bound name (some value) = ok value

-- What takes the place of a character or of the placeholder that begins there.
abbrev piece : Char → Option (String × ℕ) → Map String → Result String
piece c none set = ok (String.◌∷◌ c "")
piece c (some (name, n)) set = bound name (Map.get name set)

substitute_from : ℕ → String → Map String → Result String
unfolding placeholder_at
substitute_from skip String.[] set = ok ""
substitute_from (suc skip) (String.◌∷◌ c s) set = substitute_from skip s set
substitute_from zero (String.◌∷◌ c s) set = do
  let found = placeholder_at c s
  first ← piece c found set
  rest ← substitute_from (skipped found) s set
  ok (first <> rest)

unfoldable pub substitute_string : String → Map String → Result String
unfolding contains_dollar substitute_from
substitute_string input set =
    if not (contains_dollar input) then ok input else substitute_from 0 input set

-- The new value of the string that the source changes in place.
unfoldable pub substitute_string_in_place : String → Map String → Result String
unfolding contains_dollar substitute_string
substitute_string_in_place input set =
    if not (contains_dollar input) then ok input else substitute_string input set

abbrev substitute_option : Option String → Map String → Result (Option String)
substitute_option none set = ok none
substitute_option (some s) set = map_ok some (substitute_string_in_place s set)

unfoldable mutual
  pub substitute_value : Value → Map String → Result Value
  substitute_value (Value.string s) set = map_ok Value.string (substitute_string s set)
  substitute_value (Value.array xs) set = map_ok Value.array (substitute_values xs set)
  substitute_value (Value.object fs) set = map_ok Value.object (substitute_fields fs set)
  substitute_value v set = ok v

  pub substitute_values : Values → Map String → Result Values
  substitute_values Values.nil set = ok Values.nil
  substitute_values (Values.cons x xs) set = do
    y ← substitute_value x set
    ys ← substitute_values xs set
    ok (Values.cons y ys)

  pub substitute_fields : Fields → Map String → Result Fields
  substitute_fields Fields.empty set = ok Fields.empty
  substitute_fields (Fields.field k v fs) set = do
    w ← substitute_value v set
    gs ← substitute_fields fs set
    ok (Fields.field k w gs)

abbrev substitute_assert : AssertSpec → Map String → Result AssertSpec
substitute_assert spec set = do
  target ← substitute_string_in_place spec.target set
  name ← substitute_option spec.name set
  value ← substitute_option spec.value set
  role ← substitute_option spec.role set
  ok (record spec { target = target; name = name; value = value; role = role })

unfoldable pub substitute_op_in_place : Op → Map String → Result Op
unfolding substitute_string_in_place substitute_value
substitute_op_in_place (Op.wait_until timeout_ms spec) set =
    map_ok (Op.wait_until timeout_ms) (substitute_assert spec set)
substitute_op_in_place (Op.assert spec) set = map_ok Op.assert (substitute_assert spec set)
substitute_op_in_place (Op.click target delivery fp) set =
    map_ok (λ t. Op.click t delivery fp) (substitute_string_in_place target set)
substitute_op_in_place (Op.type target text delivery fp) set = do
  t ← substitute_string_in_place target set
  x ← substitute_string_in_place text set
  ok (Op.type t x delivery fp)
substitute_op_in_place (Op.set_value target value fp) set = do
  t ← substitute_string_in_place target set
  x ← substitute_string_in_place value set
  ok (Op.set_value t x fp)
substitute_op_in_place (Op.key target pressed delivery fp) set = do
  t ← substitute_string_in_place target set
  x ← substitute_string_in_place pressed set
  ok (Op.key t x delivery fp)
substitute_op_in_place (Op.keybinding r) set = do
  binding ← substitute_string_in_place r.binding set
  chord ← substitute_option r.chord set
  ok (Op.keybinding (record r { binding = binding; chord = chord }))
substitute_op_in_place (Op.invoke name args) set = do
  n ← substitute_string_in_place name set
  a ← substitute_value args set
  ok (Op.invoke n a)
substitute_op_in_place (Op.screenshot spec) set = do
  path ← substitute_option spec.path set
  target ← substitute_option spec.target set
  ok (Op.screenshot (record spec { path = path; target = target }))
substitute_op_in_place op set = ok op
