-- ===== src/Recipe/Wants/Tokens.antt =====
-- The lines and tokens of a `.wants` file: `tokenize` of crates/gpui-agent-recipe/src/recipe.rs, with
-- the parts of Rust's `str` that the parser uses on texts that it keeps.
use Prim.Native.Char.{Char, code}
use mathlib.Core.Option
use gpui_agent.Base.{
  ℕ, String, Bool, true, false, Option, none, some, List, [], ◌∷◌, ◌++◌, ◌==◌, ◌||◌, nat_eq,
  if◌then◌else◌,
}
use gpui_agent.Base.Text.{is_whitespace}
use gpui_agent.Error.{Error, Result, ok, err, ◌>>=◌}
use gpui_agent.Todo.Strings.{◌<>◌}

abbrev pub one : Char → String
one c = String.◌∷◌ c ""

-- `str::lines`: a `\r` in front of the end of a line is left, and is trimmed later.
lines_from : String → String → List String
lines_from line String.[] = line ∷ []
lines_from line (String.◌∷◌ c s) =
    let ended = line ∷ lines_from "" s in
    let on = lines_from (line <> one c) s in if code c == 10 then ended else on

-- `str::split_once` on a character
unfoldable pub split_once : ℕ → String → Option (String × String)
split_once d String.[] = none
split_once d (String.◌∷◌ c s) =
    let more =
      Option.map {A = String × String} (λ (key, raw). (String.◌∷◌ c key, raw)) (split_once d s) in
    if code c == d then some ("", s) else more

-- `str::replace` of one character by another
unfoldable pub replace_char : ℕ → String → String → String
replace_char d by String.[] = ""
replace_char d by (String.◌∷◌ c s) =
    let rest = replace_char d by s in if code c == d then by <> rest else String.◌∷◌ c rest

-- Outside of quotes, inside, and behind a backslash inside.
pub data Mode : Type 0 where
  plain : Mode
  quoted escaped : ℕ → Mode

pub record Scan : Type 0 where
  pub mode : Mode
  pub buf : String
  pub tokens : List String

abbrev is_quote : ℕ → Bool
is_quote c = c == b'"' || c == b'\''

abbrev flush : String → List String → List String
flush String.[] tokens = tokens
flush (String.◌∷◌ c s) tokens = tokens ++ String.◌∷◌ c s ∷ []

-- The token ends here: at the end of the line or in front of a blank.
abbrev at_end : String → Bool
at_end String.[] = true
at_end (String.◌∷◌ c s) = is_whitespace (code c)

abbrev with_buf : Mode → String → List String → Scan
with_buf mode buf tokens = record { mode = mode; buf = buf; tokens = tokens }

-- One character, with what follows it.
unfoldable pub scan_char : Mode → Char → String → String → List String → Scan
unfolding is_whitespace
scan_char plain c s buf tokens =
    if is_quote (code c)
    then with_buf (quoted (code c)) buf tokens
    else if is_whitespace (code c)
    then with_buf plain "" (flush buf tokens)
    else with_buf plain (buf <> one c) tokens
scan_char (quoted q) c s buf tokens =
    if code c == q
    then (if at_end s then with_buf plain "" (tokens ++ buf ∷ []) else with_buf plain buf tokens)
    else if code c == b'\\'
    then with_buf (escaped q) buf tokens
    else with_buf (quoted q) (buf <> one c) tokens
scan_char (escaped q) c s buf tokens = with_buf (quoted q) (buf <> one c) tokens

abbrev ended : Mode → String → List String → Result (List String)
ended plain buf tokens = ok (flush buf tokens)
ended (quoted q) buf tokens = err Error.unterminated_quote
ended (escaped q) buf tokens = err Error.unterminated_quote

unfoldable pub scan : Mode → String → String → List String → Result (List String)
unfolding scan_char
scan mode String.[] buf tokens = ended mode buf tokens
scan mode (String.◌∷◌ c s) buf tokens =
    let next = scan_char mode c s buf tokens in scan next.mode s next.buf next.tokens

unfoldable pub tokenize : String → Result (List String)
unfolding scan
tokenize line = scan plain line "" []

unfoldable pub lines : String → List String
unfolding lines_from
lines s = lines_from "" s

-- `while i < tokens.len()` with a look at the next token: the step says whether it took that too.
abbrev peek : List String → Option String
peek [] = none
peek (t ∷ ts) = some t

unfoldable pub each_token :
    {A : Type 0}
    → (String → Option String → A → Result (A × Bool))
    → Bool
    → List String
    → A
    → Result A
each_token step skip [] a = ok a
each_token step true (t ∷ ts) a = each_token step false ts a
each_token step false (t ∷ ts) a = do (b, took) ← step t (peek ts) a; each_token step took ts b
