-- ===== src/Todo/Strings.antt =====
-- The `String` operations of crates/todo-core/src/lib.rs that build new texts, and
-- `parse_numbered_id` of crates/gpui-agent/src/lib.rs.
use Prim.Native.Char.{Char, code}
use Prim.Native.String
use gpui_agent.Base.{ℕ, zero, suc, ◌+◌, ◌/◌, ◌%◌, String, Option, none, some, ltb, if◌then◌else◌}
use gpui_agent.Base.Text.{Text, codes, is_whitespace, strip_prefix, parse_u64}

infixr 20 ◌<>◌
abbrev pub ◌<>◌ : String → String → String
s <> t = String.◌++◌ s t

trim_start_string : String → String
trim_start_string String.[] = ""
trim_start_string (String.◌∷◌ c s) =
    let rest = trim_start_string s in if is_whitespace (code c) then rest else String.◌∷◌ c s

-- `c` goes in front unless it would only lead the trailing blanks.
abbrev keep : Char → String → String
keep c String.[] = if is_whitespace (code c) then "" else String.◌∷◌ c ""
keep c (String.◌∷◌ d s) = String.◌∷◌ c (String.◌∷◌ d s)

trim_end_string : String → String
trim_end_string String.[] = ""
trim_end_string (String.◌∷◌ c s) = keep c (trim_end_string s)

-- `str::trim`
unfoldable pub trim_string : String → String
unfolding trim_start_string trim_end_string is_whitespace
trim_string s = trim_end_string (trim_start_string s)

-- `String::pop`
unfoldable pub pop : String → String
pop String.[] = ""
pop (String.◌∷◌ c String.[]) = ""
pop (String.◌∷◌ c (String.◌∷◌ d s)) = String.◌∷◌ c (pop (String.◌∷◌ d s))

abbrev digit : ℕ → String
digit n = String.slice "0123456789" n (n + 1)

-- The decimal digits, at most as many as the fuel says and one more.
decimal : ℕ → ℕ → String
decimal zero n = digit (n % 10)
decimal (suc fuel) n =
    let more = decimal fuel (n / 10) <> digit (n % 10) in if ltb n 10 then digit n else more

-- `format!("{n}")`: a `u64` has at most twenty digits.
unfoldable pub show : ℕ → String
unfolding decimal
show n = decimal 20 n

abbrev parsed : Option Text → Option ℕ
parsed none = none
parsed (some rest) = parse_u64 rest

unfoldable pub parse_numbered_id : String → String → Option ℕ
unfolding strip_prefix parse_u64
parse_numbered_id prefix target = parsed (strip_prefix (codes prefix) (codes target))
