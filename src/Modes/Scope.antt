-- ===== src/Modes/Scope.antt =====
-- `as_str` and `from_str` of `KeybindingScope`. `none` is the error.
use gpui_agent.Base.{String, ◌≡◌, refl, Option, none, some, ◌==◌, if◌then◌else◌}
use gpui_agent.Base.Text.{Text, codes, trim, to_ascii_lowercase, text_eq}
use gpui_agent.Modes.{KeybindingScope}

unfoldable pub as_str : KeybindingScope → String
as_str KeybindingScope.focused = "focused"
as_str KeybindingScope.global = "global"

unfoldable pub from_str : Text → Option KeybindingScope
unfolding trim to_ascii_lowercase
from_str s =
    let t = to_ascii_lowercase (trim s) in
    if t == codes "focused"
    then some KeybindingScope.focused
    else if t == codes "global"
    then some KeybindingScope.global
    else none

-- What `as_str` prints, `from_str` reads back.
pub from_str-as_str : (m : KeybindingScope) → from_str (codes (as_str m)) ≡ some m
unfolding as_str from_str
from_str-as_str KeybindingScope.focused = refl
from_str-as_str KeybindingScope.global = refl
