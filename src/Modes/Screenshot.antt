-- ===== src/Modes/Screenshot.antt =====
-- `as_str` and `from_str` of `ScreenshotMode`. `none` is the error.
use gpui_agent.Base.{String, ◌≡◌, refl, Option, none, some, ◌==◌, ◌||◌, if◌then◌else◌}
use gpui_agent.Base.Text.{Text, codes, trim, to_ascii_lowercase, text_eq}
use gpui_agent.Modes.{ScreenshotMode}

unfoldable pub as_str : ScreenshotMode → String
as_str ScreenshotMode.viewport = "viewport"
as_str ScreenshotMode.scrolled = "scrolled"

unfoldable pub from_str : Text → Option ScreenshotMode
unfolding trim to_ascii_lowercase
from_str s =
    let t = to_ascii_lowercase (trim s) in
    if t == codes "viewport" || t == codes ""
    then some ScreenshotMode.viewport
    else if t == codes "scrolled"
    then some ScreenshotMode.scrolled
    else none

-- What `as_str` prints, `from_str` reads back.
pub from_str-as_str : (m : ScreenshotMode) → from_str (codes (as_str m)) ≡ some m
unfolding as_str from_str
from_str-as_str ScreenshotMode.viewport = refl
from_str-as_str ScreenshotMode.scrolled = refl
