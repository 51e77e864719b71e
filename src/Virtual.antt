-- ===== src/Virtual.antt =====
-- In-window pointer and key input: crates/gpui-agent/src/virtual_input.rs.
pub mod Plain
use gpui_agent.Base.{
  ℕ, String, Bool, true, false, ◌&&◌, ◌||◌, Option, none, some, List, [], ◌∷◌, ◌==◌, nat_eq, leb,
  if◌then◌else◌, length, any,
}
use gpui_agent.Base.Text.{Text, codes, text_eq, trim, to_ascii_lowercase, starts_with}
use gpui_agent.Base.Float.{Float}
use gpui_agent.Error.{Error, Result, ok, err, ensure, ◌>>=◌, ◌>>◌}
use gpui_agent.Tree.Rect.{Bounds, has_area, center}
use gpui_agent.Tree.{UiTree, UiNode, attrs}
use gpui_agent.Tree.Roots.{require_id}

pub record VirtualPointerClick (F : Type 0) : Type 0 where
  pub target : String
  pub x : F
  pub y : F

module _ {F : Type 0} ⦃f : Float F⦄ where
  unfoldable pub hit_point : Bounds F → Result (F × F)
  unfolding has_area center
  hit_point b = do
    ensure (has_area b) (Error.virtual_unavailable "target has zero bounds (no layout / hit-test).")
    ok (center b)

  unfoldable pub plan_click : UiTree F → String → Result (VirtualPointerClick F)
  unfolding require_id hit_point
  plan_click tree target = do
    n ← require_id tree target
    point ← hit_point (attrs n).bounds
    ok (record { target = target; x = point.0; y = point.1 })

abbrev is_dash : ℕ → Bool
is_dash c = c == 45

abbrev names_modifier : Text → Bool
names_modifier lower =
    starts_with (codes "cmd") lower
    || starts_with (codes "ctrl") lower
    || starts_with (codes "alt") lower
    || starts_with (codes "shift") lower
    || starts_with (codes "super") lower
    || starts_with (codes "meta") lower
    || starts_with (codes "win") lower

unfoldable pub looks_like_modifier_chord : Text → Bool
unfolding to_ascii_lowercase starts_with
looks_like_modifier_chord key =
    let lower = to_ascii_lowercase key in any is_dash lower || names_modifier lower

-- The `match` on the lower-case text.
abbrev named_token : Text → Result Text
named_token lower =
    if lower == codes "enter" || lower == codes "return"
    then ok (codes "enter")
    else if lower == codes "backspace"
    then ok (codes "backspace")
    else if lower == codes "tab"
    then ok (codes "tab")
    else if lower == codes "escape" || lower == codes "esc"
    then ok (codes "escape")
    else if lower == codes "space" || lower == codes " "
    then ok (codes "space")
    else if lower == codes "delete" || lower == codes "del"
    then ok (codes "delete")
    else if length lower == 1
    then ok lower
    else err (Error.virtual_unavailable "unhandled virtual key")

unfoldable pub keystroke_token : Text → Result Text
unfolding trim looks_like_modifier_chord to_ascii_lowercase
keystroke_token key =
    let trimmed = trim key in
    if length trimmed == 0
    then err (Error.virtual_unavailable "empty key")
    else if looks_like_modifier_chord trimmed
    then err (Error.virtual_unavailable "modifiers are not allowed on free-form key")
    else named_token (to_ascii_lowercase trimmed)
