-- ===== src/Modes/Delivery.antt =====
-- `as_str` and `from_str` of `DeliveryMode`. `none` is the error.
use gpui_agent.Base.{String, ◌≡◌, refl, Option, none, some, ◌==◌, ◌||◌, if◌then◌else◌}
use gpui_agent.Base.Text.{Text, codes, trim, to_ascii_lowercase, text_eq}
use gpui_agent.Modes.{DeliveryMode}

unfoldable pub as_str : DeliveryMode → String
as_str DeliveryMode.semantic = "semantic"
as_str DeliveryMode.virtual = "virtual"

unfoldable pub from_str : Text → Option DeliveryMode
unfolding trim to_ascii_lowercase
from_str s =
    let t = to_ascii_lowercase (trim s) in
    if t == codes "semantic" || t == codes ""
    then some DeliveryMode.semantic
    else if t == codes "virtual"
    then some DeliveryMode.virtual
    else none

-- What `as_str` prints, `from_str` reads back.
pub from_str-as_str : (m : DeliveryMode) → from_str (codes (as_str m)) ≡ some m
unfolding as_str from_str
from_str-as_str DeliveryMode.semantic = refl
from_str-as_str DeliveryMode.virtual = refl
