-- ===== src/Virtual/Plain.antt =====
-- What `keystroke_token` of crates/gpui-agent/src/virtual_input.rs lets through.
use gpui_agent.Base.{
  ◌≡◌, refl, Bool, true, false, ◌||◌, ◌==◌, nat_eq, if◌then◌else◌, if-both, length, any,
}
use gpui_agent.Base.Text.{Text, codes, text_eq, trim, to_ascii_lowercase}
use gpui_agent.Error.{Error, Result, ok, err}
use gpui_agent.Virtual.{
  is_dash, names_modifier, looks_like_modifier_chord, named_token, keystroke_token,
}

-- A token that an answer may hold has no dash in it.
abbrev pub IsPlain : Result Text → Type 0
IsPlain (ok token) = any is_dash token ≡ false
IsPlain (err e) = Unit

named-IsPlain : (lower : Text) → any is_dash lower ≡ false → IsPlain (named_token lower)
named-IsPlain lower h = if-both IsPlain (lower == codes "enter" || lower == codes "return") refl (
    if-both IsPlain (lower == codes "backspace") refl (
      if-both IsPlain (lower == codes "tab") refl (
        if-both IsPlain (lower == codes "escape" || lower == codes "esc") refl (
          if-both IsPlain (lower == codes "space" || lower == codes " ") refl (
            if-both IsPlain (lower == codes "delete" || lower == codes "del") refl
              (if-both IsPlain (length lower == 1) h tt))))))

left-false : (a b : Bool) → a || b ≡ false → a ≡ false
left-false true b h = cc
left-false false b h = refl

no-dash :
    (key : Text)
    → looks_like_modifier_chord key ≡ false
    → any is_dash (to_ascii_lowercase key) ≡ false
unfolding looks_like_modifier_chord
no-dash key h =
    left-false (any is_dash (to_ascii_lowercase key)) (names_modifier (to_ascii_lowercase key)) h

unrefused :
    (key : Text) (b : Bool) (e : Error)
    → looks_like_modifier_chord key ≡ b
    → IsPlain (if b then err e else named_token (to_ascii_lowercase key))
unrefused key true e h = tt
unrefused key false e h = named-IsPlain (to_ascii_lowercase key) (no-dash key h)

-- Whatever the key text, a keystroke token that `keystroke_token` answers has no dash in it, the sign
-- that joins a modifier to a key.
pub keystroke_token-IsPlain : (key : Text) → IsPlain (keystroke_token key)
unfolding keystroke_token
keystroke_token-IsPlain key =
    if-both IsPlain (length (trim key) == 0) tt
      (unrefused (trim key) (looks_like_modifier_chord (trim key)) _ refl)
