-- ===== src/Keybinding.antt =====
-- The allow-list of GPUI Actions: crates/gpui-agent/src/keybinding.rs.
pub mod Authorize
use gpui_agent.Base.{
  ℕ, String, Bool, true, false, Option, none, some, List, [], ◌∷◌, map, ◌==◌, ◌||◌, ◌&&◌, not,
  if◌then◌else◌, filter, find, length, nat_eq, ltb,
}
use gpui_agent.Base.Text.{
  Text, codes, text_eq, trim, to_ascii_lowercase, ends_with, split_whitespace, join, replace,
}
use gpui_agent.Modes.{KeybindingScope, scope_eq}
use gpui_agent.Error.{Error, Result, ok, err, ensure, ◌>>=◌, ◌>>◌}
use gpui_agent.Protocol.{KeybindingRequest, Op}

pub record KeybindingInfo : Type 0 where
  pub id : String
  pub chord : String
  pub scope : KeybindingScope
  pub dangerous : Bool

unfoldable pub is_quit_binding : Text → Bool
unfolding trim to_ascii_lowercase ends_with
is_quit_binding binding =
    let n = to_ascii_lowercase (trim binding) in
    n == codes "quit" || n == codes "app.quit" || ends_with (codes ".quit") n

unfoldable pub normalize_chord : Text → Text
unfolding trim to_ascii_lowercase split_whitespace join replace
normalize_chord chord = replace (codes "control") (codes "ctrl") (
    replace (codes "command") (codes "cmd")
      (join (codes "-") (split_whitespace (to_ascii_lowercase (trim chord)))))

unfoldable pub is_quit_chord : Text → Bool
unfolding normalize_chord
is_quit_chord chord =
    let n = normalize_chord chord in
    n == codes "cmd-q" || n == codes "super-q" || n == codes "meta-q" || n == codes "win-q"

unfoldable pub chords_eq : Text → Text → Bool
unfolding normalize_chord
chords_eq registered given = normalize_chord registered == normalize_chord given

unfoldable pub binding_is_dangerous : KeybindingInfo → Bool
unfolding is_quit_binding is_quit_chord
binding_is_dangerous entry =
    entry.dangerous || is_quit_binding (codes entry.id) || is_quit_chord (codes entry.chord)

unfoldable pub op_is_confirmed_quit : Op → Bool
unfolding is_quit_binding
op_is_confirmed_quit (Op.keybinding r) = r.confirm && is_quit_binding (codes r.binding)
op_is_confirmed_quit _ = false

-- The rows that `keybinding_list_json` puts under "keybindings".
unfoldable pub keybinding_list : List KeybindingInfo → List KeybindingInfo
unfolding binding_is_dangerous
keybinding_list =
    map {A = KeybindingInfo} (λ row. record row { dangerous = binding_is_dangerous row })

unfoldable pub from_op : Op → Result KeybindingRequest
from_op (Op.keybinding r) = ok r
from_op _ = err Error.not_a_keybinding

-- `listener_result`: what a listener recorded, if one ran.
unfoldable pub complete_keybinding_action {ℓ} : {A : Type ℓ} → Option (Result A) → Result A
complete_keybinding_action (some result) = result
complete_keybinding_action none = err (Error.keybinding_unavailable "Action handler did not run")

abbrev is_blank : Text → Bool
is_blank s = length s == 0

-- `request.chord.map(str::trim).filter(|s| !s.is_empty())`
abbrev pub given_chord : Option String → Option Text
given_chord none = none
given_chord (some c) = let t = trim (codes c) in if is_blank t then none else some t

abbrev chord_ok : KeybindingInfo → Option Text → Bool
chord_ok entry none = true
chord_ok entry (some chord) = chords_eq (codes entry.chord) chord

abbrev given : Option Text → Text
given none = []
given (some t) = t

-- The tests that follow the lookup, in the order of the source.
unfoldable pub check_entry : KeybindingInfo → KeybindingRequest → Bool → Result KeybindingInfo
check_entry entry request app_focused = do
  let binding = trim (codes request.binding)
  let chord = given_chord request.chord
  ensure (chord_ok entry chord) (Error.chord_mismatch (given chord) binding entry.chord)
  ensure (not (request.scope == KeybindingScope.global && request.activate))
      Error.activate_needs_focused
  ensure (not (request.scope == KeybindingScope.focused && not app_focused && not request.activate))
      (Error.keybinding_unavailable "app not focused")
  ensure (not (binding_is_dangerous entry && not request.confirm)) (Error.confirm_required binding)
  ok entry

abbrev check_scope :
    Option KeybindingInfo → List KeybindingInfo → KeybindingRequest → Bool → Result KeybindingInfo
check_scope (some entry) by_id request app_focused = check_entry entry request app_focused
check_scope none by_id request app_focused =
    err (
      Error.wrong_scope (trim (codes request.binding)) (map (λ row. row.scope) by_id) request.scope)

abbrev check_listed : List KeybindingInfo → KeybindingRequest → Bool → Result KeybindingInfo
check_listed [] request app_focused = err (Error.unknown_binding (trim (codes request.binding)))
check_listed (row ∷ rows) request app_focused =
    check_scope (find (λ row. row.scope == request.scope) (row ∷ rows)) (row ∷ rows) request
      app_focused

unfoldable pub authorize_keybinding :
    List KeybindingInfo → KeybindingRequest → Bool → Result KeybindingInfo
unfolding check_entry chords_eq binding_is_dangerous
authorize_keybinding catalog request app_focused =
    let binding = trim (codes request.binding) in
    if is_blank binding
    then err Error.binding_required
    else check_listed (filter (λ row. codes row.id == binding) catalog) request app_focused

unfoldable pub authorize_keybinding_op : Op → List KeybindingInfo → Bool → Result KeybindingInfo
unfolding from_op authorize_keybinding
authorize_keybinding_op op catalog app_focused = do
  request ← from_op op
  authorize_keybinding catalog request app_focused
