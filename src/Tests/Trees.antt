-- ===== src/Tests/Trees.antt =====
-- The tree, its diff and the keybinding gate at concrete inputs.
use gpui_agent.Base.{
  ℕ, ◌≡◌, ◌≢◌, ◌↔◌, refl, true, false, none, some, [], ◌∷◌, filter, head?, length, nat_eq, ◌==◌,
}
use gpui_agent.Base.Map.{get}
use gpui_agent.Error.{ok}
use gpui_agent.Modes.{KeybindingScope}
use gpui_agent.Tree.{Attrs}
use gpui_agent.Tree.Fingerprint.{fingerprint_map, fingerprint_of}
use gpui_agent.Tree.Search.{collect_ids}
use gpui_agent.Tree.Roots
use gpui_agent.Tree.Order.{preorder_in, has_id, searches-preorder, require_id-Required}
use gpui_agent.Tree.Gate.{fingerprint_map-gate}
use gpui_agent.Diff.{changed_fields}
use gpui_agent.Diff.Fields.{
  KeepsKeys, apply_fields, cleared, apply_fields-changed_fields, changed_fields-cleared,
}
use gpui_agent.Diff.Compact.{compact_lines, public_tree, compact_lines-public}
use gpui_agent.Protocol.{KeybindingRequest}
use gpui_agent.Keybinding.{authorize_keybinding}
use gpui_agent.Keybinding.Authorize.{Granted, authorize-Granted}
use gpui_agent.Todo.Host.{keybinding_catalog}
use gpui_agent.Tests.Data.{whole_float, box, plain, ok_button, small_tree}

searches-preorder_example :
    (Roots.find_all small_tree "ok" ≡ filter (has_id "ok") (preorder_in small_tree.nodes))
    × (Roots.find small_tree "ok" ≡ head? (filter (has_id "ok") (preorder_in small_tree.nodes)))
    × (Roots.flatten small_tree ≡ preorder_in small_tree.nodes)
    × (Roots.node_count small_tree ≡ length (preorder_in small_tree.nodes))
searches-preorder_example = searches-preorder small_tree "ok"

require_id-Required_example : Roots.require_id small_tree "ok" ≡ ok ok_button
unfolding preorder_in
require_id-Required_example = require_id-Required small_tree "ok"

fingerprint_map-gate_example :
    (get "ok" (fingerprint_map small_tree) ≡ fingerprint_of small_tree "ok")
    × (fingerprint_of small_tree "ok" ≢ none)
unfolding Roots.require_id collect_ids
fingerprint_map-gate_example = fingerprint_map-gate small_tree "ok" ok_button refl

abbrev ticked : Attrs ℕ
ticked = record (plain "ok" "button") {
  checked = some true;
  states = "checked" ∷ [];
  bounds = box 4 10;
}

plain-KeepsKeys : KeepsKeys (plain "ok" "button") ticked
plain-KeepsKeys = record {
  id_kept = refl;
  value_kept = λ e. refl;
  checked_kept = λ e. refl;
  states_kept = λ e. refl;
  stays_hidden = λ e. refl;
  bounds_read = refl;
  bounds_kept = λ e. cc e;
}

apply_fields-changed_fields_example :
    apply_fields (plain "ok" "button") (changed_fields (plain "ok" "button") ticked) ≡ ticked
apply_fields-changed_fields_example =
    apply_fields-changed_fields (plain "ok" "button") ticked plain-KeepsKeys

same_refl : (x : ℕ) → x == x ≡ true
same_refl x = (nat_eq.beq_iff x x).1 refl

changed_fields-cleared_example : changed_fields ticked (cleared ticked) ≡ []
changed_fields-cleared_example = changed_fields-cleared ticked same_refl

compact_lines-public_example : compact_lines (public_tree small_tree) ≡ compact_lines small_tree
compact_lines-public_example = compact_lines-public small_tree

abbrev quit : KeybindingRequest
quit = record {
  binding = " app.quit ";
  chord = some "Cmd-Q";
  scope = KeybindingScope.global;
  confirm = true;
  activate = false;
}

authorize-Granted_example :
    (authorize_keybinding keybinding_catalog quit false
      ≡ ok (record {
        id = "app.quit";
        chord = "cmd-q";
        scope = KeybindingScope.global;
        dangerous = true;
      }))
    ↔ Granted keybinding_catalog quit false (record {
      id = "app.quit";
      chord = "cmd-q";
      scope = KeybindingScope.global;
      dangerous = true;
    })
authorize-Granted_example =
    authorize-Granted keybinding_catalog quit false (record {
      id = "app.quit";
      chord = "cmd-q";
      scope = KeybindingScope.global;
      dangerous = true;
    })
