-- ===== src/Dispatch/Assert.antt =====
-- `assert_tree` of dispatch.rs and its geometry check.
pub mod Satisfied
use gpui_agent.Base.{
  ◌≡◌, ◌↔◌, refl, sym, subst, ap, ◌∙◌, ℕ, String, Bool, true, false, not, Option, none, some, List,
  [], ◌∷◌, ◌==◌, string_eq, bool_eq, option_eq, if◌then◌else◌, length, filter, arith, ltb,
}
use gpui_agent.Base.Float.{Float}
use gpui_agent.Modes.{PlatformKind, platform_eq}
use gpui_agent.Error.{Error, Clipless, Result, ok, err, ensure, ◌>>=◌, ◌>>◌}
use gpui_agent.Tree.Rect.{Bounds, has_area, intersects}
use gpui_agent.Tree.{UiNode, Nodes, node, nil, cons, attrs, UiTree}
use gpui_agent.Tree.Search.{or_else}
use gpui_agent.Tree.Roots.{find_all, require_id}
use gpui_agent.Tree.Order.{preorder_in, has_id}
use gpui_agent.Protocol.{AssertSpec}

-- `spec.exists.unwrap_or(true)`
abbrev wants_node : Option Bool → Bool
wants_node none = true
wants_node (some b) = b

module _ {F : Type 0} where
  -- `window_for_target` and its loop over the children.
  unfoldable mutual
    pub window_for_target : UiNode F → String → Option (UiNode F) → Option (UiNode F)
    window_for_target (node a cs) target_id current_window =
        let window = if a.role == "window" then some (node a cs) else current_window in
        let found = window_for_target_in cs target_id window in
        if a.id == target_id then window else found

    pub window_for_target_in : Nodes F → String → Option (UiNode F) → Option (UiNode F)
    window_for_target_in nil target_id window = none
    window_for_target_in (cons n ns) target_id window =
        or_else (window_for_target n target_id window) (window_for_target_in ns target_id window)

  unfoldable pub find_window_for : UiTree F → String → Option (UiNode F)
  unfolding window_for_target
  find_window_for t target_id = window_for_target_in t.nodes target_id none

  abbrev bounds_of : String → Option (UiNode F) → Result (Bounds F)
  bounds_of id none = err (Error.in_viewport_unavailable (Clipless.no_window id))
  bounds_of id (some window) = ok (attrs window).bounds

  unfoldable pub window_clip : UiTree F → UiNode F → Result (Bounds F)
  unfolding find_window_for
  window_clip t target = bounds_of (attrs target).id (find_window_for t (attrs target).id)

  module _ ⦃f : Float F⦄ where
    unfoldable pub node_in_viewport : UiTree F → UiNode F → Result Bool
    unfolding has_area intersects window_clip
    node_in_viewport t n = do
      ensure (not (t.platform == PlatformKind.headless))
          (Error.in_viewport_unavailable Clipless.headless)
      ensure (has_area (attrs n).bounds)
          (Error.in_viewport_unavailable (Clipless.zero_bounds (attrs n).id))
      clip ← window_clip t n
      ensure (has_area clip) (Error.in_viewport_unavailable (Clipless.zero_clip (attrs n).id))
      ok (intersects (attrs n).bounds clip)

    -- One `if let Some(expected) = spec.field { if actual != expected { return Err } }` each.
    abbrev check_name : UiNode F → String → Option String → Result (Unit {0})
    check_name n target none = ok tt
    check_name n target (some name) =
        ensure ((attrs n).name == name) (Error.name_mismatch target name (attrs n).name)

    abbrev check_value : UiNode F → String → Option String → Result (Unit {0})
    check_value n target none = ok tt
    check_value n target (some value) =
        ensure ((attrs n).value == some value) (Error.value_mismatch target value (attrs n).value)

    abbrev check_role : UiNode F → String → Option String → Result (Unit {0})
    check_role n target none = ok tt
    check_role n target (some role) =
        ensure ((attrs n).role == role) (Error.role_mismatch target role (attrs n).role)

    abbrev check_checked : UiNode F → String → Option Bool → Result (Unit {0})
    check_checked n target none = ok tt
    check_checked n target (some checked) =
        ensure ((attrs n).checked == some checked)
          (Error.checked_mismatch target checked (attrs n).checked)

    abbrev check_visible : UiNode F → String → Option Bool → Result (Unit {0})
    check_visible n target none = ok tt
    check_visible n target (some visible) =
        ensure ((attrs n).visible == visible)
          (Error.visible_mismatch target visible (attrs n).visible)

    abbrev check_in_viewport : UiTree F → UiNode F → String → Option Bool → Result (Unit {0})
    check_in_viewport t n target none = ok tt
    check_in_viewport t n target (some expected) = do
      actual ← node_in_viewport t n
      ensure (actual == expected) (Error.in_viewport_mismatch target expected actual)

    -- The body for a target that should exist, after `require_id`.
    unfoldable pub check_node : UiTree F → AssertSpec → UiNode F → Result (Unit {0})
    unfolding node_in_viewport
    check_node t spec n = do
      check_name n spec.target spec.name
      check_value n spec.target spec.value
      check_role n spec.target spec.role
      check_checked n spec.target spec.checked
      check_visible n spec.target spec.visible
      check_in_viewport t n spec.target spec.in_viewport

    abbrev check_absent : String → List (UiNode F) → Result (Unit {0})
    check_absent target [] = ok tt
    check_absent target (n ∷ []) = err (Error.should_be_absent target)
    check_absent target (n ∷ m ∷ ns) = err (Error.duplicate_id target (length (n ∷ m ∷ ns)))

    unfoldable pub assert_tree : UiTree F → AssertSpec → Result (Unit {0})
    unfolding require_id find_all check_node
    assert_tree t spec =
        if wants_node spec.exists
        then (require_id t spec.target >>= check_node t spec)
        else check_absent spec.target (find_all t spec.target)
