-- ===== src/Todo/Tree/Unseen.antt =====
-- What the tree of crates/todo-core/src/lib.rs does not show.
use gpui_agent.Base.{◌≡◌, refl, ap, Bool, true, some}
use gpui_agent.Base.Float.{Float}
use gpui_agent.Event.{EventRing}
use gpui_agent.Tree.{UiNode, UiTree, nil, cons}
use gpui_agent.Tree.Build.{window, button, with_child}
use gpui_agent.Todo.{TodoStore, Page}
use gpui_agent.Todo.Tree.{page_node, nav_node, toggle_name, tree, todos_page, settings_page}

module _ {F : Type 0} ⦃f : Float F⦄ where
  page-unseen :
      (p : Page) (s : TodoStore) (shutdown app_focused : Bool) (events : EventRing)
      → page_node {F = F} p
          (record s { shutdown = shutdown; app_focused = app_focused; events = events })
        ≡ page_node p s
  unfolding todos_page settings_page
  page-unseen Page.todos s shutdown app_focused events = refl
  page-unseen Page.settings s shutdown app_focused events = refl

  -- The tree does not depend on the focus, the wish to stop and the event stream.
  pub tree-unseen :
      (s : TodoStore) (shutdown app_focused : Bool) (events : EventRing)
      → tree {F = F} (record s { shutdown = shutdown; app_focused = app_focused; events = events })
        ≡ tree s
  unfolding tree
  tree-unseen s shutdown app_focused events =
      ap (frame s) (page-unseen s.page s shutdown app_focused events)
    where
      frame : TodoStore → UiNode F → UiTree F
      frame s n = record {
        app = "todo";
        platform = s.platform;
        ready = true;
        nodes =
            cons
              (with_child
                (with_child
                  (with_child (window "todo-window" "Agent Todo")
                    (button "nav-toggle-sidebar" (toggle_name s.sidebar_open)))
                  (nav_node s.sidebar_open))
                n)
              nil;
        rev = some s.rev;
      }
