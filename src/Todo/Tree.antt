-- ===== src/Todo/Tree.antt =====
-- The tree that the store shows: `tree` of crates/todo-core/src/lib.rs.
pub mod Unseen
use gpui_agent.Base.{
  ℕ, String, Bool, true, false, Option, none, some, List, [], ◌∷◌, if◌then◌else◌, length, filter,
}
use gpui_agent.Base.Float.{Float}
use gpui_agent.Tree.{UiNode, Nodes, nil, cons, UiTree}
use gpui_agent.Tree.Build.{
  window, page, navigation, button, textbox, list, listitem, scroll, checkbox, note, status,
  with_value, with_checked, with_child, with_children, with_visible_deep,
}
use gpui_agent.Todo.{Todo, TodoStore, Page}
use gpui_agent.Todo.Strings.{◌<>◌, show}

-- `ids::item`, `ids::toggle` and `ids::delete`
unfoldable pub item_id : ℕ → String
unfolding show
item_id id = "todo-item-" <> show id

unfoldable pub toggle_id : ℕ → String
unfolding show
toggle_id id = "todo-toggle-" <> show id

unfoldable pub delete_id : ℕ → String
unfolding show
delete_id id = "todo-delete-" <> show id

abbrev count_done : List Todo → ℕ
count_done items = length (filter (λ (t : Todo). t.done) items)

abbrev status_name : List Todo → String
status_name [] = "No todos"
status_name (t ∷ ts) = show (length (t ∷ ts)) <> " todos, " <> show (count_done (t ∷ ts)) <> " done"

abbrev toggle_name : Bool → String
toggle_name true = "Hide sidebar"
toggle_name false = "Show sidebar"

module _ {F : Type 0} ⦃f : Float F⦄ where
  unfoldable pub item_node : Todo → UiNode F
  unfolding item_id toggle_id delete_id listitem checkbox button with_checked with_child
  item_node t =
      with_child
        (with_child (with_checked (listitem (item_id t.id) t.title) t.done)
          (with_checked (checkbox (toggle_id t.id) t.title) t.done))
        (button (delete_id t.id) ("Delete " <> t.title))

  unfoldable pub item_nodes : List Todo → Nodes F
  unfolding item_node
  item_nodes [] = nil
  item_nodes (t ∷ ts) = cons (item_node t) (item_nodes ts)

  abbrev list_children : List Todo → Nodes F
  list_children [] = cons (note "todo-empty" "No todos yet. Add one above.") nil
  list_children (t ∷ ts) = item_nodes (t ∷ ts)

  unfoldable pub todos_page : TodoStore → UiNode F
  unfolding page with_child with_children with_value textbox button scroll list status note
      item_nodes show
  todos_page s =
      let input = with_value (textbox "todo-input" "What needs doing?") s.draft in
      let items = with_children (list "todo-list" "Todos") (list_children s.items) in
      let scrolled = with_child (scroll "todo-list-scroll" "Todo list") items in
      with_child
        (with_child
          (with_child (with_child (page "page-todos" "Todos") input) (button "todo-add" "Add"))
          scrolled)
        (status "todo-status" (status_name s.items))

  unfoldable pub settings_page : TodoStore → UiNode F
  unfolding page with_child checkbox with_checked
  settings_page s =
      with_child (page "page-settings" "Settings")
        (with_checked (checkbox "settings-confirm-delete" "Confirm before delete") s.confirm_delete)

  abbrev page_node : Page → TodoStore → UiNode F
  page_node Page.todos s = todos_page s
  page_node Page.settings s = settings_page s

  abbrev nav_node : Bool → UiNode F
  nav_node sidebar_open =
      let nav =
        with_child (with_child (navigation "todo-nav" "Todo") (button "nav-todos" "Todos"))
          (button "nav-settings" "Settings") in
      if sidebar_open then nav else with_visible_deep nav false

  unfoldable pub tree : TodoStore → UiTree F
  unfolding window navigation button with_child with_visible_deep todos_page settings_page
  tree s =
      let toggle = button "nav-toggle-sidebar" (toggle_name s.sidebar_open) in
      let root =
        with_child
          (with_child (with_child (window "todo-window" "Agent Todo") toggle)
            (nav_node s.sidebar_open))
          (page_node s.page s) in
      record {
        app = "todo";
        platform = s.platform;
        ready = true;
        nodes = cons root nil;
        rev = some s.rev;
      }
