-- ===== src/Todo.antt =====
-- The store of the demo application: crates/todo-core/src/lib.rs. Counters are plain numbers.
pub mod Strings
pub mod Tree
pub mod Host
use gpui_agent.Base.{
  ℕ, ◌+◌, String, Bool, true, false, not, Option, none, some, List, [], ◌∷◌, ◌++◌, ◌==◌, nat_eq,
  string_eq, if◌then◌else◌,
}
use gpui_agent.Modes.{PlatformKind}
use gpui_agent.Error.{Error, Result, ok, err}
use gpui_agent.Event.{EventRing}
use gpui_agent.Event
use gpui_agent.Todo.Strings.{trim_string}

pub data Page : Type 0 where
  todos settings : Page

pub record Todo : Type 0 where
  pub id : ℕ
  pub title : String
  pub done : Bool

pub record TodoStore : Type 0 where
  pub next_id : ℕ
  pub items : List Todo
  pub draft : String
  pub page : Page
  pub confirm_delete : Bool
  pub sidebar_open : Bool
  pub platform : PlatformKind
  pub shutdown : Bool
  pub app_focused : Bool
  pub rev : ℕ
  pub events : EventRing

unfoldable pub new : PlatformKind → TodoStore
new platform = record {
  next_id = 1;
  items = [];
  draft = "";
  page = Page.todos;
  confirm_delete = false;
  sidebar_open = true;
  platform = platform;
  shutdown = false;
  app_focused = false;
  rev = 0;
  events = Event.default;
}

unfoldable pub bump_revision : TodoStore → TodoStore
bump_revision s = record s { rev = s.rev + 1 }

unfoldable pub go : TodoStore → Page → TodoStore
unfolding bump_revision
go s page = bump_revision (record s { page = page })

unfoldable pub toggle_confirm_delete : TodoStore → TodoStore
unfolding bump_revision
toggle_confirm_delete s = bump_revision (record s { confirm_delete = not s.confirm_delete })

unfoldable pub toggle_sidebar : TodoStore → TodoStore
unfolding bump_revision
toggle_sidebar s = bump_revision (record s { sidebar_open = not s.sidebar_open })

unfoldable pub set_draft : TodoStore → String → TodoStore
unfolding bump_revision
set_draft s draft = bump_revision (record s { draft = draft })

unfoldable pub set_app_focused : TodoStore → Bool → TodoStore
set_app_focused s focused = record s { app_focused = focused }

unfoldable pub add : TodoStore → String → TodoStore × Result Todo
unfolding trim_string bump_revision
add s given =
    let title = trim_string given in
    let todo : Todo = record { id = s.next_id; title = title; done = false } in
    if title == "" then (s, err Error.empty_title) else (
      bump_revision
          (record s { next_id = s.next_id + 1; items = s.items ++ todo ∷ []; draft = "" }),
      ok todo,
    )

unfoldable pub add_from_draft : TodoStore → TodoStore × Result Todo
unfolding add
add_from_draft s = add s s.draft

abbrev keep_item : Todo → Option (Todo × List Todo) → Option (Todo × List Todo)
keep_item t none = none
keep_item t (some (u, us)) = some (u, t ∷ us)

-- The first item with the id, flipped, and the items with it.
unfoldable pub flip_item : ℕ → List Todo → Option (Todo × List Todo)
flip_item id [] = none
flip_item id (t ∷ ts) =
    let flipped = record t { done = not t.done } in
    let rest = keep_item t (flip_item id ts) in
    if t.id == id then some (flipped, flipped ∷ ts) else rest

-- The first item with the id, and the items without it.
unfoldable pub remove_item : ℕ → List Todo → Option (Todo × List Todo)
remove_item id [] = none
remove_item id (t ∷ ts) =
    let rest = keep_item t (remove_item id ts) in if t.id == id then some (t, ts) else rest

-- `toggle` and `delete` differ in what becomes of the item that they look up.
abbrev replace_items : TodoStore → ℕ → Option (Todo × List Todo) → TodoStore × Result Todo
replace_items s id none = (s, err (Error.todo_not_found id))
replace_items s id (some (t, items)) = (record s { items = items; rev = s.rev + 1 }, ok t)

unfoldable pub toggle : TodoStore → ℕ → TodoStore × Result Todo
unfolding flip_item
toggle s id = replace_items s id (flip_item id s.items)

unfoldable pub delete : TodoStore → ℕ → TodoStore × Result Todo
unfolding remove_item
delete s id = replace_items s id (remove_item id s.items)
