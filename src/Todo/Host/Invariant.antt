-- ===== src/Todo/Host/Invariant.antt =====
-- The ids of the store in crates/todo-core/src/lib.rs.
use gpui_agent.Base.{
  ℕ, ◌+◌, ◌≤◌, ◌≡◌, refl, String, false, Option, none, some, List, [], ◌∷◌, ◌++◌, ◌==◌, nat_eq,
  string_eq, if-both, arith,
}
use gpui_agent.Error.{Result}
use gpui_agent.Protocol.{Op}
use gpui_agent.Todo.{
  Todo, TodoStore, bump_revision, go, toggle_confirm_delete, toggle_sidebar, set_draft,
  set_app_focused, add, flip_item, remove_item, keep_item, replace_items, toggle, delete,
}
use gpui_agent.Todo.Strings.{trim_string}
use gpui_agent.Todo.Host.{Surroundings, dispatch}
use gpui_agent.Todo.Host.Closed.{Closed, dispatch-Closed}

-- Ids from `low` on, below `high`, each above the one before it: so no two are the same.
abbrev pub Increasing : ℕ → ℕ → List Todo → Type 0
Increasing low high [] = low ≤ high
Increasing low high (t ∷ ts) = (low ≤ t.id) × Increasing (t.id + 1) high ts

-- The ids of the items increase from 1, and `next_id` is above all of them.
abbrev pub WellFormed : TodoStore → Type 0
WellFormed s = Increasing 1 s.next_id s.items

append-Increasing :
    (low high : ℕ) (t : Todo) (ts : List Todo)
    → t.id ≡ high
    → Increasing low high ts
    → Increasing low (high + 1) (ts ++ t ∷ [])
append-Increasing low high t [] e g = (omega arith, omega arith)
append-Increasing low high t (u ∷ us) e g = (g.0, append-Increasing (u.id + 1) high t us e g.1)

lower-Increasing :
    (low lower high : ℕ) (ts : List Todo)
    → lower ≤ low
    → Increasing low high ts
    → Increasing lower high ts
lower-Increasing low lower high [] e g = omega arith
lower-Increasing low lower high (t ∷ ts) e g = (omega (arith, e, g.0), g.1)

-- What `flip_item` and `remove_item` find, if anything, leaves increasing ids.
abbrev Found : ℕ → ℕ → Option (Todo × List Todo) → Type 0
Found low high none = Unit
Found low high (some (u, us)) = Increasing low high us

keep-Found :
    (low high : ℕ) (t : Todo) (o : Option (Todo × List Todo))
    → low ≤ t.id
    → Found (t.id + 1) high o
    → Found low high (keep_item t o)
keep-Found low high t none e g = tt
keep-Found low high t (some (u, us)) e g = (e, g)

flip-Found :
    (id low high : ℕ) (ts : List Todo) → Increasing low high ts → Found low high (flip_item id ts)
unfolding flip_item
flip-Found id low high [] g = tt
flip-Found id low high (t ∷ ts) g =
    if-both (Found low high) (t.id == id) g
      (keep-Found low high t (flip_item id ts) g.0 (flip-Found id (t.id + 1) high ts g.1))

remove-Found :
    (id low high : ℕ) (ts : List Todo) → Increasing low high ts → Found low high (remove_item id ts)
unfolding remove_item
remove-Found id low high [] g = tt
remove-Found id low high (t ∷ ts) g =
    if-both (Found low high) (t.id == id)
      (lower-Increasing (t.id + 1) low high ts (omega (arith, g.0)) g.1)
      (keep-Found low high t (remove_item id ts) g.0 (remove-Found id (t.id + 1) high ts g.1))

replace-WellFormed :
    (s : TodoStore) (id : ℕ) (o : Option (Todo × List Todo))
    → WellFormed s
    → Found 1 s.next_id o
    → WellFormed (replace_items s id o).0
replace-WellFormed s id none g f = g
replace-WellFormed s id (some (u, us)) g f = f

add-WellFormed : (s : TodoStore) (title : String) → WellFormed s → WellFormed (add s title).0
unfolding add bump_revision
add-WellFormed s title g =
    if-both {A = TodoStore × Result Todo} (λ o. WellFormed o.0) (trim_string title == "") g
      (append-Increasing 1 s.next_id
        (record { id = s.next_id; title = trim_string title; done = false }) s.items refl g)

changes-WellFormed : (s : TodoStore) → WellFormed s → Closed s WellFormed
unfolding go bump_revision toggle_sidebar toggle_confirm_delete set_draft set_app_focused toggle
    delete
changes-WellFormed s g = record {
  same = g;
  moved = λ p. g;
  moved_focused = λ p. g;
  focused = g;
  folded = g;
  confirmed = g;
  drafted = λ d. g;
  stopped = g;
  quit = g;
  quit_focused = g;
  added = λ title. add-WellFormed s title g;
  toggled =
      λ id. replace-WellFormed s id (flip_item id s.items) g (flip-Found id 1 s.next_id s.items g);
  deleted = λ id.
      replace-WellFormed s id (remove_item id s.items) g (remove-Found id 1 s.next_id s.items g);
  recorded = λ t ring h. h;
}

-- `dispatch` keeps a store well formed, whatever the operation: the ids of the items increase in the
-- order of the list and stay below `next_id`, so that no two items have the same id and the next item
-- gets an id that none of them has.
pub dispatch-WellFormed :
    (around : Surroundings) (op : Op) (s : TodoStore)
    → WellFormed s
    → WellFormed (dispatch around s op).0
dispatch-WellFormed around op s g =
    dispatch-Closed s WellFormed (changes-WellFormed s g) around op (λ e p. g)
