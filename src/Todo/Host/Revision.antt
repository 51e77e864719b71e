-- ===== src/Todo/Host/Revision.antt =====
-- The contract of `AgentHost::revision` for the store of crates/todo-core/src/lib.rs.
use gpui_agent.Base.{
  ℕ, ◌<◌, ◌≡◌, ◌∙◌, refl, String, true, false, Option, none, some, List, ◌==◌, string_eq, if-both,
  arith, inl, inr, ◌⊎◌,
}
use gpui_agent.Base.Float.{Float}
use gpui_agent.Error.{Result}
use gpui_agent.Json.{Value, get_str}
use gpui_agent.Protocol.{Op}
use gpui_agent.Todo.{
  Page, Todo, TodoStore, bump_revision, go, toggle_confirm_delete, toggle_sidebar, set_draft,
  set_app_focused, add, flip_item, remove_item, replace_items, toggle, delete,
}
use gpui_agent.Todo.Strings.{trim_string}
use gpui_agent.Event.{EventRing}
use gpui_agent.Todo.Tree.Unseen.{tree-unseen}
use gpui_agent.Todo.Tree.{tree, todos_page, settings_page}
use gpui_agent.Todo.Host.{Surroundings, dispatch, todo_host, invoke}
use gpui_agent.Todo.Host.Closed.{Closed, is_nav_go, dispatch-Closed}
use gpui_agent.Dispatch.Cache.{TreeCache, snapshot}
use gpui_agent.Dispatch.Cache.Coherent.{snapshot-again}

module _ (F : Type 0) ⦃f : Float F⦄ where
  -- The revision grows, or the revision and the tree are those of before.
  abbrev pub Announced : TodoStore → TodoStore → Type 0
  Announced s t = (s.rev < t.rev) ⊎ ((t.rev ≡ s.rev) × (tree {F = F} t ≡ tree s))

  replace-Announced :
      (s : TodoStore) (id : ℕ) (o : Option (Todo × List Todo))
      → Announced s (replace_items s id o).0
  replace-Announced s id none = inr (refl, refl)
  replace-Announced s id (some (u, us)) = inl (omega arith)

  add-Announced : (s : TodoStore) (title : String) → Announced s (add s title).0
  unfolding add bump_revision
  add-Announced s title =
      if-both {A = TodoStore × Result Todo} (λ o. Announced s o.0) (trim_string title == "")
        (inr (refl, refl)) (inl (omega arith))

  recorded-Announced :
      (s t : TodoStore) (ring : EventRing)
      → Announced s t
      → Announced s (record t { events = ring })
  recorded-Announced s t ring (inl h) = inl h
  recorded-Announced s t ring (inr (e, g)) =
      inr (e, tree-unseen t t.shutdown t.app_focused ring ∙ g)

  changes-Announced : (s : TodoStore) → Closed s (Announced s)
  unfolding go bump_revision toggle_sidebar toggle_confirm_delete set_draft set_app_focused toggle
      delete tree todos_page settings_page
  changes-Announced s = record {
    same = inr (refl, refl);
    moved = λ p. inl (omega arith);
    moved_focused = λ p. inl (omega arith);
    focused = inr (refl, tree-unseen s s.shutdown true s.events);
    folded = inl (omega arith);
    confirmed = inl (omega arith);
    drafted = λ d. inl (omega arith);
    stopped = inr (refl, tree-unseen s true s.app_focused s.events);
    quit = inl (omega arith);
    quit_focused = inl (omega arith);
    added = λ title. add-Announced s title;
    toggled = λ id. replace-Announced s id (flip_item id s.items);
    deleted = λ id. replace-Announced s id (remove_item id s.items);
    recorded = recorded-Announced s;
  }

  -- Every operation but `invoke nav.go` that changes the tree also raises the revision, and no such
  -- operation lowers it.
  pub dispatch-Announced :
      (around : Surroundings) (op : Op) (s : TodoStore)
      → is_nav_go op ≡ false
      → Announced s (dispatch around s op).0
  dispatch-Announced around op s e =
      dispatch-Closed s (Announced s) (changes-Announced s) around op (λ g p. cc)

  -- `invoke nav.go` to the settings opens the page and keeps the revision: a session that has just
  -- read the tree answers the next reading with the same tree, that of the page that was left.
  pub nav_go-unannounced :
      (around : Surroundings) (args : Value) (s : TodoStore) (c : TreeCache F)
      → get_str "page" args ≡ some "settings"
      → let next = (dispatch around s (Op.invoke "nav.go" args)).0 in
        (next.page ≡ Page.settings)
        × (snapshot (todo_host around) (snapshot (todo_host around) c s).0 next
            ≡ snapshot (todo_host around) c s)
  unfolding dispatch todo_host invoke
  nav_go-unannounced around args s c e =
      rw e (refl, snapshot-again (todo_host around) c s _ s.rev refl refl)
