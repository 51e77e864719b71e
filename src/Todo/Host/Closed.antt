-- ===== src/Todo/Host/Closed.antt =====
-- Whatever holds after each change that the store of crates/todo-core/src/lib.rs makes holds after
-- every operation.
use gpui_agent.Base.{
  ℕ, ◌≡◌, refl, String, Bool, true, false, Option, none, some, ◌==◌, ◌&&◌, string_eq, if◌then◌else◌,
  if-both,
}
use gpui_agent.Modes.{PlatformKind, platform_eq}
use gpui_agent.Error.{Result, ok, err}
use gpui_agent.Event
use gpui_agent.Event.{EventRing}
use gpui_agent.Json.{Value, get_str, get_u64}
use gpui_agent.Protocol.{Op, KeybindingRequest, is_virtual_input}
use gpui_agent.Todo.{
  Page, Todo, TodoStore, bump_revision, go, toggle_confirm_delete, toggle_sidebar, set_draft,
  set_app_focused, add, add_from_draft, toggle, delete,
}
use gpui_agent.Todo.Strings.{◌<>◌, pop, parse_numbered_id}
use gpui_agent.Todo.Host.{
  Reply, todo_result, numbered_at, perform_keybinding, fire_keybinding, click, type_into, set_value,
  key, with_title, with_id, nav_go, invoke, record_invoke, handle, Surroundings, dispatch,
}

-- The one operation that changes the page and leaves the revision.
abbrev pub is_nav_go : Op → Bool
is_nav_go (Op.invoke name args) = name == "nav.go"
is_nav_go _ = false

-- `P` holds after each change of the store `s`.
pub record Closed (s : TodoStore) (P : TodoStore → Type 0) : Type 0 where
  pub same : P s
  pub moved : (p : Page) → P (go s p)
  pub moved_focused : (p : Page) → P (go (set_app_focused s true) p)
  pub focused : P (set_app_focused s true)
  pub folded : P (toggle_sidebar s)
  pub confirmed : P (toggle_confirm_delete s)
  pub drafted : (d : String) → P (set_draft s d)
  pub stopped : P (record s { shutdown = true })
  pub quit : P (bump_revision (record s { shutdown = true }))
  pub quit_focused : P (bump_revision (record (set_app_focused s true) { shutdown = true }))
  pub added : (title : String) → P (add s title).0
  pub toggled : (id : ℕ) → P (toggle s id).0
  pub deleted : (id : ℕ) → P (delete s id).0
  pub recorded : (t : TodoStore) (ring : EventRing) → P t → P (record t { events = ring })

module _ (s : TodoStore) (P : TodoStore → Type 0) (c : Closed s P) where
  either : (b : Bool) (x y : TodoStore × Reply) → P x.0 → P y.0 → P (if b then x else y).0
  either b x y p q = if-both {A = TodoStore × Reply} (λ o. P o.0) b p q

  either-if :
      (b : Bool) (x y : TodoStore × Reply) → (b ≡ true → P x.0) → P y.0 → P (if b then x else y).0
  either-if true x y p q = p refl
  either-if false x y p q = q

  result-todo : (r : TodoStore × Result Todo) → P r.0 → P (todo_result r).0
  result-todo (t, ok todo) p = p
  result-todo (t, err e) p = p

  at-numbered :
      (o : Option ℕ) (run : ℕ → TodoStore × Result Todo) (otherwise : TodoStore × Reply)
      → ((id : ℕ) → P (run id).0)
      → P otherwise.0
      → P (numbered_at o run otherwise).0
  at-numbered none run otherwise p q = q
  at-numbered (some id) run otherwise p q = result-todo (run id) (p id)

  click-Closed : (target : String) → P (click s target).0
  unfolding click
  click-Closed target = either (target == "nav-toggle-sidebar") _ _ c.folded (
      either (target == "nav-todos") _ _ (c.moved Page.todos) (
        either (target == "nav-settings") _ _ (c.moved Page.settings) (
          either (target == "settings-confirm-delete") _ _ c.confirmed (
            either (target == "todo-add") _ _
              (result-todo (add_from_draft s) (unfold add_from_draft in c.added s.draft))
              (at-numbered (parse_numbered_id "todo-toggle-" target) (toggle s) _ c.toggled (
                at-numbered (parse_numbered_id "todo-delete-" target) (delete s) _ c.deleted (
                  at-numbered (parse_numbered_id "todo-item-" target) (toggle s) _ c.toggled
                    c.same)))))))

  type_into-Closed : (target text : String) → P (type_into s target text).0
  unfolding type_into
  type_into-Closed target text =
      either (target == "todo-input") _ _ (c.drafted (s.draft <> text)) c.same

  set_value-Closed : (target text : String) → P (set_value s target text).0
  unfolding set_value
  set_value-Closed target text = either (target == "todo-input") _ _ (c.drafted text) c.same

  key-Closed : (target pressed : String) → P (key s target pressed).0
  unfolding key
  key-Closed target pressed =
      let entered = result-todo (add_from_draft s) (unfold add_from_draft in c.added s.draft) in
      either (target == "todo-input" && pressed == "Enter") _ _ entered (
        either (target == "todo-add" && pressed == "Enter") _ _ entered (
          either (target == "todo-input" && pressed == "Backspace") _ _ (c.drafted (pop s.draft))
            c.same))

  performed :
      (t : TodoStore) (binding : String)
      → P t
      → ((p : Page) → P (go t p))
      → P (bump_revision (record t { shutdown = true }))
      → P (perform_keybinding t binding).0
  unfolding perform_keybinding
  performed t binding same moved quit =
      unfold go in
      either (binding == "todo.focus_input") _ _ (moved Page.todos) (
        either (binding == "todo.go_settings") _ _ (moved Page.settings)
          (either (binding == "app.quit") _ _ quit same))

  performed-after :
      (activate : Bool) (binding : String)
      → P (perform_keybinding (if activate then record s { app_focused = true } else s) binding).0
  unfolding set_app_focused
  performed-after true binding =
      performed (set_app_focused s true) binding c.focused c.moved_focused c.quit_focused
  performed-after false binding = performed s binding c.same c.moved c.quit

  fired : (r : KeybindingRequest) → P (fire_keybinding s (Op.keybinding r)).0
  unfolding fire_keybinding
  fired r =
      either (s.platform == PlatformKind.desktop) _ _ c.same (performed-after r.activate r.binding)

  titled : (o : Option String) → P (with_title s o).0
  titled none = c.same
  titled (some title) = result-todo (add s title) (c.added title)

  with_id-Closed :
      (run : ℕ → TodoStore × Result Todo) (o : Option ℕ)
      → ((id : ℕ) → P (run id).0)
      → P (with_id s run o).0
  with_id-Closed run none p = c.same
  with_id-Closed run (some id) p = result-todo (run id) (p id)

  navigated : (o : Option String) → ((p : Page) → P (record s { page = p })) → P (nav_go s o).0
  navigated none p = c.same
  navigated (some page) p =
      either (page == "todos") _ _ (p Page.todos)
        (either (page == "settings") _ _ (p Page.settings) c.same)

  invoke-Closed :
      (name : String) (args : Value)
      → (name == "nav.go" ≡ true → (p : Page) → P (record s { page = p }))
      → P (invoke s name args).0
  unfolding invoke
  invoke-Closed name args nav = either (name == "todo.add") _ _ (titled (get_str "title" args)) (
      either (name == "todo.toggle") _ _ (with_id-Closed (toggle s) (get_u64 "id" args) c.toggled) (
        either (name == "todo.delete") _ _ (with_id-Closed (delete s) (get_u64 "id" args) c.deleted)
          (either (name == "todo.list") _ _ c.same (
            either-if (name == "nav.go") _ _ (λ e. navigated (get_str "page" args) (nav e))
              (either (name == "todo.toggle_sidebar") _ _ c.folded c.same)))))

  recorded-invoke : (name : String) (r : TodoStore × Reply) → P r.0 → P (record_invoke name r).0
  recorded-invoke name (t, ok v) p =
      c.recorded t (Event.push t.events Event.EventLevel.info "todo" ("invoke " <> name)).0 p
  recorded-invoke name (t, err e) p = p

  handle-Closed :
      (around : Surroundings) (op : Op)
      → (is_nav_go op ≡ true → (p : Page) → P (record s { page = p }))
      → P (handle around s op).0
  handle-Closed around (Op.click target mode fp) nav = click-Closed target
  handle-Closed around (Op.type target text mode fp) nav = type_into-Closed target text
  handle-Closed around (Op.set_value target text fp) nav = set_value-Closed target text
  handle-Closed around (Op.key target pressed mode fp) nav = key-Closed target pressed
  handle-Closed around (Op.keybinding r) nav = fired r
  handle-Closed around (Op.invoke name args) nav =
      recorded-invoke name (invoke s name args) (invoke-Closed name args nav)
  handle-Closed around Op.shutdown nav = c.stopped
  handle-Closed around Op.hello nav = c.same
  handle-Closed around Op.revision nav = c.same
  handle-Closed around Op.keybindings nav = c.same
  handle-Closed around (Op.snapshot since format fps) nav = c.same
  handle-Closed around (Op.events cursor limit) nav = c.same
  handle-Closed around (Op.assert spec) nav = c.same
  handle-Closed around (Op.wait ms) nav = c.same
  handle-Closed around (Op.wait_until ms spec) nav = c.same
  handle-Closed around (Op.screenshot spec) nav = c.same

  -- The operations of the store are made of those changes and, for `nav.go`, a bare change of page.
  pub dispatch-Closed :
      (around : Surroundings) (op : Op)
      → (is_nav_go op ≡ true → (p : Page) → P (record s { page = p }))
      → P (dispatch around s op).0
  unfolding dispatch
  dispatch-Closed around op nav =
      either (is_virtual_input op) _ _ c.same (handle-Closed around op nav)
