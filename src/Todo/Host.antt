-- ===== src/Todo/Host.antt =====
-- `AgentHost` for the store: the private handlers and `dispatch` of crates/todo-core/src/lib.rs.
-- The operating system's name and the outcome of the checks on a screenshot path, which ask the file
-- system, come from outside.
pub mod Closed
pub mod Invariant
pub mod Revision
pub mod Session
use gpui_agent.Base.{
  ℕ, String, Bool, true, false, Option, none, some, List, [], ◌∷◌, ◌==◌, ◌&&◌, string_eq,
  if◌then◌else◌,
}
use gpui_agent.Base.Text.{codes}
use gpui_agent.Base.Float.{Float}
use gpui_agent.Modes.{PlatformKind, platform_eq, DeliveryMode, KeybindingScope, HelloAuth}
use gpui_agent.Error.{Error, Result, ok, err, ensure, ◌>>=◌, ◌>>◌}
use gpui_agent.Event
use gpui_agent.Event.{EventLevel}
use gpui_agent.Json.{Value, get_str, get_u64}
use gpui_agent.Protocol.{
  Op, HelloInfo, ScreenshotSpec, KeybindingRequest, protocol_version, is_virtual_input,
}
use gpui_agent.Keybinding.{KeybindingInfo, keybinding_list}
use gpui_agent.Host.{AgentHost}
use gpui_agent.Todo.{
  Page, Todo, TodoStore, bump_revision, go, toggle_confirm_delete, toggle_sidebar, set_draft, add,
  add_from_draft, toggle, delete,
}
use gpui_agent.Todo.Strings.{◌<>◌, pop, parse_numbered_id}
use gpui_agent.Todo.Tree.{tree}

-- The JSON that the store answers with.
pub data TodoJson : Type 0 where
  todo : Todo → TodoJson
  items : List Todo → TodoJson
  value : String → TodoJson
  sidebar_open confirm_delete : Bool → TodoJson
  action : String → KeybindingScope → Bool → TodoJson
  rows : List KeybindingInfo → TodoJson

abbrev pub Reply : Type 0
Reply = Result (Option TodoJson)

abbrev key_focus_input : String
key_focus_input = "todo.focus_input"

abbrev key_go_settings : String
key_go_settings = "todo.go_settings"

abbrev key_quit : String
key_quit = "app.quit"

unfoldable pub keybinding_catalog : List KeybindingInfo
keybinding_catalog =
    record {
      id = key_focus_input;
      chord = "cmd-n";
      scope = KeybindingScope.focused;
      dangerous = false;
    }
    ∷ record {
      id = key_go_settings;
      chord = "cmd-shift-s";
      scope = KeybindingScope.global;
      dangerous = false;
    }
    ∷ record { id = key_quit; chord = "cmd-q"; scope = KeybindingScope.global; dangerous = true }
    ∷ []

unfoldable pub perform_keybinding : TodoStore → String → TodoStore × Reply
unfolding bump_revision
perform_keybinding s binding =
    if binding == key_focus_input
    then (
      bump_revision (record s { page = Page.todos }),
      ok (some (TodoJson.action key_focus_input KeybindingScope.focused false)),
    )
    else if binding == key_go_settings
    then (
      bump_revision (record s { page = Page.settings }),
      ok (some (TodoJson.action key_go_settings KeybindingScope.global false)),
    )
    else if binding == key_quit
    then (
      bump_revision (record s { shutdown = true }),
      ok (some (TodoJson.action key_quit KeybindingScope.global true)),
    )
    else (s, err (Error.unknown_binding (codes binding)))

unfoldable pub fire_keybinding : TodoStore → Op → TodoStore × Reply
unfolding perform_keybinding
fire_keybinding s (Op.keybinding r) =
    if s.platform == PlatformKind.desktop
    then (
      s,
      err (Error.keybinding_unavailable "desktop keybinding fire must run on the GPUI UI thread"),
    )
    else perform_keybinding (if r.activate then record s { app_focused = true } else s) r.binding
fire_keybinding s _ =
    if s.platform == PlatformKind.desktop
    then (
      s,
      err (Error.keybinding_unavailable "desktop keybinding fire must run on the GPUI UI thread"),
    )
    else (s, err Error.not_a_keybinding)

-- `.map(todo_result)`
abbrev todo_result : TodoStore × Result Todo → TodoStore × Reply
todo_result (s, ok t) = (s, ok (some (TodoJson.todo t)))
todo_result (s, err e) = (s, err e)

abbrev numbered_at :
    Option ℕ → (ℕ → TodoStore × Result Todo) → TodoStore × Reply → TodoStore × Reply
numbered_at none run otherwise = otherwise
numbered_at (some id) run otherwise = todo_result (run id)

-- One case of the chain of `if let Some(id) = parse_numbered_id(prefix, target)`.
abbrev numbered :
    String → String → (ℕ → TodoStore × Result Todo) → TodoStore × Reply → TodoStore × Reply
numbered prefix target run otherwise = numbered_at (parse_numbered_id prefix target) run otherwise

unfoldable pub click : TodoStore → String → TodoStore × Reply
unfolding toggle_sidebar go toggle_confirm_delete add_from_draft toggle delete parse_numbered_id
click s target =
    if target == "nav-toggle-sidebar"
    then (let moved = toggle_sidebar s in
        (moved, ok (some (TodoJson.sidebar_open moved.sidebar_open))))
    else if target == "nav-todos"
    then (go s Page.todos, ok none)
    else if target == "nav-settings"
    then (go s Page.settings, ok none)
    else if target == "settings-confirm-delete"
    then (let moved = toggle_confirm_delete s in
        (moved, ok (some (TodoJson.confirm_delete moved.confirm_delete))))
    else if target == "todo-add"
    then todo_result (add_from_draft s)
    else numbered "todo-toggle-" target (toggle s) (
        numbered "todo-delete-" target (delete s)
          (numbered "todo-item-" target (toggle s) (s, err (Error.cannot_click target))))

unfoldable pub type_into : TodoStore → String → String → TodoStore × Reply
unfolding set_draft
type_into s target text =
    if target == "todo-input"
    then (set_draft s (s.draft <> text), ok (some (TodoJson.value (s.draft <> text))))
    else (s, err (Error.not_editable target))

unfoldable pub set_value : TodoStore → String → String → TodoStore × Reply
unfolding set_draft
set_value s target text =
    if target == "todo-input"
    then (set_draft s text, ok (some (TodoJson.value text)))
    else (s, err (Error.not_editable target))

unfoldable pub key : TodoStore → String → String → TodoStore × Reply
unfolding add_from_draft set_draft pop
key s target pressed =
    if (target == "todo-input" && pressed == "Enter")
    then todo_result (add_from_draft s)
    else if (target == "todo-add" && pressed == "Enter")
    then todo_result (add_from_draft s)
    else if (target == "todo-input" && pressed == "Backspace")
    then (set_draft s (pop s.draft), ok none)
    else (s, err (Error.unhandled_key pressed target))

abbrev with_title : TodoStore → Option String → TodoStore × Reply
with_title s none = (s, err Error.title_required)
with_title s (some title) = todo_result (add s title)

-- `let id = arg_id(args)?;`
abbrev with_id : TodoStore → (ℕ → TodoStore × Result Todo) → Option ℕ → TodoStore × Reply
with_id s run none = (s, err Error.id_required)
with_id s run (some id) = todo_result (run id)

-- `nav.go`, whose assignments do not bump the revision.
abbrev nav_go : TodoStore → Option String → TodoStore × Reply
nav_go s none = (s, err Error.page_required)
nav_go s (some page) =
    if page == "todos"
    then (record s { page = Page.todos }, ok none)
    else if page == "settings"
    then (record s { page = Page.settings }, ok none)
    else (s, err (Error.unknown_page page))

unfoldable pub invoke : TodoStore → String → Value → TodoStore × Reply
unfolding add toggle delete toggle_sidebar get_str get_u64
invoke s name args =
    if name == "todo.add"
    then with_title s (get_str "title" args)
    else if name == "todo.toggle"
    then with_id s (toggle s) (get_u64 "id" args)
    else if name == "todo.delete"
    then with_id s (delete s) (get_u64 "id" args)
    else if name == "todo.list"
    then (s, ok (some (TodoJson.items s.items)))
    else if name == "nav.go"
    then nav_go s (get_str "page" args)
    else if name == "todo.toggle_sidebar"
    then (let moved = toggle_sidebar s in
        (moved, ok (some (TodoJson.sidebar_open moved.sidebar_open))))
    else (s, err (Error.unknown_invoke name))

-- A successful `invoke` leaves a record in the event stream.
abbrev record_invoke : String → TodoStore × Reply → TodoStore × Reply
record_invoke name (s, err e) = (s, err e)
record_invoke name (s, ok r) =
    (record s { events = (Event.push s.events EventLevel.info "todo" ("invoke " <> name)).0 }, ok r)

pub record Surroundings : Type 0 where
  pub os : String
  pub check_path : Option String → Result (Unit {0})

abbrev no_surface : PlatformKind → Error
no_surface PlatformKind.headless =
    Error.screenshot_unavailable "headless host has no pixel surface (viewport and scrolled)"
no_surface PlatformKind.desktop =
    Error.screenshot_unavailable "desktop screenshot must run on the GPUI UI thread with a Window"
no_surface _ = Error.screenshot_unavailable "this host has no pixel surface"

module _ (around : Surroundings) where
  unfoldable pub screenshot : TodoStore → ScreenshotSpec → Reply
  screenshot s spec = do around.check_path spec.path; err (no_surface s.platform)

  abbrev handle : TodoStore → Op → TodoStore × Reply
  handle s (Op.click target mode fp) = click s target
  handle s (Op.type target text mode fp) = type_into s target text
  handle s (Op.set_value target text fp) = set_value s target text
  handle s (Op.key target pressed mode fp) = key s target pressed
  handle s (Op.keybinding r) = fire_keybinding s (Op.keybinding r)
  handle s Op.keybindings = (s, ok (some (TodoJson.rows (keybinding_list keybinding_catalog))))
  handle s (Op.invoke name args) = record_invoke name (invoke s name args)
  handle s (Op.screenshot spec) = (s, screenshot s spec)
  handle s Op.shutdown = (record s { shutdown = true }, ok none)
  handle s _ = (s, ok none)

  unfoldable pub dispatch : TodoStore → Op → TodoStore × Reply
  unfolding is_virtual_input click type_into set_value key fire_keybinding keybinding_list
      keybinding_catalog invoke Event.push screenshot
  dispatch s op =
      if is_virtual_input op
      then (s, err (Error.virtual_unavailable "this host has no GPUI pointer/key pipeline."))
      else handle s op

  abbrev deliveries : PlatformKind → List DeliveryMode
  deliveries PlatformKind.desktop = DeliveryMode.semantic ∷ DeliveryMode.virtual ∷ []
  deliveries _ = DeliveryMode.semantic ∷ []

  unfoldable pub hello : TodoStore → HelloInfo
  hello s = record {
    protocol = protocol_version;
    app = "todo";
    platform = s.platform;
    os = around.os;
    ready = true;
    deliveries = deliveries s.platform;
    auth = HelloAuth.none;
    bundle_id = none;
    executable = none;
    features = [];
  }

  module _ {F : Type 0} ⦃f : Float F⦄ where
    unfoldable pub todo_host : AgentHost TodoStore F TodoJson
    unfolding hello tree dispatch screenshot keybinding_catalog
    todo_host = record {
      hello = hello;
      snapshot = tree;
      dispatch = dispatch;
      screenshot = screenshot;
      keybindings = λ s. keybinding_catalog;
      is_app_focused = λ s. s.app_focused;
      revision = λ s. some s.rev;
      event_ring = λ s. some s.events;
    }
