-- ===== src/Tests/Data.antt =====
-- The inputs of the examples: a float of whole numbers, two trees, a host and a store.
use gpui_agent.Base.{ℕ, ◌+◌, ◌/◌, String, true, false, none, some, List, [], ◌∷◌, ◌==◌, nat_eq, ltb}
use gpui_agent.Base.Float.{Float}
use gpui_agent.Modes.{PlatformKind}
use gpui_agent.Error.{ok}
use gpui_agent.Tree.Rect.{Bounds}
use gpui_agent.Tree.{Attrs, UiNode, node, nil, cons, UiTree}
use gpui_agent.Json.{Value, Fields}
use gpui_agent.Protocol.{Op, Request, AssertSpec}
use gpui_agent.Modes.{DeliveryMode}
use gpui_agent.Host.{AgentHost}
use gpui_agent.Dispatch.Cache.{Security}
use gpui_agent.Dispatch.Answers.{HostIdentity}
use gpui_agent.Todo.{TodoStore, Page}
use gpui_agent.Todo.Host.{Surroundings, TodoJson, todo_host}
use gpui_agent.Event.{EventLevel}
use gpui_agent.Event.History.{Entry}

instance abbrev pub whole_float : Float ℕ
whole_float = record {
  zero = 0;
  add = ◌+◌;
  half = λ n. n / 2;
  lt = ltb;
  same = λ m n. m == n;
  from_json = some;
}

abbrev pub box : ℕ → ℕ → Bounds ℕ
box x w = record { x = x; y = 0; w = w; h = 10 }

abbrev pub plain : String → String → Attrs ℕ
plain id role = record {
  id = id;
  role = role;
  name = "Save";
  value = none;
  checked = none;
  enabled = true;
  focused = false;
  visible = true;
  bounds = box 0 10;
  states = [];
}

abbrev pub ok_button : UiNode ℕ
ok_button = node (plain "ok" "button") nil

abbrev pub small_tree : UiTree ℕ
small_tree = record {
  app = "demo";
  platform = PlatformKind.desktop;
  ready = true;
  nodes = cons (node (plain "main" "window") (cons ok_button nil)) nil;
  rev = none;
}

abbrev pub wants_ok : AssertSpec
wants_ok = record {
  target = "ok";
  name = some "Save";
  value = none;
  role = some "button";
  checked = none;
  exists = none;
  visible = some true;
  in_viewport = some true;
}

abbrev pub around : Surroundings
around = record { os = "linux"; check_path = λ p. ok tt }

abbrev pub host : AgentHost TodoStore ℕ TodoJson
host = todo_host around

abbrev pub milk : TodoStore
milk = record {
  next_id = 4;
  items =
      record { id = 1; title = "Milk"; done = false }
      ∷ record { id = 3; title = "Bread"; done = true }
      ∷ [];
  draft = "Eggs";
  page = Page.todos;
  confirm_delete = false;
  sidebar_open = true;
  platform = PlatformKind.headless;
  shutdown = false;
  app_focused = true;
  rev = 5;
  events = record { capacity = 2; next = 1; buf = [] };
}

abbrev pub add_click : Op
add_click = Op.click "todo-add" DeliveryMode.semantic (some 7)

abbrev pub identity : HostIdentity
identity = record { executable = "todo"; bundle_id = none; connect_id = none }

-- A MAC that repeats the nonce.
abbrev pub guarded : Security
guarded = record {
  mac = λ key message. message;
  expected_token = some "secret";
  session_nonce = some (7 ∷ []);
}

abbrev pub unguarded : Security
unguarded = record { mac = λ key message. message; expected_token = none; session_nonce = none }

abbrev pub add_request : Request
add_request = record { v = 2; id = "r1"; token = none; auth = none; op = add_click }

abbrev pub settings_args : Value
settings_args = Value.object (Fields.field "page" (Value.string "settings") Fields.empty)

abbrev pub history : List Entry
history =
    record { level = EventLevel.info; target = "a"; message = "one" }
    ∷ record { level = EventLevel.warn; target = "a"; message = "two" }
    ∷ record { level = EventLevel.info; target = "b"; message = "three" }
    ∷ []
