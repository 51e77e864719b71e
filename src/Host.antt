-- ===== src/Host.antt =====
-- The two sides of a request: `Response` of crates/gpui-agent/src/protocol.rs, and the interface
-- `AgentHost` of crates/gpui-agent/src/host.rs that an application implements.
-- `S` is the state of the host, `F` its `f32`, and `V` what its handlers return as JSON.
use gpui_agent.Base.{ℕ, String, Bool, true, false, Option, none, some, List}
use gpui_agent.Base.Text.{Text}
use gpui_agent.Base.Map.{Map}
use gpui_agent.Error.{Error, Result}
use gpui_agent.Event.{EventRing, EventPoll}
use gpui_agent.Tree.{UiTree}
use gpui_agent.Diff.{TreeDiff}
use gpui_agent.Keybinding.{KeybindingInfo}
use gpui_agent.Protocol.{Op, HelloInfo, ScreenshotSpec, protocol_version}

-- The JSON under `result`: one constructor for each `json!` of the dispatcher, and the host's own.
pub data Payload (F V : Type 0) : Type 0 where
  unchanged full : Payload F V
  compact : Text → Payload F V
  diff : TreeDiff F → Payload F V
  poll : EventPoll → Payload F V
  rows : List KeybindingInfo → Payload F V
  host : V → Payload F V

pub record Response (F V : Type 0) : Type 0 where
  pub v : ℕ
  pub id : String
  pub ok : Bool
  pub error : Option Error
  pub hello : Option HelloInfo
  pub tree : Option (UiTree F)
  pub result : Option (Payload F V)
  pub fingerprints : Option (Map ℕ)
  pub rev : Option ℕ

module _ {F V : Type 0} where
  -- `Response::ok`
  unfoldable pub success : String → Response F V
  success id = record {
    v = protocol_version;
    id = id;
    ok = true;
    error = none;
    hello = none;
    tree = none;
    result = none;
    fingerprints = none;
    rev = none;
  }

  -- `Response::err`
  unfoldable pub failure : String → Error → Response F V
  failure id error = record {
    v = protocol_version;
    id = id;
    ok = false;
    error = some error;
    hello = none;
    tree = none;
    result = none;
    fingerprints = none;
    rev = none;
  }

-- `dispatch` returns the host after the call beside its result.
pub record AgentHost (S F V : Type 0) : Type 0 where
  pub hello : S → HelloInfo
  pub snapshot : S → UiTree F
  pub dispatch : S → Op → S × Result (Option V)
  pub screenshot : S → ScreenshotSpec → Result (Option V)
  pub keybindings : S → List KeybindingInfo
  pub is_app_focused : S → Bool
  pub revision : S → Option ℕ
  pub event_ring : S → Option EventRing
