-- ===== src/Protocol.antt =====
-- The messages: crates/gpui-agent/src/protocol.rs. Serialization is left to serde and is not
-- modelled: a request is the value that serde hands over.
use gpui_agent.Base.{ℕ, String, Bool, true, false, Option, none, some, List, ◌&&◌}
use gpui_agent.Json.{Value}
use gpui_agent.Modes.{
  DeliveryMode, KeybindingScope, ScreenshotMode, SnapshotFormat, PlatformKind, HelloAuth,
  is_virtual,
}

abbrev pub protocol_version : ℕ
protocol_version = 2

pub record AssertSpec : Type 0 where
  pub target : String
  pub name : Option String
  pub value : Option String
  pub role : Option String
  pub checked : Option Bool
  pub exists : Option Bool
  pub visible : Option Bool
  pub in_viewport : Option Bool

-- `ScreenshotSpec` of scroll_capture.rs has the fields of `Op::Screenshot`.
pub record ScreenshotSpec : Type 0 where
  pub path : Option String
  pub mode : ScreenshotMode
  pub target : Option String
  pub max_height_px : Option ℕ

-- The fields of `Op::Keybinding`, which are those of `KeybindingRequest`.
pub record KeybindingRequest : Type 0 where
  pub binding : String
  pub chord : Option String
  pub scope : KeybindingScope
  pub confirm : Bool
  pub activate : Bool

pub data Op : Type 0 where
  hello revision keybindings shutdown : Op
  snapshot : Option ℕ → Option SnapshotFormat → Option Bool → Op
  events : Option ℕ → Option ℕ → Op
  click : String → DeliveryMode → Option ℕ → Op
  type : String → String → DeliveryMode → Option ℕ → Op
  set_value : String → String → Option ℕ → Op
  key : String → String → DeliveryMode → Option ℕ → Op
  keybinding : KeybindingRequest → Op
  assert : AssertSpec → Op
  invoke : String → Value → Op
  wait : Option ℕ → Op
  wait_until : ℕ → AssertSpec → Op
  screenshot : ScreenshotSpec → Op

pub record Request : Type 0 where
  pub v : ℕ
  pub id : String
  pub token : Option String
  pub auth : Option String
  pub op : Op

pub record HelloInfo : Type 0 where
  pub protocol : ℕ
  pub app : String
  pub platform : PlatformKind
  pub os : String
  pub ready : Bool
  pub deliveries : List DeliveryMode
  pub auth : HelloAuth
  pub bundle_id : Option String
  pub executable : Option String
  pub features : List String

-- `Option::map` with a pair, for the gate below.
abbrev gate : String → Option ℕ → Option (String × ℕ)
gate target none = none
gate target (some fp) = some (target, fp)

unfoldable pub fingerprint_gate : Op → Option (String × ℕ)
fingerprint_gate (Op.click target delivery fp) = gate target fp
fingerprint_gate (Op.type target text delivery fp) = gate target fp
fingerprint_gate (Op.set_value target value fp) = gate target fp
fingerprint_gate (Op.key target pressed delivery fp) = gate target fp
fingerprint_gate _ = none

unfoldable pub with_fingerprint : Op → ℕ → Op
with_fingerprint (Op.click target delivery _) fp = Op.click target delivery (some fp)
with_fingerprint (Op.type target text delivery _) fp = Op.type target text delivery (some fp)
with_fingerprint (Op.set_value target value _) fp = Op.set_value target value (some fp)
with_fingerprint (Op.key target pressed delivery _) fp = Op.key target pressed delivery (some fp)
with_fingerprint op fp = op

unfoldable pub delivery : Op → DeliveryMode
delivery (Op.click target mode fp) = mode
delivery (Op.type target text mode fp) = mode
delivery (Op.key target pressed mode fp) = mode
delivery _ = DeliveryMode.semantic

abbrev is_pointer_or_key : Op → Bool
is_pointer_or_key (Op.click target mode fp) = true
is_pointer_or_key (Op.type target text mode fp) = true
is_pointer_or_key (Op.key target pressed mode fp) = true
is_pointer_or_key _ = false

unfoldable pub is_virtual_input : Op → Bool
unfolding delivery
is_virtual_input op = is_pointer_or_key op && is_virtual (delivery op)
