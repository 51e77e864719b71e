-- ===== src/Modes.antt =====
-- The enumerations of the wire protocol: crates/gpui-agent/src/protocol.rs.
pub mod Delivery
pub mod Scope
pub mod Screenshot
use gpui_agent.Base.{
  String, Bool, true, false, Option, some, ◌==◌, ◌||◌, if◌then◌else◌, ◌≡◌, ◌↔◌, refl, arith, Eq,
}
use gpui_agent.Base.Text.{Text, codes, trim, to_ascii_lowercase, text_eq}

pub data PlatformKind : Type 0 where
  desktop headless web mobile : PlatformKind

pub data DeliveryMode : Type 0 where
  semantic virtual : DeliveryMode

pub data KeybindingScope : Type 0 where
  focused global : KeybindingScope

pub data ScreenshotMode : Type 0 where
  viewport scrolled : ScreenshotMode

pub data SnapshotFormat : Type 0 where
  json compact : SnapshotFormat

pub data HelloAuth : Type 0 where
  none required : HelloAuth

abbrev platform_beq : PlatformKind → PlatformKind → Bool
platform_beq PlatformKind.desktop PlatformKind.desktop = true
platform_beq PlatformKind.headless PlatformKind.headless = true
platform_beq PlatformKind.web PlatformKind.web = true
platform_beq PlatformKind.mobile PlatformKind.mobile = true
platform_beq _ _ = false

pub platform_beq_iff : (a b : PlatformKind) → (platform_beq a b ≡ true) ↔ (a ≡ b)
platform_beq_iff a b = ground arith

instance abbrev pub platform_eq : Eq PlatformKind
platform_eq = record { beq = platform_beq; beq_iff = platform_beq_iff }

abbrev scope_beq : KeybindingScope → KeybindingScope → Bool
scope_beq KeybindingScope.focused KeybindingScope.focused = true
scope_beq KeybindingScope.global KeybindingScope.global = true
scope_beq _ _ = false

pub scope_beq_iff : (a b : KeybindingScope) → (scope_beq a b ≡ true) ↔ (a ≡ b)
scope_beq_iff a b = ground arith

instance abbrev pub scope_eq : Eq KeybindingScope
scope_eq = record { beq = scope_beq; beq_iff = scope_beq_iff }

abbrev pub is_compact : Option SnapshotFormat → Bool
is_compact (some SnapshotFormat.compact) = true
is_compact _ = false

abbrev pub is_scrolled : ScreenshotMode → Bool
is_scrolled ScreenshotMode.scrolled = true
is_scrolled ScreenshotMode.viewport = false

abbrev pub is_virtual : DeliveryMode → Bool
is_virtual DeliveryMode.virtual = true
is_virtual DeliveryMode.semantic = false

-- `HelloAuth::from_token_configured`
unfoldable pub from_token_configured {ℓ} : {A : Type ℓ} → Option A → HelloAuth
from_token_configured (some t) = HelloAuth.required
from_token_configured Option.none = HelloAuth.none
