-- ===== src/Tree.antt =====
-- The semantic UI tree: crates/gpui-agent/src/tree.rs. The children hold the rectangles, the
-- builders, the searches, the fingerprints and the proofs.
pub mod Rect
pub mod Build
pub mod Search
pub mod Roots
pub mod Fingerprint
pub mod Order
pub mod Gate
use gpui_agent.Base.{ℕ, String, Bool, Option, List}
use gpui_agent.Modes.{PlatformKind}
use gpui_agent.Tree.Rect.{Bounds}

-- The fields of a `UiNode` but `children`.
pub record Attrs (F : Type 0) : Type 0 where
  pub id : String
  pub role : String
  pub name : String
  pub value : Option String
  pub checked : Option Bool
  pub enabled : Bool
  pub focused : Bool
  pub visible : Bool
  pub bounds : Bounds F
  pub states : List String

-- `Nodes` is the `Vec<UiNode>` of the children.
mutual
  pub data UiNode (F : Type 0) : Type 0 where
    node : Attrs F → Nodes F → UiNode F

  pub data Nodes (F : Type 0) : Type 0 where
    nil : Nodes F
    cons : UiNode F → Nodes F → Nodes F

module _ {F : Type 0} where
  abbrev pub attrs : UiNode F → Attrs F
  attrs (node a cs) = a

  abbrev pub children : UiNode F → Nodes F
  children (node a cs) = cs

pub record UiTree (F : Type 0) : Type 0 where
  pub app : String
  pub platform : PlatformKind
  pub ready : Bool
  pub nodes : Nodes F
  pub rev : Option ℕ
