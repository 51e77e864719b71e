-- ===== src/Tree/Rect.antt =====
-- Axis-aligned rectangles: `Bounds` of crates/gpui-agent/src/tree.rs.
use gpui_agent.Base.{◌≡◌, Bool, false, not, ◌&&◌, ◌||◌, arith, if◌then◌else◌}
use gpui_agent.Base.Float.{Float}

pub record Bounds (F : Type 0) : Type 0 where
  pub x : F
  pub y : F
  pub w : F
  pub h : F

module _ {F : Type 0} ⦃f : Float F⦄ where
  abbrev pub default : Bounds F
  default = record { x = f.zero; y = f.zero; w = f.zero; h = f.zero }

  unfoldable pub has_area : Bounds F → Bool
  has_area b = f.lt f.zero b.w && f.lt f.zero b.h

  unfoldable pub center : Bounds F → F × F
  center b = (f.add b.x (f.half b.w), f.add b.y (f.half b.h))

  unfoldable pub intersects : Bounds F → Bounds F → Bool
  unfolding has_area
  intersects a b =
      if not (has_area a) || not (has_area b)
      then false
      else f.lt a.x (f.add b.x b.w)
        && f.lt b.x (f.add a.x a.w)
        && f.lt a.y (f.add b.y b.h)
        && f.lt b.y (f.add a.y a.h)

  -- Overlap is symmetric, and a rectangle with no area overlaps nothing, whatever the arithmetic.
  pub intersects_symm :
      (a b : Bounds F)
      → (intersects a b ≡ intersects b a) × (has_area a ≡ false → intersects a b ≡ false)
  unfolding intersects
  intersects_symm a b = (ground arith, ground arith)
