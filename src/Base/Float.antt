-- ===== src/Base/Float.antt =====
-- `f32` as the source uses it: a type with its zero, its sum, its half and its order test, and
-- `same`, the equality of two values once they are JSON, and `from_json`, what is read back from the
-- JSON of a value, if it can be read: NaN and the infinities become `null`. No law is assumed, so rounding, infinities
-- and NaN are allowed.
use mathlib.Core.Bool.{Bool}
use mathlib.Core.Option.{Option}

pub record Float (F : Type 0) : Type 0 where
  pub zero : F
  pub add : F → F → F
  pub half : F → F
  pub lt : F → F → Bool
  pub same : F → F → Bool
  pub from_json : F → Option F
