-- ===== src/Base/Map.antt =====
-- `BTreeMap<String, V>` as a list of entries in key order.
use Prim.Native.String.{String, compare}
use mathlib.Core.Path.{◌≡◌, refl}
use mathlib.Core.Bool.{Bool}
use mathlib.Core.List.{List, [], ◌∷◌, map}
use mathlib.Core.Option.{Option, none, some}
use native.Mathlib.Omega.{arith}
use text.Mathlib.Text
use text.Mathlib.TextEquality.{eq_iff}
use gpui_agent.Base.Tests.{◌==◌, string_eq, if◌then◌else◌}

abbrev pub Map {ℓ} : Type ℓ → Type ℓ
Map V = List (String × V)

-- The order of the keys: Rust's `Ord` of `String`.
abbrev pub str_lt : String → String → Bool
str_lt s t = Text.is_lt (compare s t)

module _ {ℓ} {V : Type ℓ} where
  unfoldable pub get : String → Map V → Option V
  get k [] = none
  get k ((j, v) ∷ m) = let rest = get k m in if j == k then some v else rest

  unfoldable pub insert : String → V → Map V → Map V
  insert k v [] = (k, v) ∷ []
  insert k v ((j, w) ∷ m) =
      let rest = (j, w) ∷ insert k v m in
      if j == k then (k, v) ∷ m else if str_lt k j then (k, v) ∷ (j, w) ∷ m else rest

  abbrev pub keys : Map V → List String
  keys = map (λ (k, v). k)

  pub get-insert :
      (j k : String) (v : V) (m : Map V)
      → get j (insert k v m) ≡ (if k == j then some v else get j m)
  unfolding get insert
  get-insert j k v [] = refl
  get-insert j k v ((i, w) ∷ m) =
      ground (arith, get-insert j k v m, eq_iff i k, eq_iff i j, eq_iff k j)
