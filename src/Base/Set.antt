-- ===== src/Base/Set.antt =====
-- `BTreeSet<String>` as the list of its elements in order.
use Prim.Native.String.{String}
use mathlib.Core.Path.{◌≡◌, refl, ap, subst}
use mathlib.Core.Logic.{inl, inr}
use mathlib.Core.Bool.{Bool, false, ◌||◌}
use mathlib.Core.List.{List, [], ◌∷◌}
use native.Mathlib.Omega.{arith}
use text.Mathlib.TextEquality.{eq_iff}
use gpui_agent.Base.Tests.{◌==◌, string_eq, if◌then◌else◌, Bool-cases}
use gpui_agent.Base.Map.{str_lt}
use gpui_agent.Base.Lists.{All}

unfoldable pub contains : String → List String → Bool
contains k [] = false
contains k (j ∷ s) = j == k || contains k s

-- The order of the elements is Rust's `Ord` of `String`.
unfoldable pub insert : String → List String → List String
insert k [] = k ∷ []
insert k (j ∷ s) =
    let rest = j ∷ insert k s in if j == k then j ∷ s else if str_lt k j then k ∷ j ∷ s else rest

pub contains-insert :
    (j k : String) (s : List String) → contains j (insert k s) ≡ (k == j || contains j s)
unfolding contains insert
contains-insert j k [] = refl
contains-insert j k (i ∷ s) =
    ground (arith, contains-insert j k s, eq_iff i k, eq_iff i j, eq_iff k j)

-- What holds of the elements of the larger set holds of the new one and of the old ones.
pub All-insert {κ} :
    (P : String → Type κ) (k : String) (s : List String) → All P (insert k s) → P k × All P s
unfolding insert
All-insert P k [] h = h
All-insert P k (j ∷ s) h = elim (Bool-cases (j == k)) [
  | inl same ↦
      let kept =
        subst (All P)
          (ap (λ b. if b then j ∷ s else (if str_lt k j then k ∷ j ∷ s else (j ∷ insert k s))) same)
          h in
      (subst P ((eq_iff j k).0 same) kept.0, kept)
  | inr new ↦
      let moved =
        subst (All P)
          (ap (λ b. if b then j ∷ s else (if str_lt k j then k ∷ j ∷ s else (j ∷ insert k s))) new)
          h in
      elim (Bool-cases (str_lt k j)) [
        | inl less ↦ subst (All P) (ap (λ b. if b then k ∷ j ∷ s else (j ∷ insert k s)) less) moved
        | inr more ↦
            let last =
              subst (All P) (ap (λ b. if b then k ∷ j ∷ s else (j ∷ insert k s)) more) moved in
            let rest = All-insert P k s last.1 in (rest.0, (last.0, rest.1))
      ]
]
