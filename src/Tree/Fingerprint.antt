-- ===== src/Tree/Fingerprint.antt =====
-- The staleness fingerprint: `fingerprint`, `fingerprint_of` and `fingerprint_map`.
use Prim.Native.Nat.{bit_xor}
use Prim.Native.Char.{code}
use mathlib.Core.List.{foldl}
use mathlib.Core.Option
use gpui_agent.Base.{
  ℕ, ◌+◌, ◌*◌, ◌/◌, ◌%◌, ◌^◌, String, Bool, true, false, Option, none, some, List, [], ◌∷◌, ◌++◌,
  string_eq, if◌then◌else◌, ltb,
}
use gpui_agent.Base.Map.{Map, insert}
use gpui_agent.Tree.{Attrs, UiNode, Nodes, node, nil, cons, attrs, UiTree}
use gpui_agent.Tree.Search.{find_with_parent_in}

-- The UTF-8 bytes of one code point.
unfoldable pub utf8 : ℕ → List ℕ
utf8 c =
    if ltb c 0x80
    then c ∷ []
    else if ltb c 0x800
    then (0xc0 + c / 64) ∷ (0x80 + c % 64) ∷ []
    else if ltb c 0x10000
    then (0xe0 + c / 4096) ∷ (0x80 + c / 64 % 64) ∷ (0x80 + c % 64) ∷ []
    else (0xf0 + c / 262144) ∷ (0x80 + c / 4096 % 64) ∷ (0x80 + c / 64 % 64) ∷ (0x80 + c % 64) ∷ []

-- `str::as_bytes`
unfoldable pub as_bytes : String → List ℕ
unfolding utf8
as_bytes String.[] = []
as_bytes (String.◌∷◌ c s) = utf8 (code c) ++ as_bytes s

-- `u64::to_le_bytes`
unfoldable pub to_le_bytes : ℕ → List ℕ
to_le_bytes n =
    (n % 256)
    ∷ (n / 2 ^ 8 % 256)
    ∷ (n / 2 ^ 16 % 256)
    ∷ (n / 2 ^ 24 % 256)
    ∷ (n / 2 ^ 32 % 256)
    ∷ (n / 2 ^ 40 % 256)
    ∷ (n / 2 ^ 48 % 256)
    ∷ (n / 2 ^ 56 % 256)
    ∷ []

abbrev offset_basis : ℕ
offset_basis = 0xcbf29ce484222325

-- FNV-1a over 64 bits, whose product wraps.
unfoldable pub feed : ℕ → List ℕ → ℕ
feed = foldl (λ h b. bit_xor h b * 0x100000001b3 % 2 ^ 64)

abbrev byte_of : Bool → ℕ
byte_of true = 1
byte_of false = 0

abbrev checked_byte : Option Bool → ℕ
checked_byte none = 0
checked_byte (some false) = 1
checked_byte (some true) = 2

unfoldable pub value_hash : Option String → ℕ
unfolding feed as_bytes
value_hash none = 0
value_hash (some v) = feed offset_basis (as_bytes v)

unfoldable pub feed_states : ℕ → List String → ℕ
unfolding feed as_bytes
feed_states h [] = h
feed_states h (s ∷ ss) = feed_states (feed (feed h (as_bytes s)) (0xff ∷ [])) ss

unfoldable pub feed_parent : ℕ → Option String → ℕ
unfolding feed as_bytes
feed_parent h none = feed h (0 ∷ [])
feed_parent h (some p) = feed (feed h (as_bytes p)) (1 ∷ [])

module _ {F : Type 0} where
  unfoldable pub fingerprint_attrs : Attrs F → Option String → ℕ
  unfolding feed_states value_hash feed_parent to_le_bytes
  fingerprint_attrs a parent_id =
      let h₀ = feed_states offset_basis (a.id ∷ a.role ∷ a.name ∷ []) in
      let h₁ = feed h₀ (byte_of a.enabled ∷ byte_of a.visible ∷ []) in
      let h₂ = feed h₁ (checked_byte a.checked ∷ []) in
      let h₃ = feed h₂ (to_le_bytes (value_hash a.value)) in
      feed_parent (feed_states h₃ a.states) parent_id

  unfoldable pub fingerprint : UiNode F → Option String → ℕ
  unfolding fingerprint_attrs
  fingerprint n parent_id = fingerprint_attrs (attrs n) parent_id

  unfoldable pub fingerprint_of : UiTree F → String → Option ℕ
  unfolding fingerprint
  fingerprint_of t id =
      Option.map (λ (n, parent). fingerprint n parent) (find_with_parent_in t.nodes id none)

  -- `walk` of `fingerprint_map`, with the map that it fills.
  unfoldable mutual
    unfolding fingerprint

    pub walk : UiNode F → Option String → Map ℕ → Map ℕ
    walk (node a cs) parent out =
        walk_in cs (some a.id) (insert a.id (fingerprint (node a cs) parent) out)

    pub walk_in : Nodes F → Option String → Map ℕ → Map ℕ
    walk_in nil parent out = out
    walk_in (cons n ns) parent out = walk_in ns parent (walk n parent out)

  unfoldable pub fingerprint_map : UiTree F → Map ℕ
  unfolding walk
  fingerprint_map t = walk_in t.nodes none []
