-- ===== src/Recipe/Params/Texts.antt =====
-- What the parameters of a recipe make of the texts of an operation, apart from the code of recipe.rs
-- that substitutes them.
use Prim.Native.Char.{Char}
use mathlib.Core.Option
use gpui_agent.Base.{ℕ, zero, suc, String, Option, none, some, List, [], ◌∷◌}
use gpui_agent.Base.Map
use gpui_agent.Base.Map.{Map}
use gpui_agent.Todo.Strings.{◌<>◌}
use gpui_agent.Json.{Value, Values, Fields}
use gpui_agent.Protocol.{AssertSpec, Op}
use gpui_agent.Recipe.Params.{placeholder_at, skipped}

-- A template is a sequence of characters and of placeholders.
pub data Piece : Type 0 where
  literal : Char → Piece
  named : String → Piece

abbrev pub piece_at : Char → Option (String × ℕ) → Piece
piece_at c none = Piece.literal c
piece_at c (some (name, n)) = Piece.named name

unfoldable pub pieces_from : ℕ → String → List Piece
unfolding placeholder_at
pieces_from skip String.[] = []
pieces_from (suc skip) (String.◌∷◌ c s) = pieces_from skip s
pieces_from zero (String.◌∷◌ c s) =
    let found = placeholder_at c s in piece_at c found ∷ pieces_from (skipped found) s

module _ (set : Map String) where
  abbrev value_or_empty : Option String → String
  value_or_empty none = ""
  value_or_empty (some value) = value

  abbrev pub text_of : Piece → String
  text_of (Piece.literal c) = String.◌∷◌ c ""
  text_of (Piece.named name) = value_or_empty (Map.get name set)

  unfoldable pub expand : List Piece → String
  expand [] = ""
  expand (p ∷ ps) = text_of p <> expand ps

  unfoldable pub expanded : String → String
  unfolding pieces_from expand
  expanded s = expand (pieces_from 0 s)

-- `f` on every text of an operation, and on nothing else
module _ (f : String → String) where
  unfoldable mutual
    pub map_value : Value → Value
    map_value (Value.string s) = Value.string (f s)
    map_value (Value.array xs) = Value.array (map_values xs)
    map_value (Value.object fs) = Value.object (map_fields fs)
    map_value Value.null = Value.null
    map_value (Value.bool b) = Value.bool b
    map_value (Value.natural n) = Value.natural n
    map_value (Value.number n) = Value.number n

    pub map_values : Values → Values
    map_values Values.nil = Values.nil
    map_values (Values.cons x xs) = Values.cons (map_value x) (map_values xs)

    pub map_fields : Fields → Fields
    map_fields Fields.empty = Fields.empty
    map_fields (Fields.field k v fs) = Fields.field k (map_value v) (map_fields fs)

  abbrev pub map_assert : AssertSpec → AssertSpec
  map_assert spec = record spec {
    target = f spec.target;
    name = Option.map f spec.name;
    value = Option.map f spec.value;
    role = Option.map f spec.role;
  }

  unfoldable pub map_texts : Op → Op
  unfolding map_value
  map_texts (Op.wait_until ms spec) = Op.wait_until ms (map_assert spec)
  map_texts (Op.assert spec) = Op.assert (map_assert spec)
  map_texts (Op.click target delivery fp) = Op.click (f target) delivery fp
  map_texts (Op.type target text delivery fp) = Op.type (f target) (f text) delivery fp
  map_texts (Op.set_value target value fp) = Op.set_value (f target) (f value) fp
  map_texts (Op.key target pressed delivery fp) = Op.key (f target) (f pressed) delivery fp
  map_texts (Op.keybinding r) =
      Op.keybinding (record r { binding = f r.binding; chord = Option.map f r.chord })
  map_texts (Op.invoke name args) = Op.invoke (f name) (map_value args)
  map_texts (Op.screenshot spec) =
      Op.screenshot
        (record spec { path = Option.map f spec.path; target = Option.map f spec.target })
  map_texts Op.hello = Op.hello
  map_texts Op.revision = Op.revision
  map_texts Op.keybindings = Op.keybindings
  map_texts Op.shutdown = Op.shutdown
  map_texts (Op.snapshot since format fps) = Op.snapshot since format fps
  map_texts (Op.events cursor limit) = Op.events cursor limit
  map_texts (Op.wait ms) = Op.wait ms
