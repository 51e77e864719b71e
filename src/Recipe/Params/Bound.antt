-- ===== src/Recipe/Params/Bound.antt =====
-- Collecting the placeholders of an operation and substituting them agree, recipe.rs.
use Prim.Native.Char.{Char, code}
use Prim.Native.String.append
use gpui_agent.Todo.Strings.{◌<>◌}
use mathlib.Core.Option
use gpui_agent.Base.{
  ℕ, zero, suc, ◌≡◌, refl, sym, ap, ◌∙◌, String, true, false, Bool-cases, inl, inr, ◌==◌, nat_eq,
  Option, none, some, List, arith, All,
}
use gpui_agent.Base.Text.{is_some}
use gpui_agent.Base.Map
use gpui_agent.Base.Map.{Map}
use gpui_agent.Base.Set
use gpui_agent.Json.{Value, Values, Fields}
use gpui_agent.Error.{ok, map_ok}
use gpui_agent.Protocol.{AssertSpec, Op}
use gpui_agent.Recipe.Params.Texts.{
  piece_at, pieces_from, text_of, expand, expanded, map_value, map_values, map_fields, map_assert,
  map_texts,
}
use gpui_agent.Recipe.Params.{
  contains_dollar, placeholder_at, skipped, noted, piece, collect_from, substitute_from,
  collect_placeholders, substitute_string, substitute_string_in_place, collect_option,
  substitute_option, collect_placeholders_in_value, collect_in_values, collect_in_fields,
  substitute_value, substitute_values, substitute_fields, collect_placeholders_in_op,
  substitute_op_in_place, collect_in_assert, substitute_assert,
}

append_one : (c : Char) (t : String) → String.◌∷◌ c "" <> t ≡ String.◌∷◌ c t
append_one c t = (λ i. append.cons c "" t i) ∙ ap (String.◌∷◌ c) (λ i. append.nil t i)

module _ (set : Map String) where
  -- The caller has set this name.
  abbrev pub IsBound : String → Type 0
  IsBound name = is_some (Map.get name set) ≡ true

  noted-IsBound :
      (c : Char) (found : Option (String × ℕ)) (out : List String)
      → All IsBound (noted found out)
      → All IsBound out × (piece c found set ≡ ok (text_of set (piece_at c found)))
  noted-IsBound c none out h = (h, refl)
  noted-IsBound c (some (name, n)) out h =
      let (b, rest) = Set.All-insert IsBound name out h in (rest, ground (arith, b))

  collect_from-IsBound :
      (skip : ℕ) (s : String) (out : List String)
      → All IsBound (collect_from skip s out)
      → All IsBound out × (substitute_from skip s set ≡ ok (expand set (pieces_from skip s)))
  unfolding collect_from substitute_from expand pieces_from
  collect_from-IsBound skip String.[] out h = (h, refl)
  collect_from-IsBound (suc skip) (String.◌∷◌ c s) out h = collect_from-IsBound skip s out h
  collect_from-IsBound zero (String.◌∷◌ c s) out h =
      let found = placeholder_at c s in
      let (more, rest) = collect_from-IsBound (skipped found) s (noted found out) h in
      let (old, first) = noted-IsBound c found out more in (old, ground (arith, first, rest))

  -- A text without `$` is returned as it is.
  expand-plain : (s : String) → contains_dollar s ≡ false → expand set (pieces_from 0 s) ≡ s
  unfolding contains_dollar expand pieces_from placeholder_at
  expand-plain String.[] h = refl
  expand-plain (String.◌∷◌ c s) h = elim (Bool-cases (code c == b'$')) [
    | inl d ↦ cc (h, d)
    | inr d ↦ rw d (append_one c _ ∙ ap (String.◌∷◌ c) (expand-plain s (ground (arith, h, d))))
  ]

  string-IsBound :
      (s : String) (out : List String)
      → All IsBound (collect_placeholders s out)
      → All IsBound out × (substitute_string s set ≡ ok (expanded set s))
  unfolding collect_placeholders substitute_string expanded
  string-IsBound s out h =
      let (old, fits) = collect_from-IsBound 0 s out h in
      elim (Bool-cases (contains_dollar s)) [
        | inl d ↦ (old, rw d fits)
        | inr d ↦ (old, rw d (ap ok (sym (expand-plain s d))))
      ]

  in_place-eq : (s : String) → substitute_string_in_place s set ≡ substitute_string s set
  unfolding substitute_string_in_place substitute_string
  in_place-eq s = elim (Bool-cases (contains_dollar s)) [ inl d ↦ rw d refl | inr d ↦ rw d refl ]

  in_place-IsBound :
      (s : String) (out : List String)
      → All IsBound (collect_placeholders s out)
      → All IsBound out × (substitute_string_in_place s set ≡ ok (expanded set s))
  in_place-IsBound s out h = let (old, fits) = string-IsBound s out h in (old, in_place-eq s ∙ fits)

  option-IsBound :
      (s : Option String) (out : List String)
      → All IsBound (collect_option s out)
      → All IsBound out × (substitute_option s set ≡ ok (Option.map (expanded set) s))
  option-IsBound none out h = (h, refl)
  option-IsBound (some s) out h =
      let (old, fits) = in_place-IsBound s out h in (old, ground (arith, fits))

  mutual
    unfolding collect_placeholders_in_value substitute_value map_value

    value-IsBound :
        (v : Value) (out : List String)
        → All IsBound (collect_placeholders_in_value v out)
        → All IsBound out × (substitute_value v set ≡ ok (map_value (expanded set) v))
    value-IsBound (Value.string s) out h =
        let (old, fits) = string-IsBound s out h in (old, ap (map_ok Value.string) fits)
    value-IsBound (Value.array xs) out h =
        let (old, fits) = values-IsBound xs out h in (old, ap (map_ok Value.array) fits)
    value-IsBound (Value.object fs) out h =
        let (old, fits) = fields-IsBound fs out h in (old, ap (map_ok Value.object) fits)
    value-IsBound Value.null out h = (h, refl)
    value-IsBound (Value.bool b) out h = (h, refl)
    value-IsBound (Value.natural n) out h = (h, refl)
    value-IsBound (Value.number n) out h = (h, refl)

    values-IsBound :
        (xs : Values) (out : List String)
        → All IsBound (collect_in_values xs out)
        → All IsBound out × (substitute_values xs set ≡ ok (map_values (expanded set) xs))
    values-IsBound Values.nil out h = (h, refl)
    values-IsBound (Values.cons x xs) out h =
        let (more, rest) = values-IsBound xs (collect_placeholders_in_value x out) h in
        let (old, first) = value-IsBound x out more in (old, rw (first, rest) refl)

    fields-IsBound :
        (fs : Fields) (out : List String)
        → All IsBound (collect_in_fields fs out)
        → All IsBound out × (substitute_fields fs set ≡ ok (map_fields (expanded set) fs))
    fields-IsBound Fields.empty out h = (h, refl)
    fields-IsBound (Fields.field k v fs) out h =
        let (more, rest) = fields-IsBound fs (collect_placeholders_in_value v out) h in
        let (old, first) = value-IsBound v out more in (old, rw (first, rest) refl)

  assert-IsBound :
      (spec : AssertSpec) (out : List String)
      → All IsBound (collect_in_assert spec out)
      → All IsBound out × (substitute_assert spec set ≡ ok (map_assert (expanded set) spec))
  assert-IsBound spec out h =
      let out1 = collect_placeholders spec.target out in
      let out2 = collect_option spec.name out1 in
      let (h3, role) = option-IsBound spec.role (collect_option spec.value out2) h in
      let (h2, value) = option-IsBound spec.value out2 h3 in
      let (h1, name) = option-IsBound spec.name out1 h2 in
      let (old, target) = in_place-IsBound spec.target out h1 in
      (old, ground (arith, role, value, name, target))

  pair-IsBound :
      (s t : String) (out : List String)
      → All IsBound (collect_placeholders t (collect_placeholders s out))
      → (substitute_string_in_place s set ≡ ok (expanded set s))
        × (substitute_string_in_place t set ≡ ok (expanded set t))
  pair-IsBound s t out h =
      let (more, second) = in_place-IsBound t (collect_placeholders s out) h in
      ((in_place-IsBound s out more).1, second)

  -- When every placeholder that is collected from an operation is set, substituting them expands every
  -- text of it.
  pub substitute-IsBound :
      (op : Op) (out : List String)
      → All IsBound (collect_placeholders_in_op op out)
      → substitute_op_in_place op set ≡ ok (map_texts (expanded set) op)
  unfolding collect_placeholders_in_op substitute_op_in_place map_texts
  substitute-IsBound (Op.wait_until ms spec) out h = ground (arith, (assert-IsBound spec out h).1)
  substitute-IsBound (Op.assert spec) out h = ground (arith, (assert-IsBound spec out h).1)
  substitute-IsBound (Op.click target d fp) out h =
      ground (arith, (in_place-IsBound target out h).1)
  substitute-IsBound (Op.type target text d fp) out h =
      ground (arith, pair-IsBound target text out h)
  substitute-IsBound (Op.set_value target value fp) out h =
      ground (arith, pair-IsBound target value out h)
  substitute-IsBound (Op.key target pressed d fp) out h =
      ground (arith, pair-IsBound target pressed out h)
  substitute-IsBound (Op.keybinding r) out h =
      let (more, chord) = option-IsBound r.chord (collect_placeholders r.binding out) h in
      ground (arith, chord, (in_place-IsBound r.binding out more).1)
  substitute-IsBound (Op.invoke name args) out h =
      let (more, fits) = value-IsBound args (collect_placeholders name out) h in
      ground (arith, fits, (in_place-IsBound name out more).1)
  substitute-IsBound (Op.screenshot spec) out h =
      let (more, target) = option-IsBound spec.target (collect_option spec.path out) h in
      ground (arith, target, (option-IsBound spec.path out more).1)
  substitute-IsBound Op.hello out h = refl
  substitute-IsBound Op.revision out h = refl
  substitute-IsBound Op.keybindings out h = refl
  substitute-IsBound Op.shutdown out h = refl
  substitute-IsBound (Op.snapshot a b c) out h = refl
  substitute-IsBound (Op.events a b) out h = refl
  substitute-IsBound (Op.wait ms) out h = refl
