-- ===== src/Recipe/Params/Collected.antt =====
-- Collecting placeholders adds those of the text to those that were there: recipe.rs.
use gpui_agent.Base.{
  ℕ, zero, suc, ◌≡◌, refl, sym, ap, ◌∙◌, String, Bool, true, false, Option, none, some, List, [],
  ◌||◌, string_eq, arith,
}
use gpui_agent.Base.Set
use gpui_agent.Json.{Value, Values, Fields}
use gpui_agent.Protocol.{Op, AssertSpec}
use gpui_agent.Recipe.Params.{
  placeholder_at, skipped, noted, collect_from, collect_placeholders, collect_option,
  collect_placeholders_in_value, collect_in_values, collect_in_fields, collect_placeholders_in_op,
}

-- The names that are collected are those that were there and those of the text itself.
abbrev pub Adds : (List String → List String) → Type 0
Adds f =
    (k : String) (out : List String)
    → Set.contains k (f out) ≡ (Set.contains k out || Set.contains k (f []))

or_assoc : (a b c : Bool) → ((a || b) || c) ≡ (a || (b || c))
or_assoc true b c = refl
or_assoc false b c = refl

Adds-compose : (f g : List String → List String) → Adds f → Adds g → Adds (λ out. g (f out))
Adds-compose f g hf hg k out =
    hg k (f out)
    ∙ ap (λ b. b || Set.contains k (g [])) (hf k out)
    ∙ or_assoc (Set.contains k out) (Set.contains k (f [])) (Set.contains k (g []))
    ∙ ap (λ b. Set.contains k out || b) (sym (hg k (f [])))

Adds-refl : Adds (λ out. out)
unfolding Set.contains
Adds-refl k out = ground arith

noted-Adds : (found : Option (String × ℕ)) → Adds (noted found)
unfolding Set.contains
noted-Adds none k out = ground arith
noted-Adds (some (name, n)) k out =
    ground (arith, Set.contains-insert k name out, Set.contains-insert k name [])

collect_from-Adds : (skip : ℕ) (s : String) → Adds (collect_from skip s)
unfolding collect_from
collect_from-Adds skip String.[] = Adds-refl
collect_from-Adds (suc skip) (String.◌∷◌ c s) = collect_from-Adds skip s
collect_from-Adds zero (String.◌∷◌ c s) =
    let found = placeholder_at c s in
    Adds-compose (noted found) (collect_from (skipped found) s) (noted-Adds found)
      (collect_from-Adds (skipped found) s)

string-Adds : (s : String) → Adds (collect_placeholders s)
unfolding collect_placeholders
string-Adds s = collect_from-Adds 0 s

option-Adds : (s : Option String) → Adds (collect_option s)
option-Adds none = Adds-refl
option-Adds (some s) = string-Adds s

mutual
  unfolding collect_placeholders_in_value

  value-Adds : (v : Value) → Adds (collect_placeholders_in_value v)
  value-Adds (Value.string s) = string-Adds s
  value-Adds (Value.array xs) = values-Adds xs
  value-Adds (Value.object fs) = fields-Adds fs
  value-Adds Value.null = Adds-refl
  value-Adds (Value.bool b) = Adds-refl
  value-Adds (Value.natural n) = Adds-refl
  value-Adds (Value.number n) = Adds-refl

  values-Adds : (xs : Values) → Adds (collect_in_values xs)
  values-Adds Values.nil = Adds-refl
  values-Adds (Values.cons x xs) =
      Adds-compose (collect_placeholders_in_value x) (collect_in_values xs) (value-Adds x)
        (values-Adds xs)

  fields-Adds : (fs : Fields) → Adds (collect_in_fields fs)
  fields-Adds Fields.empty = Adds-refl
  fields-Adds (Fields.field k v fs) =
      Adds-compose (collect_placeholders_in_value v) (collect_in_fields fs) (value-Adds v)
        (fields-Adds fs)

pair-Adds : (s t : String) → Adds (λ out. collect_placeholders t (collect_placeholders s out))
pair-Adds s t =
    Adds-compose (collect_placeholders s) (collect_placeholders t) (string-Adds s) (string-Adds t)

assert-Adds :
    (spec : AssertSpec)
    → Adds (λ out.
      collect_option spec.role (
        collect_option spec.value
          (collect_option spec.name (collect_placeholders spec.target out))))
assert-Adds spec =
    let first =
      Adds-compose (collect_placeholders spec.target) (collect_option spec.name)
        (string-Adds spec.target) (option-Adds spec.name) in
    let second = Adds-compose _ (collect_option spec.value) first (option-Adds spec.value) in
    Adds-compose _ (collect_option spec.role) second (option-Adds spec.role)

pub op-Adds : (op : Op) → Adds (collect_placeholders_in_op op)
unfolding collect_placeholders_in_op
op-Adds (Op.wait_until ms spec) = assert-Adds spec
op-Adds (Op.assert spec) = assert-Adds spec
op-Adds (Op.click target d fp) = string-Adds target
op-Adds (Op.type target text d fp) = pair-Adds target text
op-Adds (Op.set_value target value fp) = pair-Adds target value
op-Adds (Op.key target pressed d fp) = pair-Adds target pressed
op-Adds (Op.keybinding r) =
    Adds-compose (collect_placeholders r.binding) (collect_option r.chord) (string-Adds r.binding)
      (option-Adds r.chord)
op-Adds (Op.invoke name args) =
    Adds-compose (collect_placeholders name) (collect_placeholders_in_value args) (string-Adds name)
      (value-Adds args)
op-Adds (Op.screenshot spec) =
    Adds-compose (collect_option spec.path) (collect_option spec.target) (option-Adds spec.path)
      (option-Adds spec.target)
op-Adds Op.hello = Adds-refl
op-Adds Op.revision = Adds-refl
op-Adds Op.keybindings = Adds-refl
op-Adds Op.shutdown = Adds-refl
op-Adds (Op.snapshot a b c) = Adds-refl
op-Adds (Op.events a b) = Adds-refl
op-Adds (Op.wait ms) = Adds-refl
