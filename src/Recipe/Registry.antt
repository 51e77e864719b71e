-- ===== src/Recipe/Registry.antt =====
-- The contracts of operations: schema.rs and `Registry` of registry.rs in crates/gpui-agent-recipe/src.
use gpui_agent.Base.{
  ℕ, String, Bool, true, false, ◌≡◌, ◌↔◌, Eq, arith, Option, List, [], ◌∷◌, ◌==◌, ◌||◌, not,
  string_eq, nat_eq, all, length,
}
use gpui_agent.Base.Text.{codes, trim, is_ascii_alphanumeric, is_some}
use gpui_agent.Base.Map
use gpui_agent.Base.Map.{Map}
use gpui_agent.Json.{Value}
use gpui_agent.Error.{Error, Result, ok, err, ensure, ◌>>◌}

pub data Effect : Type 0 where
  read write exit : Effect

abbrev effect_beq : Effect → Effect → Bool
effect_beq Effect.read Effect.read = true
effect_beq Effect.write Effect.write = true
effect_beq Effect.exit Effect.exit = true
effect_beq _ _ = false

pub effect_beq_iff : (a b : Effect) → (effect_beq a b ≡ true) ↔ (a ≡ b)
effect_beq_iff a b = ground arith

instance abbrev pub effect_eq : Eq Effect
effect_eq = record { beq = effect_beq; beq_iff = effect_beq_iff }

-- A first-class operation, a name for `invoke`, or a stable widget id.
pub data SchemaKind : Type 0 where
  protocol invoke id : SchemaKind

-- The field `type` of the source is `ty` here as there.
pub record ArgSchema : Type 0 where
  pub ty : String
  pub required : Bool

pub record OpSchema : Type 0 where
  pub name : String
  pub kind : SchemaKind
  pub description : String
  pub effects : List Effect
  pub idempotent : Bool
  pub verified : Bool
  pub required : List String
  pub args : Map ArgSchema
  pub result : Option Value
  pub keywords : List String

is_name_char : ℕ → Bool
unfolding is_ascii_alphanumeric
is_name_char c = is_ascii_alphanumeric c || c == b'_' || c == b'-' || c == b'.'

-- The inputs that a required name may refer to with no entry under `args`.
is_op_field : String → Bool
is_op_field req =
    req == "target"
    || req == "text"
    || req == "value"
    || req == "key"
    || req == "name"
    || req == "binding"
    || req == "scope"

check_required : OpSchema → List String → Result (Unit {0})
unfolding is_op_field Map.get
check_required schema [] = ok tt
check_required schema (req ∷ reqs) = do
  ensure (is_some (Map.get req schema.args) || is_op_field req)
      (Error.required_without_args schema.name req)
  check_required schema reqs

-- `OpSchema::validate`
unfoldable pub validate : OpSchema → Result (Unit {0})
unfolding trim is_name_char check_required
validate schema = do
  ensure (not (length (trim (codes schema.name)) == 0)) Error.schema_name_empty
  ensure (all is_name_char (codes schema.name)) (Error.bad_schema_name schema.name)
  check_required schema schema.required

abbrev pub Registry : Type 0
Registry = Map OpSchema

abbrev entered : OpSchema → Registry → Result (Unit {0}) → Registry × Result (Unit {0})
entered schema schemas (err e) = (schemas, err e)
entered schema schemas (ok u) = (Map.insert schema.name schema schemas, ok u)

-- A method returns the registry that it leaves and its result.
unfoldable pub insert : OpSchema → Registry → Registry × Result (Unit {0})
unfolding validate
insert schema schemas = entered schema schemas (validate schema)

-- The next entry of `other`, unless the last one failed.
abbrev continued :
    Registry × Result (Unit {0})
    → (Registry → Registry × Result (Unit {0}))
    → Registry × Result (Unit {0})
continued (schemas, err e) rest = (schemas, err e)
continued (schemas, ok u) rest = rest schemas

unfoldable pub merge : Registry → Registry → Registry × Result (Unit {0})
unfolding insert Map.get
merge [] schemas = (schemas, ok tt)
merge ((name, schema) ∷ other) schemas =
    let present = is_some (Map.get schema.name schemas) in
    let step = insert schema schemas in
    elim present [
      | true ↦ (schemas, err (Error.duplicate_schema schema.name))
      | false ↦ continued step (merge other)
    ]

unfoldable pub get : String → Registry → Option OpSchema
unfolding Map.get
get name schemas = Map.get name schemas
