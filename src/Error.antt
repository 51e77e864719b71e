-- ===== src/Error.antt =====
-- The error texts of the program. Each constructor stands for one message of the source and holds
-- the values that the message interpolates; a message is told from another by its fixed words.
use gpui_agent.Base.{◌≡◌, refl, ◌⊎◌, inl, inr, ℕ, String, Bool, true, false, Option, List}
use gpui_agent.Base.Text.{Text}
use gpui_agent.Modes.{KeybindingScope}

-- The details behind `in_viewport_unavailable: `.
pub data Clipless : Type 0 where
  headless : Clipless
  zero_bounds no_window zero_clip : String → Clipless

pub data Error : Type 0 where
  -- crates/gpui-agent/src/tree.rs
  not_found : String → Error
  duplicate_id : String → ℕ → Error
  in_viewport_unavailable : Clipless → Error
  -- `assert_tree` of crates/gpui-agent/src/dispatch.rs: the target, the expected and the actual value
  name_mismatch role_mismatch : String → String → String → Error
  value_mismatch : String → String → Option String → Error
  checked_mismatch : String → Bool → Option Bool → Error
  visible_mismatch in_viewport_mismatch : String → Bool → Bool → Error
  should_be_absent : String → Error
  -- the rest of dispatch.rs
  unsupported_version : ℕ → Error
  token_on_wire token_required invalid_token : Error
  events_unsupported : Error
  target_gone stale_target : String → Error
  wait_timed_out : Error
  wait_until_timed_out : Error → Error
  -- crates/gpui-agent/src/scroll_capture.rs and screenshot.rs
  scroll_target_required max_height_zero : Error
  max_height_exceeded : ℕ → Error
  screenshot_unavailable : String → Error
  -- crates/gpui-agent/src/keybinding.rs
  not_a_keybinding binding_required activate_needs_focused : Error
  unknown_binding confirm_required : Text → Error
  wrong_scope : Text → List KeybindingScope → KeybindingScope → Error
  chord_mismatch : Text → Text → String → Error
  keybinding_unavailable : String → Error
  -- crates/gpui-agent/src/virtual_input.rs
  virtual_unavailable : String → Error
  -- crates/gpui-agent/src/mailbox.rs
  mailbox_full : Error
  -- crates/todo-core/src/lib.rs
  empty_title title_required id_required page_required : Error
  todo_not_found : ℕ → Error
  cannot_click not_editable unknown_page unknown_invoke : String → Error
  unhandled_key : String → String → Error
  -- crates/gpui-agent-recipe/src: schema.rs and registry.rs
  schema_name_empty : Error
  bad_schema_name duplicate_schema : String → Error
  required_without_args : String → String → Error
  -- recipe.rs and plan.rs: `validate_recipe`, `apply_params`, `schedule`
  unsupported_recipe_version too_many_steps : ℕ → Error
  recipe_name_empty recipe_without_steps step_id_empty dependency_cycle : Error
  id_with_params duplicate_step self_need : String → Error
  need_with_params unknown_need_of : String → String → Error
  undeclared_placeholder unconfirmed_quit not_an_invoke unregistered_invoke : String → Error
  missing_set unknown_need : String → Error
  -- the `.wants` parser of recipe.rs. `wants_needs` holds a message without values.
  unterminated_quote : Error
  wants_needs unknown_op unknown_assert_field expected_bool expected_key_value : String → Error
  bad_token bad_mode bad_number : String → String → Error
  bad_wants_line : ℕ → Error → Error
  -- crates/gpui-agent/src/client.rs: the last error of the attempts
  connect_failed : Error → Error
  -- any other text, from a host that is not under this library
  host_error : String → Error

-- `is_in_viewport_unavailable`: the prefix test of tree.rs
abbrev pub is_in_viewport_unavailable : Error → Bool
is_in_viewport_unavailable (Error.in_viewport_unavailable d) = true
is_in_viewport_unavailable _ = false

-- `is_stale_dispatch_error`: the prefix test of dispatch.rs
abbrev pub is_stale_dispatch_error : Error → Bool
is_stale_dispatch_error (Error.target_gone id) = true
is_stale_dispatch_error (Error.stale_target id) = true
is_stale_dispatch_error _ = false

-- `Result<A, String>`
pub data Result {ℓ} (A : Type ℓ) : Type ℓ where
  err : Error → Result A
  ok : A → Result A

infixl 5 ◌>>=◌ ◌>>◌
abbrev pub ◌>>=◌ {ℓ κ} : {A : Type ℓ} {B : Type κ} → Result A → (A → Result B) → Result B
err e >>= f = err e
ok a >>= f = f a

abbrev pub ◌>>◌ {ℓ} : {B : Type ℓ} → Result (Unit {0}) → Result B → Result B
ok u >> k = k
err e >> k = err e

-- `if !test { return Err(e); }`
abbrev pub ensure : Bool → Error → Result (Unit {0})
ensure true e = ok tt
ensure false e = err e

abbrev pub is_ok {ℓ} : {A : Type ℓ} → Result A → Bool
is_ok (ok a) = true
is_ok (err e) = false

abbrev pub map_ok {ℓ κ} : {A : Type ℓ} {B : Type κ} → (A → B) → Result A → Result B
map_ok f (ok a) = ok (f a)
map_ok f (err e) = err e

-- To split on a computed result and keep the equation.
pub Result-cases {ℓ} :
    {A : Type ℓ} (r : Result A) → ((a : A) × (r ≡ ok a)) ⊎ ((e : Error) × (r ≡ err e))
Result-cases (ok a) = inl (a, refl)
Result-cases (err e) = inr (e, refl)

pub is_ok-map_ok {ℓ κ} :
    {A : Type ℓ} {B : Type κ} (f : A → B) (r : Result A)
    → is_ok r ≡ true
    → is_ok (map_ok f r) ≡ true
is_ok-map_ok f (ok a) h = refl
is_ok-map_ok f (err e) h = h

pub is_ok->>= {ℓ κ} :
    {A : Type ℓ} {B : Type κ} (r : Result A) (f : A → Result B)
    → is_ok r ≡ true
    → ((a : A) → is_ok (f a) ≡ true)
    → is_ok (r >>= f) ≡ true
is_ok->>= (ok a) f h k = k a
is_ok->>= (err e) f h k = h

-- Inversion of a successful sequence.
pub >>-eq-ok {ℓ} :
    {B : Type ℓ} (m : Result (Unit {0})) (k : Result B) {b : B}
    → (m >> k) ≡ ok b
    → (m ≡ ok tt) × (k ≡ ok b)
>>-eq-ok (ok u) k h = (refl, h)
>>-eq-ok (err e) k h = cc

pub >>=-eq-ok {ℓ κ} :
    {A : Type ℓ} {B : Type κ} (first : Result A) (rest : A → Result B) {last : B}
    → (first >>= rest) ≡ ok last
    → (value : A) × (first ≡ ok value) × (rest value ≡ ok last)
>>=-eq-ok (err e) rest done = cc
>>=-eq-ok (ok value) rest done = (value, refl, done)

pub ok-injective {ℓ} : {A : Type ℓ} (a b : A) → ok a ≡ ok b → a ≡ b
ok-injective a b h = cc
