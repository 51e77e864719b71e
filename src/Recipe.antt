-- ===== src/Recipe.antt =====
-- The recipe engine: crates/gpui-agent-recipe/src. A recipe is a named graph of protocol operations.
pub mod Registry
pub mod Params
pub mod Check
pub mod Plan
pub mod Run
pub mod Wants
use gpui_agent.Base.{ℕ, String, Bool, true, false, Option, List, [], ◌∷◌, any, not}
use gpui_agent.Protocol.{Op}

-- The version of the document, and the cap on its length.
abbrev pub recipe_format_version : ℕ
recipe_format_version = 1

abbrev pub max_recipe_steps : ℕ
max_recipe_steps = 256

pub record RecipeStep : Type 0 where
  pub id : String
  pub needs : List String
  pub screenshot : Bool
  pub op : Op

pub record Recipe : Type 0 where
  pub v : ℕ
  pub name : String
  pub app : Option String
  pub params : List String
  pub steps : List RecipeStep

abbrev is_nonempty {ℓ} : {A : Type ℓ} → List A → Bool
is_nonempty [] = false
is_nonempty (x ∷ xs) = true

-- `Recipe::uses_explicit_needs`
unfoldable pub uses_explicit_needs : Recipe → Bool
uses_explicit_needs recipe = any (λ step. is_nonempty step.needs) recipe.steps
