-- ===== src/Tests.antt =====
-- The theorems at concrete inputs.
mod Data
mod Serving
mod Trees
mod Wire
mod Recipes
