-- ===== src/Base/Vec.antt =====
-- `Vec` with access by index. What an access out of range would be is the default here: the source
-- panics there.
use Prim.Native.Nat.{ℕ, zero, suc, ◌≤◌, ◌<◌}
use mathlib.Core.Path.{◌≡◌, refl, subst}
use mathlib.Core.Logic.{◌≢◌, inl, inr}
use mathlib.Core.List.{List, [], ◌∷◌}
use native.Mathlib.Omega.{arith}
use gpui_agent.Base.Lists.{length}
use gpui_agent.Base.Tests.{if◌then◌else◌, ◌==◌, nat_eq, Bool-cases}

module _ {ℓ} {A : Type ℓ} where
  abbrev pub get_or : List A → ℕ → A → A
  get_or [] i d = d
  get_or (x ∷ xs) zero d = x
  get_or (x ∷ xs) (suc i) d = get_or xs i d

  -- `xs[i] = f(xs[i])`
  abbrev pub modify : ℕ → (A → A) → List A → List A
  modify i f [] = []
  modify zero f (x ∷ xs) = f x ∷ xs
  modify (suc i) f (x ∷ xs) = x ∷ modify i f xs

  abbrev pub replicate : ℕ → A → List A
  replicate zero x = []
  replicate (suc n) x = x ∷ replicate n x

  pub length-modify : (i : ℕ) (f : A → A) (xs : List A) → length (modify i f xs) ≡ length xs
  length-modify i f [] = refl
  length-modify zero f (x ∷ xs) = refl
  length-modify (suc i) f (x ∷ xs) = omega (arith, length-modify i f xs)

  pub get_or-modify_self :
      (i : ℕ) (f : A → A) (xs : List A) (d : A)
      → i < length xs
      → get_or (modify i f xs) i d ≡ f (get_or xs i d)
  get_or-modify_self i f [] d h = absurd (omega arith)
  get_or-modify_self zero f (x ∷ xs) d h = refl
  get_or-modify_self (suc i) f (x ∷ xs) d h = get_or-modify_self i f xs d (omega arith)

  pub get_or-modify_other :
      (i k : ℕ) (f : A → A) (xs : List A) (d : A)
      → i ≢ k
      → get_or (modify i f xs) k d ≡ get_or xs k d
  get_or-modify_other i k f [] d h = refl
  get_or-modify_other zero zero f (x ∷ xs) d h = absurd (h refl)
  get_or-modify_other zero (suc k) f (x ∷ xs) d h = refl
  get_or-modify_other (suc i) zero f (x ∷ xs) d h = refl
  get_or-modify_other (suc i) (suc k) f (x ∷ xs) d h =
      get_or-modify_other i k f xs d (λ e. h (omega (arith, e)))

  pub get_or-replicate : (n i : ℕ) (x : A) → get_or (replicate n x) i x ≡ x
  get_or-replicate zero i x = refl
  get_or-replicate (suc n) zero x = refl
  get_or-replicate (suc n) (suc i) x = get_or-replicate n i x

  pub length-replicate : (n : ℕ) (x : A) → length (replicate n x) ≡ n
  length-replicate zero x = refl
  length-replicate (suc n) x = omega (arith, length-replicate n x)

  pub get_or-modify :
      (i k : ℕ) (f : A → A) (xs : List A) (d : A)
      → i < length xs
      → get_or (modify i f xs) k d ≡ (if i == k then f (get_or xs k d) else get_or xs k d)
  get_or-modify i k f xs d h = elim (Bool-cases (i == k)) [
    | inl same ↦
        let e : i ≡ k = ground (arith, same) in
        rw (same, if◌then◌else◌)
          (subst (λ j. get_or (modify i f xs) j d ≡ f (get_or xs j d)) e
            (get_or-modify_self i f xs d h))
    | inr other ↦
        rw (other, if◌then◌else◌) (get_or-modify_other i k f xs d (λ e. ground (arith, e, other)))
  ]

  pub get_or-replicate_below : (n i : ℕ) (x d : A) → i < n → get_or (replicate n x) i d ≡ x
  get_or-replicate_below zero i x d h = absurd (omega arith)
  get_or-replicate_below (suc n) zero x d h = refl
  get_or-replicate_below (suc n) (suc i) x d h = get_or-replicate_below n i x d (omega arith)

  pub get_or-beyond : (xs : List A) (i : ℕ) (d : A) → length xs ≤ i → get_or xs i d ≡ d
  get_or-beyond [] i d h = refl
  get_or-beyond (x ∷ xs) zero d h = absurd (omega arith)
  get_or-beyond (x ∷ xs) (suc i) d h = get_or-beyond xs i d (omega arith)
