-- ===== src/Base/Count.antt =====
-- Occurrences in a list of numbers, and sums over the numbers below a bound.
use Prim.Native.Nat.{ℕ, zero, suc, ◌+◌, ◌≤◌, ◌<◌}
use mathlib.Core.Path.{◌≡◌, refl, sym, subst}
use mathlib.Core.Logic.{◌≢◌, ◌⊎◌, inl, inr}
use mathlib.Core.Bool.{Bool}
use mathlib.Core.List.{List, [], ◌∷◌, ◌++◌}
use native.Mathlib.Omega.{arith}
use native.Mathlib.Decide.{dec_lt}
use gpui_agent.Base.Lists.{length}
use gpui_agent.Base.Tests.{if◌then◌else◌, ◌==◌, nat_eq, Bool-cases}

abbrev pub bit : Bool → ℕ
bit b = if b then 1 else 0

abbrev pub count : ℕ → List ℕ → ℕ
count k [] = 0
count k (x ∷ xs) = bit (x == k) + count k xs

abbrev pub sum : ℕ → (ℕ → ℕ) → ℕ
sum zero f = 0
sum (suc n) f = f n + sum n f

pub count-append : (k : ℕ) (xs ys : List ℕ) → count k (xs ++ ys) ≡ count k xs + count k ys
count-append k [] ys = omega arith
count-append k (x ∷ xs) ys = omega (arith, count-append k xs ys)

pub count_self : (k : ℕ) (xs : List ℕ) → count k (k ∷ xs) ≡ suc (count k xs)
count_self k xs = ground arith

pub count_other : (k j : ℕ) (xs : List ℕ) → j ≢ k → count k (j ∷ xs) ≡ count k xs
count_other k j xs h = ground (arith, h)

pub lt_suc-cases : (k n : ℕ) → k < suc n → (n ≡ k) ⊎ (k < n)
lt_suc-cases k n h = elim (Bool-cases (n == k)) [
  | inl same ↦ inl (ground arith)
  | inr other ↦ inr (ground arith)
]

pub sum-eq : (n : ℕ) (f g : ℕ → ℕ) → ((k : ℕ) → k < n → f k ≡ g k) → sum n f ≡ sum n g
sum-eq zero f g h = refl
sum-eq (suc n) f g h = omega (arith, h n (omega arith), sum-eq n f g (λ k b. h k (omega arith)))

-- A sum of which one term grows.
pub sum_bump :
    (n j c : ℕ) (f g : ℕ → ℕ)
    → j < n
    → f j ≡ g j + c
    → ((k : ℕ) → j ≢ k → f k ≡ g k)
    → sum n f ≡ sum n g + c
sum_bump zero j c f g h e o = absurd (omega arith)
sum_bump (suc n) j c f g h e o = elim (lt_suc-cases j n h) [
  | inl same ↦
      let last : f n ≡ g n + c = subst (λ k. f k ≡ g k + c) (sym same) e in
      omega (arith, last, sum-eq n f g (λ k b. o k (λ q. omega (arith, q, same))))
  | inr below ↦ omega (arith, sum_bump n j c f g below e o, o n (λ q. omega (arith, q)))
]

pub sum_zero : (n k : ℕ) (f : ℕ → ℕ) → sum n f ≡ 0 → k < n → f k ≡ 0
sum_zero zero k f e h = absurd (omega arith)
sum_zero (suc n) k f e h = elim (lt_suc-cases k n h) [
  | inl same ↦ subst (λ j. f j ≡ 0) same (omega arith)
  | inr below ↦ sum_zero n k f (omega arith) below
]

pub sum_none : (n : ℕ) → sum n (λ k. 0) ≡ 0
sum_none zero = refl
sum_none (suc n) = omega (arith, sum_none n)

pub sum-count :
    (n : ℕ) (xs : List ℕ) → ((k : ℕ) → n ≤ k → count k xs ≡ 0) → sum n (λ k. count k xs) ≡ length xs
sum-count n [] h = sum_none n
sum-count n (x ∷ xs) h =
    let bounded : (k : ℕ) → n ≤ k → count k xs ≡ 0 = λ k b. omega (arith, h k b) in
    elim (dec_lt x n) [
      | yes below ↦ omega (
        arith,
        sum_bump n x 1 (λ k. count k (x ∷ xs)) (λ k. count k xs) below
            (omega (arith, count_self x xs)) (λ k o. count_other k x xs o),
        sum-count n xs bounded,
      )
      | no above ↦ absurd (omega (arith, count_self x xs, h x (omega (arith, above))))
    ]

pub sum-le : (n : ℕ) (f : ℕ → ℕ) → ((k : ℕ) → f k ≤ 1) → sum n f ≤ n
sum-le zero f h = omega arith
sum-le (suc n) f h = omega (arith, h n, sum-le n f h)

pub sum_full : (n k : ℕ) (f : ℕ → ℕ) → ((k : ℕ) → f k ≤ 1) → n ≤ sum n f → k < n → f k ≡ 1
sum_full zero k f h s b = absurd (omega arith)
sum_full (suc n) k f h s b = elim (lt_suc-cases k n b) [
  | inl same ↦ subst (λ j. f j ≡ 1) same (omega (arith, h n, sum-le n f h))
  | inr below ↦ sum_full n k f h (omega (arith, h n)) below
]

pub sum_ones : (n : ℕ) (f : ℕ → ℕ) → ((k : ℕ) → k < n → f k ≡ 1) → sum n f ≡ n
sum_ones zero f h = refl
sum_ones (suc n) f h = omega (arith, h n (omega arith), sum_ones n f (λ k b. h k (omega arith)))

pub bit_self : (k : ℕ) → bit (k == k) ≡ 1
bit_self k = ground arith
