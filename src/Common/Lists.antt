-- ===== src/Common/Lists.antt =====
-- Lists measured by native numbers, and predicates on lists by recursion.
use Prim.Native.Nat.{ℕ, zero, suc, ◌+◌}
use mathlib.Core.Path.{◌≡◌}
use mathlib.Core.Bool.{Bool, false, ◌||◌, ◌&&◌}
use mathlib.Core.List.{List, [], ◌∷◌, ◌++◌}
use mathlib.Core.Option.{Option, none, some}
use native.Mathlib.Omega.{arith}
use mathlib.Core.Bool.{true}
use mathlib.Core.Logic.{inl, inr}
use hr_profi_uz.Common.Tests.{if◌then◌else◌, Bool-cases}

module _ {ℓ} {A : Type ℓ} where
  abbrev pub length : List A → ℕ
  length [] = 0
  length (x ∷ xs) = suc (length xs)

  abbrev pub take : ℕ → List A → List A
  take zero xs = []
  take (suc n) [] = []
  take (suc n) (x ∷ xs) = x ∷ take n xs

  abbrev pub filter_by : (A → Bool) → List A → List A
  filter_by p [] = []
  filter_by p (x ∷ xs) = let rest = filter_by p xs in if p x then x ∷ rest else rest

  abbrev pub any : (A → Bool) → List A → Bool
  any p [] = false
  any p (x ∷ xs) = p x || any p xs

  abbrev pub every : (A → Bool) → List A → Bool
  every p [] = true
  every p (x ∷ xs) = p x && every p xs

  abbrev pub find_by : (A → Bool) → List A → Option A
  find_by p [] = none
  find_by p (x ∷ xs) = if p x then some x else find_by p xs

  abbrev pub count_by : (A → Bool) → List A → ℕ
  count_by p [] = 0
  count_by p (x ∷ xs) = (if p x then 1 else 0) + count_by p xs

  pub length-append : (xs ys : List A) → length (xs ++ ys) ≡ length xs + length ys
  length-append [] ys = omega arith
  length-append (x ∷ xs) ys = omega (arith, length-append xs ys)

module _ {ℓ κ} {A : Type ℓ} (P : A → Type κ) where
  abbrev pub All : List A → Type κ
  All [] = Unit
  All (x ∷ xs) = P x × All xs

module _ {ℓ κ} {A : Type ℓ} where
  pub All_mono {ι} :
      (P : A → Type κ) (Q : A → Type ι) (xs : List A) → ((x : A) → P x → Q x) → All P xs → All Q xs
  All_mono P Q [] f h = tt
  All_mono P Q (x ∷ xs) f (h, hs) = (f x h, All_mono P Q xs f hs)

  pub filter_by-All :
      (P : A → Type κ) (f : A → Bool) (xs : List A) → All P xs → All P (filter_by f xs)
  filter_by-All P f [] h = tt
  filter_by-All P f (x ∷ xs) (h, hs) = elim (Bool-cases (f x)) [
    | inl e ↦ rw e (h, filter_by-All P f xs hs)
    | inr e ↦ rw e (filter_by-All P f xs hs)
  ]

  -- What is true of the elements that pass the test.
  pub filter_by-All_test :
      (P : A → Type κ) (f : A → Bool) (xs : List A)
      → ((x : A) → f x ≡ true → P x)
      → All P (filter_by f xs)
  filter_by-All_test P f [] h = tt
  filter_by-All_test P f (x ∷ xs) h = elim (Bool-cases (f x)) [
    | inl e ↦ rw e (h x e, filter_by-All_test P f xs h)
    | inr e ↦ rw e (filter_by-All_test P f xs h)
  ]

module _ {ℓ} {A : Type ℓ} where
  pub every-All : (p : A → Bool) (xs : List A) → every p xs ≡ true → All (λ x. p x ≡ true) xs
  every-All p [] h = tt
  every-All p (x ∷ xs) h = (ground (arith, h), every-All p xs (ground (arith, h)))
