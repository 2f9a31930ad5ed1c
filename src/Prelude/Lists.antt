-- ===== src/Prelude/Lists.antt =====
-- Lists measured and searched by native numbers and Boolean tests.
use Prim.Native.Nat.{ℕ, suc, ◌+◌}
use mathlib.Core.Path.{◌≡◌, refl, subst}
use mathlib.Core.Logic.{◌⊎◌, inl, inr}
use mathlib.Core.Bool.{true, false≢true, Bool, false, ◌||◌}
use mathlib.Core.List.{List, [], ◌∷◌, ◌++◌}
use mathlib.Core.Option.{Option, none, some}
use native.Mathlib.Omega.{arith}
use lotsman.Prelude.Tests.{if◌then◌else◌, Bool-cases}

module _ {ℓ} {A : Type ℓ} where
  abbrev pub length : List A → ℕ
  length [] = 0
  length (x ∷ xs) = suc (length xs)

  pub length-append : (xs ys : List A) → length (xs ++ ys) ≡ length xs + length ys
  length-append [] ys = omega arith
  length-append (x ∷ xs) ys = omega (arith, length-append xs ys)

  -- The loops `for x { if test(x) { return true } }` and `for x { if test(x) { out = append(out, x) } }`.
  unfoldable pub any : (A → Bool) → List A → Bool
  any test [] = false
  any test (x ∷ xs) = test x || any test xs

  unfoldable pub filter : (A → Bool) → List A → List A
  filter test [] = []
  filter test (x ∷ xs) = let rest = filter test xs in if test x then x ∷ rest else rest

  abbrev pub find : (A → Bool) → List A → Option A
  find test [] = none
  find test (x ∷ xs) = if test x then some x else find test xs

-- Membership and "for all", by recursion, which the tactics take apart.
abbrev pub In : {A : Type 0} → A → List A → Type 0
In a [] = ⊥
In a (x ∷ xs) = (x ≡ a) ⊎ In a xs

module _ {ℓ κ} {A : Type ℓ} where
  abbrev pub All : (A → Type κ) → List A → Type κ
  All P [] = Unit
  All P (x ∷ xs) = P x × All P xs

  pub All-append :
      (P : A → Type κ) (front back : List A) → All P front × All P back → All P (front ++ back)
  All-append P [] back (p, q) = q
  All-append P (x ∷ front) back ((p, rest), q) = (p, All-append P front back (rest, q))

module _ {κ} {A : Type 0} where
  pub All-In : (P : A → Type κ) (a : A) (xs : List A) → In a xs → All P xs → P a
  All-In P a [] m h = absurd m
  All-In P a (x ∷ xs) (inl e) h = subst P e h.0
  All-In P a (x ∷ xs) (inr m) h = All-In P a xs m h.1

  pub In-All : (P : A → Type κ) (xs : List A) → ((a : A) → In a xs → P a) → All P xs
  In-All P [] f = tt
  In-All P (x ∷ xs) f = (f x (inl refl), In-All P xs (λ a m. f a (inr m)))

module _ {A : Type 0} (test : A → Bool) where
  pub In-filter : (a : A) (xs : List A) → In a xs → test a ≡ true → In a (filter test xs)
  unfolding filter
  In-filter a [] m h = m
  In-filter a (x ∷ xs) m h = ground (arith, In-filter a xs)

  pub filter-In : (a : A) (xs : List A) → In a (filter test xs) → In a xs × (test a ≡ true)
  unfolding filter
  filter-In a [] m = absurd m
  filter-In a (x ∷ xs) m = ground (arith, filter-In a xs)

  pub any-In : (xs : List A) → any test xs ≡ true → (a : A) × In a xs × (test a ≡ true)
  unfolding any
  any-In [] h = absurd (false≢true h)
  any-In (x ∷ xs) h = elim (Bool-cases (test x)) [
    | inl e ↦ (x, inl refl, e)
    | inr e ↦ let (a, m, k) = any-In xs (ground arith) in (a, inr m, k)
  ]

  pub In-any : (a : A) (xs : List A) → In a xs → test a ≡ true → any test xs ≡ true
  unfolding any
  In-any a [] m h = absurd m
  In-any a (x ∷ xs) m h = ground (arith, In-any a xs)
