-- ===== src/Prelude/Pigeonhole.antt =====
-- Lists without repetition under a Boolean equality, and the pigeonhole principle.
use Prim.Native.Nat.{suc, ◌≤◌}
use mathlib.Core.Path.{◌≡◌}
use mathlib.Core.Logic.{◌↔◌}
use mathlib.Core.Bool.{Bool, true, false, ◌||◌}
use mathlib.Core.List.{List, [], ◌∷◌}
use native.Mathlib.Omega.{arith}
use cf_tunnel.Prelude.Tests.{if◌then◌else◌}
use cf_tunnel.Prelude.Lists.{length, All}

module _ {ℓ} {A : Type ℓ} (eq : A → A → Bool) where
  abbrev pub has : A → List A → Bool
  has a [] = false
  has a (x ∷ xs) = eq x a || has a xs

  abbrev pub IsDistinct : List A → Type 0
  IsDistinct [] = Unit
  IsDistinct (x ∷ xs) = (has x xs ≡ false) × IsDistinct xs

  abbrev without : A → List A → List A
  without a [] = []
  without a (x ∷ xs) = let rest = without a xs in if eq x a then xs else x ∷ rest

  length-without : (a : A) (xs : List A) → has a xs ≡ true → length xs ≡ suc (length (without a xs))
  length-without a [] h = ground arith
  length-without a (x ∷ xs) h = ground (arith, length-without a xs)

  module _ (eq_iff : (a b : A) → (eq a b ≡ true) ↔ (a ≡ b)) where
    has-without :
        (a z : A) (xs : List A) → eq a z ≡ false → has z xs ≡ true → has z (without a xs) ≡ true
    has-without a z [] ne h = ground arith
    has-without a z (x ∷ xs) ne h =
        ground (arith, has-without a z xs ne, eq_iff x a, eq_iff x z, eq_iff a z)

    All-has-without :
        (a : A) (ys xs : List A)
        → has a xs ≡ false
        → All (λ z. has z ys ≡ true) xs
        → All (λ z. has z (without a ys) ≡ true) xs
    All-has-without a ys [] n h = tt
    All-has-without a ys (x ∷ xs) n (p, h) = ground (
      arith,
      All-has-without a ys xs (ground arith) h,
      has-without a x ys,
      eq_iff x a,
      eq_iff a x,
    )

    -- Distinct elements of a list are no more than the list has.
    pub pigeonhole :
        (xs ys : List A) → IsDistinct xs → All (λ z. has z ys ≡ true) xs → length xs ≤ length ys
    pigeonhole [] ys d h = omega arith
    pigeonhole (x ∷ xs) ys (n, d) (p, h) =
        omega (
          arith,
          length-without x ys p,
          pigeonhole xs (without x ys) d (All-has-without x ys xs n h),
        )
