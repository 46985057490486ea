-- ===== src/Common/Splits.antt =====
-- The part of a list before or after a place, seen from an element in its middle.
use fipwave.Common.Lists.{length, take, drop}
use Prim.Native.Nat.{ℕ, zero, suc, ◌-◌, ◌≤◌, ◌<◌}
use mathlib.Core.Path.{◌≡◌, refl, ap, ◌∙◌}
use mathlib.Core.List.{List, [], ◌∷◌, ◌++◌}
use native.Mathlib.Omega.{arith}

module _ {ℓ} {A : Type ℓ} where
  pub take_past :
      (k : ℕ) (xs ys : List A) (b : A)
      → length xs < k
      → take k (xs ++ (b ∷ ys)) ≡ xs ++ (b ∷ take (k - 1 - length xs) ys)
  take_past zero xs ys b h = absurd (omega arith)
  take_past (suc k) [] ys b h = ap (λ (n : ℕ). b ∷ take n ys) (omega arith)
  take_past (suc k) (x ∷ xs) ys b h =
      ap (◌∷◌ x)
        (take_past k xs ys b (omega arith) ∙ ap (λ (n : ℕ). xs ++ (b ∷ take n ys)) (omega arith))

  pub take_within : (k : ℕ) (xs ys : List A) → k ≤ length xs → take k (xs ++ ys) ≡ take k xs
  take_within zero xs ys h = refl
  take_within (suc k) [] ys h = absurd (omega arith)
  take_within (suc k) (x ∷ xs) ys h = ap (◌∷◌ x) (take_within k xs ys (omega arith))

  pub drop_past :
      (k : ℕ) (xs ys : List A) (b : A)
      → length xs < k
      → drop k (xs ++ (b ∷ ys)) ≡ drop (k - 1 - length xs) ys
  drop_past zero xs ys b h = absurd (omega arith)
  drop_past (suc k) [] ys b h = ap (λ (n : ℕ). drop n ys) (omega arith)
  drop_past (suc k) (x ∷ xs) ys b h =
      drop_past k xs ys b (omega arith) ∙ ap (λ (n : ℕ). drop n ys) (omega arith)

  pub drop_within : (k : ℕ) (xs ys : List A) → k ≤ length xs → drop k (xs ++ ys) ≡ drop k xs ++ ys
  drop_within zero xs ys h = refl
  drop_within (suc k) [] ys h = absurd (omega arith)
  drop_within (suc k) (x ∷ xs) ys h = drop_within k xs ys (omega arith)
