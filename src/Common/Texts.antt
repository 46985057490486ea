-- ===== src/Common/Texts.antt =====
-- Equality of strings, and the first element that passes a test.
use Prim.Native.String.{String}
use mathlib.Core.Path.{◌≡◌, refl, ap, sym, ◌∙◌}
use mathlib.Core.Logic.{◌↔◌}
use mathlib.Core.Bool.{Bool, true, false}
use mathlib.Core.List.{List, [], ◌∷◌, ◌++◌}
use mathlib.Core.Option.{Option, none, some, some-injective}
use fipwave.Common.Tests.{if◌then◌else◌}
use fipwave.Common.Lists.{All}
use text.Mathlib.Text
use text.Mathlib.TextEquality.{eq_iff}

-- `===` of strings.
unfoldable pub same_text : String → String → Bool
same_text s t = Text.◌==◌ s t

pub same_text_iff : (s t : String) → (same_text s t ≡ true) ↔ (s ≡ t)
unfolding same_text
same_text_iff s t = eq_iff s t

module _ {ℓ} {A : Type ℓ} where
  -- `Array.find`
  abbrev pub find : (A → Bool) → List A → Option A
  find p [] = none
  find p (x ∷ xs) = let rest = find p xs in if p x then some x else rest

  -- `x` is the first element of the list that passes the test.
  abbrev pub First : (A → Bool) → List A → A → Type ℓ
  First p xs x =
      (before : List A) × (after : List A) × (xs ≡ before ++ (x ∷ after))
      × All (λ y. p y ≡ false) before
      × (p x ≡ true)

  pub find-First : (p : A → Bool) (xs : List A) (x : A) → find p xs ≡ some x → First p xs x
  find-First p [] x h = cc
  find-First p (y ∷ ys) x h = at (find-First p ys x) (p y) refl h
    where
      at :
          (find p ys ≡ some x → First p ys x)
          → (b : Bool) → p y ≡ b
          → (if b then some y else find p ys) ≡ some x
          → First p (y ∷ ys) x
      at later true e h =
          let same : y ≡ x = some-injective y x h in
          ([], ys, ap (λ (z : A). z ∷ ys) same, tt, ap p (sym same) ∙ e)
      at later false e h =
          let (before, after, split, fails, passes) = later h in
          (y ∷ before, after, ap (◌∷◌ y) split, (e, fails), passes)

  find_first :
      (p : A → Bool) (before after : List A) (x : A)
      → All (λ y. p y ≡ false) before
      → p x ≡ true
      → find p (before ++ (x ∷ after)) ≡ some x
  find_first p [] after x h e = rw (e) refl
  find_first p (y ∷ ys) after x h e = rw (h.0) (find_first p ys after x h.1 e)

  pub First-find : (p : A → Bool) (xs : List A) (x : A) → First p xs x → find p xs ≡ some x
  First-find p xs x (before, after, split, fails, passes) =
      ap (find p) split ∙ find_first p before after x fails passes
