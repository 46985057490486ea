-- ===== src/Image/Receive/Placed.antt =====
-- The map `received` of `accept` of image-transfer.ts, in the order of its rows.
use fipwave.Common.{
  ℕ, suc, ◌≤◌, ◌<◌, ◌≡◌, ◌==◌, ltb, ◌||◌, refl, sym, ap, ◌∙◌, arith, inl, inr, subst, Bool, false,
  Bool-cases, List, [], ◌∷◌, some, if◌then◌else◌,
}
use mathlib.Core.List.{Memᴰ}
use fipwave.Image.{ImageTransferBand}
use fipwave.Image.Receive.{get_band, set_band, insert_band, sort_bands}

-- A band among bands in the order of their rows, in place of the one at its row if there is one.
abbrev pub place_band : ImageTransferBand → List ImageTransferBand → List ImageTransferBand
place_band b [] = b ∷ []
place_band b (x ∷ xs) =
    let rest = place_band b xs in
    if ltb b.y x.y then b ∷ x ∷ xs else if b.y == x.y then b ∷ xs else x ∷ rest

place_same :
    (b x : ImageTransferBand) (s : List ImageTransferBand)
    → x.y ≡ b.y
    → place_band b (insert_band x s) ≡ insert_band b s
place_same b x [] e = ground arith
place_same b x (y ∷ ys) e = ground (arith, place_same b x ys e)

place_other :
    (b x : ImageTransferBand) (s : List ImageTransferBand)
    → (x.y == b.y) ≡ false
    → insert_band x (place_band b s) ≡ place_band b (insert_band x s)
place_other b x [] e = ground arith
place_other b x (y ∷ ys) e = ground (arith, place_other b x ys e)

pub sort_bands-set_band :
    (b : ImageTransferBand) (r : List ImageTransferBand)
    → sort_bands (set_band b r) ≡ place_band b (sort_bands r)
sort_bands-set_band b [] = refl
sort_bands-set_band b (x ∷ xs) = elim (Bool-cases (x.y == b.y)) [
  | inl same ↦ rw (same) (sym (place_same b x (sort_bands xs) (ground arith)))
  | inr other ↦
      rw (other)
        (ap (insert_band x) (sort_bands-set_band b xs) ∙ place_other b x (sort_bands xs) other)
]

-- Setting a band that is there changes nothing.
pub set_band-get_band :
    (b : ImageTransferBand) (r : List ImageTransferBand)
    → get_band b.y r ≡ some b
    → set_band b r ≡ r
set_band-get_band b [] e = cc
set_band-get_band b (x ∷ xs) e = elim (Bool-cases (x.y == b.y)) [
  | inl same ↦ ground arith
  | inr other ↦ ground (arith, set_band-get_band b xs)
]

-- The bands of a picture from a row on, in order.
abbrev pub Rising : ℕ → List ImageTransferBand → Type 0
Rising low [] = Unit {0}
Rising low (x ∷ xs) = (low ≤ x.y) × Rising (suc x.y) xs

-- Those whose rows have come.
abbrev pub kept : (ℕ → Bool) → List ImageTransferBand → List ImageTransferBand
kept come [] = []
kept come (x ∷ xs) = let rest = kept come xs in if come x.y then x ∷ rest else rest

abbrev pub also : ℕ → (ℕ → Bool) → ℕ → Bool
also k come y = come y || (k == y)

module _ (come : ℕ → Bool) (b : ImageTransferBand) where
  place_first :
      (low : ℕ) (xs : List ImageTransferBand)
      → b.y < low
      → Rising low xs
      → place_band b (kept come xs) ≡ b ∷ kept come xs
  place_first low [] below r = refl
  place_first low (x ∷ xs) below r =
      ground (arith, place_first (suc x.y) xs (omega (arith, r.0)) r.1, r.0)

  kept_above :
      (low : ℕ) (xs : List ImageTransferBand)
      → b.y < low
      → Rising low xs
      → kept (also b.y come) xs ≡ kept come xs
  kept_above low [] below r = refl
  kept_above low (x ∷ xs) below r =
      ground (arith, kept_above (suc x.y) xs (omega (arith, r.0)) r.1, r.0)

  Mem-row : (low : ℕ) (xs : List ImageTransferBand) → Rising low xs → Memᴰ b xs → low ≤ b.y
  Mem-row low [] r m = elim m [ ]
  Mem-row low (x ∷ xs) r (Memᴰ.head e) = subst (λ (c : ImageTransferBand). low ≤ c.y) (sym e) r.0
  Mem-row low (x ∷ xs) r (Memᴰ.tail m) = omega (arith, r.0, Mem-row (suc x.y) xs r.1 m)

  place_head :
      (xs : List ImageTransferBand)
      → Rising (suc b.y) xs
      → place_band b (kept come (b ∷ xs)) ≡ kept (also b.y come) (b ∷ xs)
  place_head xs r =
      ground
        (arith, place_first (suc b.y) xs (omega arith) r, kept_above (suc b.y) xs (omega arith) r)

  pub place_kept :
      (low : ℕ) (xs : List ImageTransferBand)
      → Rising low xs
      → Memᴰ b xs
      → place_band b (kept come xs) ≡ kept (also b.y come) xs
  place_kept low [] r m = elim m [ ]
  place_kept low (x ∷ xs) r (Memᴰ.head e) =
      subst
        (λ (c : ImageTransferBand).
          place_band b (kept come (c ∷ xs)) ≡ kept (also b.y come) (c ∷ xs))
        e (place_head xs (subst (λ (c : ImageTransferBand). Rising (suc c.y) xs) (sym e) r.1))
  place_kept low (x ∷ xs) r (Memᴰ.tail m) =
      ground (arith, place_kept (suc x.y) xs r.1 m, Mem-row (suc x.y) xs r.1 m)
