-- ===== src/Image/Receive/Arrivals.antt =====
-- Node B's snapshot while the bands of one picture come in, in any order and more than once.
use fipwave.Common.{
  ℕ, ◌≡◌, ◌==◌, refl, sym, ap, ap₂, ◌∙◌, arith, inl, inr, Bool, true, Bool-cases, List, [], ◌∷◌,
  Option, none, some,
}
use mathlib.Core.List.{Memᴰ}
use fipwave.Image.{DecodedBand, ImageTransferBand}
use fipwave.Image.Receive.{
  ImageTransfer, same_bytes, get_band, set_band, sort_bands, total_rows, transfer_band, repeats,
  store_band,
}
use fipwave.Image.Receive.Placed.{
  place_band, sort_bands-set_band, set_band-get_band, Rising, kept, also, place_kept,
}

pub same_bytes_refl : (a : List ℕ) → same_bytes a a ≡ true
same_bytes_refl [] = refl
same_bytes_refl (x ∷ xs) = ground (arith, same_bytes_refl xs)

same_bytes_eq : (a b : List ℕ) → same_bytes a b ≡ true → a ≡ b
same_bytes_eq [] [] e = refl
same_bytes_eq [] (y ∷ ys) e = cc
same_bytes_eq (x ∷ xs) [] e = cc
same_bytes_eq (x ∷ xs) (y ∷ ys) e = ground (arith, same_bytes_eq xs ys)

get_band-y :
    (y : ℕ) (r : List ImageTransferBand) (b : ImageTransferBand) → get_band y r ≡ some b → b.y ≡ y
get_band-y y [] b e = cc
get_band-y y (x ∷ xs) b e = ground (arith, get_band-y y xs b)

repeated :
    (b : DecodedBand) (o : Option ImageTransferBand) (r : List ImageTransferBand)
    → get_band b.y r ≡ o
    → repeats o b ≡ true
    → get_band b.y r ≡ some (transfer_band b)
repeated b none r g e = cc
repeated b (some p) r g e = g ∙ λ i. some (record {
  y = get_band-y b.y r p g i;
  rows = rows i;
  rgba = same_bytes_eq p.rgba b.rgba (ground arith) i;
})
  where
    rows : p.rows ≡ b.rows
    rows = ground (arith, e)

-- The picture that comes in: its id, its size and its bands in order.
pub record Picture : Type 0 where
  pub id : List ℕ
  pub width : ℕ
  pub height : ℕ
  pub bands : List ImageTransferBand

-- The snapshot shows those bands of the picture whose rows have come.
pub record Showing (p : Picture) (come : ℕ → Bool) (t : ImageTransfer) : Type 0 where
  pub id : t.snapshot.transfer_id ≡ some p.id
  pub width : t.snapshot.width ≡ p.width
  pub height : t.snapshot.height ≡ p.height
  pub received : sort_bands t.received ≡ kept come p.bands
  pub bands : t.snapshot.bands ≡ kept come p.bands
  pub rows : t.snapshot.received_rows ≡ total_rows (kept come p.bands)
  pub complete : t.snapshot.complete ≡ (total_rows (kept come p.bands) == p.height)

-- A band of the picture.
pub record Of (p : Picture) (b : DecodedBand) : Type 0 where
  pub id : b.transfer_id ≡ p.id
  pub width : b.width ≡ p.width
  pub height : b.height ≡ p.height
  pub member : Memᴰ (transfer_band b) p.bands

module _ (p : Picture) (rising : Rising 0 p.bands) (b : DecodedBand) (of : Of p b) where
  set_kept :
      (come : ℕ → Bool) (t : ImageTransfer)
      → Showing p come t
      → sort_bands (set_band (transfer_band b) t.received) ≡ kept (also b.y come) p.bands
  set_kept come t s =
      sort_bands-set_band (transfer_band b) t.received
      ∙ ap (place_band (transfer_band b)) s.received
      ∙ place_kept come (transfer_band b) 0 p.bands rising of.member

  pub store_band-Showing :
      (come : ℕ → Bool) (t : ImageTransfer)
      → Showing p come t
      → Showing p (also b.y come) (store_band b t)
  store_band-Showing come t s = elim (Bool-cases (repeats (get_band b.y t.received) b)) [
    | inl again ↦
        let there = repeated b (get_band b.y t.received) t.received refl again in
        let same : kept come p.bands ≡ kept (also b.y come) p.bands =
          sym s.received
          ∙ ap sort_bands (sym (set_band-get_band (transfer_band b) t.received there))
          ∙ set_kept come t s in
        rw (again) (record {
          id = s.id;
          width = s.width;
          height = s.height;
          received = s.received ∙ same;
          bands = s.bands ∙ same;
          rows = s.rows ∙ ap total_rows same;
          complete =
              s.complete ∙ ap (λ (l : List ImageTransferBand). total_rows l == p.height) same;
        })
    | inr first ↦
        let placed = set_kept come t s in
        rw (first) (record {
          id = s.id;
          width = s.width;
          height = s.height;
          received = placed;
          bands = placed;
          rows = ap total_rows placed;
          complete = ap₂ ◌==◌ (ap total_rows placed) of.height;
        })
  ]
