-- ===== src/Image/Send/Cut.antt =====
-- The bands that the loop of `send` of image-transfer.ts cuts off.
use fipwave.Common.{
  ℕ, zero, suc, ◌+◌, ◌-◌, ◌*◌, ◌≤◌, ◌<◌, ◌≡◌, inl, inr, ◌⊎◌, refl, ap, arith, length, drop, List,
  [], ◌∷◌, true, Bool-cases, Result, ok, err, ltb, length-take, ok-injective, subst, ◌||◌,
  length-drop,
}
use native.Mathlib.Nat.{add-mul, mul_comm, mul-le-mul, mul-le-mul_right}
use fipwave.Image.{ImageError, width_invalid, band_compressed_oversize, Zlib, DecodedBand}
use fipwave.Image.Band.{write_frame, encode_image_band}
use fipwave.Image.Band.RoundTrip.{Inside}
use fipwave.Image.Send.{Raster, band_at, fit_rows, or_fewer}

-- The frames of consecutive bands from a row down to the last.
pub data Cut (z : Zlib) (r : Raster) : ℕ → List (List ℕ) → List DecodedBand → Type 0 where
  cut_end : {y : ℕ} → y ≡ r.height → Cut z r y [] []
  cut_band :
      {y : ℕ} (rows : ℕ) {frame : List ℕ} {frames : List (List ℕ)} {bands : List DecodedBand}
      → 1 ≤ rows
      → y + rows ≤ r.height
      → encode_image_band z (band_at r y rows) ≡ ok frame
      → Cut z r (y + rows) frames bands
      → Cut z r y (frame ∷ frames) (band_at r y rows ∷ bands)

-- A picture whose size has been checked, with an id.
pub record Checked (r : Raster) : Type 0 where
  pub id : length r.transfer_id ≡ 8
  pub width_least : 1 ≤ r.width
  pub width_most : r.width ≤ 96
  pub height_least : 1 ≤ r.height
  pub height_most : r.height ≤ 96
  pub pixels : length r.rgba ≡ r.width * r.height * 4

-- Each row by itself compresses into a datagram.
abbrev pub RowsFit : Zlib → Raster → Type 0
RowsFit z r =
    (y : ℕ)
    → y < r.height
    → (1 ≤ length (z.deflate_raw (band_at r y 1).rgba))
      × (length (z.deflate_raw (band_at r y 1).rgba) ≤ 1200)

band_at-Inside :
    (r : Raster)
    → Checked r
    → (y rows : ℕ) → 1 ≤ rows
    → y + rows ≤ r.height
    → Inside (band_at r y rows)
unfolding band_at
band_at-Inside r c y rows least most = record {
  width_least = c.width_least;
  width_most = c.width_most;
  height_most = c.height_most;
  rows_least = least;
  rows_most = most;
  pixels =
      let from = y * r.width * 4 in
      let to = (y + rows) * r.width * 4 in
      rw (length-take (to - from) (drop from r.rgba), length-drop from r.rgba)
        (omega (
          arith,
          c.pixels,
          add-mul y rows r.width,
          mul_comm rows r.width,
          mul_comm r.height r.width,
          mul-le-mul_right r.width most,
        ));
}

band_id : (r : Raster) → Checked r → (y n : ℕ) → length (band_at r y n).transfer_id ≡ 8
unfolding band_at
band_id r c y n = c.id

or_fewer-ok :
    (n rows : ℕ) (m : Result ImageError (List ℕ)) (fewer : Result ImageError (ℕ × List ℕ))
    (frame : List ℕ)
    → or_fewer n m fewer ≡ ok (rows, frame)
    → ((n ≡ rows) × (m ≡ ok frame)) ⊎ (fewer ≡ ok (rows, frame))
or_fewer-ok n rows (ok f) fewer frame e =
    let same = ok-injective e in
    inl (ap (λ (p : ℕ × List ℕ). p.0) same, ap (λ (p : ℕ × List ℕ). ok p.1) same)
or_fewer-ok n rows (err band_compressed_oversize) fewer frame e = ground arith
or_fewer-ok n rows (err width_invalid) fewer frame e = cc
or_fewer-ok n rows (err _) fewer frame e = cc

-- The loop over the rows of a band finds a number of rows that the encoder takes.
pub fit_rows-ok :
    (z : Zlib) (r : Raster) (y n rows : ℕ) (frame : List ℕ)
    → fit_rows z r y n ≡ ok (rows, frame)
    → (1 ≤ rows) × (rows ≤ n) × (encode_image_band z (band_at r y rows) ≡ ok frame)
unfolding fit_rows
fit_rows-ok z r y zero rows frame e = cc
fit_rows-ok z r y (suc n) rows frame e =
    elim (or_fewer-ok (suc n) rows (encode_image_band z (band_at r y (suc n))) (fit_rows z r y n)
      frame e) [
        | inl (same, m) ↦ (
          omega arith,
          omega arith,
          subst (λ (k : ℕ). encode_image_band z (band_at r y k) ≡ ok frame) same m,
        )
        | inr rest ↦
            let (least, most, m) = fit_rows-ok z r y n rows frame rest in (least, omega arith, m)
      ]

few_pixels : (b : DecodedBand) → Inside b → length b.rgba ≤ 36864
few_pixels b s =
    let rows : b.rows ≤ 96 = omega (arith, s.rows_most, s.height_most) in
    omega (arith, s.pixels, mul-le-mul s.width_most rows)

-- The encoder takes a band of the picture, or says that it is too large.
encode-fits :
    (z : Zlib) (b : DecodedBand)
    → Inside b
    → length b.transfer_id ≡ 8
    → 1 ≤ length (z.deflate_raw b.rgba)
    → length (z.deflate_raw b.rgba) ≤ 1200
    → encode_image_band z b ≡ ok (write_frame b (z.deflate_raw b.rgba))
unfolding encode_image_band
encode-fits z b s e least most = ground (
  arith,
  s.width_least,
  s.width_most,
  s.height_most,
  s.rows_least,
  s.rows_most,
  s.pixels,
  few_pixels b s,
)

encode-oversize :
    (z : Zlib) (b : DecodedBand)
    → Inside b
    → length b.transfer_id ≡ 8
    → (ltb (length (z.deflate_raw b.rgba)) 1 || ltb 1200 (length (z.deflate_raw b.rgba))) ≡ true
    → encode_image_band z b ≡ err band_compressed_oversize
unfolding encode_image_band
encode-oversize z b s e large = ground (
  arith,
  s.width_least,
  s.width_most,
  s.height_most,
  s.rows_least,
  s.rows_most,
  s.pixels,
  few_pixels b s,
)

-- Where each row fits, the loop over the rows of a band succeeds.
pub fit_rows-found :
    (z : Zlib) (r : Raster)
    → Checked r
    → RowsFit z r
    → (y n : ℕ) → y + suc n ≤ r.height
    → (found : ℕ × List ℕ) × (fit_rows z r y (suc n) ≡ ok found)
unfolding fit_rows
fit_rows-found z r c fit y zero h =
    let b = band_at r y 1 in
    let fits = fit y (omega arith) in
    let e =
      encode-fits z b (band_at-Inside r c y 1 (omega arith) h) (band_id r c y 1) fits.0 fits.1 in
    ((1, write_frame b (z.deflate_raw b.rgba)), rw (e) refl)
fit_rows-found z r c fit y (suc n) h =
    let b = band_at r y (suc (suc n)) in
    let inside = band_at-Inside r c y (suc (suc n)) (omega arith) h in
    let size = length (z.deflate_raw b.rgba) in
    elim (Bool-cases (ltb size 1 || ltb 1200 size)) [
      | inl large ↦
          let (found, e) = fit_rows-found z r c fit y n (omega arith) in
          (
            found,
            rw (encode-oversize z b inside (band_id r c y (suc (suc n))) large) (ground (arith, e)),
          )
      | inr small ↦ (
        (suc (suc n), write_frame b (z.deflate_raw b.rgba)),
        rw (encode-fits z b inside (band_id r c y (suc (suc n))) (ground arith) (ground arith))
            refl,
      )
    ]
