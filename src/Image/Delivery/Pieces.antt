-- ===== src/Image/Delivery/Pieces.antt =====
-- What the bands are that the loop of `send` cuts off, and which datagrams hold them.
use fipwave.Common.{
  ℕ, suc, ◌+◌, ◌-◌, ◌*◌, ◌≤◌, ◌≡◌, refl, sym, ap, ◌∙◌, arith, List, [], ◌∷◌, ◌++◌, map, length,
  take, drop, ok, take-append-drop, drop-drop, drop-all,
}
use mathlib.Core.List.{Memᴰ}
use native.Mathlib.Nat.{add-mul, mul_comm}
use fipwave.Image.{Zlib, DecodedBand, ImageTransferBand}
use fipwave.Image.Band.{encode_image_band}
use fipwave.Image.Send.{Raster, band_at}
use fipwave.Image.Send.Cut.{Cut, cut_end, cut_band, Checked}
use fipwave.Image.Receive.{total_rows, transfer_band}
use fipwave.Image.Receive.Placed.{Rising}

-- The pixels of bands, one after the other.
abbrev pub joined : List ImageTransferBand → List ℕ
joined [] = []
joined (b ∷ bs) = b.rgba ++ joined bs

Rising-weaken :
    (low high : ℕ) (xs : List ImageTransferBand) → low ≤ high → Rising high xs → Rising low xs
Rising-weaken low high [] h r = tt
Rising-weaken low high (x ∷ xs) h r = (omega (arith, r.0), r.1)

module _ (z : Zlib) (r : Raster) where
  pub Cut-Rising :
      {y : ℕ} {frames : List (List ℕ)} {bands : List DecodedBand}
      → Cut z r y frames bands
      → Rising y (map transfer_band bands)
  unfolding band_at
  Cut-Rising (cut_end e) = tt
  Cut-Rising {y} (cut_band rows {bands = bands} least most e cut) = (
    omega arith,
    Rising-weaken (suc y) (y + rows) (map transfer_band bands) (omega arith) (Cut-Rising cut),
  )

  pub Cut-length :
      {y : ℕ} {frames : List (List ℕ)} {bands : List DecodedBand}
      → Cut z r y frames bands
      → length frames ≡ length bands
  Cut-length (cut_end e) = refl
  Cut-length (cut_band rows least most e cut) = ap suc (Cut-length cut)

  pub Cut-total :
      {y : ℕ} {frames : List (List ℕ)} {bands : List DecodedBand}
      → Cut z r y frames bands
      → y + total_rows (map transfer_band bands) ≡ r.height
  unfolding band_at
  Cut-total (cut_end e) = omega arith
  Cut-total (cut_band rows least most e cut) = omega (arith, Cut-total cut)

  pub Cut-joined :
      Checked r
      → {y : ℕ} {frames : List (List ℕ)} {bands : List DecodedBand} → Cut z r y frames bands
      → joined (map transfer_band bands) ≡ drop (y * r.width * 4) r.rgba
  unfolding band_at
  Cut-joined c {y} (cut_end e) = sym (
      drop-all (y * r.width * 4) r.rgba
        (rw (e) (omega (arith, c.pixels, mul_comm r.height r.width))))
  Cut-joined c {y} (cut_band rows least most e cut) =
      let from = y * r.width * 4 in
      let size = (y + rows) * r.width * 4 - from in
      let together : from + size ≡ (y + rows) * r.width * 4 =
        omega (arith, add-mul y rows r.width) in
      ap (◌++◌ (take size (drop from r.rgba))) (
        Cut-joined c cut
        ∙ ap (λ (k : ℕ). drop k r.rgba) (sym together)
        ∙ sym (drop-drop size from r.rgba))
      ∙ take-append-drop size (drop from r.rgba)

  -- A datagram holds one of the bands.
  pub Cut-frame :
      {y : ℕ} {frames : List (List ℕ)} {bands : List DecodedBand} (f : List ℕ)
      → Cut z r y frames bands
      → Memᴰ f frames
      → (b : DecodedBand) × (encode_image_band z b ≡ ok f)
        × (b.transfer_id ≡ r.transfer_id)
        × (b.width ≡ r.width)
        × (b.height ≡ r.height)
        × Memᴰ (transfer_band b) (map transfer_band bands)
  unfolding band_at
  Cut-frame f (cut_end e) m = elim m [ ]
  Cut-frame f (cut_band {y} rows least most e cut) (Memᴰ.head same) =
      (band_at r y rows, e ∙ ap ok (sym same), refl, refl, refl, Memᴰ.head refl)
  Cut-frame f (cut_band rows least most e cut) (Memᴰ.tail m) =
      let (b, encoded, id, width, height, member) = Cut-frame f cut m in
      (b, encoded, id, width, height, Memᴰ.tail member)

  -- A band is in one of the datagrams.
  pub Cut-band :
      {y : ℕ} {frames : List (List ℕ)} {bands : List DecodedBand} (x : ImageTransferBand)
      → Cut z r y frames bands
      → Memᴰ x (map transfer_band bands)
      → (f : List ℕ) × (b : DecodedBand) × Memᴰ f frames
        × (encode_image_band z b ≡ ok f)
        × (b.y ≡ x.y)
  unfolding band_at
  Cut-band x (cut_end e) m = elim m [ ]
  Cut-band x (cut_band {y} rows {frame = frame} least most e cut) (Memᴰ.head same) =
      (frame, band_at r y rows, Memᴰ.head refl, e, sym (ap (λ (b : ImageTransferBand). b.y) same))
  Cut-band x (cut_band rows least most e cut) (Memᴰ.tail m) =
      let (f, b, member, encoded, row) = Cut-band x cut m in (f, b, Memᴰ.tail member, encoded, row)
