-- ===== src/Image/Send/Whole.antt =====
-- The end of the loop of `send` of image-transfer.ts.
use fipwave.Common.{
  ℕ, zero, suc, ◌+◌, ◌-◌, ◌≤◌, ◌≡◌, inl, inr, ◌∙◌, ap, arith, length, List, [], ◌∷◌, Bool, true,
  Bool-cases, ok, ltb, min,
}
use fipwave.Image.{Zlib, DecodedBand}
use fipwave.Image.Band.{encode_image_band}
use fipwave.Image.Send.{Raster, band_at, Sent, send_from}
use fipwave.Image.Send.Cut.{Cut, cut_end, cut_band, Checked, RowsFit, fit_rows-ok, fit_rows-found}

-- The datagrams are those of consecutive bands down to the last row, which are counted.
abbrev pub Whole : Zlib → Raster → ℕ → ℕ → Sent → Type 0
Whole z r y n sent =
    (bands : List DecodedBand) × Cut z r y sent.datagrams bands
    × (sent.outcome ≡ ok (n + length bands))

one_more :
    (z : Zlib) (r : Raster) (y n rows : ℕ) (frame : List ℕ) (below : Sent)
    → 1 ≤ rows
    → y + rows ≤ r.height
    → encode_image_band z (band_at r y rows) ≡ ok frame
    → Whole z r (y + rows) (suc n) below
    → Whole z r y n (record below { datagrams = frame ∷ below.datagrams })
one_more z r y n rows frame below least most encoded (bands, cut, counted) =
    (band_at r y rows ∷ bands, cut_band rows least most encoded cut, counted ∙ ap ok (omega arith))

module _ (z : Zlib) (socket : ℕ → Bool) (r : Raster) (c : Checked r) (fit : RowsFit z r)
    (goes_out : (n : ℕ) → socket n ≡ true) where
  pub send_from-Whole :
      (fuel y n : ℕ)
      → y ≤ r.height
      → r.height ≤ y + fuel
      → Whole z r y n (send_from z socket r fuel y n)
  unfolding send_from
  send_from-Whole zero y n low enough = ([], cut_end (omega arith), ground arith)
  send_from-Whole (suc fuel) y n low enough = elim (Bool-cases (ltb y r.height)) [
    | inl more ↦
        let k = min 6 (r.height - y) - 1 in
        let target : min 6 (r.height - y) ≡ suc k = ground arith in
        let (found, e) = fit_rows-found z r c fit y k (ground arith) in
        let (least, most, encoded) = fit_rows-ok z r y (suc k) found.0 found.1 e in
        let below = send_from z socket r fuel (y + found.0) (suc n) in
        rw (more, target, e, goes_out n)
          (one_more z r y n found.0 found.1 below least (ground arith) encoded
            (send_from-Whole fuel (y + found.0) (suc n) (ground arith) (omega arith)))
    | inr end ↦ rw (end) ([], cut_end (ground arith), ground arith)
  ]
