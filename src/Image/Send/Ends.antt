-- ===== src/Image/Send/Ends.antt =====
-- `send` of image-transfer.ts on any input.
use fipwave.Common.{
  ℕ, zero, suc, ◌+◌, ◌-◌, ◌≤◌, ◌≡◌, ◌≢◌, inl, inr, refl, ap, ◌∙◌, arith, List, [], ◌∷◌, All, Bool,
  true, false, not, ◌||◌, Bool-cases, Result, ok, err, ltb, min,
}
use fipwave.Image.{
  ImageError, out_of_fuel, band_compressed_oversize, width_invalid, Zlib, Restores,
  ImageTransferSnapshot, validate_raster,
}
use fipwave.Image.Band.{encode_image_band, decode_image_band}
use fipwave.Image.Band.RoundTrip.{decode_image_band-encode_image_band}
use fipwave.Image.Send.{
  Raster, band_at, or_fewer, fit_rows, Sent, send_band, send_from, send_valid, Role, is_a, send,
}
use fipwave.Image.Send.Cut.{fit_rows-ok}

encode-ends :
    (z : Zlib) (r : Raster) (y n : ℕ) → encode_image_band z (band_at r y n) ≢ err out_of_fuel
unfolding encode_image_band
encode-ends z r y n = ground arith

or_fewer-ends :
    (n : ℕ) (m : Result ImageError (List ℕ)) (fewer : Result ImageError (ℕ × List ℕ))
    → m ≢ err out_of_fuel
    → fewer ≢ err out_of_fuel
    → or_fewer n m fewer ≢ err out_of_fuel
or_fewer-ends n (ok f) fewer a b = λ e. cc
or_fewer-ends n (err band_compressed_oversize) fewer a b = ground arith
or_fewer-ends n (err out_of_fuel) fewer a b = λ e. a refl
or_fewer-ends n (err width_invalid) fewer a b = λ e. cc
or_fewer-ends n (err _) fewer a b = λ e. cc

fit_rows-ends : (z : Zlib) (r : Raster) (y n : ℕ) → fit_rows z r y n ≢ err out_of_fuel
unfolding fit_rows
fit_rows-ends z r y zero = λ e. cc
fit_rows-ends z r y (suc n) =
    or_fewer-ends (suc n) (encode_image_band z (band_at r y (suc n))) (fit_rows z r y n)
      (encode-ends z r y (suc n)) (fit_rows-ends z r y n)

-- A datagram of a band of the picture.
abbrev pub IsPiece : Zlib → Raster → List ℕ → Type 0
IsPiece z r f = (y : ℕ) × (rows : ℕ) × (encode_image_band z (band_at r y rows) ≡ ok f)

-- A part of the loop that has ended.
record Ended (z : Zlib) (r : Raster) (sent : Sent) : Type 0 where
  ends : sent.outcome ≢ err out_of_fuel
  pieces : All (IsPiece z r) sent.datagrams

module _ (z : Zlib) (socket : ℕ → Bool) (r : Raster) where
  send_band-Ended :
      (y n : ℕ) (fit : Result ImageError (ℕ × List ℕ)) (goes_out : Bool) (below : ℕ → Sent)
      → fit_rows z r y n ≡ fit
      → ((rows : ℕ) → 1 ≤ rows → Ended z r (below rows))
      → Ended z r (send_band fit goes_out below)
  send_band-Ended y n (err x) goes_out below e h = record {
    ends = λ same. fit_rows-ends z r y n (e ∙ cc);
    pieces = tt;
  }
  send_band-Ended y n (ok (rows, frame)) false below e h = record { ends = λ same. cc; pieces = tt }
  send_band-Ended y n (ok (rows, frame)) true below e h =
      let (least, most, encoded) = fit_rows-ok z r y n rows frame e in
      let rest = h rows least in
      record { ends = rest.ends; pieces = ((y, rows, encoded), rest.pieces) }

  send_from-Ended : (fuel y n : ℕ) → r.height ≤ y + fuel → Ended z r (send_from z socket r fuel y n)
  unfolding send_from
  send_from-Ended zero y n enough = record { ends = ground arith; pieces = tt }
  send_from-Ended (suc fuel) y n enough = elim (Bool-cases (ltb y r.height)) [
    | inl more ↦
        let k = min 6 (r.height - y) in
        rw (more) (
          send_band-Ended y k (fit_rows z r y k) (socket n) _ refl
            (λ rows least. send_from-Ended fuel (y + rows) (suc n) (omega arith)))
    | inr end ↦ rw (end) (record { ends = λ e. cc; pieces = tt })
  ]

send_valid-Ended :
    (z : Zlib) (socket : ℕ → Bool) (r : Raster) (checked : Result ImageError (Unit {0}))
    (s : ImageTransferSnapshot)
    → checked ≢ err out_of_fuel
    → Ended z r (send_valid z socket r checked s).0
send_valid-Ended z socket r (err e) s h = record {
  ends = λ same. h (ap (λ (o : Result ImageError ℕ). unit_of o) same);
  pieces = tt;
}
  where
    unit_of : Result ImageError ℕ → Result ImageError (Unit {0})
    unit_of (ok n) = ok tt
    unit_of (err x) = err x
send_valid-Ended z socket r (ok u) s h = send_from-Ended z socket r r.height 0 0 (omega arith)

validate_raster-ends :
    (width height : ℕ) (rgba : List ℕ) → validate_raster width height rgba ≢ err out_of_fuel
unfolding validate_raster
validate_raster-ends width height rgba = ground arith

send-Ended :
    (z : Zlib) (socket : ℕ → Bool) (role : Role) (closed : Bool) (r : Raster)
    (s : ImageTransferSnapshot)
    → Ended z r (send z socket role closed r s).0
unfolding send
send-Ended z socket role closed r s = elim (Bool-cases (closed || not (is_a role))) [
  | inl refused ↦ rw (refused) (record { ends = λ e. cc; pieces = tt })
  | inr allowed ↦ rw (allowed) (
      send_valid-Ended z socket r (validate_raster r.width r.height r.rgba) s
        (validate_raster-ends r.width r.height r.rgba))
]

-- `send` ends on every input, whatever the sizes, the compressed bands and the socket's answers are: as many rounds as the picture has rows are enough.
pub send-ends :
    (z : Zlib) (socket : ℕ → Bool) (role : Role) (closed : Bool) (r : Raster)
    (s : ImageTransferSnapshot)
    → (send z socket role closed r s).0.outcome ≢ err out_of_fuel
send-ends z socket role closed r s = (send-Ended z socket role closed r s).ends

pieces_decode :
    (z : Zlib)
    → Restores z
    → (r : Raster) (frames : List (List ℕ)) → All (IsPiece z r) frames
    → All (λ f. (y : ℕ) × (rows : ℕ) × (decode_image_band z f ≡ ok (band_at r y rows))) frames
pieces_decode z restores r [] a = tt
pieces_decode z restores r (f ∷ fs) a =
    let (y, rows, e) = a.0 in
    (
      (y, rows, decode_image_band-encode_image_band z restores (band_at r y rows) f e),
      pieces_decode z restores r fs a.1,
    )

-- Where inflating restores what was deflated, each datagram that `send` lets out, also when it fails later, is read as some rows of its picture.
pub send-decode_image_band :
    (z : Zlib)
    → Restores z
    → (socket : ℕ → Bool) (role : Role) (closed : Bool) (r : Raster) (s : ImageTransferSnapshot)
    → All
        (λ f. (y : ℕ) × (rows : ℕ) × (decode_image_band z f ≡ ok (band_at r y rows)))
        (send z socket role closed r s).0.datagrams
send-decode_image_band z restores socket role closed r s =
    pieces_decode z restores r (send z socket role closed r s).0.datagrams
      (send-Ended z socket role closed r s).pieces
