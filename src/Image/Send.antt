-- ===== src/Image/Send.antt =====
-- `send` of image-transfer.ts, on node A. The rows that are left are cut off band by band, and a band
-- that does not compress into a datagram loses rows until it does. The socket's answers are a
-- parameter: whether the n-th datagram of the call goes out. No other call comes in between.
pub mod Cut
pub mod Whole
pub mod Ends
use fipwave.Common.{
  ℕ, zero, suc, ◌+◌, ◌-◌, ◌*◌, ◌==◌, ltb, not, min, if◌then◌else◌, Bool, true, false, List, [], ◌∷◌,
  take, drop, some, Result, ok, err, ◌||◌,
}
use fipwave.Image.{
  ImageError, band_payload_invalid, band_compressed_oversize, send_forbidden, socket_failed,
  out_of_fuel, image_band_target_rows, Zlib, DecodedBand, ImageTransferSnapshot, validate_raster,
}
use fipwave.Image.Band.{encode_image_band}

pub record Raster : Type 0 where
  pub transfer_id : List ℕ
  pub width : ℕ
  pub height : ℕ
  pub rgba : List ℕ

-- `rgba.subarray(from, to)`
abbrev pub subarray : ℕ → ℕ → List ℕ → List ℕ
subarray from to bytes = take (to - from) (drop from bytes)

unfoldable pub band_at : Raster → ℕ → ℕ → DecodedBand
band_at r y rows = record {
  transfer_id = r.transfer_id;
  width = r.width;
  height = r.height;
  y = y;
  rows = rows;
  rgba = subarray (y * r.width * 4) ((y + rows) * r.width * 4) r.rgba;
}

-- A band with its number of rows, or what the loop over fewer rows gives.
abbrev pub or_fewer :
    ℕ → Result ImageError (List ℕ) → Result ImageError (ℕ × List ℕ) → Result ImageError (ℕ × List ℕ)
or_fewer rows (ok frame) fewer = ok (rows, frame)
or_fewer rows (err band_compressed_oversize) fewer =
    if rows == 1 then err band_compressed_oversize else fewer
or_fewer rows (err e) fewer = err e

-- The loop over the number of rows.
unfoldable pub fit_rows : Zlib → Raster → ℕ → ℕ → Result ImageError (ℕ × List ℕ)
fit_rows z r y zero = err band_payload_invalid
fit_rows z r y (suc rows) =
    or_fewer (suc rows) (encode_image_band z (band_at r y (suc rows))) (fit_rows z r y rows)

-- The datagrams that went out, and the number of bands or the error.
pub record Sent : Type 0 where
  pub datagrams : List (List ℕ)
  pub outcome : Result ImageError ℕ

-- A band is sent, and the loop goes on below it.
abbrev pub send_band : Result ImageError (ℕ × List ℕ) → Bool → (ℕ → Sent) → Sent
send_band (err e) goes_out below = record { datagrams = []; outcome = err e }
send_band (ok (rows, frame)) false below = record { datagrams = []; outcome = err socket_failed }
send_band (ok (rows, frame)) true below = record (below rows) {
  datagrams = frame ∷ (below rows).datagrams;
}

-- The loop over the bands; `bands` of them have gone out.
unfoldable pub send_from : Zlib → (ℕ → Bool) → Raster → ℕ → ℕ → ℕ → Sent
send_from z socket r zero y bands = record {
  datagrams = [];
  outcome = if ltb y r.height then err out_of_fuel else ok bands;
}
send_from z socket r (suc fuel) y bands =
    let fit = fit_rows z r y (min image_band_target_rows (r.height - y)) in
    let next =
      send_band fit (socket bands) (λ rows. send_from z socket r fuel (y + rows) (suc bands)) in
    if ltb y r.height then next else record { datagrams = []; outcome = ok bands }

pub data Role : Type 0 where
  role_a role_b : Role

abbrev pub is_a : Role → Bool
is_a role_a = true
is_a role_b = false

abbrev pub begin_send : Raster → ImageTransferSnapshot → ImageTransferSnapshot
begin_send r s = record {
  transfer_id = some r.transfer_id;
  width = r.width;
  height = r.height;
  received_rows = 0;
  complete = false;
  revision = suc s.revision;
  bands = [];
}

abbrev pub finish_send : Raster → ImageTransferSnapshot → ImageTransferSnapshot
finish_send r s = record s { received_rows = r.height; complete = true; revision = suc s.revision }

abbrev pub ended_snapshot :
    Raster → Result ImageError ℕ → ImageTransferSnapshot → ImageTransferSnapshot
ended_snapshot r (ok bands) s = finish_send r s
ended_snapshot r (err e) s = s

abbrev pub refuse : ImageError → ImageTransferSnapshot → Sent × ImageTransferSnapshot
refuse e s = (record { datagrams = []; outcome = err e }, s)

-- The call with a validated picture; a loop has at most as many rounds as the picture has rows.
abbrev pub send_valid :
    Zlib
    → (ℕ → Bool)
    → Raster
    → Result ImageError (Unit {0})
    → ImageTransferSnapshot
    → Sent × ImageTransferSnapshot
send_valid z socket r (err e) s = refuse e s
send_valid z socket r (ok u) s =
    let sent = send_from z socket r r.height 0 0 in
    (sent, ended_snapshot r sent.outcome (begin_send r s))

-- `send`, whose transfer id is one of the raster's fields.
unfoldable pub send :
    Zlib → (ℕ → Bool) → Role → Bool → Raster → ImageTransferSnapshot → Sent × ImageTransferSnapshot
send z socket role closed r s =
    if closed || not (is_a role)
    then refuse send_forbidden s
    else send_valid z socket r (validate_raster r.width r.height r.rgba) s
