-- ===== src/Image.antt =====
-- packages/bridge/src/image-transfer.ts: a small picture goes from node A to node B over UDP, cut
-- into bands of rows that are compressed one by one. A transfer id is kept as its eight bytes, and
-- pixels as bytes, where the code has their hexadecimal and base64 texts. node:zlib is a parameter.
pub mod Band
pub mod Send
pub mod Receive
pub mod Delivery
pub mod Retry
pub mod Examples
use fipwave.Common.{
  ℕ, ◌*◌, ◌≤◌, ◌≡◌, ◌!=◌, ltb, ◌||◌, Bool, false, List, [], length, Option, none, some, Result,
  fail_if, ◌>>=◌, ◌>>◌,
}

pub data ImageError : Type 0 where
  width_invalid height_invalid raster_invalid transfer_id_invalid : ImageError
  band_y_invalid band_rows_invalid band_payload_invalid band_compressed_oversize : ImageError
  frame_size_invalid frame_header_invalid frame_length_invalid : ImageError
  send_forbidden : ImageError
  -- The socket reports an error for a datagram.
  socket_failed : ImageError
  retry_invalid : ImageError
  -- The loop of `send` has no fuel left.
  out_of_fuel : ImageError

abbrev pub image_max_width : ℕ
image_max_width = 96

abbrev pub image_max_height : ℕ
image_max_height = 96

abbrev pub image_max_bytes : ℕ
image_max_bytes = image_max_width * image_max_height * 4

abbrev pub image_band_max_bytes : ℕ
image_band_max_bytes = 1200

abbrev pub image_band_target_rows : ℕ
image_band_target_rows = 6

abbrev pub header_bytes : ℕ
header_bytes = 32

-- `deflateRawSync` at level 9, and `inflateRawSync` with the greatest length of its output, which
-- throws where the input is malformed or the output would be longer.
pub record Zlib : Type 0 where
  deflate_raw : List ℕ → List ℕ
  inflate_raw : List ℕ → ℕ → Option (List ℕ)

-- What is compressed comes back, where the output may be as long as it is.
abbrev pub Restores : Zlib → Type 0
Restores z =
    (bytes : List ℕ) (limit : ℕ)
    → length bytes ≤ limit
    → z.inflate_raw (z.deflate_raw bytes) limit ≡ some bytes

pub record DecodedBand : Type 0 where
  transfer_id : List ℕ
  width : ℕ
  height : ℕ
  y : ℕ
  rows : ℕ
  rgba : List ℕ

pub record ImageTransferBand : Type 0 where
  y : ℕ
  rows : ℕ
  rgba : List ℕ

pub record ImageTransferSnapshot : Type 0 where
  transfer_id : Option (List ℕ)
  width : ℕ
  height : ℕ
  received_rows : ℕ
  complete : Bool
  revision : ℕ
  bands : List ImageTransferBand

abbrev pub empty_snapshot : ImageTransferSnapshot
empty_snapshot = record {
  transfer_id = none;
  width = 0;
  height = 0;
  received_rows = 0;
  complete = false;
  revision = 0;
  bands = [];
}

-- The check that a natural number is in a range.
abbrev pub integer : ℕ → ℕ → ℕ → ImageError → Result ImageError (Unit {0})
integer value minimum maximum code = fail_if (ltb value minimum || ltb maximum value) code

unfoldable pub validate_raster : ℕ → ℕ → List ℕ → Result ImageError (Unit {0})
validate_raster width height rgba = do
  integer width 1 image_max_width width_invalid
  integer height 1 image_max_height height_invalid
  fail_if ((length rgba != width * height * 4) || ltb image_max_bytes (length rgba)) raster_invalid
