-- ===== src/Image/Band.antt =====
-- `encodeImageBand` and `decodeImageBand` of image-transfer.ts: the datagram of one band. The writes
-- into the frame follow one another, and the bytes between them are zero.
pub mod RoundTrip
use fipwave.Common.{
  ℕ, ◌+◌, ◌-◌, ◌*◌, ◌!=◌, ltb, leb, ◌||◌, List, [], ◌∷◌, ◌++◌, length, take, drop, Result, ok,
  fail_if, or_fail, ◌>>=◌, ◌>>◌,
}
use fipwave.Common.Bytes.{le_bytes, get_uint}
use fipwave.Image.{
  ImageError, width_invalid, height_invalid, transfer_id_invalid, band_y_invalid, band_rows_invalid,
  band_payload_invalid, band_compressed_oversize, frame_size_invalid, frame_header_invalid,
  frame_length_invalid, image_max_width, image_max_height, image_max_bytes, image_band_max_bytes,
  header_bytes, Zlib, DecodedBand, integer,
}

-- `MAGIC`, FIMG in ASCII.
abbrev pub magic_bytes : List ℕ
magic_bytes = 0x46 ∷ 0x49 ∷ 0x4d ∷ 0x47 ∷ []

abbrev pub encoding_deflate_raw : ℕ
encoding_deflate_raw = 2

unfoldable pub write_frame : DecodedBand → List ℕ → List ℕ
write_frame b payload =
    magic_bytes
    ++ (1
        ∷ encoding_deflate_raw
        ∷ 0
        ∷ 0
        ∷ (b.transfer_id
            ++ (le_bytes 2 b.width
                ++ (le_bytes 2 b.height
                    ++ (le_bytes 2 b.y
                        ++ (le_bytes 2 b.rows
                            ++ (le_bytes 4 (length payload) ++ (0 ∷ 0 ∷ 0 ∷ 0 ∷ payload))))))))

unfoldable pub encode_image_band : Zlib → DecodedBand → Result ImageError (List ℕ)
encode_image_band z b = do
  integer b.width 1 image_max_width width_invalid
  integer b.height 1 image_max_height height_invalid
  fail_if (length b.transfer_id != 8) transfer_id_invalid
  integer b.y 0 (b.height - 1) band_y_invalid
  integer b.rows 1 (b.height - b.y) band_rows_invalid
  fail_if ((length b.rgba != b.width * b.rows * 4) || ltb image_max_bytes (length b.rgba))
      band_payload_invalid
  let payload = z.deflate_raw b.rgba
  fail_if (ltb (length payload) 1 || ltb image_band_max_bytes (length payload))
      band_compressed_oversize
  ok (write_frame b payload)

-- The limits of a band that has been read.
unfoldable pub check_band : DecodedBand → Result ImageError (Unit {0})
check_band b = do
  integer b.width 1 image_max_width width_invalid
  integer b.height 1 image_max_height height_invalid
  integer b.y 0 (b.height - 1) band_y_invalid
  integer b.rows 1 (b.height - b.y) band_rows_invalid

-- The band that the fields of a frame make, with its pixels.
unfoldable pub read_band : List ℕ → List ℕ → DecodedBand
read_band frame rgba = record {
  transfer_id = take 8 (drop 8 frame);
  width = get_uint 2 16 frame;
  height = get_uint 2 18 frame;
  y = get_uint 2 20 frame;
  rows = get_uint 2 22 frame;
  rgba = rgba;
}

unfoldable pub decode_image_band : Zlib → List ℕ → Result ImageError DecodedBand
decode_image_band z frame = do
  fail_if
      (leb (length frame) header_bytes || ltb (header_bytes + image_band_max_bytes) (length frame))
      frame_size_invalid
  fail_if
      ((get_uint 1 0 frame != 0x46)
        || (get_uint 1 1 frame != 0x49)
        || (get_uint 1 2 frame != 0x4d)
        || (get_uint 1 3 frame != 0x47)
        || (get_uint 1 4 frame != 1)
        || (get_uint 1 5 frame != encoding_deflate_raw)
        || (get_uint 2 6 frame != 0)
        || (get_uint 4 28 frame != 0))
      frame_header_invalid
  let payload = drop header_bytes frame
  fail_if (get_uint 4 24 frame != length payload) frame_length_invalid
  let band = read_band frame []
  check_band band
  let expected_bytes = band.width * band.rows * 4
  rgba ← or_fail (z.inflate_raw payload expected_bytes) band_payload_invalid
  fail_if (length rgba != expected_bytes) band_payload_invalid
  ok (read_band frame rgba)
