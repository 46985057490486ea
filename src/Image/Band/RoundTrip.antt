-- ===== src/Image/Band/RoundTrip.antt =====
-- `encodeImageBand` and `decodeImageBand` of image-transfer.ts, one after the other.
use fipwave.Common.{ℕ, ◌+◌, ◌*◌, ◌≤◌, ◌<◌, ◌≡◌, refl, arith, List, [], ◌∷◌, length, drop, ok}
use fipwave.Common.Bytes.{le_bytes, le_value, get_uint, le_value-le_bytes}
use fipwave.Image.{Zlib, Restores, DecodedBand}
use fipwave.Image.Band.{write_frame, encode_image_band, check_band, read_band, decode_image_band}

-- The limits of a band in a picture.
pub record Inside (b : DecodedBand) : Type 0 where
  pub width_least : 1 ≤ b.width
  pub width_most : b.width ≤ 96
  pub height_most : b.height ≤ 96
  pub rows_least : 1 ≤ b.rows
  pub rows_most : b.y + b.rows ≤ b.height
  pub pixels : length b.rgba ≡ b.width * b.rows * 4

-- What `encodeImageBand` has made sure of.
pub record Encoded (z : Zlib) (b : DecodedBand) (frame : List ℕ) : Type 0 where
  pub inside : Inside b
  pub id : length b.transfer_id ≡ 8
  pub payload_least : 1 ≤ length (z.deflate_raw b.rgba)
  pub payload_most : length (z.deflate_raw b.rgba) ≤ 1200
  pub written : frame ≡ write_frame b (z.deflate_raw b.rgba)

pub encode_image_band-Encoded :
    (z : Zlib) (b : DecodedBand) (frame : List ℕ)
    → encode_image_band z b ≡ ok frame
    → Encoded z b frame
unfolding encode_image_band
encode_image_band-Encoded z b frame e = record {
  inside = record {
    width_least = ground arith;
    width_most = ground arith;
    height_most = ground arith;
    rows_least = ground arith;
    rows_most = ground arith;
    pixels = ground arith;
  };
  id = ground arith;
  payload_least = ground arith;
  payload_most = ground arith;
  written = ground arith;
}

-- The fields of a frame, whose id is written out.
record Fields (b : DecodedBand) (payload : List ℕ) : Type 0 where
  magic_0 : get_uint 1 0 (write_frame b payload) ≡ 0x46
  magic_1 : get_uint 1 1 (write_frame b payload) ≡ 0x49
  magic_2 : get_uint 1 2 (write_frame b payload) ≡ 0x4d
  magic_3 : get_uint 1 3 (write_frame b payload) ≡ 0x47
  version : get_uint 1 4 (write_frame b payload) ≡ 1
  encoding : get_uint 1 5 (write_frame b payload) ≡ 2
  reserved : get_uint 2 6 (write_frame b payload) ≡ 0
  padding : get_uint 4 28 (write_frame b payload) ≡ 0
  declared : get_uint 4 24 (write_frame b payload) ≡ length payload
  rest : drop 32 (write_frame b payload) ≡ payload
  size : length (write_frame b payload) ≡ 32 + length payload
  band : (rgba : List ℕ) → read_band (write_frame b payload) rgba ≡ record b { rgba = rgba }

module _ (w h y r : ℕ) (p payload : List ℕ) where
  with_id : List ℕ → DecodedBand
  with_id id = record { transfer_id = id; width = w; height = h; y = y; rows = r; rgba = p }

  written-Fields :
      (id : List ℕ)
      → length id ≡ 8
      → w < 65536
      → h < 65536
      → y < 65536
      → r < 65536
      → length payload < 65536
      → Fields (with_id id) payload
  unfolding with_id write_frame read_band le_bytes get_uint le_value
  written-Fields (i0 ∷ i1 ∷ i2 ∷ i3 ∷ i4 ∷ i5 ∷ i6 ∷ i7 ∷ []) e fw fh fy fr fp = record {
    magic_0 = refl;
    magic_1 = refl;
    magic_2 = refl;
    magic_3 = refl;
    version = refl;
    encoding = refl;
    reserved = refl;
    padding = refl;
    declared = le_value-le_bytes 4 (length payload) (omega arith);
    rest = refl;
    size = omega arith;
    band = λ rgba i. record {
      transfer_id = i0 ∷ i1 ∷ i2 ∷ i3 ∷ i4 ∷ i5 ∷ i6 ∷ i7 ∷ [];
      width = le_value-le_bytes 2 w fw i;
      height = le_value-le_bytes 2 h fh i;
      y = le_value-le_bytes 2 y fy i;
      rows = le_value-le_bytes 2 r fr i;
      rgba = rgba;
    };
  }
  written-Fields [] e fw fh fy fr fp = absurd (omega arith)
  written-Fields (a ∷ []) e fw fh fy fr fp = absurd (omega arith)
  written-Fields (a ∷ b ∷ []) e fw fh fy fr fp = absurd (omega arith)
  written-Fields (a ∷ b ∷ c ∷ []) e fw fh fy fr fp = absurd (omega arith)
  written-Fields (a ∷ b ∷ c ∷ d ∷ []) e fw fh fy fr fp = absurd (omega arith)
  written-Fields (a ∷ b ∷ c ∷ d ∷ f ∷ []) e fw fh fy fr fp = absurd (omega arith)
  written-Fields (a ∷ b ∷ c ∷ d ∷ f ∷ g ∷ []) e fw fh fy fr fp = absurd (omega arith)
  written-Fields (a ∷ b ∷ c ∷ d ∷ f ∷ g ∷ k ∷ []) e fw fh fy fr fp = absurd (omega arith)
  written-Fields (a ∷ b ∷ c ∷ d ∷ f ∷ g ∷ k ∷ l ∷ m ∷ n) e fw fh fy fr fp = absurd (omega arith)

frame-Fields :
    (z : Zlib) (b : DecodedBand) (frame : List ℕ)
    → Encoded z b frame
    → Fields b (z.deflate_raw b.rgba)
unfolding with_id
frame-Fields z b frame e =
    let s = e.inside in
    written-Fields b.width b.height b.y b.rows b.rgba (z.deflate_raw b.rgba) b.transfer_id e.id
      (omega (arith, s.width_most)) (omega (arith, s.height_most))
      (omega (arith, s.rows_most, s.height_most)) (omega (arith, s.rows_most, s.height_most))
      (omega (arith, e.payload_most))

pub check_band-Inside : (b : DecodedBand) → Inside b → check_band b ≡ ok tt
unfolding check_band
check_band-Inside b s =
    ground (arith, s.width_least, s.width_most, s.height_most, s.rows_least, s.rows_most)

unread_pixels :
    (b : DecodedBand) (rgba : List ℕ) → check_band (record b { rgba = rgba }) ≡ check_band b
unfolding check_band
unread_pixels b rgba = refl

decode-Encoded :
    (z : Zlib)
    → Restores z
    → (b : DecodedBand) (frame : List ℕ) → Encoded z b frame
    → decode_image_band z (write_frame b (z.deflate_raw b.rgba)) ≡ ok b
unfolding decode_image_band
decode-Encoded z restores b frame e =
    let payload = z.deflate_raw b.rgba in
    let f = frame-Fields z b frame e in
    rw
      (
        f.size,
        f.magic_0,
        f.magic_1,
        f.magic_2,
        f.magic_3,
        f.version,
        f.encoding,
        f.reserved,
        f.padding,
        f.declared,
        f.rest,
        f.band [],
        unread_pixels b [],
        check_band-Inside b e.inside,
        restores b.rgba (b.width * b.rows * 4) (omega (arith, e.inside.pixels)),
        f.band b.rgba,
      )
      (ground (arith, e.payload_least, e.payload_most, e.inside.pixels))

-- What `encodeImageBand` writes, `decodeImageBand` reads back as the band that was given.
pub decode_image_band-encode_image_band :
    (z : Zlib)
    → Restores z
    → (b : DecodedBand) (frame : List ℕ) → encode_image_band z b ≡ ok frame
    → decode_image_band z frame ≡ ok b
decode_image_band-encode_image_band z restores b frame e =
    let facts = encode_image_band-Encoded z b frame e in
    rw (facts.written) (decode-Encoded z restores b frame facts)

-- A frame that `decodeImageBand` accepts gives a band that lies in a picture of at most 96 by 96 pixels and has all the pixels of its rows.
pub decode_image_band-Inside :
    (z : Zlib) (frame : List ℕ) (b : DecodedBand) → decode_image_band z frame ≡ ok b → Inside b
unfolding decode_image_band check_band read_band
decode_image_band-Inside z frame b e = record {
  width_least = ground arith;
  width_most = ground arith;
  height_most = ground arith;
  rows_least = ground arith;
  rows_most = ground arith;
  pixels = ground arith;
}
