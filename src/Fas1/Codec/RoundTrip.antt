-- ===== src/Fas1/Codec/RoundTrip.antt =====
-- Encoding and decoding of units are inverse to one another.
use fipwave.Common.{
  Result-unit-cases, subst, ℕ, ◌+◌, ◌<◌, ◌≤◌, ◌^◌, ◌≡◌, inl, inr, refl, arith, length, ok, List,
  ◌++◌, take, drop, some,
}
use fipwave.Common.Bytes.{le_bytes, le_value, get_uint, le_value-le_bytes}
use fipwave.Fas1.{UnitType, hello, Fas1Unit, unit_code, unit_type_of, validate_unit}
use fipwave.Fas1.Validate.{FitsHeader, validate_unit-IsLegal}
use fipwave.Fas1.Crc.{crc32c}
use fipwave.Fas1.Crc.Detect.{crc32c-lt}
use fipwave.Fas1.Codec.{header_prefix, crc_protected_bytes, encode_fas1, decode_fas1, read_unit}

-- A frame with the checksum `c`.
unfoldable pub frame : Fas1Unit → ℕ → List ℕ
frame u c = header_prefix u ++ (le_bytes 4 c ++ u.body)

frame_type : (t : UnitType) → unit_type_of (unit_code t + 0) ≡ some t
unfolding unit_type_of unit_code
frame_type hello = refl
frame_type t = refl

frame_unit : (u : Fas1Unit) (c : ℕ) → FitsHeader u → read_unit u.type (frame u c) ≡ u
unfolding frame header_prefix le_bytes get_uint le_value read_unit
frame_unit u c f = λ i. record {
  type = u.type;
  flags = flags_read i;
  session_id = le_value-le_bytes 8 u.session_id f.session i;
  sequence = le_value-le_bytes 4 u.sequence f.sequence i;
  packet_id = le_value-le_bytes 4 u.packet_id f.packet i;
  fragment_index = le_value-le_bytes 2 u.fragment_index f.index i;
  fragment_count = le_value-le_bytes 2 u.fragment_count f.count i;
  packet_length = le_value-le_bytes 2 u.packet_length f.total i;
  body = u.body;
}
  where
    flags_read : le_value (le_bytes 2 u.flags) ≡ u.flags
    flags_read = le_value-le_bytes 2 u.flags (ground arith)

pub frame_prefix : (u : Fas1Unit) (c : ℕ) → take 32 (frame u c) ≡ header_prefix u
unfolding frame header_prefix le_bytes
frame_prefix u c = refl

pub prefix_prefix : (u : Fas1Unit) → take 32 (header_prefix u) ≡ header_prefix u
unfolding header_prefix le_bytes
prefix_prefix u = refl

frame_body : (u : Fas1Unit) (c : ℕ) → drop 36 (frame u c) ≡ u.body
unfolding frame header_prefix le_bytes
frame_body u c = refl

length-frame : (u : Fas1Unit) (c : ℕ) → length (frame u c) ≡ 36 + length u.body
unfolding frame header_prefix le_bytes
length-frame u c = omega arith

frame_body_length :
    (u : Fas1Unit) (c : ℕ) → length u.body ≤ 217 → get_uint 2 30 (frame u c) ≡ length u.body
unfolding frame header_prefix le_bytes le_value get_uint
frame_body_length u c h = le_value-le_bytes 2 (length u.body) (omega arith)

frame_crc : (u : Fas1Unit) (c : ℕ) → c < 2 ^ 32 → get_uint 4 32 (frame u c) ≡ c
unfolding frame header_prefix le_bytes get_uint le_value
frame_crc u c h = le_value-le_bytes 4 c h

frame_magic :
    (u : Fas1Unit) (c : ℕ)
    → (get_uint 1 0 (frame u c) ≡ 0x46)
      × (get_uint 1 1 (frame u c) ≡ 0x41)
      × (get_uint 1 2 (frame u c) ≡ 0x53)
      × (get_uint 1 3 (frame u c) ≡ 0x31)
      × (get_uint 1 4 (frame u c) ≡ 1)
      × (get_uint 1 5 (frame u c) ≡ unit_code u.type + 0)
unfolding frame header_prefix le_bytes get_uint le_value
frame_magic u c = (refl, refl, refl, refl, refl, refl)

frame_flags : (u : Fas1Unit) (c : ℕ) → FitsHeader u → get_uint 2 6 (frame u c) ≡ u.flags
unfolding frame header_prefix le_bytes get_uint le_value
frame_flags u c f = le_value-le_bytes 2 u.flags (ground arith)

decode-frame :
    (u : Fas1Unit)
    → validate_unit u ≡ ok tt
    → decode_fas1 (frame u (crc32c (crc_protected_bytes (header_prefix u) u.body))) ≡ ok u
unfolding decode_fas1
decode-frame u v =
    let c = crc32c (crc_protected_bytes (header_prefix u) u.body) in
    let l = validate_unit-IsLegal u v in
    let m = frame_magic u c in
    rw
      (
        length-frame u c,
        m.0,
        m.1,
        m.2,
        m.3,
        m.4,
        m.5,
        frame_type u.type,
        frame_flags u c l.fits,
        frame_body_length u c l.fits.body,
        frame_body u c,
        frame_prefix u c,
        frame_crc u c (crc32c-lt _),
        frame_unit u c l.fits,
        prefix_prefix u,
        v,
      )
      (ground (arith, l.fits.sender, l.fits.body))

-- The unit that `encodeFas1` was given comes back from `decodeFas1`.
pub decode-encode :
    (u : Fas1Unit) (bytes : List ℕ) → encode_fas1 u ≡ ok bytes → decode_fas1 bytes ≡ ok u
unfolding encode_fas1 frame
decode-encode u bytes e = elim (Result-unit-cases (validate_unit u)) [
  | inl v ↦ subst (λ b. decode_fas1 b ≡ ok u) (ground arith) (decode-frame u v)
  | inr (x, v) ↦ absurd (ground arith)
]
