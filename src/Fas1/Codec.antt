-- ===== src/Fas1/Codec.antt =====
-- `encodeFas1` and `decodeFas1` of acoustic-protocol.ts. The writes into the output buffer follow
-- one another without a gap, so the buffer is the concatenation of the fields.
pub mod RoundTrip
pub mod Accepted
pub mod Corrupt
use fipwave.Common.{
  ℕ, ◌+◌, ◌==◌, ◌!=◌, ltb, ◌||◌, ◌&&◌, if◌then◌else◌, List, [], ◌∷◌, ◌++◌, length, take, drop,
  Option, none, some, Result, ok, err, fail_if, or_fail, ◌>>=◌, ◌>>◌,
}
use fipwave.Common.Bytes.{le_bytes, get_uint}
use fipwave.Fas1.{
  Fas1Unit, UnitType, Fas1Error, unit_code, unit_type_of, validate_unit, fas1_version,
  fas1_header_bytes, fas1_max_body_bytes, fas1_max_unit_bytes, type_unsupported, sender_flag,
  unit_length, magic, version, declared_body_length, crc_invalid,
}
use fipwave.Fas1.Crc.{crc32c}

-- The first 32 bytes of the output, which the checksum covers.
unfoldable pub header_prefix : Fas1Unit → List ℕ
header_prefix u =
    0x46
    ∷ 0x41
    ∷ 0x53
    ∷ 0x31
    ∷ fas1_version
    ∷ unit_code u.type
    ∷ (le_bytes 2 u.flags
        ++ (le_bytes 8 u.session_id
            ++ (le_bytes 4 u.sequence
                ++ (le_bytes 4 u.packet_id
                    ++ (le_bytes 2 u.fragment_index
                        ++ (le_bytes 2 u.fragment_count
                            ++ (le_bytes 2 u.packet_length ++ le_bytes 2 (length u.body))))))))

-- `crcProtectedBytes`.
abbrev pub crc_protected_bytes : List ℕ → List ℕ → List ℕ
crc_protected_bytes header body = take 32 header ++ body

unfoldable pub encode_fas1 : Fas1Unit → Result Fas1Error (List ℕ)
encode_fas1 u = do
  validate_unit u
  ok (
      header_prefix u
      ++ (le_bytes 4 (crc32c (crc_protected_bytes (header_prefix u) u.body)) ++ u.body))

-- The unit that the fields of the input make.
unfoldable pub read_unit : UnitType → List ℕ → Fas1Unit
read_unit t input = record {
  type = t;
  flags = get_uint 2 6 input;
  session_id = get_uint 8 8 input;
  sequence = get_uint 4 16 input;
  packet_id = get_uint 4 20 input;
  fragment_index = get_uint 2 24 input;
  fragment_count = get_uint 2 26 input;
  packet_length = get_uint 2 28 input;
  body = drop fas1_header_bytes input;
}

unfoldable pub decode_fas1 : List ℕ → Result Fas1Error Fas1Unit
decode_fas1 input = do
  fail_if (ltb (length input) fas1_header_bytes || ltb fas1_max_unit_bytes (length input))
      unit_length
  fail_if
      ((get_uint 1 0 input != 0x46)
        || (get_uint 1 1 input != 0x41)
        || (get_uint 1 2 input != 0x53)
        || (get_uint 1 3 input != 0x31))
      magic
  fail_if (get_uint 1 4 input != fas1_version) version
  t ← or_fail (unit_type_of (get_uint 1 5 input)) type_unsupported
  fail_if ((get_uint 2 6 input != 1) && (get_uint 2 6 input != 2)) sender_flag
  fail_if
      (ltb fas1_max_body_bytes (get_uint 2 30 input)
        || (length input != fas1_header_bytes + get_uint 2 30 input))
      declared_body_length
  fail_if (crc32c (crc_protected_bytes input (drop fas1_header_bytes input)) != get_uint 4 32 input)
      crc_invalid
  validate_unit (read_unit t input)
  ok (read_unit t input)
