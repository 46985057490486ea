-- ===== src/Fas1/Examples.antt =====
-- Runs of the FAS1 code, and its theorems at concrete inputs.
use fipwave.Common.{ℕ, ◌+◌, ◌≡◌, ◌≢◌, ◌↔◌, refl, arith, List, [], ◌∷◌, ◌++◌, some, ok, err, All}
use fipwave.Common.Bytes.{le_bytes}
use fipwave.Fas1.{
  Fas1Unit, hello, data_unit, sender_a, sender_code, unit_code, validate_unit, validate_fields,
  validate_data, validate_control, is_data, is_hello, is_ack, bodyless,
}
use fipwave.Fas1.Crc.{crc32c}
use fipwave.Fas1.Codec.{encode_fas1, decode_fas1, header_prefix}
use fipwave.Fas1.Validate.{IsLegal, validate_unit_iff}
use fipwave.Fas1.Crc.Detect.{crc32c_changed_byte}
use fipwave.Fas1.Codec.RoundTrip.{decode-encode}
use fipwave.Fas1.Codec.Accepted.{encode-decode}
use fipwave.Fas1.Codec.Corrupt.{decode_changed_byte}
use fipwave.Fas1.{collection_geometry, gain_invalid}
use fipwave.Fas1.Fragment.{
  FragmentPacketInput, fragment_packet, fragments_from, fragment_at, ceil_div, reassemble_packet,
}
use fipwave.Fas1.Fragment.Split.{IsPart, Numbered, bodies, fragment_packet_lem}
use fipwave.Fas1.Fragment.Reassemble.{reassemble-fragment}
use fipwave.Common.Texts.{same_text}
use fipwave.Fas1.Settings.{
  DirectionalSettings, AcousticSettings, resolve_acoustic_profile, direction_bytes,
  canonicalize_direction, canonicalize_settings, bad_gain, gain_thousandths, thousandfold, nearest,
}
use fipwave.Fas1.Settings.Injective.{Same, canonicalize_settings-Same}
use mathlib.Core.List.Perm

abbrev greeting : Fas1Unit
greeting = record {
  type = hello;
  flags = 1;
  session_id = 0;
  sequence = 7;
  packet_id = 0;
  fragment_index = 0;
  fragment_count = 0;
  packet_length = 0;
  body = 0x68 ∷ 0x69 ∷ [];
}

greeting_valid : validate_unit greeting ≡ ok tt
unfolding validate_unit validate_fields validate_control is_data is_hello is_ack bodyless
greeting_valid = refl

abbrev front : List ℕ
front =
    70 ∷ 65 ∷ 83 ∷ 49 ∷ 1 ∷ 1 ∷ 1 ∷ 0 ∷ 0 ∷ 0 ∷ 0 ∷ 0 ∷ 0 ∷ 0 ∷ 0 ∷ 0 ∷ 7 ∷ 0 ∷ 0 ∷ 0 ∷ 0 ∷ 0 ∷ 0
    ∷ 0 ∷ 0 ∷ 0 ∷ 0 ∷ 0 ∷ 0 ∷ 0 ∷ 2 ∷ 0 ∷ []

abbrev greeting_bytes : List ℕ
greeting_bytes = front ++ (58 ∷ 77 ∷ 124 ∷ 74 ∷ []) ++ (0x68 ∷ 0x69 ∷ [])

greeting_encoded : encode_fas1 greeting ≡ ok greeting_bytes
unfolding encode_fas1 validate_unit validate_fields validate_control is_data is_hello is_ack
    bodyless header_prefix unit_code le_bytes crc32c
greeting_encoded = refl

decode-encode_example : decode_fas1 greeting_bytes ≡ ok greeting
decode-encode_example = decode-encode greeting greeting_bytes greeting_encoded

encode-decode_example : encode_fas1 greeting ≡ ok greeting_bytes
encode-decode_example = encode-decode greeting_bytes greeting (omega arith) decode-encode_example

-- The last byte of the body is damaged.
decode_changed_byte_example :
    decode_fas1 (front ++ (58 ∷ 77 ∷ 124 ∷ 74 ∷ []) ++ (0x68 ∷ 0x6a ∷ [])) ≢ ok greeting
decode_changed_byte_example =
    decode_changed_byte (front ++ (58 ∷ 77 ∷ 124 ∷ 74 ∷ []) ++ (0x68 ∷ [])) [] 0x69 0x6a greeting
      greeting (omega arith) (omega arith) (omega arith) decode-encode_example

crc32c_changed_byte_example : crc32c (1 ∷ 2 ∷ 3 ∷ []) ≢ crc32c (1 ∷ 5 ∷ 3 ∷ [])
crc32c_changed_byte_example =
    crc32c_changed_byte (1 ∷ []) (3 ∷ []) 2 5 (omega arith) (omega arith) (omega arith)

validate_unit_iff_example : (validate_unit greeting ≡ ok tt) ↔ IsLegal greeting
validate_unit_iff_example = validate_unit_iff greeting

abbrev transfer : FragmentPacketInput
transfer = record {
  packet = 10 ∷ 20 ∷ 30 ∷ 40 ∷ 50 ∷ [];
  session_id = 99;
  sequence_start = 4;
  packet_id = 1;
  sender = sender_a;
  payload_bytes = some 2;
}

abbrev part : ℕ → List ℕ → Fas1Unit
part i bytes = record {
  type = data_unit;
  flags = 1;
  session_id = 99;
  sequence = 4 + i;
  packet_id = 1;
  fragment_index = i;
  fragment_count = 3;
  packet_length = 5;
  body = bytes;
}

abbrev first_part : Fas1Unit
first_part = part 0 (10 ∷ 20 ∷ [])

abbrev second_part : Fas1Unit
second_part = part 1 (30 ∷ 40 ∷ [])

abbrev last_part : Fas1Unit
last_part = part 2 (50 ∷ [])

transfer_cut : fragment_packet transfer ≡ ok (first_part ∷ second_part ∷ last_part ∷ [])
unfolding fragment_packet fragments_from fragment_at sender_code
transfer_cut = refl

fragment_packet_lem_example :
    All (IsPart transfer 2) (first_part ∷ second_part ∷ last_part ∷ [])
    × Numbered transfer (ceil_div 5 2) 0 (first_part ∷ second_part ∷ last_part ∷ [])
    × (3 ≡ ceil_div 5 2)
    × (bodies (first_part ∷ second_part ∷ last_part ∷ []) ≡ 10 ∷ 20 ∷ 30 ∷ 40 ∷ 50 ∷ [])
fragment_packet_lem_example =
    fragment_packet_lem transfer (first_part ∷ second_part ∷ last_part ∷ []) transfer_cut

-- The last two parts change places on the way.
reassemble-fragment_example :
    reassemble_packet (first_part ∷ last_part ∷ second_part ∷ []) 2
    ≡ ok (10 ∷ 20 ∷ 30 ∷ 40 ∷ 50 ∷ [])
reassemble-fragment_example =
    reassemble-fragment transfer (first_part ∷ second_part ∷ last_part ∷ [])
      (first_part ∷ last_part ∷ second_part ∷ []) transfer_cut
      (Perm.cons first_part (Perm.swap last_part second_part []))

-- A missing part is noticed.
reassemble_missing : reassemble_packet (first_part ∷ last_part ∷ []) 2 ≡ err collection_geometry
unfolding reassemble_packet validate_unit validate_fields validate_data is_data
reassemble_missing = refl

crc_of_digits :
    crc32c (0x31 ∷ 0x32 ∷ 0x33 ∷ 0x34 ∷ 0x35 ∷ 0x36 ∷ 0x37 ∷ 0x38 ∷ 0x39 ∷ []) ≡ 0xE306_9283
unfolding crc32c
crc_of_digits = refl

-- The settings of both directions with a gain, and their canonical bytes.
abbrev quiet_direction : ℕ → DirectionalSettings
quiet_direction gain = record {
  profile_id = "quiet-audible-7k-v1";
  payload_bytes = 217;
  repetition = 1;
  guard_ms = 750;
  playback_gain = gain;
  ack_timeout_ms = 4000;
}

abbrev quiet_settings : ℕ → AcousticSettings
quiet_settings gain = record { a_to_b = quiet_direction gain; b_to_a = quiet_direction gain }

-- The doubles that 1.122, 1.1219999999999999 and 1.001 are read as.
abbrev gain_1122 : ℕ
gain_1122 = 5053038781909697

abbrev gain_below_1122 : ℕ
gain_below_1122 = 5053038781909696

abbrev gain_1001 : ℕ
gain_1001 = 4508103226997866

abbrev quiet_bytes : List ℕ
quiet_bytes =
    19 ∷ 113 ∷ 117 ∷ 105 ∷ 101 ∷ 116 ∷ 45 ∷ 97 ∷ 117 ∷ 100 ∷ 105 ∷ 98 ∷ 108 ∷ 101 ∷ 45 ∷ 55 ∷ 107
    ∷ 45 ∷ 118 ∷ 49 ∷ 217 ∷ 0 ∷ 1 ∷ 238 ∷ 2 ∷ 98 ∷ 4 ∷ 160 ∷ 15 ∷ []

quiet_canonical :
    canonicalize_settings (quiet_settings gain_1122) ≡ ok (1 ∷ (quiet_bytes ++ quiet_bytes))
unfolding canonicalize_settings canonicalize_direction resolve_acoustic_profile direction_bytes
    same_text le_bytes bad_gain gain_thousandths thousandfold nearest
quiet_canonical = refl

-- The double below has the same bytes.
below_canonical :
    canonicalize_settings (quiet_settings gain_below_1122) ≡ ok (1 ∷ (quiet_bytes ++ quiet_bytes))
unfolding canonicalize_settings canonicalize_direction resolve_acoustic_profile direction_bytes
    same_text le_bytes bad_gain gain_thousandths thousandfold nearest
below_canonical = refl

-- 1.001 is refused, as its product with 1000 is rounded to a number below 1001.
gain_1001_refused : canonicalize_direction (quiet_direction gain_1001) ≡ err gain_invalid
unfolding canonicalize_direction resolve_acoustic_profile same_text bad_gain thousandfold nearest
gain_1001_refused = refl

canonicalize_settings-Same_example :
    Same (quiet_direction gain_1122) (quiet_direction gain_below_1122)
    × Same (quiet_direction gain_1122) (quiet_direction gain_below_1122)
canonicalize_settings-Same_example =
    canonicalize_settings-Same (quiet_settings gain_1122) (quiet_settings gain_below_1122)
      (1 ∷ (quiet_bytes ++ quiet_bytes)) quiet_canonical below_canonical
