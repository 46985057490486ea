-- ===== src/Fwav/Frame.antt =====
-- `validateFrame`, `encodeFrame` and `decodeFrame` of protocol.ts. The writes into the output
-- buffer follow one another without a gap, so the buffer is the concatenation of the fields.
pub mod Legal
pub mod Defaults
pub mod RoundTrip
pub mod Accepted
use fipwave.Common.{
  ℕ, ◌+◌, ◌*◌, ◌%◌, ◌==◌, ◌!=◌, ltb, ◌||◌, ◌&&◌, not, Bool, true, false, if◌then◌else◌, List, [],
  ◌∷◌, ◌++◌, length, drop, Option, none, some, Result, ok, err, fail_if, or_fail, ◌>>=◌, ◌>>◌,
}
use fipwave.Common.Bytes.{le_bytes, get_uint}
use fipwave.Fwav.{
  MessageType, pcm_capture, pcm_playback, fips_packet, acoustic_ready, acoustic_disarm,
  fips_packet_admission, message_code, message_type_of, FwavFrame, ValidFrame, FwavError,
  is_fips_traffic_class, fwav_version, header_bytes, max_message_bytes, max_payload_bytes,
  acoustic_disarm_capability_bytes, float32_le, flags_range, epoch_range, sequence_range,
  message_cap, fips_flags, class_unsupported, class_not_fips, class_ordinary, readiness_control,
  disarm_size, admission_flags, sample_rate_range, channel_count_range, encoding_range,
  pcm_sample_rate, pcm_channels, pcm_encoding, not_pcm, short_message, magic, version,
  type_unsupported, declared_length,
}
use fipwave.Fwav.Proof.{decode_acoustic_readiness_proof, decode_fips_packet_admission}
use fipwave.Fwav.Pcm.{decode_pcm_payload}

unfoldable pub is_fips : MessageType → Bool
is_fips fips_packet = true
is_fips _ = false

unfoldable pub is_pcm : MessageType → Bool
is_pcm pcm_capture = true
is_pcm pcm_playback = true
is_pcm _ = false

-- `value ?? default`.
abbrev pub or_default : Option ℕ → ℕ → ℕ
or_default none d = d
or_default (some n) d = n

abbrev pub is_some : Option ℕ → Bool
is_some none = false
is_some (some n) = true

-- `validateInteger`, of a value that is a natural number.
abbrev pub validate_integer : ℕ → ℕ → FwavError → Result FwavError (Unit {0})
validate_integer value maximum e = fail_if (ltb maximum value) e

-- A check of which only the failure matters.
abbrev pub check : {A : Type 0} → Result FwavError A → Result FwavError (Unit {0})
check m = m >>= λ _. ok tt

unfoldable pub validate_sizes : FwavFrame → Result FwavError (Unit {0})
validate_sizes f = do
  validate_integer (or_default f.flags 0) 0xffff flags_range
  validate_integer f.epoch 0xffff_ffff epoch_range
  fail_if (ltb 0xffff_ffff_ffff_ffff f.sequence) sequence_range
  fail_if (ltb max_payload_bytes (length f.payload)) message_cap

-- The traffic class is the one of a FIPS packet.
unfoldable pub validate_class : FwavFrame → Result FwavError (Unit {0})
validate_class f =
    if is_fips f.type
    then (do
      fail_if (or_default f.flags 0 != 0) fips_flags
      fail_if (not (is_fips_traffic_class (or_default f.traffic_class class_ordinary)))
          class_unsupported)
    else fail_if (is_some f.traffic_class) class_not_fips

-- The checks of the messages about acoustic readiness and admission.
unfoldable pub validate_control : MessageType → FwavFrame → Result FwavError (Unit {0})
validate_control acoustic_ready f = do
  fail_if ((or_default f.flags 0 != 0) || (f.sequence != 0)) readiness_control
  check (decode_acoustic_readiness_proof f.payload)
validate_control acoustic_disarm f = do
  fail_if ((or_default f.flags 0 != 0) || (f.sequence != 0)) readiness_control
  fail_if (length f.payload != acoustic_disarm_capability_bytes) disarm_size
validate_control fips_packet_admission f = do
  fail_if (or_default f.flags 0 != 0) admission_flags
  check (decode_fips_packet_admission f.payload)
validate_control _ f = ok tt

unfoldable pub validate_format : FwavFrame → Result FwavError (Unit {0})
validate_format f = do
  let sample_rate = or_default f.sample_rate 0
  let channels = or_default f.channels 0
  let encoding = or_default f.encoding 0
  validate_integer sample_rate 0xffff_ffff sample_rate_range
  validate_integer channels 0xffff channel_count_range
  validate_integer encoding 0xffff encoding_range
  if is_pcm f.type
      then (do
        fail_if (sample_rate == 0) pcm_sample_rate
        fail_if (channels == 0) pcm_channels
        fail_if (encoding != float32_le) pcm_encoding
        check (decode_pcm_payload f.payload channels))
      else fail_if ((sample_rate != 0) || (channels != 0) || (encoding != 0)) not_pcm

-- The frame with its defaults filled in.
unfoldable pub with_defaults : FwavFrame → ValidFrame
with_defaults f = record {
  type = f.type;
  flags = or_default f.flags 0;
  traffic_class =
      if is_fips f.type then some (or_default f.traffic_class class_ordinary) else f.traffic_class;
  epoch = f.epoch;
  sequence = f.sequence;
  sample_rate = or_default f.sample_rate 0;
  channels = or_default f.channels 0;
  encoding = or_default f.encoding 0;
  payload = f.payload;
}

unfoldable pub validate_frame : FwavFrame → Result FwavError ValidFrame
validate_frame f = do
  validate_sizes f
  validate_class f
  validate_control f.type f
  validate_format f
  ok (with_defaults f)

-- Bytes 6 and 7.
unfoldable pub write_class_or_flags : ValidFrame → List ℕ
write_class_or_flags v =
    if is_fips v.type then or_default v.traffic_class 0 ∷ 0 ∷ [] else le_bytes 2 v.flags

unfoldable pub write_frame : ValidFrame → List ℕ
write_frame v =
    0x46
    ∷ 0x57
    ∷ 0x41
    ∷ 0x56
    ∷ fwav_version
    ∷ message_code v.type
    ∷ (write_class_or_flags v
        ++ (le_bytes 4 (length v.payload)
            ++ (le_bytes 4 v.epoch
                ++ (le_bytes 8 v.sequence
                    ++ (le_bytes 4 v.sample_rate
                        ++ (le_bytes 2 v.channels ++ (le_bytes 2 v.encoding ++ v.payload)))))))

unfoldable pub encode_frame : FwavFrame → Result FwavError (List ℕ)
encode_frame f = do v ← validate_frame f; ok (write_frame v)

-- The frame that the fields of the input make.
unfoldable pub read_frame : MessageType → List ℕ → FwavFrame
read_frame t input = record {
  type = t;
  flags = some (if is_fips t then get_uint 1 7 input * 256 else get_uint 2 6 input);
  traffic_class = if is_fips t then some (get_uint 1 6 input) else none;
  epoch = get_uint 4 12 input;
  sequence = get_uint 8 16 input;
  sample_rate = some (get_uint 4 24 input);
  channels = some (get_uint 2 28 input);
  encoding = some (get_uint 2 30 input);
  payload = drop header_bytes input;
}

-- A character of `toString('ascii')`, which leaves out the highest bit of the byte.
abbrev pub ascii : ℕ → ℕ
ascii byte = byte % 128

unfoldable pub decode_frame : List ℕ → Result FwavError ValidFrame
decode_frame input = do
  fail_if (ltb (length input) header_bytes) short_message
  fail_if (ltb max_message_bytes (length input)) message_cap
  fail_if
      ((ascii (get_uint 1 0 input) != 0x46)
        || (ascii (get_uint 1 1 input) != 0x57)
        || (ascii (get_uint 1 2 input) != 0x41)
        || (ascii (get_uint 1 3 input) != 0x56))
      magic
  fail_if (get_uint 1 4 input != fwav_version) version
  t ← or_fail (message_type_of (get_uint 1 5 input)) type_unsupported
  fail_if
      (ltb max_payload_bytes (get_uint 4 8 input)
        || (length input != header_bytes + get_uint 4 8 input))
      declared_length
  validate_frame (read_frame t input)
