-- ===== src/Fwav/Examples.antt =====
-- Runs of the FWAV code, and its theorems at concrete inputs.
use fipwave.Common.{ℕ, ◌≡◌, ◌↔◌, refl, arith, List, [], ◌∷◌, none, some, ok, err, All, drop}
use fipwave.Common.Bytes.{le_bytes, le_value, get_uint}
use fipwave.Fwav.{FwavFrame, ValidFrame, fips_packet, message_code, message_type_of, stale_sequence}
use fipwave.Fwav.Pcm.{encode_pcm_payload, decode_pcm_payload}
use fipwave.Fwav.Pcm.RoundTrip.{WholeSamples, decode_pcm_iff}
use fipwave.Fwav.Frame.{
  is_fips, is_pcm, with_defaults, validate_sizes, validate_class, validate_control, validate_format,
  validate_frame, write_class_or_flags, write_frame, encode_frame, read_frame, decode_frame,
}
use fipwave.Fwav.Frame.Legal.{IsLegal, validate_frame_iff}
use fipwave.Fwav.Frame.Defaults.{as_frame}
use fipwave.Fwav.Frame.RoundTrip.{decode_frame-encode_frame}
use fipwave.Fwav.Frame.Accepted.{encode_frame-decode_frame, decode_frame_high_bit}
use fipwave.Fwav.Epoch.{EpochTracker, reset_epoch, accept_frame}
use fipwave.Fwav.Epoch.Replay.{
  Reachable, created, was_reset, accepted, InOrder, Throws, accepted-InOrder,
  accepted_frame_rejected,
}

-- A packet whose traffic class is left out.
abbrev packet : FwavFrame
packet = record {
  type = fips_packet;
  flags = none;
  traffic_class = none;
  epoch = 1;
  sequence = 258;
  sample_rate = none;
  channels = none;
  encoding = none;
  payload = 5 ∷ 6 ∷ [];
}

abbrev packet_read : ValidFrame
packet_read = record {
  type = fips_packet;
  flags = 0;
  traffic_class = some 3;
  epoch = 1;
  sequence = 258;
  sample_rate = 0;
  channels = 0;
  encoding = 0;
  payload = 5 ∷ 6 ∷ [];
}

abbrev packet_rest : List ℕ
packet_rest =
    87 ∷ 65 ∷ 86 ∷ 1 ∷ 9 ∷ 3 ∷ 0 ∷ 2 ∷ 0 ∷ 0 ∷ 0 ∷ 1 ∷ 0 ∷ 0 ∷ 0 ∷ 2 ∷ 1 ∷ 0 ∷ 0 ∷ 0 ∷ 0 ∷ 0 ∷ 0 ∷ 0
    ∷ 0 ∷ 0 ∷ 0 ∷ 0 ∷ 0 ∷ 0 ∷ 0 ∷ 5 ∷ 6 ∷ []

abbrev packet_bytes : List ℕ
packet_bytes = 70 ∷ packet_rest

packet_valid : validate_frame packet ≡ ok packet_read
unfolding validate_frame validate_sizes validate_class validate_control validate_format is_fips
    is_pcm with_defaults
packet_valid = refl

packet_encoded : encode_frame packet ≡ ok packet_bytes
unfolding encode_frame validate_frame validate_sizes validate_class validate_control validate_format
    is_fips is_pcm with_defaults write_frame write_class_or_flags le_bytes message_code
packet_encoded = refl

packet_decoded : decode_frame packet_bytes ≡ ok packet_read
unfolding decode_frame validate_frame validate_sizes validate_class validate_control validate_format
    is_fips is_pcm with_defaults read_frame get_uint le_value message_type_of
packet_decoded = refl

decode_frame-encode_frame_example :
    (decode_frame packet_bytes ≡ validate_frame packet)
    × (validate_frame packet ≡ ok (with_defaults packet))
decode_frame-encode_frame_example = decode_frame-encode_frame packet packet_bytes packet_encoded

encode_frame-decode_frame_example :
    encode_frame (as_frame packet_read) ≡ ok (0x46 ∷ 0x57 ∷ 0x41 ∷ 0x56 ∷ drop 4 packet_bytes)
encode_frame-decode_frame_example =
    encode_frame-decode_frame packet_bytes packet_read (omega arith) packet_decoded

decode_frame_high_bit_example : decode_frame (198 ∷ packet_rest) ≡ decode_frame (70 ∷ packet_rest)
decode_frame_high_bit_example = decode_frame_high_bit 70 packet_rest (omega arith)

validate_frame_iff_example :
    (validate_frame packet ≡ ok packet_read)
    ↔ (IsLegal packet × (with_defaults packet ≡ packet_read))
validate_frame_iff_example = validate_frame_iff packet packet_read

decode_pcm_iff_example :
    (decode_pcm_payload (7 ∷ 0 ∷ 0 ∷ 0 ∷ 0 ∷ 0 ∷ 0 ∷ 0 ∷ 1 ∷ 2 ∷ 3 ∷ 4 ∷ []) 1
      ≡ ok (7, 1 ∷ 2 ∷ 3 ∷ 4 ∷ []))
    ↔ ((encode_pcm_payload 7 (1 ∷ 2 ∷ 3 ∷ 4 ∷ [])
          ≡ ok (7 ∷ 0 ∷ 0 ∷ 0 ∷ 0 ∷ 0 ∷ 0 ∷ 0 ∷ 1 ∷ 2 ∷ 3 ∷ 4 ∷ []))
        × WholeSamples (1 ∷ 2 ∷ 3 ∷ 4 ∷ []) 1)
decode_pcm_iff_example =
    decode_pcm_iff (7 ∷ 0 ∷ 0 ∷ 0 ∷ 0 ∷ 0 ∷ 0 ∷ 0 ∷ 1 ∷ 2 ∷ 3 ∷ 4 ∷ []) (1 ∷ 2 ∷ 3 ∷ 4 ∷ []) 7 1
      (omega arith)

-- A reset, and the packet.
abbrev tracker : EpochTracker
tracker = record { epoch = 1; last_sequence = some 258 }

packet_accepted : Reachable tracker (packet_read ∷ [])
unfolding reset_epoch accept_frame
packet_accepted = accepted packet_read (was_reset created refl) refl

accepted-InOrder_example : InOrder (packet_read ∷ [])
accepted-InOrder_example = accepted-InOrder tracker (packet_read ∷ []) packet_accepted

accepted_frame_rejected_example : All (λ f. Throws (accept_frame tracker f)) (packet_read ∷ [])
accepted_frame_rejected_example = accepted_frame_rejected tracker (packet_read ∷ []) packet_accepted

replay_rejected : accept_frame tracker packet_read ≡ err stale_sequence
unfolding accept_frame
replay_rejected = refl
