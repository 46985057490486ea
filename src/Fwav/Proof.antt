-- ===== src/Fwav/Proof.antt =====
-- `decodeAcousticReadinessProof` and `decodeFipsPacketAdmission` of protocol.ts.
use fipwave.Common.{
  ℕ, ◌==◌, ◌!=◌, ◌||◌, ◌&&◌, List, length, take, drop, get_or, every, Result, ok, fail_if, ◌>>◌,
  ◌-◌,
}
use fipwave.Common.Bytes.{get_uint}
use fipwave.Fwav.{
  FwavError, acoustic_readiness_proof_bytes, proof_size, proof_invalid, admission_size,
  admission_result,
}

pub record AcousticReadinessProof : Type 0 where
  pub session_id : ℕ
  pub settings_digest : List ℕ
  pub heartbeat_at_ms : ℕ
  pub capability : List ℕ

-- `subarray(from, to)`.
abbrev pub subarray : ℕ → ℕ → List ℕ → List ℕ
subarray from to bytes = take (to - from) (drop from bytes)

-- What the fields of the payload make.
unfoldable pub read_readiness_proof : List ℕ → AcousticReadinessProof
read_readiness_proof payload = record {
  session_id = get_uint 8 0 payload;
  settings_digest = subarray 8 40 payload;
  heartbeat_at_ms = get_uint 8 40 payload;
  capability = subarray 48 64 payload;
}

unfoldable pub decode_acoustic_readiness_proof : List ℕ → Result FwavError AcousticReadinessProof
decode_acoustic_readiness_proof payload = do
  let p = read_readiness_proof payload
  fail_if (length payload != acoustic_readiness_proof_bytes) proof_size
  fail_if
      ((p.session_id == 0)
        || every (λ b. b == 0) p.settings_digest
        || every (λ b. b == 0) p.capability)
      proof_invalid
  ok p

abbrev pub admission_accepted : ℕ
admission_accepted = 1

abbrev pub admission_queue_full : ℕ
admission_queue_full = 2

unfoldable pub decode_fips_packet_admission : List ℕ → Result FwavError ℕ
decode_fips_packet_admission payload = do
  let result = get_or payload 0 0
  fail_if (length payload != 1) admission_size
  fail_if ((result != admission_accepted) && (result != admission_queue_full)) admission_result
  ok result
