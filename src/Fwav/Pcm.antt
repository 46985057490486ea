-- ===== src/Fwav/Pcm.antt =====
-- `encodePcmPayload` and `decodePcmPayload` of protocol.ts.
pub mod RoundTrip
use fipwave.Common.{
  ℕ, ◌-◌, ◌*◌, ◌%◌, ◌==◌, ◌!=◌, ltb, leb, ◌||◌, List, ◌++◌, length, drop, Result, ok, fail_if,
  ◌>>=◌, ◌>>◌,
}
use fipwave.Common.Bytes.{le_bytes, get_uint}
use fipwave.Fwav.{FwavError, pcm_sample_index_bytes, index_range, channels_range, pcm_alignment}

unfoldable pub encode_pcm_payload : ℕ → List ℕ → Result FwavError (List ℕ)
encode_pcm_payload first_sample_index samples = do
  fail_if (ltb 0xffff_ffff_ffff_ffff first_sample_index) index_range
  ok (le_bytes 8 first_sample_index ++ samples)

-- A sample of each channel takes four bytes.
unfoldable pub decode_pcm_payload : List ℕ → ℕ → Result FwavError (ℕ × List ℕ)
decode_pcm_payload payload channels = do
  fail_if ((channels == 0) || ltb 0xffff channels) channels_range
  fail_if
      (leb (length payload) pcm_sample_index_bytes
        || ((length payload - pcm_sample_index_bytes) % (4 * channels) != 0))
      pcm_alignment
  ok (get_uint 8 0 payload, drop pcm_sample_index_bytes payload)
