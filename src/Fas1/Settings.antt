-- ===== src/Fas1/Settings.antt =====
-- The profile table, `canonicalizeSettings` and `digestSettings` of acoustic-protocol.ts. A gain is
-- a double, whose product with 1000 is rounded as IEEE 754 says; SHA-256 is a parameter.
pub mod Gain
pub mod Injective
use fipwave.Common.{
  ℕ, ◌+◌, ◌*◌, ◌/◌, ◌%◌, ◌!=◌, if◌then◌else◌, ltb, ◌||◌, not, Bool, true, false, List, [], ◌∷◌,
  ◌++◌, length, Option, none, some, Result, ok, err, fail_if, or_fail, ◌>>=◌, ◌>>◌,
}
use fipwave.Common.Bytes.{le_bytes}
use fipwave.Common.Texts.{same_text, find}
use fipwave.Fas1.{
  Fas1Error, assert_integer, fas1_max_body_bytes, profile_unsupported, profile_length,
  payload_range, payload_invalid, repetition_range, repetition_invalid, guard_range, guard_invalid,
  gain_invalid, ack_timeout_range, ack_timeout_invalid,
}
use Prim.Native.Char.{code}
use Prim.Native.String.{String}

pub record AcousticProfile : Type 0 where
  pub id : String
  pub codec : String
  pub modem_profile : String
  pub transmit_implementation : String
  pub receive_implementation : String

abbrev pub quiet_profile : AcousticProfile
quiet_profile = record {
  id = "quiet-audible-7k-v1";
  codec = "quiet";
  modem_profile = "audible-7k-channel-0";
  transmit_implementation = "quiet-client";
  receive_implementation = "quiet-client";
}

abbrev pub acoustic_profiles : List AcousticProfile
acoustic_profiles = quiet_profile ∷ []

pub record DirectionalSettings : Type 0 where
  pub profile_id : String
  pub payload_bytes : ℕ
  pub repetition : ℕ
  pub guard_ms : ℕ
  -- A gain from 1 to 2, in units of 2^-52: every double there is such a number. A number below or
  -- above stands for a gain that the code refuses.
  pub playback_gain : ℕ
  pub ack_timeout_ms : ℕ

pub record AcousticSettings : Type 0 where
  pub a_to_b : DirectionalSettings
  pub b_to_a : DirectionalSettings

-- 1, in units of 2^-52.
abbrev pub gain_one : ℕ
gain_one = 4503599627370496

-- The nearest multiple of a unit, counted in units, and of two the even one.
unfoldable pub nearest : ℕ → ℕ → ℕ
nearest unit x =
    let q = x / unit in
    let r = x % unit in
    if ltb (2 * r) unit then q else if ltb unit (2 * r) then q + 1 else q + q % 2

-- `playbackGain * 1_000` of a gain from 1 to 2, in units of 2^-52. A double has 53 digits, so below
-- 1024 it is a multiple of 2^-43, and from there on, up to 2048, of 2^-42.
unfoldable pub thousandfold : ℕ → ℕ
thousandfold gain =
    if ltb (gain * 1000) (1024 * gain_one)
    then nearest 512 (gain * 1000) * 512
    else nearest 1024 (gain * 1000) * 1024

-- `Math.round(playbackGain * 1_000)`, where the product is a whole number.
unfoldable pub gain_thousandths : ℕ → ℕ
gain_thousandths gain = thousandfold gain / gain_one

-- The gain is refused.
unfoldable pub bad_gain : ℕ → Bool
bad_gain gain = (thousandfold gain % gain_one != 0) || ltb gain gain_one || ltb (2 * gain_one) gain

-- What `TextEncoder` makes of an ASCII text, as the profile ids are.
abbrev pub encode_text : String → List ℕ
encode_text String.[] = []
encode_text (String.◌∷◌ c s) = code c ∷ encode_text s

unfoldable pub resolve_acoustic_profile : String → Result Fas1Error AcousticProfile
resolve_acoustic_profile profile_id = do
  profile ←
      or_fail (find (λ entry. same_text entry.id profile_id) acoustic_profiles) profile_unsupported
  fail_if (not (same_text profile.transmit_implementation profile.receive_implementation))
      profile_unsupported
  ok profile

unfoldable pub direction_bytes : DirectionalSettings → List ℕ
direction_bytes d =
    le_bytes 1 (length (encode_text d.profile_id))
    ++ (encode_text d.profile_id
        ++ (le_bytes 2 d.payload_bytes
            ++ (le_bytes 1 d.repetition
                ++ (le_bytes 2 d.guard_ms
                    ++ (le_bytes 2 (gain_thousandths d.playback_gain)
                        ++ le_bytes 2 d.ack_timeout_ms)))))

unfoldable pub canonicalize_direction : DirectionalSettings → Result Fas1Error (List ℕ)
canonicalize_direction d = do
  resolve_acoustic_profile d.profile_id >>= λ _. ok tt
  fail_if (ltb (length (encode_text d.profile_id)) 1 || ltb 63 (length (encode_text d.profile_id)))
      profile_length
  assert_integer d.payload_bytes fas1_max_body_bytes payload_range
  fail_if (ltb d.payload_bytes 1) payload_invalid
  assert_integer d.repetition 3 repetition_range
  fail_if (ltb d.repetition 1) repetition_invalid
  assert_integer d.guard_ms 5000 guard_range
  fail_if (ltb d.guard_ms 1) guard_invalid
  fail_if (bad_gain d.playback_gain) gain_invalid
  assert_integer d.ack_timeout_ms 15000 ack_timeout_range
  fail_if (ltb d.ack_timeout_ms 4000) ack_timeout_invalid
  ok (direction_bytes d)

abbrev pub settings_version : ℕ
settings_version = 1

unfoldable pub canonicalize_settings : AcousticSettings → Result Fas1Error (List ℕ)
canonicalize_settings s = do
  a_to_b ← canonicalize_direction s.a_to_b
  b_to_a ← canonicalize_direction s.b_to_a
  ok (settings_version ∷ (a_to_b ++ b_to_a))

unfoldable pub digest_settings : (List ℕ → List ℕ) → AcousticSettings → Result Fas1Error (List ℕ)
digest_settings sha256 s = do canonical ← canonicalize_settings s; ok (sha256 canonical)
