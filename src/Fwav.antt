-- ===== src/Fwav.antt =====
-- packages/bridge/src/protocol.ts: the FWAV envelope between the browser and the bridge. A number
-- or bigint of the source that is not negative is a natural number here, a Buffer a list of bytes,
-- an optional field an Option, and what `fail` throws an error value.
pub mod Proof
pub mod Frame
pub mod Pcm
pub mod Epoch
pub mod Examples
use fipwave.Common.{
  ℕ, Bool, true, false, Option, none, some, List, ◌==◌, if◌then◌else◌, ◌-◌, ◌*◌, ◌||◌,
}

abbrev pub fwav_version : ℕ
fwav_version = 1

abbrev pub header_bytes : ℕ
header_bytes = 32

abbrev pub max_message_bytes : ℕ
max_message_bytes = 256 * 1024

abbrev pub max_payload_bytes : ℕ
max_payload_bytes = max_message_bytes - header_bytes

abbrev pub pcm_sample_index_bytes : ℕ
pcm_sample_index_bytes = 8

abbrev pub acoustic_readiness_proof_bytes : ℕ
acoustic_readiness_proof_bytes = 64

abbrev pub acoustic_disarm_capability_bytes : ℕ
acoustic_disarm_capability_bytes = 16

-- FipsTrafficClass
abbrev pub class_control : ℕ
class_control = 1

abbrev pub class_heartbeat : ℕ
class_heartbeat = 2

abbrev pub class_ordinary : ℕ
class_ordinary = 3

abbrev pub is_fips_traffic_class : ℕ → Bool
is_fips_traffic_class value =
    (value == class_control) || (value == class_heartbeat) || (value == class_ordinary)

abbrev pub float32_le : ℕ
float32_le = 1

pub data MessageType : Type 0 where
  hello audio_settings pcm_capture pcm_playback qualification_case : MessageType
  qualification_result error_message reset fips_packet browser_arm : MessageType
  browser_disarm acoustic_ready acoustic_disarm fips_packet_admission : MessageType

-- The number of an enum member.
unfoldable pub message_code : MessageType → ℕ
message_code hello = 1
message_code audio_settings = 2
message_code pcm_capture = 3
message_code pcm_playback = 4
message_code qualification_case = 5
message_code qualification_result = 6
message_code error_message = 7
message_code reset = 8
message_code fips_packet = 9
message_code browser_arm = 10
message_code browser_disarm = 11
message_code acoustic_ready = 12
message_code acoustic_disarm = 13
message_code fips_packet_admission = 14

-- `isMessageType`: the member of a number from 1 to 14.
unfoldable pub message_type_of : ℕ → Option MessageType
message_type_of n =
    if n == 1
    then some hello
    else if n == 2
    then some audio_settings
    else if n == 3
    then some pcm_capture
    else if n == 4
    then some pcm_playback
    else if n == 5
    then some qualification_case
    else if n == 6
    then some qualification_result
    else if n == 7
    then some error_message
    else if n == 8
    then some reset
    else if n == 9
    then some fips_packet
    else if n == 10
    then some browser_arm
    else if n == 11
    then some browser_disarm
    else if n == 12
    then some acoustic_ready
    else if n == 13
    then some acoustic_disarm
    else if n == 14
    then some fips_packet_admission
    else none

pub record FwavFrame : Type 0 where
  pub type : MessageType
  pub flags : Option ℕ
  pub traffic_class : Option ℕ
  pub epoch : ℕ
  pub sequence : ℕ
  pub sample_rate : Option ℕ
  pub channels : Option ℕ
  pub encoding : Option ℕ
  pub payload : List ℕ

-- What `validateFrame` returns: the fields that it fills in are there.
pub record ValidFrame : Type 0 where
  pub type : MessageType
  pub flags : ℕ
  pub traffic_class : Option ℕ
  pub epoch : ℕ
  pub sequence : ℕ
  pub sample_rate : ℕ
  pub channels : ℕ
  pub encoding : ℕ
  pub payload : List ℕ

-- The messages of `fail`.
pub data FwavError : Type 0 where
  proof_size proof_invalid index_range channels_range pcm_alignment : FwavError
  epoch_exhausted stale_epoch stale_sequence : FwavError
  admission_size admission_result flags_range epoch_range sequence_range message_cap : FwavError
  fips_flags class_unsupported class_not_fips readiness_control disarm_size : FwavError
  admission_flags sample_rate_range channel_count_range encoding_range : FwavError
  pcm_sample_rate pcm_channels pcm_encoding not_pcm : FwavError
  short_message magic version type_unsupported declared_length : FwavError
