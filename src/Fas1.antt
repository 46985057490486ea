-- ===== src/Fas1.antt =====
-- apps/modem-ui/src/acoustic-protocol.ts: the FAS1 unit, its limits and its validation.
-- A number of the source that passes its range check is a natural number here, a Uint8Array a list
-- of bytes, and what `fail` throws an error value. The checks of a dynamic type (instanceof,
-- typeof) are the model's types.
pub mod Crc
pub mod Codec
pub mod Validate
pub mod Settings
pub mod Fragment
pub mod Examples
use fipwave.Common.{
  ℕ, ◌+◌, ◌^◌, ◌<◌, ◌≤◌, Bool, true, false, ◌&&◌, ◌||◌, not, Option, none, some, List, length, ltb,
  leb, ◌==◌, ◌!=◌, if◌then◌else◌, Result, ok, err, fail_if, ◌>>=◌, ◌>>◌,
}

abbrev pub fas1_header_bytes : ℕ
fas1_header_bytes = 36

abbrev pub fas1_max_body_bytes : ℕ
fas1_max_body_bytes = 217

abbrev pub fas1_max_unit_bytes : ℕ
fas1_max_unit_bytes = fas1_header_bytes + fas1_max_body_bytes

abbrev pub fas1_max_packet_bytes : ℕ
fas1_max_packet_bytes = 1357

abbrev pub fas1_max_fragments : ℕ
fas1_max_fragments = 16

abbrev pub fas1_version : ℕ
fas1_version = 1

abbrev pub uint32_max : ℕ
uint32_max = 0xffff_ffff

abbrev pub uint64_max : ℕ
uint64_max = 0xffff_ffff_ffff_ffff

pub data UnitType : Type 0 where
  hello hello_ack caps probe report commit commit_ack data_unit turn_end ack heartbeat reset :
      UnitType

-- The number of an enum member.
unfoldable pub unit_code : UnitType → ℕ
unit_code hello = 1
unit_code hello_ack = 2
unit_code caps = 3
unit_code probe = 4
unit_code report = 5
unit_code commit = 6
unit_code commit_ack = 7
unit_code data_unit = 8
unit_code turn_end = 9
unit_code ack = 10
unit_code heartbeat = 11
unit_code reset = 12

-- The member that a number stands for; the numbers outside 1 to 12 are no type.
unfoldable pub unit_type_of : ℕ → Option UnitType
unit_type_of n =
    if n == 1
    then some hello
    else if n == 2
    then some hello_ack
    else if n == 3
    then some caps
    else if n == 4
    then some probe
    else if n == 5
    then some report
    else if n == 6
    then some commit
    else if n == 7
    then some commit_ack
    else if n == 8
    then some data_unit
    else if n == 9
    then some turn_end
    else if n == 10
    then some ack
    else if n == 11
    then some heartbeat
    else if n == 12
    then some reset
    else none

pub data Fas1Sender : Type 0 where
  sender_a sender_b : Fas1Sender

unfoldable pub sender_code : Fas1Sender → ℕ
sender_code sender_a = 1
sender_code sender_b = 2

pub record Fas1Unit : Type 0 where
  pub type : UnitType
  pub flags : ℕ
  pub session_id : ℕ
  pub sequence : ℕ
  pub packet_id : ℕ
  pub fragment_index : ℕ
  pub fragment_count : ℕ
  pub packet_length : ℕ
  pub body : List ℕ

-- The errors, by their messages.
pub data Fas1Error : Type 0 where
  type_unsupported flags_range sender_flag session_range sequence_range packet_id_range : Fas1Error
  fragment_index_range fragment_count_range packet_length_range body_limit : Fas1Error
  data_session data_packet_id data_fragment_count data_fragment_index : Fas1Error
  data_packet_length data_body_empty data_body_exceeds : Fas1Error
  session_zero control_geometry ack_packet_id bodyless_body control_body_empty : Fas1Error
  unit_length magic version declared_body_length crc_invalid : Fas1Error
  packet_length_invalid packet_session packet_needs_id sequence_start_range : Fas1Error
  payload_range payload_invalid fragment_count_invalid sequence_overflow : Fas1Error
  collection_invalid collection_geometry collection_mismatch collection_body : Fas1Error
  collection_duplicate collection_incomplete collection_length : Fas1Error
  profile_unsupported profile_length repetition_range repetition_invalid : Fas1Error
  guard_range guard_invalid gain_invalid ack_timeout_range ack_timeout_invalid : Fas1Error

-- `assertInteger`, of a value that is a natural number.
abbrev pub assert_integer : ℕ → ℕ → Fas1Error → Result Fas1Error (Unit {0})
assert_integer value maximum e = fail_if (ltb maximum value) e

unfoldable pub is_data : UnitType → Bool
is_data data_unit = true
is_data _ = false

unfoldable pub is_hello : UnitType → Bool
is_hello hello = true
is_hello _ = false

unfoldable pub is_ack : UnitType → Bool
is_ack ack = true
is_ack _ = false

-- BODYLESS_TYPES.
unfoldable pub bodyless : UnitType → Bool
bodyless turn_end = true
bodyless ack = true
bodyless heartbeat = true
bodyless reset = true
bodyless _ = false

-- The checks that every unit passes first.
unfoldable pub validate_fields : Fas1Unit → Result Fas1Error (Unit {0})
validate_fields u = do
  assert_integer u.flags 2 flags_range
  fail_if ((u.flags != 1) && (u.flags != 2)) sender_flag
  assert_integer u.session_id uint64_max session_range
  assert_integer u.sequence uint32_max sequence_range
  assert_integer u.packet_id uint32_max packet_id_range
  assert_integer u.fragment_index 0xffff fragment_index_range
  assert_integer u.fragment_count 0xffff fragment_count_range
  assert_integer u.packet_length 0xffff packet_length_range
  fail_if (ltb fas1_max_body_bytes (length u.body)) body_limit

-- The branch of DATA.
unfoldable pub validate_data : Fas1Unit → Result Fas1Error (Unit {0})
validate_data u = do
  fail_if (u.session_id == 0) data_session
  fail_if (u.packet_id == 0) data_packet_id
  fail_if (ltb u.fragment_count 1 || ltb fas1_max_fragments u.fragment_count) data_fragment_count
  fail_if (leb u.fragment_count u.fragment_index) data_fragment_index
  fail_if (ltb u.packet_length 1 || ltb fas1_max_packet_bytes u.packet_length) data_packet_length
  fail_if (ltb (length u.body) 1) data_body_empty
  fail_if (ltb u.packet_length (length u.body)) data_body_exceeds

-- The branch of the control units.
unfoldable pub validate_control : Fas1Unit → Result Fas1Error (Unit {0})
validate_control u = do
  fail_if (not (is_hello u.type) && (u.session_id == 0)) session_zero
  fail_if
      ((not (is_ack u.type) && (u.packet_id != 0))
        || (u.fragment_index != 0)
        || (u.fragment_count != 0)
        || (u.packet_length != 0))
      control_geometry
  fail_if (is_ack u.type && (u.packet_id == 0)) ack_packet_id
  if bodyless u.type
      then fail_if (length u.body != 0) bodyless_body
      else fail_if (length u.body == 0) control_body_empty

unfoldable pub validate_unit : Fas1Unit → Result Fas1Error (Unit {0})
validate_unit u = do
  validate_fields u
  if is_data u.type then validate_data u else validate_control u
