-- ===== src/Fas1/Fragment.antt =====
-- `fragmentPacket` and `reassemblePacket` of acoustic-protocol.ts.
pub mod Split
pub mod Collect
pub mod Reassemble
use fipwave.Common.{
  ℕ, zero, suc, ◌+◌, ◌-◌, ◌*◌, ◌/◌, ◌==◌, ◌!=◌, ltb, leb, ◌||◌, ◌&&◌, not, Bool, true, false,
  if◌then◌else◌, List, [], ◌∷◌, ◌++◌, length, take, drop, Option, none, some, Result, ok, err,
  fail_if, ◌>>=◌, ◌>>◌,
}
use fipwave.Fas1.{
  Fas1Unit, Fas1Sender, Fas1Error, data_unit, sender_code, is_data, validate_unit, assert_integer,
  fas1_max_body_bytes, fas1_max_packet_bytes, fas1_max_fragments, uint32_max, uint64_max,
  packet_length_invalid, session_range, packet_session, sequence_start_range, packet_id_range,
  packet_needs_id, payload_range, payload_invalid, fragment_count_invalid, sequence_overflow,
  collection_invalid, collection_geometry, collection_mismatch, collection_body,
  collection_duplicate, collection_incomplete, collection_length,
}

pub record FragmentPacketInput : Type 0 where
  pub packet : List ℕ
  pub session_id : ℕ
  pub sequence_start : ℕ
  pub packet_id : ℕ
  pub sender : Fas1Sender
  pub payload_bytes : Option ℕ

-- `Math.ceil(a / b)` for a positive divisor.
abbrev pub ceil_div : ℕ → ℕ → ℕ
ceil_div a b = (a + b - 1) / b

-- `slice(start, end)`.
abbrev pub slice : ℕ → ℕ → List ℕ → List ℕ
slice from to bytes = take (to - from) (drop from bytes)

-- `input.payloadBytes ?? FAS1_MAX_BODY_BYTES`
abbrev pub payload_or_max : Option ℕ → ℕ
payload_or_max none = fas1_max_body_bytes
payload_or_max (some n) = n

-- The callback of `Array.from`.
unfoldable pub fragment_at : FragmentPacketInput → ℕ → ℕ → ℕ → Fas1Unit
fragment_at input payload count index = record {
  type = data_unit;
  flags = sender_code input.sender;
  session_id = input.session_id;
  sequence = input.sequence_start + index;
  packet_id = input.packet_id;
  fragment_index = index;
  fragment_count = count;
  packet_length = length input.packet;
  body = slice (index * payload) ((index + 1) * payload) input.packet;
}

-- `Array.from`, for the indices that are left.
unfoldable pub fragments_from : FragmentPacketInput → ℕ → ℕ → ℕ → ℕ → List Fas1Unit
fragments_from input payload count zero index = []
fragments_from input payload count (suc left) index =
    fragment_at input payload count index ∷ fragments_from input payload count left (suc index)

unfoldable pub fragment_packet : FragmentPacketInput → Result Fas1Error (List Fas1Unit)
fragment_packet input = do
  let payload = payload_or_max input.payload_bytes
  let count = ceil_div (length input.packet) payload
  fail_if (ltb (length input.packet) 1 || ltb fas1_max_packet_bytes (length input.packet))
      packet_length_invalid
  assert_integer input.session_id uint64_max session_range
  fail_if (input.session_id == 0) packet_session
  assert_integer input.sequence_start uint32_max sequence_start_range
  assert_integer input.packet_id uint32_max packet_id_range
  fail_if (input.packet_id == 0) packet_needs_id
  assert_integer payload fas1_max_body_bytes payload_range
  fail_if (ltb payload 1) payload_invalid
  fail_if (ltb count 1 || ltb fas1_max_fragments count) fragment_count_invalid
  fail_if (ltb (uint32_max - (count - 1)) input.sequence_start) sequence_overflow
  ok (fragments_from input payload count count 0)

-- A `Map` from fragment indices, in insertion order.
abbrev pub IndexMap : Type 0
IndexMap = List (ℕ × Fas1Unit)

unfoldable pub get_index : ℕ → IndexMap → Option Fas1Unit
get_index i [] = none
get_index i ((j, u) ∷ m) = if j == i then some u else get_index i m

abbrev pub is_some : {A : Type 0} → Option A → Bool
is_some none = false
is_some (some a) = true

-- The length that the body of a fragment must have.
abbrev pub expected_length : Fas1Unit → ℕ → ℕ → ℕ → ℕ
expected_length first payload count index =
    if index == count - 1 then first.packet_length - payload * (count - 1) else payload

-- One turn of the collecting loop: the checks of a fragment.
unfoldable pub check_fragment : Fas1Unit → ℕ → ℕ → IndexMap → Fas1Unit → Result Fas1Error (Unit {0})
check_fragment first payload count by_index u = do
  validate_unit u
  fail_if
      (not (is_data u.type)
        || (u.session_id != first.session_id)
        || (u.packet_id != first.packet_id)
        || (u.packet_length != first.packet_length)
        || (u.fragment_count != first.fragment_count))
      collection_mismatch
  fail_if (length u.body != expected_length first payload count u.fragment_index) collection_body
  fail_if (is_some (get_index u.fragment_index by_index)) collection_duplicate

-- The collecting loop.
unfoldable pub collect_fragments :
    Fas1Unit → ℕ → ℕ → IndexMap → List Fas1Unit → Result Fas1Error IndexMap
collect_fragments first payload count by_index [] = ok by_index
collect_fragments first payload count by_index (u ∷ us) = do
  check_fragment first payload count by_index u
  collect_fragments first payload count (by_index ++ (u.fragment_index, u) ∷ []) us

-- What the writing loop does with the entry of one index; `output` is what is written so far.
unfoldable pub write_fragment : ℕ → List ℕ → Option Fas1Unit → Result Fas1Error (List ℕ)
write_fragment total output none = err collection_incomplete
write_fragment total output (some u) = do
  fail_if (ltb (total - length output) (length u.body)) collection_incomplete
  ok (output ++ u.body)

-- The writing loop, for the indices that are left.
unfoldable pub write_fragments : ℕ → IndexMap → ℕ → ℕ → List ℕ → Result Fas1Error (List ℕ)
write_fragments total by_index zero index output = ok output
write_fragments total by_index (suc left) index output = do
  output' ← write_fragment total output (get_index index by_index)
  write_fragments total by_index left (suc index) output'

unfoldable pub reassemble_packet : List Fas1Unit → ℕ → Result Fas1Error (List ℕ)
reassemble_packet [] payload = err collection_invalid
reassemble_packet (first ∷ rest) payload = do
  fail_if (ltb fas1_max_fragments (length (first ∷ rest))) collection_invalid
  assert_integer payload fas1_max_body_bytes payload_range
  fail_if (ltb payload 1) payload_invalid
  validate_unit first
  let count = ceil_div first.packet_length payload
  fail_if
      (not (is_data first.type)
        || (first.fragment_count != length (first ∷ rest))
        || (first.fragment_count != count))
      collection_geometry
  by_index ← collect_fragments first payload count [] (first ∷ rest)
  output ← write_fragments first.packet_length by_index first.fragment_count 0 []
  fail_if (length output != first.packet_length) collection_length
  ok output
