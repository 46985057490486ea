-- ===== src/Fas1/Validate.antt =====
-- `validateUnit` of acoustic-protocol.ts against a description of the legal units.
use fipwave.Common.{
  ◌<◌, ◌≤◌, ◌^◌, ◌≡◌, ◌↔◌, ◌⊎◌, refl, arith, false, length, ok, >>_ok, if◌then◌else◌,
}
use fipwave.Fas1.{
  UnitType, hello, data_unit, turn_end, ack, heartbeat, reset, Fas1Unit, validate_fields,
  validate_data, validate_control, validate_unit, is_data, is_hello, is_ack, bodyless,
}

-- Each field fits the width that the header gives it.
pub record FitsHeader (u : Fas1Unit) : Type 0 where
  pub sender : (u.flags ≡ 1) ⊎ (u.flags ≡ 2)
  pub session : u.session_id < 2 ^ 64
  pub sequence : u.sequence < 2 ^ 32
  pub packet : u.packet_id < 2 ^ 32
  pub index : u.fragment_index < 2 ^ 16
  pub count : u.fragment_count < 2 ^ 16
  pub total : u.packet_length < 2 ^ 16
  pub body : length u.body ≤ 217

-- A fragment of a packet of 1 to 1357 bytes in 1 to 16 fragments.
pub record IsFragment (u : Fas1Unit) : Type 0 where
  pub session : 0 < u.session_id
  pub packet : 0 < u.packet_id
  pub few : u.fragment_count ≤ 16
  pub index : u.fragment_index < u.fragment_count
  pub total : u.packet_length ≤ 1357
  pub filled : 0 < length u.body
  pub within : length u.body ≤ u.packet_length

-- No packet geometry.
pub record NoGeometry (u : Fas1Unit) : Type 0 where
  pub index : u.fragment_index ≡ 0
  pub count : u.fragment_count ≡ 0
  pub total : u.packet_length ≡ 0

-- What the type of a unit asks of it.
abbrev pub Shape : UnitType → Fas1Unit → Type 0
Shape data_unit u = IsFragment u
Shape hello u = NoGeometry u × (u.packet_id ≡ 0) × (0 < length u.body)
Shape ack u = NoGeometry u × (0 < u.session_id) × (0 < u.packet_id) × (length u.body ≡ 0)
Shape turn_end u = NoGeometry u × (0 < u.session_id) × (u.packet_id ≡ 0) × (length u.body ≡ 0)
Shape heartbeat u = NoGeometry u × (0 < u.session_id) × (u.packet_id ≡ 0) × (length u.body ≡ 0)
Shape reset u = NoGeometry u × (0 < u.session_id) × (u.packet_id ≡ 0) × (length u.body ≡ 0)
Shape _ u = NoGeometry u × (0 < u.session_id) × (u.packet_id ≡ 0) × (0 < length u.body)

pub record IsLegal (u : Fas1Unit) : Type 0 where
  pub fits : FitsHeader u
  pub shape : Shape u.type u

validate_fields_sound : (u : Fas1Unit) → validate_fields u ≡ ok tt → FitsHeader u
unfolding validate_fields
validate_fields_sound u h = ground arith

validate_fields_complete : (u : Fas1Unit) → FitsHeader u → validate_fields u ≡ ok tt
unfolding validate_fields
validate_fields_complete u h = ground arith

validate_data_sound : (u : Fas1Unit) → validate_data u ≡ ok tt → IsFragment u
unfolding validate_data
validate_data_sound u h = ground arith

validate_data_complete : (u : Fas1Unit) → IsFragment u → validate_data u ≡ ok tt
unfolding validate_data
validate_data_complete u h = ground arith

control_sound :
    (t : UnitType) (u : Fas1Unit)
    → u.type ≡ t
    → is_data t ≡ false
    → validate_control u ≡ ok tt
    → Shape t u
unfolding validate_control is_data is_hello is_ack bodyless
control_sound data_unit u e d h = cc
control_sound hello u e d h = ground arith
control_sound ack u e d h = ground arith
control_sound _ u e d h = ground arith

control_complete :
    (t : UnitType) (u : Fas1Unit)
    → u.type ≡ t
    → is_data t ≡ false
    → Shape t u
    → validate_control u ≡ ok tt
unfolding validate_control is_data is_hello is_ack bodyless
control_complete data_unit u e d h = cc
control_complete hello u e d h = ground arith
control_complete ack u e d h = ground arith
control_complete _ u e d h = ground arith

branch_sound :
    (t : UnitType) (u : Fas1Unit)
    → u.type ≡ t
    → (if is_data t then validate_data u else validate_control u) ≡ ok tt
    → Shape t u
unfolding is_data
branch_sound data_unit u e h = validate_data_sound u h
branch_sound hello u e h = control_sound hello u e refl h
branch_sound ack u e h = control_sound ack u e refl h
branch_sound t u e h = control_sound t u e refl h

branch_complete :
    (t : UnitType) (u : Fas1Unit)
    → u.type ≡ t
    → Shape t u
    → (if is_data t then validate_data u else validate_control u) ≡ ok tt
unfolding is_data
branch_complete data_unit u e h = validate_data_complete u h
branch_complete hello u e h = control_complete hello u e refl h
branch_complete ack u e h = control_complete ack u e refl h
branch_complete t u e h = control_complete t u e refl h

pub validate_unit-IsLegal : (u : Fas1Unit) → validate_unit u ≡ ok tt → IsLegal u
unfolding validate_unit
validate_unit-IsLegal u h =
    let (f, b) = >>_ok (validate_fields u) _ h in
    record { fits = validate_fields_sound u f; shape = branch_sound u.type u refl b }

-- `validateUnit` accepts a unit exactly when each field fits the header and the geometry is the
-- one of its type: a fragment for DATA, a packet number and no body for ACK, no geometry and a
-- body or none for the other types, and session zero for HELLO only.
pub validate_unit_iff : (u : Fas1Unit) → (validate_unit u ≡ ok tt) ↔ IsLegal u
unfolding validate_unit
validate_unit_iff u = (
  validate_unit-IsLegal u,
  λ l. rw (validate_fields_complete u l.fits) (branch_complete u.type u refl l.shape),
)
