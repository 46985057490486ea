-- ===== src/Session/Delivery/Receive.antt =====
-- `onData` and `onTurnEnd`.
pub mod Once
use fipwave.Common.{
  ℕ, ◌+◌, ◌-◌, ◌*◌, ◌^◌, ltb, ◌==◌, ◌!=◌, ◌||◌, not, Bool, true, false, if◌then◌else◌, List, [],
  ◌∷◌, ◌++◌, length, drop, Option, none, some, Result, ok, err,
}
use fipwave.Fas1.{Fas1Unit, UnitType}
use fipwave.Fas1.Fragment.{
  ceil_div, IndexMap, get_index, is_some, expected_length, reassemble_packet,
}
use fipwave.Session.Delivery.{
  Session, Surroundings, Step, ◌then◌, InboundAssembly, Effect, schedule, send_unit, on_packet,
  task_drive_turn, max_packet_age_ms, max_delivered_ids, complement, is_state_ready, sender_flag,
  expire_work,
}
use fipwave.Session.Delivery.Turn.{owned_by, is_session}
use Prim.Native.Nat.{bit_or}

abbrev pub has_id : ℕ → List (ℕ × ℕ) → Bool
has_id id [] = false
has_id id ((i, at) ∷ ds) = let rest = has_id id ds in (i == id) || rest

-- The bits of the fragments that are there.
abbrev pub bitmap_of : IndexMap → ℕ
bitmap_of [] = 0
bitmap_of ((i, unit) ∷ m) = let rest = bitmap_of m in bit_or (2 ^ i) rest

abbrev pub units_of : IndexMap → List Fas1Unit
units_of [] = []
units_of ((i, unit) ∷ m) = unit ∷ units_of m

-- The oldest numbers are forgotten while there are more than 32.
abbrev pub forget_oldest : List (ℕ × ℕ) → List (ℕ × ℕ)
forget_oldest ds = drop (length ds - max_delivered_ids) ds

-- Whether a unit is of another packet than the one that is being put together.
abbrev pub other_packet : Option InboundAssembly → Fas1Unit → Bool
other_packet none unit = false
other_packet (some a) unit =
    (a.packet_id != unit.packet_id)
    || (a.fragment_count != unit.fragment_count)
    || (a.packet_length != unit.packet_length)

-- The packet is put together and given on.
unfoldable pub complete :
    {E : Type 0} → Surroundings → Fas1Unit → Session → Result E (List ℕ) → Step
complete around unit s (err e) = (record s { inbound = none; dropped = s.dropped + 1 }, [])
complete around unit s (ok packet) =
    if (length packet != unit.packet_length) || has_id unit.packet_id s.delivered
    then (s, [])
    else (
      record s {
        delivered =
            forget_oldest (s.delivered ++ ((unit.packet_id, around.now + max_packet_age_ms) ∷ []));
        inbound = none;
        delivered_packets = s.delivered_packets + 1;
      },
      on_packet packet unit.packet_id ∷ [],
    )

-- A unit of the assembly, which is new or was there.
unfoldable pub add_fragment : Surroundings → Fas1Unit → InboundAssembly → Session → Step
add_fragment around unit a s =
    let known = is_some (get_index unit.fragment_index a.fragments) in
    let fragments =
      if known then a.fragments else a.fragments ++ ((unit.fragment_index, unit) ∷ []) in
    let stored = record s {
      inbound = some (record a { fragments = fragments });
      duplicates = if known then s.duplicates + 1 else s.duplicates;
      last_ack = some (unit.packet_id, bitmap_of fragments);
    } in
    if length fragments != a.fragment_count
    then (stored, [])
    else complete around unit stored
        (reassemble_packet (units_of fragments) around.inbound_payload_bytes)

unfoldable pub new_assembly : Surroundings → Fas1Unit → InboundAssembly
new_assembly around unit = record {
  packet_id = unit.packet_id;
  fragment_count = unit.fragment_count;
  packet_length = unit.packet_length;
  fragments = [];
  expires_at = around.now + max_packet_age_ms;
}

unfoldable pub store_fragment : Surroundings → Fas1Unit → Option InboundAssembly → Session → Step
store_fragment around unit none s =
    add_fragment around unit (new_assembly around unit) (record s { last_ack = none })
store_fragment around unit (some a) s = add_fragment around unit a s

-- A DATA unit of the other side's turn.
unfoldable pub take_data : Surroundings → Fas1Unit → Session → Step
take_data around unit s =
    let count = ceil_div unit.packet_length around.inbound_payload_bytes in
    let wrong =
      (unit.fragment_count != count)
      || (length unit.body
          != expected_length unit around.inbound_payload_bytes count unit.fragment_index) in
    if has_id unit.packet_id s.delivered
    then (
      record s {
        duplicates = s.duplicates + 1;
        last_ack = some (unit.packet_id, 2 ^ unit.fragment_count - 1);
      },
      [],
    )
    else if other_packet s.inbound unit || wrong
    then (record s { dropped = s.dropped + 1 }, [])
    else store_fragment around unit s.inbound s

abbrev pub others_turn : Session → ℕ → Bool
others_turn s session_id =
    let owned = owned_by s.turn_owner (complement s.role) in
    if is_state_ready s.state
    then (if is_session s.session_id session_id then owned else false)
    else false

unfoldable pub on_data : Surroundings → Fas1Unit → Session → Step
on_data around unit s =
    let expired = expire_work around s in
    let taken = take_data around unit expired.0 in
    if others_turn expired.0 unit.session_id then (taken.0, expired.1 ++ taken.1) else expired

-- `sendAck`
abbrev pub ack_unit : Session → ℕ → ℕ → ℕ → Fas1Unit
ack_unit s session_id packet_id bitmap = record {
  type = UnitType.ack;
  flags = sender_flag s.role;
  session_id = session_id;
  sequence = bitmap;
  packet_id = packet_id;
  fragment_index = 0;
  fragment_count = 0;
  packet_length = 0;
  body = [];
}

-- The acknowledgement that is due is sent, and else the turn is taken.
unfoldable pub take_turn : Surroundings → ℕ → Option (ℕ × ℕ) → Session → Step
take_turn around session_id (some a) s = (
  record s { last_ack = none; turn_owner = some (complement s.role) },
  send_unit (ack_unit s session_id a.0 a.1) ∷ [],
)
take_turn around session_id none s =
    (record s { turn_owner = some s.role }, schedule task_drive_turn around.guard_ms ∷ [])

unfoldable pub on_turn_end : Surroundings → ℕ → Session → Step
on_turn_end around session_id s =
    if others_turn s session_id then take_turn around session_id s.last_ack s else (s, [])
