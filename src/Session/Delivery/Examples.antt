-- ===== src/Session/Delivery/Examples.antt =====
-- Runs of the packet delivery, and its theorems at concrete inputs.
use fipwave.Common.{length, ◌+◌, ◌≤◌, ◌≡◌, refl, false, [], ◌∷◌, none, some}
use fipwave.Fas1.{Fas1Unit, data_unit, validate_unit, validate_fields, validate_data, is_data}
use fipwave.Fas1.Fragment.{
  fragment_packet, fragments_from, fragment_at, reassemble_packet, check_fragment,
  collect_fragments, write_fragments, write_fragment, get_index,
}
use fipwave.Session.{role_a, role_b}
use fipwave.Session.Delivery.{
  Session, Surroundings, on_packet, state_ready, class_ordinary, queue_length, present,
  expire_queues, expire_active, expire_inbound, expire_delivered, expire_work, send_control,
}
use fipwave.Session.Delivery.Enqueue.{
  queue_accepted, enqueue_packet, enqueue_ready, enqueue_found, enqueue_new, queue_fragments, push,
}
use fipwave.Session.Delivery.Turn.{
  drive_turn, drive_ready, activate, own_turn, drive_packet, dequeue,
}
use fipwave.Session.Delivery.Recovery.{
  on_heartbeat, answer_heartbeat, begin_recovery, recovery_of, attempt_recovery,
  mark_heartbeat_missed,
}
use fipwave.Session.Delivery.Receive.{
  on_data, take_data, store_fragment, new_assembly, add_fragment, complete,
}
use fipwave.Session.Delivery.Receive.Once.{HandedOnce, on_data_lem}
use fipwave.Session.Delivery.Load.{load}
use fipwave.Session.Delivery.Bounded.{
  call_enqueue, call_heartbeat, call_begin_recovery, call_heartbeat_missed, apply, empty, called,
  load_bounded,
}

abbrev around : Surroundings
around = record {
  now = 1000;
  outbound_payload_bytes = 217;
  inbound_payload_bytes = 217;
  guard_ms = 750;
  ack_timeout_ms = 4000;
}

-- Role A, ready, in its own turn.
abbrev session : Session
session = record {
  role = role_a;
  state = state_ready;
  epoch = 4;
  session_id = some 9;
  retired_session_ids = [];
  generation = 0;
  recovery_attempts = 0;
  turn_owner = some role_a;
  sequence = 5;
  next_packet_id = 1;
  control = [];
  heartbeat = [];
  ordinary = [];
  active = none;
  inbound = none;
  last_ack = none;
  delivered = [];
  heartbeat_due = false;
  awaiting_ack = false;
  reason = none;
  retries = 0;
  dropped = 0;
  duplicates = 0;
  delivered_packets = 0;
}

-- In the turn of role B.
abbrev listening_session : Session
listening_session = record session { turn_owner = some role_b }

-- A packet of two bytes from role B.
abbrev incoming : Fas1Unit
incoming = record {
  type = data_unit;
  flags = 2;
  session_id = 9;
  sequence = 40;
  packet_id = 3;
  fragment_index = 0;
  fragment_count = 1;
  packet_length = 2;
  body = 7 ∷ 8 ∷ [];
}

packet_handed_on : (on_data around incoming listening_session).1 ≡ on_packet (7 ∷ 8 ∷ []) 3 ∷ []
unfolding on_data expire_work expire_queues expire_active expire_inbound expire_delivered take_data
    store_fragment new_assembly add_fragment complete reassemble_packet check_fragment
    collect_fragments write_fragments write_fragment get_index validate_unit validate_fields
    validate_data is_data
packet_handed_on = refl

packet_queued : (enqueue_packet around (7 ∷ 8 ∷ []) class_ordinary session).0 ≡ queue_accepted 1
unfolding enqueue_packet enqueue_ready enqueue_found enqueue_new queue_fragments fragment_packet
    expire_work expire_queues expire_active expire_inbound expire_delivered
packet_queued = refl

on_data_lem_example :
    HandedOnce incoming
      (expire_work around listening_session).0.delivered
      (on_data around incoming listening_session)
on_data_lem_example = on_data_lem around incoming listening_session

-- After one packet.
abbrev busy_session : Session
busy_session = apply around (call_enqueue (7 ∷ 8 ∷ []) class_ordinary) session

session_empty : load session ≡ 0
unfolding load
session_empty = refl

-- The session degrades and recovers, and its packet is still waiting.
abbrev recovering_session : Session
recovering_session =
    apply around (call_begin_recovery 11 []) (apply around call_heartbeat_missed busy_session)

abbrev recovered_session : Session
recovered_session = apply around (call_heartbeat 9) recovering_session

packet_kept :
    (recovered_session.state ≡ state_ready)
    × (queue_length recovered_session + present recovered_session.active ≡ 1)
unfolding apply on_heartbeat answer_heartbeat begin_recovery recovery_of attempt_recovery
    mark_heartbeat_missed enqueue_packet enqueue_ready enqueue_found enqueue_new queue_fragments
    fragment_packet expire_work expire_queues expire_active expire_inbound expire_delivered
    drive_turn drive_ready activate own_turn drive_packet dequeue push fragments_from fragment_at
    send_control
packet_kept = (refl, refl)

load_bounded_example :
    (queue_length recovered_session + present recovered_session.active ≤ 16)
    × (length recovered_session.delivered ≤ 32)
load_bounded_example = load_bounded recovered_session (
    called around (call_heartbeat 9) (
      called around (call_begin_recovery 11 []) (
        called around call_heartbeat_missed
          (called around (call_enqueue (7 ∷ 8 ∷ []) class_ordinary) (empty session_empty refl)))))
