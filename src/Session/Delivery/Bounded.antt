-- ===== src/Session/Delivery/Bounded.antt =====
-- All that changes a session, in any order.
use fipwave.Common.{ℕ, ◌+◌, ◌≤◌, ◌≡◌, refl, ap, arith, List, [], length, Option}
use fipwave.Session.{AcousticRole}
use fipwave.Fas1.{Fas1Unit}
use fipwave.Session.Delivery.{
  AcousticSessionState, Reason, degrade, modem_playback_failed, Session, Surroundings, TrafficClass,
  queue_length, present,
}
use fipwave.Session.Delivery.Turn.{drive_turn, on_ack_timeout, on_ack}
use fipwave.Session.Delivery.Enqueue.{enqueue_packet}
use fipwave.Session.Delivery.Receive.{on_data, on_turn_end}
use fipwave.Session.Delivery.Recovery.{
  on_heartbeat, on_reset, request_heartbeat, mark_heartbeat_missed, begin_recovery, reply_heartbeat,
  restart, arm_recovery, restart_session, reset, start_session,
}
use fipwave.Session.Delivery.Recovered.{
  NoMore, on_heartbeat-NoMore, on_reset-NoMore, request_heartbeat-NoMore,
  mark_heartbeat_missed-NoMore, begin_recovery-NoMore, reply_heartbeat-NoMore, restart-NoMore,
  arm_recovery-NoMore, restart_session-NoMore, reset-NoMore, start_session-NoMore,
}
use fipwave.Session.Delivery.Load.{degrade-load, load, drive_turn-load, ack_timeout-load}
use fipwave.Session.Delivery.Remembered.{remembered, degrade-remembered, drive_turn-remembered}
use fipwave.Session.Delivery.Memory.{
  ack_timeout-remembered, ack_of-remembered, enqueue_packet-remembered, on_data-remembered,
  on_turn_end-remembered,
}
use fipwave.Session.Delivery.Methods.{
  ack_of-load, enqueue_packet-load, on_data-load, on_turn_end-load,
}

-- A method call of a session.
pub data Call : Type 0 where
  call_enqueue : List ℕ → TrafficClass → Call
  call_drive : Call
  call_ack_timeout : ℕ → ℕ → Call
  call_ack : ℕ → ℕ → ℕ → Call
  call_data : Fas1Unit → Call
  call_turn_end : ℕ → Call
  -- The modem did not play a burst.
  call_playback_failed : Call
  -- HEARTBEAT and RESET of the session with the number, the latter with what role A starts again with.
  call_heartbeat : ℕ → Call
  call_reset_received : ℕ → ℕ → List ℕ → Call
  -- The timers of the heartbeat and of the recovery.
  call_heartbeat_due call_heartbeat_missed : Call
  call_begin_recovery : ℕ → List ℕ → Call
  call_reply_heartbeat : ℕ → Call
  -- RESET has been played; the heartbeat of a recovery has been played, or has not.
  call_restart : ℕ → ℕ → ℕ → List ℕ → Call
  call_recovery_played : ℕ → ℕ → Call
  call_recovery_failed : Option ℕ → ℕ → List ℕ → Call
  call_reset : ℕ → Call
  call_start : ℕ → List ℕ → Call
  -- A method of the handshake, the calibration or the commit: each sets these fields at most.
  call_handshake :
      AcousticSessionState → Option ℕ → Option AcousticRole → ℕ → Option Reason → ℕ → Call

unfoldable pub apply : Surroundings → Call → Session → Session
apply around (call_enqueue packet c) s = (enqueue_packet around packet c s).1.0
apply around call_drive s = (drive_turn around s).0
apply around (call_ack_timeout i n) s = (on_ack_timeout around i n s).0
apply around (call_ack id i bitmap) s = (on_ack around id i bitmap s).0
apply around (call_data unit) s = (on_data around unit s).0
apply around (call_turn_end id) s = (on_turn_end around id s).0
apply around call_playback_failed s = (degrade around modem_playback_failed s).0
apply around (call_heartbeat session_id) s = (on_heartbeat around session_id s).0
apply around (call_reset_received session_id id body) s = (on_reset session_id id body s).0
apply around call_heartbeat_due s = (request_heartbeat around s).1.0
apply around call_heartbeat_missed s = (mark_heartbeat_missed around s).0
apply around (call_begin_recovery id body) s = (begin_recovery around id body s).0
apply around (call_reply_heartbeat session_id) s = (reply_heartbeat session_id s).0
apply around (call_restart epoch session_id id body) s = (restart epoch session_id id body s).0
apply around (call_recovery_played generation session_id) s =
    (arm_recovery around generation session_id s).0
apply around (call_recovery_failed session_id id body) s = (restart_session session_id id body s).0
apply around (call_reset epoch) s = (reset epoch s).0
apply around (call_start id body) s = (start_session id body s).0
apply around (call_handshake state session_id owner sequence reason duplicates) s = record s {
  state = state;
  session_id = session_id;
  turn_owner = owner;
  sequence = sequence;
  reason = reason;
  duplicates = duplicates;
}

-- The states that calls lead to from a session without packets and numbers, as `reset` leaves it, whatever the
-- clock and the settings are at each call.
pub data Reachable : Session → Type 0 where
  empty : {s : Session} → load s ≡ 0 → s.delivered ≡ [] → Reachable s
  called :
      {s : Session} (around : Surroundings) (call : Call)
      → Reachable s
      → Reachable (apply around call s)

-- A session within its bounds.
pub record Fits (s : Session) : Type 0 where
  pub load_fits : load s ≤ 16
  pub remembered_fits : remembered s ≤ 32

fewer : {s t : Session} → Fits s → NoMore s t → Fits t
fewer h less = record {
  load_fits = omega (arith, h.load_fits, less.no_more_load);
  remembered_fits = omega (arith, h.remembered_fits, less.no_more_remembered);
}

-- Every call keeps a session within its bounds.
apply-Fits :
    (around : Surroundings) (call : Call) (s : Session) → Fits s → Fits (apply around call s)
unfolding apply on_ack_timeout on_ack load remembered
apply-Fits around (call_enqueue packet c) s h = record {
  load_fits = enqueue_packet-load around packet c s h.load_fits;
  remembered_fits = omega (arith, enqueue_packet-remembered around packet c s, h.remembered_fits);
}
apply-Fits around call_drive s h = fewer h (record {
  no_more_load = drive_turn-load around s;
  no_more_remembered = drive_turn-remembered around s;
})
apply-Fits around (call_ack_timeout i n) s h = fewer h (record {
  no_more_load = ack_timeout-load around i n s.active s;
  no_more_remembered = ack_timeout-remembered around i n s.active s;
})
apply-Fits around (call_ack id i bitmap) s h = fewer h (record {
  no_more_load = ack_of-load around id i bitmap s.active s refl;
  no_more_remembered = omega (arith, ack_of-remembered around id i bitmap s.active s);
})
apply-Fits around (call_data unit) s h = record {
  load_fits = omega (arith, on_data-load around unit s, h.load_fits);
  remembered_fits = on_data-remembered around unit s h.remembered_fits;
}
apply-Fits around (call_turn_end id) s h = fewer h (record {
  no_more_load = omega (arith, on_turn_end-load around id s);
  no_more_remembered = omega (arith, on_turn_end-remembered around id s);
})
apply-Fits around call_playback_failed s h = fewer h (record {
  no_more_load = omega (arith, degrade-load around modem_playback_failed s);
  no_more_remembered = omega (arith, degrade-remembered around modem_playback_failed s);
})
apply-Fits around (call_heartbeat session_id) s h =
    fewer h (on_heartbeat-NoMore around session_id s)
apply-Fits around (call_reset_received session_id id body) s h =
    fewer h (on_reset-NoMore session_id id body s)
apply-Fits around call_heartbeat_due s h = fewer h (request_heartbeat-NoMore around s)
apply-Fits around call_heartbeat_missed s h = fewer h (mark_heartbeat_missed-NoMore around s)
apply-Fits around (call_begin_recovery id body) s h =
    fewer h (begin_recovery-NoMore around id body s)
apply-Fits around (call_reply_heartbeat session_id) s h =
    fewer h (reply_heartbeat-NoMore session_id s)
apply-Fits around (call_restart epoch session_id id body) s h =
    fewer h (restart-NoMore epoch session_id id body s)
apply-Fits around (call_recovery_played generation session_id) s h =
    fewer h (arm_recovery-NoMore around generation session_id s)
apply-Fits around (call_recovery_failed session_id id body) s h =
    fewer h (restart_session-NoMore session_id id body s)
apply-Fits around (call_reset epoch) s h = fewer h (reset-NoMore epoch s)
apply-Fits around (call_start id body) s h = fewer h (start_session-NoMore id body s)
apply-Fits around (call_handshake state session_id owner sequence reason duplicates) s h = record {
  load_fits = h.load_fits;
  remembered_fits = h.remembered_fits;
}

Reachable-Fits : (s : Session) → Reachable s → Fits s
unfolding remembered
Reachable-Fits s (empty e d) = record {
  load_fits = omega (arith, e);
  remembered_fits = omega (arith, ap length d);
}
Reachable-Fits _ (called {s} around call r) = apply-Fits around call s (Reachable-Fits s r)

-- From a session without packets and remembered numbers, whatever packets are enqueued, turns
-- driven, units received (DATA, ACK, TURN_END, HEARTBEAT, RESET, and those of the handshake, the
-- calibration and the commit, which here may set the state, the session number, the owner of the
-- turn, the sequence number, the reason and the duplicates to anything), timers of the
-- acknowledgement, the heartbeat and the recovery run, bursts not played, heartbeats of a
-- recovery played or not, and resets and starts made, in whatever order, no more than 16 packets
-- are queued or under way, and no more than 32 numbers of delivered packets are remembered.
pub load_bounded :
    (s : Session)
    → Reachable s
    → (queue_length s + present s.active ≤ 16) × (length s.delivered ≤ 32)
unfolding remembered load
load_bounded s r = let fits = Reachable-Fits s r in (fits.load_fits, fits.remembered_fits)
