-- ===== src/Session/Delivery.antt =====
-- The delivery of packets in a session: the state that the methods of `AcousticSession` below
-- `enqueuePacket` share, and `expireWork`, `degrade` and `send`. What a method tells the modem, the
-- timers and the packet's receiver is returned beside the new state, in order. The negotiated settings
-- and the clock are inputs.
pub mod Turn
pub mod Enqueue
pub mod Receive
pub mod Recovery
pub mod Recovered
pub mod Load
pub mod Remembered
pub mod Memory
pub mod Methods
pub mod Bounded
pub mod Examples
use fipwave.Common.{
  ℕ, ◌+◌, ◌-◌, ltb, leb, ◌==◌, Bool, true, false, if◌then◌else◌, List, [], ◌∷◌, ◌++◌, length,
  Option, none, some,
}
use fipwave.Session.{AcousticRole, role_a, role_b}
use fipwave.Fas1.{Fas1Unit, UnitType, Fas1Sender, sender_a, sender_b, sender_code}

pub data AcousticSessionState : Type 0 where
  idle listening hello_sent hello_ack_sent caps_sent : AcousticSessionState
  calibrating_a_to_b calibrating_b_to_a committing awaiting_heartbeat : AcousticSessionState
  state_ready degraded recovering state_error : AcousticSessionState

pub data TrafficClass : Type 0 where
  class_control class_heartbeat class_ordinary : TrafficClass

pub record PendingPacket : Type 0 where
  pub packet_id : ℕ
  pub packet : List ℕ
  pub fragments : List Fas1Unit
  pub traffic_class : TrafficClass
  pub expires_at : ℕ
  pub attempts : ℕ
  pub acknowledged : ℕ

pub record InboundAssembly : Type 0 where
  pub packet_id : ℕ
  pub fragment_count : ℕ
  pub packet_length : ℕ
  pub fragments : List (ℕ × Fas1Unit)
  pub expires_at : ℕ

pub data Reason : Type 0 where
  packet_expired retry_exhausted modem_playback_failed heartbeat_missed : Reason
  -- One of the reasons of the handshake and the calibration.
  handshake_failed : Reason

pub record Session : Type 0 where
  pub role : AcousticRole
  pub state : AcousticSessionState
  pub epoch : ℕ
  pub session_id : Option ℕ
  pub retired_session_ids : List ℕ
  pub generation : ℕ
  pub recovery_attempts : ℕ
  pub turn_owner : Option AcousticRole
  pub sequence : ℕ
  pub next_packet_id : ℕ
  pub control : List PendingPacket
  pub heartbeat : List PendingPacket
  pub ordinary : List PendingPacket
  pub active : Option PendingPacket
  pub inbound : Option InboundAssembly
  pub last_ack : Option (ℕ × ℕ)
  pub delivered : List (ℕ × ℕ)
  pub heartbeat_due : Bool
  pub awaiting_ack : Bool
  pub reason : Option Reason
  pub retries : ℕ
  pub dropped : ℕ
  pub duplicates : ℕ
  pub delivered_packets : ℕ

-- The committed settings of both directions, as far as the delivery reads them, and the clock.
pub record Surroundings : Type 0 where
  pub now : ℕ
  pub outbound_payload_bytes : ℕ
  pub inbound_payload_bytes : ℕ
  pub guard_ms : ℕ
  pub ack_timeout_ms : ℕ

-- The callback of the delivery timer.
pub data Task : Type 0 where
  task_drive_turn task_begin_recovery task_heartbeat_missed : Task
  task_reply_heartbeat : ℕ → Task
  task_ack_timeout : ℕ → ℕ → Task

pub data Effect : Type 0 where
  apply_candidate clear_delivery_timer clear_heartbeat_timers arm_heartbeat_timers : Effect
  clear_commit_retry clear_handshake_timers : Effect
  -- The delivery timer is cleared and set.
  schedule : Task → ℕ → Effect
  send_unit : Fas1Unit → Effect
  -- The timeout that is armed when the burst of an attempt has been played.
  after_playback : ℕ → ℕ → Effect
  -- What is armed when the heartbeat of a recovery has been played, for a generation and a session.
  after_recovery_heartbeat : ℕ → ℕ → Effect
  -- The restart when RESET has been played, for an epoch and a session.
  after_reset : ℕ → ℕ → Effect
  on_packet : List ℕ → ℕ → Effect

abbrev pub Step : Type 0
Step = Session × List Effect

infixl 5 ◌then◌
abbrev pub ◌then◌ : Step → (Session → Step) → Step
m then f = let r = f m.0 in (r.0, m.1 ++ r.1)

abbrev pub max_queued_packets : ℕ
max_queued_packets = 16

abbrev pub max_delivered_ids : ℕ
max_delivered_ids = 32

abbrev pub max_packet_age_ms : ℕ
max_packet_age_ms = 600000

abbrev pub max_attempts : ℕ
max_attempts = 3

abbrev pub window_size : ℕ
window_size = 4

abbrev pub complement : AcousticRole → AcousticRole
complement role_a = role_b
complement role_b = role_a

abbrev pub sender_flag : AcousticRole → ℕ
sender_flag role_a = sender_code sender_a
sender_flag role_b = sender_code sender_b

abbrev pub is_state_ready : AcousticSessionState → Bool
is_state_ready state_ready = true
is_state_ready _ = false

abbrev pub filter : {A : Type 0} → (A → Bool) → List A → List A
filter p [] = []
filter p (x ∷ xs) = let rest = filter p xs in if p x then x ∷ rest else rest

abbrev pub present : {A : Type 0} → Option A → ℕ
present none = 0
present (some a) = 1

-- `queueLength`
abbrev pub queue_length : Session → ℕ
queue_length s = length s.control + length s.heartbeat + length s.ordinary

abbrev pub unfinished : AcousticSessionState → Bool
unfinished state_error = false
unfinished degraded = false
unfinished _ = true

unfoldable pub degrade : Surroundings → Reason → Session → Step
degrade around reason s =
    if unfinished s.state
    then (
      record s { awaiting_ack = false; state = degraded; reason = some reason },
      clear_delivery_timer ∷ schedule task_begin_recovery around.guard_ms ∷ [],
    )
    else (s, [])

-- The queues without the packets that are too old.
unfoldable pub expire_queues : ℕ → Session → Session
expire_queues now s =
    let fresh = λ (items : List PendingPacket). filter (λ item. leb now item.expires_at) items in
    record s {
      control = fresh s.control;
      heartbeat = fresh s.heartbeat;
      ordinary = fresh s.ordinary;
      dropped =
          s.dropped
          + (length s.control - length (fresh s.control))
          + (length s.heartbeat - length (fresh s.heartbeat))
          + (length s.ordinary - length (fresh s.ordinary));
    }

-- The active packet, if it is not too old.
unfoldable pub expire_active : Surroundings → Option PendingPacket → Session → Step
expire_active around none s = (s, [])
expire_active around (some p) s =
    if ltb p.expires_at around.now
    then degrade around packet_expired
        (record s { active = none; awaiting_ack = false; dropped = s.dropped + 1 })
    else (s, [])

unfoldable pub expire_inbound : ℕ → Option InboundAssembly → Session → Session
expire_inbound now none s = s
expire_inbound now (some a) s =
    if ltb a.expires_at now then record s { inbound = none; dropped = s.dropped + 1 } else s

unfoldable pub expire_delivered : ℕ → Session → Session
expire_delivered now s = record s { delivered = filter (λ (d : ℕ × ℕ). leb now d.1) s.delivered }

unfoldable pub expire_work : Surroundings → Session → Step
expire_work around s =
    let queues = expire_queues around.now s in
    let expired = expire_active around queues.active queues in
    (expire_delivered around.now (expire_inbound around.now expired.0.inbound expired.0), expired.1)

-- `send` of a control unit without a body.
unfoldable pub control_unit : Session → UnitType → ℕ → Fas1Unit
control_unit s type session_id = record {
  type = type;
  flags = sender_flag s.role;
  session_id = session_id;
  sequence = s.sequence;
  packet_id = 0;
  fragment_index = 0;
  fragment_count = 0;
  packet_length = 0;
  body = [];
}

unfoldable pub send_control : UnitType → ℕ → Session → Step
send_control type session_id s =
    (record s { sequence = s.sequence + 1 }, send_unit (control_unit s type session_id) ∷ [])
