-- ===== src/Adapter/Session.antt =====
-- apps/modem-ui/src/acoustic-session-adapter.ts: arms the packet adapter while the acoustic session
-- is ready. The session is a parameter: its snapshot at the call, and its answer to a packet. What
-- a call tells its surroundings is returned beside the new state.
use fipwave.Common.{
  ℕ, ◌+◌, ◌==◌, ◌!=◌, Bool, false, if◌then◌else◌, List, [], ◌∷◌, ◌++◌, Option, none, some,
}
use fipwave.Adapter.{
  PacketResult, packet_accepted, packet_rejected, stale, acoustic_queue_full, acoustic_not_ready,
  acoustic_packet_bounds, acoustic_class_invalid, FipsPacketEnvelope, Lifecycle, arm, receive, send,
}

pub data AcousticTrafficClass : Type 0 where
  control_class heartbeat_class ordinary_class : AcousticTrafficClass

unfoldable pub traffic_class_of : ℕ → AcousticTrafficClass
traffic_class_of value =
    if value == 1 then control_class else if value == 2 then heartbeat_class else ordinary_class

-- `AcousticQueueResult`: the reasons by which the session refuses a packet.
pub data QueueResult : Type 0 where
  queued : QueueResult
  queue_full session_not_ready packet_bounds other_reason : QueueResult

unfoldable pub queue_answer : QueueResult → PacketResult
queue_answer queued = packet_accepted
queue_answer queue_full = packet_rejected acoustic_queue_full
queue_answer session_not_ready = packet_rejected acoustic_not_ready
queue_answer packet_bounds = packet_rejected acoustic_packet_bounds
queue_answer other_reason = packet_rejected acoustic_class_invalid

-- The part of the session's snapshot that is read.
pub record Snapshot : Type 0 where
  pub epoch : ℕ
  pub ready : Bool

pub record SessionAdapter : Type 0 where
  pub lifecycle : Option Lifecycle
  pub generation : ℕ
  pub armed_epoch : Option ℕ

-- A call of the surroundings.
pub data Event : Type 0 where
  control_ready : ℕ → Event
  control_disarm : ℕ → Event
  session_reset : ℕ → Event
  session_heartbeat_missed : Event
  session_packet : List ℕ → AcousticTrafficClass → Event
  bridge_packet : FipsPacketEnvelope → Event

-- `disarm`
unfoldable pub disarm : SessionAdapter → ℕ → SessionAdapter × List Event
disarm s epoch = elim s.armed_epoch [
  | none ↦ (s, [])
  | some e ↦ (
    record { lifecycle = none; generation = s.generation; armed_epoch = none },
    control_disarm epoch ∷ [],
  )
]

abbrev pub or_epoch : Option ℕ → ℕ → ℕ
or_epoch none d = d
or_epoch (some e) d = e

abbrev pub is_epoch : Option ℕ → ℕ → Bool
is_epoch none e = false
is_epoch (some d) e = d == e

unfoldable pub refresh : SessionAdapter → Snapshot → SessionAdapter × List Event
refresh s snapshot =
    let (disarmed, events) = disarm s (or_epoch s.armed_epoch snapshot.epoch) in
    if snapshot.ready
    then (if is_epoch s.armed_epoch snapshot.epoch then (s, []) else (
      record {
        lifecycle = arm snapshot.epoch s.generation;
        generation = s.generation;
        armed_epoch = some snapshot.epoch;
      },
      events ++ control_ready snapshot.epoch ∷ [],
    ))
    else disarm s snapshot.epoch

-- The constructor.
unfoldable pub new_adapter : Snapshot → SessionAdapter × List Event
new_adapter snapshot =
    refresh (record { lifecycle = none; generation = 1; armed_epoch = none }) snapshot

abbrev pub session_packets : List FipsPacketEnvelope → List Event
session_packets [] = []
session_packets (e ∷ es) =
    session_packet e.bytes (traffic_class_of e.traffic_class) ∷ session_packets es

abbrev pub bridge_packets : List FipsPacketEnvelope → List Event
bridge_packets [] = []
bridge_packets (e ∷ es) = bridge_packet e ∷ bridge_packets es

-- `receiveFips`; `enqueue` is the session's answer to a packet.
unfoldable pub receive_fips :
    (List ℕ → AcousticTrafficClass → QueueResult)
    → SessionAdapter
    → List ℕ
    → ℕ
    → ℕ
    → Option ℕ
    → PacketResult × List Event
receive_fips enqueue s packet class_id epoch generation =
    let current = or_epoch generation s.generation in
    let on_packet = λ (e : FipsPacketEnvelope).
      some (queue_answer (enqueue e.bytes (traffic_class_of e.traffic_class))) in
    let (result, passed) = receive on_packet s.lifecycle packet class_id epoch current in
    if current != s.generation
    then (packet_rejected stale, [])
    else (result, session_packets passed)

unfoldable pub deliver : SessionAdapter → List ℕ → ℕ → Option ℕ → PacketResult × List Event
deliver s packet class_id generation =
    let (result, passed) = send s.lifecycle packet class_id in
    if or_epoch generation s.generation != s.generation
    then (packet_rejected stale, [])
    else (result, bridge_packets passed)

unfoldable pub mark_degraded : SessionAdapter → Snapshot → SessionAdapter × List Event
mark_degraded s snapshot =
    let (disarmed, events) = disarm s snapshot.epoch in
    (disarmed, events ++ session_heartbeat_missed ∷ [])

abbrev pub next_generation : SessionAdapter → SessionAdapter
next_generation s = record {
  lifecycle = s.lifecycle;
  generation = s.generation + 1;
  armed_epoch = s.armed_epoch;
}

unfoldable pub reset_adapter : SessionAdapter → Snapshot → ℕ → SessionAdapter × List Event
reset_adapter s snapshot epoch =
    let (disarmed, events) = disarm s snapshot.epoch in
    (next_generation disarmed, events ++ session_reset epoch ∷ [])

unfoldable pub invalidate_adapter : SessionAdapter → Snapshot → SessionAdapter × List Event
invalidate_adapter s snapshot =
    let (disarmed, events) = disarm s snapshot.epoch in (next_generation disarmed, events)
