-- ===== src/Session/Delivery/Enqueue.antt =====
-- `enqueuePacket`.
use fipwave.Common.{
  ℕ, ◌+◌, ltb, leb, ◌==◌, ◌||◌, ◌&&◌, not, Bool, true, false, if◌then◌else◌, List, [], ◌∷◌, ◌++◌,
  length, Option, none, some, Result, ok, err,
}
use fipwave.Fas1.{Fas1Unit, Fas1Sender, sender_a, sender_b}
use fipwave.Fas1.Fragment.{FragmentPacketInput, fragment_packet}
use fipwave.Session.{AcousticRole, role_a, role_b}
use fipwave.Session.Delivery.{
  Session, Surroundings, Step, ◌then◌, TrafficClass, class_control, class_heartbeat, class_ordinary,
  PendingPacket, max_queued_packets, max_packet_age_ms, is_state_ready, present, queue_length,
  expire_work,
}
use fipwave.Session.Delivery.Turn.{drive_turn}

pub data QueueResult : Type 0 where
  queue_accepted : ℕ → QueueResult
  queue_not_ready queue_packet_bounds queue_full : QueueResult
  -- `fragmentPacket` threw.
  queue_threw : QueueResult

abbrev pub same_class : TrafficClass → TrafficClass → Bool
same_class class_control class_control = true
same_class class_heartbeat class_heartbeat = true
same_class class_ordinary class_ordinary = true
same_class _ _ = false

-- `equal` of two byte strings.
abbrev pub equal : List ℕ → List ℕ → Bool
equal [] [] = true
equal [] (y ∷ ys) = false
equal (x ∷ xs) [] = false
equal (x ∷ xs) (y ∷ ys) = let rest = equal xs ys in (x == y) && rest

-- The packet that is active or queued and is the same, if there is one.
abbrev pub find_pending : List ℕ → TrafficClass → List PendingPacket → Option PendingPacket
find_pending packet class [] = none
find_pending packet class (p ∷ ps) =
    let rest = find_pending packet class ps in
    if same_class p.traffic_class class && equal p.packet packet then some p else rest

abbrev pub to_list : Option PendingPacket → List PendingPacket
to_list none = []
to_list (some p) = p ∷ []

abbrev pub sender_of : AcousticRole → Fas1Sender
sender_of role_a = sender_a
sender_of role_b = sender_b

-- `nextPacketId`
abbrev pub following_id : ℕ → ℕ
following_id value = if value == 0xffff_ffff then 1 else value + 1

unfoldable pub push : TrafficClass → PendingPacket → Session → Session
push class_control p s = record s { control = s.control ++ (p ∷ []) }
push class_heartbeat p s = record s { heartbeat = s.heartbeat ++ (p ∷ []) }
push class_ordinary p s = record s { ordinary = s.ordinary ++ (p ∷ []) }

-- What `fragmentPacket` is given.
abbrev pub fragment_input : Surroundings → ℕ → List ℕ → Session → FragmentPacketInput
fragment_input around session_id packet s = record {
  packet = packet;
  session_id = session_id;
  sequence_start = s.sequence;
  packet_id = s.next_packet_id;
  sender = sender_of s.role;
  payload_bytes = some around.outbound_payload_bytes;
}

-- The new packet, once its fragments are made.
unfoldable pub queue_fragments :
    {E : Type 0}
    → Surroundings
    → List ℕ
    → TrafficClass
    → Session
    → Result E (List Fas1Unit)
    → QueueResult × Step
queue_fragments around packet class s (err e) =
    (queue_threw, (record s { next_packet_id = following_id s.next_packet_id }, []))
queue_fragments around packet class s (ok fragments) =
    let pending : PendingPacket = record {
      packet_id = s.next_packet_id;
      packet = packet;
      fragments = fragments;
      traffic_class = class;
      expires_at = around.now + max_packet_age_ms;
      attempts = 0;
      acknowledged = 0;
    } in
    let counted = record s {
      next_packet_id = following_id s.next_packet_id;
      sequence = s.sequence + length fragments;
    } in
    (queue_accepted s.next_packet_id, drive_turn around (push class pending counted))

unfoldable pub enqueue_new : Surroundings → ℕ → List ℕ → TrafficClass → Session → QueueResult × Step
enqueue_new around session_id packet class s =
    if leb max_queued_packets (queue_length s + present s.active)
    then (queue_full, (s, []))
    else queue_fragments around packet class s
        (fragment_packet (fragment_input around session_id packet s))

-- The packet that is already there, or a new one.
unfoldable pub enqueue_found :
    Surroundings → ℕ → List ℕ → TrafficClass → Option PendingPacket → Session → QueueResult × Step
enqueue_found around session_id packet class (some p) s =
    (queue_accepted p.packet_id, (record s { duplicates = s.duplicates + 1 }, []))
enqueue_found around session_id packet class none s = enqueue_new around session_id packet class s

-- The checks of a packet, after the old work has expired.
unfoldable pub enqueue_ready :
    Surroundings → List ℕ → TrafficClass → Option ℕ → Session → QueueResult × Step
enqueue_ready around packet class none s = (queue_not_ready, (s, []))
enqueue_ready around packet class (some session_id) s =
    let pending = to_list s.active ++ (s.control ++ (s.heartbeat ++ s.ordinary)) in
    let found =
      enqueue_found around session_id packet class (find_pending packet class pending) s in
    if not (is_state_ready s.state)
    then (queue_not_ready, (s, []))
    else if ltb (length packet) 1 || ltb 1357 (length packet)
    then (queue_packet_bounds, (s, []))
    else found

unfoldable pub enqueue_packet : Surroundings → List ℕ → TrafficClass → Session → QueueResult × Step
enqueue_packet around packet class s =
    let expired = expire_work around s in
    let queued = enqueue_ready around packet class expired.0.session_id expired.0 in
    (queued.0, (queued.1.0, expired.1 ++ queued.1.1))
