-- ===== src/Session/Delivery/Load.antt =====
-- How many packets wait or are under way: never more than 16.
use fipwave.Common.{
  ℕ, suc, ◌+◌, ◌≤◌, ◌≡◌, refl, arith, ltb, leb, ◌==◌, ◌!=◌, ◌||◌, not, Bool, true, false,
  Bool-cases, inl, inr, if◌then◌else◌, List, [], ◌∷◌, length, length-append, take, Option, none,
  some,
}
use fipwave.Fas1.{UnitType}
use fipwave.Session.{AcousticRole}
use fipwave.Session.Delivery.{
  Session, Surroundings, ◌then◌, TrafficClass, class_control, class_heartbeat, class_ordinary,
  PendingPacket, InboundAssembly, complement, is_state_ready, Reason, packet_expired,
  retry_exhausted, filter, present, queue_length, unfinished, degrade, expire_queues, expire_active,
  expire_inbound, expire_delivered, expire_work, send_control,
}
use fipwave.Session.Delivery.Turn.{
  dequeue, activate, unacknowledged, yield_turn, drive_packet, own_turn, owned_by, drive_turn,
  drive_ready, ack_timeout_of,
}
use fipwave.Session.Delivery.Enqueue.{push}

-- The packets that are queued or active.
unfoldable pub load : Session → ℕ
load s = queue_length s + present s.active

pub length-filter : {A : Type 0} (p : A → Bool) (xs : List A) → length (filter p xs) ≤ length xs
length-filter p [] = omega arith
length-filter p (x ∷ xs) = ground (arith, length-filter p xs)

pub degrade-load :
    (around : Surroundings) (r : Reason) (s : Session) → load (degrade around r s).0 ≡ load s
unfolding degrade load
degrade-load around r s = elim (Bool-cases (unfinished s.state)) [
  | inl e ↦ rw (e) refl
  | inr e ↦ rw (e) refl
]

-- Leaving the active packet out makes the load no greater.
without_active :
    (s : Session) (a : Bool) (d : ℕ)
    → load (record s { active = none; awaiting_ack = a; dropped = d }) ≤ load s
unfolding load
without_active s a d = omega arith

expire_queues-load : (now : ℕ) (s : Session) → load (expire_queues now s) ≤ load s
unfolding expire_queues load
expire_queues-load now s = omega (
  arith,
  length-filter (λ item. leb now item.expires_at) s.control,
  length-filter (λ item. leb now item.expires_at) s.heartbeat,
  length-filter (λ item. leb now item.expires_at) s.ordinary,
)

expire_active-load :
    (around : Surroundings) (o : Option PendingPacket) (s : Session)
    → load (expire_active around o s).0 ≤ load s
unfolding expire_active
expire_active-load around none s = omega arith
expire_active-load around (some p) s = elim (Bool-cases (ltb p.expires_at around.now)) [
  | inl e ↦
      let less = record s { active = none; awaiting_ack = false; dropped = s.dropped + 1 } in
      rw (e) (
        omega
          (arith, degrade-load around packet_expired less, without_active s false (s.dropped + 1)))
  | inr e ↦ rw (e) (omega arith)
]

expire_inbound-load :
    (now : ℕ) (o : Option InboundAssembly) (s : Session) → load (expire_inbound now o s) ≡ load s
unfolding expire_inbound load
expire_inbound-load now none s = refl
expire_inbound-load now (some a) s = elim (Bool-cases (ltb a.expires_at now)) [
  | inl e ↦ rw (e) refl
  | inr e ↦ rw (e) refl
]

expire_delivered-load : (now : ℕ) (s : Session) → load (expire_delivered now s) ≡ load s
unfolding expire_delivered load
expire_delivered-load now s = refl

pub expire_work-load :
    (around : Surroundings) (s : Session) → load (expire_work around s).0 ≤ load s
unfolding expire_work
expire_work-load around s =
    let queues = expire_queues around.now s in
    let expired = (expire_active around queues.active queues).0 in
    let inbound = expire_inbound around.now expired.inbound expired in
    omega (
      arith,
      expire_queues-load around.now s,
      expire_active-load around queues.active queues,
      expire_inbound-load around.now expired.inbound expired,
      expire_delivered-load around.now inbound,
    )

dequeue_lem :
    (c h o : List PendingPacket) (s : Session)
    → length c ≡ length s.control
    → length h ≡ length s.heartbeat
    → length o ≡ length s.ordinary
    → load (let r = dequeue c h o s in record r.1 { active = r.0 }) ≤ load s
unfolding dequeue load
dequeue_lem (p ∷ ps) h o s ec eh eo = omega arith
dequeue_lem [] (p ∷ ps) o s ec eh eo = omega arith
dequeue_lem [] [] (p ∷ ps) s ec eh eo = omega arith
dequeue_lem [] [] [] s ec eh eo = omega arith

activate-load : (o : Option PendingPacket) (s : Session) → load (activate o s) ≤ load s
unfolding activate
activate-load (some p) s = omega arith
activate-load none s = dequeue_lem s.control s.heartbeat s.ordinary s refl refl refl

pub send_control-load :
    (t : UnitType) (id : ℕ) (s : Session) → load (send_control t id s).0 ≡ load s
unfolding send_control load
send_control-load t id s = refl

pub yield_turn-load : (id : ℕ) (s : Session) → load (yield_turn id s).0 ≡ load s
unfolding yield_turn send_control load
yield_turn-load id s = refl

-- The active packet, in another attempt or with other bits.
with_active :
    (s : Session) (p : PendingPacket)
    → present s.active ≡ 1
    → load (record s { active = some p }) ≡ load s
unfolding load
with_active s p h = omega arith

-- The load does not read the rest of a turn's state.
dropped_active : (s : Session) (d : ℕ) → load (record s { active = none; dropped = d }) ≤ load s
unfolding load
dropped_active s d = omega arith

yielded_active :
    (s : Session) (o : Option AcousticRole)
    → load (record s { active = none; turn_owner = o }) ≤ load s
unfolding load
yielded_active s o = omega arith

sent_active :
    (s : Session) (p : PendingPacket) (a : Bool)
    → present s.active ≡ 1
    → load (record s { active = some p; awaiting_ack = a }) ≤ load s
unfolding load
sent_active s p a h = omega arith

drive_packet-load :
    (around : Surroundings) (id : ℕ) (p : PendingPacket) (s : Session)
    → present s.active ≡ 1
    → load (drive_packet around id p s).0 ≤ load s
unfolding drive_packet
drive_packet-load around id p s h = elim (Bool-cases (leb 3 p.attempts)) [
  | inl e ↦ rw (e) (
      omega (
        arith,
        degrade-load around retry_exhausted (record s { active = none; dropped = s.dropped + 1 }),
        dropped_active s (s.dropped + 1),
      ))
  | inr e ↦ elim (Bool-cases (length (take 4 (unacknowledged p)) == 0)) [
    | inl f ↦ rw (e, f) (yielded_active s (some (complement s.role)))
    | inr f ↦
        let tried = record p { attempts = p.attempts + 1 } in
        rw (e, f)
          (omega (
            arith,
            send_control-load UnitType.turn_end id
                (record s { active = some tried; awaiting_ack = true }),
            sent_active s tried true h,
          ))
  ]
]

idle_turn-load :
    (id : ℕ) (due : Bool) (s : Session)
    → load
        (if due
          then send_control UnitType.heartbeat id (record s { heartbeat_due = false })
          then yield_turn id
          else yield_turn id s).0
      ≤ load s
unfolding send_control yield_turn load
idle_turn-load id true s = omega arith
idle_turn-load id false s = omega arith

own_turn-load :
    (around : Surroundings) (id : ℕ) (o : Option PendingPacket) (s : Session)
    → present s.active ≡ present o
    → load (own_turn around id o s).0 ≤ load s
unfolding own_turn
own_turn-load around id (some p) s h = drive_packet-load around id p s h
own_turn-load around id none s h = idle_turn-load id s.heartbeat_due s

drive_ready-load :
    (around : Surroundings) (o : Option ℕ) (s : Session) → load (drive_ready around o s).0 ≤ load s
unfolding drive_ready
drive_ready-load around none s = omega arith
drive_ready-load around (some id) s =
    let chosen = activate s.active s in
    let busy =
      not (is_state_ready s.state) || not (owned_by s.turn_owner s.role) || s.awaiting_ack in
    elim (Bool-cases busy) [
      | inl e ↦ rw (e) (omega arith)
      | inr e ↦ rw (e) (
          omega
            (arith, own_turn-load around id chosen.active chosen refl, activate-load s.active s))
    ]

pub drive_turn-load : (around : Surroundings) (s : Session) → load (drive_turn around s).0 ≤ load s
unfolding drive_turn
drive_turn-load around s =
    let expired = (expire_work around s).0 in
    omega (arith, drive_ready-load around expired.session_id expired, expire_work-load around s)

-- The same load, with the acknowledgement no longer awaited.
retried : (s : Session) (n : ℕ) → load (record s { awaiting_ack = false; retries = n }) ≡ load s
unfolding load
retried s n = refl

pub ack_timeout-load :
    (around : Surroundings) (i n : ℕ) (o : Option PendingPacket) (s : Session)
    → load (ack_timeout_of around i n o s).0 ≤ load s
unfolding ack_timeout_of
ack_timeout-load around i n none s = omega arith
ack_timeout-load around i n (some p) s =
    elim (Bool-cases (not s.awaiting_ack || (p.packet_id != i) || (p.attempts != n))) [
      | inl e ↦ rw (e) (omega arith)
      | inr e ↦ rw (e) (
          omega (
            arith,
            drive_turn-load around (record s { awaiting_ack = false; retries = s.retries + 1 }),
            retried s (s.retries + 1),
          ))
    ]

pub push-load :
    (c : TrafficClass) (p : PendingPacket) (s : Session) → load (push c p s) ≡ suc (load s)
unfolding push load
push-load class_control p s = omega (arith, length-append s.control (p ∷ []))
push-load class_heartbeat p s = omega (arith, length-append s.heartbeat (p ∷ []))
push-load class_ordinary p s = omega (arith, length-append s.ordinary (p ∷ []))
