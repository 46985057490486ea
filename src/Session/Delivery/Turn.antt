-- ===== src/Session/Delivery/Turn.antt =====
-- `driveTurn`, `onAckTimeout`, `onAck` and the timeout that `driveTurn` arms. A session
-- number of the source is never zero, so one that is there is taken for true.
use fipwave.Common.{
  ℕ, ◌+◌, ◌-◌, ◌/◌, ◌^◌, leb, ◌==◌, ◌!=◌, ◌||◌, ◌&&◌, not, Bool, true, false, if◌then◌else◌, List,
  [], ◌∷◌, ◌++◌, length, take, Option, none, some, map,
}
use fipwave.Fas1.{Fas1Unit, UnitType}
use fipwave.Session.{AcousticRole, role_a, role_b}
use fipwave.Session.Delivery.{
  Session, Surroundings, Step, ◌then◌, PendingPacket, apply_candidate, clear_delivery_timer,
  schedule, send_unit, after_playback, task_drive_turn, task_ack_timeout, retry_exhausted,
  max_attempts, window_size, complement, is_state_ready, filter, degrade, expire_work, send_control,
}
use Prim.Native.Nat.{bit_and, bit_or}

abbrev pub same_role : AcousticRole → AcousticRole → Bool
same_role role_a role_a = true
same_role role_b role_b = true
same_role role_a role_b = false
same_role role_b role_a = false

abbrev pub owned_by : Option AcousticRole → AcousticRole → Bool
owned_by none role = false
owned_by (some owner) role = same_role owner role

-- `dequeue`: the first packet of the first queue that has one.
unfoldable pub dequeue :
    List PendingPacket
    → List PendingPacket
    → List PendingPacket
    → Session
    → Option PendingPacket × Session
dequeue (p ∷ ps) hs os s = (some p, record s { control = ps })
dequeue [] (p ∷ ps) os s = (some p, record s { heartbeat = ps })
dequeue [] [] (p ∷ ps) s = (some p, record s { ordinary = ps })
dequeue [] [] [] s = (none, s)

-- `#active ??= dequeue()`
unfoldable pub activate : Option PendingPacket → Session → Session
activate (some p) s = s
activate none s = let r = dequeue s.control s.heartbeat s.ordinary s in record r.1 { active = r.0 }

abbrev pub unacknowledged : PendingPacket → List Fas1Unit
unacknowledged p =
    filter (λ (unit : Fas1Unit). bit_and p.acknowledged (2 ^ unit.fragment_index) == 0) p.fragments

-- The end of a turn: TURN_END, and the other side owns the next one.
unfoldable pub yield_turn : ℕ → Session → Step
yield_turn session_id s =
    let sent = send_control UnitType.turn_end session_id s in
    (record sent.0 { turn_owner = some (complement s.role) }, sent.1)

-- A turn with a packet.
unfoldable pub drive_packet : Surroundings → ℕ → PendingPacket → Session → Step
drive_packet around session_id p s =
    let missing = take window_size (unacknowledged p) in
    let tried = record p { attempts = p.attempts + 1 } in
    let sent =
      send_control UnitType.turn_end session_id
        (record s { active = some tried; awaiting_ack = true }) in
    let exhausted =
      degrade around retry_exhausted (record s { active = none; dropped = s.dropped + 1 }) in
    if leb max_attempts p.attempts
    then exhausted
    else if length missing == 0
    then (
      record s { active = none; turn_owner = some (complement s.role) },
      schedule task_drive_turn around.guard_ms ∷ [],
    )
    else (
      sent.0,
      map send_unit missing ++ (sent.1 ++ after_playback p.packet_id tried.attempts ∷ []),
    )

-- A turn of the owner, with the packet that is active, if there is one.
unfoldable pub own_turn : Surroundings → ℕ → Option PendingPacket → Session → Step
own_turn around session_id (some p) s = drive_packet around session_id p s
own_turn around session_id none s =
    if s.heartbeat_due
    then send_control UnitType.heartbeat session_id (record s { heartbeat_due = false })
    then yield_turn session_id
    else yield_turn session_id s

-- The rest of `driveTurn`, after the old work has expired.
unfoldable pub drive_ready : Surroundings → Option ℕ → Session → Step
drive_ready around none s = (s, [])
drive_ready around (some session_id) s =
    let chosen = activate s.active s in
    let turn = own_turn around session_id chosen.active chosen in
    if not (is_state_ready s.state) || not (owned_by s.turn_owner s.role) || s.awaiting_ack
    then (s, [])
    else (turn.0, apply_candidate ∷ turn.1)

unfoldable pub drive_turn : Surroundings → Session → Step
drive_turn around s =
    let expired = expire_work around s in
    let driven = drive_ready around expired.0.session_id expired.0 in
    (driven.0, expired.1 ++ driven.1)

-- `armTimeout`, when the burst has been played: the packet and the attempt are still those.
unfoldable pub arm_timeout : Surroundings → ℕ → ℕ → Session → Step
arm_timeout around packet_id attempt s = elim s.active [
  | none ↦ (s, [])
  | some p ↦
      if is_state_ready s.state
        && owned_by s.turn_owner s.role
        && s.awaiting_ack
        && (p.packet_id == packet_id)
        && (p.attempts == attempt)
      then (s, schedule (task_ack_timeout packet_id attempt) around.ack_timeout_ms ∷ [])
      else (s, [])
]

unfoldable pub ack_timeout_of : Surroundings → ℕ → ℕ → Option PendingPacket → Session → Step
ack_timeout_of around packet_id attempt none s = (s, [])
ack_timeout_of around packet_id attempt (some p) s =
    let again = drive_turn around (record s { awaiting_ack = false; retries = s.retries + 1 }) in
    if not s.awaiting_ack || (p.packet_id != packet_id) || (p.attempts != attempt)
    then (s, [])
    else again

unfoldable pub on_ack_timeout : Surroundings → ℕ → ℕ → Session → Step
on_ack_timeout around packet_id attempt s = ack_timeout_of around packet_id attempt s.active s

-- The acknowledgement of the active packet, with the bits that were new.
unfoldable pub acknowledge : Surroundings → ℕ → PendingPacket → ℕ → Session → Step
acknowledge around session_id p bitmap s =
    let legal_mask = 2 ^ length p.fragments - 1 in
    let merged = bit_or p.acknowledged bitmap in
    let attempts = if merged != p.acknowledged then 0 else p.attempts in
    let updated = record p { acknowledged = merged; attempts = attempts } in
    let finished = yield_turn session_id (record s { active = none; awaiting_ack = false }) in
    if bitmap / 2 ^ length p.fragments != 0
    then (s, [])
    else if (merged == p.acknowledged) && (merged != legal_mask)
    then (record s { active = some updated; duplicates = s.duplicates + 1 }, [])
    else if merged == legal_mask
    then (finished.0, clear_delivery_timer ∷ finished.1)
    else (
      record s {
        active = some updated;
        awaiting_ack = false;
        retries = s.retries + 1;
        turn_owner = some s.role;
      },
      clear_delivery_timer ∷ schedule task_drive_turn around.guard_ms ∷ [],
    )

abbrev pub is_session : Option ℕ → ℕ → Bool
is_session none id = false
is_session (some own) id = own == id

unfoldable pub ack_of : Surroundings → ℕ → ℕ → ℕ → Option PendingPacket → Session → Step
ack_of around session_id packet_id bitmap none s = (s, [])
ack_of around session_id packet_id bitmap (some p) s =
    let acknowledged = acknowledge around session_id p bitmap s in
    if not (is_state_ready s.state)
      || not (is_session s.session_id session_id)
      || not s.awaiting_ack
      || (packet_id != p.packet_id)
    then (s, [])
    else acknowledged

unfoldable pub on_ack : Surroundings → ℕ → ℕ → ℕ → Session → Step
on_ack around session_id packet_id bitmap s = ack_of around session_id packet_id bitmap s.active s
