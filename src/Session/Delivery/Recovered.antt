-- ===== src/Session/Delivery/Recovered.antt =====
-- What a missed heartbeat, a recovery and a reset do to the packets of a session and to the numbers that it
-- remembers: they are kept, or all are dropped.
use fipwave.Common.{
  ℕ, ◌≤◌, ◌!=◌, ◌||◌, ◌&&◌, not, Bool, true, false, Bool-cases, inl, inr, if◌then◌else◌, arith,
  List, Option, none, some, leb,
}
use fipwave.Fas1.{UnitType}
use fipwave.Session.{AcousticRole, role_a}
use fipwave.Session.Delivery.{
  Session, Surroundings, Step, state_ready, max_attempts, is_state_ready, send_control,
}
use fipwave.Session.Delivery.Turn.{same_role, is_session}
use fipwave.Session.Delivery.Load.{load, drive_turn-load}
use fipwave.Session.Delivery.Remembered.{remembered, drive_turn-remembered}
use fipwave.Session.Delivery.Recovery.{
  is_recovering, is_degraded, is_state_idle, reset, start_session, start_over, restart,
  restart_session, on_reset, heartbeat_of, request_heartbeat, mark_heartbeat_missed,
  attempt_recovery, recovery_of, begin_recovery, arm_recovery, reply_heartbeat, answer_heartbeat,
  on_heartbeat,
}

-- The second session has no more packets and no more numbers.
pub record NoMore (s t : Session) : Type 0 where
  pub no_more_load : load t ≤ load s
  pub no_more_remembered : remembered t ≤ remembered s

if-NoMore :
    {s : Session} (b : Bool) (m n : Step)
    → NoMore s m.0
    → NoMore s n.0
    → NoMore s (if b then m else n).0
if-NoMore true m n h g = h
if-NoMore false m n h g = g

same : {s : Session} → NoMore s s
same = record { no_more_load = omega arith; no_more_remembered = omega arith }

through : {s t u : Session} → NoMore s t → NoMore t u → NoMore s u
through h g = record {
  no_more_load = omega (arith, h.no_more_load, g.no_more_load);
  no_more_remembered = omega (arith, h.no_more_remembered, g.no_more_remembered);
}

pub reset-NoMore : (epoch : ℕ) (s : Session) → NoMore s (reset epoch s).0
unfolding reset load remembered
reset-NoMore epoch s = record { no_more_load = omega arith; no_more_remembered = omega arith }

pub start_session-NoMore :
    (id : ℕ) (body : List ℕ) (s : Session) → NoMore s (start_session id body s).0
unfolding start_session load remembered
start_session-NoMore id body s =
    if-NoMore (not (same_role s.role role_a) || not (is_state_idle s.state)) _ _ same
      (record { no_more_load = omega arith; no_more_remembered = omega arith })

start_over-NoMore : (id : ℕ) (body : List ℕ) (s : Session) → NoMore s (start_over id body s).0
unfolding start_over
start_over-NoMore id body s =
    let again = reset-NoMore s.epoch s in
    if-NoMore (same_role s.role role_a) _ _ (through again (start_session-NoMore id body _)) again

pub restart-NoMore :
    (epoch session_id id : ℕ) (body : List ℕ) (s : Session)
    → NoMore s (restart epoch session_id id body s).0
unfolding restart
restart-NoMore epoch session_id id body s =
    if-NoMore ((epoch != s.epoch) || not (is_session s.session_id session_id)) _ _ same
      (start_over-NoMore id body s)

send_control-NoMore :
    (type : UnitType) (session_id : ℕ) (s : Session) → NoMore s (send_control type session_id s).0
unfolding send_control load remembered
send_control-NoMore type session_id s = record {
  no_more_load = omega arith;
  no_more_remembered = omega arith;
}

pub restart_session-NoMore :
    (o : Option ℕ) (id : ℕ) (body : List ℕ) (s : Session) → NoMore s (restart_session o id body s).0
unfolding restart_session
restart_session-NoMore none id body s = start_over-NoMore id body s
restart_session-NoMore (some session_id) id body s =
    if-NoMore (same_role s.role role_a) _ _ (send_control-NoMore _ session_id s)
      (start_over-NoMore id body s)

pub on_reset-NoMore :
    (session_id : ℕ) (id : ℕ) (body : List ℕ) (s : Session)
    → NoMore s (on_reset session_id id body s).0
unfolding on_reset
on_reset-NoMore session_id id body s =
    if-NoMore (is_session s.session_id session_id) _ _ (start_over-NoMore id body s) same

heartbeat_of-NoMore :
    (around : Surroundings) (o : Option ℕ) (s : Session) → NoMore s (heartbeat_of around o s).1.0
unfolding heartbeat_of load remembered
heartbeat_of-NoMore around none s = record {
  no_more_load = omega arith;
  no_more_remembered = omega arith;
}
heartbeat_of-NoMore around (some id) s =
    let due = record s { heartbeat_due = true } in
    elim (Bool-cases (is_state_ready s.state)) [
      | inl e ↦ rw (e) (record {
        no_more_load = drive_turn-load around due;
        no_more_remembered = drive_turn-remembered around due;
      })
      | inr e ↦ rw (e) (record { no_more_load = omega arith; no_more_remembered = omega arith })
    ]

pub request_heartbeat-NoMore :
    (around : Surroundings) (s : Session) → NoMore s (request_heartbeat around s).1.0
unfolding request_heartbeat
request_heartbeat-NoMore around s = heartbeat_of-NoMore around s.session_id s

pub mark_heartbeat_missed-NoMore :
    (around : Surroundings) (s : Session) → NoMore s (mark_heartbeat_missed around s).0
unfolding mark_heartbeat_missed load remembered
mark_heartbeat_missed-NoMore around s =
    if-NoMore (is_state_ready s.state || is_recovering s.state) _ _
      (record { no_more_load = omega arith; no_more_remembered = omega arith }) same

attempt_recovery-NoMore :
    (around : Surroundings) (session_id : ℕ) (s : Session)
    → NoMore s (attempt_recovery around session_id s).0
unfolding attempt_recovery
attempt_recovery-NoMore around session_id s =
    if-NoMore (same_role s.role role_a) _ _ (send_control-NoMore _ session_id s) same

recovery_of-NoMore :
    (around : Surroundings) (o : Option ℕ) (id : ℕ) (body : List ℕ) (s : Session)
    → NoMore s (recovery_of around o id body s).0
unfolding recovery_of load remembered
recovery_of-NoMore around none id body s = same
recovery_of-NoMore around (some session_id) id body s =
    if-NoMore (not (is_degraded s.state)) _ _ same (
      if-NoMore (leb max_attempts s.recovery_attempts) _ _
        (restart_session-NoMore (some session_id) id body s)
        (through (record { no_more_load = omega arith; no_more_remembered = omega arith })
          (attempt_recovery-NoMore around session_id _)))

pub begin_recovery-NoMore :
    (around : Surroundings) (id : ℕ) (body : List ℕ) (s : Session)
    → NoMore s (begin_recovery around id body s).0
unfolding begin_recovery
begin_recovery-NoMore around id body s = recovery_of-NoMore around s.session_id id body s

pub arm_recovery-NoMore :
    (around : Surroundings) (generation : ℕ) (session_id : ℕ) (s : Session)
    → NoMore s (arm_recovery around generation session_id s).0
unfolding arm_recovery
arm_recovery-NoMore around generation session_id s = if-NoMore _ _ _ same same

pub reply_heartbeat-NoMore :
    (session_id : ℕ) (s : Session) → NoMore s (reply_heartbeat session_id s).0
unfolding reply_heartbeat
reply_heartbeat-NoMore session_id s =
    if-NoMore (is_state_ready s.state && is_session s.session_id session_id) _ _
      (send_control-NoMore _ session_id s) same

answer_heartbeat-NoMore :
    (around : Surroundings) (reply recovery : Bool) (session_id : ℕ) (s : Session)
    → NoMore s (answer_heartbeat around reply recovery session_id s).0
unfolding answer_heartbeat
answer_heartbeat-NoMore around reply recovery session_id s =
    if-NoMore (not reply || same_role s.role role_a) _ _ same
      (if-NoMore recovery _ _ same (send_control-NoMore _ session_id s))

owner-NoMore :
    {s t : Session} (owner : Option AcousticRole)
    → NoMore s t
    → NoMore s (record t { turn_owner = owner })
unfolding load remembered
owner-NoMore owner h = record {
  no_more_load = h.no_more_load;
  no_more_remembered = h.no_more_remembered;
}

pub on_heartbeat-NoMore :
    (around : Surroundings) (session_id : ℕ) (s : Session)
    → NoMore s (on_heartbeat around session_id s).0
unfolding on_heartbeat load remembered
on_heartbeat-NoMore around session_id s =
    let ready = record s { state = state_ready; recovery_attempts = 0 } in
    if-NoMore _ _ _ same (
      through (record { no_more_load = omega arith; no_more_remembered = omega arith })
        (owner-NoMore _ (answer_heartbeat-NoMore around _ _ session_id ready)))
