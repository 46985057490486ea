-- ===== src/Session/Delivery/Recovery.antt =====
-- The rest of what a session does once it is ready: `heartbeat`, `markHeartbeatMissed`,
-- `beginRecovery`, `onHeartbeat`, `restartSession`, `onReset`, and the `reset` and `start` that a
-- restart makes. What `reset` and `start` do to the handshake and the calibration is not in the state.
use fipwave.Common.{
  ℕ, ◌+◌, ◌-◌, leb, ltb, ◌==◌, ◌!=◌, ◌||◌, ◌&&◌, not, Bool, true, false, if◌then◌else◌, List, [],
  ◌∷◌, ◌++◌, length, Option, none, some,
}
use fipwave.Fas1.{UnitType}
use fipwave.Session.{AcousticRole, role_a, role_b}
use fipwave.Session.Delivery.{
  AcousticSessionState, idle, listening, hello_sent, awaiting_heartbeat, state_ready, degraded,
  recovering, Session, Surroundings, Step, heartbeat_missed, clear_delivery_timer,
  clear_heartbeat_timers, arm_heartbeat_timers, clear_commit_retry, clear_handshake_timers,
  schedule, send_unit, after_recovery_heartbeat, after_reset, task_begin_recovery,
  task_heartbeat_missed, task_reply_heartbeat, max_attempts, is_state_ready, filter, control_unit,
  send_control,
}
use fipwave.Session.Delivery.Turn.{same_role, is_session, drive_turn}

abbrev pub is_recovering : AcousticSessionState → Bool
is_recovering recovering = true
is_recovering _ = false

abbrev pub is_degraded : AcousticSessionState → Bool
is_degraded degraded = true
is_degraded _ = false

abbrev pub is_awaiting : AcousticSessionState → Bool
is_awaiting awaiting_heartbeat = true
is_awaiting _ = false

abbrev pub is_state_idle : AcousticSessionState → Bool
is_state_idle idle = true
is_state_idle _ = false

-- The state in which a role waits for a session.
abbrev pub initial_state : AcousticRole → AcousticSessionState
initial_state role_a = idle
initial_state role_b = listening

abbrev pub max_retired : ℕ
max_retired = 8

-- The set without its oldest members, of the given number, that are too many.
abbrev pub drop_oldest : ℕ → List ℕ → List ℕ
drop_oldest n [] = []
drop_oldest n (x ∷ xs) =
    let rest = drop_oldest (n - 1) xs in if ltb max_retired n then rest else x ∷ xs

-- A set keeps the place of a member that is added again.
abbrev pub retire : ℕ → List ℕ → List ℕ
retire id ids =
    let kept = if leb 1 (length (filter (λ n. n == id) ids)) then ids else ids ++ (id ∷ []) in
    drop_oldest (length kept) kept

unfoldable pub retired_after : ℕ → Option ℕ → Session → List ℕ
retired_after epoch none s = if epoch != s.epoch then [] else s.retired_session_ids
retired_after epoch (some id) s = if epoch != s.epoch then [] else retire id s.retired_session_ids

-- `reset`, for an epoch that is a number of 32 bits.
unfoldable pub reset : ℕ → Session → Step
reset epoch s = (
  record s {
    state = initial_state s.role;
    epoch = epoch;
    session_id = none;
    retired_session_ids = retired_after epoch s.session_id s;
    generation = s.generation + 1;
    recovery_attempts = 0;
    turn_owner = none;
    sequence = 1;
    control = [];
    heartbeat = [];
    ordinary = [];
    active = none;
    inbound = none;
    last_ack = none;
    delivered = [];
    heartbeat_due = false;
    awaiting_ack = false;
    reason = none;
  },
  clear_handshake_timers ∷ clear_delivery_timer ∷ clear_heartbeat_timers ∷ [],
)

-- `start`, with the session number that the nonce gives and the body of HELLO.
unfoldable pub start_session : ℕ → List ℕ → Session → Step
start_session id body s =
    if not (same_role s.role role_a) || not (is_state_idle s.state) then (s, []) else (
      record s { session_id = some id; state = hello_sent; sequence = s.sequence + 1 },
      send_unit (record (control_unit s UnitType.hello 0) { body = body }) ∷ [],
    )

-- The reset to the same epoch, after which role A starts again.
unfoldable pub start_over : ℕ → List ℕ → Session → Step
start_over id body s =
    let again = reset s.epoch s in
    let started = start_session id body again.0 in
    if same_role s.role role_a then (started.0, again.1 ++ started.1) else again

-- `restart`, when RESET has been played.
unfoldable pub restart : ℕ → ℕ → ℕ → List ℕ → Session → Step
restart epoch session_id id body s =
    let over = start_over id body s in
    if (epoch != s.epoch) || not (is_session s.session_id session_id) then (s, []) else over

-- `restartSession`: role A tells the other side first.
unfoldable pub restart_session : Option ℕ → ℕ → List ℕ → Session → Step
restart_session none id body s = start_over id body s
restart_session (some session_id) id body s =
    let sent = send_control UnitType.reset session_id s in
    let over = start_over id body s in
    if same_role s.role role_a
    then (sent.0, sent.1 ++ (after_reset s.epoch session_id ∷ []))
    else over

unfoldable pub on_reset : ℕ → ℕ → List ℕ → Session → Step
on_reset session_id id body s =
    let over = start_over id body s in if is_session s.session_id session_id then over else (s, [])

unfoldable pub heartbeat_of : Surroundings → Option ℕ → Session → Bool × Step
heartbeat_of around none s = (false, (s, []))
heartbeat_of around (some id) s =
    let driven = drive_turn around (record s { heartbeat_due = true }) in
    if is_state_ready s.state then (true, driven) else (false, (s, []))

-- `heartbeat`
unfoldable pub request_heartbeat : Surroundings → Session → Bool × Step
request_heartbeat around s = heartbeat_of around s.session_id s

unfoldable pub mark_heartbeat_missed : Surroundings → Session → Step
mark_heartbeat_missed around s =
    if is_state_ready s.state || is_recovering s.state
    then (
      record s { awaiting_ack = false; state = degraded; reason = some heartbeat_missed },
      clear_delivery_timer
          ∷ clear_heartbeat_timers
          ∷ schedule task_begin_recovery around.guard_ms
          ∷ [],
    )
    else (s, [])

-- An attempt to recover: role A sends a heartbeat, role B waits for one.
unfoldable pub attempt_recovery : Surroundings → ℕ → Session → Step
attempt_recovery around session_id s =
    let sent = send_control UnitType.heartbeat session_id s in
    if same_role s.role role_a
    then (sent.0, sent.1 ++ (after_recovery_heartbeat s.generation session_id ∷ []))
    else (s, schedule task_heartbeat_missed around.ack_timeout_ms ∷ [])

unfoldable pub recovery_of : Surroundings → Option ℕ → ℕ → List ℕ → Session → Step
recovery_of around none id body s = (s, [])
recovery_of around (some session_id) id body s =
    let restarted = restart_session (some session_id) id body s in
    let attempted = attempt_recovery around session_id (record s {
      recovery_attempts = s.recovery_attempts + 1;
      retries = s.retries + 1;
      state = recovering;
      reason = none;
    }) in
    if not (is_degraded s.state)
    then (s, [])
    else if leb max_attempts s.recovery_attempts
    then restarted
    else attempted

unfoldable pub begin_recovery : Surroundings → ℕ → List ℕ → Session → Step
begin_recovery around id body s = recovery_of around s.session_id id body s

-- `armTimeout` of `beginRecovery`, when the heartbeat has been played.
unfoldable pub arm_recovery : Surroundings → ℕ → ℕ → Session → Step
arm_recovery around generation session_id s =
    if (generation == s.generation) && is_session s.session_id session_id && is_recovering s.state
    then (s, schedule task_heartbeat_missed around.ack_timeout_ms ∷ [])
    else (s, [])

-- The scheduled answer of role B in a recovery.
unfoldable pub reply_heartbeat : ℕ → Session → Step
reply_heartbeat session_id s =
    let sent = send_control UnitType.heartbeat session_id s in
    if is_state_ready s.state && is_session s.session_id session_id then sent else (s, [])

-- How role B answers: after the guard in a recovery, at once otherwise.
unfoldable pub answer_heartbeat : Surroundings → Bool → Bool → ℕ → Session → Step
answer_heartbeat around reply recovery session_id s =
    let sent = send_control UnitType.heartbeat session_id s in
    if not reply || same_role s.role role_a
    then (s, [])
    else if recovery
    then (s, schedule (task_reply_heartbeat session_id) around.guard_ms ∷ [])
    else sent

unfoldable pub on_heartbeat : Surroundings → ℕ → Session → Step
on_heartbeat around session_id s =
    let recovery = is_degraded s.state || is_recovering s.state in
    let reply = is_awaiting s.state || (recovery && same_role s.role role_b) in
    let answered =
      answer_heartbeat around reply recovery session_id
        (record s { state = state_ready; recovery_attempts = 0 }) in
    let owner = if reply || recovery then some role_a else s.turn_owner in
    let cleared =
      if same_role s.role role_b
      then clear_commit_retry ∷ clear_delivery_timer ∷ arm_heartbeat_timers ∷ []
      else clear_delivery_timer ∷ arm_heartbeat_timers ∷ [] in
    if not (is_session s.session_id session_id)
      || not (is_awaiting s.state || is_state_ready s.state || recovery)
    then (s, [])
    else (record answered.0 { turn_owner = owner }, cleared ++ answered.1)
