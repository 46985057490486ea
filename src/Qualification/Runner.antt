-- ===== src/Qualification/Runner.antt =====
-- The methods of `CyrinxQualificationSession`.
use fipwave.Common.{
  ℕ, ◌+◌, ◌-◌, ltb, leb, ◌==◌, Bool, true, false, not, ◌&&◌, ◌||◌, if◌then◌else◌, Option, none,
  some, ok,
}
use fipwave.Qualification.{
  RunnerRole, runner_a, runner_b, LiteralDirection, a_to_b, b_to_a, CyrinxStage, stage_idle,
  stage_build, stage_digital, stage_cold_a_to_b, stage_cold_b_to_a, stage_corpus, stage_complete,
  stage_quiet, stage_unqualified, CyrinxSessionCodec, codec_idle, codec_cyrinx, codec_quiet,
  CyrinxFallbackReason, cyrinx_build_failed, cyrinx_digital_roundtrip_failed,
  cyrinx_cold_a_to_b_failed, cyrinx_cold_b_to_a_failed, cyrinx_corpus_failed,
  cyrinx_deadline_expired, fallback_available, fallback_activated, InstructionAction, transmit,
  listen, QualificationSession, clock_invalid, stage_not_failable, deadline_expired,
  session_terminal, not_started, cyrinx_deadline_ms, max_safe_integer, Method, and_then, ◌>>=◌,
  ◌>>◌, pure, reject, reject_if, get_session, put_session, required,
}

abbrev pub max : ℕ → ℕ → ℕ
max a b = if ltb a b then b else a

abbrev pub or_zero : Option ℕ → ℕ
or_zero none = 0
or_zero (some n) = n

abbrev pub is_some : {A : Type 0} → Option A → Bool
is_some none = false
is_some (some a) = true

abbrev pub is_cyrinx : CyrinxSessionCodec → Bool
is_cyrinx codec_cyrinx = true
is_cyrinx codec = false

abbrev pub is_terminal : CyrinxStage → Bool
is_terminal stage_complete = true
is_terminal stage_quiet = true
is_terminal stage_unqualified = true
is_terminal stage = false

abbrev pub is_complete : CyrinxStage → Bool
is_complete stage_complete = true
is_complete stage = false

abbrev pub is_idle : CyrinxStage → Bool
is_idle stage_idle = true
is_idle stage = false

-- `checkedNow`
abbrev pub checked_now : ℕ → Method ℕ
checked_now now = if ltb max_safe_integer now then reject clock_invalid else pure now

abbrev pub local_direction : RunnerRole → LiteralDirection
local_direction runner_a = a_to_b
local_direction runner_b = b_to_a

abbrev pub same_direction : LiteralDirection → LiteralDirection → Bool
same_direction a_to_b a_to_b = true
same_direction b_to_a b_to_a = true
same_direction d e = false

abbrev pub action_for : RunnerRole → LiteralDirection → InstructionAction
action_for role direction =
    if same_direction direction (local_direction role) then transmit else listen

abbrev pub same_mode : InstructionAction → InstructionAction → Bool
same_mode transmit transmit = true
same_mode listen listen = true
same_mode m n = false

abbrev pub stage_for_case : ℕ → CyrinxStage
stage_for_case index =
    if index == 0 then stage_cold_a_to_b else if index == 1 then stage_cold_b_to_a else stage_corpus

abbrev pub failure_reason_for_stage : CyrinxStage → Method CyrinxFallbackReason
failure_reason_for_stage stage_build = pure cyrinx_build_failed
failure_reason_for_stage stage_digital = pure cyrinx_digital_roundtrip_failed
failure_reason_for_stage stage_cold_a_to_b = pure cyrinx_cold_a_to_b_failed
failure_reason_for_stage stage_cold_b_to_a = pure cyrinx_cold_b_to_a_failed
failure_reason_for_stage stage_corpus = pure cyrinx_corpus_failed
failure_reason_for_stage stage = reject stage_not_failable

abbrev pub new_session : RunnerRole → QualificationSession
new_session role = record {
  role = role;
  codec = codec_idle;
  stage = stage_idle;
  started_at_ms = none;
  deadline_at_ms = none;
  last_elapsed_ms = none;
  terminal_elapsed_ms = none;
  fallback_state = fallback_available;
  fallback_reason = none;
  case_index = none;
  accepted = none;
  pending_completion_reason = none;
  cold_receive_passed = false;
}

-- `revocableComplete`: the last completion can still be taken back.
abbrev pub revocable : QualificationSession → Bool
revocable s = is_complete s.stage && is_some s.pending_completion_reason

-- The session is over for good.
abbrev pub is_over : QualificationSession → Bool
is_over s = is_terminal s.stage && not (revocable s)

unfoldable pub elapsed : ℕ → Method ℕ
elapsed now_ms = do
  now ← checked_now now_ms
  s ← get_session
  started ← required s.started_at_ms not_started
  put_session
      (record s { last_elapsed_ms = some (max (or_zero s.last_elapsed_ms) (now - started)) })
  pure (max (or_zero s.last_elapsed_ms) (now - started))

abbrev pub terminal_elapsed : CyrinxFallbackReason → ℕ → ℕ
terminal_elapsed cyrinx_deadline_expired e = max cyrinx_deadline_ms e
terminal_elapsed reason e = e

-- `#activate`, past its guard.
unfoldable pub fall_back : CyrinxFallbackReason → ℕ → Method Bool
fall_back reason now_ms = do
  s ← get_session
  put_session (record s {
    fallback_reason = some reason;
    fallback_state = fallback_activated;
    codec = codec_quiet;
    stage = stage_quiet;
    accepted = none;
    pending_completion_reason = none;
  })
  e ← elapsed now_ms
  t ← get_session
  put_session (record t { terminal_elapsed_ms = some (terminal_elapsed reason e) })
  pure true

unfoldable pub activate : CyrinxFallbackReason → ℕ → Method Bool
activate reason now_ms s =
    if is_some s.fallback_reason || (is_over s || not (is_cyrinx s.codec))
    then (ok false, s)
    else fall_back reason now_ms s

unfoldable pub start : ℕ → Method Bool
start now_ms = do
  now ← checked_now now_ms
  s ← get_session
  if is_idle s.stage
      then put_session (record s {
        codec = codec_cyrinx;
        stage = stage_build;
        started_at_ms = some now_ms;
        deadline_at_ms = some (now_ms + cyrinx_deadline_ms);
        last_elapsed_ms = some 0;
      })
        >> pure true
      else pure false

-- `expire`, past its first guard.
unfoldable pub expire_at : ℕ → ℕ → Method Bool
expire_at deadline now_ms = do
  now ← checked_now now_ms
  e ← elapsed now
  if ltb now deadline && ltb e cyrinx_deadline_ms
      then pure false
      else activate cyrinx_deadline_expired now

abbrev pub running : Option ℕ → Option ℕ → Option ℕ
running none d = none
running (some started) d = d

abbrev pub expire_running : Option ℕ → ℕ → Method Bool
expire_running none now_ms s = (ok false, s)
expire_running (some deadline) now_ms s =
    if is_over s || not (is_cyrinx s.codec) then (ok false, s) else expire_at deadline now_ms s

unfoldable pub expire : ℕ → Method Bool
expire now_ms s = expire_running (running s.started_at_ms s.deadline_at_ms) now_ms s

unfoldable pub force_deadline_expiry : ℕ → Method Bool
force_deadline_expiry now_ms s =
    let forced = and_then (checked_now now_ms s) (activate cyrinx_deadline_expired) in
    if not (is_some s.started_at_ms) || (is_over s || not (is_cyrinx s.codec))
    then (ok false, s)
    else forced

abbrev pub past_deadline : Option ℕ → ℕ → ℕ → Bool
past_deadline none now e = false
past_deadline (some deadline) now e = leb deadline now || leb cyrinx_deadline_ms e

-- `activateFallback`, past its guard.
unfoldable pub activate_at : CyrinxFallbackReason → ℕ → Method Bool
activate_at reason now_ms = do
  now ← checked_now now_ms
  e ← elapsed now
  s ← get_session
  if past_deadline s.deadline_at_ms now e
      then activate cyrinx_deadline_expired now
      else activate reason now

unfoldable pub activate_fallback : CyrinxFallbackReason → ℕ → Method Bool
activate_fallback reason now_ms s =
    if not (is_some s.started_at_ms)
      || (is_over s || (not (is_cyrinx s.codec) || is_some s.fallback_reason))
    then (ok false, s)
    else activate_at reason now_ms s

abbrev pub reason_or_stage : Option CyrinxFallbackReason → CyrinxStage → Method CyrinxFallbackReason
reason_or_stage none stage = failure_reason_for_stage stage
reason_or_stage (some reason) stage = pure reason

unfoldable pub fail_current : ℕ → Method Bool
fail_current now_ms s =
    let failed =
      and_then (reason_or_stage s.pending_completion_reason s.stage s)
        (λ reason. activate_fallback reason now_ms) in
    if is_terminal s.stage && not (is_some s.pending_completion_reason)
    then (ok false, s)
    else failed

unfoldable pub assert_before_deadline : ℕ → Method (Unit {0})
assert_before_deadline now_ms = do
  expired ← expire now_ms
  reject_if expired deadline_expired
  s ← get_session
  reject_if (is_terminal s.stage || not (is_cyrinx s.codec)) session_terminal
