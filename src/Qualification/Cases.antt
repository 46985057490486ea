-- ===== src/Qualification/Cases.antt =====
-- The methods of `CyrinxQualificationSession` about its cases.
use fipwave.Common.{
  ℕ, ◌+◌, ◌-◌, leb, ◌==◌, Bool, true, false, not, ◌&&◌, ◌||◌, if◌then◌else◌, List, length,
  get_elem?, Option, none, some, ok,
}
use fipwave.Common.Texts.{same_text}
use fipwave.Qualification.{
  LiteralDirection, CyrinxStage, stage_build, stage_digital, stage_complete, stage_quiet,
  stage_unqualified, codec_unqualified, FallbackState, fallback_activated, fallback_failed,
  InstructionAction, listen, QualificationCase, Accepted, QualificationSession, stage_order_invalid,
  instruction_unavailable, completion_not_acknowledged, instruction_already_accepted,
  instruction_mismatch, instruction_not_accepted, instruction_mode_mismatch, completion_not_pending,
  cyrinx_transmit_settle_ms, Method, and_then, ◌>>=◌, ◌>>◌, pure, reject_if, get_session,
  put_session, required,
}
use fipwave.Qualification.Runner.{
  is_some, is_cyrinx, is_terminal, is_idle, checked_now, same_direction, action_for, same_mode,
  stage_for_case, failure_reason_for_stage, is_over, elapsed, fail_current, assert_before_deadline,
}
use Prim.Native.String.{String}

abbrev pub assert_stage : Bool → Method (Unit {0})
assert_stage is_expected = reject_if (not is_expected) stage_order_invalid

abbrev pub is_build : CyrinxStage → Bool
is_build stage_build = true
is_build stage = false

abbrev pub is_digital : CyrinxStage → Bool
is_digital stage_digital = true
is_digital stage = false

unfoldable pub complete_build : ℕ → Method (Unit {0})
complete_build now_ms = do
  s ← get_session
  assert_stage (is_build s.stage)
  assert_before_deadline now_ms
  t ← get_session
  put_session (record t { stage = stage_digital })

unfoldable pub complete_digital : ℕ → Method (Unit {0})
complete_digital now_ms = do
  s ← get_session
  assert_stage (is_digital s.stage)
  assert_before_deadline now_ms
  t ← get_session
  put_session (record t { case_index = some 0; stage = stage_for_case 0 })

abbrev pub current_case : List QualificationCase → Option ℕ → Option QualificationCase
current_case cases none = none
current_case cases (some index) = get_elem? cases index

unfoldable pub accept_case :
    String → LiteralDirection → ℕ → QualificationCase → ℕ → Method InstructionAction
accept_case case_id direction now_ms value index = do
  s ← get_session
  reject_if (is_some s.pending_completion_reason) completion_not_acknowledged
  reject_if (is_some s.accepted) instruction_already_accepted
  reject_if (not (same_text case_id value.id) || not (same_direction direction value.direction))
      instruction_mismatch
  now ← checked_now now_ms
  put_session (record s {
    accepted = some (record {
      case_index = index;
      mode = action_for s.role value.direction;
      accepted_at_ms = now;
    });
  })
  pure (action_for s.role value.direction)

unfoldable pub accept_instruction :
    List QualificationCase → String → LiteralDirection → ℕ → Method InstructionAction
accept_instruction cases case_id direction now_ms = do
  assert_before_deadline now_ms
  s ← get_session
  value ← required (current_case cases s.case_index) instruction_unavailable
  index ← required s.case_index instruction_unavailable
  reject_if (is_terminal s.stage) instruction_unavailable
  accept_case case_id direction now_ms value index

abbrev pub is_index : Option ℕ → ℕ → Bool
is_index none i = false
is_index (some j) i = i == j

-- `#accepted`, if it is of the current case and of the mode.
abbrev pub the_accepted : InstructionAction → Method Accepted
the_accepted mode s = and_then (required s.accepted instruction_not_accepted s) (λ a. do
  reject_if (not (is_index s.case_index a.case_index)) instruction_not_accepted
  reject_if (not (same_mode a.mode mode)) instruction_mode_mismatch
  pure a)

unfoldable pub can_receive_capture : QualificationSession → Bool
can_receive_capture s = elim s.accepted [
  | none ↦ false
  | some a ↦
      same_mode a.mode listen && (is_index s.case_index a.case_index && not (is_terminal s.stage))
]

unfoldable pub case_settle_remaining : InstructionAction → ℕ → Method ℕ
case_settle_remaining mode now_ms = do
  a ← the_accepted mode
  now ← checked_now now_ms
  pure (cyrinx_transmit_settle_ms - (now - a.accepted_at_ms))

abbrev pub passes_cold : InstructionAction → Bool → Bool → Bool
passes_cold listen true passed = true
passes_cold mode cold passed = passed

-- The next case, or the end.
unfoldable pub advance : List QualificationCase → ℕ → ℕ → Method (Unit {0})
advance cases next_index now_ms s =
    let finished =
      and_then (elapsed now_ms (record s { case_index = none; stage = stage_complete }))
        (λ e t. (ok tt, record t { terminal_elapsed_ms = some e })) in
    if leb (length cases) next_index
    then finished
    else (ok tt, record s { case_index = some next_index; stage = stage_for_case next_index })

unfoldable pub complete_accepted :
    List QualificationCase → InstructionAction → ℕ → Method (Unit {0})
complete_accepted cases mode now_ms = do
  assert_before_deadline now_ms
  s ← get_session
  reject_if (is_some s.pending_completion_reason) completion_not_acknowledged
  a ← the_accepted mode
  value ← required (current_case cases s.case_index) instruction_unavailable
  reason ← failure_reason_for_stage s.stage
  put_session (record s {
    pending_completion_reason = some reason;
    cold_receive_passed = passes_cold mode value.cold s.cold_receive_passed;
    accepted = none;
  })
  advance cases (a.case_index + 1) now_ms

unfoldable pub acknowledge_accepted_completion : Method (Unit {0})
acknowledge_accepted_completion = do
  s ← get_session
  reject_if (not (is_some s.pending_completion_reason)) completion_not_pending
  put_session (record s { pending_completion_reason = none })

unfoldable pub abort_case : Method (Unit {0})
abort_case s = (ok tt, record s { accepted = none })

unfoldable pub operator_reset : ℕ → Method Bool
operator_reset now_ms s =
    let aborted = record s { accepted = none } in
    if not (is_cyrinx s.codec) || (is_idle s.stage || is_over s)
    then (ok false, aborted)
    else fail_current now_ms aborted

abbrev pub is_quiet : CyrinxStage → Bool
is_quiet stage_quiet = true
is_quiet stage = false

abbrev pub is_activated : FallbackState → Bool
is_activated fallback_activated = true
is_activated state = false

unfoldable pub mark_quiet_failed : Method Bool
mark_quiet_failed s =
    if is_quiet s.stage && is_activated s.fallback_state
    then (
      ok true,
      record s {
        codec = codec_unqualified;
        stage = stage_unqualified;
        fallback_state = fallback_failed;
      },
    )
    else (ok false, s)
