-- ===== src/Qualification/States/Begun.antt =====
-- No method but `start` changes when a session began, or its deadline.
use fipwave.Common.{ℕ, ◌≡◌, refl, ap, ◌∙◌, arith, false, List, Option, none, some, Result, ok, err}
use fipwave.Qualification.{
  LiteralDirection, CyrinxStage, CyrinxFallbackReason, cyrinx_deadline_expired, InstructionAction,
  QualificationCase, QualificationSession, SessionError, Method, and_then, reject_if, required,
  instruction_unavailable, ◌>>=◌, ◌>>◌,
}
use fipwave.Qualification.Runner.{
  is_terminal, is_idle, start, failure_reason_for_stage, elapsed, fall_back, activate, expire_at,
  expire, force_deadline_expiry, activate_at, activate_fallback, reason_or_stage, fail_current,
  assert_before_deadline,
}
use fipwave.Qualification.Cases.{
  complete_build, complete_digital, current_case, accept_case, accept_instruction, advance,
  complete_accepted, acknowledge_accepted_completion, abort_case, operator_reset, mark_quiet_failed,
}
use fipwave.Qualification.Snapshot.{take_snapshot}
use fipwave.Qualification.States.{
  Call, call_start, call_complete_build, call_complete_digital, call_accept, call_complete,
  call_acknowledge, call_abort, call_quiet_failed, call_reset, call_expire, call_force, call_fail,
  call_snapshot, call_fallback, after,
}
use Prim.Native.String.{String}

-- When a session began, and its deadline.
abbrev pub Start : Type 0
Start = Option ℕ × Option ℕ

abbrev pub start_of : QualificationSession → Start
start_of s = (s.started_at_ms, s.deadline_at_ms)

elapsed_start : (now : ℕ) (s : QualificationSession) → start_of (elapsed now s).1 ≡ start_of s
unfolding elapsed
elapsed_start now s = ground arith

fall_back_start :
    (reason : CyrinxFallbackReason) (now : ℕ) (s : QualificationSession)
    → start_of (fall_back reason now s).1 ≡ start_of s
unfolding fall_back elapsed
fall_back_start reason now s = ground arith

activate_start :
    (reason : CyrinxFallbackReason) (now : ℕ) (s : QualificationSession)
    → start_of (activate reason now s).1 ≡ start_of s
unfolding activate
activate_start reason now s = ground (arith, fall_back_start reason now s)

expire_start : (now : ℕ) (s : QualificationSession) → start_of (expire now s).1 ≡ start_of s
unfolding expire expire_at
expire_start now s =
    ground
      (arith, elapsed_start now s, activate_start cyrinx_deadline_expired now (elapsed now s).1)

force_start :
    (now : ℕ) (s : QualificationSession) → start_of (force_deadline_expiry now s).1 ≡ start_of s
unfolding force_deadline_expiry
force_start now s = ground (arith, activate_start cyrinx_deadline_expired now s)

fallback_start :
    (reason : CyrinxFallbackReason) (now : ℕ) (s : QualificationSession)
    → start_of (activate_fallback reason now s).1 ≡ start_of s
unfolding activate_fallback activate_at
fallback_start reason now s = ground (
  arith,
  elapsed_start now s,
  activate_start cyrinx_deadline_expired now (elapsed now s).1,
  activate_start reason now (elapsed now s).1,
)

failure_reason_start :
    (stage : CyrinxStage) (s : QualificationSession) → (failure_reason_for_stage stage s).1 ≡ s
failure_reason_start stage s = ground arith

fail_with_start :
    (now : ℕ) (s : QualificationSession)
    (x : Result SessionError CyrinxFallbackReason × QualificationSession)
    → start_of x.1 ≡ start_of s
    → start_of (and_then x (λ reason. activate_fallback reason now)).1 ≡ start_of s
fail_with_start now s (ok reason, t) h = fallback_start reason now t ∙ h
fail_with_start now s (err e, t) h = h

reason_start :
    (pending : Option CyrinxFallbackReason) (stage : CyrinxStage) (s : QualificationSession)
    → start_of (reason_or_stage pending stage s).1 ≡ start_of s
reason_start none stage s = ap start_of (failure_reason_start stage s)
reason_start (some reason) stage s = refl

fail_current_start :
    (now : ℕ) (s : QualificationSession) → start_of (fail_current now s).1 ≡ start_of s
unfolding fail_current
fail_current_start now s = ground (
  arith,
  fail_with_start now s (reason_or_stage s.pending_completion_reason s.stage s)
      (reason_start s.pending_completion_reason s.stage s),
)

assert_start :
    (now : ℕ) (s : QualificationSession) → start_of (assert_before_deadline now s).1 ≡ start_of s
unfolding assert_before_deadline
assert_start now s = ground (arith, expire_start now s)

-- A method that runs after the check.
asserted_start :
    {A : Type 0} (s : QualificationSession)
    (x : Result SessionError (Unit {0}) × QualificationSession) (rest : Method A)
    → start_of x.1 ≡ start_of s
    → ((t : QualificationSession) → start_of (rest t).1 ≡ start_of t)
    → start_of (and_then x (λ _. rest)).1 ≡ start_of s
asserted_start s (ok a, t) rest h keeps = keeps t ∙ h
asserted_start s (err e, t) rest h keeps = h

complete_build_start :
    (now : ℕ) (s : QualificationSession) → start_of (complete_build now s).1 ≡ start_of s
unfolding complete_build
complete_build_start now s = ground (arith, assert_start now s)

complete_digital_start :
    (now : ℕ) (s : QualificationSession) → start_of (complete_digital now s).1 ≡ start_of s
unfolding complete_digital
complete_digital_start now s = ground (arith, assert_start now s)

accept_case_start :
    (id : String) (direction : LiteralDirection) (now : ℕ) (value : QualificationCase) (index : ℕ)
    (s : QualificationSession)
    → start_of (accept_case id direction now value index s).1 ≡ start_of s
unfolding accept_case
accept_case_start id direction now value index s = ground arith

accept_instruction_start :
    (cases : List QualificationCase) (id : String) (direction : LiteralDirection) (now : ℕ)
    (s : QualificationSession)
    → start_of (accept_instruction cases id direction now s).1 ≡ start_of s
unfolding accept_instruction
accept_instruction_start cases id direction now s =
    asserted_start s (assert_before_deadline now s) _ (assert_start now s)
      (λ t. accepted t t.case_index (current_case cases t.case_index))
  where
    accepted :
        (t : QualificationSession) (i : Option ℕ) (o : Option QualificationCase)
        → start_of
            (and_then (required o instruction_unavailable t) (λ value. do
              index ← required i instruction_unavailable
              reject_if (is_terminal t.stage) instruction_unavailable
              accept_case id direction now value index)).1
          ≡ start_of t
    accepted t i none = refl
    accepted t none (some value) = refl
    accepted t (some index) (some value) =
        ground (arith, accept_case_start id direction now value index t)

advance_start :
    (cases : List QualificationCase) (next now : ℕ) (s : QualificationSession)
    → start_of (advance cases next now s).1 ≡ start_of s
unfolding advance elapsed
advance_start cases next now s = ground arith

acknowledge_start :
    (s : QualificationSession) → start_of (acknowledge_accepted_completion s).1 ≡ start_of s
unfolding acknowledge_accepted_completion
acknowledge_start s = ground arith

operator_reset_start :
    (now : ℕ) (s : QualificationSession) → start_of (operator_reset now s).1 ≡ start_of s
unfolding operator_reset
operator_reset_start now s = ground (arith, fail_current_start now (record s { accepted = none }))

mark_quiet_failed_start : (s : QualificationSession) → start_of (mark_quiet_failed s).1 ≡ start_of s
unfolding mark_quiet_failed
mark_quiet_failed_start s = ground arith

complete_accepted_start :
    (cases : List QualificationCase) (mode : InstructionAction) (now : ℕ) (s : QualificationSession)
    → start_of (complete_accepted cases mode now s).1 ≡ start_of s
unfolding complete_accepted
complete_accepted_start cases mode now s =
    grind (arith, assert_start now s, advance_start, failure_reason_start)

take_snapshot_start :
    (cases : List QualificationCase) (epoch now : ℕ) (s : QualificationSession)
    → start_of (take_snapshot cases epoch now s).1 ≡ start_of s
unfolding take_snapshot
take_snapshot_start cases epoch now s = ground (arith, elapsed_start now s)

start_start :
    (now : ℕ) (s : QualificationSession)
    → is_idle s.stage ≡ false
    → start_of (start now s).1 ≡ start_of s
unfolding start
start_start now s begun = ground arith

-- A session that has begun keeps its beginning and its deadline.
pub after_start :
    (cases : List QualificationCase) (c : Call) (s : QualificationSession)
    → is_idle s.stage ≡ false
    → start_of (after cases c s) ≡ start_of s
after_start cases (call_start now) s begun = start_start now s begun
after_start cases (call_complete_build now) s begun = complete_build_start now s
after_start cases (call_complete_digital now) s begun = complete_digital_start now s
after_start cases (call_accept id direction now) s begun =
    accept_instruction_start cases id direction now s
after_start cases (call_complete mode now) s begun = complete_accepted_start cases mode now s
after_start cases call_acknowledge s begun = acknowledge_start s
after_start cases call_abort s begun = unfold abort_case in refl
after_start cases call_quiet_failed s begun = mark_quiet_failed_start s
after_start cases (call_reset now) s begun = operator_reset_start now s
after_start cases (call_expire now) s begun = expire_start now s
after_start cases (call_force now) s begun = force_start now s
after_start cases (call_fail now) s begun = fail_current_start now s
after_start cases (call_snapshot epoch now) s begun = take_snapshot_start cases epoch now s
after_start cases (call_fallback reason now) s begun = fallback_start reason now s
