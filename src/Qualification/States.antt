-- ===== src/Qualification/States.antt =====
-- The states that a session can be in, and the calls that lead from one to the next.
pub mod Expiry
pub mod Stages
pub mod Going
pub mod Kept
pub mod Gate
pub mod Completing
pub mod Begun
pub mod Lasting
pub mod Fallen
use fipwave.Common.{
  ℕ, zero, suc, ◌+◌, ◌≤◌, ◌<◌, ◌≡◌, Bool, false, List, [], ◌∷◌, length, Option, none, some, Result,
  ok, err,
}
use fipwave.Qualification.{
  RunnerRole, LiteralDirection, CyrinxStage, stage_build, stage_digital, stage_complete,
  stage_quiet, stage_unqualified, codec_cyrinx, codec_quiet, codec_unqualified,
  CyrinxFallbackReason, cyrinx_deadline_expired, fallback_available, fallback_activated,
  fallback_failed, InstructionAction, QualificationCase, Accepted, QualificationSession,
  SessionError, cyrinx_deadline_ms,
}
use fipwave.Qualification.Runner.{
  new_session, stage_for_case, start, expire, force_deadline_expiry, activate_fallback,
  fail_current,
}
use fipwave.Qualification.Cases.{
  complete_build, complete_digital, accept_instruction, complete_accepted,
  acknowledge_accepted_completion, abort_case, operator_reset, mark_quiet_failed,
}
use fipwave.Qualification.Snapshot.{take_snapshot}
use Prim.Native.String.{String}

-- A session that runs Cyrinx, since `t` and for `e` milliseconds.
abbrev pub live :
    RunnerRole
    → ℕ
    → ℕ
    → Option ℕ
    → CyrinxStage
    → Option ℕ
    → Option Accepted
    → Option CyrinxFallbackReason
    → Bool
    → QualificationSession
live r t e te stage case_index acc pending cold = record {
  role = r;
  codec = codec_cyrinx;
  stage = stage;
  started_at_ms = some t;
  deadline_at_ms = some (t + cyrinx_deadline_ms);
  last_elapsed_ms = some e;
  terminal_elapsed_ms = te;
  fallback_state = fallback_available;
  fallback_reason = none;
  case_index = case_index;
  accepted = acc;
  pending_completion_reason = pending;
  cold_receive_passed = cold;
}

-- A session that fell back to Quiet.
abbrev pub fallen :
    RunnerRole → ℕ → ℕ → ℕ → CyrinxFallbackReason → Option ℕ → Bool → QualificationSession
fallen r t e te reason case_index cold = record {
  role = r;
  codec = codec_quiet;
  stage = stage_quiet;
  started_at_ms = some t;
  deadline_at_ms = some (t + cyrinx_deadline_ms);
  last_elapsed_ms = some e;
  terminal_elapsed_ms = some te;
  fallback_state = fallback_activated;
  fallback_reason = some reason;
  case_index = case_index;
  accepted = none;
  pending_completion_reason = none;
  cold_receive_passed = cold;
}

-- A session for which Quiet failed too.
abbrev pub failed : QualificationSession → QualificationSession
failed s = record s {
  codec = codec_unqualified;
  stage = stage_unqualified;
  fallback_state = fallback_failed;
}

abbrev pub AcceptedAt : ℕ → Option Accepted → Type 0
AcceptedAt i none = Unit {0}
AcceptedAt i (some a) = a.case_index ≡ i

pub data IsPreparing : CyrinxStage → Type 0 where
  building : IsPreparing stage_build
  digital : IsPreparing stage_digital

-- The numbers below one, the greatest first.
abbrev pub below : ℕ → List ℕ
below zero = []
below (suc i) = i ∷ below i

-- A deadline takes ninety minutes at least.
abbrev pub FellRightly : CyrinxFallbackReason → ℕ → Type 0
FellRightly reason te = reason ≡ cyrinx_deadline_expired → cyrinx_deadline_ms ≤ te

-- A state and the numbers of the cases that were completed on the way to it, the last one first.
pub data Valid (cases : List QualificationCase) : QualificationSession → List ℕ → Type 0 where
  fresh : (r : RunnerRole) → Valid cases (new_session r) []
  preparing :
      (r : RunnerRole) (t e : ℕ) (stage : CyrinxStage)
      → IsPreparing stage
      → Valid cases (live r t e none stage none none none false) []
  testing :
      (r : RunnerRole) (t e i : ℕ) (acc : Option Accepted) (pending : Option CyrinxFallbackReason)
      (cold : Bool)
      → i < length cases
      → AcceptedAt i acc
      → Valid cases (live r t e none (stage_for_case i) (some i) acc pending cold) (below i)
  completed :
      (r : RunnerRole) (t e te : ℕ) (pending : Option CyrinxFallbackReason) (cold : Bool)
      → Valid cases
          (live r t e (some te) stage_complete none none pending cold)
          (below (length cases))
  fell :
      (r : RunnerRole) (t e te : ℕ) (reason : CyrinxFallbackReason) (index : Option ℕ) (cold : Bool)
      (log : List ℕ)
      → FellRightly reason te
      → Valid cases (fallen r t e te reason index cold) log
  quiet_failed :
      (r : RunnerRole) (t e te : ℕ) (reason : CyrinxFallbackReason) (index : Option ℕ) (cold : Bool)
      (log : List ℕ)
      → FellRightly reason te
      → Valid cases (failed (fallen r t e te reason index cold)) log

pub data Call : Type 0 where
  call_start call_complete_build call_complete_digital : ℕ → Call
  call_accept : String → LiteralDirection → ℕ → Call
  call_complete : InstructionAction → ℕ → Call
  call_acknowledge call_abort call_quiet_failed : Call
  call_reset call_expire call_force call_fail : ℕ → Call
  call_snapshot : ℕ → ℕ → Call
  call_fallback : CyrinxFallbackReason → ℕ → Call

-- The session after a call, whether the call throws or not.
abbrev pub after : List QualificationCase → Call → QualificationSession → QualificationSession
after cases (call_start now) s = (start now s).1
after cases (call_complete_build now) s = (complete_build now s).1
after cases (call_complete_digital now) s = (complete_digital now s).1
after cases (call_accept id direction now) s = (accept_instruction cases id direction now s).1
after cases (call_complete mode now) s = (complete_accepted cases mode now s).1
after cases call_acknowledge s = (acknowledge_accepted_completion s).1
after cases call_abort s = (abort_case s).1
after cases call_quiet_failed s = (mark_quiet_failed s).1
after cases (call_reset now) s = (operator_reset now s).1
after cases (call_expire now) s = (expire now s).1
after cases (call_force now) s = (force_deadline_expiry now s).1
after cases (call_fail now) s = (fail_current now s).1
after cases (call_snapshot epoch now) s = (take_snapshot cases epoch now s).1
after cases (call_fallback reason now) s = (activate_fallback reason now s).1

abbrev pub with_completed : Result SessionError (Unit {0}) → Option ℕ → List ℕ → List ℕ
with_completed (ok done) (some i) log = i ∷ log
with_completed result index log = log

-- The cases completed so far, after a call.
abbrev pub logged : List QualificationCase → Call → QualificationSession → List ℕ → List ℕ
logged cases (call_complete mode now) s log =
    with_completed (complete_accepted cases mode now s).0 s.case_index log
logged cases other s log = log

-- The states that calls lead to from a new session.
pub data Runs (cases : List QualificationCase) : QualificationSession → List ℕ → Type 0 where
  created : (r : RunnerRole) → Runs cases (new_session r) []
  called :
      {s : QualificationSession} {log : List ℕ} (c : Call)
      → Runs cases s log
      → Runs cases (after cases c s) (logged cases c s log)
