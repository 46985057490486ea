-- ===== src/Qualification/States/Lasting.antt =====
-- What holds of every session that calls lead to.
use fipwave.Common.{
  ℕ, ◌+◌, ◌<◌, ◌≡◌, refl, ap, Bool, inl, inr, List, length, Option, some, Result, ok,
}
use fipwave.Qualification.{
  RunnerRole, CyrinxStage, stage_complete, CyrinxFallbackReason, QualificationCase,
  QualificationSession, InstructionAction, LiteralDirection, SessionError, Accepted, and_then,
  Method,
}
use fipwave.Qualification.Runner.{assert_before_deadline}
use fipwave.Qualification.Cases.{accept_instruction, complete_accepted}
use fipwave.Qualification.States.{
  below, Valid, fresh, preparing, testing, completed, fell, quiet_failed, Call, call_start,
  call_complete_build, call_complete_digital, call_accept, call_complete, call_acknowledge,
  call_abort, call_quiet_failed, call_reset, call_expire, call_force, call_fail, call_snapshot,
  call_fallback, after, logged, Runs, created, called, building, digital,
}
use fipwave.Qualification.States.Expiry.{Checked, refused, fell_back, allowed, assert-Checked}
use fipwave.Qualification.States.Stages.{stage_for_case_terminal}
use fipwave.Qualification.States.Going.{
  Going, going, Going-or_Stopped, expire-Valid, force-Valid, fallback-Valid,
}
use fipwave.Qualification.States.Kept.{
  start-Valid, fail_current-Valid, abort_case-Valid, operator_reset-Valid, mark_quiet_failed-Valid,
  acknowledge-Valid, take_snapshot-Valid,
}
use fipwave.Qualification.States.Gate.{Stopped-assert, complete_build-Valid, complete_digital-Valid}
use fipwave.Qualification.States.Completing.{accept_instruction-Valid, complete_accepted-Valid}
use Prim.Native.String.{String}

after-Valid :
    (cases : List QualificationCase) (c : Call) (s : QualificationSession) (log : List ℕ)
    → 0 < length cases
    → Valid cases s log
    → Valid cases (after cases c s) (logged cases c s log)
after-Valid cases (call_start now) s log some_case v = start-Valid cases now s log v
after-Valid cases (call_complete_build now) s log some_case v =
    complete_build-Valid cases now s log v
after-Valid cases (call_complete_digital now) s log some_case v =
    complete_digital-Valid cases now s log some_case v
after-Valid cases (call_accept id direction now) s log some_case v =
    accept_instruction-Valid cases id direction now s log v
after-Valid cases (call_complete mode now) s log some_case v =
    complete_accepted-Valid cases mode now s log v
after-Valid cases call_acknowledge s log some_case v = acknowledge-Valid cases s log v
after-Valid cases call_abort s log some_case v = abort_case-Valid cases s log v
after-Valid cases call_quiet_failed s log some_case v = mark_quiet_failed-Valid cases s log v
after-Valid cases (call_reset now) s log some_case v = operator_reset-Valid cases now s log v
after-Valid cases (call_expire now) s log some_case v = expire-Valid cases now s log v
after-Valid cases (call_force now) s log some_case v = force-Valid cases now s log v
after-Valid cases (call_fail now) s log some_case v = fail_current-Valid cases now s log v
after-Valid cases (call_snapshot epoch now) s log some_case v =
    take_snapshot-Valid cases epoch now s log v
after-Valid cases (call_fallback reason now) s log some_case v =
    fallback-Valid cases reason now s log v

pub Runs-Valid :
    (cases : List QualificationCase) (s : QualificationSession) (log : List ℕ)
    → 0 < length cases
    → Runs cases s log
    → Valid cases s log
Runs-Valid cases _ _ some_case (created r) = fresh r
Runs-Valid cases _ _ some_case (called {s} {log} c runs) =
    after-Valid cases c s log some_case (Runs-Valid cases s log some_case runs)

-- Whatever is called, in whatever order and at whatever times, the session is complete only when
-- every case has been completed exactly once, in order, since it was made.
pub complete_in_order :
    (cases : List QualificationCase) (s : QualificationSession) (log : List ℕ)
    → 0 < length cases
    → Runs cases s log
    → s.stage ≡ stage_complete
    → log ≡ below (length cases)
complete_in_order cases s log some_case runs complete =
    at s log (Runs-Valid cases s log some_case runs) complete
  where
    at :
        (s : QualificationSession) (log : List ℕ)
        → Valid cases s log
        → s.stage ≡ stage_complete
        → log ≡ below (length cases)
    at _ _ (fresh r) h = cc
    at _ _ (preparing r t e _ building) h = cc
    at _ _ (preparing r t e _ digital) h = cc
    at _ _ (testing r t e i acc pending cold lt here) h = cc (stage_for_case_terminal i)
    at _ _ (completed r t e te pending cold) h = refl
    at _ _ (fell r t e te reason index cold log rightly) h = cc
    at _ _ (quiet_failed r t e te reason index cold log rightly) h = cc

-- What runs after the deadline's check runs before the deadline.
checked_early :
    {A : Type 0} (cases : List QualificationCase) (now : ℕ) (s : QualificationSession)
    (log : List ℕ) (rest : Method A) {a : A}
    → Valid cases s log
    → (and_then (assert_before_deadline now s) (λ _. rest)).0 ≡ ok a
    → (d : ℕ) × (s.deadline_at_ms ≡ some d) × (now < d)
checked_early {A} cases now s log rest {a} v h = elim (Going-or_Stopped cases s log v) [
  | inl g ↦ of_going g h
  | inr st ↦ cc (
    h,
    ap (λ (x : Result SessionError (Unit {0}) × QualificationSession). (and_then x (λ _. rest)).0)
        (Stopped-assert cases now s log st),
  )
]
  where
    of_checked :
        (r : RunnerRole) (t e : ℕ) (te : Option ℕ) (stage : CyrinxStage) (index : Option ℕ)
        (acc : Option Accepted) (pending : Option CyrinxFallbackReason) (cold : Bool)
        (x : Result SessionError (Unit {0}) × QualificationSession)
        → Checked r t e te stage index acc pending cold now x
        → (and_then x (λ _. rest)).0 ≡ ok a
        → now < t + 5400000
    of_checked r t e te stage index acc pending cold _ (refused error passed) k = cc
    of_checked r t e te stage index acc pending cold _ (fell_back passed total reason rightly) k =
        cc
    of_checked r t e te stage index acc pending cold _ (allowed passed fine early not_over) k =
        early

    of_going :
        {s : QualificationSession}
        → Going cases log s
        → (and_then (assert_before_deadline now s) (λ _. rest)).0 ≡ ok a
        → (d : ℕ) × (s.deadline_at_ms ≡ some d) × (now < d)
    of_going (going r t e te stage index acc pending cold not_over valid) k = (
      t + 5400000,
      refl,
      of_checked r t e te stage index acc pending cold _
          (assert-Checked r t e te stage index acc pending cold now not_over) k,
    )

-- An instruction is accepted, and a case completed, only while there is a deadline that has not
-- come.
pub cases_before_deadline :
    (cases : List QualificationCase) (s : QualificationSession) (log : List ℕ) (now : ℕ)
    → 0 < length cases
    → Runs cases s log
    → ((id : String) (direction : LiteralDirection) (mode : InstructionAction)
        → (accept_instruction cases id direction now s).0 ≡ ok mode
        → (d : ℕ) × (s.deadline_at_ms ≡ some d) × (now < d))
      × ((mode : InstructionAction)
          → (complete_accepted cases mode now s).0 ≡ ok tt
          → (d : ℕ) × (s.deadline_at_ms ≡ some d) × (now < d))
unfolding accept_instruction complete_accepted
cases_before_deadline cases s log now some_case runs =
    let v = Runs-Valid cases s log some_case runs in
    (
      λ id direction mode h. checked_early cases now s log _ v h,
      λ mode h. checked_early cases now s log _ v h,
    )
