-- ===== src/Qualification/States/Gate.antt =====
-- The deadline's check, and the methods up to the first case.
use fipwave.Common.{
  ℕ, ◌<◌, ◌≡◌, refl, Bool, false, List, [], length, Option, none, some, Result, ok, err,
}
use fipwave.Qualification.{
  RunnerRole, CyrinxStage, stage_build, stage_digital, CyrinxFallbackReason, QualificationCase,
  QualificationSession, SessionError, and_then, session_terminal, Method,
}
use fipwave.Qualification.Runner.{stage_for_case, assert_before_deadline, expire}
use fipwave.Qualification.Cases.{complete_build, complete_digital}
use fipwave.Qualification.States.{
  live, building, digital, Valid, fresh, preparing, testing, completed, fell, quiet_failed,
}
use fipwave.Qualification.States.Expiry.{Checked, refused, fell_back, allowed, assert-Checked}
use fipwave.Qualification.States.Stages.{stage_for_case_build, stage_for_case_digital}
use fipwave.Qualification.States.Going.{
  Stopped, stopped_new, stopped_complete, stopped_quiet, stopped_failed,
}

module _ (cases : List QualificationCase) where
  pub Stopped-assert :
      (now : ℕ) (s : QualificationSession) (log : List ℕ)
      → Stopped cases log s
      → assert_before_deadline now s ≡ (err session_terminal, s)
  unfolding assert_before_deadline expire
  Stopped-assert now _ log (stopped_new r) = refl
  Stopped-assert now _ log (stopped_complete r t e te cold) = refl
  Stopped-assert now _ log (stopped_quiet r t e te reason index cold) = refl
  Stopped-assert now _ log (stopped_failed r t e te reason index cold) = refl

  pub complete_build-Valid :
      (now : ℕ) (s : QualificationSession) (log : List ℕ)
      → Valid cases s log
      → Valid cases (complete_build now s).1 log
  unfolding complete_build
  complete_build-Valid now _ _ (fresh r) = fresh r
  complete_build-Valid now _ _ (preparing r t e _ building) =
      built _ (assert-Checked r t e none stage_build none none none false now refl)
    where
      built :
          (x : Result SessionError (Unit {0}) × QualificationSession)
          → Checked r t e none stage_build none none none false now x
          → Valid cases (and_then x (λ _ u. (ok tt, record u { stage = stage_digital }))).1 []
      built _ (refused error passed) = preparing r t passed _ building
      built _ (fell_back passed total reason rightly) =
          fell r t passed total reason none false [] rightly
      built _ (allowed passed fine early not_over) = preparing r t passed _ digital
  complete_build-Valid now _ _ (preparing r t e _ digital) = preparing r t e _ digital
  complete_build-Valid now _ _ (testing r t e i acc pending cold lt at) =
      rw (stage_for_case_build i) (testing r t e i acc pending cold lt at)
  complete_build-Valid now _ _ (completed r t e te pending cold) = completed r t e te pending cold
  complete_build-Valid now _ _ (fell r t e te reason index cold log rightly) =
      fell r t e te reason index cold log rightly
  complete_build-Valid now _ _ (quiet_failed r t e te reason index cold log rightly) =
      quiet_failed r t e te reason index cold log rightly

  pub complete_digital-Valid :
      (now : ℕ) (s : QualificationSession) (log : List ℕ)
      → 0 < length cases
      → Valid cases s log
      → Valid cases (complete_digital now s).1 log
  unfolding complete_digital
  complete_digital-Valid now _ _ some_case (fresh r) = fresh r
  complete_digital-Valid now _ _ some_case (preparing r t e _ building) = preparing r t e _ building
  complete_digital-Valid now _ _ some_case (preparing r t e _ digital) =
      passed_digital _ (assert-Checked r t e none stage_digital none none none false now refl)
    where
      passed_digital :
          (x : Result SessionError (Unit {0}) × QualificationSession)
          → Checked r t e none stage_digital none none none false now x
          → Valid cases
              (and_then x
                (λ _ u. (ok tt, record u { case_index = some 0; stage = stage_for_case 0 }))).1
              []
      passed_digital _ (refused error passed) = preparing r t passed _ digital
      passed_digital _ (fell_back passed total reason rightly) =
          fell r t passed total reason none false [] rightly
      passed_digital _ (allowed passed fine early not_over) =
          testing r t passed 0 none none false some_case tt
  complete_digital-Valid now _ _ some_case (testing r t e i acc pending cold lt at) =
      rw (stage_for_case_digital i) (testing r t e i acc pending cold lt at)
  complete_digital-Valid now _ _ some_case (completed r t e te pending cold) =
      completed r t e te pending cold
  complete_digital-Valid now _ _ some_case (fell r t e te reason index cold log rightly) =
      fell r t e te reason index cold log rightly
  complete_digital-Valid now _ _ some_case (quiet_failed r t e te reason index cold log rightly) =
      quiet_failed r t e te reason index cold log rightly

  -- Without a case the rest of a method is refused.
  pub without_case :
      {A : Type 0} (r : RunnerRole) (t e : ℕ) (te : Option ℕ) (stage : CyrinxStage)
      (pending : Option CyrinxFallbackReason) (cold : Bool) (now : ℕ) (log : List ℕ)
      (error : SessionError) (rest : Method A)
      → ((passed : ℕ)
          → rest (live r t passed te stage none none pending cold)
            ≡ (err error, live r t passed te stage none none pending cold))
      → ((passed : ℕ) → Valid cases (live r t passed te stage none none pending cold) log)
      → (x : Result SessionError (Unit {0}) × QualificationSession)
      → Checked r t e te stage none none pending cold now x
      → Valid cases (and_then x (λ _. rest)).1 log
  without_case r t e te stage pending cold now log error rest refuses valid _
        (refused other passed) =
      valid passed
  without_case r t e te stage pending cold now log error rest refuses valid _
        (fell_back passed total reason rightly) =
      fell r t passed total reason none cold log rightly
  without_case r t e te stage pending cold now log error rest refuses valid _
        (allowed passed fine early not_over) =
      rw (refuses passed) (valid passed)
