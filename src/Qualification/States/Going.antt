-- ===== src/Qualification/States/Going.antt =====
-- The methods that may fall back lead from valid states to valid states.
use fipwave.Common.{ℕ, ◌≡◌, refl, ◌⊎◌, Bool, false, inl, inr, List, Option, none, some, Result}
use fipwave.Qualification.{
  RunnerRole, CyrinxStage, stage_complete, CyrinxFallbackReason, QualificationCase, Accepted,
  QualificationSession, SessionError,
}
use fipwave.Qualification.Runner.{
  new_session, is_over, expire, force_deadline_expiry, activate_fallback,
}
use fipwave.Qualification.States.{
  live, fallen, failed, building, digital, Valid, fresh, preparing, testing, completed, fell,
  quiet_failed,
}
use fipwave.Qualification.States.Expiry.{
  Ended, clock, in_time, late, expire-Ended, force_deadline_expiry-Ended, activate_fallback-Ended,
}
use fipwave.Qualification.States.Stages.{stage_for_case_terminal}

module _ (cases : List QualificationCase) where
  -- A method that may fall back.
  Ended-Valid :
      (r : RunnerRole) (t e : ℕ) (te : Option ℕ) (stage : CyrinxStage) (index : Option ℕ)
      (acc : Option Accepted) (pending : Option CyrinxFallbackReason) (cold : Bool) (log : List ℕ)
      (now : ℕ) (x : Result SessionError Bool × QualificationSession)
      → ((passed : ℕ) → Valid cases (live r t passed te stage index acc pending cold) log)
      → Ended r t e te stage index acc pending cold now x
      → Valid cases x.1 log
  Ended-Valid r t e te stage index acc pending cold log now _ valid clock = valid e
  Ended-Valid r t e te stage index acc pending cold log now _ valid (in_time passed fine early) =
      valid passed
  Ended-Valid r t e te stage index acc pending cold log now _ valid
        (late passed total reason rightly) =
      fell r t passed total reason index cold log rightly

  -- A session that is not over and has started, and one that is over or has not.
  pub data Going (log : List ℕ) : QualificationSession → Type 0 where
    going :
        (r : RunnerRole) (t e : ℕ) (te : Option ℕ) (stage : CyrinxStage) (index : Option ℕ)
        (acc : Option Accepted) (pending : Option CyrinxFallbackReason) (cold : Bool)
        → is_over (live r t e te stage index acc pending cold) ≡ false
        → ((passed : ℕ) → Valid cases (live r t passed te stage index acc pending cold) log)
        → Going log (live r t e te stage index acc pending cold)

  pub data Stopped (log : List ℕ) : QualificationSession → Type 0 where
    stopped_new : (r : RunnerRole) → Stopped log (new_session r)
    stopped_complete :
        (r : RunnerRole) (t e te : ℕ) (cold : Bool)
        → Stopped log (live r t e (some te) stage_complete none none none cold)
    stopped_quiet :
        (r : RunnerRole) (t e te : ℕ) (reason : CyrinxFallbackReason) (index : Option ℕ)
        (cold : Bool)
        → Stopped log (fallen r t e te reason index cold)
    stopped_failed :
        (r : RunnerRole) (t e te : ℕ) (reason : CyrinxFallbackReason) (index : Option ℕ)
        (cold : Bool)
        → Stopped log (failed (fallen r t e te reason index cold))

  pub Going-or_Stopped :
      (s : QualificationSession) (log : List ℕ) → Valid cases s log → Going log s ⊎ Stopped log s
  Going-or_Stopped _ _ (fresh r) = inr (stopped_new r)
  Going-or_Stopped _ _ (preparing r t e _ building) =
      inl (going r t e none _ none none none false refl (λ passed. preparing r t passed _ building))
  Going-or_Stopped _ _ (preparing r t e _ digital) =
      inl (going r t e none _ none none none false refl (λ passed. preparing r t passed _ digital))
  Going-or_Stopped _ _ (testing r t e i acc pending cold lt at) = inl (
      going r t e none _ (some i) acc pending cold (rw (stage_for_case_terminal i) refl)
        (λ passed. testing r t passed i acc pending cold lt at))
  Going-or_Stopped _ _ (completed r t e te none cold) = inr (stopped_complete r t e te cold)
  Going-or_Stopped _ _ (completed r t e te (some reason) cold) = inl (
      going r t e (some te) _ none none (some reason) cold refl
        (λ passed. completed r t passed te (some reason) cold))
  Going-or_Stopped _ _ (fell r t e te reason index cold log rightly) =
      inr (stopped_quiet r t e te reason index cold)
  Going-or_Stopped _ _ (quiet_failed r t e te reason index cold log rightly) =
      inr (stopped_failed r t e te reason index cold)

  -- What a method that may fall back leaves: `Ended` where the session is going.
  module _ (method : QualificationSession → Result SessionError Bool × QualificationSession) where
    going-Valid :
        (now : ℕ) (s : QualificationSession) (log : List ℕ)
        → ((r : RunnerRole) (t e : ℕ) (te : Option ℕ) (stage : CyrinxStage) (index : Option ℕ)
              (acc : Option Accepted) (pending : Option CyrinxFallbackReason) (cold : Bool)
            → is_over (live r t e te stage index acc pending cold) ≡ false
            → Ended r t e te stage index acc pending cold now
                (method (live r t e te stage index acc pending cold)))
        → Going log s
        → Valid cases (method s).1 log
    going-Valid now _ log ended (going r t e te stage index acc pending cold not_over valid) =
        Ended-Valid r t e te stage index acc pending cold log now _ valid
          (ended r t e te stage index acc pending cold not_over)

  Stopped-expire :
      (now : ℕ) (s : QualificationSession) (log : List ℕ) → Stopped log s → (expire now s).1 ≡ s
  unfolding expire
  Stopped-expire now _ log (stopped_new r) = refl
  Stopped-expire now _ log (stopped_complete r t e te cold) = refl
  Stopped-expire now _ log (stopped_quiet r t e te reason index cold) = refl
  Stopped-expire now _ log (stopped_failed r t e te reason index cold) = refl

  pub expire-Valid :
      (now : ℕ) (s : QualificationSession) (log : List ℕ)
      → Valid cases s log
      → Valid cases (expire now s).1 log
  expire-Valid now s log v = elim (Going-or_Stopped s log v) [
    | inl g ↦
        going-Valid (expire now) now s log
          (λ r t e te stage index acc pending cold.
            expire-Ended r t e te stage index acc pending cold now)
          g
    | inr st ↦ rw (Stopped-expire now s log st) v
  ]

  Stopped-force :
      (now : ℕ) (s : QualificationSession) (log : List ℕ)
      → Stopped log s
      → (force_deadline_expiry now s).1 ≡ s
  unfolding force_deadline_expiry
  Stopped-force now _ log (stopped_new r) = refl
  Stopped-force now _ log (stopped_complete r t e te cold) = refl
  Stopped-force now _ log (stopped_quiet r t e te reason index cold) = refl
  Stopped-force now _ log (stopped_failed r t e te reason index cold) = refl

  pub force-Valid :
      (now : ℕ) (s : QualificationSession) (log : List ℕ)
      → Valid cases s log
      → Valid cases (force_deadline_expiry now s).1 log
  force-Valid now s log v = elim (Going-or_Stopped s log v) [
    | inl g ↦
        going-Valid (force_deadline_expiry now) now s log
          (λ r t e te stage index acc pending cold.
            force_deadline_expiry-Ended r t e te stage index acc pending cold now)
          g
    | inr st ↦ rw (Stopped-force now s log st) v
  ]

  Stopped-fallback :
      (reason : CyrinxFallbackReason) (now : ℕ) (s : QualificationSession) (log : List ℕ)
      → Stopped log s
      → (activate_fallback reason now s).1 ≡ s
  unfolding activate_fallback
  Stopped-fallback why now _ log (stopped_new r) = refl
  Stopped-fallback why now _ log (stopped_complete r t e te cold) = refl
  Stopped-fallback why now _ log (stopped_quiet r t e te reason index cold) = refl
  Stopped-fallback why now _ log (stopped_failed r t e te reason index cold) = refl

  pub fallback-Valid :
      (reason : CyrinxFallbackReason) (now : ℕ) (s : QualificationSession) (log : List ℕ)
      → Valid cases s log
      → Valid cases (activate_fallback reason now s).1 log
  fallback-Valid reason now s log v = elim (Going-or_Stopped s log v) [
    | inl g ↦
        going-Valid (activate_fallback reason now) now s log
          (λ r t e te stage index acc pending cold.
            activate_fallback-Ended r t e te stage index acc pending cold reason now)
          g
    | inr st ↦ rw (Stopped-fallback reason now s log st) v
  ]
