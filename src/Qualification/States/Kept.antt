-- ===== src/Qualification/States/Kept.antt =====
-- Every call leads from a valid state to a valid state.
use fipwave.Common.{
  ℕ, ◌≡◌, refl, sym, subst, ◌⊎◌, ltb, true, false, not, ◌&&◌, ◌||◌, Bool-cases, inl, inr, List,
  Option, none, some, Result, ok, err,
}
use fipwave.Qualification.{
  CyrinxStage, stage_cold_a_to_b, stage_cold_b_to_a, stage_corpus, stage_complete, stage_idle,
  stage_build, stage_digital, stage_quiet, stage_unqualified, CyrinxFallbackReason,
  QualificationCase, QualificationSession, SessionError, max_safe_integer, and_then,
}
use fipwave.Qualification.Runner.{
  is_some, is_cyrinx, is_terminal, is_idle, reason_or_stage, failure_reason_for_stage, is_over,
  elapsed, start, activate_fallback, fail_current,
}
use fipwave.Qualification.Cases.{
  acknowledge_accepted_completion, abort_case, operator_reset, mark_quiet_failed,
}
use fipwave.Qualification.Snapshot.{snapshot_with, snapshot_elapsed, take_snapshot}
use fipwave.Qualification.States.{
  building, digital, Valid, fresh, preparing, testing, completed, fell, quiet_failed,
}
use fipwave.Qualification.States.Stages.{stage_for_case_idle, stage_for_case_quiet}
use fipwave.Qualification.States.Going.{fallback-Valid}

module _ (cases : List QualificationCase) where
  -- `start`
  start_fine :
      (now : ℕ) (s : QualificationSession) (log : List ℕ)
      → ltb max_safe_integer now ≡ false
      → Valid cases s log
      → Valid cases (start now s).1 log
  unfolding start
  start_fine now _ _ fine (fresh r) = rw (fine) (preparing r now 0 _ building)
  start_fine now _ _ fine (preparing r t e _ building) = rw (fine) (preparing r t e _ building)
  start_fine now _ _ fine (preparing r t e _ digital) = rw (fine) (preparing r t e _ digital)
  start_fine now _ _ fine (testing r t e i acc pending cold lt at) =
      rw (fine, stage_for_case_idle i) (testing r t e i acc pending cold lt at)
  start_fine now _ _ fine (completed r t e te pending cold) =
      rw (fine) (completed r t e te pending cold)
  start_fine now _ log fine (fell r t e te reason index cold _ rightly) =
      rw (fine) (fell r t e te reason index cold log rightly)
  start_fine now _ log fine (quiet_failed r t e te reason index cold _ rightly) =
      rw (fine) (quiet_failed r t e te reason index cold log rightly)

  pub start-Valid :
      (now : ℕ) (s : QualificationSession) (log : List ℕ)
      → Valid cases s log
      → Valid cases (start now s).1 log
  unfolding start
  start-Valid now s log v = elim (Bool-cases (ltb max_safe_integer now)) [
    | inl big ↦ rw (big) v
    | inr fine ↦ start_fine now s log fine v
  ]

  failure_cases :
      (stage : CyrinxStage) (s : QualificationSession)
      → ((reason : CyrinxFallbackReason) × (failure_reason_for_stage stage s ≡ (ok reason, s)))
        ⊎ ((e : SessionError) × (failure_reason_for_stage stage s ≡ (err e, s)))
  failure_cases stage_build s = inl (_, refl)
  failure_cases stage_digital s = inl (_, refl)
  failure_cases stage_cold_a_to_b s = inl (_, refl)
  failure_cases stage_cold_b_to_a s = inl (_, refl)
  failure_cases stage_corpus s = inl (_, refl)
  failure_cases stage_idle s = inr (_, refl)
  failure_cases stage_complete s = inr (_, refl)
  failure_cases stage_quiet s = inr (_, refl)
  failure_cases stage_unqualified s = inr (_, refl)

  -- `failCurrent` past its guard.
  fail_with :
      (now : ℕ) (s : QualificationSession) (log : List ℕ) (pending : Option CyrinxFallbackReason)
      → Valid cases s log
      → Valid cases
          (and_then (reason_or_stage pending s.stage s) (λ reason. activate_fallback reason now)).1
          log
  fail_with now s log (some reason) v = fallback-Valid cases reason now s log v
  fail_with now s log none v = elim (failure_cases s.stage s) [
    | inl (reason, e) ↦ rw (e) (fallback-Valid cases reason now s log v)
    | inr (error, e) ↦ rw (e) v
  ]

  pub fail_current-Valid :
      (now : ℕ) (s : QualificationSession) (log : List ℕ)
      → Valid cases s log
      → Valid cases (fail_current now s).1 log
  unfolding fail_current
  fail_current-Valid now s log v =
      elim (Bool-cases (is_terminal s.stage && not (is_some s.pending_completion_reason))) [
        | inl over ↦ rw (over) v
        | inr not_over ↦ rw (not_over) (fail_with now s log s.pending_completion_reason v)
      ]

  pub abort_case-Valid :
      (s : QualificationSession) (log : List ℕ)
      → Valid cases s log
      → Valid cases (abort_case s).1 log
  unfolding abort_case
  abort_case-Valid _ _ (fresh r) = fresh r
  abort_case-Valid _ _ (preparing r t e stage p) = preparing r t e stage p
  abort_case-Valid _ _ (testing r t e i acc pending cold lt at) =
      testing r t e i none pending cold lt tt
  abort_case-Valid _ _ (completed r t e te pending cold) = completed r t e te pending cold
  abort_case-Valid _ _ (fell r t e te reason index cold log rightly) =
      fell r t e te reason index cold log rightly
  abort_case-Valid _ _ (quiet_failed r t e te reason index cold log rightly) =
      quiet_failed r t e te reason index cold log rightly

  pub operator_reset-Valid :
      (now : ℕ) (s : QualificationSession) (log : List ℕ)
      → Valid cases s log
      → Valid cases (operator_reset now s).1 log
  unfolding operator_reset abort_case
  operator_reset-Valid now s log v =
      let aborted = abort_case-Valid s log v in
      elim (Bool-cases (not (is_cyrinx s.codec) || (is_idle s.stage || is_over s))) [
        | inl ignored ↦ rw (ignored) aborted
        | inr failing ↦ rw (failing) (fail_current-Valid now _ log aborted)
      ]

  pub mark_quiet_failed-Valid :
      (s : QualificationSession) (log : List ℕ)
      → Valid cases s log
      → Valid cases (mark_quiet_failed s).1 log
  unfolding mark_quiet_failed
  mark_quiet_failed-Valid _ _ (fresh r) = fresh r
  mark_quiet_failed-Valid _ _ (preparing r t e _ building) = preparing r t e _ building
  mark_quiet_failed-Valid _ _ (preparing r t e _ digital) = preparing r t e _ digital
  mark_quiet_failed-Valid _ _ (testing r t e i acc pending cold lt at) =
      rw (stage_for_case_quiet i) (testing r t e i acc pending cold lt at)
  mark_quiet_failed-Valid _ _ (completed r t e te pending cold) = completed r t e te pending cold
  mark_quiet_failed-Valid _ _ (fell r t e te reason index cold log rightly) =
      quiet_failed r t e te reason index cold log rightly
  mark_quiet_failed-Valid _ _ (quiet_failed r t e te reason index cold log rightly) =
      quiet_failed r t e te reason index cold log rightly

  pub acknowledge-Valid :
      (s : QualificationSession) (log : List ℕ)
      → Valid cases s log
      → Valid cases (acknowledge_accepted_completion s).1 log
  unfolding acknowledge_accepted_completion
  acknowledge-Valid _ _ (fresh r) = fresh r
  acknowledge-Valid _ _ (preparing r t e stage p) = preparing r t e stage p
  acknowledge-Valid _ _ (testing r t e i acc none cold lt at) = testing r t e i acc none cold lt at
  acknowledge-Valid _ _ (testing r t e i acc (some reason) cold lt at) =
      testing r t e i acc none cold lt at
  acknowledge-Valid _ _ (completed r t e te none cold) = completed r t e te none cold
  acknowledge-Valid _ _ (completed r t e te (some reason) cold) = completed r t e te none cold
  acknowledge-Valid _ _ (fell r t e te reason index cold log rightly) =
      fell r t e te reason index cold log rightly
  acknowledge-Valid _ _ (quiet_failed r t e te reason index cold log rightly) =
      quiet_failed r t e te reason index cold log rightly

  -- A snapshot may note the time that has passed.
  noted :
      (now : ℕ) (s : QualificationSession) (log : List ℕ)
      → ltb max_safe_integer now ≡ false
      → Valid cases s log
      → Valid cases (snapshot_elapsed s.started_at_ms s.terminal_elapsed_ms now s).1 log
  unfolding elapsed
  noted now _ _ fine (fresh r) = fresh r
  noted now _ _ fine (preparing r t e stage p) = rw (fine) (preparing r t _ stage p)
  noted now _ _ fine (testing r t e i acc pending cold lt at) =
      rw (fine) (testing r t _ i acc pending cold lt at)
  noted now _ _ fine (completed r t e te pending cold) = completed r t e te pending cold
  noted now _ _ fine (fell r t e te reason index cold log rightly) =
      fell r t e te reason index cold log rightly
  noted now _ _ fine (quiet_failed r t e te reason index cold log rightly) =
      quiet_failed r t e te reason index cold log rightly

  -- The clock's error leaves the session as it was.
  clock_error :
      (now : ℕ) (s : QualificationSession)
      → ltb max_safe_integer now ≡ true
      → (snapshot_elapsed s.started_at_ms s.terminal_elapsed_ms now s).1 ≡ s
  unfolding elapsed
  clock_error now s big = at s.started_at_ms s.terminal_elapsed_ms
    where
      at : (started te : Option ℕ) → (snapshot_elapsed started te now s).1 ≡ s
      at none te = refl
      at (some started) (some e) = refl
      at (some started) none = rw big

  answer_keeps :
      {A B : Type 0} (x : Result SessionError A × QualificationSession)
      (f : A → QualificationSession → B)
      → (and_then x (λ a t. (ok (f a t), t))).1 ≡ x.1
  answer_keeps (ok a, s) f = refl
  answer_keeps (err e, s) f = refl

  pub take_snapshot-Valid :
      (epoch now : ℕ) (s : QualificationSession) (log : List ℕ)
      → Valid cases s log
      → Valid cases (take_snapshot cases epoch now s).1 log
  unfolding take_snapshot
  take_snapshot-Valid epoch now s log v = elim (Bool-cases (ltb max_safe_integer epoch)) [
    | inl big ↦ rw (big) v
    | inr small ↦ rw (small) (
        subst (λ t. Valid cases t log)
          (sym (
            answer_keeps (snapshot_elapsed s.started_at_ms s.terminal_elapsed_ms now s)
              (snapshot_with cases epoch)))
          (elim (Bool-cases (ltb max_safe_integer now)) [
            | inl big ↦ rw (clock_error now s big) v
            | inr fine ↦ noted now s log fine v
          ]))
  ]
