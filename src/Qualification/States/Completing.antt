-- ===== src/Qualification/States/Completing.antt =====
-- The methods about the cases lead from valid states to valid states.
use fipwave.Common.{
  ℕ, suc, ◌+◌, ◌-◌, ◌<◌, ◌≡◌, refl, ap, subst, arith, ltb, leb, ◌==◌, Bool, true, false, not, ◌||◌,
  Bool-cases, Option-cases, inl, inr, List, [], ◌∷◌, length, get_elem?, Option, none, some, Result,
  ok, err,
}
use fipwave.Common.Texts.{same_text}
use fipwave.Qualification.{
  RunnerRole, LiteralDirection, stage_complete, stage_build, stage_digital, CyrinxFallbackReason,
  InstructionAction, QualificationCase, Accepted, QualificationSession, SessionError,
  max_safe_integer, and_then, Method, ◌>>=◌, ◌>>◌, reject_if, get_session, put_session, required,
  completion_not_acknowledged, instruction_unavailable, instruction_not_accepted,
}
use fipwave.Qualification.Runner.{
  is_some, is_terminal, stage_for_case, failure_reason_for_stage, max, same_direction, same_mode,
  elapsed,
}
use fipwave.Qualification.Cases.{
  current_case, accept_case, accept_instruction, the_accepted, advance, passes_cold,
  complete_accepted,
}
use Prim.Native.String.{String}
use fipwave.Qualification.States.{
  live, AcceptedAt, building, digital, below, Valid, fresh, preparing, testing, completed, fell,
  quiet_failed, with_completed,
}
use fipwave.Qualification.States.Expiry.{Checked, refused, fell_back, allowed, assert-Checked}
use fipwave.Qualification.States.Stages.{
  case_reason, stage_for_case_terminal, case_reason_lem, below_next,
}
use fipwave.Qualification.States.Going.{
  stopped_new, stopped_complete, stopped_quiet, stopped_failed,
}
use fipwave.Qualification.States.Gate.{Stopped-assert, without_case}

module _ (cases : List QualificationCase) where
  last_below :
      {i : ℕ}
      → leb (length cases) (i + 1) ≡ true
      → i < length cases
      → below (length cases) ≡ i ∷ below i
  last_below {i} last lt = let e : length cases ≡ suc i = ground arith in ap below e

  -- `completeAccepted` past the deadline's check.
  abbrev complete_rest : InstructionAction → ℕ → Method (Unit {0})
  complete_rest mode now = do
    s ← get_session
    reject_if (is_some s.pending_completion_reason) completion_not_acknowledged
    a ← the_accepted mode
    value ← required (current_case cases s.case_index) instruction_unavailable
    reason ← failure_reason_for_stage s.stage
    put_session (record s {
      pending_completion_reason = some reason;
      cold_receive_passed = passes_cold mode value.cold s.cold_receive_passed;
      accepted = none;
    })
    advance cases (a.case_index + 1) now

  -- A session in the case `i`.
  module _ (r : RunnerRole) (t i : ℕ) (cold : Bool) (lt : i < length cases) where
    abbrev in_case : ℕ → Option Accepted → Option CyrinxFallbackReason → QualificationSession
    in_case e acc pending = live r t e none (stage_for_case i) (some i) acc pending cold

    accepting :
        (id : String) (direction : LiteralDirection) (now e : ℕ) (acc : Option Accepted)
        (pending : Option CyrinxFallbackReason) (value : QualificationCase)
        → AcceptedAt i acc
        → Valid cases (accept_case id direction now value i (in_case e acc pending)).1 (below i)
    unfolding accept_case
    accepting id direction now e acc (some reason) value at =
        testing r t e i acc (some reason) cold lt at
    accepting id direction now e (some a) none value at = testing r t e i (some a) none cold lt at
    accepting id direction now e none none value at =
        elim (Bool-cases
          (not (same_text id value.id) || not (same_direction direction value.direction))) [
            | inl other ↦ rw (other) (testing r t e i none none cold lt tt)
            | inr same ↦ elim (Bool-cases (ltb max_safe_integer now)) [
              | inl big ↦ rw (same, big) (testing r t e i none none cold lt tt)
              | inr fine ↦ rw (same, fine) (testing r t e i (some _) none cold lt refl)
            ]
          ]

    finishing :
        (now e : ℕ) (reason : CyrinxFallbackReason) (passed_cold : Bool)
        → ltb max_safe_integer now ≡ false
        → Valid cases
            (advance cases
              (i + 1)
              now
              (live r t e none (stage_for_case i) (some i) none (some reason) passed_cold)).1
            (with_completed
              (advance cases
                (i + 1)
                now
                (live r t e none (stage_for_case i) (some i) none (some reason) passed_cold)).0
              (some i)
              (below i))
    unfolding advance elapsed
    finishing now e reason passed_cold fine = elim (Bool-cases (leb (length cases) (i + 1))) [
      | inl last ↦
          let passed = max e (now - t) in
          let v : Valid cases
              (live r t passed (some passed) stage_complete none none (some reason) passed_cold)
              (i ∷ below i) =
            subst
              (λ log.
                Valid cases
                  (live r t passed (some passed) stage_complete none none (some reason) passed_cold)
                  log)
              (last_below last lt) (completed r t passed passed (some reason) passed_cold) in
          rw (last, fine) v
      | inr more ↦
          let v : Valid cases
              (live r t e none (stage_for_case (i + 1)) (some (i + 1)) none (some reason)
                passed_cold)
              (i ∷ below i) =
            subst
              (λ log.
                Valid cases
                  (live r t e none (stage_for_case (i + 1)) (some (i + 1)) none (some reason)
                    passed_cold)
                  log)
              (below_next i)
              (testing r t e (i + 1) none (some reason) passed_cold (ground arith) tt) in
          rw (more) v
    ]

    completing :
        (mode : InstructionAction) (now e : ℕ) (acc : Option Accepted)
        (pending : Option CyrinxFallbackReason)
        → ltb max_safe_integer now ≡ false
        → AcceptedAt i acc
        → Valid cases
            (complete_rest mode now (in_case e acc pending)).1
            (with_completed (complete_rest mode now (in_case e acc pending)).0 (some i) (below i))
    completing mode now e acc (some reason) fine at = testing r t e i acc (some reason) cold lt at
    completing mode now e none none fine at = testing r t e i none none cold lt tt
    completing mode now e (some a) none fine at =
        let same : (a.case_index == i) ≡ true = ground arith in
        elim (Bool-cases (same_mode a.mode mode)) [
          | inr other ↦ rw (same, other) (testing r t e i (some a) none cold lt at)
          | inl mine ↦ elim (Option-cases (get_elem? cases i)) [
            | inl missing ↦ rw (same, mine, missing) (testing r t e i (some a) none cold lt at)
            | inr (value, found) ↦
                rw (same, mine, found, case_reason_lem, at)
                  (finishing now e (case_reason i) (passes_cold mode value.cold cold) fine)
          ]
        ]

  -- `acceptInstruction` past the deadline's check.
  abbrev accept_from : String → LiteralDirection → ℕ → Method InstructionAction
  accept_from id direction now = do
    s ← get_session
    value ← required (current_case cases s.case_index) instruction_unavailable
    index ← required s.case_index instruction_unavailable
    reject_if (is_terminal s.stage) instruction_unavailable
    accept_case id direction now value index

  pub accept_instruction-Valid :
      (id : String) (direction : LiteralDirection) (now : ℕ) (s : QualificationSession)
      (log : List ℕ)
      → Valid cases s log
      → Valid cases (accept_instruction cases id direction now s).1 log
  unfolding accept_instruction
  accept_instruction-Valid id direction now _ _ (preparing r t e _ building) =
      without_case cases r t e none stage_build none false now [] instruction_unavailable
        (accept_from id direction now) (λ passed. refl) (λ passed. preparing r t passed _ building)
        _ (assert-Checked r t e none stage_build none none none false now refl)
  accept_instruction-Valid id direction now _ _ (preparing r t e _ digital) =
      without_case cases r t e none stage_digital none false now [] instruction_unavailable
        (accept_from id direction now) (λ passed. refl) (λ passed. preparing r t passed _ digital) _
        (assert-Checked r t e none stage_digital none none none false now refl)
  accept_instruction-Valid id direction now _ _ (testing r t e i acc pending cold lt at) =
      accepted _ (
        assert-Checked r t e none (stage_for_case i) (some i) acc pending cold now
          (rw (stage_for_case_terminal i) refl))
    where
      accepted :
          (x : Result SessionError (Unit {0}) × QualificationSession)
          → Checked r t e none (stage_for_case i) (some i) acc pending cold now x
          → Valid cases (and_then x (λ _. accept_from id direction now)).1 (below i)
      accepted _ (refused error passed) = testing r t passed i acc pending cold lt at
      accepted _ (fell_back passed total reason rightly) =
          fell r t passed total reason (some i) cold (below i) rightly
      accepted _ (allowed passed fine early not_over) = elim (Option-cases (get_elem? cases i)) [
        | inl missing ↦ rw (missing) (testing r t passed i acc pending cold lt at)
        | inr (value, found) ↦
            rw (found, stage_for_case_terminal i)
              (accepting r t i cold lt id direction now passed acc pending value at)
      ]
  accept_instruction-Valid id direction now _ log (completed r t e te (some reason) cold) =
      without_case cases r t e (some te) stage_complete (some reason) cold now log
        instruction_unavailable (accept_from id direction now) (λ passed. refl)
        (λ passed. completed r t passed te (some reason) cold) _
        (assert-Checked r t e (some te) stage_complete none none (some reason) cold now refl)
  accept_instruction-Valid id direction now _ log (completed r t e te none cold) =
      rw (Stopped-assert cases now _ log (stopped_complete r t e te cold))
        (completed r t e te none cold)
  accept_instruction-Valid id direction now _ log (fresh r) =
      rw (Stopped-assert cases now _ log (stopped_new r)) (fresh r)
  accept_instruction-Valid id direction now _ log (fell r t e te reason index cold _ rightly) =
      rw (Stopped-assert cases now _ log (stopped_quiet r t e te reason index cold))
        (fell r t e te reason index cold log rightly)
  accept_instruction-Valid id direction now _ log
        (quiet_failed r t e te reason index cold _ rightly) =
      rw (Stopped-assert cases now _ log (stopped_failed r t e te reason index cold))
        (quiet_failed r t e te reason index cold log rightly)

  with_completed-none :
      (result : Result SessionError (Unit {0})) (log : List ℕ)
      → with_completed result none log ≡ log
  with_completed-none (ok done) log = refl
  with_completed-none (err e) log = refl

  pub complete_accepted-Valid :
      (mode : InstructionAction) (now : ℕ) (s : QualificationSession) (log : List ℕ)
      → Valid cases s log
      → Valid cases
          (complete_accepted cases mode now s).1
          (with_completed (complete_accepted cases mode now s).0 s.case_index log)
  unfolding complete_accepted
  complete_accepted-Valid mode now _ _ (preparing r t e _ building) = rw (with_completed-none) (
      without_case cases r t e none stage_build none false now [] instruction_not_accepted
        (complete_rest mode now) (λ passed. refl) (λ passed. preparing r t passed _ building) _
        (assert-Checked r t e none stage_build none none none false now refl))
  complete_accepted-Valid mode now _ _ (preparing r t e _ digital) = rw (with_completed-none) (
      without_case cases r t e none stage_digital none false now [] instruction_not_accepted
        (complete_rest mode now) (λ passed. refl) (λ passed. preparing r t passed _ digital) _
        (assert-Checked r t e none stage_digital none none none false now refl))
  complete_accepted-Valid mode now _ _ (testing r t e i acc pending cold lt at) = completed_case _ (
      assert-Checked r t e none (stage_for_case i) (some i) acc pending cold now
        (rw (stage_for_case_terminal i) refl))
    where
      completed_case :
          (x : Result SessionError (Unit {0}) × QualificationSession)
          → Checked r t e none (stage_for_case i) (some i) acc pending cold now x
          → Valid cases
              (and_then x (λ _. complete_rest mode now)).1
              (with_completed (and_then x (λ _. complete_rest mode now)).0 (some i) (below i))
      completed_case _ (refused error passed) = testing r t passed i acc pending cold lt at
      completed_case _ (fell_back passed total reason rightly) =
          fell r t passed total reason (some i) cold (below i) rightly
      completed_case _ (allowed passed fine early not_over) =
          completing r t i cold lt mode now passed acc pending fine at
  complete_accepted-Valid mode now _ log (completed r t e te (some reason) cold) =
      rw (with_completed-none) (
        without_case cases r t e (some te) stage_complete (some reason) cold now log
          completion_not_acknowledged (complete_rest mode now) (λ passed. refl)
          (λ passed. completed r t passed te (some reason) cold) _
          (assert-Checked r t e (some te) stage_complete none none (some reason) cold now refl))
  complete_accepted-Valid mode now _ log (completed r t e te none cold) =
      rw (Stopped-assert cases now _ log (stopped_complete r t e te cold))
        (completed r t e te none cold)
  complete_accepted-Valid mode now _ log (fresh r) =
      rw (Stopped-assert cases now _ log (stopped_new r)) (fresh r)
  complete_accepted-Valid mode now _ log (fell r t e te reason index cold _ rightly) =
      rw (Stopped-assert cases now _ log (stopped_quiet r t e te reason index cold))
        (fell r t e te reason index cold log rightly)
  complete_accepted-Valid mode now _ log (quiet_failed r t e te reason index cold _ rightly) =
      rw (Stopped-assert cases now _ log (stopped_failed r t e te reason index cold))
        (quiet_failed r t e te reason index cold log rightly)
