-- ===== src/Qualification/States/Fallen.antt =====
-- A session that has fallen back stays so.
use fipwave.Common.{
  ℕ, ◌<◌, ◌≡◌, refl, subst, ltb, Bool, false, Bool-cases, inl, inr, List, [], ◌∷◌, length, Option,
  some, err,
}
use mathlib.Core.Option.{some-injective}
use fipwave.Qualification.{
  RunnerRole, CyrinxFallbackReason, QualificationCase, QualificationSession, max_safe_integer,
  session_terminal,
}
use fipwave.Qualification.Runner.{
  is_cyrinx, start, expire, force_deadline_expiry, activate_fallback, fail_current,
  assert_before_deadline,
}
use fipwave.Qualification.Cases.{
  complete_build, complete_digital, accept_instruction, complete_accepted,
  acknowledge_accepted_completion, abort_case, operator_reset, mark_quiet_failed,
}
use fipwave.Qualification.Snapshot.{take_snapshot}
use fipwave.Qualification.States.{
  fallen, failed, Valid, fresh, preparing, testing, completed, fell, quiet_failed, Call, call_start,
  call_complete_build, call_complete_digital, call_accept, call_complete, call_acknowledge,
  call_abort, call_quiet_failed, call_reset, call_expire, call_force, call_fail, call_snapshot,
  call_fallback, after, Runs,
}
use fipwave.Qualification.States.Lasting.{Runs-Valid}

-- A session that fell back for a reason.
pub data Fallen (reason : CyrinxFallbackReason) : QualificationSession → Type 0 where
  in_quiet :
      (r : RunnerRole) (t e te : ℕ) (index : Option ℕ) (cold : Bool)
      → Fallen reason (fallen r t e te reason index cold)
  in_failed :
      (r : RunnerRole) (t e te : ℕ) (index : Option ℕ) (cold : Bool)
      → Fallen reason (failed (fallen r t e te reason index cold))

pub Valid-Fallen :
    (cases : List QualificationCase) (s : QualificationSession) (log : List ℕ)
    (reason : CyrinxFallbackReason)
    → Valid cases s log
    → s.fallback_reason ≡ some reason
    → Fallen reason s
Valid-Fallen cases _ _ reason (fresh r) h = cc
Valid-Fallen cases _ _ reason (preparing r t e stage p) h = cc
Valid-Fallen cases _ _ reason (testing r t e i acc pending cold lt here) h = cc
Valid-Fallen cases _ _ reason (completed r t e te pending cold) h = cc
Valid-Fallen cases _ _ reason (fell r t e te other index cold log rightly) h =
    let same : other ≡ reason = some-injective other reason h in
    subst (λ reason. Fallen reason (fallen r t e te other index cold)) same
      (in_quiet r t e te index cold)
Valid-Fallen cases _ _ reason (quiet_failed r t e te other index cold log rightly) h =
    let same : other ≡ reason = some-injective other reason h in
    subst (λ reason. Fallen reason (failed (fallen r t e te other index cold))) same
      (in_failed r t e te index cold)

-- A session that has fallen answers a call without a change, but that Quiet may fail too.
Fallen-assert :
    (reason : CyrinxFallbackReason) (now : ℕ) (s : QualificationSession)
    → Fallen reason s
    → assert_before_deadline now s ≡ (err session_terminal, s)
unfolding assert_before_deadline expire
Fallen-assert reason now _ (in_quiet r t e te index cold) = refl
Fallen-assert reason now _ (in_failed r t e te index cold) = refl

pub after-Fallen :
    (cases : List QualificationCase) (reason : CyrinxFallbackReason) (c : Call)
    (s : QualificationSession)
    → Fallen reason s
    → Fallen reason (after cases c s)
unfolding start complete_build complete_digital acknowledge_accepted_completion abort_case
    mark_quiet_failed operator_reset expire force_deadline_expiry fail_current activate_fallback
    take_snapshot accept_instruction complete_accepted
after-Fallen cases reason (call_start now) _ (in_quiet r t e te index cold) =
    elim (Bool-cases (ltb max_safe_integer now)) [
      | inl big ↦ rw (after, big) (in_quiet r t e te index cold)
      | inr fine ↦ rw (after, fine) (in_quiet r t e te index cold)
    ]
after-Fallen cases reason (call_start now) _ (in_failed r t e te index cold) =
    elim (Bool-cases (ltb max_safe_integer now)) [
      | inl big ↦ rw (after, big) (in_failed r t e te index cold)
      | inr fine ↦ rw (after, fine) (in_failed r t e te index cold)
    ]
after-Fallen cases reason (call_complete_build now) _ (in_quiet r t e te index cold) =
    in_quiet r t e te index cold
after-Fallen cases reason (call_complete_build now) _ (in_failed r t e te index cold) =
    in_failed r t e te index cold
after-Fallen cases reason (call_complete_digital now) _ (in_quiet r t e te index cold) =
    in_quiet r t e te index cold
after-Fallen cases reason (call_complete_digital now) _ (in_failed r t e te index cold) =
    in_failed r t e te index cold
after-Fallen cases reason (call_accept id direction now) s f =
    rw (after, Fallen-assert reason now s f) f
after-Fallen cases reason (call_complete mode now) s f = rw (after, Fallen-assert reason now s f) f
after-Fallen cases reason call_acknowledge _ (in_quiet r t e te index cold) =
    in_quiet r t e te index cold
after-Fallen cases reason call_acknowledge _ (in_failed r t e te index cold) =
    in_failed r t e te index cold
after-Fallen cases reason call_abort _ (in_quiet r t e te index cold) = in_quiet r t e te index cold
after-Fallen cases reason call_abort _ (in_failed r t e te index cold) =
    in_failed r t e te index cold
after-Fallen cases reason call_quiet_failed _ (in_quiet r t e te index cold) =
    in_failed r t e te index cold
after-Fallen cases reason call_quiet_failed _ (in_failed r t e te index cold) =
    in_failed r t e te index cold
after-Fallen cases reason (call_reset now) _ (in_quiet r t e te index cold) =
    in_quiet r t e te index cold
after-Fallen cases reason (call_reset now) _ (in_failed r t e te index cold) =
    in_failed r t e te index cold
after-Fallen cases reason (call_expire now) _ (in_quiet r t e te index cold) =
    in_quiet r t e te index cold
after-Fallen cases reason (call_expire now) _ (in_failed r t e te index cold) =
    in_failed r t e te index cold
after-Fallen cases reason (call_force now) _ (in_quiet r t e te index cold) =
    in_quiet r t e te index cold
after-Fallen cases reason (call_force now) _ (in_failed r t e te index cold) =
    in_failed r t e te index cold
after-Fallen cases reason (call_fail now) _ (in_quiet r t e te index cold) =
    in_quiet r t e te index cold
after-Fallen cases reason (call_fail now) _ (in_failed r t e te index cold) =
    in_failed r t e te index cold
after-Fallen cases reason (call_fallback other now) _ (in_quiet r t e te index cold) =
    in_quiet r t e te index cold
after-Fallen cases reason (call_fallback other now) _ (in_failed r t e te index cold) =
    in_failed r t e te index cold
after-Fallen cases reason (call_snapshot epoch now) _ (in_quiet r t e te index cold) =
    elim (Bool-cases (ltb max_safe_integer epoch)) [
      | inl big ↦ rw (after, big) (in_quiet r t e te index cold)
      | inr small ↦ rw (after, small) (in_quiet r t e te index cold)
    ]
after-Fallen cases reason (call_snapshot epoch now) _ (in_failed r t e te index cold) =
    elim (Bool-cases (ltb max_safe_integer epoch)) [
      | inl big ↦ rw (after, big) (in_failed r t e te index cold)
      | inr small ↦ rw (after, small) (in_failed r t e te index cold)
    ]

abbrev pub after_all :
    List QualificationCase → List Call → QualificationSession → QualificationSession
after_all cases [] s = s
after_all cases (c ∷ cs) s = after_all cases cs (after cases c s)

after_all-Fallen :
    (cases : List QualificationCase) (reason : CyrinxFallbackReason) (cs : List Call)
    (s : QualificationSession)
    → Fallen reason s
    → Fallen reason (after_all cases cs s)
after_all-Fallen cases reason [] s f = f
after_all-Fallen cases reason (c ∷ cs) s f =
    after_all-Fallen cases reason cs (after cases c s) (after-Fallen cases reason c s f)

pub Fallen-facts :
    (reason : CyrinxFallbackReason) (s : QualificationSession)
    → Fallen reason s
    → (s.fallback_reason ≡ some reason) × (is_cyrinx s.codec ≡ false)
Fallen-facts reason _ (in_quiet r t e te index cold) = (refl, refl)
Fallen-facts reason _ (in_failed r t e te index cold) = (refl, refl)

-- A session that has fallen back for a reason keeps the reason, whatever is called afterwards, and
-- never runs Cyrinx again.
pub fallback_lasts :
    (cases : List QualificationCase) (s : QualificationSession) (log : List ℕ)
    (reason : CyrinxFallbackReason) (cs : List Call)
    → 0 < length cases
    → Runs cases s log
    → s.fallback_reason ≡ some reason
    → ((after_all cases cs s).fallback_reason ≡ some reason)
      × (is_cyrinx (after_all cases cs s).codec ≡ false)
fallback_lasts cases s log reason cs some_case runs h = Fallen-facts reason _ (
    after_all-Fallen cases reason cs s
      (Valid-Fallen cases s log reason (Runs-Valid cases s log some_case runs) h))
