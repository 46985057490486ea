-- ===== src/Qualification/States/Stages.antt =====
-- The stages of the cases.
use fipwave.Common.{
  ℕ, suc, ◌+◌, ◌≡◌, refl, ap, arith, ◌==◌, false, Bool-cases, inl, inr, if◌then◌else◌, ◌∷◌, ok,
}
use fipwave.Qualification.{
  CyrinxFallbackReason, cyrinx_cold_a_to_b_failed, cyrinx_cold_b_to_a_failed, cyrinx_corpus_failed,
  QualificationSession,
}
use fipwave.Qualification.Runner.{is_terminal, is_idle, stage_for_case, failure_reason_for_stage}
use fipwave.Qualification.Cases.{is_build, is_digital, is_quiet}
use fipwave.Qualification.States.{below}

pub case_reason : ℕ → CyrinxFallbackReason
case_reason i =
    if i == 0
    then cyrinx_cold_a_to_b_failed
    else if i == 1
    then cyrinx_cold_b_to_a_failed
    else cyrinx_corpus_failed

pub stage_for_case_terminal : (i : ℕ) → is_terminal (stage_for_case i) ≡ false
stage_for_case_terminal i = ground arith

pub stage_for_case_idle : (i : ℕ) → is_idle (stage_for_case i) ≡ false
stage_for_case_idle i = ground arith

pub stage_for_case_build : (i : ℕ) → is_build (stage_for_case i) ≡ false
stage_for_case_build i = ground arith

pub stage_for_case_digital : (i : ℕ) → is_digital (stage_for_case i) ≡ false
stage_for_case_digital i = ground arith

pub stage_for_case_quiet : (i : ℕ) → is_quiet (stage_for_case i) ≡ false
stage_for_case_quiet i = ground arith

pub case_reason_lem :
    (i : ℕ) (s : QualificationSession)
    → failure_reason_for_stage (stage_for_case i) s ≡ (ok (case_reason i), s)
unfolding case_reason
case_reason_lem i s = elim (Bool-cases (i == 0)) [
  | inl first ↦ rw first
  | inr later ↦ elim (Bool-cases (i == 1)) [
    | inl second ↦ rw (later, second) refl
    | inr corpus ↦ rw (later, corpus) refl
  ]
]

pub below_next : (i : ℕ) → below (i + 1) ≡ i ∷ below i
below_next i = let e : i + 1 ≡ suc i = omega arith in ap below e
