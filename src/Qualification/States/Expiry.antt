-- ===== src/Qualification/States/Expiry.antt =====
-- What the deadline does to a session that runs Cyrinx.
use fipwave.Common.{
  ℕ, ◌+◌, ◌-◌, ◌<◌, ◌≡◌, refl, arith, ltb, leb, Bool, true, false, not, ◌&&◌, ◌||◌, Bool-cases, inl,
  inr, Option, some, Result, ok, err,
}
use fipwave.Qualification.{
  RunnerRole, CyrinxStage, CyrinxFallbackReason, cyrinx_deadline_expired, Accepted,
  QualificationSession, SessionError, clock_invalid, deadline_expired, session_terminal,
  max_safe_integer, and_then, ◌>>=◌, ◌>>◌, reject_if, get_session,
}
use fipwave.Qualification.Runner.{
  max, is_terminal, is_cyrinx, is_over, elapsed, or_zero, terminal_elapsed, fall_back, activate,
  expire_at, expire, force_deadline_expiry, activate_at, activate_fallback, assert_before_deadline,
}
use fipwave.Qualification.States.{live, fallen, FellRightly}

module _ (r : RunnerRole) (t e : ℕ) (te : Option ℕ) (stage : CyrinxStage) (index : Option ℕ)
    (acc : Option Accepted) (pending : Option CyrinxFallbackReason) (cold : Bool) where
  abbrev session : ℕ → QualificationSession
  session passed = live r t passed te stage index acc pending cold

  -- The answers of a method that may fall back, with the sessions they leave.
  pub data Ended (now : ℕ) : Result SessionError Bool × QualificationSession → Type 0 where
    clock : Ended now (err clock_invalid, session e)
    in_time :
        (passed : ℕ)
        → ltb max_safe_integer now ≡ false
        → now < t + 5400000
        → Ended now (ok false, session passed)
    late :
        (passed total : ℕ) (reason : CyrinxFallbackReason)
        → FellRightly reason total
        → Ended now (ok true, fallen r t passed total reason index cold)

  terminal-FellRightly :
      (reason : CyrinxFallbackReason) (passed : ℕ)
      → FellRightly reason (terminal_elapsed reason passed)
  terminal-FellRightly reason passed same = rw (same) (ground arith)

  elapsed_fine :
      (now : ℕ) (s : QualificationSession)
      → ltb max_safe_integer now ≡ false
      → s.started_at_ms ≡ some t
      → elapsed now s ≡ (
        ok (max (or_zero s.last_elapsed_ms) (now - t)),
        record s { last_elapsed_ms = some (max (or_zero s.last_elapsed_ms) (now - t)) },
      )
  unfolding elapsed
  elapsed_fine now s fine started = simp (fine, started)

  fall_back_fine :
      (reason : CyrinxFallbackReason) (now passed : ℕ)
      → ltb max_safe_integer now ≡ false
      → fall_back reason now (session passed) ≡ (
        ok true,
        fallen r t
            (max passed (now - t))
            (terminal_elapsed reason (max passed (now - t)))
            reason
            index
            cold,
      )
  unfolding fall_back elapsed
  fall_back_fine reason now passed fine = simp fine

  activate_fine :
      (reason : CyrinxFallbackReason) (now passed : ℕ)
      → ltb max_safe_integer now ≡ false
      → is_over (session e) ≡ false
      → activate reason now (session passed) ≡ (
        ok true,
        fallen r t
            (max passed (now - t))
            (terminal_elapsed reason (max passed (now - t)))
            reason
            index
            cold,
      )
  unfolding activate
  activate_fine reason now passed fine going = rw (going) (fall_back_fine reason now passed fine)

  activate-Ended :
      (reason : CyrinxFallbackReason) (now passed : ℕ)
      → ltb max_safe_integer now ≡ false
      → is_over (session e) ≡ false
      → Ended now (activate reason now (session passed))
  activate-Ended reason now passed fine going =
      rw (activate_fine reason now passed fine going)
        (late _ _ reason (terminal-FellRightly reason _))

  -- While the session is not over, it expires at the deadline.
  pub expire-Ended : (now : ℕ) → is_over (session e) ≡ false → Ended now (expire now (session e))
  unfolding expire expire_at
  expire-Ended now going = elim (Bool-cases (ltb max_safe_integer now)) [
    | inl big ↦ rw (going, big) clock
    | inr fine ↦
        let passed = max e (now - t) in
        elim (Bool-cases (ltb now (t + 5400000) && ltb passed 5400000)) [
          | inl early ↦
              rw (going, fine, elapsed_fine now (session e) fine refl, early)
                (in_time passed fine (ground arith))
          | inr over ↦
              rw (going, fine, elapsed_fine now (session e) fine refl, over)
                (activate-Ended cyrinx_deadline_expired now passed fine going)
        ]
  ]

  pub force_deadline_expiry-Ended :
      (now : ℕ) → is_over (session e) ≡ false → Ended now (force_deadline_expiry now (session e))
  unfolding force_deadline_expiry
  force_deadline_expiry-Ended now going = elim (Bool-cases (ltb max_safe_integer now)) [
    | inl big ↦ rw (going, big) clock
    | inr fine ↦ rw (going, fine) (activate-Ended cyrinx_deadline_expired now e fine going)
  ]

  pub activate_fallback-Ended :
      (reason : CyrinxFallbackReason) (now : ℕ)
      → is_over (session e) ≡ false
      → Ended now (activate_fallback reason now (session e))
  unfolding activate_fallback activate_at
  activate_fallback-Ended reason now going = elim (Bool-cases (ltb max_safe_integer now)) [
    | inl big ↦ rw (going, big) clock
    | inr fine ↦
        let passed = max e (now - t) in
        elim (Bool-cases (leb (t + 5400000) now || leb 5400000 passed)) [
          | inl over ↦
              rw (going, fine, elapsed_fine now (session e) fine refl, over)
                (activate-Ended cyrinx_deadline_expired now passed fine going)
          | inr early ↦
              rw (going, fine, elapsed_fine now (session e) fine refl, early)
                (activate-Ended reason now passed fine going)
        ]
  ]

  -- What `#assertBeforeDeadline` answers.
  pub data Checked (now : ℕ) : Result SessionError (Unit {0}) × QualificationSession → Type 0 where
    refused : (error : SessionError) (passed : ℕ) → Checked now (err error, session passed)
    fell_back :
        (passed total : ℕ) (reason : CyrinxFallbackReason)
        → FellRightly reason total
        → Checked now (err deadline_expired, fallen r t passed total reason index cold)
    allowed :
        (passed : ℕ)
        → ltb max_safe_integer now ≡ false
        → now < t + 5400000
        → is_terminal stage ≡ false
        → Checked now (ok tt, session passed)

  Checked-Ended :
      (now : ℕ) (x : Result SessionError Bool × QualificationSession)
      → Ended now x
      → Checked now (
          and_then x (λ expired.
            reject_if expired deadline_expired
            >> (get_session >>= λ s.
                reject_if (is_terminal s.stage || not (is_cyrinx s.codec)) session_terminal)))
  Checked-Ended now _ clock = refused clock_invalid e
  Checked-Ended now _ (in_time passed fine early) = elim (Bool-cases (is_terminal stage)) [
    | inl over ↦ rw (over) (refused session_terminal passed)
    | inr going ↦ rw (going) (allowed passed fine early going)
  ]
  Checked-Ended now _ (late passed total reason rightly) = fell_back passed total reason rightly

  pub assert-Checked :
      (now : ℕ) → is_over (session e) ≡ false → Checked now (assert_before_deadline now (session e))
  unfolding assert_before_deadline
  assert-Checked now going = Checked-Ended now _ (expire-Ended now going)
