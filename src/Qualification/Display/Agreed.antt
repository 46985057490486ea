-- ===== src/Qualification/Display/Agreed.antt =====
-- A browser's copy that shows the run of the session accepts the session's snapshot.
use fipwave.Common.{
  ℕ, ◌+◌, ◌≡◌, refl, sym, ap, ◌∙◌, arith, ◌==◌, Bool, true, false, not, ◌&&◌, ◌⊎◌, inl, inr, List,
  none, some, Result, ok, err,
}
use mathlib.Core.Option.{some-injective}
use fipwave.Qualification.{
  CyrinxFallbackReason, QualificationCase, QualificationSession, SessionError, and_then,
}
use fipwave.Qualification.Runner.{is_some, is_idle, is_cyrinx}
use fipwave.Qualification.Snapshot.{snapshot_with}
use fipwave.Qualification.States.{
  Valid, fresh, preparing, testing, completed, fell, quiet_failed, building, digital, Call, after,
}
use fipwave.Qualification.States.Stages.{stage_for_case_idle}
use fipwave.Qualification.States.Begun.{Start, start_of, after_start}
use fipwave.Qualification.States.Fallen.{Fallen, in_quiet, in_failed, after-Fallen, Fallen-facts}
use fipwave.Qualification.Display.{
  DisplaySnapshot, DisplaySession, idle_snapshot, is_codec_idle, is_fallback, same_time,
  reason_number, keeps_reason, is_deadline, check_change, check_candidate, apply, display_snapshot,
}

abbrev pub ReasonShown : QualificationSession → DisplaySnapshot → Type 0
ReasonShown s state =
    ((state.reason_code ≡ none) × (is_fallback state.codec ≡ false))
    ⊎ ((reason : CyrinxFallbackReason) × (state.reason_code ≡ some reason) × Fallen reason s)

-- What the browser shows is of the run that the session is in.
pub data Agreed (s : QualificationSession) (state : DisplaySnapshot) : Type 0 where
  blank : state ≡ idle_snapshot → Agreed s state
  same_run :
      (t : ℕ)
      → is_codec_idle state.codec ≡ false
      → start_of s ≡ (some t, some (t + 5400000))
      → state.started_at_ms ≡ some t
      → state.deadline_at_ms ≡ some (t + 5400000)
      → ReasonShown s state
      → Agreed s state

accepted :
    (candidate state : DisplaySnapshot) (q : Bool)
    → is_codec_idle candidate.codec ≡ false
    → is_deadline candidate.started_at_ms candidate.deadline_at_ms candidate.elapsed_ms ≡ true
    → (is_cyrinx candidate.codec && is_some candidate.reason_code) ≡ false
    → (is_fallback candidate.codec && not (is_some candidate.reason_code)) ≡ false
    → ((is_codec_idle state.codec ≡ true)
        ⊎ ((same_time candidate.started_at_ms state.started_at_ms ≡ true)
            × (same_time candidate.deadline_at_ms state.deadline_at_ms ≡ true)
            × ((is_fallback state.codec && is_cyrinx candidate.codec) ≡ false)
            × (keeps_reason state.reason_code candidate.reason_code ≡ true)))
    → apply candidate (record { state = state; quiet_started = q })
      ≡ ok (record { state = candidate; quiet_started = q })
unfolding apply check_candidate check_change
accepted candidate state q busy deadline no_reason reason (inl idle) =
    simp (busy, deadline, no_reason, reason, idle)
accepted candidate state q busy deadline no_reason reason (inr (started, ends, retry, kept)) =
    ground arith

begun_stage :
    (cases : List QualificationCase) (s : QualificationSession) (log : List ℕ) (t : ℕ)
    → Valid cases s log
    → start_of s ≡ (some t, some (t + 5400000))
    → is_idle s.stage ≡ false
begun_stage cases _ _ t (fresh r) h = cc (ap (λ (x : Start). x.0) h)
begun_stage cases _ _ t (preparing r u e _ building) h = refl
begun_stage cases _ _ t (preparing r u e _ digital) h = refl
begun_stage cases _ _ t (testing r u e i acc pending cold lt here) h = stage_for_case_idle i
begun_stage cases _ _ t (completed r u e te pending cold) h = refl
begun_stage cases _ _ t (fell r u e te reason index cold log rightly) h = refl
begun_stage cases _ _ t (quiet_failed r u e te reason index cold log rightly) h = refl

pub after-Agreed :
    (cases : List QualificationCase) (c : Call) (s : QualificationSession) (log : List ℕ)
    (state : DisplaySnapshot)
    → Valid cases s log
    → Agreed s state
    → Agreed (after cases c s) state
after-Agreed cases c s log state v (blank e) = blank e
after-Agreed cases c s log state v (same_run t busy begun started ends shown) =
    same_run t busy (after_start cases c s (begun_stage cases s log t v begun) ∙ begun) started ends
      (reason_after shown)
  where
    reason_after : ReasonShown s state → ReasonShown (after cases c s) state
    reason_after (inl unknown) = inl unknown
    reason_after (inr (reason, same, f)) = inr (reason, same, after-Fallen cases reason c s f)

-- A snapshot that is taken says what the session is after it.
pub answered :
    {A B : Type 0} (x : Result SessionError A × QualificationSession)
    (f : A → QualificationSession → B) {b : B} {t : QualificationSession}
    → and_then x (λ a u. (ok (f a u), u)) ≡ (ok b, t)
    → (a : A) × (x ≡ (ok a, t)) × (b ≡ f a t)
answered (ok a, u) f {b} {t} h =
    let same : u ≡ t = ap (λ (x : Result SessionError _ × QualificationSession). x.1) h in
    (a, ap (λ (t : QualificationSession). (ok a, t)) same, cc (h, same))
answered (err e, u) f h = cc

and_false : (b : Bool) → (b && false) ≡ false
and_false b = ground arith

same_number : (n : ℕ) → (n == n) ≡ true
same_number n = ground arith

-- Both are of one run.
same_times :
    (state : DisplaySnapshot) (t u : ℕ)
    → ◌≡◌ {A = Start} (some t, some (t + 5400000)) (some u, some (u + 5400000))
    → state.started_at_ms ≡ some u
    → state.deadline_at_ms ≡ some (u + 5400000)
    → (same_time (some t) state.started_at_ms ≡ true)
      × (same_time (some (t + 5400000)) state.deadline_at_ms ≡ true)
same_times state t u begun started ends =
    let same : t ≡ u = some-injective t u (ap (λ (x : Start). x.0) begun) in
    (rw (started, same) (same_number u), rw (ends, same) (same_number (u + 5400000)))

-- A session that runs Cyrinx, with its snapshot.
live_shown :
    (t : ℕ) (s : QualificationSession) (state : DisplaySnapshot)
    → start_of s ≡ (some t, some (t + 5400000))
    → s.fallback_reason ≡ none
    → Agreed s state
    → (is_codec_idle state.codec ≡ true)
      ⊎ ((same_time (some t) state.started_at_ms ≡ true)
          × (same_time (some (t + 5400000)) state.deadline_at_ms ≡ true)
          × ((is_fallback state.codec && true) ≡ false)
          × (keeps_reason state.reason_code none ≡ true))
live_shown t s state began no_reason (blank same) =
    inl (ap (λ (g : DisplaySnapshot). is_codec_idle g.codec) same)
live_shown t s state began no_reason (same_run u busy begun started ends shown) =
    let (a, b) = same_times state t u (sym began ∙ begun) started ends in at a b shown
  where
    at :
        same_time (some t) state.started_at_ms ≡ true
        → same_time (some (t + 5400000)) state.deadline_at_ms ≡ true
        → ReasonShown s state
        → (is_codec_idle state.codec ≡ true)
          ⊎ ((same_time (some t) state.started_at_ms ≡ true)
              × (same_time (some (t + 5400000)) state.deadline_at_ms ≡ true)
              × ((is_fallback state.codec && true) ≡ false)
              × (keeps_reason state.reason_code none ≡ true))
    at a b (inl (unknown, no_fallback)) = inr (a, b, (rw (no_fallback) refl), (rw (unknown) refl))
    at a b (inr (reason, same, f)) = cc ((Fallen-facts reason s f).0, no_reason)

-- A session that has fallen back.
fallen_shown :
    (t : ℕ) (reason : CyrinxFallbackReason) (s : QualificationSession) (state : DisplaySnapshot)
    → start_of s ≡ (some t, some (t + 5400000))
    → s.fallback_reason ≡ some reason
    → Agreed s state
    → (is_codec_idle state.codec ≡ true)
      ⊎ ((same_time (some t) state.started_at_ms ≡ true)
          × (same_time (some (t + 5400000)) state.deadline_at_ms ≡ true)
          × ((is_fallback state.codec && false) ≡ false)
          × (keeps_reason state.reason_code (some reason) ≡ true))
fallen_shown t reason s state began why (blank same) =
    inl (ap (λ (g : DisplaySnapshot). is_codec_idle g.codec) same)
fallen_shown t reason s state began why (same_run u busy begun started ends shown) =
    let (a, b) = same_times state t u (sym began ∙ begun) started ends in
    inr (a, b, and_false (is_fallback state.codec), kept shown)
  where
    kept : ReasonShown s state → keeps_reason state.reason_code (some reason) ≡ true
    kept (inl (unknown, no_fallback)) = rw (unknown) refl
    kept (inr (other, same, f)) =
        let e : other ≡ reason =
          some-injective other reason (sym (Fallen-facts other s f).0 ∙ why) in
        rw (same, e) (same_number (reason_number reason))

module _ (cases : List QualificationCase) (epoch x : ℕ) (d : DisplaySession) where
  abbrev pub Applied : QualificationSession → Type 0
  Applied t =
      (next : DisplaySession) × (apply (display_snapshot (snapshot_with cases epoch (some x) t)) d
        ≡ ok next)
      × Agreed t next.state

  pub shown_started :
      (t : QualificationSession) (log : List ℕ)
      → is_codec_idle t.codec ≡ false
      → Valid cases t log
      → Agreed t d.state
      → Applied t
  unfolding display_snapshot snapshot_with
  shown_started _ _ busy (fresh r) agreed = cc
  shown_started _ _ busy (preparing r t e stage p) agreed = (
    _,
    accepted _ d.state d.quiet_started refl (same_number (t + 5400000)) refl refl
        (live_shown t _ d.state refl refl agreed),
    same_run t refl refl refl refl (inl (refl, refl)),
  )
  shown_started _ _ busy (testing r t e i acc pending cold lt here) agreed = (
    _,
    accepted _ d.state d.quiet_started refl (same_number (t + 5400000)) refl refl
        (live_shown t _ d.state refl refl agreed),
    same_run t refl refl refl refl (inl (refl, refl)),
  )
  shown_started _ _ busy (completed r t e te pending cold) agreed = (
    _,
    accepted _ d.state d.quiet_started refl (same_number (t + 5400000)) refl refl
        (live_shown t _ d.state refl refl agreed),
    same_run t refl refl refl refl (inl (refl, refl)),
  )
  shown_started _ _ busy (fell r t e te reason index cold log rightly) agreed = (
    _,
    accepted _ d.state d.quiet_started refl (same_number (t + 5400000)) refl refl
        (fallen_shown t reason _ d.state refl refl agreed),
    same_run t refl refl refl refl (inr (reason, refl, in_quiet r t e te index cold)),
  )
  shown_started _ _ busy (quiet_failed r t e te reason index cold log rightly) agreed = (
    _,
    accepted _ d.state d.quiet_started refl (same_number (t + 5400000)) refl refl
        (fallen_shown t reason _ d.state refl refl agreed),
    same_run t refl refl refl refl (inr (reason, refl, in_failed r t e te index cold)),
  )
