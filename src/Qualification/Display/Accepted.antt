-- ===== src/Qualification/Display/Accepted.antt =====
-- The browser's copy accepts every snapshot of the runner's session.
use fipwave.Common.{
  ℕ, ◌<◌, ◌≡◌, refl, sym, ap, ◌∙◌, arith, ltb, true, Bool-cases, ◌⊎◌, inl, inr, List, [], length,
  ok-injective, Option, none, some, Result, ok, subst,
}
use fipwave.Qualification.{
  RunnerRole, CyrinxSessionCodec, codec_unqualified, stage_unqualified, QualificationCase,
  QualificationSession, SessionError, max_safe_integer,
}
use fipwave.Qualification.Runner.{new_session, elapsed}
use fipwave.Qualification.Snapshot.{SessionSnapshot, snapshot_with, snapshot_elapsed, take_snapshot}
use fipwave.Qualification.States.{
  Valid, fresh, preparing, testing, completed, fell, quiet_failed, Call, call_snapshot, after, Runs,
  created, called, logged,
}
use fipwave.Qualification.States.Begun.{Start}
use fipwave.Qualification.States.Lasting.{Runs-Valid}
use fipwave.Qualification.Display.{
  DisplaySnapshot, DisplaySession, idle_snapshot, new_display, is_codec_idle, is_fallback, apply,
  should_start_quiet, mark_quiet_started, mark_display_failed, is_quiet_codec, display_snapshot,
}
use fipwave.Qualification.Display.Agreed.{
  Agreed, blank, same_run, after-Agreed, answered, shown_started,
}

-- The runner's session and the browser's copy, after calls of the one, snapshots sent to the other,
-- and what the browser notes of Quiet.
pub data Shown (cases : List QualificationCase)
    : QualificationSession → DisplaySession → Type 0 where
  opened : (r : RunnerRole) → Shown cases (new_session r) new_display
  bridged :
      {s : QualificationSession} {d : DisplaySession} (c : Call)
      → Shown cases s d
      → Shown cases (after cases c s) d
  displayed :
      {s t : QualificationSession} {d next : DisplaySession} {snapshot : SessionSnapshot}
      (epoch now : ℕ)
      → Shown cases s d
      → take_snapshot cases epoch now s ≡ (ok snapshot, t)
      → apply (display_snapshot snapshot) d ≡ ok next
      → Shown cases t next
  quiet_tried :
      {s : QualificationSession} {d next : DisplaySession}
      → Shown cases s d
      → mark_quiet_started d ≡ ok next
      → Shown cases s next
  quiet_given_up :
      {s : QualificationSession} {d next : DisplaySession}
      → Shown cases s d
      → mark_display_failed d ≡ ok next
      → Shown cases s next

-- The time of a snapshot, if the session has begun.
timed :
    (started te : Option ℕ) (now : ℕ) (s t : QualificationSession) (e : Option ℕ)
    → snapshot_elapsed started te now s ≡ (ok e, t)
    → ((x : ℕ) × (e ≡ some x)) ⊎ ((started ≡ none) × (s ≡ t))
timed none te now s t e h =
    inr (refl, ap (λ (x : Result SessionError (Option ℕ) × QualificationSession). x.1) h)
timed (some started) (some x) now s t e h = inl (x, cc h)
timed (some started) none now s t e h =
    let (x, _, same) = answered (elapsed now s) (λ x _. some x) h in inl (x, same)

fresh_codec :
    (cases : List QualificationCase) (s : QualificationSession) (log : List ℕ)
    → Valid cases s log
    → s.started_at_ms ≡ none
    → is_codec_idle s.codec ≡ true
fresh_codec cases _ _ (fresh r) h = refl
fresh_codec cases _ _ (preparing r t e stage p) h = cc
fresh_codec cases _ _ (testing r t e i acc pending cold lt here) h = cc
fresh_codec cases _ _ (completed r t e te pending cold) h = cc
fresh_codec cases _ _ (fell r t e te reason index cold log rightly) h = cc
fresh_codec cases _ _ (quiet_failed r t e te reason index cold log rightly) h = cc

-- A session that has not begun is shown by a copy that is idle.
idle_shown :
    (cases : List QualificationCase) (t : QualificationSession) (log : List ℕ)
    (state : DisplaySnapshot)
    → is_codec_idle t.codec ≡ true
    → Valid cases t log
    → Agreed t state
    → is_codec_idle state.codec ≡ true
idle_shown cases t log state idle v (blank same) =
    ap (λ (g : DisplaySnapshot). is_codec_idle g.codec) same
idle_shown cases _ _ state idle (fresh r) (same_run u busy begun started ends shown) =
    cc (ap (λ (x : Start). x.0) begun)
idle_shown cases _ _ state idle (preparing r t e stage p) a = cc
idle_shown cases _ _ state idle (testing r t e i acc pending cold lt here) a = cc
idle_shown cases _ _ state idle (completed r t e te pending cold) a = cc
idle_shown cases _ _ state idle (fell r t e te reason index cold log rightly) a = cc
idle_shown cases _ _ state idle (quiet_failed r t e te reason index cold log rightly) a = cc

apply_idle :
    (d : DisplaySession) → is_codec_idle d.state.codec ≡ true → apply idle_snapshot d ≡ ok d
unfolding apply
apply_idle d idle = rw (idle) refl

idle_applied :
    (cases : List QualificationCase) (epoch : ℕ) (e : Option ℕ) (t : QualificationSession)
    (d : DisplaySession)
    → is_codec_idle t.codec ≡ true
    → is_codec_idle d.state.codec ≡ true
    → apply (display_snapshot (snapshot_with cases epoch e t)) d ≡ ok d
unfolding display_snapshot snapshot_with
idle_applied cases epoch e t d idle shown_idle = rw (idle) (apply_idle d shown_idle)

-- The session after a snapshot, and what the copy makes of the snapshot.
module _ (cases : List QualificationCase) (epoch now : ℕ) (s t : QualificationSession)
    (d : DisplaySession) (log : List ℕ) (some_case : 0 < length cases)
    (runs : Runs cases s log) where
  snapshot_applied :
      (e : Option ℕ)
      → snapshot_elapsed s.started_at_ms s.terminal_elapsed_ms now s ≡ (ok e, t)
      → Valid cases t log
      → Agreed t d.state
      → (next : DisplaySession) × (apply (display_snapshot (snapshot_with cases epoch e t)) d
          ≡ ok next)
        × Agreed t next.state
  snapshot_applied e taken v agreed = elim (Bool-cases (is_codec_idle t.codec)) [
    | inl idle ↦ (
      d,
      idle_applied cases epoch e t d idle (idle_shown cases t log d.state idle v agreed),
      agreed,
    )
    | inr busy ↦ elim (timed s.started_at_ms s.terminal_elapsed_ms now s t e taken) [
      | inl (x, same) ↦ rw (same) (shown_started cases epoch x d t log busy v agreed)
      | inr (not_begun, same) ↦
          let t_not_begun : t.started_at_ms ≡ none =
            ap (λ (u : QualificationSession). u.started_at_ms) (sym same) ∙ not_begun in
          cc (busy, fresh_codec cases t log v t_not_begun)
    ]
  ]

  taken_elapsed :
      (snapshot : SessionSnapshot)
      → take_snapshot cases epoch now s ≡ (ok snapshot, t)
      → (e : Option ℕ) × (snapshot_elapsed s.started_at_ms s.terminal_elapsed_ms now s ≡ (ok e, t))
        × (snapshot ≡ snapshot_with cases epoch e t)
  unfolding take_snapshot
  taken_elapsed snapshot taken = elim (Bool-cases (ltb max_safe_integer epoch)) [
    | inl big ↦ cc (rw (big) at taken)
    | inr small ↦
        answered (snapshot_elapsed s.started_at_ms s.terminal_elapsed_ms now s)
          (snapshot_with cases epoch) (rw (small) at taken)
  ]

  taken_applied :
      (snapshot : SessionSnapshot)
      → take_snapshot cases epoch now s ≡ (ok snapshot, t)
      → Agreed s d.state
      → (Runs cases t log)
        × ((next : DisplaySession) × (apply (display_snapshot snapshot) d ≡ ok next)
            × Agreed t next.state)
  taken_applied snapshot taken agreed =
      let c = call_snapshot epoch now in
      let same : after cases c s ≡ t =
        ap (λ (x : Result SessionError SessionSnapshot × QualificationSession). x.1) taken in
      let runs_t = subst (λ t. Runs cases t log) same (called c runs) in
      let agreed_t =
        subst (λ t. Agreed t d.state) same
          (after-Agreed cases c s log d.state (Runs-Valid cases s log some_case runs) agreed) in
      let (e, elapsed_is, snapshot_is) = taken_elapsed snapshot taken in
      let (next, applied, agreed_next) =
        snapshot_applied e elapsed_is (Runs-Valid cases t log some_case runs_t) agreed_t in
      (
        runs_t,
        (
          next,
          ap (λ (g : SessionSnapshot). apply (display_snapshot g) d) snapshot_is ∙ applied,
          agreed_next,
        ),
      )

-- What the browser notes of Quiet leaves what it shows of the run.
quiet_tried-Agreed :
    (s : QualificationSession) (d next : DisplaySession)
    → Agreed s d.state
    → mark_quiet_started d ≡ ok next
    → Agreed s next.state
unfolding mark_quiet_started
quiet_tried-Agreed s d next agreed h = elim (Bool-cases (should_start_quiet d)) [
  | inl may ↦
      let same : d.state ≡ next.state =
        ap (λ (g : DisplaySession). g.state) (ok-injective (rw (may) at h)) in
      subst (Agreed s) same agreed
  | inr may_not ↦ cc (rw (may_not) at h)
]

quiet_fallback : (c : CyrinxSessionCodec) → is_quiet_codec c ≡ true → is_fallback c ≡ true
quiet_fallback c h = ground arith

given_up-Agreed :
    (s : QualificationSession) (d next : DisplaySession)
    → Agreed s d.state
    → mark_display_failed d ≡ ok next
    → Agreed s next.state
unfolding mark_display_failed
given_up-Agreed s d next agreed h = elim (Bool-cases (is_quiet_codec d.state.codec)) [
  | inr other ↦ cc (rw (other) at h)
  | inl quiet ↦
      subst (λ (g : DisplaySession). Agreed s g.state) (ok-injective (rw (quiet) at h))
        (given_up quiet agreed)
]
  where
    given_up :
        is_quiet_codec d.state.codec ≡ true
        → Agreed s d.state
        → Agreed s (record {
          codec = codec_unqualified;
          stage = stage_unqualified;
          started_at_ms = d.state.started_at_ms;
          deadline_at_ms = d.state.deadline_at_ms;
          elapsed_ms = d.state.elapsed_ms;
          reason_code = d.state.reason_code;
        })
    given_up quiet (blank same) = cc quiet
    given_up quiet (same_run t busy begun started ends (inl (unknown, no_fallback))) =
        cc (quiet_fallback d.state.codec quiet, no_fallback)
    given_up quiet (same_run t busy begun started ends (inr shown)) =
        same_run t refl begun started ends (inr shown)

Shown-facts :
    (cases : List QualificationCase) (s : QualificationSession) (d : DisplaySession)
    → 0 < length cases
    → Shown cases s d
    → (log : List ℕ) × Runs cases s log × Agreed s d.state
Shown-facts cases _ _ some_case (opened r) = ([], created r, blank refl)
Shown-facts cases _ d some_case (bridged {s} c shown) =
    let (log, runs, agreed) = Shown-facts cases s d some_case shown in
    (
      logged cases c s log,
      called c runs,
      after-Agreed cases c s log d.state (Runs-Valid cases s log some_case runs) agreed,
    )
Shown-facts cases _ _ some_case
      (displayed {s} {t} {d} {next} {snapshot} epoch now shown taken applied) =
    let (log, runs, agreed) = Shown-facts cases s d some_case shown in
    let (runs_t, (other, applied_too, agreed_next)) =
      taken_applied cases epoch now s t d log some_case runs snapshot taken agreed in
    let same : other ≡ next = ok-injective (sym applied_too ∙ applied) in
    (log, runs_t, subst (λ (g : DisplaySession). Agreed t g.state) same agreed_next)
Shown-facts cases s _ some_case (quiet_tried {d = d} {next} shown marked) =
    let (log, runs, agreed) = Shown-facts cases s d some_case shown in
    (log, runs, quiet_tried-Agreed s d next agreed marked)
Shown-facts cases s _ some_case (quiet_given_up {d = d} {next} shown marked) =
    let (log, runs, agreed) = Shown-facts cases s d some_case shown in
    (log, runs, given_up-Agreed s d next agreed marked)

-- Whatever the runner's session goes through and whichever snapshots of it the browser was sent, the
-- browser's copy accepts the next snapshot that the session gives.
pub snapshot_accepted :
    (cases : List QualificationCase) (s t : QualificationSession) (d : DisplaySession)
    (epoch now : ℕ) (snapshot : SessionSnapshot)
    → 0 < length cases
    → Shown cases s d
    → take_snapshot cases epoch now s ≡ (ok snapshot, t)
    → (next : DisplaySession) × (apply (display_snapshot snapshot) d ≡ ok next)
snapshot_accepted cases s t d epoch now snapshot some_case shown taken =
    let (log, runs, agreed) = Shown-facts cases s d some_case shown in
    let (runs_t, (next, applied, agreed_next)) =
      taken_applied cases epoch now s t d log some_case runs snapshot taken agreed in
    (next, applied)
