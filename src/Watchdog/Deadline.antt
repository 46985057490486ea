-- ===== src/Watchdog/Deadline.antt =====
-- The timer of `CyrinxCaseWatchdog` while a case is active.
use fipwave.Common.{
  ℕ, ◌+◌, ◌≤◌, ◌<◌, ◌≡◌, inl, inr, refl, sym, ap, ap₂, ◌∙◌, arith, true, false, Bool-cases, List,
  [], ◌∷◌, ◌++◌, Option, none, some, leb, leb→le, if◌then◌else◌,
}
use fipwave.Common.Texts.{same_text_iff}
use fipwave.Watchdog.{
  CyrinxBrowserDirection, from_a_to_b, from_b_to_a, CyrinxBrowserCaseMode, mode_listen,
  mode_transmit, CyrinxBrowserCase, CyrinxCaseWatchdog, same_direction, same_mode,
  same_cyrinx_browser_case, has_identity, Reporting, emit_once, clear_active, arm, fires,
  serve_timer, mark_transmit_completion_sent, complete_transmit_after_authoritative_snapshot, fail,
  complete, WatchdogCall, call_arm, call_timer, call_mark, call_fail, call_complete, call_snapshot,
  call_cancel, run_call,
}
use fipwave.Watchdog.Once.{run_call-Remembers}

same_direction_refl : (d : CyrinxBrowserDirection) → same_direction d d ≡ true
same_direction_refl from_a_to_b = refl
same_direction_refl from_b_to_a = refl

same_mode_refl : (m : CyrinxBrowserCaseMode) → same_mode m m ≡ true
same_mode_refl mode_listen = refl
same_mode_refl mode_transmit = refl

same_case_refl : (v : CyrinxBrowserCase) → same_cyrinx_browser_case (some v) v ≡ true
unfolding same_cyrinx_browser_case
same_case_refl v =
    rw
      (
        same_direction_refl v.direction,
        same_mode_refl v.mode,
        (same_text_iff v.case_id v.case_id).1 refl,
      )
      (ground arith)

-- Nothing is reported, and the timer and what was reported stay.
pub record Quiet (r : Reporting) (w : CyrinxCaseWatchdog) : Type 0 where
  pub reports : r.0 ≡ []
  pub timer : r.1.timer ≡ w.timer

module _ (v : CyrinxBrowserCase) (w : CyrinxCaseWatchdog) (on : w.active ≡ some v) where
  arm-Quiet :
      (now : ℕ) (u : CyrinxBrowserCase) → (arm now u w).active ≡ some v → Quiet ([], arm now u w) w
  unfolding arm
  arm-Quiet now u e = elim (Bool-cases (same_cyrinx_browser_case w.active u)) [
    | inl same ↦ rw (same) (record { reports = refl; timer = refl })
    | inr other ↦
        let same_v : u ≡ v = ground (arith, other, e) in
        let wrong : false ≡ true =
          sym other ∙ ap₂ same_cyrinx_browser_case on same_v ∙ same_case_refl v in
        cc
  ]

  run_call-Quiet : (c : WatchdogCall) → (run_call c w).1.active ≡ some v → Quiet (run_call c w) w
  unfolding serve_timer mark_transmit_completion_sent complete_transmit_after_authoritative_snapshot
      fail complete clear_active emit_once
  run_call-Quiet (call_arm now value) e = arm-Quiet now value e
  run_call-Quiet (call_timer now) e = record {
    reports = ground (arith, e, on);
    timer = ground (arith, e, on);
  }
  run_call-Quiet (call_mark value) e = record { reports = refl; timer = ground (arith, e) }
  run_call-Quiet (call_fail value) e = record {
    reports = ground (arith, e);
    timer = ground (arith, e);
  }
  run_call-Quiet (call_complete value) e = record { reports = refl; timer = ground (arith, e) }
  run_call-Quiet (call_snapshot snapshot) e = record { reports = refl; timer = ground (arith, e) }
  run_call-Quiet call_cancel e = cc

abbrev pub run_calls : List WatchdogCall → CyrinxCaseWatchdog → CyrinxCaseWatchdog
run_calls [] w = w
run_calls (c ∷ cs) w = run_calls cs (run_call c w).1

-- After each of the calls the case is active.
abbrev pub Stays : CyrinxBrowserCase → List WatchdogCall → CyrinxCaseWatchdog → Type 0
Stays v [] w = w.active ≡ some v
Stays v (c ∷ cs) w = (w.active ≡ some v) × Stays v cs (run_call c w).1

Stays-active :
    (v : CyrinxBrowserCase) (cs : List WatchdogCall) (w : CyrinxCaseWatchdog)
    → Stays v cs w
    → w.active ≡ some v
Stays-active v [] w s = s
Stays-active v (c ∷ cs) w s = s.0

-- The case is still active, with the timer and the reports that there were.
record Waits (v : CyrinxBrowserCase) (due : Option ℕ) (reported : List CyrinxBrowserCase)
    (w : CyrinxCaseWatchdog) : Type 0 where
  active : w.active ≡ some v
  timer : w.timer ≡ due
  reports : w.reported ≡ reported

run_call-Waits :
    (v : CyrinxBrowserCase) (due : Option ℕ) (reported : List CyrinxBrowserCase) (c : WatchdogCall)
    (w : CyrinxCaseWatchdog)
    → Waits v due reported w
    → (run_call c w).1.active ≡ some v
    → Waits v due reported (run_call c w).1
run_call-Waits v due reported c w i e =
    let q = run_call-Quiet v w i.active c e in
    record {
      active = e;
      timer = q.timer ∙ i.timer;
      reports =
          (run_call-Remembers c w).kept
          ∙ ap (λ (l : List CyrinxBrowserCase). l ++ w.reported) q.reports
          ∙ i.reports;
    }

run_calls-Waits :
    (v : CyrinxBrowserCase) (due : Option ℕ) (reported : List CyrinxBrowserCase)
    (cs : List WatchdogCall) (w : CyrinxCaseWatchdog)
    → Waits v due reported w
    → Stays v cs w
    → Waits v due reported (run_calls cs w)
run_calls-Waits v due reported [] w i s = i
run_calls-Waits v due reported (c ∷ cs) w i s =
    run_calls-Waits v due reported cs (run_call c w).1
      (run_call-Waits v due reported c w i (Stays-active v cs (run_call c w).1 s.1)) s.1

served_late :
    (v : CyrinxBrowserCase) (due now : ℕ) (w : CyrinxCaseWatchdog)
    → Waits v (some due) w.reported w
    → has_identity w.reported v ≡ false
    → due ≤ now
    → ((serve_timer now w).0 ≡ v ∷ []) × ((serve_timer now w).1.active ≡ none)
unfolding serve_timer emit_once clear_active
served_late v due now w i new late =
    let due_now : fires w.timer now ≡ true = rw (i.timer) (ground (arith, late)) in
    rw (due_now, i.active, new) (refl, refl)

served_early :
    (v : CyrinxBrowserCase) (due now : ℕ) (w : CyrinxCaseWatchdog)
    → Waits v (some due) w.reported w
    → now < due
    → serve_timer now w ≡ ([], w)
unfolding serve_timer
served_early v due now w i early =
    let waits : fires w.timer now ≡ false = rw (i.timer) (ground (arith, early)) in rw (waits) refl

armed-Waits :
    (v : CyrinxBrowserCase) (start : ℕ) (w : CyrinxCaseWatchdog)
    → same_cyrinx_browser_case w.active v ≡ false
    → Waits v (some (start + w.timeout_ms)) w.reported (arm start v w)
unfolding arm clear_active
armed-Waits v start w other = rw (other) (record { active = refl; timer = refl; reports = refl })

-- Where a case is armed that is not active and has not been reported, and it stays active under further calls, which may arm it again, then serving the timers reports the case and ends it from the time on at which it was first armed plus the timeout, and before that reports nothing and leaves it active.
pub serve_timer-arm :
    (v : CyrinxBrowserCase) (start : ℕ) (w : CyrinxCaseWatchdog)
    → same_cyrinx_browser_case w.active v ≡ false
    → has_identity w.reported v ≡ false
    → (cs : List WatchdogCall) → Stays v cs (arm start v w)
    → (now : ℕ)
    → ((serve_timer now (run_calls cs (arm start v w))).0
        ≡ (if leb (start + w.timeout_ms) now then v ∷ [] else []))
      × ((serve_timer now (run_calls cs (arm start v w))).1.active
          ≡ (if leb (start + w.timeout_ms) now then none else some v))
serve_timer-arm v start w other new cs s now =
    let due = start + w.timeout_ms in
    let after = run_calls cs (arm start v w) in
    let i =
      run_calls-Waits v (some due) w.reported cs (arm start v w) (armed-Waits v start w other) s in
    let own : Waits v (some due) after.reported after = record {
      active = i.active;
      timer = i.timer;
      reports = refl;
    } in
    elim (Bool-cases (leb due now)) [
      | inl late ↦ rw (late) (
          served_late v due now after own
            (ap (λ (l : List CyrinxBrowserCase). has_identity l v) i.reports ∙ new)
            (leb→le due now late))
      | inr early ↦
          let nothing = served_early v due now after own (ground (arith, early)) in
          rw (early) (
            ap (λ (r : Reporting). r.0) nothing,
            ap (λ (r : Reporting). r.1.active) nothing ∙ i.active,
          )
    ]
