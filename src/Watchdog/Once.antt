-- ===== src/Watchdog/Once.antt =====
-- The reports of `CyrinxCaseWatchdog` over its calls.
use fipwave.Common.{
  ℕ, ◌≡◌, inl, inr, refl, subst, arith, false, Bool-cases, List, [], ◌∷◌, ◌++◌, Option, none, some,
  ok,
}
use fipwave.Watchdog.{
  CyrinxBrowserCase, CyrinxCaseWatchdog, new_watchdog, same_cyrinx_browser_case, has_identity,
  Reporting, emit_once, clear_active, arm, fires, on_timeout, serve_timer,
  mark_transmit_completion_sent, complete_transmit_after_authoritative_snapshot, fail, complete,
  WatchdogCall, call_arm, call_timer, call_mark, call_fail, call_complete, call_snapshot,
  call_cancel, run_call,
}

-- No two of the cases have the same identity.
abbrev pub Distinct : List CyrinxBrowserCase → Type 0
Distinct [] = Unit {0}
Distinct (c ∷ cs) = (has_identity cs c ≡ false) × Distinct cs

-- The watchdogs that calls lead to, with the cases that they have reported, the last one first.
pub data Watched (timeout_ms : ℕ) : List CyrinxBrowserCase → CyrinxCaseWatchdog → Type 0 where
  created : {w : CyrinxCaseWatchdog} → new_watchdog timeout_ms ≡ ok w → Watched timeout_ms [] w
  called :
      {h : List CyrinxBrowserCase} {w : CyrinxCaseWatchdog} (c : WatchdogCall)
      → Watched timeout_ms h w
      → Watched timeout_ms ((run_call c w).0 ++ h) (run_call c w).1

-- What is reported is remembered, and was not reported before.
pub record Remembers (before : List CyrinxBrowserCase) (r : Reporting) : Type 0 where
  pub kept : r.1.reported ≡ r.0 ++ before
  pub distinct : Distinct before → Distinct (r.0 ++ before)

silent :
    (w : CyrinxCaseWatchdog) (before : List CyrinxBrowserCase)
    → w.reported ≡ before
    → Remembers before ([], w)
silent w before e = record { kept = e; distinct = λ d. d }

emit_once-Remembers :
    (value : CyrinxBrowserCase) (w : CyrinxCaseWatchdog) → Remembers w.reported (emit_once value w)
unfolding emit_once
emit_once-Remembers value w = elim (Bool-cases (has_identity w.reported value)) [
  | inl has ↦ rw (has) (silent w w.reported refl)
  | inr new ↦ rw (new) (record { kept = refl; distinct = λ d. (new, d) })
]

on_timeout-Remembers :
    (active : Option CyrinxBrowserCase) (w : CyrinxCaseWatchdog)
    → Remembers w.reported (on_timeout active w)
unfolding clear_active
on_timeout-Remembers none w = silent w w.reported refl
on_timeout-Remembers (some active) w = emit_once-Remembers active (clear_active w)

serve_timer-Remembers :
    (now : ℕ) (w : CyrinxCaseWatchdog) → Remembers w.reported (serve_timer now w)
unfolding serve_timer
serve_timer-Remembers now w = elim (Bool-cases (fires w.timer now)) [
  | inl due ↦ rw (due) (on_timeout-Remembers w.active w)
  | inr early ↦ rw (early) (silent w w.reported refl)
]

fail-Remembers :
    (value : CyrinxBrowserCase) (w : CyrinxCaseWatchdog) → Remembers w.reported (fail value w).1
unfolding fail clear_active
fail-Remembers value w = elim (Bool-cases (same_cyrinx_browser_case w.active value)) [
  | inl same ↦ rw (same) (emit_once-Remembers value (clear_active w))
  | inr other ↦ rw (other) (silent w w.reported refl)
]

-- Each call does.
pub run_call-Remembers :
    (c : WatchdogCall) (w : CyrinxCaseWatchdog) → Remembers w.reported (run_call c w)
unfolding arm mark_transmit_completion_sent complete_transmit_after_authoritative_snapshot complete
    clear_active
run_call-Remembers (call_arm now value) w = silent (arm now value w) w.reported (ground arith)
run_call-Remembers (call_timer now) w = serve_timer-Remembers now w
run_call-Remembers (call_mark value) w =
    silent (mark_transmit_completion_sent value w).1 w.reported (ground arith)
run_call-Remembers (call_fail value) w = fail-Remembers value w
run_call-Remembers (call_complete value) w = silent (complete value w).1 w.reported (ground arith)
run_call-Remembers (call_snapshot snapshot) w =
    silent (complete_transmit_after_authoritative_snapshot snapshot w).1 w.reported (ground arith)
run_call-Remembers call_cancel w = silent (clear_active w) w.reported refl

Watched-reported :
    (timeout_ms : ℕ) (h : List CyrinxBrowserCase) (w : CyrinxCaseWatchdog)
    → Watched timeout_ms h w
    → (w.reported ≡ h) × Distinct h
unfolding new_watchdog
Watched-reported timeout_ms _ _ (created e) = (ground arith, tt)
Watched-reported timeout_ms _ _ (called {h} {w} c r) =
    let (same, distinct) = Watched-reported timeout_ms h w r in
    let m =
      subst (λ (l : List CyrinxBrowserCase). Remembers l (run_call c w)) same
        (run_call-Remembers c w) in
    (m.kept, m.distinct distinct)

-- Whatever calls follow one another, no two of the cases that `onFailure` is called with have the same epoch, direction and id.
pub Watched-Distinct :
    (timeout_ms : ℕ) (h : List CyrinxBrowserCase) (w : CyrinxCaseWatchdog)
    → Watched timeout_ms h w
    → Distinct h
Watched-Distinct timeout_ms h w r = (Watched-reported timeout_ms h w r).1
