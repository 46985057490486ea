-- ===== src/Watchdog/Examples.antt =====
-- Runs of the watchdog, and its theorems at concrete inputs.
use fipwave.Common.{◌+◌, ◌≡◌, refl, false, List, [], ◌∷◌, ◌++◌, leb, if◌then◌else◌, none, some, ok}
use fipwave.Common.Texts.{same_text}
use fipwave.Watchdog.{
  cyrinx_browser_case_timeout_ms, from_a_to_b, mode_transmit, CyrinxBrowserCase, CyrinxCaseWatchdog,
  new_watchdog, same_identity, same_cyrinx_browser_case, emit_once, clear_active, arm, serve_timer,
  mark_transmit_completion_sent, fail, WatchdogCall, call_arm, call_timer, call_mark, call_fail,
  run_call,
}
use fipwave.Watchdog.Once.{Distinct, Watched, created, called, Watched-Distinct}
use fipwave.Watchdog.Deadline.{run_calls, Stays, serve_timer-arm}

abbrev watched_case : CyrinxBrowserCase
watched_case = record { epoch = 3; case_id = "cold"; direction = from_a_to_b; mode = mode_transmit }

abbrev idle_watchdog : CyrinxCaseWatchdog
idle_watchdog = record {
  timeout_ms = cyrinx_browser_case_timeout_ms;
  active = none;
  transmit_completion_sent = false;
  timer = none;
  reported = [];
}

idle_watchdog_new : new_watchdog cyrinx_browser_case_timeout_ms ≡ ok idle_watchdog
unfolding new_watchdog
idle_watchdog_new = refl

-- The case is armed, fails, is armed once more and fails by the timer.
abbrev failed_twice : List WatchdogCall
failed_twice =
    call_arm 100 watched_case
    ∷ call_fail watched_case
    ∷ call_arm 200 watched_case
    ∷ call_timer 90000
    ∷ []

abbrev reports_of : List WatchdogCall → CyrinxCaseWatchdog → List CyrinxBrowserCase
reports_of [] w = []
reports_of (c ∷ cs) w = (run_call c w).0 ++ reports_of cs (run_call c w).1

one_report : reports_of failed_twice idle_watchdog ≡ watched_case ∷ []
unfolding arm fail serve_timer emit_once clear_active same_cyrinx_browser_case same_identity
    same_text
one_report = refl

abbrev failed_once : CyrinxCaseWatchdog
failed_once = (run_call (call_fail watched_case) (arm 100 watched_case idle_watchdog)).1

failed_once-Watched : Watched cyrinx_browser_case_timeout_ms (watched_case ∷ []) failed_once
unfolding arm fail emit_once clear_active same_cyrinx_browser_case same_identity same_text
failed_once-Watched =
    called (call_fail watched_case) (called (call_arm 100 watched_case) (created idle_watchdog_new))

Watched-Distinct_example : Distinct (watched_case ∷ [])
Watched-Distinct_example =
    Watched-Distinct cyrinx_browser_case_timeout_ms (watched_case ∷ []) failed_once
      failed_once-Watched

-- Armed again, and with the completion of the transmission sent.
abbrev while_active : List WatchdogCall
while_active = call_arm 9000 watched_case ∷ call_mark watched_case ∷ []

watched_case-Stays : Stays watched_case while_active (arm 100 watched_case idle_watchdog)
unfolding arm clear_active mark_transmit_completion_sent same_cyrinx_browser_case same_text
watched_case-Stays = (refl, (refl, refl))

not_active : same_cyrinx_browser_case idle_watchdog.active watched_case ≡ false
unfolding same_cyrinx_browser_case
not_active = refl

abbrev armed_twice : CyrinxCaseWatchdog
armed_twice = run_calls while_active (arm 100 watched_case idle_watchdog)

serve_timer-arm_example :
    ((serve_timer 25100 armed_twice).0
      ≡ (if leb (100 + 25000) 25100 then watched_case ∷ [] else []))
    × ((serve_timer 25100 armed_twice).1.active
        ≡ (if leb (100 + 25000) 25100 then none else some watched_case))
serve_timer-arm_example =
    serve_timer-arm watched_case 100 idle_watchdog not_active refl while_active watched_case-Stays
      25100
