-- ===== src/Watchdog.antt =====
-- `CyrinxCaseWatchdog` of apps/modem-ui/src/cyrinx-case-watchdog.ts: the browser's deadline for one
-- case of the Cyrinx qualification. A method takes the time and the watchdog to its answer, the cases
-- that it reports by `onFailure`, and the watchdog. The timer is kept as the time at which it fires;
-- clearTimeout keeps a timer from firing.
pub mod Once
pub mod Deadline
pub mod Examples
use fipwave.Common.{
  ℕ, ◌+◌, ◌==◌, ◌!=◌, leb, not, ◌||◌, ◌&&◌, if◌then◌else◌, Bool, true, false, List, [], ◌∷◌, Option,
  none, some, Result, ok, fail_if, ◌>>=◌, ◌>>◌,
}
use Prim.Native.String.{String}
use fipwave.Common.Texts.{same_text}

abbrev pub cyrinx_browser_case_timeout_ms : ℕ
cyrinx_browser_case_timeout_ms = 25000

pub data CyrinxBrowserCaseMode : Type 0 where
  mode_listen mode_transmit : CyrinxBrowserCaseMode

pub data CyrinxBrowserDirection : Type 0 where
  from_a_to_b from_b_to_a : CyrinxBrowserDirection

pub record CyrinxBrowserCase : Type 0 where
  pub epoch : ℕ
  pub case_id : String
  pub direction : CyrinxBrowserDirection
  pub mode : CyrinxBrowserCaseMode

pub data SnapshotCodec : Type 0 where
  snapshot_idle snapshot_cyrinx snapshot_quiet snapshot_unqualified : SnapshotCodec

pub record CyrinxAuthoritativeCaseSnapshot : Type 0 where
  pub epoch : ℕ
  pub codec : SnapshotCodec
  pub terminal : Bool
  pub instruction : Option CyrinxBrowserCase

abbrev pub same_direction : CyrinxBrowserDirection → CyrinxBrowserDirection → Bool
same_direction from_a_to_b from_a_to_b = true
same_direction from_a_to_b from_b_to_a = false
same_direction from_b_to_a from_a_to_b = false
same_direction from_b_to_a from_b_to_a = true

abbrev pub is_transmit : CyrinxBrowserCaseMode → Bool
is_transmit mode_transmit = true
is_transmit mode_listen = false

abbrev pub same_mode : CyrinxBrowserCaseMode → CyrinxBrowserCaseMode → Bool
same_mode mode_listen mode_listen = true
same_mode mode_listen mode_transmit = false
same_mode mode_transmit mode_listen = false
same_mode mode_transmit mode_transmit = true

abbrev pub is_cyrinx_codec : SnapshotCodec → Bool
is_cyrinx_codec snapshot_cyrinx = true
is_cyrinx_codec snapshot_idle = false
is_cyrinx_codec snapshot_quiet = false
is_cyrinx_codec snapshot_unqualified = false

-- Equality of what `identity` joins by a NUL, which no epoch and no direction holds.
unfoldable pub same_identity : CyrinxBrowserCase → CyrinxBrowserCase → Bool
same_identity a b =
    (a.epoch == b.epoch) && same_direction a.direction b.direction && same_text a.case_id b.case_id

unfoldable pub same_cyrinx_browser_case : Option CyrinxBrowserCase → CyrinxBrowserCase → Bool
same_cyrinx_browser_case none right = false
same_cyrinx_browser_case (some left) right =
    (left.epoch == right.epoch)
    && same_direction left.direction right.direction
    && same_text left.case_id right.case_id
    && same_mode left.mode right.mode

pub record CyrinxCaseWatchdog : Type 0 where
  pub timeout_ms : ℕ
  pub active : Option CyrinxBrowserCase
  pub transmit_completion_sent : Bool
  pub timer : Option ℕ
  -- The cases whose identities `#reported` has.
  pub reported : List CyrinxBrowserCase

pub data WatchdogError : Type 0 where
  timeout_invalid : WatchdogError

unfoldable pub new_watchdog : ℕ → Result WatchdogError CyrinxCaseWatchdog
new_watchdog timeout_ms = do
  fail_if (timeout_ms == 0) timeout_invalid
  ok (record {
    timeout_ms = timeout_ms;
    active = none;
    transmit_completion_sent = false;
    timer = none;
    reported = [];
  })

-- `#reported.has`
abbrev pub has_identity : List CyrinxBrowserCase → CyrinxBrowserCase → Bool
has_identity [] value = false
has_identity (c ∷ cs) value = same_identity c value || has_identity cs value

-- The cases that a method reports, with the watchdog after it.
abbrev pub Reporting : Type 0
Reporting = List CyrinxBrowserCase × CyrinxCaseWatchdog

unfoldable pub emit_once : CyrinxBrowserCase → CyrinxCaseWatchdog → Reporting
emit_once value w =
    if has_identity w.reported value
    then ([], w)
    else (value ∷ [], record w { reported = value ∷ w.reported })

unfoldable pub clear_active : CyrinxCaseWatchdog → CyrinxCaseWatchdog
clear_active w = record w { timer = none; active = none; transmit_completion_sent = false }

-- `cancel` is `clearActive`.
unfoldable pub arm : ℕ → CyrinxBrowserCase → CyrinxCaseWatchdog → CyrinxCaseWatchdog
arm now value w =
    if same_cyrinx_browser_case w.active value
    then w
    else record (clear_active w) { active = some value; timer = some (now + w.timeout_ms) }

-- The timer's callback.
abbrev pub on_timeout : Option CyrinxBrowserCase → CyrinxCaseWatchdog → Reporting
on_timeout none w = ([], w)
on_timeout (some active) w = emit_once active (clear_active w)

abbrev pub fires : Option ℕ → ℕ → Bool
fires none now = false
fires (some due) now = leb due now

-- The timers are served at a time.
unfoldable pub serve_timer : ℕ → CyrinxCaseWatchdog → Reporting
serve_timer now w = if fires w.timer now then on_timeout w.active w else ([], w)

unfoldable pub mark_transmit_completion_sent :
    CyrinxBrowserCase → CyrinxCaseWatchdog → Bool × CyrinxCaseWatchdog
mark_transmit_completion_sent value w =
    if not (is_transmit value.mode) || not (same_cyrinx_browser_case w.active value)
    then (false, w)
    else (true, record w { transmit_completion_sent = true })

abbrev pub other_instruction : CyrinxBrowserCase → Option CyrinxBrowserCase → Bool
other_instruction active none = false
other_instruction active (some instruction) =
    not (same_cyrinx_browser_case (some active) instruction)

-- The runner has gone on from the case.
abbrev pub advanced : CyrinxBrowserCase → CyrinxAuthoritativeCaseSnapshot → Bool
advanced active snapshot =
    not (is_cyrinx_codec snapshot.codec)
    || snapshot.terminal
    || other_instruction active snapshot.instruction

abbrev pub transmit_completed :
    Option CyrinxBrowserCase → Bool → CyrinxAuthoritativeCaseSnapshot → Bool
transmit_completed none sent snapshot = false
transmit_completed (some active) sent snapshot =
    is_transmit active.mode && (active.epoch == snapshot.epoch) && sent && advanced active snapshot

unfoldable pub complete_transmit_after_authoritative_snapshot :
    CyrinxAuthoritativeCaseSnapshot → CyrinxCaseWatchdog → Bool × CyrinxCaseWatchdog
complete_transmit_after_authoritative_snapshot snapshot w =
    if transmit_completed w.active w.transmit_completion_sent snapshot
    then (true, clear_active w)
    else (false, w)

unfoldable pub fail : CyrinxBrowserCase → CyrinxCaseWatchdog → Bool × Reporting
fail value w =
    if same_cyrinx_browser_case w.active value
    then (true, emit_once value (clear_active w))
    else (false, ([], w))

unfoldable pub complete : CyrinxBrowserCase → CyrinxCaseWatchdog → Bool × CyrinxCaseWatchdog
complete value w =
    if same_cyrinx_browser_case w.active value then (true, clear_active w) else (false, w)

-- A call of a method, or the timers served.
pub data WatchdogCall : Type 0 where
  call_arm : ℕ → CyrinxBrowserCase → WatchdogCall
  call_timer : ℕ → WatchdogCall
  call_mark call_fail call_complete : CyrinxBrowserCase → WatchdogCall
  call_snapshot : CyrinxAuthoritativeCaseSnapshot → WatchdogCall
  call_cancel : WatchdogCall

abbrev pub run_call : WatchdogCall → CyrinxCaseWatchdog → Reporting
run_call (call_arm now value) w = ([], arm now value w)
run_call (call_timer now) w = serve_timer now w
run_call (call_mark value) w = ([], (mark_transmit_completion_sent value w).1)
run_call (call_fail value) w = (fail value w).1
run_call (call_complete value) w = ([], (complete value w).1)
run_call (call_snapshot snapshot) w =
    ([], (complete_transmit_after_authoritative_snapshot snapshot w).1)
run_call call_cancel w = ([], clear_active w)
