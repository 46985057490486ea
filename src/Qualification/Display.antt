-- ===== src/Qualification/Display.antt =====
-- apps/modem-ui/src/qualification-session.ts: the browser's copy of the runner's session, which
-- throws on a snapshot that the runner may not send, and the form that main.ts gives a snapshot.
pub mod Agreed
pub mod Accepted
use fipwave.Common.{
  ℕ, ◌+◌, ◌==◌, Bool, true, false, not, ◌&&◌, ◌||◌, if◌then◌else◌, Option, none, some, Result, ok,
  err, ◌>>=◌, ◌>>◌, fail_if,
}
use fipwave.Qualification.{
  CyrinxStage, stage_idle, stage_unqualified, CyrinxSessionCodec, codec_idle, codec_cyrinx,
  codec_quiet, codec_unqualified, CyrinxFallbackReason, cyrinx_build_failed,
  cyrinx_digital_roundtrip_failed, cyrinx_cold_a_to_b_failed, cyrinx_cold_b_to_a_failed,
  cyrinx_corpus_failed, cyrinx_deadline_expired, cyrinx_deadline_ms,
}
use fipwave.Qualification.Runner.{is_some, is_idle, is_cyrinx}
use fipwave.Qualification.Snapshot.{SessionSnapshot}

-- The browser's `CyrinxSessionSnapshot`; a field that is `null` or undefined is missing.
pub record DisplaySnapshot : Type 0 where
  pub codec : CyrinxSessionCodec
  pub stage : CyrinxStage
  pub started_at_ms : Option ℕ
  pub deadline_at_ms : Option ℕ
  pub elapsed_ms : Option ℕ
  pub reason_code : Option CyrinxFallbackReason

pub record DisplaySession : Type 0 where
  pub state : DisplaySnapshot
  pub quiet_started : Bool

pub data DisplayError : Type 0 where
  restarted_cyrinx deadline_invalid reason_with_cyrinx reason_invalid : DisplayError
  deadline_changed retried_cyrinx reason_changed quiet_not_authorized no_fallback : DisplayError

abbrev pub idle_snapshot : DisplaySnapshot
idle_snapshot = record {
  codec = codec_idle;
  stage = stage_idle;
  started_at_ms = none;
  deadline_at_ms = none;
  elapsed_ms = none;
  reason_code = none;
}

abbrev pub new_display : DisplaySession
new_display = record { state = idle_snapshot; quiet_started = false }

abbrev pub is_codec_idle : CyrinxSessionCodec → Bool
is_codec_idle codec_idle = true
is_codec_idle codec = false

-- `quiet` or `unqualified`.
abbrev pub is_fallback : CyrinxSessionCodec → Bool
is_fallback codec_quiet = true
is_fallback codec_unqualified = true
is_fallback codec = false

abbrev pub is_quiet_codec : CyrinxSessionCodec → Bool
is_quiet_codec codec_quiet = true
is_quiet_codec codec = false

abbrev pub same_time : Option ℕ → Option ℕ → Bool
same_time none none = true
same_time (some a) (some b) = a == b
same_time a b = false

abbrev pub reason_number : CyrinxFallbackReason → ℕ
reason_number cyrinx_build_failed = 0
reason_number cyrinx_digital_roundtrip_failed = 1
reason_number cyrinx_cold_a_to_b_failed = 2
reason_number cyrinx_cold_b_to_a_failed = 3
reason_number cyrinx_corpus_failed = 4
reason_number cyrinx_deadline_expired = 5

-- The reason is missing so far, or the candidate's too.
abbrev pub keeps_reason : Option CyrinxFallbackReason → Option CyrinxFallbackReason → Bool
keeps_reason none candidate = true
keeps_reason (some reason) none = false
keeps_reason (some reason) (some other) = reason_number reason == reason_number other

-- `deadlineAtMs - startedAtMs !== 5_400_000`, of times that are there.
abbrev pub is_deadline : Option ℕ → Option ℕ → Option ℕ → Bool
is_deadline (some started) (some deadline) (some elapsed) = deadline == started + cyrinx_deadline_ms
is_deadline started deadline elapsed = false

-- The tests of a candidate against a state that is not idle.
unfoldable pub check_change : DisplaySnapshot → DisplaySnapshot → Result DisplayError (Unit {0})
check_change state candidate = do
  fail_if
      (not (same_time candidate.started_at_ms state.started_at_ms)
        || not (same_time candidate.deadline_at_ms state.deadline_at_ms))
      deadline_changed
  fail_if (is_fallback state.codec && is_cyrinx candidate.codec) retried_cyrinx
  fail_if (not (keeps_reason state.reason_code candidate.reason_code)) reason_changed

-- The tests of a candidate that is not idle.
unfoldable pub check_candidate : DisplaySnapshot → DisplaySnapshot → Result DisplayError (Unit {0})
check_candidate state candidate = do
  fail_if (not (is_deadline candidate.started_at_ms candidate.deadline_at_ms candidate.elapsed_ms))
      deadline_invalid
  fail_if (is_cyrinx candidate.codec && is_some candidate.reason_code) reason_with_cyrinx
  fail_if (is_fallback candidate.codec && not (is_some candidate.reason_code)) reason_invalid
  if is_codec_idle state.codec then ok tt else check_change state candidate

unfoldable pub apply : DisplaySnapshot → DisplaySession → Result DisplayError DisplaySession
apply candidate d =
    let changed = check_candidate d.state candidate >>= λ _.
    ok (record { state = candidate; quiet_started = d.quiet_started }) in
    if is_codec_idle candidate.codec
    then (if not (is_idle candidate.stage) || not (is_codec_idle d.state.codec)
        then err restarted_cyrinx
        else ok d)
    else changed

unfoldable pub should_start_quiet : DisplaySession → Bool
should_start_quiet d = is_quiet_codec d.state.codec && not d.quiet_started

unfoldable pub mark_quiet_started : DisplaySession → Result DisplayError DisplaySession
mark_quiet_started d =
    if not (should_start_quiet d)
    then err quiet_not_authorized
    else ok (record d { quiet_started = true })

unfoldable pub mark_display_failed : DisplaySession → Result DisplayError DisplaySession
mark_display_failed d =
    if not (is_quiet_codec d.state.codec)
    then err no_fallback
    else ok (record {
      state = record {
        codec = codec_unqualified;
        stage = stage_unqualified;
        started_at_ms = d.state.started_at_ms;
        deadline_at_ms = d.state.deadline_at_ms;
        elapsed_ms = d.state.elapsed_ms;
        reason_code = d.state.reason_code;
      };
      quiet_started = d.quiet_started;
    })

-- What main.ts makes of the runner's snapshot.
unfoldable pub display_snapshot : SessionSnapshot → DisplaySnapshot
display_snapshot snapshot = if is_codec_idle snapshot.codec then idle_snapshot else record {
  codec = snapshot.codec;
  stage = snapshot.stage;
  started_at_ms = snapshot.started_at_ms;
  deadline_at_ms = snapshot.deadline_at_ms;
  elapsed_ms = snapshot.elapsed_ms;
  reason_code = snapshot.reason_code;
}
