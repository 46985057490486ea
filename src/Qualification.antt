-- ===== src/Qualification.antt =====
-- packages/bridge/src/qualification-session.ts: the session by which the runner qualifies the
-- Cyrinx codec, case by case within ninety minutes, or falls back to Quiet. A method takes the
-- session to its answer, or the error it throws, and the session it leaves. The ordered cases are a
-- parameter of the methods: Qualification.Corpus has the committed ones.
pub mod Runner
pub mod Cases
pub mod Snapshot
pub mod Corpus
pub mod States
pub mod Display
pub mod Examples
use fipwave.Common.{ℕ, Bool, true, false, List, [], ◌∷◌, Option, none, some, Result, ok, err, leb}
use Prim.Native.String.{String}

pub data RunnerRole : Type 0 where
  runner_a runner_b : RunnerRole

pub data LiteralDirection : Type 0 where
  a_to_b b_to_a : LiteralDirection

pub data CyrinxStage : Type 0 where
  stage_idle stage_build stage_digital stage_cold_a_to_b stage_cold_b_to_a : CyrinxStage
  stage_corpus stage_complete stage_quiet stage_unqualified : CyrinxStage

pub data CyrinxSessionCodec : Type 0 where
  codec_idle codec_cyrinx codec_quiet codec_unqualified : CyrinxSessionCodec

pub data CyrinxFallbackReason : Type 0 where
  cyrinx_build_failed cyrinx_digital_roundtrip_failed cyrinx_cold_a_to_b_failed :
      CyrinxFallbackReason
  cyrinx_cold_b_to_a_failed cyrinx_corpus_failed cyrinx_deadline_expired : CyrinxFallbackReason

pub data FallbackState : Type 0 where
  fallback_available fallback_activated fallback_failed : FallbackState

pub data InstructionAction : Type 0 where
  transmit listen : InstructionAction

-- `CyrinxQualificationCase`, without the payload that a method hands out with it.
pub record QualificationCase : Type 0 where
  pub id : String
  pub direction : LiteralDirection
  pub cold : Bool

pub record Accepted : Type 0 where
  pub case_index : ℕ
  pub mode : InstructionAction
  pub accepted_at_ms : ℕ

pub record QualificationSession : Type 0 where
  pub role : RunnerRole
  pub codec : CyrinxSessionCodec
  pub stage : CyrinxStage
  pub started_at_ms : Option ℕ
  pub deadline_at_ms : Option ℕ
  pub last_elapsed_ms : Option ℕ
  pub terminal_elapsed_ms : Option ℕ
  pub fallback_state : FallbackState
  pub fallback_reason : Option CyrinxFallbackReason
  pub case_index : Option ℕ
  pub accepted : Option Accepted
  pub pending_completion_reason : Option CyrinxFallbackReason
  pub cold_receive_passed : Bool

-- The reason codes of `QualificationSessionError`.
pub data SessionError : Type 0 where
  clock_invalid stage_not_failable stage_order_invalid deadline_expired : SessionError
  session_terminal not_started instruction_unavailable completion_not_acknowledged : SessionError
  instruction_already_accepted instruction_mismatch instruction_not_accepted : SessionError
  instruction_mode_mismatch completion_not_pending epoch_invalid : SessionError

abbrev pub cyrinx_deadline_ms : ℕ
cyrinx_deadline_ms = 5400000

abbrev pub cyrinx_transmit_settle_ms : ℕ
cyrinx_transmit_settle_ms = 4500

abbrev pub max_safe_integer : ℕ
max_safe_integer = 9007199254740991

abbrev pub Method : Type 0 → Type 0
Method A = QualificationSession → Result SessionError A × QualificationSession

abbrev pub and_then :
    {A B : Type 0}
    → Result SessionError A × QualificationSession
    → (A → Method B)
    → Result SessionError B × QualificationSession
and_then (ok a, s) f = f a s
and_then (err e, s) f = (err e, s)

infixl 5 ◌>>=◌ ◌>>◌
abbrev pub ◌>>=◌ : {A B : Type 0} → Method A → (A → Method B) → Method B
◌>>=◌ m f s = and_then (m s) f

abbrev pub ◌>>◌ : {B : Type 0} → Method (Unit {0}) → Method B → Method B
m >> k = m >>= λ _. k

abbrev pub pure : {A : Type 0} → A → Method A
pure a s = (ok a, s)

abbrev pub reject : {A : Type 0} → SessionError → Method A
reject e s = (err e, s)

abbrev pub reject_if : Bool → SessionError → Method (Unit {0})
reject_if true e = reject e
reject_if false e = pure tt

abbrev pub get_session : Method QualificationSession
get_session s = (ok s, s)

abbrev pub put_session : QualificationSession → Method (Unit {0})
put_session next s = (ok tt, next)

abbrev pub required : {A : Type 0} → Option A → SessionError → Method A
required none e = reject e
required (some a) e = pure a
