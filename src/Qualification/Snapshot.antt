-- ===== src/Qualification/Snapshot.antt =====
-- `snapshot`: what the runner tells the browser of the session.
use fipwave.Common.{ℕ, ltb, Bool, not, ◌&&◌, if◌then◌else◌, List, Option, none, some}
use fipwave.Qualification.{
  RunnerRole, LiteralDirection, CyrinxStage, CyrinxSessionCodec, CyrinxFallbackReason,
  FallbackState, InstructionAction, QualificationCase, QualificationSession, epoch_invalid,
  max_safe_integer, Method, ◌>>=◌, ◌>>◌, pure, reject_if, get_session,
}
use fipwave.Qualification.Runner.{is_some, is_terminal, action_for, elapsed}
use fipwave.Qualification.Cases.{current_case}
use Prim.Native.String.{String}

pub record CyrinxInstruction : Type 0 where
  pub action : InstructionAction
  pub case_id : String
  pub direction : LiteralDirection
  pub cold : Bool

pub record SessionSnapshot : Type 0 where
  pub epoch : ℕ
  pub codec : CyrinxSessionCodec
  pub stage : CyrinxStage
  pub started_at_ms : Option ℕ
  pub deadline_at_ms : Option ℕ
  pub elapsed_ms : Option ℕ
  pub fallback_state : FallbackState
  pub reason_code : Option CyrinxFallbackReason
  pub instruction : Option CyrinxInstruction
  pub terminal : Bool

unfoldable pub instruction_of : RunnerRole → Option QualificationCase → Option CyrinxInstruction
instruction_of role none = none
instruction_of role (some value) = some (record {
  action = action_for role value.direction;
  case_id = value.id;
  direction = value.direction;
  cold = value.cold;
})

-- An instruction that waits to be accepted.
unfoldable pub waiting_instruction :
    List QualificationCase → QualificationSession → Option CyrinxInstruction
waiting_instruction cases s =
    if not (is_terminal s.stage)
      && (not (is_some s.accepted) && not (is_some s.pending_completion_reason))
    then instruction_of s.role (current_case cases s.case_index)
    else none

unfoldable pub snapshot_with :
    List QualificationCase → ℕ → Option ℕ → QualificationSession → SessionSnapshot
snapshot_with cases epoch elapsed_ms s = record {
  epoch = epoch;
  codec = s.codec;
  stage = s.stage;
  started_at_ms = s.started_at_ms;
  deadline_at_ms = s.deadline_at_ms;
  elapsed_ms = elapsed_ms;
  fallback_state = s.fallback_state;
  reason_code = s.fallback_reason;
  instruction = waiting_instruction cases s;
  terminal = is_terminal s.stage;
}

-- The time that has passed, if the session has started.
abbrev pub snapshot_elapsed : Option ℕ → Option ℕ → ℕ → Method (Option ℕ)
snapshot_elapsed none terminal_ms now_ms = pure none
snapshot_elapsed (some started) (some e) now_ms = pure (some e)
snapshot_elapsed (some started) none now_ms = do e ← elapsed now_ms; pure (some e)

unfoldable pub take_snapshot : List QualificationCase → ℕ → ℕ → Method SessionSnapshot
take_snapshot cases epoch now_ms = do
  reject_if (ltb max_safe_integer epoch) epoch_invalid
  s ← get_session
  e ← snapshot_elapsed s.started_at_ms s.terminal_elapsed_ms now_ms
  t ← get_session
  pure (snapshot_with cases epoch e t)
