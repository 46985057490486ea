-- ===== src/Fwav/Epoch.antt =====
-- `EpochTracker` of protocol.ts. The last sequence is -1 until a frame of the epoch is accepted:
-- none here.
pub mod Replay
use fipwave.Common.{
  ℕ, ◌+◌, ◌==◌, ◌!=◌, leb, Bool, true, false, Option, none, some, Result, ok, err, fail_if, ◌>>=◌,
  ◌>>◌,
}
use fipwave.Fwav.{ValidFrame, FwavError, epoch_exhausted, stale_epoch, stale_sequence}

pub record EpochTracker : Type 0 where
  pub epoch : ℕ
  pub last_sequence : Option ℕ

abbrev pub initial_tracker : EpochTracker
initial_tracker = record { epoch = 0; last_sequence = none }

-- `reset`; the number that it returns is the epoch of the new state.
unfoldable pub reset_epoch : EpochTracker → Result FwavError EpochTracker
reset_epoch t = do
  fail_if (t.epoch == 0xffff_ffff) epoch_exhausted
  ok (record { epoch = t.epoch + 1; last_sequence = none })

-- `frame.sequence <= this.#lastSequence`
abbrev pub not_after : ℕ → Option ℕ → Bool
not_after sequence none = false
not_after sequence (some last) = leb sequence last

unfoldable pub accept_frame : EpochTracker → ValidFrame → Result FwavError EpochTracker
accept_frame t frame = do
  fail_if (frame.epoch != t.epoch) stale_epoch
  fail_if (not_after frame.sequence t.last_sequence) stale_sequence
  ok (record { epoch = t.epoch; last_sequence = some frame.sequence })
