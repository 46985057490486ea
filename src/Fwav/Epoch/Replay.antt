-- ===== src/Fwav/Epoch/Replay.antt =====
-- What `EpochTracker` accepts over time: its users accept frames and reset it in any order, and a
-- call that throws leaves it as it is.
use fipwave.Common.{
  ℕ, ◌+◌, ◌<◌, ◌≤◌, ◌≡◌, ◌⊎◌, inl, inr, sym, arith, false, none, some, List, [], ◌∷◌, All, Result,
  ok, err, All-map, ◌∙◌,
}
use fipwave.Fwav.{ValidFrame, FwavError, stale_epoch, stale_sequence}
use fipwave.Fwav.Epoch.{EpochTracker, initial_tracker, reset_epoch, accept_frame, not_after}

-- The tracker, with the frames that it has accepted, the last one first.
pub data Reachable : EpochTracker → List ValidFrame → Type 0 where
  created : Reachable initial_tracker []
  was_reset :
      {t next : EpochTracker} {log : List ValidFrame}
      → Reachable t log
      → reset_epoch t ≡ ok next
      → Reachable next log
  accepted :
      {t next : EpochTracker} {log : List ValidFrame} (frame : ValidFrame)
      → Reachable t log
      → accept_frame t frame ≡ ok next
      → Reachable next (frame ∷ log)

-- An earlier epoch, or an earlier sequence of one epoch.
abbrev pub Before : ValidFrame → ValidFrame → Type 0
Before f g = (f.epoch < g.epoch) ⊎ ((f.epoch ≡ g.epoch) × (f.sequence < g.sequence))

-- Each frame is after all that stand behind it.
abbrev pub InOrder : List ValidFrame → Type 0
InOrder [] = Unit {0}
InOrder (f ∷ fs) = All (λ g. Before g f) fs × InOrder fs

-- A frame that the tracker is past.
abbrev pub Past : EpochTracker → ValidFrame → Type 0
Past t f =
    (f.epoch < t.epoch)
    ⊎ ((f.epoch ≡ t.epoch) × ((last : ℕ) × (t.last_sequence ≡ some last) × (f.sequence ≤ last)))

reset_lem :
    (t next : EpochTracker)
    → reset_epoch t ≡ ok next
    → (next.epoch ≡ t.epoch + 1) × (next.last_sequence ≡ none)
unfolding reset_epoch
reset_lem t next h = ground arith

accept_lem :
    (t next : EpochTracker) (f : ValidFrame)
    → accept_frame t f ≡ ok next
    → (f.epoch ≡ t.epoch)
      × (not_after f.sequence t.last_sequence ≡ false)
      × (next.epoch ≡ t.epoch)
      × (next.last_sequence ≡ some f.sequence)
unfolding accept_frame
accept_lem t next f h = ground arith

Past-reset :
    (t next : EpochTracker) (f : ValidFrame) → reset_epoch t ≡ ok next → Past t f → Past next f
Past-reset t next f h (inl p) = inl (omega (arith, (reset_lem t next h).0))
Past-reset t next f h (inr p) = inl (omega (arith, (reset_lem t next h).0, p.0))

Past-Before :
    (t next : EpochTracker) (f g : ValidFrame) → accept_frame t f ≡ ok next → Past t g → Before g f
Past-Before t next f g h (inl p) = inl (omega (arith, (accept_lem t next f h).0))
Past-Before t next f g h (inr (same, (last, l, p))) =
    let a = accept_lem t next f h in inr (omega (arith, a.0), ground (arith, a.1))

Before-Past :
    (t next : EpochTracker) (f g : ValidFrame)
    → accept_frame t f ≡ ok next
    → Before g f
    → Past next g
Before-Past t next f g h (inl p) = let a = accept_lem t next f h in inl (omega (arith, a.0, a.2))
Before-Past t next f g h (inr p) =
    let a = accept_lem t next f h in inr (omega (arith, a.0, a.2), (f.sequence, a.3, omega arith))

All-Past : (t : EpochTracker) (log : List ValidFrame) → Reachable t log → All (Past t) log
All-Past _ _ created = tt
All-Past next log (was_reset {t} r h) = All-map (λ f. Past-reset t next f h) log (All-Past t log r)
All-Past next _ (accepted {t} {log = log} f r h) = (
  inr (
    (accept_lem t next f h).0 ∙ sym (accept_lem t next f h).2,
    (f.sequence, (accept_lem t next f h).3, omega arith),
  ),
  All-map (λ g p. Before-Past t next f g h (Past-Before t next f g h p)) log (All-Past t log r),
)

-- Whatever calls are made, in whatever order and with whatever frames, the frames that the tracker
-- accepts come in order: each has a later epoch than every frame accepted before it, or the same
-- epoch and a greater sequence.
pub accepted-InOrder : (t : EpochTracker) (log : List ValidFrame) → Reachable t log → InOrder log
accepted-InOrder _ _ created = tt
accepted-InOrder _ log (was_reset {t} r h) = accepted-InOrder t log r
accepted-InOrder next _ (accepted {t} {log = log} f r h) =
    (All-map (λ g p. Past-Before t next f g h p) log (All-Past t log r), accepted-InOrder t log r)

abbrev pub Throws : {A : Type 0} → Result FwavError A → Type 0
Throws r = (e : FwavError) × (r ≡ err e)

Past-rejected : (t : EpochTracker) (f : ValidFrame) → Past t f → Throws (accept_frame t f)
unfolding accept_frame
Past-rejected t f (inl p) = (stale_epoch, ground arith)
Past-rejected t f (inr (same, (last, l, p))) = (stale_sequence, rw (same, l) (ground arith))

-- A frame that the tracker has accepted is rejected ever after, also after resets.
pub accepted_frame_rejected :
    (t : EpochTracker) (log : List ValidFrame)
    → Reachable t log
    → All (λ f. Throws (accept_frame t f)) log
accepted_frame_rejected t log r = All-map (λ f. Past-rejected t f) log (All-Past t log r)
