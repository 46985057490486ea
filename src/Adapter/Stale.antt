-- ===== src/Adapter/Stale.antt =====
-- Generations: what a caller remembers from before a reset is of no use after it.
use fipwave.Common.{ℕ, ◌+◌, ◌≤◌, ◌<◌, ◌≡◌, refl, ap, arith, ◌!=◌, true, List, [], some}
use fipwave.Adapter.{packet_rejected, stale}
use fipwave.Adapter.Session.{
  AcousticTrafficClass, QueueResult, SessionAdapter, Snapshot, Event, receive_fips, deliver,
  reset_adapter,
}
use fipwave.Adapter.Armed.{
  Run, IsInStep, Run-IsInStep, Call, call_reset, apply, apply-Good, disarm-generation,
}

-- Some calls later.
pub data Later (s : SessionAdapter) : SessionAdapter → Type 0 where
  at_once : Later s s
  after_call : {t : SessionAdapter} (call : Call) → Later s t → Later s (apply t call).0

Later-generation :
    (s t : SessionAdapter) → IsInStep s → Later s t → IsInStep t × (s.generation ≤ t.generation)
Later-generation s _ h at_once = (h, omega arith)
Later-generation s _ h (after_call {t} call l) =
    let (step, le) = Later-generation s t h l in
    let good = apply-Good t call step in (good.in_step, omega (arith, good.later))

reset-generation :
    (s : SessionAdapter) (n : Snapshot) (e : ℕ)
    → (reset_adapter s n e).0.generation ≡ s.generation + 1
unfolding reset_adapter
reset-generation s n e = ap (λ (g : ℕ). g + 1) (disarm-generation s n.epoch)

old_generation_lem :
    (enqueue : List ℕ → AcousticTrafficClass → QueueResult) (g : ℕ) (t : SessionAdapter)
    (packet : List ℕ) (class epoch : ℕ)
    → g < t.generation
    → (receive_fips enqueue t packet class epoch (some g) ≡ (packet_rejected stale, []))
      × (deliver t packet class (some g) ≡ (packet_rejected stale, []))
unfolding receive_fips deliver
old_generation_lem enqueue g t packet class epoch h = (rw (differs) refl, rw (differs) refl)
  where
    differs : (g != t.generation) ≡ true
    differs = ground arith

-- A packet of a generation from before a reset passes neither way, whatever is called afterwards.
pub reset_makes_stale :
    (enqueue : List ℕ → AcousticTrafficClass → QueueResult) (s t : SessionAdapter)
    (log : List Event) (snapshot : Snapshot) (new_epoch g : ℕ) (packet : List ℕ) (class epoch : ℕ)
    → Run s log
    → g ≤ s.generation
    → Later (reset_adapter s snapshot new_epoch).0 t
    → (receive_fips enqueue t packet class epoch (some g) ≡ (packet_rejected stale, []))
      × (deliver t packet class (some g) ≡ (packet_rejected stale, []))
unfolding apply
reset_makes_stale enqueue s t log n e g packet class epoch r h l =
    let good = apply-Good s (call_reset n e) (Run-IsInStep s log r) in
    let later = Later-generation (reset_adapter s n e).0 t good.in_step l in
    old_generation_lem enqueue g t packet class epoch
      (omega (arith, reset-generation s n e, later.1))
