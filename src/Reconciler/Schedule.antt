-- ===== src/Reconciler/Schedule.antt =====
-- The timer and the attempts of `createFipsPeerReconciler`.
use fipwave.Common.{ℕ, ◌≡◌, refl, true, false, ◌⊎◌, inl, inr, none, some, Result}
use fipwave.Reconciler.{
  FipsPeerReconciler, Delays, ReconcileResult, ReconcileError, schedule, new_reconciler, run,
  settled_delay, settle, close,
}

-- What can happen: the timer that is set runs out, the attempt that runs ends, or it is closed.
pub data Reachable (delays : Delays) : FipsPeerReconciler → Type 0 where
  created : Reachable delays new_reconciler
  ran :
      {s : FipsPeerReconciler} {d : ℕ}
      → Reachable delays s
      → s.timer ≡ some d
      → Reachable delays (run s)
  settled :
      {s : FipsPeerReconciler} (result : Result ReconcileError ReconcileResult)
      → Reachable delays s
      → s.in_flight ≡ true
      → Reachable delays (settle delays result s)
  closed : {s : FipsPeerReconciler} → Reachable delays s → Reachable delays (close s)

-- While it runs, one thing is pending, the timer or an attempt; when it is closed, no timer is.
unfoldable pub OnePending : FipsPeerReconciler → Type 0
OnePending s =
    ((s.stopped ≡ true) × (s.timer ≡ none))
    ⊎ ((s.stopped ≡ false)
        × (((s.timer ≡ none) × (s.in_flight ≡ true))
            ⊎ ((d : ℕ) × (s.timer ≡ some d) × (s.in_flight ≡ false))))

run-OnePending :
    (s : FipsPeerReconciler) (d : ℕ) → s.timer ≡ some d → OnePending s → OnePending (run s)
unfolding OnePending run
run-OnePending s d set (inl (stopped, unset)) = cc
run-OnePending s d set (inr (going, inl (unset, flies))) = cc
run-OnePending s d set (inr (going, inr (e, at, idle))) =
    rw (going) (rw (idle) (inr (refl, inl (refl, refl))))

settle-OnePending :
    (delays : Delays) (result : Result ReconcileError ReconcileResult) (s : FipsPeerReconciler)
    → s.in_flight ≡ true
    → OnePending s
    → OnePending (settle delays result s)
unfolding OnePending settle schedule
settle-OnePending delays result s flies (inl (stopped, unset)) = rw (stopped) (inl (refl, unset))
settle-OnePending delays result s flies (inr (going, one)) =
    rw (going) (inr (refl, inr (settled_delay delays result, refl, refl)))

close-OnePending : (s : FipsPeerReconciler) → OnePending s → OnePending (close s)
unfolding OnePending close
close-OnePending s (inl (stopped, unset)) = rw (stopped) (inl (refl, unset))
close-OnePending s (inr (going, one)) = rw (going) (inl (refl, refl))

-- Whatever happens, while the reconciler is not closed either its timer is set or an attempt runs,
-- never both and never neither, so the attempts go on one after the other; once it is closed no
-- timer is set.
pub Reachable-OnePending :
    (delays : Delays) (s : FipsPeerReconciler) → Reachable delays s → OnePending s
unfolding OnePending new_reconciler schedule
Reachable-OnePending delays s created = inr (refl, inr (0, refl, refl))
Reachable-OnePending delays _ (ran {s} {d} r set) =
    run-OnePending s d set (Reachable-OnePending delays s r)
Reachable-OnePending delays _ (settled {s} result r flies) =
    settle-OnePending delays result s flies (Reachable-OnePending delays s r)
Reachable-OnePending delays _ (closed {s} r) = close-OnePending s (Reachable-OnePending delays s r)
