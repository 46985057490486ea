-- ===== src/Adapter/Steady.antt =====
-- The controls of acoustic-session-adapter.ts while the session's epoch changes only by `reset` of
-- the adapter, as AcousticSession does, whose epoch is set by its own reset alone.
use fipwave.Common.{
  ℕ, ◌≡◌, ◌==◌, refl, sym, subst, arith, Bool, true, false, List, [], ◌∷◌, ◌++◌, Option, none, some,
}
use fipwave.Adapter.{Lifecycle}
use fipwave.Adapter.Session.{
  Snapshot, SessionAdapter, Event, control_ready, control_disarm, session_reset,
  session_heartbeat_missed, session_packet, bridge_packet, disarm, refresh, new_adapter,
  mark_degraded, reset_adapter, invalidate_adapter,
}
use fipwave.Adapter.Armed.{Call, call_refresh, call_degraded, call_reset, call_invalidate, apply}

-- The snapshot that a call reads.
abbrev pub snapshot_of : Call → Snapshot
snapshot_of (call_refresh snapshot) = snapshot
snapshot_of (call_degraded snapshot) = snapshot
snapshot_of (call_reset snapshot epoch) = snapshot
snapshot_of (call_invalidate snapshot) = snapshot

-- The session's epoch after a call.
abbrev pub epoch_after : ℕ → Call → ℕ
epoch_after current (call_reset snapshot epoch) = epoch
epoch_after current (call_refresh snapshot) = current
epoch_after current (call_degraded snapshot) = current
epoch_after current (call_invalidate snapshot) = current

-- A state after some calls, with all that the calls told the surroundings, where each call finds the
-- session in the epoch that the last reset gave it: the first epoch, and the epoch now.
pub data Steady : ℕ → ℕ → SessionAdapter → List Event → Type 0 where
  steady_start :
      (snapshot : Snapshot)
      → Steady snapshot.epoch snapshot.epoch (new_adapter snapshot).0 (new_adapter snapshot).1
  steady_call :
      {first current : ℕ} {s : SessionAdapter} {log : List Event} (call : Call)
      → (snapshot_of call).epoch ≡ current
      → Steady first current s log
      → Steady first (epoch_after current call) (apply s call).0 (log ++ (apply s call).1)

-- The bridge in an epoch, which takes `ready` only for this epoch and while it is not armed,
-- `disarm` only for this epoch and while it is armed for it, and a reset only while it is not armed.
abbrev pub Obeys : ℕ → Option ℕ → List Event → ℕ → Option ℕ → Type 0
Obeys e a [] e' b = (e ≡ e') × (a ≡ b)
Obeys e none (control_ready d ∷ es) e' b = (d ≡ e) × Obeys e (some d) es e' b
Obeys e (some c) (control_ready d ∷ es) e' b = ⊥
Obeys e none (control_disarm d ∷ es) e' b = ⊥
Obeys e (some c) (control_disarm d ∷ es) e' b = (c ≡ e) × (d ≡ e) × Obeys e none es e' b
Obeys e none (session_reset d ∷ es) e' b = Obeys d none es e' b
Obeys e (some c) (session_reset d ∷ es) e' b = ⊥
Obeys e a (session_heartbeat_missed ∷ es) e' b = Obeys e a es e' b
Obeys e a (session_packet p c ∷ es) e' b = Obeys e a es e' b
Obeys e a (bridge_packet p ∷ es) e' b = Obeys e a es e' b

-- The adapter is armed for no other epoch than the session's.
abbrev ArmedFor : ℕ → Option ℕ → Type 0
ArmedFor current none = Unit {0}
ArmedFor current (some e) = e ≡ current

Obeys-append :
    (e d c : ℕ) (a b o : Option ℕ) (es fs : List Event)
    → Obeys e a es d b
    → Obeys d b fs c o
    → Obeys e a (es ++ fs) c o
Obeys-append e d c a b o [] fs h k =
    subst (λ (x : ℕ). Obeys x a fs c o) (sym h.0)
      (subst (λ (x : Option ℕ). Obeys d x fs c o) (sym h.1) k)
Obeys-append e d c none b o (control_ready x ∷ es) fs h k =
    (h.0, Obeys-append e d c (some x) b o es fs h.1 k)
Obeys-append e d c (some y) b o (control_ready x ∷ es) fs h k = absurd h
Obeys-append e d c none b o (control_disarm x ∷ es) fs h k = absurd h
Obeys-append e d c (some y) b o (control_disarm x ∷ es) fs h k =
    (h.0, h.1, Obeys-append e d c none b o es fs h.2 k)
Obeys-append e d c none b o (session_reset x ∷ es) fs h k = Obeys-append x d c none b o es fs h k
Obeys-append e d c (some y) b o (session_reset x ∷ es) fs h k = absurd h
Obeys-append e d c a b o (session_heartbeat_missed ∷ es) fs h k = Obeys-append e d c a b o es fs h k
Obeys-append e d c a b o (session_packet p q ∷ es) fs h k = Obeys-append e d c a b o es fs h k
Obeys-append e d c a b o (bridge_packet p ∷ es) fs h k = Obeys-append e d c a b o es fs h k

-- A call keeps to the epoch, and the bridge obeys its events.
record Kept (current next : ℕ) (a : Option ℕ) (r : SessionAdapter × List Event) : Type 0 where
  armed : ArmedFor next r.0.armed_epoch
  obeys : Obeys current a r.1 next r.0.armed_epoch

abbrev adapter : Option Lifecycle → ℕ → Option ℕ → SessionAdapter
adapter l g a = record { lifecycle = l; generation = g; armed_epoch = a }

module _ (l : Option Lifecycle) (g : ℕ) where
  refresh-Kept :
      (a : Option ℕ) (current : ℕ) (ready : Bool)
      → ArmedFor current a
      → Kept current current a (refresh (adapter l g a) (record { epoch = current; ready = ready }))
  unfolding refresh disarm
  refresh-Kept none current false h = record { armed = tt; obeys = (refl, refl) }
  refresh-Kept (some e) current false h = record { armed = tt; obeys = (h, refl, (refl, refl)) }
  refresh-Kept none current true h = record { armed = refl; obeys = (refl, (refl, refl)) }
  refresh-Kept (some e) current true h =
      let same : (e == current) ≡ true = ground (arith, h) in
      rw (same) (record { armed = h; obeys = (refl, refl) })

  degraded-Kept :
      (a : Option ℕ) (snapshot : Snapshot)
      → ArmedFor snapshot.epoch a
      → Kept snapshot.epoch snapshot.epoch a (mark_degraded (adapter l g a) snapshot)
  unfolding mark_degraded disarm
  degraded-Kept none n h = record { armed = tt; obeys = (refl, refl) }
  degraded-Kept (some e) n h = record { armed = tt; obeys = (h, refl, (refl, refl)) }

  reset-Kept :
      (a : Option ℕ) (snapshot : Snapshot) (epoch : ℕ)
      → ArmedFor snapshot.epoch a
      → Kept snapshot.epoch epoch a (reset_adapter (adapter l g a) snapshot epoch)
  unfolding reset_adapter disarm
  reset-Kept none n epoch h = record { armed = tt; obeys = (refl, refl) }
  reset-Kept (some e) n epoch h = record { armed = tt; obeys = (h, refl, (refl, refl)) }

  invalidate-Kept :
      (a : Option ℕ) (snapshot : Snapshot)
      → ArmedFor snapshot.epoch a
      → Kept snapshot.epoch snapshot.epoch a (invalidate_adapter (adapter l g a) snapshot)
  unfolding invalidate_adapter disarm
  invalidate-Kept none n h = record { armed = tt; obeys = (refl, refl) }
  invalidate-Kept (some e) n h = record { armed = tt; obeys = (h, refl, (refl, refl)) }

apply-Kept :
    (current : ℕ) (s : SessionAdapter) (call : Call)
    → (snapshot_of call).epoch ≡ current
    → ArmedFor current s.armed_epoch
    → Kept current (epoch_after current call) s.armed_epoch (apply s call)
unfolding apply
apply-Kept current s (call_refresh n) e h =
    subst (λ (x : ℕ). Kept x x s.armed_epoch (refresh s n)) e
      (refresh-Kept s.lifecycle s.generation s.armed_epoch n.epoch n.ready
        (subst (λ (x : ℕ). ArmedFor x s.armed_epoch) (sym e) h))
apply-Kept current s (call_degraded n) e h =
    subst (λ (x : ℕ). Kept x x s.armed_epoch (mark_degraded s n)) e
      (degraded-Kept s.lifecycle s.generation s.armed_epoch n
        (subst (λ (x : ℕ). ArmedFor x s.armed_epoch) (sym e) h))
apply-Kept current s (call_reset n epoch) e h =
    subst (λ (x : ℕ). Kept x epoch s.armed_epoch (reset_adapter s n epoch)) e
      (reset-Kept s.lifecycle s.generation s.armed_epoch n epoch
        (subst (λ (x : ℕ). ArmedFor x s.armed_epoch) (sym e) h))
apply-Kept current s (call_invalidate n) e h =
    subst (λ (x : ℕ). Kept x x s.armed_epoch (invalidate_adapter s n)) e
      (invalidate-Kept s.lifecycle s.generation s.armed_epoch n
        (subst (λ (x : ℕ). ArmedFor x s.armed_epoch) (sym e) h))

start-Kept : (snapshot : Snapshot) → Kept snapshot.epoch snapshot.epoch none (new_adapter snapshot)
unfolding new_adapter
start-Kept n = refresh-Kept none 1 none n.epoch n.ready tt

-- The run so far, as the bridge sees it.
Steady-Kept :
    (first current : ℕ) (s : SessionAdapter) (log : List Event)
    → Steady first current s log
    → ArmedFor current s.armed_epoch × Obeys first none log current s.armed_epoch
Steady-Kept _ _ _ _ (steady_start n) = ((start-Kept n).armed, (start-Kept n).obeys)
Steady-Kept _ _ _ _ (steady_call {first} {current} {s} {log} call e r) =
    let (armed, obeys) = Steady-Kept first current s log r in
    let kept = apply-Kept current s call e armed in
    (
      kept.armed,
      Obeys-append first current (epoch_after current call) none s.armed_epoch
          (apply s call).0.armed_epoch log (apply s call).1 obeys kept.obeys,
    )

-- While the session's epoch changes only by `reset` of the adapter, each control names the epoch that
-- the session is in: `ready` is told only while the bridge is not armed, `disarm` only while it is
-- armed for that epoch, and the session is reset only while the bridge is not armed; and so the
-- bridge ends armed for the epoch for which the adapter is armed, if it is.
pub Steady-Obeys :
    (first current : ℕ) (s : SessionAdapter) (log : List Event)
    → Steady first current s log
    → Obeys first none log current s.armed_epoch
Steady-Obeys first current s log r = (Steady-Kept first current s log r).1
