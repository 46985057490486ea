-- ===== src/Adapter/Armed.antt =====
-- The states of acoustic-session-adapter.ts over time, whatever the session says at each call.
use fipwave.Common.{
  ℕ, ◌≤◌, ◌≡◌, refl, arith, Bool, true, false, Bool-cases, inl, inr, List, ◌++◌, Option, none, some,
}
use fipwave.Adapter.{Lifecycle, arm}
use fipwave.Adapter.Session.{
  Snapshot, SessionAdapter, Event, disarm, refresh, is_epoch, new_adapter, mark_degraded,
  reset_adapter, invalidate_adapter,
}

-- A call that may change the state.
pub data Call : Type 0 where
  call_refresh : Snapshot → Call
  call_degraded : Snapshot → Call
  call_reset : Snapshot → ℕ → Call
  call_invalidate : Snapshot → Call

unfoldable pub apply : SessionAdapter → Call → SessionAdapter × List Event
apply s (call_refresh snapshot) = refresh s snapshot
apply s (call_degraded snapshot) = mark_degraded s snapshot
apply s (call_reset snapshot epoch) = reset_adapter s snapshot epoch
apply s (call_invalidate snapshot) = invalidate_adapter s snapshot

-- A state after some calls, with all that the calls told the surroundings.
pub data Run : SessionAdapter → List Event → Type 0 where
  started : (snapshot : Snapshot) → Run (new_adapter snapshot).0 (new_adapter snapshot).1
  called :
      {s : SessionAdapter} {log : List Event} (call : Call)
      → Run s log
      → Run (apply s call).0 (log ++ (apply s call).1)

-- The packet adapter is armed as the adapter says, for its generation.
abbrev pub lifecycle_of : Option ℕ → ℕ → Option Lifecycle
lifecycle_of none generation = none
lifecycle_of (some e) generation = arm e generation

abbrev pub IsInStep : SessionAdapter → Type 0
IsInStep s = s.lifecycle ≡ lifecycle_of s.armed_epoch s.generation

-- One call: it keeps the packet adapter in step, and the generation does not go back.
pub record Good (s : SessionAdapter) (r : SessionAdapter × List Event) : Type 0 where
  pub in_step : IsInStep r.0
  pub later : s.generation ≤ r.0.generation

abbrev adapter : Option Lifecycle → ℕ → Option ℕ → SessionAdapter
adapter l g a = record { lifecycle = l; generation = g; armed_epoch = a }

disarm_lem :
    (l : Option Lifecycle) (g : ℕ) (a : Option ℕ) (epoch : ℕ)
    → l ≡ lifecycle_of a g
    → Good (adapter l g a) (disarm (adapter l g a) epoch)
unfolding disarm
disarm_lem l g none epoch h = record { in_step = h; later = omega arith }
disarm_lem l g (some e) epoch h = record { in_step = refl; later = omega arith }

-- Disarmed is not armed, and keeps the generation.
disarm-none :
    (l : Option Lifecycle) (g : ℕ) (a : Option ℕ) (epoch : ℕ)
    → ((disarm (adapter l g a) epoch).0.armed_epoch ≡ none)
      × ((disarm (adapter l g a) epoch).0.generation ≡ g)
unfolding disarm
disarm-none l g none epoch = (refl, refl)
disarm-none l g (some e) epoch = (refl, refl)

pub disarm-generation :
    (s : SessionAdapter) (epoch : ℕ) → (disarm s epoch).0.generation ≡ s.generation
disarm-generation s epoch = (disarm-none s.lifecycle s.generation s.armed_epoch epoch).1

refresh_lem :
    (l : Option Lifecycle) (g : ℕ) (a : Option ℕ) (epoch : ℕ) (ready : Bool)
    → l ≡ lifecycle_of a g
    → Good (adapter l g a) (refresh (adapter l g a) (record { epoch = epoch; ready = ready }))
unfolding refresh
refresh_lem l g a epoch false h = disarm_lem l g a epoch h
refresh_lem l g a epoch true h = elim (Bool-cases (is_epoch a epoch)) [
  | inl e ↦ rw (e) (record { in_step = h; later = omega arith })
  | inr e ↦ rw (e) (record { in_step = refl; later = omega arith })
]

degraded_lem :
    (l : Option Lifecycle) (g : ℕ) (a : Option ℕ) (snapshot : Snapshot)
    → l ≡ lifecycle_of a g
    → Good (adapter l g a) (mark_degraded (adapter l g a) snapshot)
unfolding mark_degraded disarm
degraded_lem l g none snapshot h = record { in_step = h; later = omega arith }
degraded_lem l g (some e) snapshot h = record { in_step = refl; later = omega arith }

reset_lem :
    (l : Option Lifecycle) (g : ℕ) (a : Option ℕ) (snapshot : Snapshot) (epoch : ℕ)
    → l ≡ lifecycle_of a g
    → Good (adapter l g a) (reset_adapter (adapter l g a) snapshot epoch)
unfolding reset_adapter disarm
reset_lem l g none snapshot epoch h = record { in_step = h; later = omega arith }
reset_lem l g (some e) snapshot epoch h = record { in_step = refl; later = omega arith }

invalidate_lem :
    (l : Option Lifecycle) (g : ℕ) (a : Option ℕ) (snapshot : Snapshot)
    → l ≡ lifecycle_of a g
    → Good (adapter l g a) (invalidate_adapter (adapter l g a) snapshot)
unfolding invalidate_adapter disarm
invalidate_lem l g none snapshot h = record { in_step = h; later = omega arith }
invalidate_lem l g (some e) snapshot h = record { in_step = refl; later = omega arith }

pub apply-Good : (s : SessionAdapter) (call : Call) → IsInStep s → Good s (apply s call)
unfolding apply
apply-Good s (call_refresh n) h =
    refresh_lem s.lifecycle s.generation s.armed_epoch n.epoch n.ready h
apply-Good s (call_degraded n) h = degraded_lem s.lifecycle s.generation s.armed_epoch n h
apply-Good s (call_reset n e) h = reset_lem s.lifecycle s.generation s.armed_epoch n e h
apply-Good s (call_invalidate n) h = invalidate_lem s.lifecycle s.generation s.armed_epoch n h

start-Good : (snapshot : Snapshot) → Good (adapter none 1 none) (new_adapter snapshot)
unfolding new_adapter
start-Good n = refresh_lem none 1 none n.epoch n.ready refl

pub Run-IsInStep : (s : SessionAdapter) (log : List Event) → Run s log → IsInStep s
Run-IsInStep _ _ (started n) = (start-Good n).in_step
Run-IsInStep _ _ (called {s} {log} call r) = (apply-Good s call (Run-IsInStep s log r)).in_step
