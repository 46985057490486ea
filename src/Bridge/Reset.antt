-- ===== src/Bridge/Reset.antt =====
-- The reset actions of `reduceBridgeState`.
use fipwave.Common.{ℕ, ◌+◌, ◌≡◌, ◌≢◌, ◌∙◌, refl, ap, arith, false, List, [], ◌∷◌, All, none, some}
use Prim.Native.String.{String}
use fipwave.Bridge.{
  BridgeState, BridgeAction, snapshot, reset_start, reset_ack, reset_failed, status_idle,
  reduce_known, reduce_bridge_state,
}

abbrev pub reduce_all : List BridgeAction → BridgeState → BridgeState
reduce_all [] s = s
reduce_all (a ∷ as_) s = reduce_all as_ (reduce_bridge_state (some s) a)

-- The action neither reports the failure of a reset nor acknowledges the epoch.
abbrev pub Unrelated : ℕ → BridgeAction → Type 0
Unrelated next (snapshot facts) = Unit {0}
Unrelated next reset_start = Unit {0}
Unrelated next (reset_ack epoch now) = epoch ≢ next
Unrelated next (reset_failed reason) = ⊥

-- The state in which a reset has begun.
abbrev pub resetting : BridgeState → BridgeState
resetting s = reduce_bridge_state (some s) reset_start

resetting_kept :
    (s : BridgeState) (a : BridgeAction)
    → Unrelated (s.facts.epoch + 1) a
    → reduce_bridge_state (some (resetting s)) a ≡ resetting s
unfolding reduce_known
resetting_kept s (snapshot facts) o = ground arith
resetting_kept s reset_start o = refl
resetting_kept s (reset_ack epoch now) o = ground (arith, o)
resetting_kept s (reset_failed reason) o = absurd o

all_kept :
    (s : BridgeState) (actions : List BridgeAction)
    → All (Unrelated (s.facts.epoch + 1)) actions
    → reduce_all actions (resetting s) ≡ resetting s
all_kept s [] o = refl
all_kept s (a ∷ later) o = ap (reduce_all later) (resetting_kept s a o.0) ∙ all_kept s later o.1

-- The page has left the reset: it is idle in an epoch, with an empty queue and no error.
pub record Restarted (epoch : ℕ) (s : BridgeState) : Type 0 where
  pub status : s.status ≡ status_idle
  pub fresh : s.stale ≡ false
  pub epoch_lem : s.facts.epoch ≡ epoch
  pub items : s.facts.queue_items ≡ 0
  pub error : s.facts.last_error ≡ none

-- From the start of a reset on, snapshots of any epoch, further starts and acknowledgements of other
-- epochs than the next one change nothing, in whatever order they come; the acknowledgement of the
-- next epoch then makes the page idle in that epoch, with an empty queue and no error.
pub reduce_all-reset_start :
    (s : BridgeState) (actions : List BridgeAction) (now : String)
    → All (Unrelated (s.facts.epoch + 1)) actions
    → (reduce_all actions (resetting s) ≡ resetting s)
      × Restarted (s.facts.epoch + 1) (
          reduce_bridge_state
            (some (reduce_all actions (resetting s)))
            (reset_ack (s.facts.epoch + 1) now))
unfolding reduce_known
reduce_all-reset_start s actions now o =
    let kept = all_kept s actions o in
    (
      kept,
      rw (kept) (record {
        status = ground arith;
        fresh = ground arith;
        epoch_lem = ground arith;
        items = ground arith;
        error = ground arith;
      }),
    )
