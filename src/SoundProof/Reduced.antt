-- ===== src/SoundProof/Reduced.antt =====
-- The public proof state over time.
use fipwave.Common.{
  subst, ℕ, ◌<◌, ◌≡◌, refl, ap, ◌∙◌, ltb, ltb→lt, Bool, true, false, if◌then◌else◌, Option, none,
  some, List, [], ◌∷◌, ◌++◌, All,
}
use fipwave.SoundProof.{
  PublicProofState, ProofAction, snapshot, invalidate, reduce_proof_state, snapshot_state,
}
use Prim.Native.String.{String}
use mathlib.Core.Option.{some-injective}

-- The state after some actions, the last one first.
unfoldable pub after_actions : List ProofAction → Option PublicProofState
after_actions [] = none
after_actions (a ∷ earlier) = some (reduce_proof_state (after_actions earlier) a)

-- A snapshot of an epoch before `epoch`.
abbrev pub Outdated : ℕ → ProofAction → Type 0
Outdated epoch (snapshot e p r) = e < epoch
Outdated epoch (invalidate e r) = ⊥

-- A ready snapshot of the actions, with only outdated snapshots after it.
abbrev pub ReadyFrom : List ProofAction → PublicProofState → Type 0
ReadyFrom actions s =
    (later : List ProofAction) × (earlier : List ProofAction) × (actions
      ≡ later ++ (snapshot s.epoch true s.reason ∷ earlier))
    × All (Outdated s.epoch) later

taken :
    (e : ℕ) (p : Bool) (r : String) (earlier : List ProofAction) (s : PublicProofState)
    → snapshot_state e p r ≡ s
    → s.ping_ready ≡ true
    → ReadyFrom (snapshot e p r ∷ earlier) s
taken e p r earlier s same h =
    let epoch : e ≡ s.epoch = ap (λ (s : PublicProofState). s.epoch) same in
    let ready : p ≡ true = ap (λ (s : PublicProofState). s.ping_ready) same ∙ h in
    let reason : r ≡ s.reason = ap (λ (s : PublicProofState). s.reason) same in
    ([], earlier, (λ i. snapshot (epoch i) (ready i) (reason i) ∷ earlier), tt)

-- Whatever snapshots and invalidations come in, the proof state is ready for a ping only because of a
-- snapshot that is ready, of the state's epoch and reason, after which nothing but snapshots of
-- earlier epochs came in.
pub ping_ready_lem :
    (actions : List ProofAction) (s : PublicProofState)
    → after_actions actions ≡ some s
    → s.ping_ready ≡ true
    → ReadyFrom actions s
unfolding after_actions reduce_proof_state
ping_ready_lem [] s h r = cc
ping_ready_lem (invalidate e reason ∷ earlier) s h r = cc
ping_ready_lem (snapshot e p reason ∷ earlier) s h r =
    by_previous (after_actions earlier) (some-injective _ s h) (ping_ready_lem earlier s)
  where
    by_previous :
        (o : Option PublicProofState)
        → reduce_proof_state o (snapshot e p reason) ≡ s
        → (o ≡ some s → s.ping_ready ≡ true → ReadyFrom earlier s)
        → ReadyFrom (snapshot e p reason ∷ earlier) s
    by_previous none h before = taken e p reason earlier s h r
    by_previous (some old) h before = by_age (ltb e old.epoch) refl h before
      where
        by_age :
            (b : Bool)
            → ltb e old.epoch ≡ b
            → (if b then old else snapshot_state e p reason) ≡ s
            → (some old ≡ some s → s.ping_ready ≡ true → ReadyFrom earlier s)
            → ReadyFrom (snapshot e p reason ∷ earlier) s
        by_age true young h before =
            let (later, past, split, outdated) =
              before (ap (λ (s : PublicProofState). some s) h) r in
            (
              snapshot e p reason ∷ later,
              past,
              ap (◌∷◌ (snapshot e p reason)) split,
              (
                subst (λ (n : ℕ). e < n) (ap (λ (s : PublicProofState). s.epoch) h)
                    (ltb→lt e old.epoch young),
                outdated,
              ),
            )
        by_age false young h before = taken e p reason earlier s h r
