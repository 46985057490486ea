-- ===== src/SoundProof/Ping.antt =====
-- When `joinSoundProof` is ready.
use fipwave.Common.{
  subst, ℕ, ◌+◌, ◌-◌, ◌≤◌, ◌≡◌, ◌↔◌, refl, arith, ltb, Bool, true, false, not, some,
}
use fipwave.Common.Texts.{same_text}
use fipwave.SoundProof.{
  FipsPeer, FipsLink, FipsTransport, SoundProofInput, Join, ready, blocked,
  join_authenticated_sound_peer, join_isolation, join_sound_proof, epoch_is,
}
use fipwave.SoundProof.{
  isolation_failed, isolation_stale, isolation_epoch_mismatch, target_mismatch,
}
use fipwave.SoundProof.Facts.{PeerFacts, passed, not_text, recent_iff}
use fipwave.SoundProof.Peer.{join_authenticated_sound_peer_lem}

-- The isolation of the peer was accepted at most a minute ago, at the epoch of the transport and
-- for the target of the ping.
pub record IsolationFacts (i : SoundProofInput) : Type 0 where
  pub accepted : i.isolation.accepted ≡ true
  pub recent : i.peer_input.now_ms ≤ i.isolation.observed_at_ms + 60000
  pub epoch : i.isolation.epoch ≡ i.peer_input.acoustic.epoch
  pub target : i.isolation.target_ipv6 ≡ i.target_ipv6

isolation_tests :
    (i : SoundProofInput) (q p : FipsPeer) (m l : FipsLink) (u t : FipsTransport)
    → (join_isolation i (ready q m u) ≡ ready p l t) ↔ (
        (not i.isolation.accepted ≡ false)
        × (ltb 60000 (i.peer_input.now_ms - i.isolation.observed_at_ms) ≡ false)
        × (not (epoch_is i.isolation.epoch u.epoch) ≡ false)
        × (not (same_text i.isolation.target_ipv6 i.target_ipv6) ≡ false)
        × (ready q m u ≡ ready p l t))
unfolding join_isolation
isolation_tests i q p m l u t =
    let age = ltb 60000 (i.peer_input.now_ms - i.isolation.observed_at_ms) in
    let other = not (epoch_is i.isolation.epoch u.epoch) in
    let target = not (same_text i.isolation.target_ipv6 i.target_ipv6) in
    let fourth = passed target target_mismatch (some q) (some m) (some u) (ready q m u) p l t in
    let third = passed other isolation_epoch_mismatch (some q) (some m) (some u) _ p l t in
    let second = passed age isolation_stale (some q) (some m) (some u) _ p l t in
    let first =
      passed (not i.isolation.accepted) isolation_failed (some q) (some m) (some u) _ p l t in
    (
      λ h.
          let a = first.0 h in
          let b = second.0 a.1 in
          let c = third.0 b.1 in let d = fourth.0 c.1 in (a.0, b.0, c.0, d.0, d.1),
      λ h. first.1 (h.0, second.1 (h.1, third.1 (h.2, fourth.1 (h.3, h.4)))),
    )

epoch_iff : (a b : ℕ) → (not (epoch_is a (some b)) ≡ false) ↔ (a ≡ b)
epoch_iff a b = (λ h. ground arith, λ h. ground arith)

accepted_iff : (b : Bool) → (not b ≡ false) ↔ (b ≡ true)
accepted_iff b = (λ h. ground arith, λ h. ground arith)

join_facts :
    (i : SoundProofInput) (j : Join) (p : FipsPeer) (l : FipsLink) (t : FipsTransport)
    → join_isolation i j ≡ ready p l t
    → j ≡ ready p l t
unfolding join_isolation
join_facts i (blocked r a b c) p l t h = cc
join_facts i (ready q m u) p l t h = ((isolation_tests i q p m l u t).0 h).4

-- `joinSoundProof` is ready with a peer, a link and a transport exactly when
-- `joinAuthenticatedSoundPeer` proves them and the isolation of the peer was accepted at most a
-- minute ago, at the epoch of the transport and for the target of the ping.
pub join_sound_proof_lem :
    (i : SoundProofInput) (p : FipsPeer) (l : FipsLink) (t : FipsTransport)
    → (join_sound_proof i ≡ ready p l t) ↔ (PeerFacts i.peer_input p l t × IsolationFacts i)
unfolding join_sound_proof
join_sound_proof_lem i p l t = (
  λ h.
      let joined = join_facts i (join_authenticated_sound_peer i.peer_input) p l t h in
      let facts = (join_authenticated_sound_peer_lem i.peer_input p l t).0 joined in
      let tests =
        (isolation_tests i p p l l t t).0
          (subst (λ j. join_isolation i j ≡ ready p l t) joined h) in
      (
        facts,
        record {
          accepted = (accepted_iff i.isolation.accepted).0 tests.0;
          recent = (recent_iff i.peer_input.now_ms i.isolation.observed_at_ms).0 tests.1;
          epoch = (epoch_iff i.isolation.epoch i.peer_input.acoustic.epoch).0 (
              subst (λ o. not (epoch_is i.isolation.epoch o) ≡ false) facts.transport_sound.epoch
                tests.2);
          target = (not_text i.isolation.target_ipv6 i.target_ipv6).0 tests.3;
        },
      ),
  λ (facts, isolated). rw ((join_authenticated_sound_peer_lem i.peer_input p l t).1 facts) (
      (isolation_tests i p p l l t t).1 (
        (accepted_iff i.isolation.accepted).1 isolated.accepted,
        (recent_iff i.peer_input.now_ms i.isolation.observed_at_ms).1 isolated.recent,
        rw (facts.transport_sound.epoch)
            ((epoch_iff i.isolation.epoch i.peer_input.acoustic.epoch).1 isolated.epoch),
        (not_text i.isolation.target_ipv6 i.target_ipv6).1 isolated.target,
        refl,
      )),
)
