-- ===== src/SoundProof/Facts.antt =====
-- What a ready join proves, and when it is ready.
use fipwave.Common.{
  ℕ, ◌+◌, ◌-◌, ◌≤◌, ◌≡◌, ◌↔◌, refl, arith, ltb, ◌==◌, Bool, true, false, ◌||◌, not, if◌then◌else◌,
  Option, some,
}
use fipwave.Common.Texts.{same_text, same_text_iff, First}
use fipwave.SoundProof.{
  FipsPeer, FipsLink, FipsTransport, SoundPeerInput, Join, ready, blocked, ProofReason, stale_batch,
  is_expected_peer, transport_ready, join_acoustic, epoch_is, transport_not_ready, acoustic_stale,
  acoustic_epoch_mismatch,
}

-- The daemon was read within two seconds, at most a minute ago.
pub record FreshBatch (i : SoundPeerInput) : Type 0 where
  pub ordered : i.batch_started_at_ms ≤ i.batch_completed_at_ms
  pub brief : i.batch_completed_at_ms ≤ i.batch_started_at_ms + 2000
  pub recent : i.now_ms ≤ i.batch_completed_at_ms + 60000

-- A transport of sound that is up, with its worker, at an epoch.
pub record SoundTransport (t : FipsTransport) (current : ℕ) : Type 0 where
  pub sound : t.type ≡ "sound"
  pub up : t.state ≡ "up"
  pub worker : t.worker_up ≡ true
  pub acoustic : t.acoustic_ready ≡ true
  pub epoch : t.epoch ≡ some current

-- The expected peer, connected over sound by a connected link of a sound transport whose epoch is
-- that of an acoustic session that is ready and was seen at most a minute ago.
pub record PeerFacts (i : SoundPeerInput) (p : FipsPeer) (l : FipsLink) (t : FipsTransport)
    : Type 0 where
  pub batch : FreshBatch i
  pub peer : First (is_expected_peer i) i.peers p
  pub peer_key : p.npub ≡ i.expected_peer_public_key
  pub peer_connected : p.connectivity ≡ "connected"
  pub peer_sound : p.transport_type ≡ "sound"
  pub link : First (λ item. item.link_id == p.link_id) i.links l
  pub link_of_peer : l.link_id ≡ p.link_id
  pub link_connected : l.state ≡ "connected"
  pub transport : First (λ item. item.transport_id == l.transport_id) i.transports t
  pub transport_of_link : t.transport_id ≡ l.transport_id
  pub transport_sound : SoundTransport t i.acoustic.epoch
  pub acoustic : i.acoustic.ready ≡ true
  pub acoustic_recent : i.now_ms ≤ i.acoustic.observed_at_ms + 60000

-- A test that stops the join unless it fails.
pub passed :
    (b : Bool) (reason : ProofReason) (p : Option FipsPeer) (l : Option FipsLink)
    (t : Option FipsTransport) (j : Join)
    → (p' : FipsPeer) (l' : FipsLink) (t' : FipsTransport)
    → ((if b then blocked reason p l t else j) ≡ ready p' l' t')
      ↔ ((b ≡ false) × (j ≡ ready p' l' t'))
passed true reason p l t j p' l' t' = (λ h. cc, λ h. cc)
passed false reason p l t j p' l' t' = (λ h. (refl, h), λ h. h.1)

pub stale_batch_iff : (i : SoundPeerInput) → (stale_batch i ≡ false) ↔ FreshBatch i
unfolding stale_batch
stale_batch_iff i = (λ h. ground arith, λ h. ground arith)

pub not_text : (s t : _) → (not (same_text s t) ≡ false) ↔ (s ≡ t)
not_text s t = ground (arith, same_text_iff s t)

pub transport_iff :
    (t : FipsTransport) (e : ℕ)
    → ((not (transport_ready t) ≡ false) × (not (epoch_is e t.epoch) ≡ false)) ↔ SoundTransport t e
unfolding transport_ready
transport_iff t e = (
  λ h. ground (arith, same_text_iff t.type "sound", same_text_iff t.state "up"),
  λ h. ground (arith, same_text_iff t.type "sound", same_text_iff t.state "up"),
)

pub recent_iff : (now at : ℕ) → (ltb 60000 (now - at) ≡ false) ↔ (now ≤ at + 60000)
recent_iff now at = (λ h. ground arith, λ h. ground arith)

pub same_id : (a b : ℕ) → (a == b) ≡ true → a ≡ b
same_id a b h = ground arith

pub expected_lem :
    (i : SoundPeerInput) (p : FipsPeer)
    → is_expected_peer i p ≡ true
    → (p.npub ≡ i.expected_peer_public_key) × (p.connectivity ≡ "connected")
unfolding is_expected_peer
expected_lem i p h = ground (
  arith,
  same_text_iff p.npub i.expected_peer_public_key,
  same_text_iff p.connectivity "connected",
)

-- The steps of the join from the last one on, each with what it means to be ready.
pub ready_same :
    (p p' : FipsPeer) (l l' : FipsLink) (t t' : FipsTransport)
    → ready p l t ≡ ready p' l' t'
    → (p ≡ p') × (l ≡ l') × (t ≡ t')
ready_same p p' l l' t t' h = (cc, cc, cc)

pub acoustic_tests :
    (i : SoundPeerInput) (p p' : FipsPeer) (l l' : FipsLink) (u t : FipsTransport)
    → (join_acoustic i p l (some u) ≡ ready p' l' t) ↔ (
        (not (transport_ready u) ≡ false)
        × ((not i.acoustic.ready || ltb 60000 (i.now_ms - i.acoustic.observed_at_ms)) ≡ false)
        × (not (epoch_is i.acoustic.epoch u.epoch) ≡ false)
        × (ready p l u ≡ ready p' l' t))
unfolding join_acoustic
acoustic_tests i p p' l l' u t =
    let third =
      passed (not (epoch_is i.acoustic.epoch u.epoch)) acoustic_epoch_mismatch (some p) (some l)
        (some u) (ready p l u) p' l' t in
    let second =
      passed (not i.acoustic.ready || ltb 60000 (i.now_ms - i.acoustic.observed_at_ms))
        acoustic_stale (some p) (some l) (some u) _ p' l' t in
    let first =
      passed (not (transport_ready u)) transport_not_ready (some p) (some l) (some u) _ p' l' t in
    (
      λ h. let a = first.0 h in let b = second.0 a.1 in let c = third.0 b.1 in (a.0, b.0, c.0, c.1),
      λ h. first.1 (h.0, second.1 (h.1, third.1 (h.2, h.3))),
    )
