-- ===== src/SoundProof/Peer.antt =====
-- When `joinAuthenticatedSoundPeer` is ready.
use fipwave.Common.{
  subst, ℕ, ◌+◌, ◌-◌, ◌≤◌, ◌≡◌, ◌↔◌, refl, sym, ap, ◌∙◌, arith, ltb, ◌==◌, Bool, true, false, ◌||◌,
  not, Option, none, some,
}
use fipwave.Common.Texts.{same_text, find, find-First, First-find}
use fipwave.SoundProof.{
  FipsPeer, FipsLink, FipsTransport, SoundPeerInput, ready, stale_batch, is_expected_peer,
  join_acoustic, join_link, join_peer, join_authenticated_sound_peer, snapshot_stale,
  peer_not_sound, link_inactive,
}
use fipwave.SoundProof.Facts.{
  SoundTransport, PeerFacts, passed, stale_batch_iff, not_text, transport_iff, same_id,
  expected_lem, acoustic_tests, ready_same,
}

-- The facts about the transport and the acoustic session.
unfoldable AcousticFacts : SoundPeerInput → FipsTransport → Type 0
AcousticFacts i t =
    SoundTransport t i.acoustic.epoch
    × (i.acoustic.ready ≡ true)
    × (i.now_ms ≤ i.acoustic.observed_at_ms + 60000)

acoustic_test :
    (b : Bool) (now at : ℕ)
    → ((not b || ltb 60000 (now - at)) ≡ false) ↔ ((b ≡ true) × (now ≤ at + 60000))
acoustic_test b now at = (λ h. ground arith, λ h. ground arith)

-- The steps of the join, from the last one on.
acoustic_ready :
    (i : SoundPeerInput) (q p : FipsPeer) (m l : FipsLink) (o : Option FipsTransport)
    (t : FipsTransport)
    → join_acoustic i q m o ≡ ready p l t
    → (q ≡ p) × (m ≡ l) × (o ≡ some t) × AcousticFacts i t
unfolding join_acoustic AcousticFacts
acoustic_ready i q p m l none t h = cc
acoustic_ready i q p m l (some u) t h =
    let (up, recent, epoch, same) = (acoustic_tests i q p m l u t).0 h in
    let (sp, sl, st) = ready_same q p m l u t same in
    (
      sp,
      sl,
      ap (λ (t : FipsTransport). some t) st,
      (
        subst (λ t. SoundTransport t i.acoustic.epoch) st
            ((transport_iff u i.acoustic.epoch).0 (up, epoch)),
        ((acoustic_test i.acoustic.ready i.now_ms i.acoustic.observed_at_ms).0 recent).0,
        ((acoustic_test i.acoustic.ready i.now_ms i.acoustic.observed_at_ms).0 recent).1,
      ),
    )

link_ready :
    (i : SoundPeerInput) (q p : FipsPeer) (o : Option FipsLink) (l : FipsLink) (t : FipsTransport)
    → join_link i q o ≡ ready p l t
    → (q ≡ p)
      × (o ≡ some l)
      × (l.state ≡ "connected")
      × (find (λ item. item.transport_id == l.transport_id) i.transports ≡ some t)
      × AcousticFacts i t
unfolding join_link
link_ready i q p none l t h = cc
link_ready i q p (some m) l t h =
    let (connected, rest) =
      (passed (not (same_text m.state "connected")) link_inactive (some q) (some m) none _ p l t).0
        h in
    let (sp, sl, found, facts) = acoustic_ready i q p m l _ t rest in
    (
      sp,
      ap (λ (l : FipsLink). some l) sl,
      ap (λ (l : FipsLink). l.state) (sym sl) ∙ (not_text m.state "connected").0 connected,
      subst (λ l. find (λ item. item.transport_id == l.transport_id) i.transports ≡ some t) sl
          found,
      facts,
    )

peer_ready :
    (i : SoundPeerInput) (o : Option FipsPeer) (p : FipsPeer) (l : FipsLink) (t : FipsTransport)
    → join_peer i o ≡ ready p l t
    → (o ≡ some p)
      × (p.transport_type ≡ "sound")
      × (find (λ item. item.link_id == p.link_id) i.links ≡ some l)
      × (l.state ≡ "connected")
      × (find (λ item. item.transport_id == l.transport_id) i.transports ≡ some t)
      × AcousticFacts i t
unfolding join_peer
peer_ready i none p l t h = cc
peer_ready i (some q) p l t h =
    let (sound, rest) =
      (passed (not (same_text q.transport_type "sound")) peer_not_sound (some q) none none _ p l
          t).0
        h in
    let (sp, found, connected, transport, facts) = link_ready i q p _ l t rest in
    (
      ap (λ (p : FipsPeer). some p) sp,
      ap (λ (p : FipsPeer). p.transport_type) (sym sp)
          ∙ (not_text q.transport_type "sound").0 sound,
      subst (λ p. find (λ item. item.link_id == p.link_id) i.links ≡ some l) sp found,
      connected,
      transport,
      facts,
    )

join_sound :
    (i : SoundPeerInput) (p : FipsPeer) (l : FipsLink) (t : FipsTransport)
    → join_authenticated_sound_peer i ≡ ready p l t
    → PeerFacts i p l t
unfolding join_authenticated_sound_peer AcousticFacts
join_sound i p l t h =
    let (fresh, rest) = (passed (stale_batch i) snapshot_stale none none none _ p l t).0 h in
    let (found, sound, link, connected, transport, facts) = peer_ready i _ p l t rest in
    let peer = find-First (is_expected_peer i) i.peers p found in
    let linked = find-First (λ item. item.link_id == p.link_id) i.links l link in
    let carried =
      find-First (λ item. item.transport_id == l.transport_id) i.transports t transport in
    record {
      batch = (stale_batch_iff i).0 fresh;
      peer = peer;
      peer_key = (expected_lem i p peer.4).0;
      peer_connected = (expected_lem i p peer.4).1;
      peer_sound = sound;
      link = linked;
      link_of_peer = same_id l.link_id p.link_id linked.4;
      link_connected = connected;
      transport = carried;
      transport_of_link = same_id t.transport_id l.transport_id carried.4;
      transport_sound = facts.0;
      acoustic = facts.1;
      acoustic_recent = facts.2;
    }

join_complete :
    (i : SoundPeerInput) (p : FipsPeer) (l : FipsLink) (t : FipsTransport)
    → PeerFacts i p l t
    → join_authenticated_sound_peer i ≡ ready p l t
unfolding join_authenticated_sound_peer join_peer join_link
join_complete i p l t f =
    let tests = (transport_iff t i.acoustic.epoch).1 f.transport_sound in
    rw
      (
        (stale_batch_iff i).1 f.batch,
        First-find (is_expected_peer i) i.peers p f.peer,
        (not_text p.transport_type "sound").1 f.peer_sound,
        First-find (λ item. item.link_id == p.link_id) i.links l f.link,
        (not_text l.state "connected").1 f.link_connected,
        First-find (λ item. item.transport_id == l.transport_id) i.transports t f.transport,
      )
      ((acoustic_tests i p p l l t t).1 (
        tests.0,
        (acoustic_test i.acoustic.ready i.now_ms i.acoustic.observed_at_ms).1
            (f.acoustic, f.acoustic_recent),
        tests.1,
        refl,
      ))

-- `joinAuthenticatedSoundPeer` is ready with a peer, a link and a transport exactly when the daemon
-- was read within two seconds and at most a minute ago, the peer is the first connected one of the
-- expected key and is on sound, the link is the first of its number and connected, the transport is
-- the first of the link's number and a sound transport that is up, with its worker and acoustic
-- session ready, and the acoustic status is ready, at most a minute old and of the transport's epoch.
pub join_authenticated_sound_peer_lem :
    (i : SoundPeerInput) (p : FipsPeer) (l : FipsLink) (t : FipsTransport)
    → (join_authenticated_sound_peer i ≡ ready p l t) ↔ PeerFacts i p l t
join_authenticated_sound_peer_lem i p l t = (join_sound i p l t, join_complete i p l t)
