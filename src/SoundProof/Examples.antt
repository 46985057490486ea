-- ===== src/SoundProof/Examples.antt =====
-- Runs of the sound proof, and its theorems at concrete inputs.
use fipwave.Common.{ℕ, ◌≡◌, ◌↔◌, refl, true, false, List, [], ◌∷◌, some}
use fipwave.Common.Texts.{same_text}
use fipwave.SoundProof.{
  FipsPeer, FipsLink, FipsTransport, SoundPeerInput, SoundProofInput, ready, blocked,
  acoustic_stale, stale_batch, is_expected_peer, transport_ready, join_acoustic, join_link,
  join_peer, join_authenticated_sound_peer, join_isolation, join_sound_proof, PublicProofState,
  ProofAction, snapshot, mode_ready, reduce_proof_state,
}
use fipwave.SoundProof.Facts.{PeerFacts}
use fipwave.SoundProof.Peer.{join_authenticated_sound_peer_lem}
use fipwave.SoundProof.Ping.{IsolationFacts, join_sound_proof_lem}
use fipwave.SoundProof.Reduced.{after_actions, ReadyFrom, ping_ready_lem}

abbrev peer_b : FipsPeer
peer_b = record {
  npub = "npub1b";
  connectivity = "connected";
  link_id = 7;
  transport_type = "sound";
}

abbrev link_b : FipsLink
link_b = record { link_id = 7; transport_id = 2; state = "connected" }

abbrev transport_b : FipsTransport
transport_b = record {
  transport_id = 2;
  type = "sound";
  state = "up";
  worker_up = true;
  acoustic_ready = true;
  epoch = some 5;
}

abbrev peer_facts : ℕ → SoundPeerInput
peer_facts seen = record {
  expected_peer_public_key = "npub1b";
  peers = peer_b ∷ [];
  links = link_b ∷ [];
  transports = transport_b ∷ [];
  acoustic = record { epoch = 5; ready = true; observed_at_ms = seen };
  now_ms = 100000;
  batch_started_at_ms = 99000;
  batch_completed_at_ms = 99500;
}

abbrev proof_facts : SoundProofInput
proof_facts = record {
  peer_input = peer_facts 90000;
  target_ipv6 = "fd00::b";
  isolation = record {
    accepted = true;
    epoch = 5;
    observed_at_ms = 95000;
    target_ipv6 = "fd00::b";
  };
}

facts_ready : join_sound_proof proof_facts ≡ ready peer_b link_b transport_b
unfolding join_sound_proof join_isolation join_authenticated_sound_peer join_peer join_link
    join_acoustic stale_batch is_expected_peer transport_ready same_text
facts_ready = refl

facts_stale :
    join_authenticated_sound_peer (peer_facts 30000)
    ≡ blocked acoustic_stale (some peer_b) (some link_b) (some transport_b)
unfolding join_authenticated_sound_peer join_peer join_link join_acoustic stale_batch
    is_expected_peer transport_ready same_text
facts_stale = refl

join_authenticated_sound_peer_lem_example :
    (join_authenticated_sound_peer (peer_facts 90000) ≡ ready peer_b link_b transport_b)
    ↔ PeerFacts (peer_facts 90000) peer_b link_b transport_b
join_authenticated_sound_peer_lem_example =
    join_authenticated_sound_peer_lem (peer_facts 90000) peer_b link_b transport_b

join_sound_proof_lem_example :
    (join_sound_proof proof_facts ≡ ready peer_b link_b transport_b)
    ↔ (PeerFacts (peer_facts 90000) peer_b link_b transport_b × IsolationFacts proof_facts)
join_sound_proof_lem_example = join_sound_proof_lem proof_facts peer_b link_b transport_b

-- A ready snapshot, and an outdated one after it.
abbrev proof_actions : List ProofAction
proof_actions = snapshot 4 false "peer_missing" ∷ snapshot 5 true "ready" ∷ []

abbrev ready_state : PublicProofState
ready_state = record { state = mode_ready; epoch = 5; ping_ready = true; reason = "ready" }

still_ready : after_actions proof_actions ≡ some ready_state
unfolding after_actions reduce_proof_state
still_ready = refl

ping_ready_lem_example : ReadyFrom proof_actions ready_state
ping_ready_lem_example = ping_ready_lem proof_actions ready_state still_ready refl
