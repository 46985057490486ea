-- ===== src/SoundProof.antt =====
-- packages/bridge/src/proof.ts: which peer, link and transport of the FIPS daemon, with the acoustic
-- and the isolation facts, prove that a ping goes over sound. The inputs stand as the strict parsers
-- leave them; of the transport's open statistics the three that are read are kept.
pub mod Facts
pub mod Peer
pub mod Ping
pub mod Reduced
pub mod Examples
use fipwave.Common.{
  ℕ, ◌-◌, ltb, ◌==◌, ◌!=◌, Bool, true, false, ◌&&◌, ◌||◌, not, if◌then◌else◌, List, [], ◌∷◌, Option,
  none, some,
}
use fipwave.Common.Texts.{same_text, find}
use Prim.Native.String.{String}

pub record FipsPeer : Type 0 where
  pub npub : String
  pub connectivity : String
  pub link_id : ℕ
  pub transport_type : String

pub record FipsLink : Type 0 where
  pub link_id : ℕ
  pub transport_id : ℕ
  pub state : String

-- `worker_up` and `acoustic_ready` say whether the statistic is `true`; `epoch` is there if it is a
-- natural number.
pub record FipsTransport : Type 0 where
  pub transport_id : ℕ
  pub type : String
  pub state : String
  pub worker_up : Bool
  pub acoustic_ready : Bool
  pub epoch : Option ℕ

pub record AcousticProofStatus : Type 0 where
  pub epoch : ℕ
  pub ready : Bool
  pub observed_at_ms : ℕ

pub record IsolationProofStatus : Type 0 where
  pub accepted : Bool
  pub epoch : ℕ
  pub observed_at_ms : ℕ
  pub target_ipv6 : String

pub record SoundPeerInput : Type 0 where
  pub expected_peer_public_key : String
  pub peers : List FipsPeer
  pub links : List FipsLink
  pub transports : List FipsTransport
  pub acoustic : AcousticProofStatus
  pub now_ms : ℕ
  pub batch_started_at_ms : ℕ
  pub batch_completed_at_ms : ℕ

pub record SoundProofInput : Type 0 where
  pub peer_input : SoundPeerInput
  pub target_ipv6 : String
  pub isolation : IsolationProofStatus

pub data ProofReason : Type 0 where
  peer_missing peer_not_sound link_missing link_inactive transport_missing : ProofReason
  transport_not_ready acoustic_stale acoustic_epoch_mismatch snapshot_stale : ProofReason
  isolation_failed isolation_stale isolation_epoch_mismatch target_mismatch : ProofReason

-- `SoundPeerJoin` and `SoundProofJoin`, of `ready` or of a reason with the facts found so far.
pub data Join : Type 0 where
  ready : FipsPeer → FipsLink → FipsTransport → Join
  blocked : ProofReason → Option FipsPeer → Option FipsLink → Option FipsTransport → Join

abbrev pub max_snapshot_age_ms : ℕ
max_snapshot_age_ms = 60000

-- The epoch of the statistics is a natural number.
abbrev pub has_epoch : Option ℕ → Bool
has_epoch none = false
has_epoch (some e) = true

abbrev pub epoch_is : ℕ → Option ℕ → Bool
epoch_is n none = false
epoch_is n (some e) = n == e

unfoldable pub stale_batch : SoundPeerInput → Bool
stale_batch input =
    ltb input.batch_completed_at_ms input.batch_started_at_ms
    || ltb 2000 (input.batch_completed_at_ms - input.batch_started_at_ms)
    || ltb max_snapshot_age_ms (input.now_ms - input.batch_completed_at_ms)

unfoldable pub is_expected_peer : SoundPeerInput → FipsPeer → Bool
is_expected_peer input item =
    same_text item.npub input.expected_peer_public_key && same_text item.connectivity "connected"

unfoldable pub transport_ready : FipsTransport → Bool
transport_ready t =
    same_text t.type "sound"
    && same_text t.state "up"
    && t.worker_up
    && t.acoustic_ready
    && has_epoch t.epoch

-- The last checks, of the transport that was found.
unfoldable pub join_acoustic : SoundPeerInput → FipsPeer → FipsLink → Option FipsTransport → Join
join_acoustic input peer link none = blocked transport_missing (some peer) (some link) none
join_acoustic input peer link (some t) =
    if not (transport_ready t)
    then blocked transport_not_ready (some peer) (some link) (some t)
    else if not input.acoustic.ready
        || ltb max_snapshot_age_ms (input.now_ms - input.acoustic.observed_at_ms)
    then blocked acoustic_stale (some peer) (some link) (some t)
    else if not (epoch_is input.acoustic.epoch t.epoch)
    then blocked acoustic_epoch_mismatch (some peer) (some link) (some t)
    else ready peer link t

-- The checks from the link that was found on.
unfoldable pub join_link : SoundPeerInput → FipsPeer → Option FipsLink → Join
join_link input peer none = blocked link_missing (some peer) none none
join_link input peer (some link) =
    if not (same_text link.state "connected")
    then blocked link_inactive (some peer) (some link) none
    else join_acoustic input peer link
        (find (λ item. item.transport_id == link.transport_id) input.transports)

-- The checks from the peer that was found on.
unfoldable pub join_peer : SoundPeerInput → Option FipsPeer → Join
join_peer input none = blocked peer_missing none none none
join_peer input (some peer) =
    if not (same_text peer.transport_type "sound")
    then blocked peer_not_sound (some peer) none none
    else join_link input peer (find (λ item. item.link_id == peer.link_id) input.links)

unfoldable pub join_authenticated_sound_peer : SoundPeerInput → Join
join_authenticated_sound_peer input =
    if stale_batch input
    then blocked snapshot_stale none none none
    else join_peer input (find (is_expected_peer input) input.peers)

-- The isolation facts, for a peer that is joined.
unfoldable pub join_isolation : SoundProofInput → Join → Join
join_isolation input (blocked reason p l t) = blocked reason p l t
join_isolation input (ready p l t) =
    if not input.isolation.accepted
    then blocked isolation_failed (some p) (some l) (some t)
    else if ltb max_snapshot_age_ms (input.peer_input.now_ms - input.isolation.observed_at_ms)
    then blocked isolation_stale (some p) (some l) (some t)
    else if not (epoch_is input.isolation.epoch t.epoch)
    then blocked isolation_epoch_mismatch (some p) (some l) (some t)
    else if not (same_text input.isolation.target_ipv6 input.target_ipv6)
    then blocked target_mismatch (some p) (some l) (some t)
    else ready p l t

unfoldable pub join_sound_proof : SoundProofInput → Join
join_sound_proof input = join_isolation input (join_authenticated_sound_peer input.peer_input)

-- `PublicProofState`; its result is always null in what the reducer makes.
pub data ProofMode : Type 0 where
  mode_blocked mode_ready mode_degraded : ProofMode

pub record PublicProofState : Type 0 where
  pub state : ProofMode
  pub epoch : ℕ
  pub ping_ready : Bool
  pub reason : String

pub data ProofAction : Type 0 where
  snapshot : ℕ → Bool → String → ProofAction
  invalidate : ℕ → String → ProofAction

abbrev pub snapshot_state : ℕ → Bool → String → PublicProofState
snapshot_state epoch ping_ready reason = record {
  state = if ping_ready then mode_ready else mode_blocked;
  epoch = epoch;
  ping_ready = ping_ready;
  reason = reason;
}

unfoldable pub reduce_proof_state : Option PublicProofState → ProofAction → PublicProofState
reduce_proof_state previous (invalidate epoch reason) = record {
  state = mode_degraded;
  epoch = epoch;
  ping_ready = false;
  reason = reason;
}
reduce_proof_state none (snapshot epoch ping_ready reason) = snapshot_state epoch ping_ready reason
reduce_proof_state (some previous) (snapshot epoch ping_ready reason) =
    if ltb epoch previous.epoch then previous else snapshot_state epoch ping_ready reason
