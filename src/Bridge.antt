-- ===== src/Bridge.antt =====
-- `reduceBridgeState` of apps/modem-ui/src/bridge-state.ts: what the page shows of the local bridge.
-- A snapshot enters as validateBridgeSnapshot leaves it, the reason of a failed reset as
-- safeBridgeError leaves it, and the time of an acknowledgement as its text.
pub mod Reset
pub mod Examples
use fipwave.Common.{
  ℕ, ◌+◌, ◌==◌, ◌!=◌, ltb, not, ◌||◌, ◌&&◌, if◌then◌else◌, Bool, true, false, Option, none, some,
}
use Prim.Native.String.{String}

pub data BridgeStatus : Type 0 where
  status_loading status_idle status_arming status_ready status_disconnected : BridgeStatus
  status_overflow status_rejected status_resetting : BridgeStatus

pub data QueueHealth : Type 0 where
  queue_clear queue_overflow queue_rejected queue_unknown : QueueHealth

pub data BridgeRole : Type 0 where
  bridge_a bridge_b bridge_unknown : BridgeRole

pub data BrowserAudio : Type 0 where
  audio_armed audio_not_armed audio_unknown : BrowserAudio

pub data LocalBridge : Type 0 where
  local_ready local_disconnected local_unknown : LocalBridge

pub data BridgeTransport : Type 0 where
  transport_started transport_waiting transport_unknown : BridgeTransport

-- `BridgeSnapshot`, of which no field is unknown but the health of the queue, and the part of
-- `BridgeState` that a snapshot fills.
pub record BridgeSnapshot : Type 0 where
  role : BridgeRole
  configuration_ready : Bool
  browser_audio : BrowserAudio
  local_bridge : LocalBridge
  sound_transport : BridgeTransport
  epoch : ℕ
  queue_health : QueueHealth
  queue_items : ℕ
  queue_bytes : ℕ
  tx_packets : ℕ
  rx_packets : ℕ
  sound_mtu : Option ℕ
  last_event_at : Option String
  last_error : Option String

pub record BridgeState : Type 0 where
  facts : BridgeSnapshot
  status : BridgeStatus
  stale : Bool

pub data BridgeAction : Type 0 where
  snapshot : BridgeSnapshot → BridgeAction
  reset_start : BridgeAction
  reset_ack : ℕ → String → BridgeAction
  reset_failed : Option String → BridgeAction

abbrev pub fallback : BridgeState
fallback = record {
  facts = record {
    role = bridge_unknown;
    configuration_ready = false;
    browser_audio = audio_unknown;
    local_bridge = local_unknown;
    sound_transport = transport_unknown;
    epoch = 0;
    queue_health = queue_unknown;
    queue_items = 0;
    queue_bytes = 0;
    tx_packets = 0;
    rx_packets = 0;
    sound_mtu = none;
    last_event_at = none;
    last_error = none;
  };
  status = status_loading;
  stale = true;
}

abbrev pub is_resetting : BridgeStatus → Bool
is_resetting status_resetting = true
is_resetting status_loading = false
is_resetting status_idle = false
is_resetting status_arming = false
is_resetting status_ready = false
is_resetting status_disconnected = false
is_resetting status_overflow = false
is_resetting status_rejected = false

abbrev pub is_disconnected : BridgeStatus → Bool
is_disconnected status_disconnected = true
is_disconnected status_loading = false
is_disconnected status_idle = false
is_disconnected status_arming = false
is_disconnected status_ready = false
is_disconnected status_overflow = false
is_disconnected status_rejected = false
is_disconnected status_resetting = false

abbrev pub connection_status : LocalBridge → BrowserAudio → BridgeStatus
connection_status local_ready audio_armed = status_ready
connection_status local_ready audio_not_armed = status_idle
connection_status local_ready audio_unknown = status_idle
connection_status local_disconnected audio = status_disconnected
connection_status local_unknown audio = status_idle

abbrev pub snapshot_status : QueueHealth → LocalBridge → BrowserAudio → BridgeStatus
snapshot_status queue_overflow bridge audio = status_overflow
snapshot_status queue_rejected bridge audio = status_rejected
snapshot_status queue_clear bridge audio = connection_status bridge audio
snapshot_status queue_unknown bridge audio = connection_status bridge audio

abbrev pub show_snapshot : BridgeSnapshot → BridgeState
show_snapshot s =
    let status = snapshot_status s.queue_health s.local_bridge s.browser_audio in
    record { facts = s; status = status; stale = is_disconnected status }

abbrev pub reset_audio : BrowserAudio → BrowserAudio
reset_audio audio_unknown = audio_unknown
reset_audio audio_armed = audio_not_armed
reset_audio audio_not_armed = audio_not_armed

abbrev pub reset_local : LocalBridge → LocalBridge
reset_local local_unknown = local_unknown
reset_local local_ready = local_disconnected
reset_local local_disconnected = local_disconnected

abbrev pub reset_transport : BridgeTransport → BridgeTransport
reset_transport transport_unknown = transport_unknown
reset_transport transport_started = transport_waiting
reset_transport transport_waiting = transport_waiting

-- The state after an acknowledged reset.
abbrev pub acknowledged : ℕ → String → BridgeState → BridgeState
acknowledged epoch now s = record {
  facts = record s.facts {
    epoch = epoch;
    browser_audio = reset_audio s.facts.browser_audio;
    local_bridge = reset_local s.facts.local_bridge;
    sound_transport = reset_transport s.facts.sound_transport;
    queue_health = queue_clear;
    queue_items = 0;
    queue_bytes = 0;
    tx_packets = 0;
    rx_packets = 0;
    last_error = none;
    last_event_at = some now;
  };
  status = status_idle;
  stale = false;
}

abbrev pub reason_or_unavailable : Option String → String
reason_or_unavailable none = "Bridge rejected bridge_status_unavailable."
reason_or_unavailable (some reason) = reason

unfoldable pub reduce_known : BridgeState → BridgeAction → BridgeState
reduce_known s (snapshot facts) =
    if ltb facts.epoch s.facts.epoch || is_resetting s.status then s else show_snapshot facts
reduce_known s reset_start = record s { status = status_resetting; stale = true }
reduce_known s (reset_ack epoch now) =
    if not (is_resetting s.status) || (epoch != s.facts.epoch + 1)
    then s
    else acknowledged epoch now s
reduce_known s (reset_failed reason) = record {
  facts = record s.facts { last_error = some (reason_or_unavailable reason) };
  status = status_disconnected;
  stale = true;
}

abbrev pub reduce_bridge_state : Option BridgeState → BridgeAction → BridgeState
reduce_bridge_state none action = reduce_known fallback action
reduce_bridge_state (some s) action = reduce_known s action
