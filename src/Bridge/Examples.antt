-- ===== src/Bridge/Examples.antt =====
-- A run of the page's bridge state, and its theorem at a concrete input.
use fipwave.Common.{◌≡◌, arith, true, List, [], ◌∷◌, none, some}
use fipwave.Bridge.{
  bridge_a, audio_armed, local_ready, transport_started, queue_clear, BridgeSnapshot, BridgeAction,
  snapshot, reset_ack, show_snapshot, reduce_bridge_state,
}
use fipwave.Bridge.Reset.{reduce_all, resetting, Restarted, reduce_all-reset_start}

abbrev epoch_4 : BridgeSnapshot
epoch_4 = record {
  role = bridge_a;
  configuration_ready = true;
  browser_audio = audio_armed;
  local_bridge = local_ready;
  sound_transport = transport_started;
  epoch = 4;
  queue_health = queue_clear;
  queue_items = 0;
  queue_bytes = 0;
  tx_packets = 12;
  rx_packets = 11;
  sound_mtu = some 1357;
  last_event_at = some "2026-01-01T00:00:00Z";
  last_error = none;
}

abbrev epoch_9 : BridgeSnapshot
epoch_9 = record epoch_4 { epoch = 9 }

-- Snapshots of the old and of a later epoch are in flight, and an acknowledgement of a wrong one.
abbrev late_facts : List BridgeAction
late_facts = snapshot epoch_4 ∷ reset_ack 4 "2026-01-01T00:00:01Z" ∷ snapshot epoch_9 ∷ []

reduce_all-reset_start_example :
    (reduce_all late_facts (resetting (show_snapshot epoch_4)) ≡ resetting (show_snapshot epoch_4))
    × Restarted 5 (
        reduce_bridge_state
          (some (reduce_all late_facts (resetting (show_snapshot epoch_4))))
          (reset_ack 5 "2026-01-01T00:00:02Z"))
reduce_all-reset_start_example =
    reduce_all-reset_start (show_snapshot epoch_4) late_facts "2026-01-01T00:00:02Z"
      (tt, (λ e. absurd (omega arith), (tt, tt)))
