-- ===== src/Adapter/Examples.antt =====
-- Runs of the packet adapters, and their theorems at concrete inputs.
use fipwave.Common.{ℕ, ◌≤◌, ◌≡◌, ◌⊎◌, refl, arith, true, List, [], ◌∷◌, ◌++◌, none, some}
use fipwave.Adapter.{
  packet_accepted, packet_rejected, stale, valid_packet, envelope, active, receive, send,
}
use fipwave.Adapter.Session.{
  AcousticTrafficClass, heartbeat_class, QueueResult, queued, traffic_class_of, queue_answer,
  Snapshot, SessionAdapter, Event, control_ready, control_disarm, session_reset, session_packet,
  bridge_packet, refresh, disarm, new_adapter, receive_fips, deliver, reset_adapter,
}
use fipwave.Adapter.Armed.{Run, started, called, call_refresh, call_reset, apply}
use fipwave.Adapter.Steady.{Steady, steady_start, steady_call, Obeys, Steady-Obeys}
use fipwave.Adapter.Passage.{Open, Carried, Refused, receive_fips_lem}
use fipwave.Adapter.Stale.{at_once, reset_makes_stale}

abbrev ready_at : ℕ → Snapshot
ready_at epoch = record { epoch = epoch; ready = true }

-- Armed at epoch 3, and then for epoch 4.
abbrev session : SessionAdapter
session = (apply (new_adapter (ready_at 3)).0 (call_refresh (ready_at 4))).0

abbrev session_log : List Event
session_log =
    (new_adapter (ready_at 3)).1
    ++ (apply (new_adapter (ready_at 3)).0 (call_refresh (ready_at 4))).1

session-Run : Run session session_log
session-Run = called (call_refresh (ready_at 4)) (started (ready_at 3))

session_log_lem : session_log ≡ control_ready 3 ∷ control_disarm 3 ∷ control_ready 4 ∷ []
unfolding new_adapter apply refresh disarm
session_log_lem = refl

abbrev accepting : List ℕ → AcousticTrafficClass → QueueResult
accepting packet class = queued

packet_passes :
    receive_fips accepting session (7 ∷ 8 ∷ []) 2 4 none
    ≡ (packet_accepted, session_packet (7 ∷ 8 ∷ []) heartbeat_class ∷ [])
unfolding receive_fips receive active envelope valid_packet queue_answer traffic_class_of apply
    new_adapter refresh disarm
packet_passes = refl

packet_goes_out :
    deliver session (7 ∷ 8 ∷ []) 2 none
    ≡ (packet_accepted, bridge_packet (record { bytes = 7 ∷ 8 ∷ []; traffic_class = 2 }) ∷ [])
unfolding deliver send envelope valid_packet apply new_adapter refresh disarm
packet_goes_out = refl

-- Ready at epoch 3, reset to epoch 5 and ready there.
abbrev before_reset : SessionAdapter
before_reset = (new_adapter (ready_at 3)).0

abbrev after_reset : SessionAdapter
after_reset = (apply before_reset (call_reset (ready_at 3) 5)).0

abbrev steady_session : SessionAdapter
steady_session = (apply after_reset (call_refresh (ready_at 5))).0

abbrev steady_log : List Event
steady_log =
    ((new_adapter (ready_at 3)).1 ++ (apply before_reset (call_reset (ready_at 3) 5)).1)
    ++ (apply after_reset (call_refresh (ready_at 5))).1

steady_log_lem :
    steady_log ≡ control_ready 3 ∷ control_disarm 3 ∷ session_reset 5 ∷ control_ready 5 ∷ []
unfolding new_adapter apply refresh reset_adapter disarm
steady_log_lem = refl

steady_session-Steady : Steady 3 5 steady_session steady_log
steady_session-Steady =
    steady_call (call_refresh (ready_at 5)) refl
      (steady_call (call_reset (ready_at 3) 5) refl (steady_start (ready_at 3)))

Steady-Obeys_example : Obeys 3 none steady_log 5 steady_session.armed_epoch
Steady-Obeys_example = Steady-Obeys 3 5 steady_session steady_log steady_session-Steady

receive_fips_lem_example :
    (Open session 4 none
      × Carried (7 ∷ 8 ∷ []) 2
      × (receive_fips accepting session (7 ∷ 8 ∷ []) 2 4 none ≡ (
        queue_answer (accepting (7 ∷ 8 ∷ []) (traffic_class_of 2)),
        session_packet (7 ∷ 8 ∷ []) (traffic_class_of 2) ∷ [],
      )))
    ⊎ ((¬ (Open session 4 none × Carried (7 ∷ 8 ∷ []) 2))
        × Refused (receive_fips accepting session (7 ∷ 8 ∷ []) 2 4 none))
receive_fips_lem_example =
    receive_fips_lem accepting session session_log (7 ∷ 8 ∷ []) 2 4 none session-Run

one_generation : 1 ≤ session.generation
unfolding apply new_adapter refresh disarm
one_generation = omega arith

reset_makes_stale_example :
    (receive_fips accepting (reset_adapter session (ready_at 4) 5).0 (7 ∷ 8 ∷ []) 2 5 (some 1)
      ≡ (packet_rejected stale, []))
    × (deliver (reset_adapter session (ready_at 4) 5).0 (7 ∷ 8 ∷ []) 2 (some 1)
        ≡ (packet_rejected stale, []))
reset_makes_stale_example =
    reset_makes_stale accepting session (reset_adapter session (ready_at 4) 5).0 session_log
      (ready_at 4) 5 1 (7 ∷ 8 ∷ []) 2 5 session-Run one_generation at_once
