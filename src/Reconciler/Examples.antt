-- ===== src/Reconciler/Examples.antt =====
-- Attempts at concrete answers of the daemon, and the reconciler's theorems at concrete inputs.
use fipwave.Common.{ℕ, ◌≡◌, ◌↔◌, refl, Bool, true, false, [], ◌∷◌, none, ok}
use fipwave.SoundProof.{FipsTransport}
use fipwave.Reconciler.{
  FipsConnectRequest, FipsControl, ControlQuery, ControlData, peer_data, transport_data, link_data,
  peers_query, transports_query, links_query, asked, connect_peer, connecting, connect_initiated,
  is_connected, is_sound, sound_transport_ids, is_live, connect, with_links, with_transports,
  with_peers, reconcile_fips_peer, FipsPeerReconciler, Delays, schedule, new_reconciler, run,
  settle, close,
}
use fipwave.Reconciler.Attempt.{Unconnected, asks, reconcile_fips_peer_lem}
use fipwave.Reconciler.Schedule.{
  Reachable, created, ran, settled, closed, OnePending, Reachable-OnePending,
}

abbrev request_b : FipsConnectRequest
request_b = record { npub = "npub1b"; address = "sound-b" }

abbrev sound_up : FipsTransport
sound_up = record {
  transport_id = 3;
  type = "sound";
  state = "up";
  worker_up = true;
  acoustic_ready = true;
  epoch = none;
}

-- A daemon that knows no peer, and has a link over sound or none.
abbrev daemon : Bool → ControlQuery → ControlData
daemon linked peers_query = peer_data []
daemon linked transports_query = transport_data (sound_up ∷ [])
daemon false links_query = link_data []
daemon true links_query =
    link_data ((record { link_id = 1; transport_id = 3; state = "active" }) ∷ [])

abbrev control_of : Bool → FipsControl
control_of linked = record { query = daemon linked; connects = λ request. true }

attempt_without_link : reconcile_fips_peer (control_of false) request_b true ≡ (
  ok connect_initiated,
  asked peers_query ∷ asked transports_query ∷ asked links_query ∷ connect_peer request_b ∷ [],
)
unfolding reconcile_fips_peer with_peers with_transports with_links connect is_connected is_live
    is_sound sound_transport_ids
attempt_without_link = refl

attempt_with_link :
    reconcile_fips_peer (control_of true) request_b true
    ≡ (ok connecting, asked peers_query ∷ asked transports_query ∷ asked links_query ∷ [])
unfolding reconcile_fips_peer with_peers with_transports with_links connect is_connected is_live
    is_sound sound_transport_ids fipwave.Common.Texts.same_text
attempt_with_link = refl

reconcile_fips_peer_lem_example :
    (asks (reconcile_fips_peer (control_of false) request_b true).1 ≡ true)
    ↔ Unconnected (control_of false) request_b true
reconcile_fips_peer_lem_example = reconcile_fips_peer_lem (control_of false) request_b true

abbrev delays : Delays
delays = record { poll_delay_ms = 250; retry_delay_ms = 15000 }

abbrev after_attempt : FipsPeerReconciler
after_attempt = settle delays (ok connect_initiated) (run new_reconciler)

after_attempt-Reachable : Reachable delays after_attempt
unfolding new_reconciler schedule run
after_attempt-Reachable = settled (ok connect_initiated) (ran created refl) refl

Reachable-OnePending_example : OnePending (close after_attempt)
Reachable-OnePending_example =
    Reachable-OnePending delays (close after_attempt) (closed after_attempt-Reachable)
