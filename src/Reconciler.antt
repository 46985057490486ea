-- ===== src/Reconciler.antt =====
-- packages/bridge/src/fips-peer-reconciler.ts: asks the FIPS daemon to connect the peer over sound
-- when it is not connected yet. The control client is a parameter, its answers to the queries and
-- whether it connects; the calls of it are returned in their order.
pub mod Attempt
pub mod Schedule
pub mod Examples
use fipwave.Common.{
  ℕ, ◌==◌, Bool, true, false, ◌&&◌, ◌||◌, not, if◌then◌else◌, List, [], ◌∷◌, ◌++◌, Option, none,
  some, Result, ok, err,
}
use fipwave.Common.Texts.{same_text}
use fipwave.SoundProof.{FipsPeer, FipsLink, FipsTransport}
use Prim.Native.String.{String}

pub record FipsConnectRequest : Type 0 where
  pub npub : String
  pub address : String

pub data ControlQuery : Type 0 where
  peers_query transports_query links_query : ControlQuery

-- `FipsControlData`, or a query that fails.
pub data ControlData : Type 0 where
  peer_data : List FipsPeer → ControlData
  link_data : List FipsLink → ControlData
  transport_data : List FipsTransport → ControlData
  query_failed : ControlData

pub record FipsControl : Type 0 where
  pub query : ControlQuery → ControlData
  pub connects : FipsConnectRequest → Bool

pub data Call : Type 0 where
  asked : ControlQuery → Call
  connect_peer : FipsConnectRequest → Call

pub data ReconcileResult : Type 0 where
  waiting_for_acoustic connected connecting connect_initiated : ReconcileResult

pub data ReconcileError : Type 0 where
  control_failed peer_query_invalid link_query_invalid : ReconcileError

abbrev pub Attempted : Type 0
Attempted = Result ReconcileError ReconcileResult × List Call

-- `Array.some`
abbrev pub any {ℓ} : {A : Type ℓ} → (A → Bool) → List A → Bool
any p [] = false
any p (x ∷ xs) = p x || any p xs

unfoldable pub is_connected : FipsConnectRequest → FipsPeer → Bool
is_connected request peer =
    same_text peer.npub request.npub
    && (same_text peer.connectivity "connected" && same_text peer.transport_type "sound")

unfoldable pub is_sound : FipsTransport → Bool
is_sound t = same_text t.type "sound" && (same_text t.state "up" || same_text t.state "active")

unfoldable pub sound_transport_ids : List FipsTransport → List ℕ
sound_transport_ids [] = []
sound_transport_ids (t ∷ ts) =
    let rest = sound_transport_ids ts in if is_sound t then t.transport_id ∷ rest else rest

unfoldable pub is_live : List ℕ → FipsLink → Bool
is_live ids l =
    any (λ id. id == l.transport_id) ids
    && (same_text l.state "connected" || same_text l.state "active")

-- The answers to the queries one after the other, from the last one on.
unfoldable pub connect : FipsControl → FipsConnectRequest → Attempted
connect control request = (
  if control.connects request then ok connect_initiated else err control_failed,
  connect_peer request ∷ [],
)

unfoldable pub with_links : FipsControl → FipsConnectRequest → ControlData → ControlData → Attempted
with_links control request (transport_data ts) (link_data ls) =
    if any (is_live (sound_transport_ids ts)) ls
    then (ok connecting, [])
    else connect control request
with_links control request transports query_failed = (err control_failed, [])
with_links control request transports links = (err link_query_invalid, [])

unfoldable pub with_transports : FipsControl → FipsConnectRequest → ControlData → Attempted
with_transports control request query_failed = (err control_failed, [])
with_transports control request transports =
    let next = with_links control request transports (control.query links_query) in
    (next.0, asked links_query ∷ next.1)

unfoldable pub with_peers : FipsControl → FipsConnectRequest → ControlData → Attempted
with_peers control request (peer_data ps) =
    let next = with_transports control request (control.query transports_query) in
    if any (is_connected request) ps
    then (ok connected, [])
    else (next.0, asked transports_query ∷ next.1)
with_peers control request query_failed = (err control_failed, [])
with_peers control request peers = (err peer_query_invalid, [])

unfoldable pub reconcile_fips_peer : FipsControl → FipsConnectRequest → Bool → Attempted
reconcile_fips_peer control request acoustic_ready =
    let next = with_peers control request (control.query peers_query) in
    if not acoustic_ready
    then (ok waiting_for_acoustic, [])
    else (next.0, asked peers_query ∷ next.1)

-- `createFipsPeerReconciler`: the delay of the timer that is set, and whether an attempt runs.
pub record FipsPeerReconciler : Type 0 where
  pub stopped : Bool
  pub timer : Option ℕ
  pub in_flight : Bool

pub record Delays : Type 0 where
  pub poll_delay_ms : ℕ
  pub retry_delay_ms : ℕ

unfoldable pub schedule : ℕ → FipsPeerReconciler → FipsPeerReconciler
schedule delay s = if not s.stopped then record s { timer = some delay } else s

unfoldable pub new_reconciler : FipsPeerReconciler
new_reconciler = schedule 0 (record { stopped = false; timer = none; in_flight = false })

-- The timer runs out.
unfoldable pub run : FipsPeerReconciler → FipsPeerReconciler
run s =
    let fired = record s { timer = none } in
    if s.stopped || s.in_flight then fired else record fired { in_flight = true }

unfoldable pub settled_delay : Delays → Result ReconcileError ReconcileResult → ℕ
settled_delay delays (ok connect_initiated) = delays.retry_delay_ms
settled_delay delays result = delays.poll_delay_ms

-- The attempt ends.
unfoldable pub settle :
    Delays → Result ReconcileError ReconcileResult → FipsPeerReconciler → FipsPeerReconciler
settle delays result s =
    let next = schedule (settled_delay delays result) s in record next { in_flight = false }

unfoldable pub close : FipsPeerReconciler → FipsPeerReconciler
close s = if s.stopped then s else record s { stopped = true; timer = none }
