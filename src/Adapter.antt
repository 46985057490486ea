-- ===== src/Adapter.antt =====
-- apps/modem-ui/src/fips-packet-adapter.ts: complete FIPS packets pass in and out while the adapter
-- is armed. What a call hands to a callback is returned beside its result.
pub mod Session
pub mod Armed
pub mod Steady
pub mod Passage
pub mod Stale
pub mod Examples
use fipwave.Common.{
  ℕ, ◌==◌, ◌!=◌, ltb, leb, ◌&&◌, ◌||◌, not, Bool, true, false, if◌then◌else◌, List, [], ◌∷◌, length,
  Option, none, some,
}
use fipwave.Fwav.{is_fips_traffic_class, class_ordinary}

pub data Reason : Type 0 where
  not_armed stale invalid : Reason
  acoustic_queue_full acoustic_not_ready acoustic_packet_bounds acoustic_class_invalid : Reason

pub data PacketResult : Type 0 where
  packet_accepted : PacketResult
  packet_rejected : Reason → PacketResult

pub record FipsPacketEnvelope : Type 0 where
  pub bytes : List ℕ
  pub traffic_class : ℕ

pub record Lifecycle : Type 0 where
  pub epoch : ℕ
  pub generation : ℕ

unfoldable pub valid_packet : List ℕ → Bool
valid_packet packet = ltb 0 (length packet) && leb (length packet) 262112

unfoldable pub envelope : List ℕ → ℕ → Option FipsPacketEnvelope
envelope packet traffic_class =
    if not (valid_packet packet) || not (is_fips_traffic_class traffic_class)
    then none
    else some (record { bytes = packet; traffic_class = traffic_class })

-- The state is the lifecycle, which `arm` sets and `invalidate` clears.
abbrev pub arm : ℕ → ℕ → Option Lifecycle
arm epoch generation = some (record { epoch = epoch; generation = generation })

-- Why a packet of an epoch and a generation is not let in, if it is not.
unfoldable pub active : Option Lifecycle → ℕ → ℕ → Option Reason
active none epoch generation = some not_armed
active (some l) epoch generation =
    if (l.epoch != epoch) || (l.generation != generation) then some stale else none

abbrev pub or_accepted : Option PacketResult → PacketResult
or_accepted none = packet_accepted
or_accepted (some r) = r

-- What `receive` does with the packet that it has checked.
abbrev pub pass_in :
    (FipsPacketEnvelope → Option PacketResult)
    → Option FipsPacketEnvelope
    → PacketResult × List FipsPacketEnvelope
pass_in on_packet none = (packet_rejected invalid, [])
pass_in on_packet (some e) = (or_accepted (on_packet e), e ∷ [])

abbrev pub unless_rejected :
    Option Reason → PacketResult × List FipsPacketEnvelope → PacketResult × List FipsPacketEnvelope
unless_rejected none r = r
unless_rejected (some reason) r = (packet_rejected reason, [])

-- The result, and the packet given to `onPacket`.
unfoldable pub receive :
    (FipsPacketEnvelope → Option PacketResult)
    → Option Lifecycle
    → List ℕ
    → ℕ
    → ℕ
    → ℕ
    → PacketResult × List FipsPacketEnvelope
receive on_packet lifecycle packet traffic_class epoch generation =
    unless_rejected (active lifecycle epoch generation)
      (pass_in on_packet (envelope packet traffic_class))

-- What `send` does with the packet that it has checked.
abbrev pub pass_out : Option FipsPacketEnvelope → PacketResult × List FipsPacketEnvelope
pass_out none = (packet_rejected invalid, [])
pass_out (some e) = (packet_accepted, e ∷ [])

-- The result, and the packet given to `emitPacket`.
unfoldable pub send : Option Lifecycle → List ℕ → ℕ → PacketResult × List FipsPacketEnvelope
send none packet traffic_class = (packet_rejected not_armed, [])
send (some l) packet traffic_class = pass_out (envelope packet traffic_class)
