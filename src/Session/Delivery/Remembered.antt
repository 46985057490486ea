-- ===== src/Session/Delivery/Remembered.antt =====
-- The numbers of delivered packets that a session remembers, over its methods.
use fipwave.Common.{ℕ, ◌≤◌, ◌≡◌, refl, arith, length, Option, none, some}
use fipwave.Session.Delivery.{
  Session, Surroundings, PendingPacket, InboundAssembly, Reason, degrade, expire_queues,
  expire_active, expire_inbound, expire_delivered, expire_work, send_control,
}
use fipwave.Session.Delivery.Turn.{
  dequeue, activate, yield_turn, drive_packet, own_turn, drive_turn, drive_ready,
}
use fipwave.Session.Delivery.Load.{length-filter}

-- How many there are.
unfoldable pub remembered : Session → ℕ
remembered s = length s.delivered

pub degrade-remembered :
    (around : Surroundings) (r : Reason) (s : Session)
    → remembered (degrade around r s).0 ≡ remembered s
unfolding degrade remembered
degrade-remembered around r s = ground arith

expire_active-remembered :
    (around : Surroundings) (o : Option PendingPacket) (s : Session)
    → remembered (expire_active around o s).0 ≡ remembered s
unfolding expire_active degrade remembered
expire_active-remembered around none s = refl
expire_active-remembered around (some p) s = ground arith

expire_inbound-remembered :
    (now : ℕ) (o : Option InboundAssembly) (s : Session)
    → remembered (expire_inbound now o s) ≡ remembered s
unfolding expire_inbound remembered
expire_inbound-remembered now none s = refl
expire_inbound-remembered now (some a) s = ground arith

expire_delivered-remembered :
    (now : ℕ) (s : Session) → remembered (expire_delivered now s) ≤ remembered s
unfolding expire_delivered remembered
expire_delivered-remembered now s = length-filter _ s.delivered

expire_queues-remembered : (now : ℕ) (s : Session) → remembered (expire_queues now s) ≡ remembered s
unfolding expire_queues remembered
expire_queues-remembered now s = refl

pub expire_work-remembered :
    (around : Surroundings) (s : Session) → remembered (expire_work around s).0 ≤ remembered s
unfolding expire_work
expire_work-remembered around s =
    let queues = expire_queues around.now s in
    let expired = (expire_active around queues.active queues).0 in
    let inbound = expire_inbound around.now expired.inbound expired in
    omega (
      arith,
      expire_queues-remembered around.now s,
      expire_active-remembered around queues.active queues,
      expire_inbound-remembered around.now expired.inbound expired,
      expire_delivered-remembered around.now inbound,
    )

activate-remembered :
    (o : Option PendingPacket) (s : Session) → remembered (activate o s) ≡ remembered s
unfolding activate dequeue remembered
activate-remembered (some p) s = refl
activate-remembered none s = ground arith

drive_packet-remembered :
    (around : Surroundings) (id : ℕ) (p : PendingPacket) (s : Session)
    → remembered (drive_packet around id p s).0 ≡ remembered s
unfolding drive_packet degrade send_control remembered
drive_packet-remembered around id p s = ground arith

own_turn-remembered :
    (around : Surroundings) (id : ℕ) (o : Option PendingPacket) (s : Session)
    → remembered (own_turn around id o s).0 ≡ remembered s
unfolding own_turn send_control yield_turn remembered
own_turn-remembered around id (some p) s = drive_packet-remembered around id p s
own_turn-remembered around id none s = ground arith

drive_ready-remembered :
    (around : Surroundings) (o : Option ℕ) (s : Session)
    → remembered (drive_ready around o s).0 ≡ remembered s
unfolding drive_ready
drive_ready-remembered around none s = refl
drive_ready-remembered around (some id) s =
    let chosen = activate s.active s in
    ground
      (arith, own_turn-remembered around id chosen.active chosen, activate-remembered s.active s)

pub drive_turn-remembered :
    (around : Surroundings) (s : Session) → remembered (drive_turn around s).0 ≤ remembered s
unfolding drive_turn
drive_turn-remembered around s =
    let expired = (expire_work around s).0 in
    omega (
      arith,
      drive_ready-remembered around expired.session_id expired,
      expire_work-remembered around s,
    )
