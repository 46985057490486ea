-- ===== src/Session/Delivery/Methods.antt =====
-- What the methods of a session do to its load.
use fipwave.Common.{
  ℕ, suc, ◌+◌, ◌-◌, ◌/◌, ◌^◌, ◌≤◌, ◌<◌, ◌≡◌, refl, ◌∙◌, arith, ltb, leb, ◌==◌, ◌!=◌, ◌||◌, ◌&&◌,
  not, false, Bool-cases, inl, inr, if◌then◌else◌, List, [], ◌∷◌, ◌++◌, length, Option, none, some,
  Result, ok, err,
}
use fipwave.Fas1.{Fas1Unit}
use fipwave.Fas1.Fragment.{fragment_packet, get_index, is_some, ceil_div, expected_length}
use fipwave.Session.Delivery.{
  send_control, Session, Surroundings, TrafficClass, PendingPacket, InboundAssembly, queue_length,
  present, is_state_ready, expire_work,
}
use fipwave.Session.Delivery.Turn.{drive_turn, acknowledge, ack_of, yield_turn, is_session}
use fipwave.Session.Delivery.Enqueue.{
  push, queue_fragments, enqueue_new, enqueue_found, enqueue_ready, enqueue_packet, fragment_input,
}
use fipwave.Session.Delivery.Receive.{
  on_data, on_turn_end, take_data, store_fragment, add_fragment, complete, others_turn, has_id,
  other_packet, new_assembly, take_turn,
}
use fipwave.Session.Delivery.Load.{load, expire_work-load, drive_turn-load, push-load}
use Prim.Native.Nat.{bit_or}

acknowledge-load :
    (around : Surroundings) (id : ℕ) (p : PendingPacket) (bitmap : ℕ) (s : Session)
    → present s.active ≡ 1
    → load (acknowledge around id p bitmap s).0 ≤ load s
unfolding acknowledge yield_turn load send_control
acknowledge-load around id p bitmap s h =
    let merged = bit_or p.acknowledged bitmap in
    let mask = 2 ^ length p.fragments - 1 in
    elim (Bool-cases (bitmap / 2 ^ length p.fragments != 0)) [
      | inl e ↦ rw (e) (omega arith)
      | inr e ↦ elim (Bool-cases ((merged == p.acknowledged) && (merged != mask))) [
        | inl f ↦ rw (e, f) (omega arith)
        | inr f ↦ elim (Bool-cases (merged == mask)) [
          | inl g ↦ rw (e, f, g) (omega arith)
          | inr g ↦ rw (e, f, g) (omega arith)
        ]
      ]
    ]

pub ack_of-load :
    (around : Surroundings) (id i bitmap : ℕ) (o : Option PendingPacket) (s : Session)
    → present s.active ≡ present o
    → load (ack_of around id i bitmap o s).0 ≤ load s
unfolding ack_of
ack_of-load around id i bitmap none s h = omega arith
ack_of-load around id i bitmap (some p) s h =
    let refused =
      not (is_state_ready s.state)
      || not (is_session s.session_id id)
      || not s.awaiting_ack
      || (i != p.packet_id) in
    elim (Bool-cases refused) [
      | inl e ↦ rw (e) (omega arith)
      | inr e ↦ rw (e) (acknowledge-load around id p bitmap s h)
    ]

pushed :
    (around : Surroundings) (c : TrafficClass) (s counted : Session) (p : PendingPacket)
    → load counted ≡ load s
    → load (drive_turn around (push c p counted)).0 ≤ suc (load s)
pushed around c s counted p h =
    omega (arith, drive_turn-load around (push c p counted), push-load c p counted)

queue_fragments-load :
    {E : Type 0} (around : Surroundings) (packet : List ℕ) (c : TrafficClass) (s : Session)
    (r : Result E (List Fas1Unit))
    → load (queue_fragments around packet c s r).1.0 ≤ suc (load s)
unfolding queue_fragments load
queue_fragments-load around packet c s (err e) = omega arith
queue_fragments-load around packet c s (ok fragments) = pushed around c s _ _ refl

-- A packet is queued only while there is room.
enqueue_new-load :
    (around : Surroundings) (id : ℕ) (packet : List ℕ) (c : TrafficClass) (s : Session)
    → load s ≤ 16
    → load (enqueue_new around id packet c s).1.0 ≤ 16
unfolding enqueue_new load
enqueue_new-load around id packet c s h =
    elim (Bool-cases (leb 16 (queue_length s + present s.active))) [
      | inl e ↦ rw (e) h
      | inr e ↦ rw (e) (
          omega (
            arith,
            room _ e,
            queue_fragments-load around packet c s
                (fragment_packet (fragment_input around id packet s)),
          ))
    ]
  where
    room : (n : ℕ) → leb 16 n ≡ false → n < 16
    room n h = ground arith

unread : (s : Session) (o : Option (ℕ × ℕ)) → load (record s { last_ack = o }) ≡ load s
unfolding load
unread s o = refl

same_load : (s : Session) (n : ℕ) → load s ≤ 16 → load (record s { duplicates = n }) ≤ 16
unfolding load
same_load s n h = h

enqueue_found-load :
    (around : Surroundings) (id : ℕ) (packet : List ℕ) (c : TrafficClass) (o : Option PendingPacket)
    (s : Session)
    → load s ≤ 16
    → load (enqueue_found around id packet c o s).1.0 ≤ 16
unfolding enqueue_found
enqueue_found-load around id packet c none s h = enqueue_new-load around id packet c s h
enqueue_found-load around id packet c (some p) s h = same_load s (s.duplicates + 1) h

enqueue_ready-load :
    (around : Surroundings) (packet : List ℕ) (c : TrafficClass) (o : Option ℕ) (s : Session)
    → load s ≤ 16
    → load (enqueue_ready around packet c o s).1.0 ≤ 16
unfolding enqueue_ready
enqueue_ready-load around packet c none s h = h
enqueue_ready-load around packet c (some id) s h =
    elim (Bool-cases (not (is_state_ready s.state))) [
      | inl e ↦ rw (e) h
      | inr e ↦ elim (Bool-cases (ltb (length packet) 1 || ltb 1357 (length packet))) [
        | inl f ↦ rw (e, f) h
        | inr f ↦ rw (e, f) (enqueue_found-load around id packet c _ s h)
      ]
    ]

pub enqueue_packet-load :
    (around : Surroundings) (packet : List ℕ) (c : TrafficClass) (s : Session)
    → load s ≤ 16
    → load (enqueue_packet around packet c s).1.0 ≤ 16
unfolding enqueue_packet
enqueue_packet-load around packet c s h =
    let expired = (expire_work around s).0 in
    enqueue_ready-load around packet c expired.session_id expired
      (omega (arith, expire_work-load around s))

complete-load :
    {E : Type 0} (around : Surroundings) (unit : Fas1Unit) (s : Session) (r : Result E (List ℕ))
    → load (complete around unit s r).0 ≡ load s
unfolding complete load
complete-load around unit s (err e) = refl
complete-load around unit s (ok packet) =
    elim (Bool-cases ((length packet != unit.packet_length) || has_id unit.packet_id s.delivered)) [
      | inl e ↦ rw (e) refl
      | inr e ↦ rw (e) refl
    ]

add_fragment-load :
    (around : Surroundings) (unit : Fas1Unit) (a : InboundAssembly) (s : Session)
    → load (add_fragment around unit a s).0 ≡ load s
unfolding add_fragment load
add_fragment-load around unit a s =
    let known = is_some (get_index unit.fragment_index a.fragments) in
    let fragments =
      if known then a.fragments else a.fragments ++ ((unit.fragment_index, unit) ∷ []) in
    elim (Bool-cases (length fragments != a.fragment_count)) [
      | inl e ↦ rw (e) refl
      | inr e ↦ rw (e) (complete-load around unit _ _)
    ]

store_fragment-load :
    (around : Surroundings) (unit : Fas1Unit) (o : Option InboundAssembly) (s : Session)
    → load (store_fragment around unit o s).0 ≡ load s
unfolding store_fragment
store_fragment-load around unit none s =
    add_fragment-load around unit (new_assembly around unit) (record s { last_ack = none })
    ∙ unread s none
store_fragment-load around unit (some a) s = add_fragment-load around unit a s

take_data-load :
    (around : Surroundings) (unit : Fas1Unit) (s : Session)
    → load (take_data around unit s).0 ≡ load s
unfolding take_data load
take_data-load around unit s =
    let count = ceil_div unit.packet_length around.inbound_payload_bytes in
    let wrong =
      (unit.fragment_count != count)
      || (length unit.body
          != expected_length unit around.inbound_payload_bytes count unit.fragment_index) in
    elim (Bool-cases (has_id unit.packet_id s.delivered)) [
      | inl e ↦ rw (e) refl
      | inr e ↦ elim (Bool-cases (other_packet s.inbound unit || wrong)) [
        | inl f ↦ rw (e, f) refl
        | inr f ↦ rw (e, f) (store_fragment-load around unit s.inbound s)
      ]
    ]

pub on_data-load :
    (around : Surroundings) (unit : Fas1Unit) (s : Session)
    → load (on_data around unit s).0 ≤ load s
unfolding on_data
on_data-load around unit s =
    let expired = (expire_work around s).0 in
    elim (Bool-cases (others_turn expired unit.session_id)) [
      | inl e ↦
          rw (e) (omega (arith, take_data-load around unit expired, expire_work-load around s))
      | inr e ↦ rw (e) (expire_work-load around s)
    ]

take_turn-load :
    (around : Surroundings) (id : ℕ) (o : Option (ℕ × ℕ)) (s : Session)
    → load (take_turn around id o s).0 ≡ load s
unfolding take_turn load
take_turn-load around id none s = refl
take_turn-load around id (some a) s = refl

pub on_turn_end-load :
    (around : Surroundings) (id : ℕ) (s : Session) → load (on_turn_end around id s).0 ≡ load s
unfolding on_turn_end
on_turn_end-load around id s = elim (Bool-cases (others_turn s id)) [
  | inl e ↦ rw (e) (take_turn-load around id s.last_ack s)
  | inr e ↦ rw (e) refl
]
