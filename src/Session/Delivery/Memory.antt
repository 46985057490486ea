-- ===== src/Session/Delivery/Memory.antt =====
-- What the methods of a session do to the numbers of delivered packets that it remembers.
use fipwave.Common.{
  ℕ, ◌+◌, ◌-◌, ◌≤◌, ◌≡◌, ◌!=◌, ◌||◌, refl, arith, not, ltb, false, Bool-cases, inl, inr, List, [],
  ◌∷◌, ◌++◌, length, length-drop, Option, none, some, Result, ok, err, if◌then◌else◌,
}
use fipwave.Fas1.{Fas1Unit}
use fipwave.Fas1.Fragment.{fragment_packet, get_index, is_some}
use fipwave.Session.Delivery.{
  Session, Surroundings, TrafficClass, class_control, class_heartbeat, class_ordinary,
  PendingPacket, InboundAssembly, expire_work, send_control, is_state_ready, max_packet_age_ms,
}
use fipwave.Session.Delivery.Turn.{yield_turn, drive_turn, ack_timeout_of, acknowledge, ack_of}
use fipwave.Session.Delivery.Enqueue.{
  push, queue_fragments, enqueue_new, enqueue_found, enqueue_ready, enqueue_packet, fragment_input,
}
use fipwave.Session.Delivery.Receive.{
  on_data, on_turn_end, take_data, store_fragment, add_fragment, complete, others_turn, has_id,
  take_turn, forget_oldest, new_assembly,
}
use fipwave.Session.Delivery.Remembered.{remembered, expire_work-remembered, drive_turn-remembered}

pub ack_timeout-remembered :
    (around : Surroundings) (i n : ℕ) (o : Option PendingPacket) (s : Session)
    → remembered (ack_timeout_of around i n o s).0 ≤ remembered s
unfolding ack_timeout_of remembered
ack_timeout-remembered around i n none s = omega arith
ack_timeout-remembered around i n (some p) s =
    let retried = record s { awaiting_ack = false; retries = s.retries + 1 } in
    ground (arith, drive_turn-remembered around retried)

acknowledge-remembered :
    (around : Surroundings) (id : ℕ) (p : PendingPacket) (bitmap : ℕ) (s : Session)
    → remembered (acknowledge around id p bitmap s).0 ≡ remembered s
unfolding acknowledge yield_turn send_control remembered
acknowledge-remembered around id p bitmap s = ground arith

pub ack_of-remembered :
    (around : Surroundings) (id i bitmap : ℕ) (o : Option PendingPacket) (s : Session)
    → remembered (ack_of around id i bitmap o s).0 ≡ remembered s
unfolding ack_of
ack_of-remembered around id i bitmap none s = refl
ack_of-remembered around id i bitmap (some p) s =
    ground (arith, acknowledge-remembered around id p bitmap s)

push-remembered :
    (c : TrafficClass) (p : PendingPacket) (s : Session) → remembered (push c p s) ≡ remembered s
unfolding push remembered
push-remembered class_control p s = refl
push-remembered class_heartbeat p s = refl
push-remembered class_ordinary p s = refl

pushed :
    (around : Surroundings) (c : TrafficClass) (s counted : Session) (p : PendingPacket)
    → remembered counted ≡ remembered s
    → remembered (drive_turn around (push c p counted)).0 ≤ remembered s
pushed around c s counted p h =
    omega (arith, drive_turn-remembered around (push c p counted), push-remembered c p counted)

queue_fragments-remembered :
    {E : Type 0} (around : Surroundings) (packet : List ℕ) (c : TrafficClass) (s : Session)
    (r : Result E (List Fas1Unit))
    → remembered (queue_fragments around packet c s r).1.0 ≤ remembered s
unfolding queue_fragments remembered
queue_fragments-remembered around packet c s (err e) = omega arith
queue_fragments-remembered around packet c s (ok fragments) = pushed around c s _ _ refl

enqueue_new-remembered :
    (around : Surroundings) (id : ℕ) (packet : List ℕ) (c : TrafficClass) (s : Session)
    → remembered (enqueue_new around id packet c s).1.0 ≤ remembered s
unfolding enqueue_new
enqueue_new-remembered around id packet c s =
    let fragments = fragment_packet (fragment_input around id packet s) in
    ground (arith, queue_fragments-remembered around packet c s fragments)

enqueue_found-remembered :
    (around : Surroundings) (id : ℕ) (packet : List ℕ) (c : TrafficClass) (o : Option PendingPacket)
    (s : Session)
    → remembered (enqueue_found around id packet c o s).1.0 ≤ remembered s
unfolding enqueue_found remembered
enqueue_found-remembered around id packet c none s = enqueue_new-remembered around id packet c s
enqueue_found-remembered around id packet c (some p) s = omega arith

enqueue_ready-remembered :
    (around : Surroundings) (packet : List ℕ) (c : TrafficClass) (o : Option ℕ) (s : Session)
    → remembered (enqueue_ready around packet c o s).1.0 ≤ remembered s
unfolding enqueue_ready
enqueue_ready-remembered around packet c none s = omega arith
enqueue_ready-remembered around packet c (some id) s =
    elim (Bool-cases (not (is_state_ready s.state))) [
      | inl e ↦ rw (e) (omega arith)
      | inr e ↦ elim (Bool-cases (ltb (length packet) 1 || ltb 1357 (length packet))) [
        | inl f ↦ rw (e, f) (omega arith)
        | inr f ↦ rw (e, f) (enqueue_found-remembered around id packet c _ s)
      ]
    ]

pub enqueue_packet-remembered :
    (around : Surroundings) (packet : List ℕ) (c : TrafficClass) (s : Session)
    → remembered (enqueue_packet around packet c s).1.0 ≤ remembered s
unfolding enqueue_packet
enqueue_packet-remembered around packet c s =
    let expired = (expire_work around s).0 in
    omega (
      arith,
      enqueue_ready-remembered around packet c expired.session_id expired,
      expire_work-remembered around s,
    )

length-forget_oldest : (ds : List (ℕ × ℕ)) → length (forget_oldest ds) ≤ 32
length-forget_oldest ds = rw (length-drop (length ds - 32) ds) (omega arith)

-- At most 32 are left.
complete-remembered :
    {E : Type 0} (around : Surroundings) (unit : Fas1Unit) (s : Session) (r : Result E (List ℕ))
    → remembered s ≤ 32
    → remembered (complete around unit s r).0 ≤ 32
unfolding complete remembered
complete-remembered around unit s (err e) h = h
complete-remembered around unit s (ok packet) h =
    elim (Bool-cases ((length packet != unit.packet_length) || has_id unit.packet_id s.delivered)) [
      | inl e ↦ rw (e) h
      | inr e ↦ rw (e) (
          length-forget_oldest
            (s.delivered ++ ((unit.packet_id, around.now + max_packet_age_ms) ∷ [])))
    ]

add_fragment-remembered :
    (around : Surroundings) (unit : Fas1Unit) (a : InboundAssembly) (s : Session)
    → remembered s ≤ 32
    → remembered (add_fragment around unit a s).0 ≤ 32
unfolding add_fragment remembered
add_fragment-remembered around unit a s h =
    let known = is_some (get_index unit.fragment_index a.fragments) in
    let fragments =
      if known then a.fragments else a.fragments ++ ((unit.fragment_index, unit) ∷ []) in
    elim (Bool-cases (length fragments != a.fragment_count)) [
      | inl e ↦ rw (e) h
      | inr e ↦ rw (e) (complete-remembered around unit _ _ h)
    ]

store_fragment-remembered :
    (around : Surroundings) (unit : Fas1Unit) (o : Option InboundAssembly) (s : Session)
    → remembered s ≤ 32
    → remembered (store_fragment around unit o s).0 ≤ 32
unfolding store_fragment remembered
store_fragment-remembered around unit none s h =
    add_fragment-remembered around unit (new_assembly around unit) (record s { last_ack = none }) h
store_fragment-remembered around unit (some a) s h = add_fragment-remembered around unit a s h

take_data-remembered :
    (around : Surroundings) (unit : Fas1Unit) (s : Session)
    → remembered s ≤ 32
    → remembered (take_data around unit s).0 ≤ 32
unfolding take_data remembered
take_data-remembered around unit s h =
    ground (arith, store_fragment-remembered around unit s.inbound s h)

pub on_data-remembered :
    (around : Surroundings) (unit : Fas1Unit) (s : Session)
    → remembered s ≤ 32
    → remembered (on_data around unit s).0 ≤ 32
unfolding on_data
on_data-remembered around unit s h =
    let expired = (expire_work around s).0 in
    let less : remembered expired ≤ 32 = omega (arith, expire_work-remembered around s) in
    elim (Bool-cases (others_turn expired unit.session_id)) [
      | inl e ↦ rw (e) (take_data-remembered around unit expired less)
      | inr e ↦ rw (e) less
    ]

take_turn-remembered :
    (around : Surroundings) (id : ℕ) (o : Option (ℕ × ℕ)) (s : Session)
    → remembered (take_turn around id o s).0 ≡ remembered s
unfolding take_turn remembered
take_turn-remembered around id none s = refl
take_turn-remembered around id (some a) s = refl

pub on_turn_end-remembered :
    (around : Surroundings) (id : ℕ) (s : Session)
    → remembered (on_turn_end around id s).0 ≡ remembered s
unfolding on_turn_end
on_turn_end-remembered around id s = elim (Bool-cases (others_turn s id)) [
  | inl e ↦ rw (e) (take_turn-remembered around id s.last_ack s)
  | inr e ↦ rw (e) refl
]
