-- ===== src/Session/Delivery/Receive/Once.antt =====
-- A packet is handed on once while its number is remembered.
use fipwave.Common.{
  ℕ, zero, suc, ◌-◌, ◌≤◌, ◌≡◌, ◌⊎◌, refl, sym, subst, arith, ltb, ◌!=◌, ◌||◌, Bool, true, false,
  Bool-cases, inl, inr, if◌then◌else◌, List, [], ◌∷◌, ◌++◌, length, length-append, drop, Option,
  none, some, Result, ok, err,
}
use fipwave.Fas1.{Fas1Unit}
use fipwave.Fas1.Fragment.{ceil_div, expected_length, get_index, is_some}
use fipwave.Session.Delivery.{
  Session, Surroundings, Step, PendingPacket, InboundAssembly, Reason, packet_expired, Effect,
  on_packet, schedule, clear_delivery_timer, send_unit, apply_candidate, after_playback,
  clear_heartbeat_timers, arm_heartbeat_timers, clear_commit_retry, clear_handshake_timers,
  after_recovery_heartbeat, after_reset, unfinished, degrade, expire_queues, expire_active,
  expire_work,
}
use fipwave.Session.Delivery.Receive.{
  has_id, forget_oldest, complete, add_fragment, store_fragment, new_assembly, take_data,
  other_packet, others_turn, on_data,
}

-- The numbers of the packets that are handed on.
unfoldable pub handed : List Effect → List ℕ
handed [] = []
handed (on_packet packet id ∷ es) = id ∷ handed es
handed (_ ∷ es) = handed es

-- Nothing is handed on, or the packet of the unit, whose number was not remembered and now is.
unfoldable pub HandedOnce : Fas1Unit → List (ℕ × ℕ) → Step → Type 0
HandedOnce unit before r =
    (handed r.1 ≡ [])
    ⊎ ((handed r.1 ≡ unit.packet_id ∷ [])
        × (has_id unit.packet_id before ≡ false)
        × (has_id unit.packet_id r.0.delivered ≡ true))

has_id-drop :
    (k id at : ℕ) (ds : List (ℕ × ℕ))
    → k ≤ length ds
    → has_id id (drop k (ds ++ ((id, at) ∷ []))) ≡ true
has_id-drop zero id at [] h = ground arith
has_id-drop zero id at (d ∷ ds) h = ground (arith, has_id-drop zero id at ds (omega arith))
has_id-drop (suc k) id at [] h = absurd (omega arith)
has_id-drop (suc k) id at (d ∷ ds) h = has_id-drop k id at ds (omega arith)

remembered :
    (id at : ℕ) (ds : List (ℕ × ℕ)) → has_id id (forget_oldest (ds ++ ((id, at) ∷ []))) ≡ true
remembered id at ds =
    has_id-drop (length (ds ++ ((id, at) ∷ [])) - 32) id at ds
      (omega (arith, length-append ds ((id, at) ∷ [])))

complete-HandedOnce :
    {E : Type 0} (around : Surroundings) (unit : Fas1Unit) (s : Session) (r : Result E (List ℕ))
    → HandedOnce unit s.delivered (complete around unit s r)
unfolding HandedOnce complete handed
complete-HandedOnce around unit s (err e) = inl refl
complete-HandedOnce around unit s (ok packet) =
    elim (Bool-cases ((length packet != unit.packet_length) || has_id unit.packet_id s.delivered)) [
      | inl e ↦ rw (e) (inl refl)
      | inr e ↦
          let unknown : has_id unit.packet_id s.delivered ≡ false = second _ _ e in
          rw (e) (inr (refl, unknown, remembered unit.packet_id _ s.delivered))
    ]
  where
    second : (a b : Bool) → (a || b) ≡ false → b ≡ false
    second a b h = ground arith

add_fragment-HandedOnce :
    (around : Surroundings) (unit : Fas1Unit) (a : InboundAssembly) (s : Session)
    → HandedOnce unit s.delivered (add_fragment around unit a s)
unfolding add_fragment HandedOnce handed
add_fragment-HandedOnce around unit a s =
    let known = is_some (get_index unit.fragment_index a.fragments) in
    let fragments =
      if known then a.fragments else a.fragments ++ ((unit.fragment_index, unit) ∷ []) in
    elim (Bool-cases (length fragments != a.fragment_count)) [
      | inl e ↦ rw (e) (inl refl)
      | inr e ↦ rw (e) (complete-HandedOnce around unit _ _)
    ]

store_fragment-HandedOnce :
    (around : Surroundings) (unit : Fas1Unit) (o : Option InboundAssembly) (s : Session)
    → HandedOnce unit s.delivered (store_fragment around unit o s)
unfolding store_fragment
store_fragment-HandedOnce around unit none s =
    add_fragment-HandedOnce around unit (new_assembly around unit) (record s { last_ack = none })
store_fragment-HandedOnce around unit (some a) s = add_fragment-HandedOnce around unit a s

take_data-HandedOnce :
    (around : Surroundings) (unit : Fas1Unit) (s : Session)
    → HandedOnce unit s.delivered (take_data around unit s)
unfolding take_data HandedOnce handed
take_data-HandedOnce around unit s =
    let count = ceil_div unit.packet_length around.inbound_payload_bytes in
    let wrong =
      (unit.fragment_count != count)
      || (length unit.body
          != expected_length unit around.inbound_payload_bytes count unit.fragment_index) in
    elim (Bool-cases (has_id unit.packet_id s.delivered)) [
      | inl e ↦ rw (e) (inl refl)
      | inr e ↦ elim (Bool-cases (other_packet s.inbound unit || wrong)) [
        | inl f ↦ rw (e, f) (inl refl)
        | inr f ↦
            let same : take_data around unit s ≡ store_fragment around unit s.inbound s =
              rw (e, f) refl in
            subst (HandedOnce unit s.delivered) (sym same)
              (store_fragment-HandedOnce around unit s.inbound s)
      ]
    ]

handed-append : (es fs : List Effect) → handed es ≡ [] → handed (es ++ fs) ≡ handed fs
unfolding handed
handed-append [] fs h = refl
handed-append (on_packet p i ∷ es) fs h = cc
handed-append (apply_candidate ∷ es) fs h = handed-append es fs h
handed-append (clear_delivery_timer ∷ es) fs h = handed-append es fs h
handed-append (schedule t n ∷ es) fs h = handed-append es fs h
handed-append (send_unit u ∷ es) fs h = handed-append es fs h
handed-append (after_playback i n ∷ es) fs h = handed-append es fs h
handed-append (clear_heartbeat_timers ∷ es) fs h = handed-append es fs h
handed-append (arm_heartbeat_timers ∷ es) fs h = handed-append es fs h
handed-append (clear_commit_retry ∷ es) fs h = handed-append es fs h
handed-append (clear_handshake_timers ∷ es) fs h = handed-append es fs h
handed-append (after_recovery_heartbeat g i ∷ es) fs h = handed-append es fs h
handed-append (after_reset e i ∷ es) fs h = handed-append es fs h

degrade_hands_nothing :
    (around : Surroundings) (r : Reason) (s : Session) → handed (degrade around r s).1 ≡ []
unfolding degrade handed
degrade_hands_nothing around r s = elim (Bool-cases (unfinished s.state)) [
  | inl e ↦ rw (e) refl
  | inr e ↦ rw (e) refl
]

expire_hands_nothing :
    (around : Surroundings) (o : Option PendingPacket) (s : Session)
    → handed (expire_active around o s).1 ≡ []
unfolding expire_active handed
expire_hands_nothing around none s = refl
expire_hands_nothing around (some p) s = elim (Bool-cases (ltb p.expires_at around.now)) [
  | inl e ↦ rw (e) (degrade_hands_nothing around packet_expired _)
  | inr e ↦ rw (e) refl
]

expire_quiet : (around : Surroundings) (s : Session) → handed (expire_work around s).1 ≡ []
unfolding expire_work
expire_quiet around s =
    let queues = expire_queues around.now s in expire_hands_nothing around queues.active queues

-- When a DATA unit comes in, nothing is handed on, or exactly one packet, that of the unit: its
-- number was not among the numbers that are remembered after the old ones have expired, and
-- afterwards it is.
pub on_data_lem :
    (around : Surroundings) (unit : Fas1Unit) (s : Session)
    → HandedOnce unit (expire_work around s).0.delivered (on_data around unit s)
unfolding on_data HandedOnce
on_data_lem around unit s =
    let expired = expire_work around s in
    let quiet : handed expired.1 ≡ [] = expire_quiet around s in
    elim (Bool-cases (others_turn expired.0 unit.session_id)) [
      | inr e ↦ rw (e) (inl quiet)
      | inl e ↦
          rw (e, handed-append expired.1 (take_data around unit expired.0).1 quiet)
            (take_data-HandedOnce around unit expired.0)
    ]
