-- ===== src/Adapter/Passage.antt =====
-- Which packets pass the adapter.
use fipwave.Common.{
  ℕ, ◌≤◌, ◌<◌, ◌≡◌, ◌≢◌, ◌↔◌, refl, sym, ap, ◌∙◌, arith, ◌!=◌, Bool, true, false, not, ◌||◌,
  Bool-cases, inl, inr, ◌⊎◌, List, [], ◌∷◌, length, Option, none, some, Option-cases, ℕ_discrete,
}
use fipwave.Fwav.{is_fips_traffic_class}
use fipwave.Adapter.{
  Lifecycle, Reason, stale, invalid, not_armed, PacketResult, packet_rejected, valid_packet,
  envelope, active, receive,
}
use fipwave.Adapter.Session.{
  AcousticTrafficClass, QueueResult, traffic_class_of, queue_answer, SessionAdapter, Event,
  session_packet, or_epoch, receive_fips,
}
use fipwave.Adapter.Armed.{Run, IsInStep, lifecycle_of, Run-IsInStep}

-- 1 to 262112 bytes, of one of the three classes.
pub record Carried (packet : List ℕ) (class : ℕ) : Type 0 where
  pub some_bytes : 0 < length packet
  pub few_bytes : length packet ≤ 262112
  pub class_low : 0 < class
  pub class_high : class ≤ 3

-- The tests of `receive`, each with what it means.
gates_iff :
    (packet : List ℕ) (class : ℕ)
    → ((not (valid_packet packet) || not (is_fips_traffic_class class)) ≡ false)
      ↔ Carried packet class
unfolding valid_packet
gates_iff packet class = (λ h. ground arith, λ h. ground arith)

envelope-Carried :
    (packet : List ℕ) (class : ℕ)
    → Carried packet class
    → envelope packet class ≡ some (record { bytes = packet; traffic_class = class })
unfolding envelope
envelope-Carried packet class h = rw ((gates_iff packet class).1 h) refl

envelope_refused :
    (packet : List ℕ) (class : ℕ) → ¬ Carried packet class → envelope packet class ≡ none
unfolding envelope
envelope_refused packet class h =
    elim (Bool-cases (not (valid_packet packet) || not (is_fips_traffic_class class))) [
      | inl e ↦ rw (e) refl
      | inr e ↦ absurd (h ((gates_iff packet class).0 e))
    ]

active_same : (e g : ℕ) → active (some (record { epoch = e; generation = g })) e g ≡ none
unfolding active
active_same e g = ground arith

active-none : (e g : ℕ) → active none e g ≡ some not_armed
unfolding active
active-none e g = refl

other_epoch :
    (d e g : ℕ) → d ≢ e → active (some (record { epoch = d; generation = g })) e g ≡ some stale
unfolding active
other_epoch d e g ne = ground arith

-- The adapter is armed for the epoch, and the caller's generation is the current one.
pub record Open (s : SessionAdapter) (epoch : ℕ) (generation : Option ℕ) : Type 0 where
  pub armed : s.armed_epoch ≡ some epoch
  pub current : or_epoch generation s.generation ≡ s.generation

same_generation : (a b : ℕ) → a ≡ b → (a != b) ≡ false
same_generation a b h = ground arith

-- What a refused call returns.
abbrev pub Refused : PacketResult × List Event → Type 0
Refused r = (reason : Reason) × (r ≡ (packet_rejected reason, []))

module _ (enqueue : List ℕ → AcousticTrafficClass → QueueResult) (s : SessionAdapter)
    (packet : List ℕ) (class epoch : ℕ) (generation : Option ℕ) where
  receive_passes :
      IsInStep s
      → Open s epoch generation
      → Carried packet class
      → receive_fips enqueue s packet class epoch generation ≡ (
        queue_answer (enqueue packet (traffic_class_of class)),
        session_packet packet (traffic_class_of class) ∷ [],
      )
  unfolding receive_fips receive
  receive_passes step gate carried =
      let l : s.lifecycle ≡ some (record { epoch = epoch; generation = s.generation }) =
        step ∙ ap (λ (a : Option ℕ). lifecycle_of a s.generation) gate.armed in
      simp
        (
          gate.current,
          same_generation _ _ refl,
          l,
          active_same epoch s.generation,
          envelope-Carried packet class carried,
        )
        refl

  wrong_generation :
      or_epoch generation s.generation ≢ s.generation
      → receive_fips enqueue s packet class epoch generation ≡ (packet_rejected stale, [])
  unfolding receive_fips
  wrong_generation h = rw (different _ _ h) refl
    where
      different : (a b : ℕ) → a ≢ b → (a != b) ≡ true
      different a b h = ground arith

  not_active :
      (reason : Reason)
      → or_epoch generation s.generation ≡ s.generation
      → active s.lifecycle epoch s.generation ≡ some reason
      → receive_fips enqueue s packet class epoch generation ≡ (packet_rejected reason, [])
  unfolding receive_fips receive
  not_active reason h k = simp (h, same_generation _ _ refl, k) refl

  not-Carried :
      or_epoch generation s.generation ≡ s.generation
      → active s.lifecycle epoch s.generation ≡ none
      → ¬ Carried packet class
      → receive_fips enqueue s packet class epoch generation ≡ (packet_rejected invalid, [])
  unfolding receive_fips receive
  not-Carried h k c = simp (h, same_generation _ _ refl, k, envelope_refused packet class c) refl

  unfoldable Outcome : Type 0
  Outcome =
      (Open s epoch generation
        × Carried packet class
        × (receive_fips enqueue s packet class epoch generation ≡ (
          queue_answer (enqueue packet (traffic_class_of class)),
          session_packet packet (traffic_class_of class) ∷ [],
        )))
      ⊎ ((¬ (Open s epoch generation × Carried packet class))
          × Refused (receive_fips enqueue s packet class epoch generation))

  armed_lifecycle :
      {d : ℕ}
      → IsInStep s
      → s.armed_epoch ≡ some d
      → s.lifecycle ≡ some (record { epoch = d; generation = s.generation })
  armed_lifecycle step a = step ∙ ap (λ (a : Option ℕ). lifecycle_of a s.generation) a

  outcome_open : IsInStep s → Open s epoch generation → Outcome
  unfolding Outcome
  outcome_open step gate =
      elim (Bool-cases (not (valid_packet packet) || not (is_fips_traffic_class class))) [
        | inr e ↦
            let carried = (gates_iff packet class).0 e in
            inl (gate, carried, receive_passes step gate carried)
        | inl e ↦
            let refused : ¬ Carried packet class =
              λ c. true≢false (sym e ∙ (gates_iff packet class).1 c) in
            inr (
              λ h. refused h.1,
              (
                invalid,
                not-Carried gate.current
                    (ap (λ (l : Option Lifecycle). active l epoch s.generation)
                        (armed_lifecycle step gate.armed)
                      ∙ active_same epoch s.generation)
                    refused,
              ),
            )
      ]
    where
      true≢false : ◌≡◌ {A = Bool} true false → ⊥
      true≢false h = cc

  outcome_armed :
      (d : ℕ)
      → IsInStep s
      → or_epoch generation s.generation ≡ s.generation
      → s.armed_epoch ≡ some d
      → Outcome
  unfolding Outcome
  outcome_armed d step g a = elim (ℕ_discrete d epoch) [
    | yes e ↦ outcome_open step (record { armed = a ∙ ap (λ (n : ℕ). some n) e; current = g })
    | no ne ↦ inr (
      λ h. ne (some_same (sym a ∙ h.0.armed)),
      (
        stale,
        not_active stale g (
            ap (λ (l : Option Lifecycle). active l epoch s.generation) (armed_lifecycle step a)
            ∙ other_epoch d epoch s.generation ne),
      ),
    )
  ]
    where
      some_same : {d e : ℕ} → ◌≡◌ {A = Option ℕ} (some d) (some e) → d ≡ e
      some_same h = cc

  outcome : IsInStep s → Outcome
  unfolding Outcome
  outcome step = elim (ℕ_discrete (or_epoch generation s.generation) s.generation) [
    | no n ↦ inr (λ h. n h.0.current, (stale, wrong_generation n))
    | yes g ↦ elim (Option-cases s.armed_epoch) [
      | inl a ↦ inr (
        λ h. none≢some (sym a ∙ h.0.armed),
        (
          not_armed,
          not_active not_armed g (
              ap (λ (l : Option Lifecycle). active l epoch s.generation)
                (step ∙ ap (λ (a : Option ℕ). lifecycle_of a s.generation) a)
              ∙ active-none epoch s.generation),
        ),
      )
      | inr (d, a) ↦ outcome_armed d step g a
    ]
  ]
    where
      none≢some : {e : ℕ} → ◌≡◌ {A = Option ℕ} none (some e) → ⊥
      none≢some h = cc

-- After any calls, `receiveFips` hands a packet to the session exactly when the adapter is armed
-- for the packet's epoch, the caller's generation is the current one, the packet has 1 to 262112
-- bytes and its class is one of the three; the answer is then the session's, and else the packet is
-- rejected and nothing is handed on.
pub receive_fips_lem :
    (enqueue : List ℕ → AcousticTrafficClass → QueueResult) (s : SessionAdapter) (log : List Event)
    (packet : List ℕ) (class epoch : ℕ) (generation : Option ℕ)
    → Run s log
    → (Open s epoch generation
        × Carried packet class
        × (receive_fips enqueue s packet class epoch generation ≡ (
          queue_answer (enqueue packet (traffic_class_of class)),
          session_packet packet (traffic_class_of class) ∷ [],
        )))
      ⊎ ((¬ (Open s epoch generation × Carried packet class))
          × Refused (receive_fips enqueue s packet class epoch generation))
unfolding Outcome
receive_fips_lem enqueue s log packet class epoch generation r =
    outcome enqueue s packet class epoch generation (Run-IsInStep s log r)
