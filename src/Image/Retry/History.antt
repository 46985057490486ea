-- ===== src/Image/Retry/History.antt =====
-- The answers that `attempt` of image-transfer.ts gets, and the fields that go with them.
use fipwave.Common.{
  ◌≡◌, inl, inr, refl, sym, subst, ap, ap₂, ◌∙◌, arith, Bool-cases, not, ◌||◌, ◌&&◌, Bool, true,
  false, List, [], ◌∷◌, Option, none, some, if◌then◌else◌,
}
use fipwave.Image.Retry.{
  ImageSender, Await, await_none, await_peer_ready, await_send, is_set, schedule, attempt, on_timer,
  finish_attempt, note_peer, on_peer_ready, on_send, close_sender,
}

pub data Answer : Type 0 where
  peer_found_ready peer_found_away peer_failed picture_sent send_failed : Answer

-- No picture has been sent since the peer was last found away; the last answer stands first.
abbrev pub needed : List Answer → Bool
needed [] = true
needed (picture_sent ∷ h) = false
needed (peer_found_away ∷ h) = true
needed (a ∷ h) = needed h

abbrev pub sent_before : List Answer → Bool
sent_before [] = false
sent_before (picture_sent ∷ h) = true
sent_before (a ∷ h) = sent_before h

abbrev pub ready_answer : Option Bool → Answer
ready_answer none = peer_failed
ready_answer (some true) = peer_found_ready
ready_answer (some false) = peer_found_away

abbrev pub send_answer : Bool → Answer
send_answer true = picture_sent
send_answer false = send_failed

-- The states that a sender comes to, with the answers that it has got on the way.
pub data Reaches (start : ImageSender) : List Answer → ImageSender → Type 0 where
  started : Reaches start [] start
  fired :
      {h : List Answer} {s : ImageSender}
      → is_set s.timer ≡ true
      → Reaches start h s
      → Reaches start h (on_timer s)
  peer_answered :
      {h : List Answer} {s : ImageSender} (answer : Option Bool)
      → s.at ≡ await_peer_ready
      → Reaches start h s
      → Reaches start (ready_answer answer ∷ h) (on_peer_ready answer s)
  send_answered :
      {h : List Answer} {s : ImageSender} (success : Bool)
      → s.at ≡ await_send
      → Reaches start h s
      → Reaches start (send_answer success ∷ h) (on_send success s)
  closed :
      {h : List Answer} {s : ImageSender} → Reaches start h s → Reaches start h (close_sender s)

abbrev pub waits : Await → Bool
waits await_none = false
waits a = true

abbrev pub is_sending : Await → Bool
is_sending await_send = true
is_sending a = false

-- The fields follow from the answers, and just when the sender is open and no attempt is under way,
-- the timer is set.
pub record Agrees (h : List Answer) (s : ImageSender) : Type 0 where
  pub need : s.send_needed ≡ needed h
  pub sent : s.sent_once ≡ sent_before h
  pub away : (s.peer_was_ready || s.send_needed) ≡ true
  pub sending : (not (is_sending s.at) || (s.peer_was_ready && s.send_needed)) ≡ true
  pub busy : s.running ≡ waits s.at
  pub timed : is_set s.timer ≡ (not s.closed && not s.running)

module _ (h : List Answer) (s : ImageSender) (a : Agrees h s) where
  pub on_timer-Agrees : is_set s.timer ≡ true → Agrees h (on_timer s)
  unfolding on_timer attempt
  on_timer-Agrees e = record {
    need = ground (arith, a.need);
    sent = ground (arith, a.sent);
    away = ground (arith, a.away);
    sending = ground (arith, a.sending, a.timed);
    busy = ground (arith, a.busy, a.timed);
    timed = ground (arith, a.timed);
  }

  finish_attempt-Agrees : s.running ≡ true → Agrees h (finish_attempt s)
  unfolding finish_attempt schedule
  finish_attempt-Agrees e = record {
    need = ground (arith, a.need);
    sent = ground (arith, a.sent);
    away = ground (arith, a.away);
    sending = ground arith;
    busy = ground arith;
    timed = ground (arith, a.timed);
  }

  pub close_sender-Agrees : Agrees h (close_sender s)
  unfolding close_sender
  close_sender-Agrees = record {
    need = a.need;
    sent = a.sent;
    away = a.away;
    sending = a.sending;
    busy = a.busy;
    timed = refl;
  }

-- An answer of `peerReady` is kept, and then the attempt goes on to `send` or ends.
noted_ready :
    (h : List Answer) (s : ImageSender) (ready : Bool)
    → Agrees h s
    → s.at ≡ await_peer_ready
    → Agrees (ready_answer (some ready) ∷ h) (note_peer ready s)
noted_ready h s true a e = record {
  need = ground (arith, a.need, a.away);
  sent = a.sent;
  away = refl;
  sending = ground (arith, e);
  busy = a.busy;
  timed = a.timed;
}
noted_ready h s false a e = record {
  need = refl;
  sent = a.sent;
  away = refl;
  sending = ground (arith, e);
  busy = a.busy;
  timed = a.timed;
}

goes_on :
    (h : List Answer) (s : ImageSender)
    → Agrees h s
    → s.running ≡ true
    → (s.peer_was_ready && s.send_needed) ≡ true
    → Agrees h (record s { at = await_send })
goes_on h s a running need = record {
  need = a.need;
  sent = a.sent;
  away = a.away;
  sending = need;
  busy = running;
  timed = a.timed;
}

ready_goes_on :
    (h : List Answer) (s : ImageSender)
    → Agrees h s
    → s.running ≡ true
    → s.peer_was_ready ≡ true
    → Agrees h (if s.send_needed then record s { at = await_send } else finish_attempt s)
ready_goes_on h s a running ready =
    let after = λ (need : Bool). if need then record s { at = await_send } else finish_attempt s in
    elim (Bool-cases s.send_needed) [
      | inl need ↦
          subst (λ (b : Bool). Agrees h (after b)) (sym need)
            (goes_on h s a running (ap₂ ◌&&◌ ready need))
      | inr end ↦
          subst (λ (b : Bool). Agrees h (after b)) (sym end) (finish_attempt-Agrees h s a running)
    ]

noted_failure : (h : List Answer) (s : ImageSender) → Agrees h s → Agrees (peer_failed ∷ h) s
noted_failure h s a = record {
  need = a.need;
  sent = a.sent;
  away = a.away;
  sending = a.sending;
  busy = a.busy;
  timed = a.timed;
}

pub on_peer_ready-Agrees :
    (h : List Answer) (s : ImageSender) (answer : Option Bool)
    → Agrees h s
    → s.at ≡ await_peer_ready
    → Agrees (ready_answer answer ∷ h) (on_peer_ready answer s)
unfolding on_peer_ready
on_peer_ready-Agrees h s none a e =
    finish_attempt-Agrees (peer_failed ∷ h) s (noted_failure h s a) (a.busy ∙ ap waits e)
on_peer_ready-Agrees h s (some true) a e =
    ready_goes_on (peer_found_ready ∷ h) (note_peer true s) (noted_ready h s true a e)
      (a.busy ∙ ap waits e) refl
on_peer_ready-Agrees h s (some false) a e =
    finish_attempt-Agrees (peer_found_away ∷ h) (note_peer false s) (noted_ready h s false a e)
      (a.busy ∙ ap waits e)

pub on_send-Agrees :
    (h : List Answer) (s : ImageSender) (success : Bool)
    → Agrees h s
    → s.at ≡ await_send
    → Agrees (send_answer success ∷ h) (on_send success s)
unfolding on_send finish_attempt schedule
on_send-Agrees h s false a e = record {
  need = ground (arith, a.need);
  sent = ground (arith, a.sent);
  away = ground (arith, a.away);
  sending = ground arith;
  busy = ground arith;
  timed = ground (arith, a.timed, a.busy, e);
}
on_send-Agrees h s true a e = record {
  need = ground arith;
  sent = ground arith;
  away = ground (arith, a.sending, e);
  sending = ground arith;
  busy = ground arith;
  timed = ground (arith, a.timed, a.busy, e);
}
