-- ===== src/Image/Retry/Reached.antt =====
-- The states of startAuthenticatedImageSender over time.
use fipwave.Common.{ℕ, ◌≡◌, arith, List, [], ok}
use fipwave.Image.Retry.{ImageSender, schedule, start_sender}
use fipwave.Image.Retry.History.{
  Answer, Reaches, started, fired, peer_answered, send_answered, closed, Agrees, on_timer-Agrees,
  close_sender-Agrees, on_peer_ready-Agrees, on_send-Agrees,
}

fresh_sender : (retry_ms : ℕ) (s : ImageSender) → start_sender retry_ms ≡ ok s → Agrees [] s
unfolding start_sender schedule
fresh_sender retry_ms s e = record {
  need = ground arith;
  sent = ground arith;
  away = ground arith;
  sending = ground arith;
  busy = ground arith;
  timed = ground arith;
}

reached-Agrees :
    (start : ImageSender)
    → Agrees [] start
    → (h : List Answer) (s : ImageSender) → Reaches start h s
    → Agrees h s
reached-Agrees start a h s started = a
reached-Agrees start a h _ (fired {s = s} e r) =
    on_timer-Agrees h s (reached-Agrees start a h s r) e
reached-Agrees start a _ _ (peer_answered {h} {s} answer e r) =
    on_peer_ready-Agrees h s answer (reached-Agrees start a h s r) e
reached-Agrees start a _ _ (send_answered {h} {s} success e r) =
    on_send-Agrees h s success (reached-Agrees start a h s r) e
reached-Agrees start a h _ (closed {s = s} r) =
    close_sender-Agrees h s (reached-Agrees start a h s r)

-- However the timer, the answers and `close` follow one another, a send is needed just when no picture has been sent since the peer was last found away, `sent` says whether one has been sent, a call of `send` is only awaited where one is needed and the peer was last noted as ready, the peer is noted as away only where a send is needed, an attempt is running just when an answer is awaited, and the timer is set just when the sender is open and no attempt is running.
pub Reaches-Agrees :
    (retry_ms : ℕ) (start : ImageSender)
    → start_sender retry_ms ≡ ok start
    → (h : List Answer) (s : ImageSender) → Reaches start h s
    → Agrees h s
Reaches-Agrees retry_ms start e h s r = reached-Agrees start (fresh_sender retry_ms start e) h s r
