-- ===== src/Image/Retry.antt =====
-- `startAuthenticatedImageSender` of image-transfer.ts: a timer asks again and again whether the peer
-- is ready, and sends the picture when it is and a send is needed. An attempt is cut at its two
-- awaits, so that `close` can come in between; what `peerReady` and `send` answer is an input.
pub mod History
pub mod Reached
use fipwave.Common.{
  ℕ, ◌≡◌, ltb, not, ◌||◌, ◌&&◌, if◌then◌else◌, Bool, true, false, Option, none, some, Result, ok,
  fail_if, ◌>>=◌, ◌>>◌,
}
use fipwave.Image.{ImageError, retry_invalid}

-- The await at which an attempt stands.
pub data Await : Type 0 where
  await_none await_peer_ready await_send : Await

pub record ImageSender : Type 0 where
  pub retry_ms : ℕ
  pub closed : Bool
  pub sent_once : Bool
  pub peer_was_ready : Bool
  pub send_needed : Bool
  pub running : Bool
  -- The delay of the timer that is set.
  pub timer : Option ℕ
  pub at : Await

abbrev pub is_set : Option ℕ → Bool
is_set none = false
is_set (some delay) = true

unfoldable pub schedule : ℕ → ImageSender → ImageSender
schedule delay s = if s.closed || is_set s.timer then s else record s { timer = some delay }

unfoldable pub start_sender : ℕ → Result ImageError ImageSender
start_sender retry_ms = do
  fail_if (ltb retry_ms 1 || ltb 60000 retry_ms) retry_invalid
  ok (
      schedule 0 (record {
        retry_ms = retry_ms;
        closed = false;
        sent_once = false;
        peer_was_ready = false;
        send_needed = true;
        running = false;
        timer = none;
        at = await_none;
      }))

-- `attempt` up to the first await.
unfoldable pub attempt : ImageSender → ImageSender
attempt s = if s.closed || s.running then s else record s { running = true; at = await_peer_ready }

-- The timer's callback.
unfoldable pub on_timer : ImageSender → ImageSender
on_timer s = attempt (record s { timer = none })

-- The `finally` block.
unfoldable pub finish_attempt : ImageSender → ImageSender
finish_attempt s =
    let rested = record s { running = false; at = await_none } in
    if s.closed then rested else schedule s.retry_ms rested

abbrev pub note_peer : Bool → ImageSender → ImageSender
note_peer false s = record s { peer_was_ready = false; send_needed = true }
note_peer true s = record s {
  peer_was_ready = true;
  send_needed = not s.peer_was_ready || s.send_needed;
}

-- `peerReady` answers, or throws.
unfoldable pub on_peer_ready : Option Bool → ImageSender → ImageSender
on_peer_ready none s = finish_attempt s
on_peer_ready (some ready) s =
    let noted = note_peer ready s in
    if ready && noted.send_needed then record noted { at = await_send } else finish_attempt noted

-- `send` succeeds, or throws.
unfoldable pub on_send : Bool → ImageSender → ImageSender
on_send false s = finish_attempt s
on_send true s = finish_attempt (record s { send_needed = false; sent_once = true })

unfoldable pub close_sender : ImageSender → ImageSender
close_sender s = record s { closed = true; timer = none }
