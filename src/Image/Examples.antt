-- ===== src/Image/Examples.antt =====
-- Runs of the picture transfer, and its theorems at concrete inputs.
use fipwave.Common.{
  ℕ, zero, suc, ◌≡◌, ◌≢◌, refl, arith, true, false, List, [], ◌∷◌, length, get_or, All, Option,
  none, some, ok, err, leb, if◌then◌else◌,
}
use mathlib.Core.List.{Memᴰ}
use fipwave.Common.Texts.{same_text}
use fipwave.Image.{
  Zlib, Restores, DecodedBand, out_of_fuel, send_forbidden, empty_snapshot, validate_raster,
}
use fipwave.Image.Band.{write_frame, encode_image_band, check_band, read_band, decode_image_band}
use fipwave.Image.Band.RoundTrip.{
  Inside, decode_image_band-encode_image_band, decode_image_band-Inside,
}
use fipwave.Image.Send.{Raster, band_at, fit_rows, send_from, role_a, role_b, send}
use fipwave.Image.Send.Cut.{Checked, RowsFit}
use fipwave.Image.Send.Ends.{send-ends, send-decode_image_band}
use fipwave.Image.Receive.{ImageTransfer, close_transfer}
use fipwave.Image.Receive.Every.{Listens, accept_all}
use fipwave.Image.Delivery.{Arrive, Shown, send-Shown}
use fipwave.Image.Retry.{
  ImageSender, await_none, schedule, start_sender, attempt, on_timer, on_peer_ready, on_send,
}
use fipwave.Image.Retry.History.{
  peer_found_ready, picture_sent, Reaches, started, fired, peer_answered, send_answered, Agrees,
}
use fipwave.Image.Retry.Reached.{Reaches-Agrees}
use fipwave.Common.Bytes.{le_bytes, get_uint, le_value}

-- A compressor that stores.
abbrev stored_up_to : List ℕ → ℕ → Option (List ℕ)
stored_up_to [] limit = none
stored_up_to (b ∷ bs) limit = if leb (length bs) limit then some bs else none

abbrev stored : Zlib
stored = record { deflate_raw = λ b. 0 ∷ b; inflate_raw = stored_up_to }

stored-Restores : Restores stored
stored-Restores bytes limit h = ground (arith, h)

abbrev seven_rows : Raster
seven_rows = record {
  transfer_id = 1 ∷ 2 ∷ 3 ∷ 4 ∷ 5 ∷ 6 ∷ 7 ∷ 8 ∷ [];
  width = 1;
  height = 7;
  rgba =
      0 ∷ 1 ∷ 2 ∷ 255 ∷ 10 ∷ 11 ∷ 12 ∷ 255 ∷ 20 ∷ 21 ∷ 22 ∷ 255 ∷ 30 ∷ 31 ∷ 32 ∷ 255 ∷ 40 ∷ 41 ∷ 42
      ∷ 255 ∷ 50 ∷ 51 ∷ 52 ∷ 255 ∷ 60 ∷ 61 ∷ 62 ∷ 255 ∷ [];
}

seven_rows-Checked : Checked seven_rows
seven_rows-Checked = record {
  id = refl;
  width_least = omega arith;
  width_most = omega arith;
  height_least = omega arith;
  height_most = omega arith;
  pixels = refl;
}

seven_rows-RowsFit : RowsFit stored seven_rows
unfolding band_at
seven_rows-RowsFit zero h = (omega arith, omega arith)
seven_rows-RowsFit (suc zero) h = (omega arith, omega arith)
seven_rows-RowsFit (suc (suc zero)) h = (omega arith, omega arith)
seven_rows-RowsFit (suc (suc (suc zero))) h = (omega arith, omega arith)
seven_rows-RowsFit (suc (suc (suc (suc zero)))) h = (omega arith, omega arith)
seven_rows-RowsFit (suc (suc (suc (suc (suc zero))))) h = (omega arith, omega arith)
seven_rows-RowsFit (suc (suc (suc (suc (suc (suc zero)))))) h = (omega arith, omega arith)
seven_rows-RowsFit (suc (suc (suc (suc (suc (suc (suc n))))))) h = absurd (omega arith)

abbrev datagrams : List (List ℕ)
datagrams = (send stored (λ n. true) role_a false seven_rows empty_snapshot).0.datagrams

-- The second datagram comes in first and once more at the end.
abbrev arrivals : List (List ℕ)
arrivals = get_or datagrams 1 [] ∷ get_or datagrams 0 [] ∷ get_or datagrams 1 [] ∷ []

seven_rows-Arrive : Arrive datagrams arrivals
unfolding send send_from fit_rows encode_image_band write_frame le_bytes band_at validate_raster
seven_rows-Arrive = record {
  only = (Memᴰ.tail (Memᴰ.head refl), (Memᴰ.head refl, (Memᴰ.tail (Memᴰ.head refl), tt)));
  every = (Memᴰ.tail (Memᴰ.head refl), (Memᴰ.head refl, tt));
}

abbrev node_b : ImageTransfer
node_b = record {
  role = role_b;
  peer_ipv6 = "fd00::a";
  closed = false;
  snapshot = empty_snapshot;
  received = [];
}

send_after_close :
    (send stored
      (λ n. true)
      role_a
      (close_transfer node_b).closed
      seven_rows
      empty_snapshot).0.outcome
    ≡ err send_forbidden
unfolding send
send_after_close = refl

node_b-Listens : Listens "fd00::a" node_b
unfolding same_text
node_b-Listens = (refl, refl)

send-Shown_example :
    ((send stored (λ n. true) role_a false seven_rows empty_snapshot).0.outcome
      ≡ ok (length datagrams))
    × Shown seven_rows (accept_all stored "fd00::a" arrivals node_b).snapshot
send-Shown_example =
    send-Shown stored stored-Restores seven_rows seven_rows-Checked seven_rows-RowsFit (λ n. true)
      (λ n. refl) empty_snapshot arrivals seven_rows-Arrive "fd00::a" node_b node_b-Listens refl

send-ends_example :
    (send stored (λ n. false) role_a false seven_rows empty_snapshot).0.outcome ≢ err out_of_fuel
send-ends_example = send-ends stored (λ n. false) role_a false seven_rows empty_snapshot

send-decode_image_band_example :
    All
      (λ f. (y : ℕ) × (rows : ℕ) × (decode_image_band stored f ≡ ok (band_at seven_rows y rows)))
      datagrams
send-decode_image_band_example =
    send-decode_image_band stored stored-Restores (λ n. true) role_a false seven_rows empty_snapshot

abbrev third_row : DecodedBand
third_row = record {
  transfer_id = 1 ∷ 2 ∷ 3 ∷ 4 ∷ 5 ∷ 6 ∷ 7 ∷ 8 ∷ [];
  width = 1;
  height = 7;
  y = 2;
  rows = 1;
  rgba = 20 ∷ 21 ∷ 22 ∷ 255 ∷ [];
}

third_row_encoded :
    encode_image_band stored third_row
    ≡ ok (write_frame third_row (stored.deflate_raw third_row.rgba))
unfolding encode_image_band
third_row_encoded = refl

third_row_decoded :
    decode_image_band stored (write_frame third_row (stored.deflate_raw third_row.rgba))
    ≡ ok third_row
unfolding decode_image_band check_band read_band write_frame le_bytes get_uint le_value
third_row_decoded = refl

decode_image_band-encode_image_band_example :
    decode_image_band stored (write_frame third_row (stored.deflate_raw third_row.rgba))
    ≡ ok third_row
decode_image_band-encode_image_band_example =
    decode_image_band-encode_image_band stored stored-Restores third_row
      (write_frame third_row (stored.deflate_raw third_row.rgba)) third_row_encoded

decode_image_band-Inside_example : Inside third_row
decode_image_band-Inside_example =
    decode_image_band-Inside stored (write_frame third_row (stored.deflate_raw third_row.rgba))
      third_row third_row_decoded

abbrev new_sender : ImageSender
new_sender = record {
  retry_ms = 1500;
  closed = false;
  sent_once = false;
  peer_was_ready = false;
  send_needed = true;
  running = false;
  timer = some 0;
  at = await_none;
}

new_sender_started : start_sender 1500 ≡ ok new_sender
unfolding start_sender schedule
new_sender_started = refl

-- The peer is ready at once, and the picture is sent.
abbrev sent_at_once : ImageSender
sent_at_once = on_send true (on_peer_ready (some true) (on_timer new_sender))

sends_at_once : Reaches new_sender (picture_sent ∷ peer_found_ready ∷ []) sent_at_once
unfolding on_timer on_peer_ready attempt
sends_at_once = send_answered true refl (peer_answered (some true) refl (fired refl started))

Reaches-Agrees_example : Agrees (picture_sent ∷ peer_found_ready ∷ []) sent_at_once
Reaches-Agrees_example =
    Reaches-Agrees 1500 new_sender new_sender_started (picture_sent ∷ peer_found_ready ∷ [])
      sent_at_once sends_at_once
