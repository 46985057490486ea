-- ===== src/Image/Delivery.antt =====
-- A picture goes from node A to node B: `send` and `accept` together.
pub mod Pieces
use fipwave.Common.{
  ℕ, zero, suc, ◌+◌, ◌-◌, ◌*◌, ◌≤◌, ◌≡◌, refl, sym, ap, ap₂, ◌∙◌, arith, subst, Bool, true, false,
  List, [], ◌∷◌, ◌++◌, map, All, length, take, drop, some, ok, take-append-drop, drop-drop,
  take-all, drop-all,
}
use mathlib.Core.List.{Memᴰ}
use native.Mathlib.Nat.{add-mul, mul_comm, mul-le-mul}
use Prim.Native.String.{String}
use fipwave.Image.{
  Zlib, Restores, DecodedBand, ImageTransferBand, ImageTransferSnapshot, validate_raster,
}
use fipwave.Image.Band.{encode_image_band, decode_image_band}
use fipwave.Image.Band.RoundTrip.{decode_image_band-encode_image_band}
use fipwave.Image.Send.{Raster, band_at, subarray, role_a, Sent, send, send_from}
use fipwave.Image.Send.Cut.{Cut, cut_end, cut_band, Checked, RowsFit}
use fipwave.Image.Send.Whole.{Whole, send_from-Whole}
use fipwave.Image.Receive.{ImageTransfer, same_id, total_rows, transfer_band, accept}
use fipwave.Image.Receive.Placed.{Rising}
use fipwave.Image.Receive.Arrivals.{Picture, Of}
use fipwave.Image.Delivery.Pieces.{
  joined, Cut-Rising, Cut-length, Cut-total, Cut-joined, Cut-frame, Cut-band,
}
use fipwave.Image.Receive.Every.{Listens, accept_all, Comes, Covers, Complete, accept_all-Complete}

abbrev picture_of : Raster → List DecodedBand → Picture
picture_of r bands = record {
  id = r.transfer_id;
  width = r.width;
  height = r.height;
  bands = map transfer_band bands;
}

Checked-raster : (r : Raster) → Checked r → validate_raster r.width r.height r.rgba ≡ ok tt
unfolding validate_raster
Checked-raster r c = ground (
  arith,
  c.width_least,
  c.width_most,
  c.height_least,
  c.height_most,
  c.pixels,
  mul-le-mul c.width_most c.height_most,
)

-- The datagrams of the picture, each of which comes in at least once, and nothing else.
pub record Arrive (sent arrived : List (List ℕ)) : Type 0 where
  pub only : All (λ f. Memᴰ f sent) arrived
  pub every : All (λ f. Memᴰ f arrived) sent

All-member : {A : Type 0} (P : A → Type 0) (x : A) (xs : List A) → All P xs → Memᴰ x xs → P x
All-member P x [] a m = elim m [ ]
All-member P x (y ∷ ys) a (Memᴰ.head e) = subst P (sym e) a.0
All-member P x (y ∷ ys) a (Memᴰ.tail m) = All-member P x ys a.1 m

member-All : {A : Type 0} (P : A → Type 0) (xs : List A) → ((x : A) → Memᴰ x xs → P x) → All P xs
member-All P [] h = tt
member-All P (x ∷ xs) h = (h x (Memᴰ.head refl), member-All P xs (λ y m. h y (Memᴰ.tail m)))

module _ (z : Zlib) (restores : Restores z) (r : Raster) (c : Checked r) {frames : List (List ℕ)}
    {bands : List DecodedBand} (cut : Cut z r 0 frames bands) where
  frame-Comes : (f : List ℕ) → Memᴰ f frames → Comes z (picture_of r bands) f
  frame-Comes f m =
      let (b, encoded, id, width, height, member) = Cut-frame z r f cut m in
      (
        b,
        decode_image_band-encode_image_band z restores b f encoded,
        record { id = id; width = width; height = height; member = member },
      )

  cut_arrives :
      (arrived : List (List ℕ))
      → Arrive frames arrived
      → (address : String) (t : ImageTransfer) → Listens address t
      → same_id t.snapshot.transfer_id r.transfer_id ≡ false
      → Complete (picture_of r bands) (accept_all z address arrived t)
  cut_arrives arrived a address t l other =
      accept_all-Complete z address (picture_of r bands) (Cut-Rising z r cut)
        (omega (arith, Cut-total z r cut)) c.height_least arrived
        (member-All (Comes z (picture_of r bands)) arrived
          (λ f m. frame-Comes f (All-member (λ (g : List ℕ). Memᴰ g frames) f arrived a.only m)))
        (λ x m.
          let (f, b, member, encoded, row) = Cut-band z r x cut m in
          (
            f,
            b,
            All-member (λ (g : List ℕ). Memᴰ g arrived) f frames a.every member,
            decode_image_band-encode_image_band z restores b f encoded,
            row,
          ))
        t l other

send_valid_lem :
    (z : Zlib) (socket : ℕ → Bool) (r : Raster) (s : ImageTransferSnapshot)
    → Checked r
    → (send z socket role_a false r s).0 ≡ send_from z socket r r.height 0 0
unfolding send
send_valid_lem z socket r s c = rw (Checked-raster r c) refl

-- The whole picture is on show: its id, size and pixels, with its bands in order.
pub record Shown (r : Raster) (s : ImageTransferSnapshot) : Type 0 where
  pub id : s.transfer_id ≡ some r.transfer_id
  pub width : s.width ≡ r.width
  pub height : s.height ≡ r.height
  pub rows : s.received_rows ≡ r.height
  pub complete : s.complete ≡ true
  pub pixels : joined s.bands ≡ r.rgba

-- For a picture of valid size with an id of eight bytes, where inflating restores what was deflated, each row compresses into a datagram and the socket takes every datagram, `send` ends with the number of its datagrams; and once these, and nothing else, have come in from the peer at node B, in whatever order and each at least once, and B showed another picture or none before, B's snapshot is complete and has the id, the size and the pixels of the picture.
pub send-Shown :
    (z : Zlib)
    → Restores z
    → (r : Raster) → Checked r
    → RowsFit z r
    → (socket : ℕ → Bool) → ((n : ℕ) → socket n ≡ true)
    → (s : ImageTransferSnapshot) (arrived : List (List ℕ))
    → Arrive (send z socket role_a false r s).0.datagrams arrived
    → (address : String) (t : ImageTransfer) → Listens address t
    → same_id t.snapshot.transfer_id r.transfer_id ≡ false
    → ((send z socket role_a false r s).0.outcome
        ≡ ok (length (send z socket role_a false r s).0.datagrams))
      × Shown r (accept_all z address arrived t).snapshot
send-Shown z restores r c fit socket goes_out s arrived a address t l other =
    let sent = send_valid_lem z socket r s c in
    let (bands, cut, counted) =
      send_from-Whole z socket r c fit goes_out r.height 0 0 (omega arith) (omega arith) in
    let done =
      cut_arrives z restores r c cut arrived
        (subst (λ (x : Sent). Arrive x.datagrams arrived) sent a) address t l other in
    (
      ap (λ (x : Sent). x.outcome) sent
          ∙ counted
          ∙ ap ok (omega (arith, Cut-length z r cut, ap (λ (x : Sent). length x.datagrams) sent)),
      record {
        id = done.id;
        width = done.width;
        height = done.height;
        rows = done.rows;
        complete = done.complete;
        pixels =
            ap joined done.bands
            ∙ Cut-joined z r c cut
            ∙ ap (λ (k : ℕ). drop k r.rgba) {x = 0 * r.width * 4} {y = 0} (omega arith);
      },
    )
