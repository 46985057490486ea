-- ===== src/Image/Receive.antt =====
-- `accept` of image-transfer.ts, on node B: a datagram from the peer that is a band goes into the map
-- of the picture's bands, and the snapshot shows the map in the order of the rows.
pub mod Placed
pub mod Arrivals
pub mod Every
use fipwave.Common.{
  ℕ, zero, suc, ◌+◌, ◌==◌, leb, not, ◌||◌, ◌&&◌, if◌then◌else◌, Bool, true, false, List, [], ◌∷◌,
  Option, none, some, Result, ok, err,
}
use fipwave.Common.Texts.{same_text}
use Prim.Native.String.{String}
use fipwave.Image.{ImageError, Zlib, DecodedBand, ImageTransferBand, ImageTransferSnapshot}
use fipwave.Image.Band.{decode_image_band}
use fipwave.Image.Send.{Role, is_a}

pub record ImageTransfer : Type 0 where
  pub role : Role
  pub peer_ipv6 : String
  pub closed : Bool
  pub snapshot : ImageTransferSnapshot
  -- `received`, in the order in which its keys were first set; a key is the band's `y`.
  pub received : List ImageTransferBand

-- `===` of two pixel strings, or of two ids.
abbrev pub same_bytes : List ℕ → List ℕ → Bool
same_bytes [] [] = true
same_bytes [] (y ∷ ys) = false
same_bytes (x ∷ xs) [] = false
same_bytes (x ∷ xs) (y ∷ ys) = let rest = same_bytes xs ys in (x == y) && rest

abbrev pub same_id : Option (List ℕ) → List ℕ → Bool
same_id none id = false
same_id (some a) id = same_bytes a id

-- `received.get(y)`
abbrev pub get_band : ℕ → List ImageTransferBand → Option ImageTransferBand
get_band y [] = none
get_band y (b ∷ bs) = let rest = get_band y bs in if b.y == y then some b else rest

-- `received.set(band.y, band)`
abbrev pub set_band : ImageTransferBand → List ImageTransferBand → List ImageTransferBand
set_band b [] = b ∷ []
set_band b (x ∷ xs) = let rest = set_band b xs in if x.y == b.y then b ∷ xs else x ∷ rest

-- The stable sort by `y`.
abbrev pub insert_band : ImageTransferBand → List ImageTransferBand → List ImageTransferBand
insert_band b [] = b ∷ []
insert_band b (x ∷ xs) = let rest = insert_band b xs in if leb b.y x.y then b ∷ x ∷ xs else x ∷ rest

abbrev pub sort_bands : List ImageTransferBand → List ImageTransferBand
sort_bands [] = []
sort_bands (b ∷ bs) = insert_band b (sort_bands bs)

-- The rows of the bands together.
abbrev pub total_rows : List ImageTransferBand → ℕ
total_rows [] = 0
total_rows (b ∷ bs) = b.rows + total_rows bs

abbrev pub transfer_band : DecodedBand → ImageTransferBand
transfer_band b = record { y = b.y; rows = b.rows; rgba = b.rgba }

abbrev pub of_transfer : DecodedBand → ImageTransferSnapshot → Bool
of_transfer b s =
    same_id s.transfer_id b.transfer_id && (s.width == b.width) && (s.height == b.height)

-- Another picture begins.
abbrev pub begin_picture : DecodedBand → ImageTransfer → ImageTransfer
begin_picture b t = record t {
  received = [];
  snapshot = record {
    transfer_id = some b.transfer_id;
    width = b.width;
    height = b.height;
    received_rows = 0;
    complete = false;
    revision = suc t.snapshot.revision;
    bands = [];
  };
}

abbrev pub repeats : Option ImageTransferBand → DecodedBand → Bool
repeats none b = false
repeats (some previous) b = (previous.rows == b.rows) && same_bytes previous.rgba b.rgba

-- The snapshot of the map `received`.
abbrev pub show_bands : ℕ → List ImageTransferBand → ImageTransfer → ImageTransfer
show_bands height received t =
    let bands = sort_bands received in
    record t {
      received = received;
      snapshot = record t.snapshot {
        received_rows = total_rows bands;
        complete = total_rows bands == height;
        revision = suc t.snapshot.revision;
        bands = bands;
      };
    }

abbrev pub store_band : DecodedBand → ImageTransfer → ImageTransfer
store_band b t =
    if repeats (get_band b.y t.received) b
    then t
    else show_bands b.height (set_band (transfer_band b) t.received) t

abbrev pub accept_band : Result ImageError DecodedBand → ImageTransfer → ImageTransfer
accept_band (err e) t = t
accept_band (ok b) t = store_band b (if of_transfer b t.snapshot then t else begin_picture b t)

unfoldable pub accept : Zlib → String → List ℕ → ImageTransfer → ImageTransfer
accept z address frame t =
    if is_a t.role || not (same_text address t.peer_ipv6)
    then t
    else accept_band (decode_image_band z frame) t

-- `close`, after which the socket delivers nothing.
abbrev pub close_transfer : ImageTransfer → ImageTransfer
close_transfer t = record t { closed = true }
