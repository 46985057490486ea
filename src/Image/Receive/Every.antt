-- ===== src/Image/Receive/Every.antt =====
-- `accept` of image-transfer.ts on all bands of a picture.
use fipwave.Common.{
  ℕ, ◌≤◌, ◌≡◌, refl, sym, ap, ◌∙◌, arith, subst, Bool, true, false, List, [], ◌∷◌, All, some, ok,
  ok-injective,
}
use mathlib.Core.List.{Memᴰ}
use Prim.Native.String.{String}
use fipwave.Common.Texts.{same_text}
use fipwave.Image.{Zlib, DecodedBand, ImageTransferBand}
use fipwave.Image.Band.{decode_image_band}
use fipwave.Image.Send.{is_a}
use fipwave.Image.Receive.{
  ImageTransfer, same_id, total_rows, of_transfer, begin_picture, store_band, accept,
}
use fipwave.Image.Receive.Placed.{Rising, kept, also}
use fipwave.Image.Receive.Arrivals.{same_bytes_refl, Picture, Showing, Of, store_band-Showing}

-- Node B, whose peer has the address.
abbrev pub Listens : String → ImageTransfer → Type 0
Listens address t = (is_a t.role ≡ false) × (same_text address t.peer_ipv6 ≡ true)

-- Datagrams from an address come in, one after the other.
abbrev pub accept_all : Zlib → String → List (List ℕ) → ImageTransfer → ImageTransfer
accept_all z address [] t = t
accept_all z address (f ∷ fs) t = accept_all z address fs (accept z address f t)

-- The datagram holds a band of the picture.
abbrev pub Comes : Zlib → Picture → List ℕ → Type 0
Comes z p f = (b : DecodedBand) × (decode_image_band z f ≡ ok b) × Of p b

module _ (z : Zlib) (address : String) where
  accept-Listens :
      (f : List ℕ) (t : ImageTransfer) → Listens address t → Listens address (accept z address f t)
  unfolding accept
  accept-Listens f t l = ground (arith, l.0, l.1)

  accept_ok :
      (f : List ℕ) (b : DecodedBand) (t : ImageTransfer)
      → Listens address t
      → decode_image_band z f ≡ ok b
      → of_transfer b t.snapshot ≡ true
      → accept z address f t ≡ store_band b t
  unfolding accept
  accept_ok f b t l e same = rw (l.0, l.1, e, same) refl

  accept_other :
      (f : List ℕ) (b : DecodedBand) (t : ImageTransfer)
      → Listens address t
      → decode_image_band z f ≡ ok b
      → of_transfer b t.snapshot ≡ false
      → accept z address f t ≡ store_band b (begin_picture b t)
  unfolding accept
  accept_other f b t l e other = rw (l.0, l.1, e, other) refl

of_transfer-Showing :
    (p : Picture) (come : ℕ → Bool) (b : DecodedBand) (t : ImageTransfer)
    → Of p b
    → Showing p come t
    → of_transfer b t.snapshot ≡ true
of_transfer-Showing p come b t of s =
    rw (s.id, s.width, s.height, of.id, of.width, of.height) (ground (arith, same_bytes_refl p.id))

module _ (z : Zlib) (address : String) (p : Picture) (rising : Rising 0 p.bands) where
  -- The rows whose bands have come, after further datagrams.
  record Come (come : ℕ → Bool) (frames : List (List ℕ)) (t : ImageTransfer) : Type 0 where
    now : ℕ → Bool
    showing : Showing p now (accept_all z address frames t)
    lasting : (y : ℕ) → come y ≡ true → now y ≡ true
    new :
        (f : List ℕ) (b : DecodedBand)
        → Memᴰ f frames
        → decode_image_band z f ≡ ok b
        → now b.y ≡ true

  come_also : (k y : ℕ) (come : ℕ → Bool) → come y ≡ true → also k come y ≡ true
  come_also k y come e = rw (e) refl

  also_self : (k : ℕ) (come : ℕ → Bool) → also k come k ≡ true
  also_self k come = ground arith

  one_more-Come :
      (come : ℕ → Bool) (f : List ℕ) (fs : List (List ℕ)) (t : ImageTransfer) (b : DecodedBand)
      → decode_image_band z f ≡ ok b
      → Come (also b.y come) fs (accept z address f t)
      → Come come (f ∷ fs) t
  one_more-Come come f fs t b e c = record {
    now = c.now;
    showing = c.showing;
    lasting = λ y h. c.lasting y (come_also b.y y come h);
    new = new;
  }
    where
      at : (g : List ℕ) (d : DecodedBand) → g ≡ f → decode_image_band z g ≡ ok d → c.now d.y ≡ true
      at g d same e' =
          let band : b ≡ d = ok-injective (sym e ∙ ap (decode_image_band z) (sym same) ∙ e') in
          subst (λ (x : DecodedBand). c.now x.y ≡ true) band (c.lasting b.y (also_self b.y come))

      new :
          (g : List ℕ) (d : DecodedBand)
          → Memᴰ g (f ∷ fs)
          → decode_image_band z g ≡ ok d
          → c.now d.y ≡ true
      new g d (Memᴰ.head same) e' = at g d same e'
      new g d (Memᴰ.tail m) e' = c.new g d m e'

  all-Come :
      (come : ℕ → Bool) (fs : List (List ℕ)) (t : ImageTransfer)
      → All (Comes z p) fs
      → Listens address t
      → Showing p come t
      → Come come fs t
  all-Come come [] t a l s = record {
    now = come;
    showing = s;
    lasting = λ y h. h;
    new = λ f b m e. elim m [ ];
  }
  all-Come come (f ∷ fs) t a l s =
      let (b, e, of) = a.0 in
      let stored = accept_ok z address f b t l e (of_transfer-Showing p come b t of s) in
      one_more-Come come f fs t b e (
        all-Come (also b.y come) fs (accept z address f t) a.1 (accept-Listens z address f t l) (
          subst (Showing p (also b.y come)) (sym stored)
            (store_band-Showing p rising b of come t s)))

  begun_picture :
      (b : DecodedBand) (t : ImageTransfer)
      → Of p b
      → 1 ≤ p.height
      → Showing p (λ y. false) (begin_picture b t)
  begun_picture b t of tall = record {
    id = ap some of.id;
    width = of.width;
    height = of.height;
    received = sym (nothing p.bands);
    bands = sym (nothing p.bands);
    rows = ap total_rows (sym (nothing p.bands));
    complete = rw (nothing p.bands) (ground (arith, tall));
  }
    where
      nothing : (xs : List ImageTransferBand) → kept (λ y. false) xs ≡ []
      nothing [] = refl
      nothing (x ∷ xs) = nothing xs

  -- From another picture on.
  Come-first :
      (f : List ℕ) (fs : List (List ℕ)) (t : ImageTransfer)
      → All (Comes z p) (f ∷ fs)
      → Listens address t
      → same_id t.snapshot.transfer_id p.id ≡ false
      → 1 ≤ p.height
      → Come (λ y. false) (f ∷ fs) t
  Come-first f fs t a l other tall =
      let (b, e, of) = a.0 in
      let stored = accept_other z address f b t l e (rw (of.id, other) refl) in
      one_more-Come (λ y. false) f fs t b e
        (all-Come (also b.y (λ y. false)) fs (accept z address f t) a.1
          (accept-Listens z address f t l)
          (subst (Showing p (also b.y (λ y. false))) (sym stored) (
            store_band-Showing p rising b of (λ y. false) (begin_picture b t)
              (begun_picture b t of tall))))

kept-all :
    (come : ℕ → Bool) (xs : List ImageTransferBand)
    → ((x : ImageTransferBand) → Memᴰ x xs → come x.y ≡ true)
    → kept come xs ≡ xs
kept-all come [] h = refl
kept-all come (x ∷ xs) h =
    rw (h x (Memᴰ.head refl)) (ap (◌∷◌ x) (kept-all come xs (λ y m. h y (Memᴰ.tail m))))

-- Each band of the picture is in one of the datagrams.
abbrev pub Covers : Zlib → Picture → List (List ℕ) → Type 0
Covers z p frames =
    (x : ImageTransferBand)
    → Memᴰ x p.bands
    → (f : List ℕ) × (b : DecodedBand) × Memᴰ f frames
      × (decode_image_band z f ≡ ok b)
      × (b.y ≡ x.y)

-- The snapshot shows the whole picture.
pub record Complete (p : Picture) (t : ImageTransfer) : Type 0 where
  pub id : t.snapshot.transfer_id ≡ some p.id
  pub width : t.snapshot.width ≡ p.width
  pub height : t.snapshot.height ≡ p.height
  pub bands : t.snapshot.bands ≡ p.bands
  pub rows : t.snapshot.received_rows ≡ p.height
  pub complete : t.snapshot.complete ≡ true

Showing-Complete :
    (p : Picture) (come : ℕ → Bool) (t : ImageTransfer)
    → Showing p come t
    → kept come p.bands ≡ p.bands
    → total_rows p.bands ≡ p.height
    → Complete p t
Showing-Complete p come t s all total = record {
  id = s.id;
  width = s.width;
  height = s.height;
  bands = s.bands ∙ all;
  rows = s.rows ∙ ap total_rows all ∙ total;
  complete = s.complete ∙ rw (all, total) (ground arith);
}

pub accept_all-Complete :
    (z : Zlib) (address : String) (p : Picture)
    → Rising 0 p.bands
    → total_rows p.bands ≡ p.height
    → 1 ≤ p.height
    → (frames : List (List ℕ)) → All (Comes z p) frames
    → Covers z p frames
    → (t : ImageTransfer) → Listens address t
    → same_id t.snapshot.transfer_id p.id ≡ false
    → Complete p (accept_all z address frames t)
accept_all-Complete z address p rising total tall [] a covers t l other =
    absurd (no_bands p.bands total covers)
  where
    no_bands :
        (xs : List ImageTransferBand)
        → total_rows xs ≡ p.height
        → ((x : ImageTransferBand)
            → Memᴰ x xs
            → (f : List ℕ) × (b : DecodedBand) × Memᴰ f []
              × (decode_image_band z f ≡ ok b)
              × (b.y ≡ x.y))
        → ⊥
    no_bands [] total covers = omega arith
    no_bands (x ∷ xs) total covers = elim (covers x (Memᴰ.head refl)).2 [ ]
accept_all-Complete z address p rising total tall (f ∷ fs) a covers t l other =
    let c = Come-first z address p rising f fs t a l other tall in
    Showing-Complete p c.now (accept_all z address (f ∷ fs) t) c.showing
      (kept-all c.now p.bands (λ x m.
        let (g, b, m', e, row) = covers x m in
        subst (λ (y : ℕ). c.now y ≡ true) row (c.new g b m' e)))
      total
