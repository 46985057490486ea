-- ===== src/Fwav/Frame/RoundTrip.antt =====
-- What `encodeFrame` writes, `decodeFrame` reads.
use fipwave.Common.{
  ℕ, ◌+◌, ◌*◌, ◌/◌, ◌%◌, ◌<◌, ◌≤◌, ◌^◌, ◌≡◌, refl, sym, ap, subst, ◌∙◌, arith, true, false,
  if◌then◌else◌, none, some, List, ◌∷◌, ◌++◌, length, Bool-cases, inl, inr, ok, >>=_ok,
  ok-injective,
}
use fipwave.Common.Bytes.{le_bytes, le_value, get_uint, le_value-le_bytes}
use fipwave.Fwav.{
  MessageType, hello, fips_packet, FwavFrame, ValidFrame, message_code, message_type_of,
}
use fipwave.Fwav.Frame.{
  is_fips, or_default, with_defaults, validate_frame, write_class_or_flags, write_frame,
  encode_frame, read_frame, decode_frame,
}
use fipwave.Fwav.Frame.Defaults.{as_frame, validate_again}
use fipwave.Fwav.Frame.Legal.{IsLegal, ClassFits, validate-IsLegal, validate_legal, FormatFits}

-- A frame whose bytes 6 and 7 are `p` and `q`.
unfoldable pub frame : ValidFrame → ℕ → ℕ → List ℕ
frame v p q =
    0x46
    ∷ 0x57
    ∷ 0x41
    ∷ 0x56
    ∷ 1
    ∷ message_code v.type
    ∷ p
    ∷ q
    ∷ (le_bytes 4 (length v.payload)
        ++ (le_bytes 4 v.epoch
            ++ (le_bytes 8 v.sequence
                ++ (le_bytes 4 v.sample_rate
                    ++ (le_bytes 2 v.channels ++ (le_bytes 2 v.encoding ++ v.payload))))))

-- Each number of the frame fits its field.
pub record FitsHeader (v : ValidFrame) : Type 0 where
  pub flags : v.flags < 2 ^ 16
  pub epoch : v.epoch < 2 ^ 32
  pub sequence : v.sequence < 2 ^ 64
  pub rate : v.sample_rate < 2 ^ 32
  pub channels : v.channels < 2 ^ 16
  pub encoding : v.encoding < 2 ^ 16
  pub payload : length v.payload ≤ 262112

pcm_fits :
    (t : MessageType) (f : FwavFrame)
    → FormatFits t f
    → (or_default f.sample_rate 0 < 2 ^ 32)
      × (or_default f.channels 0 < 2 ^ 16)
      × (or_default f.encoding 0 < 2 ^ 16)
pcm_fits MessageType.pcm_capture f h = (h.rate_fits, h.channels_fit, omega arith)
pcm_fits MessageType.pcm_playback f h = (h.rate_fits, h.channels_fit, omega arith)
pcm_fits hello f h = (omega arith, omega arith, omega arith)
pcm_fits _ f h = (omega arith, omega arith, omega arith)

pub legal-FitsHeader : (f : FwavFrame) → IsLegal f → FitsHeader (with_defaults f)
unfolding with_defaults
legal-FitsHeader f l =
    let format = pcm_fits f.type f l.format in
    record {
      flags = l.fits.flags;
      epoch = l.fits.epoch;
      sequence = l.fits.sequence;
      rate = format.0;
      channels = format.1;
      encoding = format.2;
      payload = l.fits.payload;
    }

type_read : (t : MessageType) → message_type_of (message_code t + 0) ≡ some t
unfolding message_type_of message_code
type_read hello = refl
type_read t = refl

-- The two bytes hold the traffic class of a FIPS packet, or the flags.
pub record Holds (v : ValidFrame) (p q : ℕ) : Type 0 where
  pub flags : (if is_fips v.type then (q + 0) * 256 else (p + 256 * (q + 0))) ≡ v.flags
  pub class : (if is_fips v.type then some (p + 0) else none) ≡ v.traffic_class

frame_read :
    (v : ValidFrame) (p q : ℕ)
    → FitsHeader v
    → Holds v p q
    → read_frame v.type (frame v p q) ≡ as_frame v
unfolding frame le_bytes get_uint le_value read_frame as_frame
frame_read v p q f h = λ i. record {
  type = v.type;
  flags = some (h.flags i);
  traffic_class = h.class i;
  epoch = le_value-le_bytes 4 v.epoch f.epoch i;
  sequence = le_value-le_bytes 8 v.sequence f.sequence i;
  sample_rate = some (le_value-le_bytes 4 v.sample_rate f.rate i);
  channels = some (le_value-le_bytes 2 v.channels f.channels i);
  encoding = some (le_value-le_bytes 2 v.encoding f.encoding i);
  payload = v.payload;
}

length-frame : (v : ValidFrame) (p q : ℕ) → length (frame v p q) ≡ 32 + length v.payload
unfolding frame le_bytes
length-frame v p q = omega arith

frame_start :
    (v : ValidFrame) (p q : ℕ)
    → (get_uint 1 0 (frame v p q) ≡ 0x46)
      × (get_uint 1 1 (frame v p q) ≡ 0x57)
      × (get_uint 1 2 (frame v p q) ≡ 0x41)
      × (get_uint 1 3 (frame v p q) ≡ 0x56)
      × (get_uint 1 4 (frame v p q) ≡ 1)
      × (get_uint 1 5 (frame v p q) ≡ message_code v.type + 0)
unfolding frame le_bytes get_uint le_value
frame_start v p q = (refl, refl, refl, refl, refl, refl)

frame_payload :
    (v : ValidFrame) (p q : ℕ) → FitsHeader v → get_uint 4 8 (frame v p q) ≡ length v.payload
unfolding frame le_bytes get_uint le_value
frame_payload v p q f = le_value-le_bytes 4 (length v.payload) (omega arith)

pub decode-frame :
    (v : ValidFrame) (p q : ℕ)
    → FitsHeader v
    → Holds v p q
    → decode_frame (frame v p q) ≡ validate_frame (as_frame v)
unfolding decode_frame
decode-frame v p q f h =
    let m = frame_start v p q in
    rw
      (
        length-frame v p q,
        m.0,
        m.1,
        m.2,
        m.3,
        m.4,
        m.5,
        type_read v.type,
        frame_payload v p q f,
        frame_read v p q f h,
      )
      (ground (arith, f.payload))

pub class_fips :
    (t : MessageType) (f : FwavFrame) → ClassFits t f → is_fips t ≡ true → or_default f.flags 0 ≡ 0
unfolding is_fips
class_fips fips_packet f h e = h.0
class_fips hello f h e = cc
class_fips _ f h e = cc

class_other :
    (t : MessageType) (f : FwavFrame) → ClassFits t f → is_fips t ≡ false → f.traffic_class ≡ none
unfolding is_fips
class_other fips_packet f h e = cc
class_other hello f h e = h
class_other _ f h e = h

-- Bytes 6 and 7 of the frame of a legal FIPS packet, and of another legal frame.
written_fips :
    (f : FwavFrame)
    → IsLegal f
    → is_fips f.type ≡ true
    → (p q : ℕ) × Holds (with_defaults f) p q
      × (write_frame (with_defaults f) ≡ frame (with_defaults f) p q)
unfolding write_frame write_class_or_flags frame with_defaults
written_fips f l e =
    let flags = class_fips f.type f l.class e in
    (
      or_default f.traffic_class 3,
      0,
      record { flags = rw (e) (sym flags); class = rw (e) (ap (λ (n : ℕ). some n) (omega arith)) },
      rw (e) refl,
    )

written_other :
    (f : FwavFrame)
    → IsLegal f
    → is_fips f.type ≡ false
    → (p q : ℕ) × Holds (with_defaults f) p q
      × (write_frame (with_defaults f) ≡ frame (with_defaults f) p q)
unfolding write_frame write_class_or_flags frame with_defaults le_bytes
written_other f l e =
    let n = or_default f.flags 0 in
    let small : n < 2 ^ 16 = l.fits.flags in
    (
      n % 256,
      n / 256 % 256,
      record {
        flags = rw (e) (omega arith);
        class = rw (e) (sym (class_other f.type f l.class e));
      },
      rw (e) refl,
    )

written :
    (f : FwavFrame)
    → IsLegal f
    → (p q : ℕ) × Holds (with_defaults f) p q
      × (write_frame (with_defaults f) ≡ frame (with_defaults f) p q)
written f l = elim (Bool-cases (is_fips f.type)) [
  | inl e ↦ written_fips f l e
  | inr e ↦ written_other f l e
]

-- A frame that `encodeFrame` writes is one that `validateFrame` accepts, and `decodeFrame` reads it
-- as what `validateFrame` returns for it: the same frame, with its defaults filled in.
pub decode_frame-encode_frame :
    (f : FwavFrame) (bytes : List ℕ)
    → encode_frame f ≡ ok bytes
    → (decode_frame bytes ≡ validate_frame f) × (validate_frame f ≡ ok (with_defaults f))
unfolding encode_frame
decode_frame-encode_frame f bytes e =
    let (v, valid, wrote) = >>=_ok (validate_frame f) _ e in
    let (l, same) = validate-IsLegal f v valid in
    let (p, q, holds, framed) = written f l in
    let bytes_eq : frame (with_defaults f) p q ≡ bytes =
      sym framed ∙ ap write_frame same ∙ ok-injective wrote in
    let legal = validate_legal f l in
    (
      subst (λ b. decode_frame b ≡ validate_frame f) bytes_eq
          (decode-frame (with_defaults f) p q (legal-FitsHeader f l) holds
            ∙ validate_again f l
            ∙ sym legal),
      legal,
    )
