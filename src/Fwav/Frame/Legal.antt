-- ===== src/Fwav/Frame/Legal.antt =====
-- `validateFrame` against a description of the legal frames.
use fipwave.Common.{
  ℕ, zero, ◌-◌, ◌*◌, ◌%◌, ◌<◌, ◌≤◌, ◌^◌, ◌≡◌, ◌↔◌, ◌⊎◌, refl, arith, Bool, true, false, ◌==◌, ◌!=◌,
  ◌||◌, fail_if, none, List, [], ◌∷◌, length, All, every, get_or, Result, ok, ◌>>◌, >>=_ok,
  ok-injective, ap, ◌∙◌,
}
use fipwave.Common.Bytes.{get_uint}
use fipwave.Fwav.{
  MessageType, hello, pcm_capture, pcm_playback, fips_packet, acoustic_ready, acoustic_disarm,
  fips_packet_admission, FwavFrame, ValidFrame, FwavError, proof_size, proof_invalid,
}
use fipwave.Fwav.Proof.{
  AcousticReadinessProof, subarray, read_readiness_proof, decode_acoustic_readiness_proof,
  decode_fips_packet_admission,
}
use fipwave.Fwav.Pcm.{decode_pcm_payload}
use fipwave.Fwav.Frame.{
  is_fips, is_pcm, or_default, check, validate_sizes, validate_class, validate_control,
  validate_format, with_defaults, validate_frame,
}

-- Each field fits the width that the header gives it, and the payload the message.
pub record FitsEnvelope (f : FwavFrame) : Type 0 where
  pub flags : or_default f.flags 0 < 2 ^ 16
  pub epoch : f.epoch < 2 ^ 32
  pub sequence : f.sequence < 2 ^ 64
  pub payload : length f.payload ≤ 262112

-- A FIPS packet may have one of the three traffic classes, and no flags; no other frame has one.
abbrev pub ClassFits : MessageType → FwavFrame → Type 0
ClassFits fips_packet f =
    (or_default f.flags 0 ≡ 0)
    × (0 < or_default f.traffic_class 3)
    × (or_default f.traffic_class 3 ≤ 3)
ClassFits _ f = f.traffic_class ≡ none

abbrev pub IsZero : ℕ → Type 0
IsZero b = b ≡ 0

-- A session number that is not zero, a digest and a capability that are not all zero.
pub record IsReadinessProof (payload : List ℕ) : Type 0 where
  pub size : length payload ≡ 64
  pub session : 0 < get_uint 8 0 payload
  pub digest : ¬ All IsZero (subarray 8 40 payload)
  pub capability : ¬ All IsZero (subarray 48 64 payload)

abbrev pub ControlFits : MessageType → FwavFrame → Type 0
ControlFits acoustic_ready f =
    (or_default f.flags 0 ≡ 0) × (f.sequence ≡ 0) × IsReadinessProof f.payload
ControlFits acoustic_disarm f =
    (or_default f.flags 0 ≡ 0) × (f.sequence ≡ 0) × (length f.payload ≡ 16)
ControlFits fips_packet_admission f =
    (or_default f.flags 0 ≡ 0)
    × (length f.payload ≡ 1)
    × ((get_or f.payload 0 0 ≡ 1) ⊎ (get_or f.payload 0 0 ≡ 2))
ControlFits _ f = Unit {0}

-- Whole samples of some channels, after the sample index.
pub record IsPcm (f : FwavFrame) : Type 0 where
  pub rate : 0 < or_default f.sample_rate 0
  pub rate_fits : or_default f.sample_rate 0 < 2 ^ 32
  pub channels : 0 < or_default f.channels 0
  pub channels_fit : or_default f.channels 0 < 2 ^ 16
  pub encoding : or_default f.encoding 0 ≡ 1
  pub indexed : 8 < length f.payload
  pub aligned : (length f.payload - 8) % (4 * or_default f.channels 0) ≡ 0

pub record NoPcm (f : FwavFrame) : Type 0 where
  pub rate : or_default f.sample_rate 0 ≡ 0
  pub channels : or_default f.channels 0 ≡ 0
  pub encoding : or_default f.encoding 0 ≡ 0

abbrev pub FormatFits : MessageType → FwavFrame → Type 0
FormatFits pcm_capture f = IsPcm f
FormatFits pcm_playback f = IsPcm f
FormatFits _ f = NoPcm f

pub record IsLegal (f : FwavFrame) : Type 0 where
  pub fits : FitsEnvelope f
  pub class : ClassFits f.type f
  pub control : ControlFits f.type f
  pub format : FormatFits f.type f

every-IsZero : (xs : List ℕ) → (every (λ b. b == 0) xs ≡ true) ↔ All IsZero xs
every-IsZero [] = (λ _. tt, λ _. refl)
every-IsZero (x ∷ xs) = ground (arith, every-IsZero xs)

every-false : (xs : List ℕ) → (every (λ b. b == 0) xs ≡ false) ↔ (¬ All IsZero xs)
every-false xs = ground (arith, every-IsZero xs)

proof_guards :
    (l n : ℕ) (d c : Bool) (p : AcousticReadinessProof)
    → (check (fail_if (l != 64) proof_size >> (fail_if ((n == 0) || d || c) proof_invalid >> ok p))
        ≡ ok tt)
      ↔ ((l ≡ 64) × (0 < n) × (d ≡ false) × (c ≡ false))
proof_guards l n d c p = (λ h. ground arith, λ h. ground arith)

proof_iff :
    (payload : List ℕ)
    → (check (decode_acoustic_readiness_proof payload) ≡ ok tt) ↔ IsReadinessProof payload
unfolding decode_acoustic_readiness_proof read_readiness_proof
proof_iff payload =
    let d = every-false (subarray 8 40 payload) in
    let c = every-false (subarray 48 64 payload) in
    let g =
      proof_guards (length payload) (get_uint 8 0 payload) _ _ (read_readiness_proof payload) in
    (
      λ h.
          let parts = g.0 h in
          record {
            size = parts.0;
            session = parts.1;
            digest = d.0 parts.2;
            capability = c.0 parts.3;
          },
      λ h. g.1 (h.size, h.session, d.1 h.digest, c.1 h.capability),
    )

sizes_iff : (f : FwavFrame) → (validate_sizes f ≡ ok tt) ↔ FitsEnvelope f
unfolding validate_sizes
sizes_iff f = (λ h. ground arith, λ h. ground arith)

class_iff :
    (t : MessageType) (f : FwavFrame) → f.type ≡ t → (validate_class f ≡ ok tt) ↔ ClassFits t f
unfolding validate_class is_fips
class_iff fips_packet f e = (λ h. ground arith, λ h. ground arith)
class_iff hello f e = (λ h. ground arith, λ h. ground arith)
class_iff _ f e = (λ h. ground arith, λ h. ground arith)

admission_iff :
    (payload : List ℕ)
    → (check (decode_fips_packet_admission payload) ≡ ok tt)
      ↔ ((length payload ≡ 1) × ((get_or payload 0 0 ≡ 1) ⊎ (get_or payload 0 0 ≡ 2)))
unfolding decode_fips_packet_admission
admission_iff payload = (λ h. ground arith, λ h. ground arith)

guarded_iff :
    {P : Type 0} (a b : ℕ) (e : FwavError) (k : Result FwavError (Unit {0}))
    → (k ≡ ok tt) ↔ P
    → ((fail_if ((a != 0) || (b != 0)) e >> k) ≡ ok tt) ↔ ((a ≡ 0) × (b ≡ 0) × P)
guarded_iff zero zero e k i = (λ h. (refl, refl, i.0 h), λ h. i.1 h.2)
guarded_iff a b e k i = (λ h. ground arith, λ h. ground arith)

control_iff : (t : MessageType) (f : FwavFrame) → (validate_control t f ≡ ok tt) ↔ ControlFits t f
unfolding validate_control
control_iff acoustic_ready f = guarded_iff _ _ _ _ (proof_iff f.payload)
control_iff acoustic_disarm f = (λ h. ground arith, λ h. ground arith)
control_iff fips_packet_admission f = (
  λ h. ground (arith, (admission_iff f.payload).0),
  λ h. ground (arith, (admission_iff f.payload).1),
)
control_iff hello f = (λ _. tt, λ _. refl)
control_iff _ f = (λ _. tt, λ _. refl)

pcm_iff :
    (payload : List ℕ) (channels : ℕ)
    → (check (decode_pcm_payload payload channels) ≡ ok tt) ↔ (
        (0 < channels)
        × (channels ≤ 0xffff)
        × (8 < length payload)
        × ((length payload - 8) % (4 * channels) ≡ 0))
unfolding decode_pcm_payload
pcm_iff payload channels = (λ h. ground arith, λ h. ground arith)

format_iff :
    (t : MessageType) (f : FwavFrame) → f.type ≡ t → (validate_format f ≡ ok tt) ↔ FormatFits t f
unfolding validate_format is_pcm
format_iff pcm_capture f e = (
  λ h. ground (arith, (pcm_iff f.payload (or_default f.channels 0)).0),
  λ h. ground (arith, (pcm_iff f.payload (or_default f.channels 0)).1),
)
format_iff pcm_playback f e = (
  λ h. ground (arith, (pcm_iff f.payload (or_default f.channels 0)).0),
  λ h. ground (arith, (pcm_iff f.payload (or_default f.channels 0)).1),
)
format_iff hello f e = (λ h. ground arith, λ h. ground arith)
format_iff _ f e = (λ h. ground arith, λ h. ground arith)

pub checks_iff :
    (f : FwavFrame)
    → ((validate_sizes f ≡ ok tt)
        × (validate_class f ≡ ok tt)
        × (validate_control f.type f ≡ ok tt)
        × (validate_format f ≡ ok tt))
      ↔ IsLegal f
checks_iff f = (
  λ h. record {
    fits = (sizes_iff f).0 h.0;
    class = (class_iff f.type f refl).0 h.1;
    control = (control_iff f.type f).0 h.2;
    format = (format_iff f.type f refl).0 h.3;
  },
  λ l. (
    (sizes_iff f).1 l.fits,
    (class_iff f.type f refl).1 l.class,
    (control_iff f.type f).1 l.control,
    (format_iff f.type f refl).1 l.format,
  ),
)

pub validate-IsLegal :
    (f : FwavFrame) (v : ValidFrame) → validate_frame f ≡ ok v → IsLegal f × (with_defaults f ≡ v)
unfolding validate_frame
validate-IsLegal f v h =
    let (_, sizes, rest) = >>=_ok (validate_sizes f) _ h in
    let (_, class, rest) = >>=_ok (validate_class f) _ rest in
    let (_, control, rest) = >>=_ok (validate_control f.type f) _ rest in
    let (_, format, rest) = >>=_ok (validate_format f) _ rest in
    ((checks_iff f).0 (sizes, class, control, format), ok-injective rest)

pub validate_legal : (f : FwavFrame) → IsLegal f → validate_frame f ≡ ok (with_defaults f)
unfolding validate_frame
validate_legal f l = let h = (checks_iff f).1 l in rw (h.0, h.1, h.2, h.3) refl

-- `validateFrame` accepts a frame exactly when the frame fits the envelope and has what its type
-- asks for: a traffic class from 1 to 3 and no flags for FIPS_PACKET and no traffic class for the
-- others, a readiness proof for ACOUSTIC_READY, a 16-byte capability for ACOUSTIC_DISARM, one
-- result byte for FIPS_PACKET_ADMISSION, and a sample format with whole samples for PCM frames and
-- no format for the others; it then returns the frame with its defaults filled in.
pub validate_frame_iff :
    (f : FwavFrame) (v : ValidFrame)
    → (validate_frame f ≡ ok v) ↔ (IsLegal f × (with_defaults f ≡ v))
validate_frame_iff f v = (validate-IsLegal f v, λ l. validate_legal f l.0 ∙ ap ok l.1)
