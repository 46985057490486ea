-- ===== src/Fas1/Settings/Injective.antt =====
-- `canonicalizeSettings` on settings that it gives the same bytes.
use fipwave.Common.{
  ℕ, ◌+◌, ◌*◌, ◌<◌, ◌≤◌, ◌≡◌, refl, sym, ap, ap₂, ◌∙◌, subst, arith, not, true, false, ltb, ◌||◌,
  List, [], ◌∷◌, ◌++◌, length, drop, some, ok, fail_if_ok, >>=_ok, ok-injective, fail_if, or_fail,
  ◌>>=◌, ◌>>◌, none, Bool, if◌then◌else◌,
}
use fipwave.Common.Bytes.{le_bytes, le_value, get_uint, le_value-le_bytes}
use fipwave.Common.Texts.{same_text, same_text_iff}
use fipwave.Fas1.{
  profile_unsupported, payload_range, payload_invalid, repetition_range, repetition_invalid,
  guard_range, guard_invalid, ack_timeout_range, ack_timeout_invalid,
}
use mathlib.Core.List.{append-nil}
use Prim.Native.String.{String}
use fipwave.Fas1.Settings.Gain.{gain_bounds, thousandfold_near}
use fipwave.Fas1.Settings.{
  AcousticProfile, quiet_profile, thousandfold, gain_thousandths, bad_gain, DirectionalSettings,
  AcousticSettings, encode_text, resolve_acoustic_profile, direction_bytes, canonicalize_direction,
  canonicalize_settings,
}

-- The settings of one direction that are in range, of the one profile.
pub record InRange (d : DirectionalSettings) : Type 0 where
  pub profile : d.profile_id ≡ "quiet-audible-7k-v1"
  pub payload_low : 0 < d.payload_bytes
  pub payload_high : d.payload_bytes ≤ 217
  pub repetition_low : 0 < d.repetition
  pub repetition_high : d.repetition ≤ 3
  pub guard_low : 0 < d.guard_ms
  pub guard_high : d.guard_ms ≤ 5000
  pub gain_low : 4503599627370496 ≤ d.playback_gain
  pub gain_high : d.playback_gain ≤ 9007199254740992
  pub gain_whole :
      thousandfold d.playback_gain ≡ gain_thousandths d.playback_gain * 4503599627370496
  pub timeout_low : 4000 ≤ d.ack_timeout_ms
  pub timeout_high : d.ack_timeout_ms ≤ 15000

resolve_lem :
    (id : String) (m : AcousticProfile)
    → resolve_acoustic_profile id ≡ ok m
    → id ≡ "quiet-audible-7k-v1"
unfolding resolve_acoustic_profile
resolve_lem id m h = sym ((same_text_iff "quiet-audible-7k-v1" id).0 (found _ refl h))
  where
    found :
        (b : Bool)
        → same_text "quiet-audible-7k-v1" id ≡ b
        → (or_fail (if b then some quiet_profile else none) profile_unsupported
            >>= (λ (profile : AcousticProfile).
                fail_if
                  (not (same_text profile.transmit_implementation profile.receive_implementation))
                  profile_unsupported
                >> ok profile))
          ≡ ok m
        → same_text "quiet-audible-7k-v1" id ≡ true
    found true e h = e
    found false e h = cc

bounds : (n low high : ℕ) → ltb high n ≡ false → ltb n low ≡ false → (low ≤ n) × (n ≤ high)
bounds n low high h k = ground arith

canonical_direction :
    (d : DirectionalSettings) (bytes : List ℕ)
    → canonicalize_direction d ≡ ok bytes
    → InRange d × (direction_bytes d ≡ bytes)
unfolding canonicalize_direction
canonical_direction d bytes h =
    let (_, resolved, h0) = >>=_ok (resolve_acoustic_profile d.profile_id >>= λ _. ok tt) _ h in
    let (m, profile, _) = >>=_ok (resolve_acoustic_profile d.profile_id) _ resolved in
    let h1 =
      fail_if_ok
        (ltb (length (encode_text d.profile_id)) 1 || ltb 63 (length (encode_text d.profile_id))) _
        _ h0 in
    let h2 = fail_if_ok (ltb 217 d.payload_bytes) payload_range _ h1.1 in
    let h3 = fail_if_ok (ltb d.payload_bytes 1) payload_invalid _ h2.1 in
    let h4 = fail_if_ok (ltb 3 d.repetition) repetition_range _ h3.1 in
    let h5 = fail_if_ok (ltb d.repetition 1) repetition_invalid _ h4.1 in
    let h6 = fail_if_ok (ltb 5000 d.guard_ms) guard_range _ h5.1 in
    let h7 = fail_if_ok (ltb d.guard_ms 1) guard_invalid _ h6.1 in
    let h8 = fail_if_ok (bad_gain d.playback_gain) _ _ h7.1 in
    let h9 = fail_if_ok (ltb 15000 d.ack_timeout_ms) ack_timeout_range _ h8.1 in
    let h10 = fail_if_ok (ltb d.ack_timeout_ms 4000) ack_timeout_invalid _ h9.1 in
    let payload = bounds d.payload_bytes 1 217 h2.0 h3.0 in
    let repetition = bounds d.repetition 1 3 h4.0 h5.0 in
    let guard = bounds d.guard_ms 1 5000 h6.0 h7.0 in
    let gain = gain_bounds d.playback_gain h8.0 in
    let timeout = bounds d.ack_timeout_ms 4000 15000 h9.0 h10.0 in
    (
      record {
        profile = resolve_lem d.profile_id m profile;
        payload_low = payload.0;
        payload_high = payload.1;
        repetition_low = repetition.0;
        repetition_high = repetition.1;
        guard_low = guard.0;
        guard_high = guard.1;
        gain_low = gain.0;
        gain_high = gain.1;
        gain_whole = gain.2;
        timeout_low = timeout.0;
        timeout_high = timeout.1;
      },
      ok-injective h10.1,
    )

-- The bytes of a direction in the one profile, and what they are read as.
fixed_bytes : DirectionalSettings → List ℕ
fixed_bytes d = direction_bytes (record {
  profile_id = "quiet-audible-7k-v1";
  payload_bytes = d.payload_bytes;
  repetition = d.repetition;
  guard_ms = d.guard_ms;
  playback_gain = d.playback_gain;
  ack_timeout_ms = d.ack_timeout_ms;
})

-- What the bytes of a direction say of it.
record Written : Type 0 where
  profile_id : String
  payload_bytes : ℕ
  repetition : ℕ
  guard_ms : ℕ
  thousandths : ℕ
  ack_timeout_ms : ℕ

written : DirectionalSettings → Written
written d = record {
  profile_id = d.profile_id;
  payload_bytes = d.payload_bytes;
  repetition = d.repetition;
  guard_ms = d.guard_ms;
  thousandths = gain_thousandths d.playback_gain;
  ack_timeout_ms = d.ack_timeout_ms;
}

read_direction : List ℕ → Written
read_direction bytes = record {
  profile_id = "quiet-audible-7k-v1";
  payload_bytes = get_uint 2 20 bytes;
  repetition = get_uint 1 22 bytes;
  guard_ms = get_uint 2 23 bytes;
  thousandths = get_uint 2 25 bytes;
  ack_timeout_ms = get_uint 2 27 bytes;
}

bytes_fixed : (d : DirectionalSettings) → InRange d → direction_bytes d ≡ fixed_bytes d
unfolding direction_bytes fixed_bytes
bytes_fixed d r = rw (r.profile) refl

thousandths_fit : (d : DirectionalSettings) → InRange d → gain_thousandths d.playback_gain < 65536
thousandths_fit d r =
    omega (arith, r.gain_whole, r.gain_high, (thousandfold_near d.playback_gain).1)

-- The first direction of some settings is read whatever follows it.
direction_read :
    (d : DirectionalSettings) (rest : List ℕ)
    → InRange d
    → read_direction (fixed_bytes d ++ rest) ≡ written d
unfolding fixed_bytes direction_bytes read_direction written le_bytes le_value get_uint
direction_read d rest r = λ i. record {
  profile_id = sym r.profile i;
  payload_bytes = le_value-le_bytes 2 d.payload_bytes (omega (arith, r.payload_high)) i;
  repetition = le_value-le_bytes 1 d.repetition (omega (arith, r.repetition_high)) i;
  guard_ms = le_value-le_bytes 2 d.guard_ms (omega (arith, r.guard_high)) i;
  thousandths = le_value-le_bytes 2 (gain_thousandths d.playback_gain) (thousandths_fit d r) i;
  ack_timeout_ms = le_value-le_bytes 2 d.ack_timeout_ms (omega (arith, r.timeout_high)) i;
}

direction_skipped :
    (d : DirectionalSettings) (rest : List ℕ) → drop 29 (fixed_bytes d ++ rest) ≡ rest
unfolding fixed_bytes direction_bytes le_bytes
direction_skipped d rest = refl

-- Two directions with the same bytes: they agree but for the gains, of which one is the other or the
-- next double to it.
pub record Same (d e : DirectionalSettings) : Type 0 where
  pub profile : d.profile_id ≡ e.profile_id
  pub payload : d.payload_bytes ≡ e.payload_bytes
  pub repetition : d.repetition ≡ e.repetition
  pub guard : d.guard_ms ≡ e.guard_ms
  pub timeout : d.ack_timeout_ms ≡ e.ack_timeout_ms
  pub thousandths : gain_thousandths d.playback_gain ≡ gain_thousandths e.playback_gain
  pub gain_below : d.playback_gain ≤ e.playback_gain + 1
  pub gain_above : e.playback_gain ≤ d.playback_gain + 1

written-Same :
    (d e : DirectionalSettings) → InRange d → InRange e → written d ≡ written e → Same d e
unfolding written
written-Same d e r q h =
    let gains : gain_thousandths d.playback_gain ≡ gain_thousandths e.playback_gain =
      ap (λ (w : Written). w.thousandths) h in
    let near_d = thousandfold_near d.playback_gain in
    let near_e = thousandfold_near e.playback_gain in
    record {
      profile = ap (λ (w : Written). w.profile_id) h;
      payload = ap (λ (w : Written). w.payload_bytes) h;
      repetition = ap (λ (w : Written). w.repetition) h;
      guard = ap (λ (w : Written). w.guard_ms) h;
      timeout = ap (λ (w : Written). w.ack_timeout_ms) h;
      thousandths = gains;
      gain_below = omega (arith, gains, near_d.0, near_e.1, r.gain_whole, q.gain_whole);
      gain_above = omega (arith, gains, near_d.1, near_e.0, r.gain_whole, q.gain_whole);
    }

-- The bytes are read as both directions.
record Read (s : AcousticSettings) (bytes : List ℕ) : Type 0 where
  first : read_direction (drop 1 bytes) ≡ written s.a_to_b
  second : read_direction (drop 30 bytes) ≡ written s.b_to_a
  first_InRange : InRange s.a_to_b
  second_InRange : InRange s.b_to_a

settings-Read :
    (s : AcousticSettings) (bytes : List ℕ) → canonicalize_settings s ≡ ok bytes → Read s bytes
unfolding canonicalize_settings
settings-Read s bytes h =
    let (a, first, h1) = >>=_ok (canonicalize_direction s.a_to_b) _ h in
    let (b, second, h2) = >>=_ok (canonicalize_direction s.b_to_a) _ h1 in
    let (ra, ea) = canonical_direction s.a_to_b a first in
    let (rb, eb) = canonical_direction s.b_to_a b second in
    let fa = sym (bytes_fixed s.a_to_b ra) ∙ ea in
    let fb = sym (bytes_fixed s.b_to_a rb) ∙ eb in
    let whole : 1 ∷ (fixed_bytes s.a_to_b ++ (fixed_bytes s.b_to_a ++ [])) ≡ bytes =
      ap₂ (λ (x y : List ℕ). 1 ∷ (x ++ y)) fa (append-nil (fixed_bytes s.b_to_a) ∙ fb)
      ∙ ok-injective h2 in
    subst (Read s) whole (record {
      first = direction_read s.a_to_b (fixed_bytes s.b_to_a ++ []) ra;
      second =
          ap read_direction (direction_skipped s.a_to_b (fixed_bytes s.b_to_a ++ []))
          ∙ direction_read s.b_to_a [] rb;
      first_InRange = ra;
      second_InRange = rb;
    })

-- Where `canonicalizeSettings` gives two settings the same bytes, their directions agree in the
-- profile, the payload, the repetition, the guard and the timeout, the gains are written as the same
-- number of thousandths, and each of them is the other or the next double to it.
pub canonicalize_settings-Same :
    (s t : AcousticSettings) (bytes : List ℕ)
    → canonicalize_settings s ≡ ok bytes
    → canonicalize_settings t ≡ ok bytes
    → Same s.a_to_b t.a_to_b × Same s.b_to_a t.b_to_a
canonicalize_settings-Same s t bytes h k =
    let u = settings-Read s bytes h in
    let v = settings-Read t bytes k in
    (
      written-Same s.a_to_b t.a_to_b u.first_InRange v.first_InRange (sym u.first ∙ v.first),
      written-Same s.b_to_a t.b_to_a u.second_InRange v.second_InRange (sym u.second ∙ v.second),
    )
