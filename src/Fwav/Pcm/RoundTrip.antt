-- ===== src/Fwav/Pcm/RoundTrip.antt =====
-- PCM payloads are read as they are written.
use fipwave.Common.{
  ℕ, ◌+◌, ◌-◌, ◌*◌, ◌%◌, ◌<◌, ◌^◌, ◌≡◌, ◌↔◌, sym, ap, ap₂, ◌∙◌, arith, ltb, leb, ◌==◌, ◌!=◌, ◌||◌,
  false, List, ◌++◌, length, length-append, drop, take-append, drop-append, All, ok, fail_if_ok,
  ok-injective, subst, length-drop,
}
use fipwave.Common.Bytes.{
  IsByte, le_bytes, get_uint, length-le_bytes, le_value-le_bytes, get_uint-lt, field,
}
use fipwave.Fwav.Pcm.{encode_pcm_payload, decode_pcm_payload}

-- A positive number of samples for each of the channels, of four bytes each.
pub record WholeSamples (samples : List ℕ) (channels : ℕ) : Type 0 where
  pub some_channels : 0 < channels
  pub few_channels : channels < 2 ^ 16
  pub some_samples : 0 < length samples
  pub aligned : length samples % (4 * channels) ≡ 0

guards_lem :
    (n c : ℕ)
    → ((c == 0) || ltb 0xffff c) ≡ false
    → (leb n 8 || ((n - 8) % (4 * c) != 0)) ≡ false
    → (0 < c) × (c < 2 ^ 16) × (8 < n) × ((n - 8) % (4 * c) ≡ 0)
guards_lem n c h k = ground arith

length_index : (i : ℕ) (samples : List ℕ) → length (le_bytes 8 i ++ samples) - 8 ≡ length samples
length_index i samples = omega (arith, length-append (le_bytes 8 i) samples, length-le_bytes 8 i)

decode_written :
    (i channels : ℕ) (samples : List ℕ)
    → i < 2 ^ 64
    → WholeSamples samples channels
    → decode_pcm_payload (le_bytes 8 i ++ samples) channels ≡ ok (i, samples)
unfolding decode_pcm_payload get_uint
decode_written i channels samples h w =
    let n : length (le_bytes 8 i ++ samples) ≡ 8 + length samples =
      omega (arith, length-append (le_bytes 8 i) samples, length-le_bytes 8 i) in
    let rest : 8 + length samples - 8 ≡ length samples = omega arith in
    rw
      (
        n,
        rest,
        take-append 8 (le_bytes 8 i) samples (length-le_bytes 8 i),
        drop-append 8 (le_bytes 8 i) samples (length-le_bytes 8 i),
        le_value-le_bytes 8 i h,
        w.aligned,
      )
      (ground (arith, w.some_channels, w.few_channels, w.some_samples))

encode_lem :
    (i : ℕ) (samples payload : List ℕ)
    → encode_pcm_payload i samples ≡ ok payload
    → (i < 2 ^ 64) × (le_bytes 8 i ++ samples ≡ payload)
unfolding encode_pcm_payload
encode_lem i samples payload h =
    let first = fail_if_ok (ltb 0xffff_ffff_ffff_ffff i) _ _ h in
    (ground (arith, first.0), ok-injective first.1)

decode_inverse :
    (payload samples : List ℕ) (i channels : ℕ)
    → All IsByte payload
    → decode_pcm_payload payload channels ≡ ok (i, samples)
    → (encode_pcm_payload i samples ≡ ok payload) × WholeSamples samples channels
unfolding decode_pcm_payload encode_pcm_payload
decode_inverse payload samples i channels b h =
    let first = fail_if_ok ((channels == 0) || ltb 0xffff channels) _ _ h in
    let second =
      fail_if_ok (leb (length payload) 8 || ((length payload - 8) % (4 * channels) != 0)) _ _
        first.1 in
    let g = guards_lem (length payload) channels first.0 second.0 in
    let pair : ◌≡◌ {A = ℕ × List ℕ} (get_uint 8 0 payload, drop 8 payload) (i, samples) =
      ok-injective second.1 in
    let index : get_uint 8 0 payload ≡ i = ap (λ (p : ℕ × List ℕ). p.0) pair in
    let rest : drop 8 payload ≡ samples = ap (λ (p : ℕ × List ℕ). p.1) pair in
    let small : i < 2 ^ 64 = omega (arith, get_uint-lt 8 0 payload b) in
    let count : length payload - 8 ≡ length samples =
      sym (length-drop 8 payload) ∙ ap (λ (xs : List ℕ). length xs) rest in
    let written : le_bytes 8 i ++ samples ≡ payload =
      ap₂ (λ (n : ℕ) (xs : List ℕ). le_bytes 8 n ++ xs) (sym index) (sym rest)
      ∙ field 8 0 payload (omega arith) b in
    (
      rw (written) (ground arith),
      record {
        some_channels = g.0;
        few_channels = g.1;
        some_samples = omega arith;
        aligned = ap (λ (n : ℕ). n % (4 * channels)) (sym count) ∙ g.3;
      },
    )

-- `decodePcmPayload` reads a payload of bytes as a sample index and samples exactly when
-- `encodePcmPayload` writes that payload for them, the channel count fits its field and the samples
-- are whole for it.
pub decode_pcm_iff :
    (payload samples : List ℕ) (i channels : ℕ)
    → All IsByte payload
    → (decode_pcm_payload payload channels ≡ ok (i, samples))
      ↔ ((encode_pcm_payload i samples ≡ ok payload) × WholeSamples samples channels)
decode_pcm_iff payload samples i channels b = (
  decode_inverse payload samples i channels b,
  λ h.
      let (small, written) = encode_lem i samples payload h.0 in
      subst (λ p. decode_pcm_payload p channels ≡ ok (i, samples)) written
        (decode_written i channels samples small h.1),
)
