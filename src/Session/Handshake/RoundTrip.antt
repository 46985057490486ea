-- ===== src/Session/Handshake/RoundTrip.antt =====
-- The handshake that `encodeHandshake` writes is the one that `decodeHandshake` reads.
use fipwave.Common.{
  ℕ, ◌+◌, ◌<◌, ◌≤◌, ◌^◌, ◌≡◌, refl, ap, ◌∙◌, arith, true, false, ltb, ◌||◌, not, List, ◌∷◌, ◌++◌,
  length, take, drop, map, ok, fail_if, ◌>>◌,
}
use fipwave.Common.Bytes.{le_bytes, le_value, le_value-le_bytes}
use fipwave.Session.{role_byte, TextCoding, binding_invalid, identity_invalid, nonce_invalid}
use fipwave.Session.Handshake.{
  Handshake, sized, sized_all, has_length_16, echo_bytes, session_id_bytes, bound_names,
  write_handshake, read_byte, decode_handshake, read_echo, read_session_id,
}
use fipwave.Session.Handshake.Reading.{
  parse_role-role_byte, read_bytes_lem, Readable, read_text_lem, AllReadable, read_profiles_lem,
  read_echo_lem, GoodId, read_session_id_lem,
}

-- The ranges and the epoch, before what follows them.
settings_part : ℕ → ℕ → ℕ → List ℕ → List ℕ
settings_part low high epoch more =
    le_bytes 2 low ++ (le_bytes 2 high ++ (le_bytes 4 epoch ++ more))

settings_read :
    (low high epoch : ℕ) (more : List ℕ)
    → low < 2 ^ 16
    → high < 2 ^ 16
    → epoch < 2 ^ 32
    → (le_value (take 2 (settings_part low high epoch more)) ≡ low)
      × (le_value (take 2 (drop 2 (settings_part low high epoch more))) ≡ high)
      × (le_value (take 4 (drop 4 (settings_part low high epoch more))) ≡ epoch)
      × (drop 8 (settings_part low high epoch more) ≡ more)
      × (length (settings_part low high epoch more) ≡ 8 + length more)
unfolding settings_part le_bytes le_value
settings_read low high epoch more l h e = (
  le_value-le_bytes 2 low l,
  le_value-le_bytes 2 high h,
  le_value-le_bytes 4 epoch e,
  refl,
  omega arith,
)

module _ (texts : TextCoding) where
  -- What `decodeHandshake` needs of a handshake to read it back.
  pub record Decodable (v : Handshake) : Type 0 where
    pub identity : Readable texts 96 v.identity
    pub expected : Readable texts 96 v.expected_peer
    pub nonce : length v.nonce ≡ 16
    pub profiles : AllReadable texts v.profiles
    pub some_profiles : 0 < length v.profiles
    pub few_profiles : length v.profiles ≤ 3
    pub low : v.min_payload_bytes < 2 ^ 16
    pub high : v.max_payload_bytes < 2 ^ 16
    pub epoch : v.epoch < 2 ^ 32
    pub echo : has_length_16 v.echoed_nonce ≡ true
    pub session : GoodId texts v.session_id
    pub bound : bound_names v ≡ true

  -- The bytes of a handshake whose last two parts are given.
  parts : Handshake → List ℕ → List ℕ
  parts v more =
      1
      ∷ role_byte v.role
      ∷ (sized (texts.encode v.identity)
          ++ (sized (texts.encode v.expected_peer)
              ++ (v.nonce
                  ++ (length v.profiles
                      ∷ (sized_all (map texts.encode v.profiles)
                          ++ settings_part v.min_payload_bytes v.max_payload_bytes v.epoch more)))))

  written_parts :
      (v : Handshake)
      → write_handshake texts v
        ≡ parts v (echo_bytes v.echoed_nonce ++ session_id_bytes v.session_id)
  unfolding write_handshake parts settings_part
  written_parts v = refl

  accepted :
      (v : Handshake)
      → bound_names v ≡ true
      → (fail_if (not (bound_names v)) binding_invalid >> ok v) ≡ ok v
  accepted v h = rw (h) refl

  decode_parts :
      (v : Handshake) (flag id_flag : ℕ) (more id_more : List ℕ)
      → Decodable v
      → read_echo texts flag more ≡ ok (v.echoed_nonce, id_flag ∷ id_more)
      → read_session_id texts id_flag id_more ≡ ok v.session_id
      → decode_handshake texts (parts v (flag ∷ more)) ≡ ok v
  unfolding decode_handshake read_byte parts
  decode_parts v flag id_flag more id_more d echo session =
      let s =
        settings_read v.min_payload_bytes v.max_payload_bytes v.epoch (flag ∷ more) d.low d.high
          d.epoch in
      let rest = settings_part v.min_payload_bytes v.max_payload_bytes v.epoch (flag ∷ more) in
      let long : ltb (length rest) 9 ≡ false = ground (arith, s.4) in
      let counted : (ltb (length v.profiles) 1 || ltb 3 (length v.profiles)) ≡ false =
        ground (arith, d.some_profiles, d.few_profiles) in
      rw
        (
          parse_role-role_byte v.role,
          read_text_lem texts 96 identity_invalid v.identity _ d.identity,
          read_text_lem texts 96 identity_invalid v.expected_peer _ d.expected,
          read_bytes_lem texts nonce_invalid 16 v.nonce _ d.nonce,
          counted,
          read_profiles_lem texts v.profiles rest d.profiles,
          long,
          s.0,
          s.1,
          s.2,
          s.3,
          echo,
          session,
        )
        (accepted v d.bound)

  pub decode_written :
      (v : Handshake) → Decodable v → decode_handshake texts (write_handshake texts v) ≡ ok v
  decode_written v d =
      let (id_flag, id_more, id_split, session) =
        read_session_id_lem texts v.session_id d.session in
      let (flag, more, split, echo) =
        read_echo_lem texts v.echoed_nonce (session_id_bytes v.session_id) d.echo in
      ap (decode_handshake texts) (written_parts v ∙ ap (parts v) split)
      ∙ decode_parts v flag id_flag more id_more d
          (echo ∙ ap (λ (r : List ℕ). ok (v.echoed_nonce, r)) id_split) session
