-- ===== src/Session/Handshake/Encoded.antt =====
-- What `encodeHandshake` accepts, `decodeHandshake` reads back.
use fipwave.Common.{
  ℕ, ◌<◌, ◌≤◌, ◌^◌, ◌≡◌, ◌≢◌, subst, arith, true, false, ltb, ◌!=◌, ◌||◌, ◌&&◌, leb, not, Bool,
  every, List, [], ◌∷◌, length, All, some, map, ok, fail_if_ok, ok-injective,
}
use fipwave.Common.Texts.{same_text, same_text_iff}
use fipwave.Session.{TextCoding, profile_set_invalid, echo_nonce_invalid}
use fipwave.Session.Handshake.{
  Handshake, valid_integer, has_length_16, bound_names, encode_handshake, decode_handshake,
}
use fipwave.Session.Handshake.Reading.{AllReadable, GoodId}
use fipwave.Session.Handshake.RoundTrip.{decode_written}
use Prim.Native.String.{String}

different_text : (s t : String) → (not (same_text s t)) ≡ true → s ≢ t
different_text s t h = ground (arith, same_text_iff s t)

bound_lem :
    (v : Handshake)
    → bound_names v ≡ true
    → (v.identity ≢ "")
      × (v.expected_peer ≢ "")
      × (v.min_payload_bytes ≤ 217)
      × (v.max_payload_bytes ≤ 217)
unfolding bound_names
bound_lem v h = (
  different_text v.identity "" (ground arith),
  different_text v.expected_peer "" (ground arith),
  ground arith,
  ground arith,
)

first_guard :
    (b : Bool) (n k e : ℕ)
    → (not b || (n != 16) || ltb k 1 || ltb 3 k || ltb 0xffff_ffff e) ≡ false
    → (b ≡ true) × (n ≡ 16) × (0 < k) × (k ≤ 3) × (e < 2 ^ 32)
first_guard b n k e h = ground arith

names_guard : (n m : ℕ) → (ltb 96 n || ltb 96 m) ≡ false → (n ≤ 96) × (m ≤ 96)
names_guard n m h = ground arith

not-false : (b : Bool) → not b ≡ false → b ≡ true
not-false b h = ground arith

module _ (texts : TextCoding) where
  -- The decoder turns the texts of a handshake back from their bytes.
  pub record TextsBack (v : Handshake) : Type 0 where
    pub identity : texts.decode (texts.encode v.identity) ≡ some v.identity
    pub expected : texts.decode (texts.encode v.expected_peer) ≡ some v.expected_peer
    pub profiles : All (λ p. texts.decode (texts.encode p) ≡ some p) v.profiles

  profiles_readable :
      (profiles : List String)
      → every (λ p. valid_integer (length p) 1 48) (map texts.encode profiles) ≡ true
      → All (λ p. texts.decode (texts.encode p) ≡ some p) profiles
      → AllReadable texts profiles
  unfolding AllReadable
  profiles_readable [] h b = tt
  profiles_readable (p ∷ ps) h b =
      let n = length (texts.encode p) in
      let ok_p : (leb 1 n && leb n 48) ≡ true = (both _ _ h).0 in
      (
        record { back = b.0; some_bytes = ground arith; few_bytes = ground arith },
        profiles_readable ps (both _ _ h).1 b.1,
      )
    where
      both : (a c : Bool) → (a && c) ≡ true → (a ≡ true) × (c ≡ true)
      both a c h = (ground arith, ground arith)

  -- A handshake that `encodeHandshake` accepts, with no session number or one from 1 to 2^64 - 1, is
  -- the one that `decodeHandshake` reads from its bytes, when the encoder gives each text that is not
  -- empty some bytes and the decoder turns the texts of the handshake back from theirs.
  pub decode_handshake-encode_handshake :
      (v : Handshake) (bytes : List ℕ)
      → ((s : String) → s ≢ "" → 0 < length (texts.encode s))
      → TextsBack v
      → GoodId texts v.session_id
      → encode_handshake texts v ≡ ok bytes
      → decode_handshake texts bytes ≡ ok v
  unfolding encode_handshake
  decode_handshake-encode_handshake v bytes filled back id h =
      let h1 =
        fail_if_ok
          (not (bound_names v)
            || (length v.nonce != 16)
            || ltb (length v.profiles) 1
            || ltb 3 (length v.profiles)
            || ltb 0xffff_ffff v.epoch)
          _ _ h in
      let h2 =
        fail_if_ok
          (ltb 96 (length (texts.encode v.identity))
            || ltb 96 (length (texts.encode v.expected_peer)))
          _ _ h1.1 in
      let h3 =
        fail_if_ok (not (every (λ p. valid_integer (length p) 1 48) (map texts.encode v.profiles)))
          profile_set_invalid _ h2.1 in
      let h4 = fail_if_ok (not (has_length_16 v.echoed_nonce)) echo_nonce_invalid _ h3.1 in
      let g = first_guard (bound_names v) (length v.nonce) (length v.profiles) v.epoch h1.0 in
      let n =
        names_guard (length (texts.encode v.identity)) (length (texts.encode v.expected_peer))
          h2.0 in
      let b = bound_lem v g.0 in
      subst (λ bytes. decode_handshake texts bytes ≡ ok v) (ok-injective h4.1)
        (decode_written texts v (record {
          identity = record {
            back = back.identity;
            some_bytes = filled v.identity b.0;
            few_bytes = n.0;
          };
          expected = record {
            back = back.expected;
            some_bytes = filled v.expected_peer b.1;
            few_bytes = n.1;
          };
          nonce = g.1;
          profiles = profiles_readable v.profiles (not-false _ h3.0) back.profiles;
          some_profiles = g.2;
          few_profiles = g.3;
          low = omega (arith, b.2);
          high = omega (arith, b.3);
          epoch = g.4;
          echo = not-false _ h4.0;
          session = id;
          bound = g.0;
        }))
