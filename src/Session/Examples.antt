-- ===== src/Session/Examples.antt =====
-- Runs of the acoustic session's code, and its theorems at concrete inputs.
use fipwave.Common.{
  ℕ, ◌<◌, ◌≡◌, ◌≢◌, refl, arith, ◌==◌, ◌&&◌, Bool, true, false, List, [], ◌∷◌, length, none, some,
  ok, err,
}
use fipwave.Common.Bytes.{le_bytes, le_value}
use fipwave.Common.Texts.{same_text, find}
use fipwave.Fas1.Settings.{encode_text}
use fipwave.Session.{role_a, role_byte, TextCoding, trailing_data, parse_role}
use fipwave.Session.Handshake.{
  Handshake, bound_names, write_handshake, encode_handshake, decode_handshake, read_byte,
  read_bytes, read_text, read_profiles, read_echo, read_session_id,
}
use fipwave.Session.Handshake.Encoded.{TextsBack, decode_handshake-encode_handshake}
use Prim.Native.String.{String}

same_bytes : List ℕ → List ℕ → Bool
same_bytes [] [] = true
same_bytes [] (y ∷ ys) = false
same_bytes (x ∷ xs) [] = false
same_bytes (x ∷ xs) (y ∷ ys) = x == y && same_bytes xs ys

-- A coding of three ASCII texts.
abbrev ascii_coding : TextCoding
ascii_coding = record {
  encode = encode_text;
  decode = λ bytes. find (λ s. same_bytes (encode_text s) bytes) ("ada" ∷ "bob" ∷ "quiet" ∷ []);
}

filled : (s : String) → s ≢ "" → 0 < length (encode_text s)
filled String.[] h = absurd (h refl)
filled (String.◌∷◌ c s) h = omega arith

-- The HELLO of role A.
abbrev greeting : Handshake
greeting = record {
  role = role_a;
  identity = "ada";
  expected_peer = "bob";
  nonce = 1 ∷ 2 ∷ 3 ∷ 4 ∷ 5 ∷ 6 ∷ 7 ∷ 8 ∷ 9 ∷ 10 ∷ 11 ∷ 12 ∷ 13 ∷ 14 ∷ 15 ∷ 16 ∷ [];
  echoed_nonce = none;
  profiles = "quiet" ∷ [];
  min_payload_bytes = 64;
  max_payload_bytes = 217;
  epoch = 2;
  session_id = some 300;
}

abbrev greeting_bytes : List ℕ
greeting_bytes =
    1 ∷ 1 ∷ 3 ∷ 97 ∷ 100 ∷ 97 ∷ 3 ∷ 98 ∷ 111 ∷ 98 ∷ 1 ∷ 2 ∷ 3 ∷ 4 ∷ 5 ∷ 6 ∷ 7 ∷ 8 ∷ 9 ∷ 10 ∷ 11 ∷ 12
    ∷ 13 ∷ 14 ∷ 15 ∷ 16 ∷ 1 ∷ 5 ∷ 113 ∷ 117 ∷ 105 ∷ 101 ∷ 116 ∷ 64 ∷ 0 ∷ 217 ∷ 0 ∷ 2 ∷ 0 ∷ 0 ∷ 0 ∷ 0
    ∷ 1 ∷ 44 ∷ 1 ∷ 0 ∷ 0 ∷ 0 ∷ 0 ∷ 0 ∷ 0 ∷ []

greeting_encoded : encode_handshake ascii_coding greeting ≡ ok greeting_bytes
unfolding encode_handshake bound_names write_handshake role_byte le_bytes same_text
greeting_encoded = refl

-- A byte too many is refused.
trailing_byte :
    decode_handshake ascii_coding (
      1 ∷ 1 ∷ 3 ∷ 97 ∷ 100 ∷ 97 ∷ 3 ∷ 98 ∷ 111 ∷ 98 ∷ 1 ∷ 2 ∷ 3 ∷ 4 ∷ 5 ∷ 6 ∷ 7 ∷ 8 ∷ 9 ∷ 10 ∷ 11
      ∷ 12 ∷ 13 ∷ 14 ∷ 15 ∷ 16 ∷ 1 ∷ 5 ∷ 113 ∷ 117 ∷ 105 ∷ 101 ∷ 116 ∷ 64 ∷ 0 ∷ 217 ∷ 0 ∷ 2 ∷ 0 ∷ 0
      ∷ 0 ∷ 0 ∷ 0 ∷ 9 ∷ [])
    ≡ err trailing_data
unfolding decode_handshake parse_role read_byte read_bytes read_text read_profiles read_echo
    read_session_id bound_names same_text le_value same_bytes
trailing_byte = refl

greeting_back : TextsBack ascii_coding greeting
unfolding same_bytes
greeting_back = record { identity = refl; expected = refl; profiles = (refl, tt) }

decode_handshake-encode_handshake_example :
    decode_handshake ascii_coding greeting_bytes ≡ ok greeting
decode_handshake-encode_handshake_example =
    decode_handshake-encode_handshake ascii_coding greeting greeting_bytes filled greeting_back
      (omega arith) greeting_encoded
