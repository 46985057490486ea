-- ===== src/Session/Handshake.antt =====
-- `encodeHandshake` and `decodeHandshake`. The offset of the source is the rest of the input here.
pub mod Reading
pub mod RoundTrip
pub mod Encoded
use fipwave.Common.{
  ℕ, suc, zero, ◌+◌, ◌==◌, ◌!=◌, ltb, leb, ◌&&◌, ◌||◌, not, Bool, true, false, if◌then◌else◌, every,
  List, [], ◌∷◌, ◌++◌, length, take, drop, Option, none, some, map, Result, ok, err, fail_if,
  or_fail, ◌>>=◌, ◌>>◌,
}
use fipwave.Common.Bytes.{le_bytes, le_value}
use fipwave.Common.Texts.{same_text}
use fipwave.Session.{
  AcousticRole, SessionError, role_byte, parse_role, TextCoding, handshake_invalid,
  identity_invalid, profile_set_invalid, echo_nonce_invalid, truncated, version_invalid,
  nonce_invalid, profile_count_invalid, profile_invalid, range_invalid, echo_flag_invalid,
  session_id_invalid, trailing_data, binding_invalid,
}
use Prim.Native.String.{String}

pub record Handshake : Type 0 where
  pub role : AcousticRole
  pub identity : String
  pub expected_peer : String
  pub nonce : List ℕ
  pub echoed_nonce : Option (List ℕ)
  pub profiles : List String
  pub min_payload_bytes : ℕ
  pub max_payload_bytes : ℕ
  pub epoch : ℕ
  pub session_id : Option ℕ

abbrev pub max_identity_bytes : ℕ
max_identity_bytes = 96

abbrev pub max_profiles : ℕ
max_profiles = 3

abbrev pub max_profile_bytes : ℕ
max_profile_bytes = 48

-- `nonZero`
abbrev pub non_zero : List ℕ → Bool
non_zero value = not (every (λ b. b == 0) value)

abbrev pub valid_integer : ℕ → ℕ → ℕ → Bool
valid_integer value minimum maximum = leb minimum value && leb value maximum

abbrev pub valid_range : ℕ → ℕ → Bool
valid_range low high = valid_integer low 1 217 && valid_integer high low 217

-- A length byte and the bytes.
abbrev pub sized : List ℕ → List ℕ
sized bytes = length bytes ∷ bytes

abbrev pub sized_all : List (List ℕ) → List ℕ
sized_all [] = []
sized_all (p ∷ ps) = sized p ++ sized_all ps

abbrev pub has_length_16 : Option (List ℕ) → Bool
has_length_16 none = true
has_length_16 (some nonce) = length nonce == 16

abbrev pub echo_bytes : Option (List ℕ) → List ℕ
echo_bytes none = 0 ∷ []
echo_bytes (some nonce) = 1 ∷ nonce

abbrev pub session_id_bytes : Option ℕ → List ℕ
session_id_bytes none = 0 ∷ []
session_id_bytes (some id) = 1 ∷ le_bytes 8 id

-- The binding that both sides check: two names, a nonce, a range.
unfoldable pub bound_names : Handshake → Bool
bound_names v =
    not (same_text v.identity "")
    && not (same_text v.expected_peer "")
    && not (same_text v.identity v.expected_peer)
    && non_zero v.nonce
    && valid_range v.min_payload_bytes v.max_payload_bytes

module _ (texts : TextCoding) where
  unfoldable pub write_handshake : Handshake → List ℕ
  write_handshake v =
      1
      ∷ role_byte v.role
      ∷ (sized (texts.encode v.identity)
          ++ (sized (texts.encode v.expected_peer)
              ++ (v.nonce
                  ++ (length v.profiles
                      ∷ (sized_all (map texts.encode v.profiles)
                          ++ (le_bytes 2 v.min_payload_bytes
                              ++ (le_bytes 2 v.max_payload_bytes
                                  ++ (le_bytes 4 v.epoch
                                      ++ (echo_bytes v.echoed_nonce
                                          ++ session_id_bytes v.session_id)))))))))

  unfoldable pub encode_handshake : Handshake → Result SessionError (List ℕ)
  encode_handshake v = do
    fail_if
        (not (bound_names v)
          || (length v.nonce != 16)
          || ltb (length v.profiles) 1
          || ltb max_profiles (length v.profiles)
          || ltb 0xffff_ffff v.epoch)
        handshake_invalid
    fail_if
        (ltb max_identity_bytes (length (texts.encode v.identity))
          || ltb max_identity_bytes (length (texts.encode v.expected_peer)))
        identity_invalid
    fail_if
        (not
          (every (λ p. valid_integer (length p) 1 max_profile_bytes) (map texts.encode v.profiles)))
        profile_set_invalid
    fail_if (not (has_length_16 v.echoed_nonce)) echo_nonce_invalid
    ok (write_handshake v)

  -- `input.slice(offset, offset + n)`, if there is so much, with the rest.
  unfoldable pub read_bytes : SessionError → ℕ → List ℕ → Result SessionError (List ℕ × List ℕ)
  read_bytes e n input = do fail_if (ltb (length input) n) e; ok (take n input, drop n input)

  -- `byte`
  unfoldable pub read_byte : List ℕ → Result SessionError (ℕ × List ℕ)
  read_byte [] = err truncated
  read_byte (b ∷ rest) = ok (b, rest)

  -- A length from 1 to a maximum, and a text of that length.
  unfoldable pub read_text : ℕ → SessionError → List ℕ → Result SessionError (String × List ℕ)
  read_text maximum e input = do
    n ← read_byte input
    fail_if (ltb n.0 1 || ltb maximum n.0) e
    bytes ← read_bytes e n.0 n.1
    value ← or_fail (texts.decode bytes.0) e
    ok (value, bytes.1)

  unfoldable pub read_profiles : ℕ → List ℕ → Result SessionError (List String × List ℕ)
  read_profiles zero input = ok ([], input)
  read_profiles (suc n) input = do
    profile ← read_text max_profile_bytes profile_invalid input
    rest ← read_profiles n profile.1
    ok (profile.0 ∷ rest.0, rest.1)

  -- The echoed nonce, after its flag.
  unfoldable pub read_echo : ℕ → List ℕ → Result SessionError (Option (List ℕ) × List ℕ)
  read_echo flag input =
      if flag == 1
      then (do nonce ← read_bytes echo_nonce_invalid 16 input; ok (some nonce.0, nonce.1))
      else (do fail_if (flag != 0) echo_flag_invalid; ok (none, input))

  -- The session number, after its flag, and nothing else.
  unfoldable pub read_session_id : ℕ → List ℕ → Result SessionError (Option ℕ)
  read_session_id flag input =
      if flag == 1
      then (do
        fail_if (length input != 8) session_id_invalid
        fail_if (le_value input == 0) session_id_invalid
        ok (some (le_value input)))
      else (do fail_if ((flag != 0) || (length input != 0)) trailing_data; ok none)

  unfoldable pub decode_handshake : List ℕ → Result SessionError Handshake
  decode_handshake input = do
    version ← read_byte input
    fail_if (version.0 != 1) version_invalid
    code ← read_byte version.1
    role ← parse_role code.0
    identity ← read_text max_identity_bytes identity_invalid code.1
    expected ← read_text max_identity_bytes identity_invalid identity.1
    nonce ← read_bytes nonce_invalid 16 expected.1
    count ← read_byte nonce.1
    fail_if (ltb count.0 1 || ltb max_profiles count.0) profile_count_invalid
    profiles ← read_profiles count.0 count.1
    fail_if (ltb (length profiles.1) 9) range_invalid
    let low = le_value (take 2 profiles.1)
    let high = le_value (take 2 (drop 2 profiles.1))
    let epoch = le_value (take 4 (drop 4 profiles.1))
    flag ← read_byte (drop 8 profiles.1)
    echo ← read_echo flag.0 flag.1
    id_flag ← read_byte echo.1
    session_id ← read_session_id id_flag.0 id_flag.1
    let value : Handshake = record {
      role = role;
      identity = identity.0;
      expected_peer = expected.0;
      nonce = nonce.0;
      echoed_nonce = echo.0;
      profiles = profiles.0;
      min_payload_bytes = low;
      max_payload_bytes = high;
      epoch = epoch;
      session_id = session_id;
    }
    fail_if (not (bound_names value)) binding_invalid
    ok value
