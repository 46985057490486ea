-- ===== src/Session/Handshake/Reading.antt =====
-- Each part of a handshake is read as it is written.
use fipwave.Common.{
  ℕ, ◌<◌, ◌≤◌, ◌^◌, ◌≡◌, refl, arith, true, false, ltb, ◌==◌, ◌||◌, List, [], ◌∷◌, ◌++◌, length,
  length-append, take-append, drop-append, Option, none, some, map, ok,
}
use fipwave.Common.Bytes.{le_bytes, le_value-le_bytes, length-le_bytes}
use fipwave.Session.{SessionError, AcousticRole, role_a, role_b, role_byte, parse_role, TextCoding}
use fipwave.Session.Handshake.{
  sized, sized_all, echo_bytes, session_id_bytes, read_bytes, read_byte, read_text, read_profiles,
  read_echo, read_session_id, has_length_16,
}
use Prim.Native.String.{String}
use mathlib.Core.List.{append_assoc}

pub parse_role-role_byte : (r : AcousticRole) → parse_role (role_byte r) ≡ ok r
unfolding parse_role role_byte
parse_role-role_byte role_a = refl
parse_role-role_byte role_b = refl

module _ (texts : TextCoding) where
  pub read_bytes_lem :
      (e : SessionError) (n : ℕ) (bytes rest : List ℕ)
      → length bytes ≡ n
      → read_bytes texts e n (bytes ++ rest) ≡ ok (bytes, rest)
  unfolding read_bytes
  read_bytes_lem e n bytes rest h =
      rw (enough, take-append n bytes rest h, drop-append n bytes rest h) refl
    where
      enough : ltb (length (bytes ++ rest)) n ≡ false
      enough = ground (arith, length-append bytes rest)

  -- A text whose bytes the decoder turns back, of a length in bounds.
  pub record Readable (maximum : ℕ) (s : String) : Type 0 where
    pub back : texts.decode (texts.encode s) ≡ some s
    pub some_bytes : 0 < length (texts.encode s)
    pub few_bytes : length (texts.encode s) ≤ maximum

  pub read_text_lem :
      (maximum : ℕ) (e : SessionError) (s : String) (rest : List ℕ)
      → Readable maximum s
      → read_text texts maximum e (sized (texts.encode s) ++ rest) ≡ ok (s, rest)
  unfolding read_text read_byte
  read_text_lem maximum e s rest r =
      rw (in_bounds, read_bytes_lem e (length (texts.encode s)) (texts.encode s) rest refl, r.back)
        refl
    where
      in_bounds : (ltb (length (texts.encode s)) 1 || ltb maximum (length (texts.encode s))) ≡ false
      in_bounds = ground (arith, r.some_bytes, r.few_bytes)

  unfoldable pub AllReadable : List String → Type 0
  AllReadable [] = Unit {0}
  AllReadable (p ∷ ps) = Readable 48 p × AllReadable ps

  pub read_profiles_lem :
      (profiles : List String) (rest : List ℕ)
      → AllReadable profiles
      → read_profiles texts (length profiles) (sized_all (map texts.encode profiles) ++ rest)
        ≡ ok (profiles, rest)
  unfolding read_profiles AllReadable
  read_profiles_lem [] rest r = refl
  read_profiles_lem (p ∷ ps) rest r =
      rw
        (
          append_assoc (sized (texts.encode p)) (sized_all (map texts.encode ps)) rest,
          read_text_lem 48 SessionError.profile_invalid p (sized_all (map texts.encode ps) ++ rest)
              r.0,
          read_profiles_lem ps rest r.1,
        )
        refl

  pub read_echo_lem :
      (echo : Option (List ℕ)) (rest : List ℕ)
      → has_length_16 echo ≡ true
      → (flag : ℕ) × (more : List ℕ) × (echo_bytes echo ++ rest ≡ flag ∷ more)
        × (read_echo texts flag more ≡ ok (echo, rest))
  unfolding read_echo
  read_echo_lem none rest h = (0, rest, refl, refl)
  read_echo_lem (some nonce) rest h = (
    1,
    nonce ++ rest,
    refl,
    rw (read_bytes_lem SessionError.echo_nonce_invalid 16 nonce rest (ground arith)) refl,
  )

  -- A session number that is not zero and fits eight bytes, or none.
  abbrev pub GoodId : Option ℕ → Type 0
  GoodId none = Unit {0}
  GoodId (some id) = (0 < id) × (id < 2 ^ 64)

  pub read_session_id_lem :
      (session_id : Option ℕ)
      → GoodId session_id
      → (flag : ℕ) × (more : List ℕ) × (session_id_bytes session_id ≡ flag ∷ more)
        × (read_session_id texts flag more ≡ ok session_id)
  unfolding read_session_id
  read_session_id_lem none h = (0, [], refl, refl)
  read_session_id_lem (some id) h = (
    1,
    le_bytes 8 id,
    refl,
    rw (length-le_bytes 8 id, le_value-le_bytes 8 id (omega arith), not_zero id h.0) refl,
  )
    where
      not_zero : (n : ℕ) → 0 < n → (n == 0) ≡ false
      not_zero n h = ground arith
