-- ===== src/Fwav/Frame/Accepted.antt =====
-- What `decodeFrame` accepts.
use fipwave.Common.{
  ℕ, ◌+◌, ◌-◌, ◌*◌, ◌<◌, ◌≤◌, ◌≡◌, refl, sym, ap, subst, ◌∙◌, arith, true, false, Bool-cases, inl,
  inr, if◌then◌else◌, some, List, ◌∷◌, ◌++◌, length, drop, All, length-drop, ok, fail_if_ok,
  or_fail_ok, ltb, ◌!=◌, ◌||◌,
}
use fipwave.Common.Bytes.{le_value, IsByte, get_uint, field, byte_field, get_uint-lt}
use fipwave.Fwav.{
  MessageType, hello, header_bytes, max_message_bytes, short_message, message_cap, ValidFrame,
  message_code, message_type_of,
}
use fipwave.Fwav.Frame.{
  is_fips, with_defaults, validate_frame, write_class_or_flags, write_frame, encode_frame,
  read_frame, decode_frame, ascii,
}
use fipwave.Fwav.Frame.Legal.{IsLegal, validate-IsLegal}
use fipwave.Fwav.Frame.Defaults.{as_frame, validate_again}
use fipwave.Fwav.Frame.RoundTrip.{class_fips}

pub record Accepted (bytes : List ℕ) (v : ValidFrame) : Type 0 where
  pub exact : length bytes ≡ 32 + get_uint 4 8 bytes
  pub version : get_uint 1 4 bytes ≡ 1
  pub type : message_type_of (get_uint 1 5 bytes) ≡ some v.type
  pub legal : IsLegal (read_frame v.type bytes)
  pub same : with_defaults (read_frame v.type bytes) ≡ v

measured_lem : (n l : ℕ) → (ltb 262112 n || (l != 32 + n)) ≡ false → l ≡ 32 + n
measured_lem n l h = ground arith

equal_lem : (a b : ℕ) → (a != b) ≡ false → a ≡ b
equal_lem a b h = ground arith

defaults-type : (t : MessageType) (bytes : List ℕ) → (with_defaults (read_frame t bytes)).type ≡ t
unfolding with_defaults read_frame
defaults-type t bytes = refl

pub decode-Accepted :
    (bytes : List ℕ) (v : ValidFrame) → decode_frame bytes ≡ ok v → Accepted bytes v
unfolding decode_frame
decode-Accepted bytes v h =
    let short = fail_if_ok (ltb (length bytes) header_bytes) short_message _ h in
    let long = fail_if_ok (ltb max_message_bytes (length bytes)) message_cap _ short.1 in
    let magic = fail_if_ok _ _ _ long.1 in
    let versioned = fail_if_ok _ _ _ magic.1 in
    let (t, typed, rest) = or_fail_ok _ _ _ versioned.1 in
    let measured = fail_if_ok _ _ _ rest in
    let (legal, same) = validate-IsLegal (read_frame t bytes) v measured.1 in
    let type_same : t ≡ v.type =
      sym (defaults-type t bytes) ∙ ap (λ (v : ValidFrame). v.type) same in
    record {
      exact = measured_lem _ _ measured.0;
      version = equal_lem _ _ versioned.0;
      type = subst (λ s. message_type_of (get_uint 1 5 bytes) ≡ some s) type_same typed;
      legal = subst (λ s. IsLegal (read_frame s bytes)) type_same legal;
      same = subst (λ s. with_defaults (read_frame s bytes) ≡ v) type_same same;
    }

code_read : (n : ℕ) (t : MessageType) → message_type_of n ≡ some t → message_code t ≡ n
unfolding message_code message_type_of
code_read n t h = ground arith

code-lt : (t : MessageType) → message_code t < 256
unfolding message_code
code-lt hello = omega arith
code-lt t = omega arith

-- Bytes 6 and 7, written again.
class_or_flags_read :
    (t : MessageType) (bytes : List ℕ)
    → 32 ≤ length bytes
    → All IsByte bytes
    → IsLegal (read_frame t bytes)
    → write_class_or_flags (with_defaults (read_frame t bytes)) ++ drop 8 bytes ≡ drop 6 bytes
unfolding write_class_or_flags with_defaults read_frame
class_or_flags_read t bytes h b l = elim (Bool-cases (is_fips t)) [
  | inl e ↦
      let zero_flags : get_uint 1 7 bytes ≡ 0 = zero_byte e in
      rw (e) (
        ap (λ (xs : List ℕ). get_uint 1 6 bytes ∷ xs)
          (byte_field 7 0 bytes (omega arith) b (sym zero_flags) (omega arith))
        ∙ byte_field 6 (get_uint 1 6 bytes) bytes (omega arith) b refl
            (omega (arith, get_uint-lt 1 6 bytes b)))
  | inr e ↦ rw (e) (field 2 6 bytes (omega arith) b)
]
  where
    zero_byte : is_fips t ≡ true → get_uint 1 7 bytes ≡ 0
    zero_byte e =
        let flags : (if is_fips t then get_uint 1 7 bytes * 256 else get_uint 2 6 bytes) ≡ 0 =
          class_fips t (read_frame t bytes) l.class e in
        ground arith

-- The first six bytes, with the canonical magic.
prefix_read :
    (bytes : List ℕ) (v : ValidFrame)
    → Accepted bytes v
    → All IsByte bytes
    → 32 ≤ length bytes
    → 1 ∷ message_code v.type ∷ drop 6 bytes ≡ drop 4 bytes
prefix_read bytes v a b h =
    ap (λ (xs : List ℕ). 1 ∷ xs)
      (byte_field 5 (message_code v.type) bytes (omega arith) b (code_read _ _ a.type)
        (code-lt v.type))
    ∙ byte_field 4 1 bytes (omega arith) b (sym a.version) (omega arith)

frame_written :
    (t : MessageType) (bytes : List ℕ)
    → length bytes ≡ 32 + get_uint 4 8 bytes
    → All IsByte bytes
    → IsLegal (read_frame t bytes)
    → write_frame (with_defaults (read_frame t bytes))
      ≡ 0x46 ∷ 0x57 ∷ 0x41 ∷ 0x56 ∷ 1 ∷ message_code t ∷ drop 6 bytes
unfolding write_frame with_defaults read_frame
frame_written t bytes h b l =
    ap (λ (xs : List ℕ). 0x46 ∷ 0x57 ∷ 0x41 ∷ 0x56 ∷ 1 ∷ message_code t ∷ xs)
      (rw
        (
          length-drop 32 bytes,
          payload_length,
          field 2 30 bytes (omega arith) b,
          field 2 28 bytes (omega arith) b,
          field 4 24 bytes (omega arith) b,
          field 8 16 bytes (omega arith) b,
          field 4 12 bytes (omega arith) b,
          field 4 8 bytes (omega arith) b,
        )
        (class_or_flags_read t bytes (omega arith) b l))
  where
    payload_length : length bytes - 32 ≡ get_uint 4 8 bytes
    payload_length = omega arith

-- A message of bytes that `decodeFrame` accepts is the one that `encodeFrame` makes of the decoded
-- frame, apart from the four bytes of the magic, which `encodeFrame` writes as FWAV.
pub encode_frame-decode_frame :
    (bytes : List ℕ) (v : ValidFrame)
    → All IsByte bytes
    → decode_frame bytes ≡ ok v
    → encode_frame (as_frame v) ≡ ok (0x46 ∷ 0x57 ∷ 0x41 ∷ 0x56 ∷ drop 4 bytes)
unfolding encode_frame
encode_frame-decode_frame bytes v b h =
    let a = decode-Accepted bytes v h in
    let f = read_frame v.type bytes in
    let valid : validate_frame (as_frame v) ≡ ok v =
      subst (λ w. validate_frame (as_frame w) ≡ ok w) a.same (validate_again f a.legal) in
    rw (valid) (
      ap ok (
        ap write_frame (sym a.same)
        ∙ frame_written v.type bytes a.exact b a.legal
        ∙ ap (λ (xs : List ℕ). 0x46 ∷ 0x57 ∷ 0x41 ∷ 0x56 ∷ xs)
            (prefix_read bytes v a b (omega (arith, a.exact)))))

-- `decodeFrame` does not see the highest bit of a byte of the magic: setting it in the first one
-- changes nothing.
pub decode_frame_high_bit :
    (byte : ℕ) (rest : List ℕ)
    → byte < 128
    → decode_frame ((byte + 128) ∷ rest) ≡ decode_frame (byte ∷ rest)
unfolding decode_frame read_frame get_uint le_value
decode_frame_high_bit byte rest h = rw (same) refl
  where
    same : ascii (byte + 128 + 0) ≡ ascii (byte + 0)
    same = omega arith
