-- ===== src/Fas1/Codec/Accepted.antt =====
-- What `decodeFas1` accepts.
use fipwave.Common.{
  ltb, ◌!=◌, ◌||◌, fail_if_ok, or_fail_ok, ◌-◌, ℕ, ◌+◌, ◌<◌, ◌≤◌, ◌≡◌, refl, ◌∙◌, ap, sym, subst,
  arith, false, length, ok, err, Result, ◌>>=◌, List, ◌∷◌, ◌++◌, drop, some, All, length-drop,
}
use fipwave.Common.Bytes.{IsByte, le_bytes, get_uint, field, byte_field}
use fipwave.Fas1.{UnitType, hello, Fas1Unit, Fas1Error, unit_code, unit_type_of, validate_unit}
use fipwave.Fas1.Crc.{crc32c}
use fipwave.Fas1.Codec.{header_prefix, crc_protected_bytes, encode_fas1, decode_fas1, read_unit}
use fipwave.Fas1.Codec.RoundTrip.{frame, frame_prefix, prefix_prefix}
use mathlib.Core.List.{append_assoc}

pub record Accepted (bytes : List ℕ) (u : Fas1Unit) : Type 0 where
  pub exact : length bytes ≡ 36 + get_uint 2 30 bytes
  pub short : get_uint 2 30 bytes ≤ 217
  pub magic_f : get_uint 1 0 bytes ≡ 0x46
  pub magic_a : get_uint 1 1 bytes ≡ 0x41
  pub magic_s : get_uint 1 2 bytes ≡ 0x53
  pub magic_1 : get_uint 1 3 bytes ≡ 0x31
  pub version : get_uint 1 4 bytes ≡ 1
  pub type : unit_type_of (get_uint 1 5 bytes) ≡ some u.type
  pub checksum : crc32c (crc_protected_bytes bytes (drop 36 bytes)) ≡ get_uint 4 32 bytes
  pub unit : read_unit u.type bytes ≡ u
  pub legal : validate_unit u ≡ ok tt

unit_ok :
    (m : Result Fas1Error (Unit {0})) (t u : Fas1Unit)
    → (m >>= (λ _. ok t)) ≡ ok u
    → (m ≡ ok tt) × (t ≡ u)
unit_ok (ok tt) t u h = (refl, ground arith)
unit_ok (err e) t u h = cc

measured_lem : (n l : ℕ) → (ltb 217 n || (l != 36 + n)) ≡ false → (l ≡ 36 + n) × (n ≤ 217)
measured_lem n l h = ground arith

magic_lem :
    (a b c d : ℕ)
    → ((a != 0x46) || (b != 0x41) || (c != 0x53) || (d != 0x31)) ≡ false
    → (a ≡ 0x46) × (b ≡ 0x41) × (c ≡ 0x53) × (d ≡ 0x31)
magic_lem a b c d h = ground arith

equal_lem : (a b : ℕ) → (a != b) ≡ false → a ≡ b
equal_lem a b h = ground arith

read_unit-type : (t : UnitType) (bytes : List ℕ) → (read_unit t bytes).type ≡ t
unfolding read_unit
read_unit-type t bytes = refl

read_unit-body : (t : UnitType) (bytes : List ℕ) → (read_unit t bytes).body ≡ drop 36 bytes
unfolding read_unit
read_unit-body t bytes = refl

pub decode-Accepted : (bytes : List ℕ) (u : Fas1Unit) → decode_fas1 bytes ≡ ok u → Accepted bytes u
unfolding decode_fas1
decode-Accepted bytes u h =
    let sized = fail_if_ok _ _ _ h in
    let magic = fail_if_ok _ _ _ sized.1 in
    let versioned = fail_if_ok _ _ _ magic.1 in
    let (t, typed, rest) = or_fail_ok _ _ _ versioned.1 in
    let sent = fail_if_ok _ _ _ rest in
    let measured = fail_if_ok _ _ _ sent.1 in
    let summed = fail_if_ok _ _ _ measured.1 in
    let (valid, same) = unit_ok _ _ _ summed.1 in
    let type_same : t ≡ u.type =
      sym (read_unit-type t bytes) ∙ ap (λ (u : Fas1Unit). u.type) same in
    let m = magic_lem _ _ _ _ magic.0 in
    let l = measured_lem _ _ measured.0 in
    record {
      exact = l.0;
      short = l.1;
      magic_f = m.0;
      magic_a = m.1;
      magic_s = m.2;
      magic_1 = m.3;
      version = equal_lem _ _ versioned.0;
      type = subst (λ s. unit_type_of (get_uint 1 5 bytes) ≡ some s) type_same typed;
      checksum = equal_lem _ _ summed.0;
      unit = subst (λ s. read_unit s bytes ≡ u) type_same same;
      legal = subst (λ v. validate_unit v ≡ ok tt) same valid;
    }

unit_code-unit_type_of : (n : ℕ) (t : UnitType) → unit_type_of n ≡ some t → unit_code t ≡ n
unfolding unit_type_of unit_code
unit_code-unit_type_of n t h = ground arith

unit_code-lt : (t : UnitType) → unit_code t < 256
unfolding unit_code
unit_code-lt hello = omega arith
unit_code-lt t = omega arith

-- The first six bytes are the magic, the version and the type.
prefix_read :
    (bytes : List ℕ) (u : Fas1Unit)
    → Accepted bytes u
    → All IsByte bytes
    → 0x46 ∷ 0x41 ∷ 0x53 ∷ 0x31 ∷ 1 ∷ unit_code u.type ∷ drop 6 bytes ≡ bytes
prefix_read bytes u a b =
    ap (λ (xs : List ℕ). 0x46 ∷ xs)
      (ap (λ (xs : List ℕ). 0x41 ∷ xs)
          (ap (λ (xs : List ℕ). 0x53 ∷ xs)
              (ap (λ (xs : List ℕ). 0x31 ∷ xs)
                  (ap (λ (xs : List ℕ). 1 ∷ xs)
                      (byte_field 5 (unit_code u.type) bytes (omega arith) b
                        (unit_code-unit_type_of _ _ a.type) (unit_code-lt u.type))
                    ∙ byte_field 4 1 bytes (omega arith) b (sym a.version) (omega arith))
                ∙ byte_field 3 0x31 bytes (omega arith) b (sym a.magic_1) (omega arith))
            ∙ byte_field 2 0x53 bytes (omega arith) b (sym a.magic_s) (omega arith))
        ∙ byte_field 1 0x41 bytes (omega arith) b (sym a.magic_a) (omega arith))
    ∙ byte_field 0 0x46 bytes (omega arith) b (sym a.magic_f) (omega arith)

frame_read :
    (bytes : List ℕ) (u : Fas1Unit)
    → Accepted bytes u
    → All IsByte bytes
    → header_prefix (read_unit u.type bytes) ++ (le_bytes 4 (get_uint 4 32 bytes) ++ drop 36 bytes)
      ≡ bytes
unfolding header_prefix read_unit
frame_read bytes u a b = simp append_assoc (
    rw
      (
        length-drop 36 bytes,
        body_length,
        field 4 32 bytes (omega arith) b,
        field 2 30 bytes (omega arith) b,
        field 2 28 bytes (omega arith) b,
        field 2 26 bytes (omega arith) b,
        field 2 24 bytes (omega arith) b,
        field 4 20 bytes (omega arith) b,
        field 4 16 bytes (omega arith) b,
        field 8 8 bytes (omega arith) b,
        field 2 6 bytes (omega arith) b,
      )
      (prefix_read bytes u a b))
  where
    body_length : length bytes - 36 ≡ get_uint 2 30 bytes
    body_length = omega arith

body_read : (bytes : List ℕ) (u : Fas1Unit) → Accepted bytes u → u.body ≡ drop 36 bytes
body_read bytes u a = ap (λ (v : Fas1Unit). v.body) (sym a.unit) ∙ read_unit-body u.type bytes

frame_whole :
    (bytes : List ℕ) (u : Fas1Unit)
    → Accepted bytes u
    → All IsByte bytes
    → frame u (get_uint 4 32 bytes) ≡ bytes
unfolding frame
frame_whole bytes u a b =
    ap (λ (body : List ℕ). header_prefix u ++ (le_bytes 4 (get_uint 4 32 bytes) ++ body))
      (body_read bytes u a)
    ∙ subst (λ v. header_prefix v ++ (le_bytes 4 (get_uint 4 32 bytes) ++ drop 36 bytes) ≡ bytes)
        a.unit (frame_read bytes u a b)

checksum_read :
    (bytes : List ℕ) (u : Fas1Unit)
    → Accepted bytes u
    → All IsByte bytes
    → crc32c (crc_protected_bytes (header_prefix u) u.body) ≡ get_uint 4 32 bytes
checksum_read bytes u a b =
    rw
      (
        prefix_prefix u,
        ← frame_prefix u (get_uint 4 32 bytes),
        frame_whole bytes u a b,
        body_read bytes u a,
      )
      a.checksum

-- A frame that `decodeFas1` accepts is the one that `encodeFas1` makes of the unit.
pub encode-decode :
    (bytes : List ℕ) (u : Fas1Unit)
    → All IsByte bytes
    → decode_fas1 bytes ≡ ok u
    → encode_fas1 u ≡ ok bytes
unfolding encode_fas1 frame
encode-decode bytes u b h =
    let a = decode-Accepted bytes u h in
    rw (a.legal, checksum_read bytes u a b) (ap ok (frame_whole bytes u a b))
