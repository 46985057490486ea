-- ===== src/Fas1/Codec/Corrupt.antt =====
-- A frame with one damaged byte.
use fipwave.Common.{
  ℕ, ◌-◌, ◌<◌, ◌≤◌, ◌≡◌, ◌≢◌, sym, ap, ap₂, ◌∙◌, arith, length, take, drop, List, [], ◌∷◌, ◌++◌, ok,
  dec_lt, length-drop,
}
use fipwave.Common.Bytes.{IsByte, le_value, get_uint}
use fipwave.Common.Splits.{take_past, take_within, drop_past, drop_within}
use fipwave.Fas1.{Fas1Unit}
use fipwave.Fas1.Crc.{crc32c}
use fipwave.Fas1.Crc.Detect.{crc32c_changed_byte}
use fipwave.Fas1.Codec.{crc_protected_bytes, decode_fas1}
use fipwave.Fas1.Codec.Accepted.{Accepted, decode-Accepted}
use mathlib.Core.List.{append_assoc}

le_value_changed :
    (xs ys : List ℕ) (b c : ℕ) → le_value (xs ++ (b ∷ ys)) ≡ le_value (xs ++ (c ∷ ys)) → b ≡ c
unfolding le_value
le_value_changed [] ys b c e = omega arith
le_value_changed (x ∷ xs) ys b c e = le_value_changed xs ys b c (omega arith)

-- The bytes under the checksum, and the checksum, are read past the place of the damage.
module _ (xs ys : List ℕ) where
  abbrev damaged : ℕ → List ℕ
  damaged b = xs ++ (b ∷ ys)

  protected_early :
      length xs < 32
      → (b : ℕ)
      → crc_protected_bytes (damaged b) (drop 36 (damaged b))
        ≡ xs ++ (b ∷ (take (31 - length xs) ys ++ drop (35 - length xs) ys))
  protected_early h b =
      ap₂ ◌++◌ (take_past 32 xs ys b h) (drop_past 36 xs ys b (omega arith))
      ∙ append_assoc xs (b ∷ take (31 - length xs) ys) (drop (35 - length xs) ys)

  checksum_early :
      length xs < 32
      → (b : ℕ) → get_uint 4 32 (damaged b) ≡ le_value (take 4 (drop (31 - length xs) ys))
  unfolding get_uint
  checksum_early h b = ap (λ (zs : List ℕ). le_value (take 4 zs)) (drop_past 32 xs ys b h)

  protected_middle :
      32 ≤ length xs
      → length xs < 36
      → (b : ℕ)
      → crc_protected_bytes (damaged b) (drop 36 (damaged b))
        ≡ take 32 xs ++ drop (35 - length xs) ys
  protected_middle h k b = ap₂ ◌++◌ (take_within 32 xs (b ∷ ys) h) (drop_past 36 xs ys b k)

  checksum_middle :
      32 ≤ length xs
      → length xs < 36
      → (b : ℕ)
      → get_uint 4 32 (damaged b) ≡ le_value (drop 32 xs ++ (b ∷ take (3 - length (drop 32 xs)) ys))
  unfolding get_uint
  checksum_middle h k b =
      ap (λ (zs : List ℕ). le_value (take 4 zs)) (drop_within 32 xs (b ∷ ys) h)
      ∙ ap le_value (take_past 4 (drop 32 xs) ys b (rw (length-drop 32 xs) (omega arith)))

  protected_late :
      36 ≤ length xs
      → (b : ℕ)
      → crc_protected_bytes (damaged b) (drop 36 (damaged b))
        ≡ (take 32 xs ++ drop 36 xs) ++ (b ∷ ys)
  protected_late h b =
      ap₂ ◌++◌ (take_within 32 xs (b ∷ ys) (omega arith)) (drop_within 36 xs (b ∷ ys) h)
      ∙ sym (append_assoc (take 32 xs) (drop 36 xs) (b ∷ ys))

  checksum_late :
      36 ≤ length xs → (b : ℕ) → get_uint 4 32 (damaged b) ≡ le_value (take 4 (drop 32 xs))
  unfolding get_uint
  checksum_late h b =
      ap (λ (zs : List ℕ). le_value (take 4 zs)) (drop_within 32 xs (b ∷ ys) (omega arith))
      ∙ ap le_value (take_within 4 (drop 32 xs) (b ∷ ys) (rw (length-drop 32 xs) (omega arith)))

  -- `decodeFas1` does not accept two frames that differ in one byte only, wherever it stands.
  pub decode_changed_byte :
      (b c : ℕ) (u v : Fas1Unit)
      → IsByte b
      → IsByte c
      → b ≢ c
      → decode_fas1 (xs ++ (b ∷ ys)) ≡ ok u
      → decode_fas1 (xs ++ (c ∷ ys)) ≢ ok v
  decode_changed_byte b c u v hb hc ne h k = elim (dec_lt (length xs) 32) [
    | yes p ↦ crc32c_changed_byte xs _ b c hb hc ne (
        sym (ap crc32c (protected_early p b))
        ∙ p₁.checksum
        ∙ checksum_early p b
        ∙ sym (checksum_early p c)
        ∙ sym p₂.checksum
        ∙ ap crc32c (protected_early p c))
    | no p ↦ elim (dec_lt (length xs) 36) [
      | yes q ↦ ne (
          le_value_changed (drop 32 xs) _ b c (
            sym (checksum_middle (omega arith) q b)
            ∙ sym p₁.checksum
            ∙ ap crc32c
                (protected_middle (omega arith) q b ∙ sym (protected_middle (omega arith) q c))
            ∙ p₂.checksum
            ∙ checksum_middle (omega arith) q c))
      | no q ↦ crc32c_changed_byte (take 32 xs ++ drop 36 xs) ys b c hb hc ne (
          sym (ap crc32c (protected_late (omega arith) b))
          ∙ p₁.checksum
          ∙ checksum_late (omega arith) b
          ∙ sym (checksum_late (omega arith) c)
          ∙ sym p₂.checksum
          ∙ ap crc32c (protected_late (omega arith) c))
    ]
  ]
    where
      p₁ : Accepted (damaged b) u
      p₁ = decode-Accepted (damaged b) u h

      p₂ : Accepted (damaged c) v
      p₂ = decode-Accepted (damaged c) v k
