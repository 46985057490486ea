-- ===== src/Common/Bytes.antt =====
-- Byte strings, and the little-endian fields of a DataView or Buffer.
use fipwave.Common.Lists.{
  length, take, drop, All, length-take, length-drop, All-take, All-drop, take-append-drop,
  drop-drop,
}
use Prim.Native.Nat.{ℕ, zero, suc, ◌+◌, ◌*◌, ◌/◌, ◌%◌, ◌^◌, ◌<◌, ◌≤◌}
use mathlib.Core.Path.{◌≡◌, refl, ap, ap₂, ◌∙◌}
use mathlib.Core.List.{List, [], ◌∷◌, ◌++◌}
use native.Mathlib.Nat.{pow-suc}
use native.Mathlib.Omega.{arith}

abbrev pub IsByte : ℕ → Type 0
IsByte b = b < 256

-- The `n` bytes that `setUint` writes for a number.
unfoldable pub le_bytes : ℕ → ℕ → List ℕ
le_bytes zero v = []
le_bytes (suc n) v = v % 256 ∷ le_bytes n (v / 256)

-- The number that `getUint` reads from bytes.
unfoldable pub le_value : List ℕ → ℕ
le_value [] = 0
le_value (b ∷ bs) = b + 256 * le_value bs

-- `getUint` of `n` bytes at an offset.
unfoldable pub get_uint : ℕ → ℕ → List ℕ → ℕ
get_uint n offset bytes = le_value (take n (drop offset bytes))

pub length-le_bytes : (n v : ℕ) → length (le_bytes n v) ≡ n
unfolding le_bytes
length-le_bytes zero v = refl
length-le_bytes (suc n) v = ap suc (length-le_bytes n (v / 256))

pub le_bytes-IsByte : (n v : ℕ) → All IsByte (le_bytes n v)
unfolding le_bytes
le_bytes-IsByte zero v = tt
le_bytes-IsByte (suc n) v = (omega arith, le_bytes-IsByte n (v / 256))

pub le_value-le_bytes : (n v : ℕ) → v < 256 ^ n → le_value (le_bytes n v) ≡ v
unfolding le_bytes le_value
le_value-le_bytes zero v h = omega arith
le_value-le_bytes (suc n) v h =
    omega (arith, le_value-le_bytes n (v / 256) (omega (arith, pow-suc 256 n)))

pub le_bytes-le_value :
    (n : ℕ) (bs : List ℕ) → length bs ≡ n → All IsByte bs → le_bytes n (le_value bs) ≡ bs
unfolding le_bytes le_value
le_bytes-le_value zero [] h b = refl
le_bytes-le_value zero (x ∷ xs) h b = absurd (omega arith)
le_bytes-le_value (suc n) [] h b = absurd (omega arith)
le_bytes-le_value (suc n) (x ∷ xs) h b =
    ap₂ ◌∷◌ (omega arith) (ap (le_bytes n) (omega arith) ∙ le_bytes-le_value n xs (omega arith) b.1)

-- Writing a field that was read gives back the bytes that it was read from.
pub field :
    (n k : ℕ) (bytes : List ℕ)
    → k + n ≤ length bytes
    → All IsByte bytes
    → le_bytes n (get_uint n k bytes) ++ drop (k + n) bytes ≡ drop k bytes
unfolding get_uint
field n k bytes h b =
    let part = take n (drop k bytes) in
    rw
      (
        le_bytes-le_value n part
            (rw (length-take n (drop k bytes), length-drop k bytes) (omega arith))
            (All-take IsByte n (drop k bytes) (All-drop IsByte k bytes b)),
        ← drop-drop n k bytes,
      )
      (take-append-drop n (drop k bytes))

pub byte_field :
    (k x : ℕ) (bytes : List ℕ)
    → k + 1 ≤ length bytes
    → All IsByte bytes
    → x ≡ get_uint 1 k bytes
    → x < 256
    → x ∷ drop (k + 1) bytes ≡ drop k bytes
unfolding le_bytes
byte_field k x bytes h b e l =
    ap (λ (y : ℕ). y ∷ drop (k + 1) bytes) {x = x} {y = get_uint 1 k bytes % 256} (omega arith)
    ∙ field 1 k bytes h b

le_value-lt : (n : ℕ) (bytes : List ℕ) → All IsByte bytes → le_value (take n bytes) < 256 ^ n
unfolding le_value
le_value-lt zero bytes b = omega arith
le_value-lt (suc n) [] b = omega (arith, pow-suc 256 n, le_value-lt n [] tt)
le_value-lt (suc n) (x ∷ xs) b = omega (arith, pow-suc 256 n, le_value-lt n xs b.1)

-- A field of `n` bytes fits them.
pub get_uint-lt : (n k : ℕ) (bytes : List ℕ) → All IsByte bytes → get_uint n k bytes < 256 ^ n
unfolding get_uint
get_uint-lt n k bytes b = le_value-lt n (drop k bytes) (All-drop IsByte k bytes b)
