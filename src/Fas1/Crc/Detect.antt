-- ===== src/Fas1/Crc/Detect.antt =====
-- What CRC-32C notices: the checksum is a 32-bit number, and changing one byte changes it.
use fipwave.Common.{
  ℕ, zero, suc, ◌/◌, ◌%◌, ◌^◌, ◌<◌, ◌≤◌, ◌+◌, ◌≡◌, ◌≢◌, refl, sym, ap, ◌∙◌, arith, List, [], ◌∷◌,
  ◌++◌, Bool, true, ◌&&◌, ◌==◌, ltb, ==_iff, ltb→lt, ℕ_discrete, get_or, if◌then◌else◌, ltb,
}
use fipwave.Common.Bits.{
  bit_xor-lt, bit_xor-cancel_left, bit_xor-cancel_right, bit_xor-shift, bit_xor-mod, bit_xor-zero,
}
use fipwave.Common.Bytes.{IsByte}
use fipwave.Fas1.Crc.{crc32c_table, crc_step, crc_loop, crc32c}
use Prim.Native.Nat.{bit_xor}

-- A test of the next `n` numbers from `from` on, which runs.
checks : (ℕ → Bool) → ℕ → ℕ → Bool
checks test from zero = true
checks test from (suc n) = test from && checks test (suc from) n

checks_all :
    (test : ℕ → Bool) (from n i : ℕ)
    → checks test from n ≡ true
    → from ≤ i
    → i < from + n
    → test i ≡ true
unfolding checks
checks_all test from zero i run low high = absurd (omega arith)
checks_all test from (suc n) i run low high = elim (ℕ_discrete from i) [
  | yes e ↦ ap test (sym e) ∙ (&&_true (test from) _ run).0
  | no ne ↦ checks_all test (suc from) n i (&&_true (test from) _ run).1 (omega arith) (omega arith)
]
  where
    &&_true : (a b : Bool) → (a && b) ≡ true → (a ≡ true) × (b ≡ true)
    &&_true a b h = (ground arith, ground arith)

entry : ℕ → ℕ
entry i = get_or crc32c_table i 0

-- Where a value first stands in the top bytes of a table.
position : List ℕ → ℕ → ℕ
position [] top = 0
position (x ∷ xs) top = let rest = suc (position xs top) in if x / 2 ^ 24 == top then 0 else rest

entries_bounded : checks (λ i. ltb (entry i) (2 ^ 32)) 0 256 ≡ true
unfolding checks entry crc32c_table
entries_bounded = refl

tops_distinct : checks (λ i. position crc32c_table (entry i / 2 ^ 24) == i) 0 256 ≡ true
unfolding checks entry crc32c_table position
tops_distinct = refl

entry-lt : (i : ℕ) → i < 256 → entry i < 2 ^ 32
entry-lt i h =
    ltb→lt (entry i) (2 ^ 32)
      (checks_all (λ i. ltb (entry i) (2 ^ 32)) 0 256 i entries_bounded (omega arith) (omega arith))

entry_top_injective : (i j : ℕ) → i < 256 → j < 256 → entry i / 2 ^ 24 ≡ entry j / 2 ^ 24 → i ≡ j
entry_top_injective i j h k e = sym (found i h) ∙ ap (position crc32c_table) e ∙ found j k
  where
    found : (i : ℕ) → i < 256 → position crc32c_table (entry i / 2 ^ 24) ≡ i
    found i h = (==_iff _ i).0 (
        checks_all (λ i. position crc32c_table (entry i / 2 ^ 24) == i) 0 256 i tops_distinct
          (omega arith) (omega arith))

crc_step-lt : (value byte : ℕ) → value < 2 ^ 32 → crc_step value byte < 2 ^ 32
unfolding crc_step entry
crc_step-lt value byte h =
    bit_xor-lt 32 _ _ (entry-lt (bit_xor value byte % 256) (omega arith)) (omega arith)

-- The top byte of the next value is that of the table entry.
step_top :
    (value byte : ℕ)
    → value < 2 ^ 32
    → crc_step value byte / 2 ^ 24 ≡ entry (bit_xor value byte % 256) / 2 ^ 24
unfolding crc_step entry
step_top value byte h =
    let t = entry (bit_xor value byte % 256) in
    bit_xor-shift 24 t (value / 256)
    ∙ ap (bit_xor (t / 2 ^ 24)) {x = value / 256 / 2 ^ 24} {y = 0} (omega arith)
    ∙ bit_xor-zero (t / 2 ^ 24)

same_index :
    (v w b c : ℕ)
    → v < 2 ^ 32
    → w < 2 ^ 32
    → crc_step v b ≡ crc_step w c
    → bit_xor v b % 256 ≡ bit_xor w c % 256
same_index v w b c hv hw e =
    entry_top_injective _ _ (omega arith) (omega arith)
      (sym (step_top v b hv) ∙ ap (λ (t : ℕ). t / 2 ^ 24) e ∙ step_top w c hw)

step_injective_byte :
    (v b c : ℕ) → v < 2 ^ 32 → b < 256 → c < 256 → crc_step v b ≡ crc_step v c → b ≡ c
step_injective_byte v b c h hb hc e = omega (
  arith,
  bit_xor-cancel_left (v % 2 ^ 8) (b % 2 ^ 8) (c % 2 ^ 8)
      (sym (bit_xor-mod 8 v b) ∙ same_index v v b c h h e ∙ bit_xor-mod 8 v c),
)

step_injective_value : (v w b : ℕ) → v < 2 ^ 32 → w < 2 ^ 32 → crc_step v b ≡ crc_step w b → v ≡ w
unfolding crc_step
step_injective_value v w b hv hw e = omega (arith, low, high)
  where
    index : bit_xor v b % 256 ≡ bit_xor w b % 256
    index = same_index v w b b hv hw e

    low : v % 2 ^ 8 ≡ w % 2 ^ 8
    low =
        bit_xor-cancel_right (v % 2 ^ 8) (w % 2 ^ 8) (b % 2 ^ 8)
          (sym (bit_xor-mod 8 v b) ∙ index ∙ bit_xor-mod 8 w b)

    high : v / 256 ≡ w / 256
    high =
        bit_xor-cancel_left (entry (bit_xor v b % 256)) (v / 256) (w / 256)
          (unfold entry in e ∙ ap (λ (i : ℕ). bit_xor (entry i) (w / 256)) (sym index))

crc_loop-lt : (value : ℕ) (bytes : List ℕ) → value < 2 ^ 32 → crc_loop value bytes < 2 ^ 32
unfolding crc_loop
crc_loop-lt value [] h = h
crc_loop-lt value (b ∷ bs) h = crc_loop-lt (crc_step value b) bs (crc_step-lt value b h)

loop_injective :
    (v w : ℕ) (bytes : List ℕ)
    → v < 2 ^ 32
    → w < 2 ^ 32
    → crc_loop v bytes ≡ crc_loop w bytes
    → v ≡ w
unfolding crc_loop
loop_injective v w [] hv hw e = e
loop_injective v w (b ∷ bs) hv hw e =
    step_injective_value v w b hv hw
      (loop_injective (crc_step v b) (crc_step w b) bs (crc_step-lt v b hv) (crc_step-lt w b hw) e)

loop_changed :
    (v b c : ℕ) (xs ys : List ℕ)
    → v < 2 ^ 32
    → b < 256
    → c < 256
    → crc_loop v (xs ++ (b ∷ ys)) ≡ crc_loop v (xs ++ (c ∷ ys))
    → b ≡ c
unfolding crc_loop
loop_changed v b c [] ys hv hb hc e =
    step_injective_byte v b c hv hb hc
      (loop_injective (crc_step v b) (crc_step v c) ys (crc_step-lt v b hv) (crc_step-lt v c hv) e)
loop_changed v b c (x ∷ xs) ys hv hb hc e =
    loop_changed (crc_step v x) b c xs ys (crc_step-lt v x hv) hb hc e

pub crc32c-lt : (bytes : List ℕ) → crc32c bytes < 2 ^ 32
unfolding crc32c
crc32c-lt bytes =
    bit_xor-lt 32 _ 0xffff_ffff (crc_loop-lt 0xffff_ffff bytes (omega arith)) (omega arith)

-- Two byte strings that differ in exactly one byte have different checksums.
pub crc32c_changed_byte :
    (xs ys : List ℕ) (b c : ℕ)
    → IsByte b
    → IsByte c
    → b ≢ c
    → crc32c (xs ++ (b ∷ ys)) ≢ crc32c (xs ++ (c ∷ ys))
unfolding crc32c
crc32c_changed_byte xs ys b c hb hc ne e = ne (
    loop_changed 0xffff_ffff b c xs ys (omega arith) hb hc (bit_xor-cancel_right _ _ 0xffff_ffff e))
